-- ===== src/Bin.antt =====
-- The trash as a whole in internal/usecase/storage/service.go: list, empty, and the scheduled
-- purge of what has expired.
pub mod Emptying
use cloud_zero_knowledge_sto.Base.{ℕ, ◌-◌, List, [], ◌∷◌, ◌++◌, map, Text, ⊤}
use cloud_zero_knowledge_sto.Store.{
  Env, Blob, Folder, Action, Result, ok, err, pure, raise, attempt, ◌>>=◌, ◌>>◌, time_now,
}
use cloud_zero_knowledge_sto.Blobs.{
  EmptiedBlob, list_trashed_blobs, empty_trashed_blobs, purge_expired_blobs,
}
use cloud_zero_knowledge_sto.Folders.{
  EmptiedFolder, list_trashed_folders, empty_trashed_folders, purge_expired_folders,
}
use cloud_zero_knowledge_sto.Directories.{remove_all}

pub record TrashResult : Type 0 where
  pub blobs : List Blob
  pub folders : List Folder

abbrev pub both : Result (List Blob) → Result (List Folder) → Action TrashResult
both (err x) _ = raise x
both (ok blobs) (err x) = raise x
both (ok blobs) (ok folders) = pure (record { blobs = blobs; folders = folders })

module _ (e : Env) where
  -- The two goroutines only read, so either order gives the same lists.
  unfoldable pub list_trash : ℕ → Action TrashResult
  list_trash user =
      attempt (list_trashed_blobs e user)
        λ blobs. attempt (list_trashed_folders e user) λ folders. both blobs folders

  unfoldable pub empty_trash : ℕ → Action (List EmptiedBlob × List EmptiedFolder)
  unfolding remove_all
  empty_trash user = do
    blobs ← empty_trashed_blobs e user
    (folders, folder_blob_keys) ← empty_trashed_folders e user
    remove_all e (map (λ b. b.object_key) blobs)
    remove_all e folder_blob_keys
    pure (blobs, folders)

  unfoldable pub clean_expired_trash : ℕ → Action ⊤
  unfolding remove_all
  clean_expired_trash ttl = do
    now ← time_now e
    blob_keys ← purge_expired_blobs e (now - ttl)
    folder_blob_keys ← purge_expired_folders e (now - ttl)
    remove_all e (blob_keys ++ folder_blob_keys)
