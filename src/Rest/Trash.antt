-- ===== src/Rest/Trash.antt =====
-- The handlers of internal/controller/restapi/v1/trash.go that change state.
use cloud_zero_knowledge_sto.Base.{ℕ, some, List, [], ◌∷◌, Text, ⊤, text}
use cloud_zero_knowledge_sto.Store.{Env, Action, Result, ok, err, pure, ◌>>◌, attempt}
use cloud_zero_knowledge_sto.Middleware.{Response}
use cloud_zero_knowledge_sto.Blobs.{EmptiedBlob}
use cloud_zero_knowledge_sto.Folders.{EmptiedFolder}
use cloud_zero_knowledge_sto.Files.{restore_file, hard_delete_file}
use cloud_zero_knowledge_sto.Directories.{restore_directory, hard_delete_directory}
use cloud_zero_knowledge_sto.Bin.{empty_trash}
use cloud_zero_knowledge_sto.Rest.{
  with_id, Request, no_content, internal_error, storage_error, audit_event, log_async, must_user_id,
}

module _ (e : Env) where
  -- The end of a handler on one blob or folder, from what the service answered.
  abbrev pub logged : Request → ℕ → ℕ → Text → Result Text → Action Response
  logged r user id kind (err x) = pure (storage_error x)
  logged r user id kind (ok name) = do
    log_async e (audit_event user kind r.real_ip r.user_agent (some id) name)
    pure no_content

  unfoldable pub trash_restore_blob : Request → Action Response
  trash_restore_blob r = must_user_id r.user_id λ user.
      with_id e r (text "invalid blob_id")
        λ id. attempt (restore_file e user id) (logged r user id (text "file_restored"))

  unfoldable pub trash_delete_blob : Request → Action Response
  trash_delete_blob r = must_user_id r.user_id λ user.
      with_id e r (text "invalid blob_id")
        λ id. attempt (hard_delete_file e user id) (logged r user id (text "file_hard_deleted"))

  unfoldable pub trash_restore_folder : Request → Action Response
  trash_restore_folder r = must_user_id r.user_id λ user.
      with_id e r (text "invalid folder_id")
        λ id. attempt (restore_directory e user id) (logged r user id (text "folder_restored"))

  unfoldable pub trash_delete_folder : Request → Action Response
  trash_delete_folder r = must_user_id r.user_id λ user.
      with_id e r (text "invalid folder_id") λ id.
        attempt (hard_delete_directory e user id) (logged r user id (text "folder_hard_deleted"))

  abbrev pub log_blobs : Request → ℕ → List EmptiedBlob → Action ⊤
  log_blobs r user [] = pure tt
  log_blobs r user (b ∷ bs) = do
    log_async e
        (audit_event user (text "file_hard_deleted") r.real_ip r.user_agent (some b.id) b.file_name)
    log_blobs r user bs

  abbrev pub log_folders : Request → ℕ → List EmptiedFolder → Action ⊤
  log_folders r user [] = pure tt
  log_folders r user (f ∷ fs) = do
    log_async e
        (audit_event user (text "folder_hard_deleted") r.real_ip r.user_agent (some f.id) f.name)
    log_folders r user fs

  abbrev pub after_emptying :
      Request → ℕ → Result (List EmptiedBlob × List EmptiedFolder) → Action Response
  after_emptying r user (err x) = pure internal_error
  after_emptying r user (ok (blobs, folders)) = do
    log_blobs r user blobs
    log_folders r user folders
    pure no_content

  unfoldable pub trash_empty : Request → Action Response
  trash_empty r =
      must_user_id r.user_id λ user. attempt (empty_trash e user) (after_emptying r user)
