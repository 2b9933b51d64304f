-- ===== src/Files.antt =====
-- The operations of internal/usecase/storage/service.go on single blobs.
pub mod Deletion
pub mod RoundTrip
use cloud_zero_knowledge_sto.Base.{
  ℕ, Bool, Option, none, some, List, Text, ⊤, if◌then◌else◌, is_null,
}
use cloud_zero_knowledge_sto.Store.{
  Env, Blob, Action, folder_not_found, not_found, pure, raise, raise_if, or_raise, ◌>>=◌, ◌>>◌,
  presigned_get_object, remove_object,
}
use cloud_zero_knowledge_sto.Blobs.{
  BlobMeta, MoveBlobInfo, get_user_storage_used, get_blob_meta, trash_blob, restore_blob,
  peek_trashed_blob, hard_delete_blob, list_blobs, list_blobs_in_folder, move_blob, rename_blob,
}
use cloud_zero_knowledge_sto.Folders.{get_folder}
use cloud_zero_knowledge_sto.Names.{sanitize_file_name}
use cloud_zero_knowledge_sto.Uploads.{Limits, require_optional_folder}

pub record StorageUsage : Type 0 where
  pub used_bytes : ℕ
  pub quota_bytes : ℕ

-- `PresignGetResult` without the constant method and the lifetime of the link.
pub record PresignGetResult : Type 0 where
  pub blob_id : ℕ
  pub download_url : Text
  pub meta : BlobMeta

module _ (e : Env) where
  unfoldable pub get_storage_usage : Limits → ℕ → Action StorageUsage
  get_storage_usage l user = do
    used ← get_user_storage_used e user
    pure (record { used_bytes = used; quota_bytes = l.quota_bytes })

  unfoldable pub presign_get : ℕ → ℕ → Action PresignGetResult
  presign_get user blob_id = do
    found ← get_blob_meta e blob_id user
    meta ← or_raise found not_found
    url ← presigned_get_object e meta.object_key
    pure (record { blob_id = blob_id; download_url = url; meta = meta })

  -- `Service.DeleteBlob`: to the trash.
  unfoldable pub delete_file : ℕ → ℕ → Action Text
  delete_file user blob_id = do found ← trash_blob e blob_id user; or_raise found not_found

  unfoldable pub restore_file : ℕ → ℕ → Action Text
  restore_file user blob_id = do found ← restore_blob e blob_id user; or_raise found not_found

  -- The object goes first: while its removal fails the row stays.
  unfoldable pub hard_delete_file : ℕ → ℕ → Action Text
  hard_delete_file user blob_id = do
    found ← peek_trashed_blob e blob_id user
    (object_key, file_name) ← or_raise found not_found
    remove_object e object_key
    hard_delete_blob e blob_id user
    pure file_name

  unfoldable pub list_files : ℕ → Action (List Blob)
  list_files user = list_blobs e user

  unfoldable pub list_files_in_folder : ℕ → Option ℕ → Action (List Blob)
  list_files_in_folder user folder_id = do
    require_optional_folder e folder_id user
    list_blobs_in_folder e user folder_id

  abbrev pub folder_name : Option ℕ → ℕ → Action Text
  folder_name none user = pure List.[]
  folder_name (some folder_id) user = do
    found ← get_folder e folder_id user
    folder ← or_raise found folder_not_found
    pure folder.name

  unfoldable pub move_file : ℕ → ℕ → Option ℕ → Action MoveBlobInfo
  move_file user blob_id folder_id = do
    dst_folder_name ← folder_name folder_id user
    found ← move_blob e blob_id user folder_id
    info ← or_raise found not_found
    pure (record info { dst_folder_name = dst_folder_name })

  unfoldable pub rename_file : ℕ → ℕ → Text → Action ⊤
  rename_file user blob_id name = do
    done ← rename_blob e blob_id user (sanitize_file_name name)
    if done then pure tt else raise not_found
