-- ===== src/Uploads.antt =====
-- The multipart uploads of internal/usecase/storage/service.go: initiate, complete, abort and the
-- scheduled clean-up of what was never completed.
pub mod Admission
pub mod Overflow
pub mod Completion
pub mod Orphans
use cloud_zero_knowledge_sto.Base.{
  ℕ, zero, suc, ◌+◌, ◌-◌, ◌%◌, ◌^◌, Bool, ◌&&◌, Option, none, some, List, [], ◌∷◌, ◌++◌, Text, ⊤,
  ltb, if◌then◌else◌, is_empty, is_null,
}
use cloud_zero_knowledge_sto.Store.{
  Env, Action, Result, ok, err, not_found, folder_not_found, file_too_large, quota_exceeded,
  UploadedPart, pure, raise, raise_if, or_raise, attempt, ◌>>=◌, ◌>>◌, uuid_new, time_now,
  remove_object, stat_object, new_multipart_upload, presign_upload_part, complete_multipart_object,
  abort_multipart_upload, ignore_error,
}
use cloud_zero_knowledge_sto.Blobs.{
  OrphanedBlob, int64_limit, get_user_storage_used, register_blob, get_pending_blob_meta,
  confirm_blob_upload, abort_pending_blob, purge_orphaned_blobs,
}
use cloud_zero_knowledge_sto.Folders.{get_folder}
use cloud_zero_knowledge_sto.Names.{slash, trim_space, sanitize_file_name}

-- The limits of the service; 0 is no limit.
pub record Limits : Type 0 where
  pub max_upload_bytes : ℕ
  pub quota_bytes : ℕ

-- The sizes are those that the handler has validated, positive `int64` and `int` values.
pub record InitiateMultipartParams : Type 0 where
  pub user_id : ℕ
  pub file_name : Text
  pub content_type : Text
  pub file_size : ℕ
  pub file_size_plain : ℕ
  pub chunk_size : ℕ
  pub part_count : ℕ
  pub encrypted_file_key : List ℕ
  pub folder_id : Option ℕ

pub record PartUrl : Type 0 where
  pub part_number : ℕ
  pub url : Text

pub record InitiateMultipartResult : Type 0 where
  pub blob_id : ℕ
  pub upload_id : Text
  pub part_urls : List PartUrl

pub record CompleteMultipartParams : Type 0 where
  pub blob_id : ℕ
  pub user_id : ℕ
  pub parts : List UploadedPart

-- `s.MaxUploadBytes > 0 && p.FileSize > s.MaxUploadBytes`
abbrev pub is_too_large : Limits → ℕ → Bool
is_too_large l size = ltb 0 l.max_upload_bytes && ltb l.max_upload_bytes size

-- `used+p.FileSize > s.QuotaBytes`: the sum of two `int64` wraps, and from 2^63 on it is negative.
abbrev pub exceeds_quota : ℕ → ℕ → ℕ → Bool
exceeds_quota quota used size =
    let total = (used + size) % 2 ^ 64 in ltb total int64_limit && ltb quota total

module _ (e : Env) where
  unfoldable pub require_folder : ℕ → ℕ → Action ⊤
  require_folder folder_id user = do
    found ← get_folder e folder_id user
    raise_if (is_null found) folder_not_found

  abbrev pub require_optional_folder : Option ℕ → ℕ → Action ⊤
  require_optional_folder none user = pure tt
  require_optional_folder (some folder_id) user = require_folder folder_id user

  unfoldable pub check_quota : Limits → ℕ → ℕ → Action ⊤
  check_quota l user size =
      if ltb 0 l.quota_bytes
      then (do
        used ← get_user_storage_used e user
        raise_if (exceeds_quota l.quota_bytes used size) quota_exceeded)
      else pure tt

  unfoldable pub pass_or_abort : {A : Type 0} → Text → Text → Result A → Action A
  pass_or_abort key upload_id (ok a) = pure a
  pass_or_abort key upload_id (err x) = do
    ignore_error (abort_multipart_upload e key upload_id)
    raise x

  -- Run `m`; if it fails, abort the upload and pass the error on.
  unfoldable pub or_abort : {A : Type 0} → Text → Text → Action A → Action A
  unfolding pass_or_abort
  or_abort key upload_id m = attempt m (pass_or_abort key upload_id)

  -- The loop over the parts, from part `i` on.
  unfoldable pub presign_parts : Text → Text → ℕ → ℕ → Action (List PartUrl)
  presign_parts key upload_id zero i = pure []
  presign_parts key upload_id (suc n) i = do
    url ← or_abort key upload_id (presign_upload_part e key upload_id i)
    rest ← presign_parts key upload_id n (suc i)
    pure (record { part_number = i; url = url } ∷ rest)

  unfoldable pub initiate_multipart_upload :
      Limits → InitiateMultipartParams → Action InitiateMultipartResult
  unfolding check_quota presign_parts
  initiate_multipart_upload l p = do
    blob_id ← uuid_new e
    let key : Text = e.uuid_text p.user_id ++ slash ∷ e.uuid_text blob_id
    raise_if (is_too_large l p.file_size) file_too_large
    check_quota l p.user_id p.file_size
    require_optional_folder p.folder_id p.user_id
    upload_id ← new_multipart_upload e key
    or_abort key upload_id (
        register_blob e (record {
          id = blob_id;
          user_id = p.user_id;
          file_name = sanitize_file_name p.file_name;
          content_type = trim_space p.content_type;
          object_key = key;
          file_size = p.file_size;
          file_size_plain = p.file_size_plain;
          chunk_size = p.chunk_size;
          encrypted_file_key = p.encrypted_file_key;
          folder_id = p.folder_id;
          upload_id = upload_id;
        }))
    urls ← presign_parts key upload_id p.part_count 1
    pure (record { blob_id = blob_id; upload_id = upload_id; part_urls = urls })

  unfoldable pub complete_multipart_upload : CompleteMultipartParams → Action ⊤
  complete_multipart_upload p = do
    found ← get_pending_blob_meta e p.blob_id p.user_id
    meta ← or_raise found not_found
    raise_if (is_empty meta.upload_id) not_found
    complete_multipart_object e meta.object_key meta.upload_id p.parts
    actual_size ← stat_object e meta.object_key
    confirmed ← confirm_blob_upload e p.blob_id p.user_id actual_size
    if confirmed then pure tt else raise not_found

  -- What the object store holds for an upload that was not completed.
  abbrev pub discard : Text → Text → Action ⊤
  discard key upload_id =
      if is_empty upload_id then remove_object e key else abort_multipart_upload e key upload_id

  -- The object store first, the row last.
  unfoldable pub abort_upload : ℕ → ℕ → Action ⊤
  abort_upload user blob_id = do
    found ← get_pending_blob_meta e blob_id user
    pending ← or_raise found not_found
    discard pending.object_key pending.upload_id
    abort_pending_blob e blob_id user
    pure tt

  unfoldable pub discard_all : List OrphanedBlob → Action ⊤
  discard_all [] = pure tt
  discard_all (b ∷ bs) = do ignore_error (discard b.object_key b.upload_id); discard_all bs

  unfoldable pub clean_orphaned_blobs : ℕ → Action ⊤
  unfolding discard_all
  clean_orphaned_blobs ttl = do
    now ← time_now e
    blobs ← purge_orphaned_blobs e (now - ttl)
    discard_all blobs
