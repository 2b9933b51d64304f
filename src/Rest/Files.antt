-- ===== src/Rest/Files.antt =====
-- The handlers of internal/controller/restapi/v1/storage.go that answer 204, and moveBlob of
-- folders.go.
use cloud_zero_knowledge_sto.Base.{
  Option, some, List, [], ◌∷◌, ◌++◌, Text, if◌then◌else◌, is_empty, text,
}
use cloud_zero_knowledge_sto.Store.{Env, UploadedPart, Action, pure, attempt}
use cloud_zero_knowledge_sto.Names.{trim_space}
use cloud_zero_knowledge_sto.Middleware.{Response}
use cloud_zero_knowledge_sto.Uploads.{complete_multipart_upload, abort_upload}
use cloud_zero_knowledge_sto.Files.{delete_file, rename_file, move_file}
use cloud_zero_knowledge_sto.Rest.{
  with_id, Request, Body, write_error, no_content, storage_error, folder_error, must_user_id,
  with_body, with_json, with_optional_id, or_refuse, or_root, log_and_end,
}

-- 8594 is the arrow.
abbrev pub moved_name : Text → Text → Text → Text
moved_name name source destination =
    name ++ text " (" ++ or_root source ++ 32 ∷ 8594 ∷ 32 ∷ or_root destination ++ text ")"

module _ (e : Env) where
  unfoldable pub storage_delete_blob : Request → Action Response
  storage_delete_blob r = must_user_id r.user_id λ user. with_id e r (text "invalid blob_id") λ id.
      attempt (delete_file e user id)
        (or_refuse storage_error λ name. log_and_end e r user (text "file_deleted") (some id) name)

  unfoldable pub storage_abort_upload : Request → Action Response
  storage_abort_upload r = must_user_id r.user_id λ user.
      with_id e r (text "invalid blob_id")
        λ id. attempt (abort_upload e user id) (or_refuse storage_error λ _. pure no_content)

  unfoldable pub storage_complete_multipart : Request → Body (List UploadedPart) → Action Response
  storage_complete_multipart r body = must_user_id r.user_id λ user.
      with_id e r (text "invalid blob_id") λ id. with_body body λ parts.
        attempt
          (complete_multipart_upload e (record { blob_id = id; user_id = user; parts = parts }))
          (or_refuse storage_error λ _. log_and_end e r user (text "file_uploaded") (some id) [])

  -- The event has the name of the request, the row the cleaned one.
  unfoldable pub rename_blob_handler : Request → Body Text → Action Response
  rename_blob_handler r body = must_user_id r.user_id λ user.
      with_id e r (text "invalid blob_id") λ id. with_body body λ raw.
        if is_empty (trim_space raw)
        then pure (write_error 400 (text "name must not be blank"))
        else attempt (rename_file e user id (trim_space raw)) (
            or_refuse storage_error
              λ _. log_and_end e r user (text "file_renamed") (some id) (trim_space raw))

  unfoldable pub move_blob_handler : Request → Option (Option Text) → Action Response
  move_blob_handler r body = must_user_id r.user_id λ user.
      with_id e r (text "invalid blob_id") λ id. with_json body λ raw.
        with_optional_id e (text "invalid folder_id") raw λ folder_id.
          attempt (move_file e user id folder_id) (
            or_refuse folder_error λ info.
              log_and_end e r user (text "file_moved") (some id)
                (moved_name info.file_name info.src_folder_name info.dst_folder_name))
