-- ===== src/Rest/Directories.antt =====
-- The handlers moveFolder and deleteFolder of internal/controller/restapi/v1/folders.go.
use cloud_zero_knowledge_sto.Base.{Option, some, Text, text}
use cloud_zero_knowledge_sto.Store.{Env, Action, attempt}
use cloud_zero_knowledge_sto.Middleware.{Response}
use cloud_zero_knowledge_sto.Directories.{move_directory, delete_directory}
use cloud_zero_knowledge_sto.Rest.{
  with_id, Request, folder_error, must_user_id, with_json, with_optional_id, or_refuse, log_and_end,
}
use cloud_zero_knowledge_sto.Rest.Files.{moved_name}

module _ (e : Env) where
  unfoldable pub move_folder_handler : Request → Option (Option Text) → Action Response
  move_folder_handler r body = must_user_id r.user_id λ user.
      with_id e r (text "invalid folder_id") λ id. with_json body λ raw.
        with_optional_id e (text "invalid parent_id") raw λ parent_id.
          attempt
            (move_directory e
              (record { folder_id = id; user_id = user; new_parent_id = parent_id }))
            (or_refuse folder_error λ info.
              log_and_end e r user (text "folder_moved") (some id)
                (moved_name info.folder_name info.src_folder_name info.dst_folder_name))

  unfoldable pub delete_folder_handler : Request → Action Response
  delete_folder_handler r = must_user_id r.user_id λ user.
      with_id e r (text "invalid folder_id") λ id.
        attempt (delete_directory e user id) (
          or_refuse folder_error
            λ name. log_and_end e r user (text "folder_deleted") (some id) name)
