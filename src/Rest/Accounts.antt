-- ===== src/Rest/Accounts.antt =====
-- The handlers of internal/controller/restapi/v1 that change sessions (sessions.go), favorites
-- (favorites.go) and revoke a share (sharing.go).
use cloud_zero_knowledge_sto.Base.{ℕ, none, some, [], ⊤, text}
use cloud_zero_knowledge_sto.Store.{Env, Error, session_not_found, Action, pure, attempt}
use cloud_zero_knowledge_sto.Middleware.{Response}
use cloud_zero_knowledge_sto.Sharing.{revoke_my_share}
use cloud_zero_knowledge_sto.Favorites.{favor_blob, unfavor_blob, favor_folder, unfavor_folder}
use cloud_zero_knowledge_sto.Auth.Models.{AuthSettings}
use cloud_zero_knowledge_sto.Auth.{revoke_device_session, revoke_other_device_sessions}
use cloud_zero_knowledge_sto.Rest.{
  Request, write_error, no_content, internal_error, sharing_error, must_user_id, or_refuse,
  log_and_end, with_id,
}

abbrev pub session_error : Error → Response
session_error session_not_found = write_error 404 (text "session not found")
session_error _ = internal_error

abbrev pub any_error : Error → Response
any_error _ = internal_error

-- The kinds of what can be marked.
pub data Resource : Type 0 where
  blob_resource folder_resource : Resource

module _ (e : Env) where
  unfoldable pub revoke_session_handler : AuthSettings → Request → Action Response
  revoke_session_handler s r = must_user_id r.user_id λ user.
      with_id e r (text "invalid session id") λ id.
        attempt (revoke_device_session e s user id)
          (or_refuse session_error λ _. log_and_end e r user (text "session_revoked") (some id) [])

  -- `current` is the device session of the token.
  unfoldable pub revoke_other_sessions_handler : AuthSettings → ℕ → Request → Action Response
  revoke_other_sessions_handler s current r = must_user_id r.user_id λ user.
      attempt (revoke_other_device_sessions e s user current)
        (or_refuse any_error λ _. log_and_end e r user (text "sessions_revoked_other") none [])

  abbrev pub add_mark : Resource → ℕ → ℕ → Action ⊤
  add_mark blob_resource user id = favor_blob e user id
  add_mark folder_resource user id = favor_folder e user id

  abbrev pub remove_mark : Resource → ℕ → ℕ → Action ⊤
  remove_mark blob_resource user id = unfavor_blob e user id
  remove_mark folder_resource user id = unfavor_folder e user id

  unfoldable pub favorites_add : Resource → Request → Action Response
  favorites_add kind r = must_user_id r.user_id λ user.
      with_id e r (text "invalid id")
        λ id. attempt (add_mark kind user id) (or_refuse any_error λ _. pure no_content)

  unfoldable pub favorites_remove : Resource → Request → Action Response
  favorites_remove kind r = must_user_id r.user_id λ user.
      with_id e r (text "invalid id")
        λ id. attempt (remove_mark kind user id) (or_refuse any_error λ _. pure no_content)

  unfoldable pub revoke_share_handler : Request → Action Response
  revoke_share_handler r = must_user_id r.user_id λ owner.
      with_id e r (text "invalid share_id") λ id. attempt (revoke_my_share e id owner) (
        or_refuse sharing_error λ _. log_and_end e r owner (text "file_share_revoked") (some id) [])
