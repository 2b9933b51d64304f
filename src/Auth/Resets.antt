-- ===== src/Auth/Resets.antt =====
-- The password reset of internal/usecase/auth/service.go. Its fixed delay is left out.
use cloud_zero_knowledge_sto.Base.{
  ℕ, ◌+◌, not, Option, none, List, [], ◌++◌, Text, ⊤, if◌then◌else◌, is_empty, text,
}
use cloud_zero_knowledge_sto.Store.{
  User, Env, Action, Result, ok, err, reset_token_invalid, mail_failed, notify_password_reset, pure,
  or_raise, raise_if, ◌>>=◌, ◌>>◌, on_row, attempt, ask, time_now,
}
use cloud_zero_knowledge_sto.Names.{strip_slashes}
use cloud_zero_knowledge_sto.Sessions.{nil_uuid, revoke_other_sessions}
use cloud_zero_knowledge_sto.Users.{
  RecoveryData, ResetPasswordParams, get_by_email, get_recovery_data_by_user_id,
  update_credentials_and_kek, create_reset_token, get_user_id_from_reset_token,
  invalidate_user_tokens, consume_reset_token,
}
use cloud_zero_knowledge_sto.Auth.Models.{AuthSettings, reset_token_ttl, user_event}
use cloud_zero_knowledge_sto.Auth.Pairs.{
  log_async, normal_email, refresh_token_hash, new_refresh_token, block_revoked,
}

module _ (e : Env) (s : AuthSettings) where
  unfoldable pub send_reset_token : Text → User → Action ⊤
  send_reset_token email u = do
    invalidate_user_tokens e u.id
    (raw, hash) ← new_refresh_token e
    now ← time_now e
    create_reset_token e u.id hash (now + reset_token_ttl)
    let reset_url = strip_slashes s.frontend_origin ++ text "/auth/reset-password?token=" ++ raw
    sent ← ask e (notify_password_reset email reset_url) e.mail_ok
    raise_if (not sent) mail_failed

  unfoldable pub request_password_reset : Text → Action ⊤
  request_password_reset email = do
    found ← get_by_email e (normal_email e email)
    on_row found (pure tt) λ u.
        if is_empty u.kek_encrypted_recovery
        then pure tt
        else send_reset_token (normal_email e email) u

  unfoldable pub get_recovery_data : Text → Action (Option RecoveryData)
  get_recovery_data token = do
    found ← get_user_id_from_reset_token e (refresh_token_hash e token)
    on_row found (pure none) λ user. get_recovery_data_by_user_id e user

  abbrev pub block_after_reset : Result (List ℕ) → Action ⊤
  block_after_reset (err _) = pure tt
  block_after_reset (ok ids) = block_revoked e s ids

  -- What follows the use of the token.
  unfoldable pub renew_credentials : ResetPasswordParams → ℕ → Action ⊤
  renew_credentials p user = do
    update_credentials_and_kek e user p
    attempt (revoke_other_sessions e user nil_uuid) block_after_reset
    log_async e (user_event user (text "password_reset") [] [])

  unfoldable pub reset_password : Text → ResetPasswordParams → Action ⊤
  unfolding renew_credentials
  reset_password token p = do
    found ← consume_reset_token e (refresh_token_hash e token)
    user ← or_raise found reset_token_invalid
    renew_credentials p user
