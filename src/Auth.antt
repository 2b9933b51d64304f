-- ===== src/Auth.antt =====
-- Refresh, Logout and the device sessions of internal/usecase/auth/service.go. Logging is left out,
-- and Audit is never nil.
pub mod Models
pub mod Pairs
pub mod Logins
pub mod Resets
pub mod Requests
pub mod Bystanders
pub mod OtherPairs
pub mod Revocation
pub mod Reuse
pub mod Issuing
pub mod Rotation
pub mod Resetting
pub mod Proofs
use cloud_zero_knowledge_sto.Base.{
  ℕ, ◌+◌, ◌*◌, ◌/◌, Bool, not, ◌||◌, Option, none, some, List, [], ◌∷◌, ◌++◌, Text, ⊤,
  if◌then◌else◌, is_empty, text, length, ◌==◌,
}
use cloud_zero_knowledge_sto.Store.{
  User, DeviceSession, AuditEvent, second, Env, Action, Result, ok, err, invalid_input,
  invalid_credentials, invalid_refresh, reset_token_invalid, random_failed, mail_failed,
  at_capacity, log_event, notify_new_login, notify_password_reset, pure, raise, or_raise, raise_if,
  ◌>>=◌, ◌>>◌, on_row, attempt, ask, draw, time_now, uuid_new, ignore_error,
}
use cloud_zero_knowledge_sto.Names.{trim_space, strip_slashes}
use cloud_zero_knowledge_sto.Srp.{public_ephemeral_hex, new_server_session, verify_client_proof}
use cloud_zero_knowledge_sto.Sessions.{
  DeviceInfo, ConsumedSession, nil_uuid, create_refresh_session, find_revoked_session,
  consume_refresh_session, create_device_session, update_last_active, list_active_sessions,
  revoke_session, revoke_other_sessions, revoke_orphaned_sessions, revoke_user_orphaned_sessions,
}
use cloud_zero_knowledge_sto.Users.{
  RecoveryData, ResetPasswordParams, create_user, get_by_email, get_recovery_data_by_user_id,
  update_credentials_and_kek, get_crypto_salt_and_kek_by_user_id, create_reset_token,
  get_user_id_from_reset_token, invalidate_user_tokens, consume_reset_token,
}
use cloud_zero_knowledge_sto.Blocklist.{block, block_batch}
use cloud_zero_knowledge_sto.Tokens.{issue_access}
use cloud_zero_knowledge_sto.SrpSessions.{SrpSessEntry, store_session, consume_session}
use cloud_zero_knowledge_sto.Auth.Models.{
  RegisterParams, LoginFinalizeParams, TokenPair, LoginInitResult, LoginFinalizeResult,
  AuthSettings, srp_session_ttl, reset_token_ttl, user_event,
}
use cloud_zero_knowledge_sto.Auth.Pairs.{
  log_async, normal_email, refresh_token_hash, random, new_refresh_token, key_or_new,
  issue_token_pair_for_device, issue_token_pair, block_revoked,
}

module _ (e : Env) (s : AuthSettings) where
  -- Nothing follows where the revocation fails.
  abbrev pub block_reused : ConsumedSession → Result ⊤ → Action ⊤
  block_reused session (err _) = pure tt
  block_reused session (ok _) = do
    ignore_error (block e session.device_session_id s.access_ttl)
    log_async e (user_event session.user_id (text "refresh_token_reuse_detected") [] [])

  abbrev pub revoke_reused : Result (Option ConsumedSession) → Action ⊤
  revoke_reused (err _) = pure tt
  revoke_reused (ok found) = on_row found (pure tt) λ session.
      attempt (revoke_session e session.device_session_id session.user_id) (block_reused session)

  unfoldable pub handle_token_reuse : List ℕ → Action ⊤
  handle_token_reuse hash = attempt (find_revoked_session e hash) revoke_reused

  -- What follows the attempt to consume a token.
  unfoldable pub rotate : List ℕ → Option ConsumedSession → Action TokenPair
  rotate hash none = handle_token_reuse hash >>= λ _. raise invalid_refresh
  rotate hash (some consumed) = do
    ignore_error (update_last_active e consumed.device_session_id)
    pair ←
        issue_token_pair_for_device e s consumed.user_id consumed.device_session_id
          consumed.client_key
    keys ← get_crypto_salt_and_kek_by_user_id e consumed.user_id
    pure (record pair {
      crypto_salt = keys.crypto_salt;
      kek_encrypted_master = keys.kek_encrypted_master;
      encrypted_private_key = keys.encrypted_private_key;
    })

  unfoldable pub refresh : Text → Action TokenPair
  refresh refresh_token = do
    let hash = refresh_token_hash e (trim_space refresh_token)
    found ← consume_refresh_session e hash
    rotate hash found

  unfoldable pub logout : Text → DeviceInfo → Action ⊤
  logout refresh_token device = do
    found ← consume_refresh_session e (refresh_token_hash e (trim_space refresh_token))
    on_row found (pure tt) λ consumed. do
      revoke_session e consumed.device_session_id consumed.user_id
      log_async e (user_event consumed.user_id (text "logout") device.ip_address device.user_agent)

  unfoldable pub list_device_sessions : ℕ → Action (List DeviceSession)
  list_device_sessions user = list_active_sessions e user

  unfoldable pub revoke_device_session : ℕ → ℕ → Action ⊤
  revoke_device_session user session_id = do
    revoke_session e session_id user
    ignore_error (block e session_id s.access_ttl)

  unfoldable pub revoke_other_device_sessions : ℕ → ℕ → Action ⊤
  revoke_other_device_sessions user current = do
    ids ← revoke_other_sessions e user current
    block_revoked e s ids

  unfoldable pub clean_orphaned_sessions : Action ⊤
  clean_orphaned_sessions = revoke_orphaned_sessions e
