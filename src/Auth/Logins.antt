-- ===== src/Auth/Logins.antt =====
-- Register, LoginInit and LoginFinalize of internal/usecase/auth/service.go.
use cloud_zero_knowledge_sto.Base.{◌+◌, not, Text, text}
use cloud_zero_knowledge_sto.Store.{
  Env, Action, Result, ok, err, invalid_input, invalid_credentials, at_capacity, notify_new_login,
  pure, raise, or_raise, raise_if, ◌>>=◌, ◌>>◌, ask, draw, time_now, uuid_new, ignore_error,
}
use cloud_zero_knowledge_sto.Srp.{public_ephemeral_hex, new_server_session, verify_client_proof}
use cloud_zero_knowledge_sto.Sessions.{revoke_user_orphaned_sessions}
use cloud_zero_knowledge_sto.Users.{create_user, get_by_email}
use cloud_zero_knowledge_sto.SrpSessions.{SrpSessEntry, store_session, consume_session}
use cloud_zero_knowledge_sto.Auth.Models.{
  RegisterParams, LoginFinalizeParams, TokenPair, LoginInitResult, LoginFinalizeResult,
  AuthSettings, srp_session_ttl, user_event,
}
use cloud_zero_knowledge_sto.Auth.Pairs.{log_async, normal_email, issue_token_pair}

module _ (e : Env) (s : AuthSettings) where
  unfoldable pub register_user : RegisterParams → Action TokenPair
  register_user p = do
    id ← uuid_new e
    create_user e (record {
      id = id;
      email = normal_email e p.email;
      srp_salt = p.srp_salt;
      srp_verifier = p.srp_verifier;
      bcrypt_salt = p.bcrypt_salt;
      crypto_salt = p.crypto_salt;
      public_key = p.public_key;
      encrypted_private_key = p.encrypted_private_key;
      kek_encrypted_master = p.kek_encrypted_master;
      kek_encrypted_recovery = p.kek_encrypted_recovery;
      recovery_salt = p.recovery_salt;
    })
    issue_token_pair e s id p.device

  -- What a result of pkg/srp becomes: any error, or the value.
  abbrev pub or_fail : {A : Type 0} → Result A → Action A
  or_fail (ok a) = pure a
  or_fail (err x) = raise x

  unfoldable pub login_init : Text → Text → Action LoginInitResult
  login_init email a_hex = do
    found ← get_by_email e (normal_email e email)
    u ← or_raise found invalid_credentials
    b_bytes ← draw e λ k. e.random_bytes k 32
    session ← or_fail (new_server_session e.sha_256 u.srp_verifier b_bytes)
    session_id ← uuid_new e
    now ← time_now e
    stored ← store_session e session_id (record {
      user_id = u.id;
      email = normal_email e email;
      srp_salt_hex = u.srp_salt;
      a_hex = a_hex;
      session = session;
      crypto_salt = u.crypto_salt;
      bcrypt_salt = u.bcrypt_salt;
      encrypted_private_key = u.encrypted_private_key;
      kek_encrypted_master = u.kek_encrypted_master;
      expires_at = now + srp_session_ttl;
    })
    raise_if (not stored) at_capacity
    pure (record {
      session_id = e.uuid_text session_id;
      srp_salt = u.srp_salt;
      bcrypt_salt = u.bcrypt_salt;
      b_pub = public_ephemeral_hex session;
      crypto_salt = u.crypto_salt;
    })

  abbrev pub check_proof : SrpSessEntry → LoginFinalizeParams → Result Text → Action Text
  check_proof entry p (ok m2) = pure m2
  check_proof entry p (err _) = do
    log_async e
        (user_event entry.user_id (text "login_failed") p.device.ip_address p.device.user_agent)
    raise invalid_credentials

  unfoldable pub login_finalize : LoginFinalizeParams → Action LoginFinalizeResult
  login_finalize p = do
    sid ← or_raise (e.parse_uuid p.session_id) invalid_input
    consumed ← consume_session e sid
    entry ← or_raise consumed invalid_credentials
    m2 ← check_proof entry p (
        verify_client_proof e.sha_256 entry.session entry.a_hex p.m1 (e.utf_8 entry.email)
          entry.srp_salt_hex)
    ignore_error (revoke_user_orphaned_sessions e entry.user_id)
    pair ← issue_token_pair e s entry.user_id p.device
    ask e (notify_new_login entry.email p.device.device_name p.device.ip_address) λ _. tt
    pure (record {
      m2 = m2;
      pair = record pair {
        crypto_salt = entry.crypto_salt;
        kek_encrypted_master = entry.kek_encrypted_master;
        encrypted_private_key = entry.encrypted_private_key;
      };
      user_id = entry.user_id;
    })
