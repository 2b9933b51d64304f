-- ===== src/Auth/Pairs.antt =====
-- How internal/usecase/auth/service.go makes tokens and blocks sessions.
use cloud_zero_knowledge_sto.Base.{
  ℕ, ◌+◌, ◌/◌, List, [], Text, ⊤, if◌then◌else◌, is_empty, length, ◌==◌,
}
use cloud_zero_knowledge_sto.Store.{
  AuditEvent, second, Env, Action, random_failed, log_event, pure, or_raise, ◌>>=◌, ◌>>◌, ask, draw,
  time_now, uuid_new, ignore_error,
}
use cloud_zero_knowledge_sto.Names.{trim_space}
use cloud_zero_knowledge_sto.Sessions.{DeviceInfo, create_refresh_session, create_device_session}
use cloud_zero_knowledge_sto.Blocklist.{block_batch}
use cloud_zero_knowledge_sto.Tokens.{issue_access}
use cloud_zero_knowledge_sto.Auth.Models.{TokenPair, AuthSettings}

module _ (e : Env) where
  abbrev pub log_async : AuditEvent → Action ⊤
  log_async x = ask e (log_event x) λ _. tt

  abbrev pub normal_email : Text → Text
  normal_email email = trim_space (e.to_lower email)

  unfoldable pub refresh_token_hash : Text → List ℕ
  refresh_token_hash raw = e.sha_256 (e.utf_8 raw)

  abbrev pub random : ℕ → Action (List ℕ)
  random n = do bytes ← draw e λ k. e.random_bytes k n; or_raise bytes random_failed

  -- The token and its hash.
  unfoldable pub new_refresh_token : Action (Text × List ℕ)
  unfolding refresh_token_hash
  new_refresh_token = do
    bytes ← random 32
    let raw = e.raw_url_base_64 bytes
    pure (raw, refresh_token_hash raw)

  unfoldable pub key_or_new : List ℕ → Action (List ℕ)
  key_or_new client_key = if is_empty client_key then random 32 else pure client_key

  module _ (s : AuthSettings) where
    unfoldable pub issue_token_pair_for_device : ℕ → ℕ → List ℕ → Action TokenPair
    issue_token_pair_for_device user device client_key = do
      (access_raw, access_exp) ← issue_access e s.access_ttl user device
      (refresh_raw, hash) ← new_refresh_token
      key ← key_or_new client_key
      id ← uuid_new e
      now ← time_now e
      create_refresh_session e (record {
        session_id = id;
        user_id = user;
        device_session_id = device;
        token_hash = hash;
        client_key = key;
        expires_at = now + s.refresh_ttl;
      })
      pure (record {
        access_token = access_raw;
        access_expires_in = access_exp;
        refresh_token = refresh_raw;
        refresh_expires_in = s.refresh_ttl / second;
        device_session_id = device;
        client_key = key;
        crypto_salt = [];
        kek_encrypted_master = [];
        encrypted_private_key = [];
      })

    unfoldable pub issue_token_pair : ℕ → DeviceInfo → Action TokenPair
    issue_token_pair user device = do
      proposed_id ← uuid_new e
      session_id ← create_device_session e proposed_id user device
      issue_token_pair_for_device user session_id []

    unfoldable pub block_revoked : List ℕ → Action ⊤
    block_revoked ids =
        if length ids == 0 then pure tt else ignore_error (block_batch e ids s.access_ttl)
