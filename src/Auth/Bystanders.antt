-- ===== src/Auth/Bystanders.antt =====
-- The statements and commands of internal/usecase/auth/service.go that leave device sessions alone.
use cloud_zero_knowledge_sto.Base.{ℕ, List, Text, ◌≡◌, refl, arith}
use cloud_zero_knowledge_sto.Store.{Db, Redis, Env, command}
use cloud_zero_knowledge_sto.Store.Keeps.{
  Keeps, Keeps-sql, Keeps-exec, Keeps-query, Keeps-command, Keeps-bind, Keeps-map_errors,
  Keeps-uuid_new, keeps_rules,
}
use cloud_zero_knowledge_sto.Sessions.Revoked.{IsRevoked, same_devices}
use cloud_zero_knowledge_sto.Users.{
  NewUserParams, ResetPasswordParams, as_user_exists, insert_user, insert_reset_token, create_user,
  get_by_email, get_recovery_data_by_user_id, update_credentials_and_kek,
  get_crypto_salt_and_kek_by_user_id, create_reset_token, get_user_id_from_reset_token,
  invalidate_user_tokens, consume_reset_token,
}
use cloud_zero_knowledge_sto.Blocklist.{block, block_batch}
use cloud_zero_knowledge_sto.Tokens.{issue_access}
use cloud_zero_knowledge_sto.SrpSessions.{
  SrpSessEntry, store_session, take_session, consume_session,
}

insert_user_devices :
    (p : NewUserParams) (d : Db) → (insert_user p d).1.device_sessions ≡ d.device_sessions
unfolding insert_user
insert_user_devices p d = ground arith

insert_token_devices :
    (id user : ℕ) (hash : List ℕ) (until t : ℕ) (d : Db)
    → (insert_reset_token id user hash until t d).1.device_sessions ≡ d.device_sessions
unfolding insert_reset_token
insert_token_devices id user hash until t d = ground arith

module _ (e : Env) {A : Type 0} {id : ℕ} where
  pub command-Keeps : (f : ℕ → Redis → A × Redis) → Keeps (IsRevoked id) (command e f)
  command-Keeps f = Keeps-command e f λ t d h. same_devices d _ refl h

module _ (e : Env) {id : ℕ} where
  pub create_user-Keeps : (p : NewUserParams) → Keeps (IsRevoked id) (create_user e p)
  unfolding create_user
  create_user-Keeps p =
      Keeps-map_errors as_user_exists _
        (Keeps-sql e _ λ t d h. same_devices d _ (insert_user_devices p d) h)

  pub get_by_email-Keeps : (email : Text) → Keeps (IsRevoked id) (get_by_email e email)
  unfolding get_by_email
  get_by_email-Keeps email = Keeps-query e _

  pub get_recovery-Keeps : (user : ℕ) → Keeps (IsRevoked id) (get_recovery_data_by_user_id e user)
  unfolding get_recovery_data_by_user_id
  get_recovery-Keeps user = Keeps-query e _

  pub update_credentials-Keeps :
      (user : ℕ) (p : ResetPasswordParams)
      → Keeps (IsRevoked id) (update_credentials_and_kek e user p)
  unfolding update_credentials_and_kek
  update_credentials-Keeps user p = Keeps-exec e _ λ t d h. same_devices d _ refl h

  pub get_keys-Keeps : (user : ℕ) → Keeps (IsRevoked id) (get_crypto_salt_and_kek_by_user_id e user)
  unfolding get_crypto_salt_and_kek_by_user_id
  get_keys-Keeps user = Keeps-query e _

  pub create_token-Keeps :
      (user : ℕ) (hash : List ℕ) (until : ℕ)
      → Keeps (IsRevoked id) (create_reset_token e user hash until)
  unfolding create_reset_token
  create_token-Keeps user hash until = Keeps-bind _ _ (Keeps-uuid_new e) λ k.
      Keeps-sql e (insert_reset_token k user hash until)
        λ t d h. same_devices d _ (insert_token_devices k user hash until t d) h

  pub get_token_user-Keeps :
      (hash : List ℕ) → Keeps (IsRevoked id) (get_user_id_from_reset_token e hash)
  unfolding get_user_id_from_reset_token
  get_token_user-Keeps hash = Keeps-query e _

  pub invalidate-Keeps : (user : ℕ) → Keeps (IsRevoked id) (invalidate_user_tokens e user)
  unfolding invalidate_user_tokens
  invalidate-Keeps user = Keeps-exec e _ λ t d h. same_devices d _ refl h

  pub consume_token-Keeps : (hash : List ℕ) → Keeps (IsRevoked id) (consume_reset_token e hash)
  unfolding consume_reset_token
  consume_token-Keeps hash = Keeps-exec e _ λ t d h. same_devices d _ refl h

  pub block-Keeps : (device ttl : ℕ) → Keeps (IsRevoked id) (block e device ttl)
  unfolding block
  block-Keeps device ttl = command-Keeps e _

  pub block_batch-Keeps : (ids : List ℕ) (ttl : ℕ) → Keeps (IsRevoked id) (block_batch e ids ttl)
  unfolding block_batch
  block_batch-Keeps ids ttl = search (keeps_rules, command-Keeps)

  pub issue_access-Keeps :
      (ttl user device : ℕ) → Keeps (IsRevoked id) (issue_access e ttl user device)
  unfolding issue_access
  issue_access-Keeps ttl user device = search keeps_rules

  pub store_session-Keeps :
      (key : ℕ) (x : SrpSessEntry) → Keeps (IsRevoked id) (store_session e key x)
  unfolding store_session
  store_session-Keeps key x = search (keeps_rules, command-Keeps)

  pub take_session-Keeps : (key : ℕ) → Keeps (IsRevoked id) (take_session e key)
  unfolding take_session
  take_session-Keeps key = command-Keeps e _

  pub consume_session-Keeps : (key : ℕ) → Keeps (IsRevoked id) (consume_session e key)
  unfolding consume_session
  consume_session-Keeps key = search (keeps_rules, take_session-Keeps)

pub ruleset bystanders = (
  create_user-Keeps, get_by_email-Keeps, get_recovery-Keeps, update_credentials-Keeps,
  get_keys-Keeps, create_token-Keeps, get_token_user-Keeps, invalidate-Keeps, consume_token-Keeps,
  block-Keeps, block_batch-Keeps, issue_access-Keeps, store_session-Keeps, consume_session-Keeps,
)
