-- ===== src/Auth/OtherPairs.antt =====
-- The methods of internal/usecase/auth/service.go where a device session is revoked.
use cloud_zero_knowledge_sto.Base.{ℕ, false, Option, none, some, List, [], refl, Text, ⊤, ◌≡◌, ◌==◌}
use cloud_zero_knowledge_sto.Store.{User, Db, Env, Result, ok, err}
use cloud_zero_knowledge_sto.Store.Keeps.{Keeps, Keeps-exec, keeps_rules}
use cloud_zero_knowledge_sto.Store.Ends.{
  Ends, Ends-bind, Ends-pure, Ends-given, Ends-raise, Ends-after,
}
use cloud_zero_knowledge_sto.Sessions.{DeviceInfo, ConsumedSession, consume_refresh_session}
use cloud_zero_knowledge_sto.SrpSessions.{SrpSessEntry}
use cloud_zero_knowledge_sto.Sessions.Revoked.{IsRevoked, OtherDevice, same_devices}
use cloud_zero_knowledge_sto.Sessions.Statements.{
  create_device_session-Ends, consume_refresh_session-Ends, update_last_active-Keeps,
  revoke_session-Keeps, revoke_other_sessions-Keeps, revoke_orphaned_sessions-Keeps,
  revoke_user_orphaned_sessions-Keeps, create_refresh_session-Keeps, find_revoked_session-Keeps,
  list_active_sessions-Keeps,
}
use cloud_zero_knowledge_sto.Auth.Models.{
  RegisterParams, LoginFinalizeParams, TokenPair, AuthSettings,
}
use cloud_zero_knowledge_sto.Auth.Pairs.{
  new_refresh_token, key_or_new, issue_token_pair_for_device, issue_token_pair, block_revoked,
}
use cloud_zero_knowledge_sto.Auth.Logins.{
  check_proof, or_fail, register_user, login_init, login_finalize,
}
use cloud_zero_knowledge_sto.Auth.Resets.{block_after_reset, send_reset_token}
use cloud_zero_knowledge_sto.Auth.{
  block_reused, revoke_reused, handle_token_reuse, rotate, refresh, logout,
}
use cloud_zero_knowledge_sto.Auth.Bystanders.{bystanders}

pub ruleset session_rules = (
  update_last_active-Keeps, revoke_session-Keeps, revoke_other_sessions-Keeps,
  revoke_orphaned_sessions-Keeps, revoke_user_orphaned_sessions-Keeps, create_refresh_session-Keeps,
  find_revoked_session-Keeps, list_active_sessions-Keeps,
)

-- The pair is of another device session.
abbrev pub IsOfOther : ℕ → TokenPair → Db → Type 0
IsOfOther id pair d = ((pair.device_session_id == id) ≡ false) × IsRevoked id d

module _ (e : Env) {id : ℕ} where
  new_refresh_token-Keeps : Keeps (IsRevoked id) (new_refresh_token e)
  unfolding new_refresh_token
  new_refresh_token-Keeps = search keeps_rules

  key_or_new-Keeps : (key : List ℕ) → Keeps (IsRevoked id) (key_or_new e key)
  unfolding key_or_new
  key_or_new-Keeps key = search keeps_rules

  module _ (s : AuthSettings) where
    pair_for_device-Ends :
        (user device : ℕ) (key : List ℕ)
        → (device == id) ≡ false
        → Ends
            (IsRevoked id)
            (issue_token_pair_for_device e s user device key)
            (IsOfOther id)
            (IsRevoked id)
    unfolding issue_token_pair_for_device
    pair_for_device-Ends user device key apart = Ends-after _ _ _ (search bystanders) λ access.
        Ends-after _ _ _ new_refresh_token-Keeps λ token.
          Ends-after _ _ _ (key_or_new-Keeps key) λ k.
            Ends-after _ _ _ (search keeps_rules) λ session_id.
              Ends-after _ _ _ (search keeps_rules) λ now.
                Ends-after _ _ _ (search session_rules) λ _. Ends-pure _ _ _ λ d h. (apart, h)

    pair-Ends :
        (user : ℕ) (device : DeviceInfo)
        → Ends (IsRevoked id) (issue_token_pair e s user device) (IsOfOther id) (IsRevoked id)
    unfolding issue_token_pair
    pair-Ends user device = Ends-after _ _ _ (search keeps_rules) λ proposed.
        Ends-bind _ _ _ _ _ (create_device_session-Ends e proposed user device)
          λ a. Ends-given _ _ _ _ λ apart. pair_for_device-Ends user a [] apart

    pub register-Ends :
        (p : RegisterParams)
        → Ends (IsRevoked id) (register_user e s p) (IsOfOther id) (IsRevoked id)
    unfolding register_user
    register-Ends p =
        Ends-after _ _ _ (search keeps_rules)
          λ user. Ends-after _ _ _ (search bystanders) λ _. pair-Ends user p.device

    check_proof-Keeps :
        (entry : SrpSessEntry) (p : LoginFinalizeParams) (r : Result Text)
        → Keeps (IsRevoked id) (check_proof e s entry p r)
    check_proof-Keeps entry p (ok m2) = search keeps_rules
    check_proof-Keeps entry p (err _) = search keeps_rules

    pub finalize-Ends :
        (p : LoginFinalizeParams)
        → Ends (IsRevoked id) (login_finalize e s p) (λ r d. IsOfOther id r.pair d) (IsRevoked id)
    unfolding login_finalize
    finalize-Ends p = Ends-after _ _ _ (search keeps_rules) λ sid.
        Ends-after _ _ _ (search bystanders) λ consumed.
          Ends-after _ _ _ (search keeps_rules) λ entry.
            Ends-after _ _ _ (check_proof-Keeps entry p _) λ m2.
              Ends-after _ _ _ (search (keeps_rules, session_rules)) λ _.
                Ends-bind _ _ _ _ _ (pair-Ends entry.user_id p.device) λ pair.
                  Ends-given _ _ _ _ λ apart.
                    Ends-after _ _ _ (search keeps_rules) λ _. Ends-pure _ _ _ λ d h. (apart, h)

    or_fail-Keeps : {A : Type 0} (r : Result A) → Keeps (IsRevoked id) (or_fail e s r)
    or_fail-Keeps (ok a) = search keeps_rules
    or_fail-Keeps (err x) = search keeps_rules

    pub login_init-Keeps : (email a_hex : Text) → Keeps (IsRevoked id) (login_init e s email a_hex)
    unfolding login_init
    login_init-Keeps email a_hex = search (keeps_rules, bystanders, or_fail-Keeps) depth 12

    block_reused-Keeps :
        (c : ConsumedSession) (r : Result ⊤) → Keeps (IsRevoked id) (block_reused e s c r)
    block_reused-Keeps c (ok _) = search (keeps_rules, bystanders)
    block_reused-Keeps c (err _) = search keeps_rules

    revoke_reused-Keeps :
        (r : Result (Option ConsumedSession)) → Keeps (IsRevoked id) (revoke_reused e s r)
    revoke_reused-Keeps (ok found) = search (keeps_rules, session_rules, block_reused-Keeps) depth 8
    revoke_reused-Keeps (err _) = search keeps_rules

    pub reuse-Keeps : (hash : List ℕ) → Keeps (IsRevoked id) (handle_token_reuse e s hash)
    unfolding handle_token_reuse
    reuse-Keeps hash = search (keeps_rules, session_rules, revoke_reused-Keeps)

    rotate-Ends :
        (hash : List ℕ) (found : Option ConsumedSession)
        → Ends
            (λ d. OtherDevice id found × IsRevoked id d)
            (rotate e s hash found)
            (IsOfOther id)
            (IsRevoked id)
    unfolding rotate
    rotate-Ends hash none =
        Ends-given _ _ _ _ λ _. Ends-after _ _ _ (reuse-Keeps hash) λ _. Ends-raise _ _ _ λ d h. h
    rotate-Ends hash (some c) = Ends-given _ _ _ _ λ apart.
        Ends-after _ _ _ (search (keeps_rules, session_rules)) λ _.
          Ends-bind _ _ _ _ _
            (pair_for_device-Ends c.user_id c.device_session_id c.client_key apart)
            λ pair.
              Ends-given _ _ _ _ λ same.
                Ends-after _ _ _ (search bystanders) λ keys. Ends-pure _ _ _ λ d h. (same, h)

    pub refresh-Ends :
        (token : Text) → Ends (IsRevoked id) (refresh e s token) (IsOfOther id) (IsRevoked id)
    unfolding refresh
    refresh-Ends token =
        Ends-bind _ _ _ _ _ (consume_refresh_session-Ends e _) λ found. rotate-Ends _ found

    consume-Keeps : (hash : List ℕ) → Keeps (IsRevoked id) (consume_refresh_session e hash)
    unfolding consume_refresh_session
    consume-Keeps hash = Keeps-exec e _ λ t d h. same_devices d _ refl h

    pub logout-Keeps :
        (token : Text) (device : DeviceInfo) → Keeps (IsRevoked id) (logout e s token device)
    unfolding logout
    logout-Keeps token device = search (keeps_rules, session_rules, consume-Keeps) depth 8

    pub block_revoked-Keeps : (ids : List ℕ) → Keeps (IsRevoked id) (block_revoked e s ids)
    unfolding block_revoked
    block_revoked-Keeps ids = search (keeps_rules, bystanders)

    pub send_reset-Keeps :
        (email : Text) (u : User) → Keeps (IsRevoked id) (send_reset_token e s email u)
    unfolding send_reset_token
    send_reset-Keeps email u = search (keeps_rules, bystanders, new_refresh_token-Keeps) depth 12

    pub after_reset-Keeps : (r : Result (List ℕ)) → Keeps (IsRevoked id) (block_after_reset e s r)
    after_reset-Keeps (ok ids) = block_revoked-Keeps ids
    after_reset-Keeps (err _) = search keeps_rules
