-- ===== src/Auth/Proofs.antt =====
-- What LoginFinalize of internal/usecase/auth/service.go has checked, and what it leaves of the SRP
-- session, where Redis answers.
use cloud_zero_knowledge_sto.Base.{
  ℕ, false, Option, none, some, List, [], Text, ⊤, ◌≡◌, refl, sym, ap, subst, ◌∙◌, arith, select,
  select-delete_self, is_empty, inl, inr, Bool-cases,
}
use cloud_zero_knowledge_sto.Store.{
  Entry, SrpRecord, at_key, lookup, drop_key, Db, Env, World, Result, ok, err,
}
use cloud_zero_knowledge_sto.Store.Keeps.{Keeps, Keeps-sql, Keeps-exec, keeps_rules}
use cloud_zero_knowledge_sto.Store.Ends.{
  Outcome, Ends, Ends-bind, Ends-pure, Ends-raise, Ends-given, Ends-attempt_split, Ends-after,
  Ends-on_row, Ends-or_raise,
}
use cloud_zero_knowledge_sto.Store.Steps.{Ends-or_raise_then}
use cloud_zero_knowledge_sto.Store.Answering.{Ends-command_up, Ends-never}
use cloud_zero_knowledge_sto.Srp.{verify_client_proof}
use cloud_zero_knowledge_sto.Sessions.{
  DeviceInfo, RefreshSessionParams, insert_refresh_session, insert_device_session,
  upsert_device_session, create_refresh_session, create_device_session,
  revoke_user_orphaned_sessions,
}
use cloud_zero_knowledge_sto.Tokens.{issue_access}
use cloud_zero_knowledge_sto.SrpSessions.{SrpSessEntry, from_record, take_session, consume_session}
use cloud_zero_knowledge_sto.Auth.Models.{LoginFinalizeParams, LoginFinalizeResult, AuthSettings}
use cloud_zero_knowledge_sto.Auth.Pairs.{
  new_refresh_token, key_or_new, issue_token_pair_for_device, issue_token_pair,
}
use cloud_zero_knowledge_sto.Auth.Logins.{check_proof, login_finalize}

-- No SRP session is kept under the id.
pub record IsUsedUp (sid : ℕ) (d : Db) : Type 0 where
  pub gone : select (at_key sid) d.redis.srp_sessions ≡ []

-- What was read from the key of the id.
abbrev pub IsHeld : Env → ℕ → Db → Option SrpSessEntry → Type 0
IsHeld e sid before none = ⊤
IsHeld e sid before (some entry) =
    (t : ℕ) × (held : Entry SrpRecord) × (now : ℕ) × (lookup sid t before.redis.srp_sessions
      ≡ some held)
    × (from_record e now held.value ≡ some entry)

-- The proof of the client was verified against the session kept under the id, and the session is
-- gone.
pub record IsProven (e : Env) (sid : ℕ) (p : LoginFinalizeParams) (before : Db)
    (result : LoginFinalizeResult) (after : Db) : Type 0 where
  pub entry : SrpSessEntry
  pub held : IsHeld e sid before (some entry)
  pub verified :
      verify_client_proof e.sha_256 entry.session entry.a_hex p.m1
        (e.utf_8 entry.email)
        entry.srp_salt_hex
      ≡ ok result.m2
  pub user : result.user_id ≡ entry.user_id
  pub used_up : IsUsedUp sid after

same_keys : {sid : ℕ} (d d' : Db) → d'.redis ≡ d.redis → IsUsedUp sid d → IsUsedUp sid d'
same_keys d d' same h = record { gone = rw same h.gone }

insert_refresh_keys :
    (p : RefreshSessionParams) (t : ℕ) (d : Db) → (insert_refresh_session p t d).1.redis ≡ d.redis
unfolding insert_refresh_session
insert_refresh_keys p t d = ground arith

insert_device_keys :
    (id user : ℕ) (device : DeviceInfo) (t : ℕ) (d : Db)
    → (insert_device_session id user device t d).1.redis ≡ d.redis
unfolding insert_device_session
insert_device_keys id user device t d = ground arith

upsert_device_keys :
    (id user : ℕ) (device : DeviceInfo) (t : ℕ) (d : Db)
    → (upsert_device_session id user device t d).1.redis ≡ d.redis
unfolding upsert_device_session
upsert_device_keys id user device t d = ground (arith, insert_device_keys id user device t d)

module _ (e : Env) {sid : ℕ} where
  create_refresh-Keeps :
      (p : RefreshSessionParams) → Keeps (IsUsedUp sid) (create_refresh_session e p)
  unfolding create_refresh_session
  create_refresh-Keeps p = Keeps-sql e _ λ t d h. same_keys d _ (insert_refresh_keys p t d) h

  create_device-Keeps :
      (id user : ℕ) (device : DeviceInfo)
      → Keeps (IsUsedUp sid) (create_device_session e id user device)
  unfolding create_device_session
  create_device-Keeps id user device = elim (Bool-cases (is_empty device.device_id)) [
    | inl anonymous ↦
        rw anonymous
          (Keeps-sql e _ λ t d h. same_keys d _ (insert_device_keys id user device t d) h)
    | inr named ↦
        rw named (Keeps-sql e _ λ t d h. same_keys d _ (upsert_device_keys id user device t d) h)
  ]

  orphaned-Keeps : (user : ℕ) → Keeps (IsUsedUp sid) (revoke_user_orphaned_sessions e user)
  unfolding revoke_user_orphaned_sessions
  orphaned-Keeps user = Keeps-exec e _ λ t d h. same_keys d _ refl h

  issue_access-Keeps : (ttl user device : ℕ) → Keeps (IsUsedUp sid) (issue_access e ttl user device)
  unfolding issue_access
  issue_access-Keeps ttl user device = search keeps_rules

  token-Keeps : Keeps (IsUsedUp sid) (new_refresh_token e)
  unfolding new_refresh_token
  token-Keeps = search keeps_rules

  key-Keeps : (key : List ℕ) → Keeps (IsUsedUp sid) (key_or_new e key)
  unfolding key_or_new
  key-Keeps key = search keeps_rules

  module _ (s : AuthSettings) where
    for_device-Keeps :
        (user device : ℕ) (key : List ℕ)
        → Keeps (IsUsedUp sid) (issue_token_pair_for_device e s user device key)
    unfolding issue_token_pair_for_device
    for_device-Keeps user device key =
        search (keeps_rules, issue_access-Keeps, token-Keeps, key-Keeps, create_refresh-Keeps) depth
          12

    pair-Keeps :
        (user : ℕ) (device : DeviceInfo) → Keeps (IsUsedUp sid) (issue_token_pair e s user device)
    unfolding issue_token_pair
    pair-Keeps user device = search (keeps_rules, create_device-Keeps, for_device-Keeps)

    check_proof-Ends :
        (entry : SrpSessEntry) (p : LoginFinalizeParams) (r : Result Text)
        → Ends
            (IsUsedUp sid)
            (check_proof e s entry p r)
            (λ m2 d. (r ≡ ok m2) × IsUsedUp sid d)
            (IsUsedUp sid)
    check_proof-Ends entry p (ok m2) = Ends-pure _ _ _ λ d h. (refl, h)
    check_proof-Ends entry p (err _) =
        Ends-after _ _ _ (search keeps_rules) λ _. Ends-raise _ _ _ λ d h. h

read-IsHeld :
    (e : Env) (sid : ℕ) (d₀ : Db) (t now : ℕ) (x : Entry SrpRecord) (o : Option SrpSessEntry)
    → lookup sid t d₀.redis.srp_sessions ≡ some x
    → from_record e now x.value ≡ o
    → IsHeld e sid d₀ o
read-IsHeld e sid d₀ t now x none found read = tt
read-IsHeld e sid d₀ t now x (some entry) found read = (t, x, now, found, read)

consume_session-Ends :
    (e : Env) (sid : ℕ) (d₀ : Db)
    → ((n : ℕ) → e.redis_fails n ≡ false)
    → Ends
        (λ d. d ≡ d₀)
        (consume_session e sid)
        (λ o d. IsHeld e sid d₀ o × IsUsedUp sid d)
        (IsUsedUp sid)
unfolding consume_session take_session drop_key
consume_session-Ends e sid d₀ up =
    Ends-attempt_split _ _
      (λ taken d. ((t : ℕ) × (taken ≡ lookup sid t d₀.redis.srp_sessions)) × IsUsedUp sid d)
      (λ _. ⊥) _ _
      (Ends-command_up e up _ _ _ λ t d same. (
        (t, ap (λ (x : Db). lookup sid t x.redis.srp_sessions) same),
        record { gone = select-delete_self (at_key sid) d.redis.srp_sessions },
      ))
      (λ taken. Ends-given _ _ _ _ λ read.
        Ends-on_row taken _ _ _ _ (λ lost. Ends-pure _ _ _ λ d h. (tt, h))
          λ x got. Ends-after _ _ _ (search keeps_rules) λ now.
            Ends-pure _ _ _ λ d h. (read-IsHeld e sid d₀ read.0 now x _ (sym read.1 ∙ got) refl, h))
      (λ x. Ends-never _ _ _)

finalize_lem :
    (e : Env) (s : AuthSettings) (sid : ℕ) (p : LoginFinalizeParams) (d₀ : Db)
    → ((n : ℕ) → e.redis_fails n ≡ false)
    → e.parse_uuid p.session_id ≡ some sid
    → Ends (λ d. d ≡ d₀) (login_finalize e s p) (IsProven e sid p d₀) (IsUsedUp sid)
unfolding login_finalize
finalize_lem e s sid p d₀ up parsed =
    Ends-or_raise_then _ _ _ _ _ _ (λ lost. absurd (cc))
      λ id is.
        let same : sid ≡ id = cc in
        rw (← same) (
          Ends-bind _ _ _ _ _ (consume_session-Ends e sid d₀ up) λ consumed.
            Ends-given _ _ _ _ λ held.
              Ends-bind _ _ _ _ _ (Ends-or_raise consumed _ _ (λ d h. h)) λ entry.
                Ends-given _ _ _ _ λ got. Ends-bind _ _ _ _ _ (check_proof-Ends e s entry p _) λ m2.
                  Ends-given _ _ _ _ λ verified.
                    Ends-after _ _ _ (search (keeps_rules, orphaned-Keeps)) λ _.
                      Ends-after _ _ _ (pair-Keeps e s entry.user_id p.device) λ pair.
                        Ends-after _ _ _ (search keeps_rules) λ _. Ends-pure _ _ _ λ d h. record {
                          entry = entry;
                          held = subst (IsHeld e sid d₀) got held;
                          verified = verified;
                          user = refl;
                          used_up = h;
                        })

-- With a Redis that answers and an id that parses, LoginFinalize uses up the SRP session of the id,
-- whether it returns or fails; and when it returns, a session was kept under the id, the client's
-- proof was verified against it, and the result is of its user.
pub login_finalize-IsProven :
    (e : Env) (s : AuthSettings) (sid : ℕ) (p : LoginFinalizeParams) (w : World)
    → ((n : ℕ) → e.redis_fails n ≡ false)
    → e.parse_uuid p.session_id ≡ some sid
    → Outcome
        (login_finalize e s p w).0
        (λ result. IsProven e sid p w.db result (login_finalize e s p w).1.db)
        (IsUsedUp sid (login_finalize e s p w).1.db)
login_finalize-IsProven e s sid p w up parsed = (finalize_lem e s sid p w.db up parsed).at w refl
