-- ===== src/Auth/Reuse.antt =====
-- What Refresh of internal/usecase/auth/service.go does with a token that was used before.
use mathlib.Core.Option
use cloud_zero_knowledge_sto.Base.{
  ℕ, Bool, true, ◌&&◌, some, List, ⊤, Text, ◌≡◌, refl, ap, arith, is_not_null, false, ◌⊎◌, inl, inr,
  Bool-cases, first, select, update, exists_row, update-none, updated_empty,
}
use cloud_zero_knowledge_sto.Store.{
  RefreshSession, DeviceSession, Error, store, Db, Env, World, ok, err, attempt, ignore_error,
  invalid_refresh, on_row,
}
use cloud_zero_knowledge_sto.Store.Ends.{
  Ends, Ends-bind, Ends-pure, Ends-given, Ends-attempt_split, Ends-ask, Ends-mono,
}
use cloud_zero_knowledge_sto.Store.Answering.{
  Ends-query_up, Ends-command_up, Ends-never, Raises, Raises-after, Raises-exec_then_up,
}
use cloud_zero_knowledge_sto.Names.{trim_space}
use cloud_zero_knowledge_sto.Sessions.{
  is_session_of, is_active_token_of, has_token, holds_token, is_consumable, revoke_device,
  revoke_token, to_revoked, find_revoked_session, consume_refresh_session, revoke_session,
}
use cloud_zero_knowledge_sto.Sessions.Ending.{ended_at, revoke_session_ends, revoke_session_fails}
use cloud_zero_knowledge_sto.Blocklist.{block}
use cloud_zero_knowledge_sto.Auth.Models.{AuthSettings}
use cloud_zero_knowledge_sto.Auth.Pairs.{refresh_token_hash}
use cloud_zero_knowledge_sto.Auth.{block_reused, handle_token_reuse, rotate, refresh}

-- The rows with this hash that were revoked.
abbrev pub is_used_token : List ℕ → RefreshSession → Bool
is_used_token hash r = has_token hash r && is_not_null r.revoked_at

-- The device session of `r` is revoked with all its tokens, and its id is blocked for `ttl` from
-- some time on.
abbrev pub IsCutOff : ℕ → RefreshSession → Db → Db → Type 0
IsCutOff ttl r d₀ d =
    (t : ℕ) × (t' : ℕ) × (d.device_sessions
      ≡ update (is_session_of r.device_session_id r.user_id) (revoke_device t) d₀.device_sessions)
    × (d.refresh_sessions
        ≡ update (is_active_token_of r.device_session_id) (revoke_token t) d₀.refresh_sessions)
    × (d.redis.blocked_sessions ≡ store r.device_session_id tt ttl t' d₀.redis.blocked_sessions)

-- What a used token does: it cuts the device session off while that is active. One that was revoked
-- already cannot be revoked again, and then nothing is blocked.
abbrev pub IsAnswered : ℕ → RefreshSession → Db → Db → Type 0
IsAnswered ttl r d₀ d =
    let there = exists_row (is_session_of r.device_session_id r.user_id) d₀.device_sessions in
    ((there ≡ true) × IsCutOff ttl r d₀ d) ⊎ ((there ≡ false) × (d ≡ d₀))

module _ (e : Env) (s : AuthSettings) (d₀ : Db) (sql_up : (n : ℕ) → e.sql_fails n ≡ false)
    (redis_up : (n : ℕ) → e.redis_fails n ≡ false) (r : RefreshSession) where
  abbrev own : DeviceSession → Bool
  own = is_session_of r.device_session_id r.user_id

  abbrev ended : ℕ → Db
  ended t =
      ended_at (is_session_of r.device_session_id r.user_id)
        (is_active_token_of r.device_session_id) t d₀

  abbrev CutOff : ⊤ → Db → Type 0
  CutOff _ = IsCutOff s.access_ttl r d₀

  block_reused_lem :
      (t : ℕ) → Ends (λ d. d ≡ ended t) (block_reused e s (to_revoked r) (ok tt)) CutOff (λ _. ⊥)
  unfolding block ignore_error
  block_reused_lem t =
      Ends-bind _ _ CutOff _ _
        (Ends-attempt_split _ _ CutOff (λ _. ⊥) _ _
          (Ends-command_up e redis_up _ _ _ λ t' d same. (
            t,
            t',
            ap (λ (x : Db). x.device_sessions) same,
            ap (λ (x : Db). x.refresh_sessions) same,
            ap (λ (x : Db). store r.device_session_id tt s.access_ttl t' x.redis.blocked_sessions)
                same,
          ))
          (λ a. Ends-pure _ _ _ λ d h. h) (λ x. Ends-never _ _ _))
        λ _. Ends-mono _ _ _ _ _ (Ends-ask e _ _ _) (λ a d h. h.1) (λ d h. h)

  block_failed_lem :
      (x : Error)
      → exists_row own d₀.device_sessions ≡ false
      → Ends
          (λ d. d ≡ d₀)
          (block_reused e s (to_revoked r) (err x))
          (λ _. IsAnswered s.access_ttl r d₀)
          (λ _. ⊥)
  block_failed_lem x gone = Ends-pure _ _ _ λ d same. inr (gone, same)

  revoked_lem :
      Ends
        (λ d. d ≡ d₀)
        (attempt (revoke_session e r.device_session_id r.user_id) (block_reused e s (to_revoked r)))
        (λ _. IsAnswered s.access_ttl r d₀)
        (λ _. ⊥)
  revoked_lem = elim (Bool-cases (exists_row own d₀.device_sessions)) [
    | inl there ↦
        Ends-attempt_split _ _ (λ _ d. (t : ℕ) × (d ≡ ended t)) (λ _. ⊥) _ _
          (revoke_session_ends e sql_up r.device_session_id r.user_id d₀ (λ _. ⊥) there)
          (λ _.
            Ends-mono _ _ _ _ _ (record { at = λ w h. (block_reused_lem h.0).at w h.1 })
              (λ a d h. inl (there, h)) (λ d h. h))
          (λ x. Ends-never _ _ _)
    | inr gone ↦
        Ends-attempt_split _ _ (λ _ _. ⊥) (λ d. d ≡ d₀) _ _
          (revoke_session_fails e sql_up r.device_session_id r.user_id d₀ gone)
          (λ _. Ends-never _ _ _) (λ x. block_failed_lem x gone)
  ]

  reuse_lem :
      (hash : List ℕ)
      → first (select (is_used_token hash) d₀.refresh_sessions) ≡ some r
      → Ends
          (λ d. d ≡ d₀)
          (handle_token_reuse e s hash)
          (λ _. IsAnswered s.access_ttl r d₀)
          (λ _. ⊥)
  unfolding handle_token_reuse find_revoked_session on_row
  reuse_lem hash at =
      Ends-attempt_split _ _ (λ found d. (found ≡ some (to_revoked r)) × (d ≡ d₀)) (λ _. ⊥) _ _
        (Ends-query_up e sql_up _ _ _ λ t d same. (rw same (ap (Option.map to_revoked) at), same))
        (λ found. Ends-given _ _ _ _ λ is. rw is revoked_lem) (λ x. Ends-never _ _ _)

  refresh_lem :
      (token : Text)
      → let hash = refresh_token_hash e (trim_space token) in
        exists_row (holds_token hash) d₀.refresh_sessions ≡ false
        → first (select (is_used_token hash) d₀.refresh_sessions) ≡ some r
        → Raises (λ d. d ≡ d₀) (refresh e s token) invalid_refresh (IsAnswered s.access_ttl r d₀)
  unfolding refresh rotate consume_refresh_session
  refresh_lem token spent at =
      let hash = refresh_token_hash e (trim_space token) in
      Raises-exec_then_up _ _ _ e sql_up _ _ λ t.
        let empty =
          updated_empty (is_consumable hash t d₀.device_sessions) (holds_token hash)
            (revoke_token t) (λ a h. ground arith) d₀.refresh_sessions spent in
        let same =
          update-none (is_consumable hash t d₀.device_sessions) (revoke_token t) d₀.refresh_sessions
            (ap first empty) in
        rw (same, empty) (Raises-after _ _ _ (reuse_lem hash at))

-- With a database and a Redis that answer, Refresh with a token that was used before, and that no
-- active row holds, fails with ErrInvalidRefresh. If the device session of the token is active, it is
-- cut off: it is revoked with every token of it, the newest included, and its id is blocked. If it
-- is not active any more, no table and no key changes.
pub refresh-IsAnswered :
    (e : Env) (s : AuthSettings) (token : Text) (w : World) (r : RefreshSession)
    → ((n : ℕ) → e.sql_fails n ≡ false)
    → ((n : ℕ) → e.redis_fails n ≡ false)
    → exists_row (holds_token (refresh_token_hash e (trim_space token))) w.db.refresh_sessions
      ≡ false
    → first (select (is_used_token (refresh_token_hash e (trim_space token))) w.db.refresh_sessions)
      ≡ some r
    → ((refresh e s token w).0 ≡ err invalid_refresh)
      × IsAnswered s.access_ttl r w.db (refresh e s token w).1.db
refresh-IsAnswered e s token w r sql_up redis_up spent at =
    (refresh_lem e s w.db sql_up redis_up r token spent at).at w refl
