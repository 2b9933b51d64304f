-- ===== src/Sessions.antt =====
-- internal/repo/persistent/postgres/refresh_sessions.go and device_sessions.go, with the constraints
-- of migrations on the two tables.
pub mod Records
pub mod Revoked
pub mod Statements
pub mod Ending
unfoldable pub use Records.*
use mathlib.Core.Option
use cloud_zero_knowledge_sto.Base.{
  ℕ, Bool, not, ◌&&◌, ◌||◌, Option, none, some, List, [], ◌∷◌, ◌++◌, map, Text, ⊤, ltb, ◌==◌,
  if◌then◌else◌, is_empty, is_null, is_not_null, text_eq, length, select, update, updated, first,
  exists_row, order_desc,
}
use cloud_zero_knowledge_sto.Store.{
  DeviceSession, RefreshSession, Db, Env, Action, Result, ok, err, unique_violation,
  foreign_key_violation, session_not_found, commit, pure, raise_if, ◌>>=◌, ◌>>◌, sql, query, exec,
  in_transaction,
}

module _ (e : Env) where
  unfoldable pub create_refresh_session : RefreshSessionParams → Action ⊤
  create_refresh_session p = sql e (insert_refresh_session p)

  unfoldable pub find_revoked_session : List ℕ → Action (Option ConsumedSession)
  find_revoked_session hash = query e λ _ d.
      Option.map to_revoked
        (first (select (λ r. has_token hash r && is_not_null r.revoked_at) d.refresh_sessions))

  unfoldable pub consume_refresh_session : List ℕ → Action (Option ConsumedSession)
  consume_refresh_session hash = exec e λ t d. (
    Option.map to_consumed (
        first
          (updated (is_consumable hash t d.device_sessions) (revoke_token t) d.refresh_sessions)),
    record d {
      refresh_sessions =
          update (is_consumable hash t d.device_sessions) (revoke_token t) d.refresh_sessions;
    },
  )

  unfoldable pub create_device_session : ℕ → ℕ → DeviceInfo → Action ℕ
  create_device_session id user device =
      if is_empty device.device_id
      then sql e (insert_device_session id user device)
      else sql e (upsert_device_session id user device)

  unfoldable pub update_last_active : ℕ → Action ⊤
  update_last_active id = exec e λ t d. (
    tt,
    record d {
      device_sessions =
          update (λ s. s.id == id) (λ s. record s { last_active_at = t }) d.device_sessions;
    },
  )

  unfoldable pub list_active_sessions : ℕ → Action (List DeviceSession)
  list_active_sessions user = query e λ _ d.
      order_desc (λ s. s.last_active_at)
        (select (λ s. s.user_id == user && is_active_device s) d.device_sessions)

  -- An UPDATE at `t` of the device sessions that `here` selects, and their ids.
  abbrev pub revoke_devices : (DeviceSession → Bool) → ℕ → Action (List ℕ)
  revoke_devices here t = exec e λ _ d. (
    map (λ s. s.id) (updated here (revoke_device t) d.device_sessions),
    record d { device_sessions = update here (revoke_device t) d.device_sessions },
  )

  abbrev pub revoke_tokens : (RefreshSession → Bool) → ℕ → Action ⊤
  revoke_tokens here t =
      exec e
        λ _ d. (tt, record d { refresh_sessions = update here (revoke_token t) d.refresh_sessions })

  unfoldable pub revoke_session : ℕ → ℕ → Action ⊤
  revoke_session id user = in_transaction e λ t. do
    ids ← revoke_devices (is_session_of id user) t
    raise_if (length ids == 0) session_not_found
    revoke_tokens (is_active_token_of id) t
    pure (commit tt)

  unfoldable pub revoke_other_sessions : ℕ → ℕ → Action (List ℕ)
  revoke_other_sessions user except = in_transaction e λ t. do
    ids ← revoke_devices (is_other_session user except) t
    revoke_tokens (is_other_token user except) t
    pure (commit ids)

  unfoldable pub revoke_orphaned_sessions : Action ⊤
  revoke_orphaned_sessions = exec e λ t d. (
    tt,
    record d {
      device_sessions =
          update (is_orphaned t d.refresh_sessions) (revoke_device t) d.device_sessions;
    },
  )

  unfoldable pub revoke_user_orphaned_sessions : ℕ → Action ⊤
  revoke_user_orphaned_sessions user = exec e λ t d. (
    tt,
    record d {
      device_sessions =
          update (λ s. s.user_id == user && is_orphaned t d.refresh_sessions s) (revoke_device t)
            d.device_sessions;
    },
  )
