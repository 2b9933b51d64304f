-- ===== src/Sessions/Records.antt =====
-- The rows of refresh_sessions and device_sessions, their constraints, and the conditions and
-- changes of the statements on them in internal/repo/persistent/postgres.
use cloud_zero_knowledge_sto.Base.{
  ℕ, Bool, not, ◌&&◌, ◌||◌, Option, none, some, List, [], ◌∷◌, ◌++◌, Text, ⊤, ltb, ◌==◌,
  if◌then◌else◌, is_empty, is_null, text_eq, select, update, first, exists_row,
}
use cloud_zero_knowledge_sto.Store.{
  DeviceSession, RefreshSession, Db, Result, ok, err, unique_violation, foreign_key_violation,
}

pub record DeviceInfo : Type 0 where
  pub user_agent : Text
  pub ip_address : Text
  pub device_name : Text
  pub device_id : Text

pub record RefreshSessionParams : Type 0 where
  pub session_id : ℕ
  pub user_id : ℕ
  pub device_session_id : ℕ
  pub token_hash : List ℕ
  pub client_key : List ℕ
  pub expires_at : ℕ

pub record ConsumedSession : Type 0 where
  pub session_id : ℕ
  pub user_id : ℕ
  pub device_session_id : ℕ
  pub client_key : List ℕ

-- `uuid.Nil`
abbrev pub nil_uuid : ℕ
nil_uuid = 0

abbrev pub has_user : Db → ℕ → Bool
has_user d user = exists_row (λ u. u.id == user) d.users

abbrev pub has_token : List ℕ → RefreshSession → Bool
has_token hash r = text_eq r.refresh_token_hash hash

-- In the index on active hashes.
abbrev pub holds_token : List ℕ → RefreshSession → Bool
holds_token hash r = has_token hash r && is_null r.revoked_at

abbrev pub new_refresh_session : RefreshSessionParams → ℕ → RefreshSession
new_refresh_session p t = record {
  id = p.session_id;
  user_id = p.user_id;
  device_session_id = p.device_session_id;
  refresh_token_hash = p.token_hash;
  client_key = p.client_key;
  expires_at = p.expires_at;
  created_at = t;
  revoked_at = none;
}

unfoldable pub insert_refresh_session : RefreshSessionParams → ℕ → Db → Result ⊤ × Db
insert_refresh_session p t d =
    if exists_row (λ r. r.id == p.session_id || holds_token p.token_hash r) d.refresh_sessions
    then (err unique_violation, d)
    else if has_user d p.user_id && exists_row (λ s. s.id == p.device_session_id) d.device_sessions
    then (ok tt, record d { refresh_sessions = d.refresh_sessions ++ new_refresh_session p t ∷ [] })
    else (err foreign_key_violation, d)

abbrev pub is_active_device : DeviceSession → Bool
is_active_device s = is_null s.revoked_at

-- The condition of the UPDATE: the token is active at `t` and its device session is not revoked.
abbrev pub is_consumable : List ℕ → ℕ → List DeviceSession → RefreshSession → Bool
is_consumable hash t devices r =
    holds_token hash r
    && ltb t r.expires_at
    && exists_row (λ s. s.id == r.device_session_id && is_active_device s) devices

abbrev pub revoke_token : ℕ → RefreshSession → RefreshSession
revoke_token t r = record r { revoked_at = some t }

abbrev pub to_consumed : RefreshSession → ConsumedSession
to_consumed r = record {
  session_id = r.id;
  user_id = r.user_id;
  device_session_id = r.device_session_id;
  client_key = r.client_key;
}

-- Only two columns are selected.
abbrev pub to_revoked : RefreshSession → ConsumedSession
to_revoked r = record {
  session_id = nil_uuid;
  user_id = r.user_id;
  device_session_id = r.device_session_id;
  client_key = [];
}

abbrev pub revoke_device : ℕ → DeviceSession → DeviceSession
revoke_device t s = record s { revoked_at = some t }

abbrev pub new_device_session : ℕ → ℕ → DeviceInfo → ℕ → DeviceSession
new_device_session id user device t = record {
  id = id;
  user_id = user;
  device_id = device.device_id;
  device_name = device.device_name;
  ip_address = device.ip_address;
  user_agent = device.user_agent;
  created_at = t;
  last_active_at = t;
  revoked_at = none;
}

unfoldable pub insert_device_session : ℕ → ℕ → DeviceInfo → ℕ → Db → Result ℕ × Db
insert_device_session id user device t d =
    if exists_row (λ s. s.id == id) d.device_sessions
    then (err unique_violation, d)
    else if has_user d user
    then (
      ok id,
      record d { device_sessions = d.device_sessions ++ new_device_session id user device t ∷ [] },
    )
    else (err foreign_key_violation, d)

-- In the index that ON CONFLICT names.
abbrev pub is_device_of : ℕ → Text → DeviceSession → Bool
is_device_of user device_id s =
    s.user_id == user
    && text_eq s.device_id device_id
    && not (is_empty s.device_id)
    && is_active_device s

abbrev pub seen_again : DeviceInfo → ℕ → DeviceSession → DeviceSession
seen_again device t s = record s {
  device_name = device.device_name;
  ip_address = device.ip_address;
  user_agent = device.user_agent;
  last_active_at = t;
}

abbrev pub is_active_token_of : ℕ → RefreshSession → Bool
is_active_token_of device r = r.device_session_id == device && is_null r.revoked_at

-- ON CONFLICT: a row is updated, and the CTE `_revoke` takes its tokens unless its id is the new one.
abbrev pub reuse_device_session : ℕ → ℕ → DeviceInfo → ℕ → Db → DeviceSession → Result ℕ × Db
reuse_device_session id user device t d s = (
  ok s.id,
  record d {
    device_sessions =
        update (is_device_of user device.device_id) (seen_again device t) d.device_sessions;
    refresh_sessions =
        update (λ r. is_active_token_of s.id r && not (s.id == id)) (revoke_token t)
          d.refresh_sessions;
  },
)

abbrev pub insert_or_reuse : ℕ → ℕ → DeviceInfo → ℕ → Db → Option DeviceSession → Result ℕ × Db
insert_or_reuse id user device t d none = insert_device_session id user device t d
insert_or_reuse id user device t d (some s) = reuse_device_session id user device t d s

unfoldable pub upsert_device_session : ℕ → ℕ → DeviceInfo → ℕ → Db → Result ℕ × Db
unfolding insert_device_session
upsert_device_session id user device t d =
    insert_or_reuse id user device t d
      (first (select (is_device_of user device.device_id) d.device_sessions))

-- `revokeOrphanedCond`: no token of the device session is active at `t`.
abbrev pub is_orphaned : ℕ → List RefreshSession → DeviceSession → Bool
is_orphaned t tokens s =
    is_active_device s
    && not (exists_row (λ r. is_active_token_of s.id r && ltb t r.expires_at) tokens)

abbrev pub is_session_of : ℕ → ℕ → DeviceSession → Bool
is_session_of id user s = s.id == id && s.user_id == user && is_active_device s

abbrev pub is_other_session : ℕ → ℕ → DeviceSession → Bool
is_other_session user except s = s.user_id == user && not (s.id == except) && is_active_device s

abbrev pub is_other_token : ℕ → ℕ → RefreshSession → Bool
is_other_token user except r =
    r.user_id == user && not (r.device_session_id == except) && is_null r.revoked_at
