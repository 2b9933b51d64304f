-- ===== src/SrpSessions.antt =====
-- internal/repo/cache/redis/srp_sessions.go, with SRPSessEntry of internal/usecase/auth.
pub mod RoundTrip
use cloud_zero_knowledge_sto.Base.{
  ℕ, ◌-◌, ◌*◌, ◌/◌, Bool, true, false, not, Option, none, some, List, Text, ltb, if◌then◌else◌,
}
use cloud_zero_knowledge_sto.Store.{
  Entry, SrpRecord, millisecond, lookup, drop_key, store, Env, Action, Result, ok, err, pure, ◌>>=◌,
  attempt, on_row, command, time_now,
}
use cloud_zero_knowledge_sto.Srp.{ServerSession, snapshot, new_server_session_from_snapshot}

pub record SrpSessEntry : Type 0 where
  pub user_id : ℕ
  pub email : Text
  pub srp_salt_hex : Text
  pub a_hex : Text
  pub session : ServerSession
  pub crypto_salt : List ℕ
  pub bcrypt_salt : Text
  pub encrypted_private_key : List ℕ
  pub kek_encrypted_master : List ℕ
  pub expires_at : ℕ

abbrev pub is_ok : {A : Type 0} → Result A → Bool
is_ok (ok _) = true
is_ok (err _) = false

module _ (e : Env) where
  unfoldable pub to_record : SrpSessEntry → SrpRecord
  to_record x =
      let s = snapshot x.session in
      record {
        user_id = e.uuid_text x.user_id;
        email = x.email;
        srp_salt_hex = x.srp_salt_hex;
        a_hex = x.a_hex;
        verifier_hex = s.verifier_hex;
        b_hex = s.b_hex;
        b_pub_hex = s.b_pub_hex;
        crypto_salt = e.base_64 x.crypto_salt;
        bcrypt_salt = x.bcrypt_salt;
        encrypted_private_key = e.base_64 x.encrypted_private_key;
        kek_encrypted_master = e.base_64 x.kek_encrypted_master;
        expires_at = x.expires_at / millisecond;
      }

  abbrev pub with_session : SrpRecord → ℕ → Result ServerSession → Option SrpSessEntry
  with_session r user (err _) = none
  with_session r user (ok session) = some (record {
    user_id = user;
    email = r.email;
    srp_salt_hex = r.srp_salt_hex;
    a_hex = r.a_hex;
    session = session;
    crypto_salt = e.decode_base_64 r.crypto_salt;
    bcrypt_salt = r.bcrypt_salt;
    encrypted_private_key = e.decode_base_64 r.encrypted_private_key;
    kek_encrypted_master = e.decode_base_64 r.kek_encrypted_master;
    expires_at = r.expires_at * millisecond;
  })

  abbrev pub with_user : SrpRecord → Option ℕ → Option SrpSessEntry
  with_user r none = none
  with_user r (some user) = with_session r user (
      new_server_session_from_snapshot
        (record { verifier_hex = r.verifier_hex; b_hex = r.b_hex; b_pub_hex = r.b_pub_hex }))

  unfoldable pub from_record : ℕ → SrpRecord → Option SrpSessEntry
  from_record now r =
      if ltb r.expires_at (now / millisecond) then none else with_user r (e.parse_uuid r.user_id)

  unfoldable pub store_session : ℕ → SrpSessEntry → Action Bool
  store_session id x = do
    now ← time_now e
    if not (ltb now x.expires_at)
        then pure false
        else attempt
            (command e λ t r. (
              tt,
              record r {
                srp_sessions = store id (to_record x) (x.expires_at - now) t r.srp_sessions;
              },
            ))
            λ done. pure (is_ok done)

  -- `GETDEL`
  unfoldable pub take_session : ℕ → Action (Option (Entry SrpRecord))
  take_session id =
      command e
        λ t r. (lookup id t r.srp_sessions, record r { srp_sessions = drop_key id r.srp_sessions })

  abbrev pub or_none : {A : Type 0} → Result (Option A) → Option A
  or_none (ok o) = o
  or_none (err _) = none

  unfoldable pub consume_session : ℕ → Action (Option SrpSessEntry)
  unfolding take_session
  consume_session id = attempt (take_session id) λ taken.
      on_row (or_none taken) (pure none) λ x. do now ← time_now e; pure (from_record now x.value)
