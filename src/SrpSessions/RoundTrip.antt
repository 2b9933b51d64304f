-- ===== src/SrpSessions/RoundTrip.antt =====
-- Store and then Consume of internal/repo/cache/redis/srp_sessions.go.
use cloud_zero_knowledge_sto.Base.{
  ℕ, suc, ◌-◌, ◌*◌, ◌/◌, ◌≤◌, ◌<◌, true, false, Bool, none, some, List, ◌≡◌, refl, ap, arith, ltb,
  Option-cases, inl, inr,
}
use cloud_zero_knowledge_sto.Store.{
  millisecond, lookup, store, drop_key, Entry, SrpRecord, Env, World, Result, ok, running,
}
use cloud_zero_knowledge_sto.Store.KeyLaws.{lookup-store, lookup-drop_key}
use cloud_zero_knowledge_sto.Srp.RoundTrips.{session-snapshot}
use cloud_zero_knowledge_sto.SrpSessions.{
  SrpSessEntry, to_record, from_record, store_session, take_session, consume_session,
}

-- The time is cut to milliseconds.
abbrev pub kept : SrpSessEntry → SrpSessEntry
kept x = record x { expires_at = x.expires_at / millisecond * millisecond }

module _ (e : Env) (parse_back : (id : ℕ) → e.parse_uuid (e.uuid_text id) ≡ some id)
    (base_64_back : (bs : List ℕ) → e.decode_base_64 (e.base_64 bs) ≡ bs) where
  from_record-to_record :
      (now : ℕ) (x : SrpSessEntry)
      → ltb (x.expires_at / millisecond) (now / millisecond) ≡ false
      → from_record e now (to_record e x) ≡ some (kept x)
  unfolding from_record to_record
  from_record-to_record now x fresh =
      rw
        (
          fresh,
          parse_back x.user_id,
          session-snapshot x.session,
          base_64_back x.crypto_salt,
          base_64_back x.encrypted_private_key,
          base_64_back x.kek_encrypted_master,
        )
        refl

  module _ (up : (n : ℕ) → e.redis_fails n ≡ false) (id : ℕ) (x : SrpSessEntry) (w : World)
      (first_tick : e.now w.steps ≤ e.now (suc w.steps))
      (second_tick : e.now (suc w.steps) ≤ e.now (suc (suc w.steps)))
      (third_tick : e.now (suc (suc w.steps)) ≤ e.now (suc (suc (suc w.steps))))
      (in_time : e.now (suc (suc (suc w.steps))) < x.expires_at) where
    store_lem : store_session e id x w ≡ (
      ok true,
      record w {
        db = record w.db {
          redis = record w.db.redis {
            srp_sessions =
                store id
                  (to_record e x)
                  (x.expires_at - e.now w.steps)
                  (e.now (suc w.steps))
                  w.db.redis.srp_sessions;
          };
        };
        steps = suc (suc w.steps);
      },
    )
    unfolding store_session running
    store_lem =
        let early : ltb (e.now w.steps) x.expires_at ≡ true = ground arith in
        rw (early, up (suc w.steps)) refl

    consume_lem :
        (v : World)
        → v.steps ≡ suc (suc w.steps)
        → v.db.redis.srp_sessions
          ≡ store id
              (to_record e x)
              (x.expires_at - e.now w.steps)
              (e.now (suc w.steps))
              w.db.redis.srp_sessions
        → (consume_session e id v).0 ≡ ok (some (kept x))
    unfolding consume_session take_session running
    consume_lem v at is =
        rw
          (
            up v.steps,
            is,
            at,
            lookup-store id (to_record e x) (x.expires_at - e.now w.steps) (e.now (suc w.steps))
                (e.now (suc (suc w.steps))) w.db.redis.srp_sessions (omega arith),
            from_record-to_record (e.now (suc (suc (suc w.steps)))) x (ground arith),
          )
          refl

module _ (e : Env) (up : (n : ℕ) → e.redis_fails n ≡ false) (id : ℕ) where
  consume_drops :
      (v : World)
      → (consume_session e id v).1.db.redis.srp_sessions ≡ drop_key id v.db.redis.srp_sessions
  unfolding consume_session take_session running
  consume_drops v = elim (Option-cases (lookup id (e.now v.steps) v.db.redis.srp_sessions)) [
    | inl lost ↦ rw (up v.steps, lost) refl
    | inr (x, found) ↦ rw (up v.steps, found) refl
  ]

  consume_gone :
      (v : World) (xs : List (Entry SrpRecord))
      → v.db.redis.srp_sessions ≡ drop_key id xs
      → (consume_session e id v).0 ≡ ok none
  unfolding consume_session take_session running
  consume_gone v xs is = rw (up v.steps, is, lookup-drop_key id (e.now v.steps) xs) refl

-- With a Redis that answers and a clock that does not go back, an SRP session that is stored is
-- given back by Consume before its time is over, with its time in milliseconds; the next Consume of
-- the id gives none. Ids and bytes are taken to be read back from their text.
pub consume_session-store_session :
    (e : Env) (id : ℕ) (x : SrpSessEntry) (w : World)
    → ((n : ℕ) → e.parse_uuid (e.uuid_text n) ≡ some n)
    → ((bs : List ℕ) → e.decode_base_64 (e.base_64 bs) ≡ bs)
    → ((n : ℕ) → e.redis_fails n ≡ false)
    → ((n : ℕ) → e.now n ≤ e.now (suc n))
    → e.now (suc (suc (suc w.steps))) < x.expires_at
    → let stored = store_session e id x w in
      let consumed = consume_session e id stored.1 in
      (stored.0 ≡ ok true)
      × (consumed.0 ≡ ok (some (kept x)))
      × ((consume_session e id consumed.1).0 ≡ ok none)
consume_session-store_session e id x w parse_back base_64_back up steady in_time =
    let first_tick = steady w.steps in
    let second_tick = steady (suc w.steps) in
    let third_tick = steady (suc (suc w.steps)) in
    let is =
      store_lem e parse_back base_64_back up id x w first_tick second_tick third_tick in_time in
    let stored = (store_session e id x w).1 in
    (
      ap (λ (r : Result Bool × World). r.0) is,
      consume_lem e parse_back base_64_back up id x w first_tick second_tick third_tick in_time
          stored (ap (λ (r : Result Bool × World). r.1.steps) is)
          (ap (λ (r : Result Bool × World). r.1.db.redis.srp_sessions) is),
      consume_gone e up id (consume_session e id stored).1 _ (consume_drops e up id stored),
    )
