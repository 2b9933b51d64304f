-- ===== src/Sessions/Revoked.antt =====
-- A revoked device session over the statements of refresh_sessions.go and device_sessions.go.
use mathlib.Core.Option
use cloud_zero_knowledge_sto.Base.{
  ℕ, Bool, true, false, ◌&&◌, Option, none, some, List, [], ◌∷◌, ◌++◌, ⊤, ◌≡◌, refl, arith, inl,
  inr, Bool-cases, Option-cases, ◌==◌, first, select, update, updated, exists_row,
  exists-update-false, exists-update-true, exists-snoc, first-updated, first-select_sound,
}
use cloud_zero_knowledge_sto.Store.{DeviceSession, RefreshSession, Db}
use cloud_zero_knowledge_sto.Store.Ends.{Outcome}
use cloud_zero_knowledge_sto.Sessions.{
  DeviceInfo, ConsumedSession, is_active_device, is_device_of, revoke_token, seen_again,
  is_consumable, to_consumed, new_device_session, insert_device_session, upsert_device_session,
}

-- There is a device session of this id, and none of them is active.
pub record IsRevoked (id : ℕ) (d : Db) : Type 0 where
  pub known : exists_row (λ s. s.id == id) d.device_sessions ≡ true
  pub dead : exists_row (λ s. s.id == id && is_active_device s) d.device_sessions ≡ false

-- An active device session is another one.
active_apart :
    (id : ℕ) (a : DeviceSession) (q : DeviceSession → Bool) (rows : List DeviceSession)
    → exists_row (λ s. s.id == id && is_active_device s) rows ≡ false
    → first (select q rows) ≡ some a
    → is_active_device a ≡ true
    → (a.id == id) ≡ false
active_apart id a q [] dead at active = cc
active_apart id a q (x ∷ rows) dead at active = ground (arith, active_apart id a q rows)

module _ {id : ℕ} where
  pub same_devices :
      (d d' : Db) → d'.device_sessions ≡ d.device_sessions → IsRevoked id d → IsRevoked id d'
  same_devices d d' same h = record { known = rw same h.known; dead = rw same h.dead }

  -- An update that keeps the ids and revives no row.
  pub update-IsRevoked :
      (q : DeviceSession → Bool) (f : DeviceSession → DeviceSession) (d d' : Db)
      → d'.device_sessions ≡ update q f d.device_sessions
      → ((a : DeviceSession) → (f a).id ≡ a.id)
      → ((a : DeviceSession) → is_active_device a ≡ false → is_active_device (f a) ≡ false)
      → IsRevoked id d
      → IsRevoked id d'
  update-IsRevoked q f d d' is ids stays h = record {
    known = rw is (
        exists-update-true (λ s. s.id == id) q f (λ a hit. rw (ids a) hit) d.device_sessions
          h.known);
    dead = rw is (
        exists-update-false (λ s. s.id == id && is_active_device s) q f
          (λ a miss. ground (arith, ids a, stays a)) d.device_sessions h.dead);
  }

  snoc-IsRevoked :
      (x : DeviceSession) (d d' : Db)
      → d'.device_sessions ≡ d.device_sessions ++ x ∷ []
      → (x.id == id) ≡ false
      → IsRevoked id d
      → IsRevoked id d'
  snoc-IsRevoked x d d' is apart h = record {
    known = rw (is, exists-snoc (λ s. s.id == id) d.device_sessions x) (ground arith);
    dead =
        rw (is, exists-snoc (λ s. s.id == id && is_active_device s) d.device_sessions x)
          (ground arith);
  }

  -- An id that the primary key lets in is another one.
  fresh_apart :
      (new : ℕ) (d : Db)
      → IsRevoked id d
      → exists_row (λ s. s.id == new) d.device_sessions ≡ false
      → (new == id) ≡ false
  fresh_apart new d h free = elim (Bool-cases (new == id)) [
    | inr apart ↦ apart
    | inl same ↦
        let eq : new ≡ id = ground arith in
        let taken : exists_row (λ s. s.id == new) d.device_sessions ≡ true = rw eq h.known in cc
  ]

  pub insert-IsRevoked :
      (new user : ℕ) (device : DeviceInfo) (t : ℕ) (d : Db)
      → IsRevoked id d
      → Outcome
          (insert_device_session new user device t d).0
          (λ a. ((a == id) ≡ false) × IsRevoked id (insert_device_session new user device t d).1)
          (IsRevoked id (insert_device_session new user device t d).1)
  unfolding insert_device_session
  insert-IsRevoked new user device t d h =
      elim (Bool-cases (exists_row (λ s. s.id == new) d.device_sessions)) [
        | inl taken ↦ rw taken h
        | inr free ↦
            let apart = fresh_apart new d h free in
            elim (Bool-cases (exists_row (λ u. u.id == user) d.users)) [
              | inl there ↦
                  rw (free, there)
                    (apart, snoc-IsRevoked (new_device_session new user device t) d _ refl apart h)
              | inr missing ↦ rw (free, missing) h
            ]
      ]

  pub upsert-IsRevoked :
      (new user : ℕ) (device : DeviceInfo) (t : ℕ) (d : Db)
      → IsRevoked id d
      → Outcome
          (upsert_device_session new user device t d).0
          (λ a. ((a == id) ≡ false) × IsRevoked id (upsert_device_session new user device t d).1)
          (IsRevoked id (upsert_device_session new user device t d).1)
  unfolding upsert_device_session
  upsert-IsRevoked new user device t d h =
      elim (Option-cases (first (select (is_device_of user device.device_id) d.device_sessions))) [
        | inl free ↦ rw free (insert-IsRevoked new user device t d h)
        | inr (a, at) ↦
            let met =
              first-select_sound (is_device_of user device.device_id) d.device_sessions a at in
            rw at (
              active_apart id a (is_device_of user device.device_id) d.device_sessions h.dead at
                  (ground arith),
              update-IsRevoked _ (seen_again device t) d _ refl (λ x. refl) (λ x r. r) h,
            )
      ]

-- A token that was consumed is of another device session.
abbrev pub OtherDevice : ℕ → Option ConsumedSession → Type 0
OtherDevice id none = ⊤
OtherDevice id (some c) = (c.device_session_id == id) ≡ false

pub consumed_apart :
    (id : ℕ) (hash : List ℕ) (t : ℕ) (d : Db) (o : Option RefreshSession)
    → IsRevoked id d
    → first (updated (is_consumable hash t d.device_sessions) (revoke_token t) d.refresh_sessions)
      ≡ o
    → OtherDevice id (Option.map to_consumed o)
consumed_apart id hash t d none h at = tt
consumed_apart id hash t d (some x) h at =
    let (a, met, made, _) =
      first-updated (is_consumable hash t d.device_sessions) (revoke_token t) d.refresh_sessions x
        at in
    elim (Bool-cases (a.device_session_id == id)) [
      | inr apart ↦ rw (← made) apart
      | inl same ↦
          let eq : a.device_session_id ≡ id = ground arith in
          let lives : exists_row (λ s. s.id == a.device_session_id && is_active_device s)
                d.device_sessions
              ≡ true =
            ground arith in
          let lives' : exists_row (λ s. s.id == id && is_active_device s) d.device_sessions ≡ true =
            rw eq at lives in
          absurd (ground (arith, h.dead))
    ]
