-- ===== src/Middleware/Blocking.antt =====
-- RevokeDeviceSession of internal/usecase/auth/service.go, then AuthMiddleware with an access token
-- of the device session.
use cloud_zero_knowledge_sto.Base.{
  ℕ, suc, ◌+◌, ◌*◌, ◌/◌, ◌<◌, ◌≤◌, false, some, List, Text, ⊤, ◌≡◌, ◌⊎◌, inl, inr, refl, ap, ◌∙◌,
  arith, ◌==◌,
}
use cloud_zero_knowledge_sto.Store.{
  Entry, lookup, store, until, second, Claims, Env, World, Action, Result, ok, err, running,
  ignore_error,
}
use cloud_zero_knowledge_sto.Store.KeyLaws.{lookup-store}
use cloud_zero_knowledge_sto.Store.Ticks.{Grows, grows_rules, steady-le}
use cloud_zero_knowledge_sto.Sessions.{nil_uuid, revoke_session}
use cloud_zero_knowledge_sto.Blocklist.{block}
use cloud_zero_knowledge_sto.Tokens.{or_nil, access_claims}
use cloud_zero_knowledge_sto.Auth.Models.{AuthSettings}
use cloud_zero_knowledge_sto.Auth.{revoke_device_session}
use cloud_zero_knowledge_sto.Middleware.{Response, bearer_token, auth_middleware}
use cloud_zero_knowledge_sto.Middleware.Guard.{IsLetThrough, IsRefused, auth_middleware-IsGuarded}

revoke_session-Grows : (e : Env) (id user : ℕ) → Grows (revoke_session e id user)
unfolding revoke_session
revoke_session-Grows e id user = search grows_rules

-- The id is blocked from `t` on, not before the call.
record IsBlockedSince (e : Env) (id ttl : ℕ) (w w' : World) : Type 0 where
  t : ℕ
  before : List (Entry ⊤)
  later : e.now w.steps ≤ t
  blocked : w'.db.redis.blocked_sessions ≡ store id tt ttl t before

module _ (e : Env) (s : AuthSettings) (up : (n : ℕ) → e.redis_fails n ≡ false)
    (steady : (n : ℕ) → e.now n ≤ e.now (suc n)) where
  block_lem :
      (user id : ℕ) (w : World)
      → (revoke_device_session e s user id w).0 ≡ ok tt
      → IsBlockedSince e id s.access_ttl w (revoke_device_session e s user id w).1
  unfolding revoke_device_session block ignore_error running
  block_lem user id w done = split (revoke_session e id user w).0 refl
    where
      split :
          (r : Result ⊤)
          → (revoke_session e id user w).0 ≡ r
          → IsBlockedSince e id s.access_ttl w (revoke_device_session e s user id w).1
      split (err x) is =
          let failed : (revoke_device_session e s user id w).0 ≡ err x = rw is refl in absurd (cc)
      split (ok a) is =
          rw (is, up (revoke_session e id user w).1.steps)
            (record {
              t = e.now (revoke_session e id user w).1.steps;
              before = (revoke_session e id user w).1.db.redis.blocked_sessions;
              later =
                  steady-le e.now steady w.steps (revoke_session e id user w).1.steps
                    ((revoke_session-Grows e id user).at w);
              blocked = refl;
            })

over_by : (issued ttl t : ℕ) → issued ≤ t → (issued + ttl) / second * second ≤ t + ttl
over_by issued ttl t h = omega (arith, h)

module _ (e : Env) (s : AuthSettings) (up : (n : ℕ) → e.redis_fails n ≡ false)
    (steady : (n : ℕ) → e.now n ≤ e.now (suc n))
    (parse_back : (n : ℕ) → e.parse_uuid (e.uuid_text n) ≡ some n) where
  -- A device session that is blocked long enough lets no token of it through.
  not_through :
      (user id issued : ℕ) (authorization token : Text) (next : ℕ → ℕ → Action Response)
      (w w' : World)
      → (id == nil_uuid) ≡ false
      → bearer_token authorization ≡ some token
      → e.verified_claims token ≡ some (access_claims e s.access_ttl user id issued)
      → issued ≤ e.now w.steps
      → (b : IsBlockedSince e id s.access_ttl w w') → (v : World)
      → v.db.redis.blocked_sessions ≡ w'.db.redis.blocked_sessions
      → ((issued + s.access_ttl) / second * second ≤ e.now v.steps)
        ⊎ (e.now (suc v.steps) < (issued + s.access_ttl) / second * second)
      → (answer : Result Response × World) → IsLetThrough e authorization next v answer
      → ⊥
  not_through user id issued authorization token next w w' named given signed earlier b v same whole
        answer x =
      let token_is : x.token ≡ token = cc in
      let claims_is : x.valid.claims ≡ access_claims e s.access_ttl user id issued = cc in
      let session_is : x.session ≡ id =
        x.valid.named
        ∙ ap or_nil (ap (λ (c : Claims). e.parse_uuid c.session_id) claims_is ∙ parse_back id) in
      let end_is : x.valid.claims.expires_at ≡ (issued + s.access_ttl) / second =
        ap (λ (c : Claims). c.expires_at) claims_is in
      elim x.clear [
        | inl nil ↦ let is : id ≡ nil_uuid = cc in ground (arith, is, named)
        | inr (_, free) ↦ elim whole [
          | inl over ↦ omega (arith, end_is, x.valid.fresh, over)
          | inr alive ↦
              let t = e.now (suc v.steps) in
              let in_time : t < b.t + s.access_ttl =
                omega (
                  arith,
                  alive,
                  over_by issued s.access_ttl b.t (omega (arith, earlier, b.later)),
                ) in
              let found : lookup x.session t v.db.redis.blocked_sessions
                  ≡ some (record { key = id; value = tt; until = until s.access_ttl b.t }) =
                rw (session_is, same, b.blocked)
                  (lookup-store id tt s.access_ttl b.t t b.before in_time) in
              absurd (cc)
        ]
      ]

-- With a Redis that answers and a clock that does not go back: when RevokeDeviceSession has
-- returned, an access token of the device session that was issued before the call is refused, and
-- `next` does not run, in any world whose blocked sessions are the ones that the call left, where
-- the token does not run out between the two looks at the clock. Ids are taken to be read back from
-- their text.
pub auth_middleware-revoke_device_session :
    (e : Env) (s : AuthSettings) (user owner id issued : ℕ) (authorization token : Text)
    (next : ℕ → ℕ → Action Response) (w v : World)
    → ((n : ℕ) → e.redis_fails n ≡ false)
    → ((n : ℕ) → e.now n ≤ e.now (suc n))
    → ((n : ℕ) → e.parse_uuid (e.uuid_text n) ≡ some n)
    → (id == nil_uuid) ≡ false
    → bearer_token authorization ≡ some token
    → e.verified_claims token ≡ some (access_claims e s.access_ttl user id issued)
    → issued ≤ e.now w.steps
    → (revoke_device_session e s owner id w).0 ≡ ok tt
    → v.db.redis.blocked_sessions
      ≡ (revoke_device_session e s owner id w).1.db.redis.blocked_sessions
    → ((issued + s.access_ttl) / second * second ≤ e.now v.steps)
      ⊎ (e.now (suc v.steps) < (issued + s.access_ttl) / second * second)
    → IsRefused e authorization v (auth_middleware e authorization next v)
auth_middleware-revoke_device_session e s user owner id issued authorization token next w v up
      steady parse_back named given signed earlier done same whole =
    elim (auth_middleware-IsGuarded e authorization next v) [
      | inl refused ↦ refused
      | inr through ↦ absurd (
          not_through e s up steady parse_back user id issued authorization token next w
            (revoke_device_session e s owner id w).1 named given signed earlier
            (block_lem e s up steady owner id w done) v same whole _ through)
    ]
