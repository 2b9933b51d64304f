-- ===== src/Middleware/Guard.antt =====
-- Which requests AuthMiddleware of internal/controller/restapi/middleware.go hands on.
use cloud_zero_knowledge_sto.Base.{
  ℕ, suc, ◌*◌, ◌<◌, false, none, some, Text, ◌≡◌, ◌⊎◌, inl, inr, refl, arith, Bool-cases,
  Option-cases, ltb, ◌==◌, ap, true, ⊤,
}
use cloud_zero_knowledge_sto.Store.{
  Entry, lookup, second, Claims, Env, World, advance, Action, Result, ok, err, running,
}
use cloud_zero_knowledge_sto.Store.Ends.{Outcome}
use cloud_zero_knowledge_sto.Sessions.{nil_uuid}
use cloud_zero_knowledge_sto.Blocklist.{is_blocked}
use cloud_zero_knowledge_sto.Tokens.{or_nil, parse_access_token}
use cloud_zero_knowledge_sto.Middleware.{
  Response, unauthorized, unavailable, bearer_token, with_claims, auth_middleware,
}

-- The token was signed, is valid at `t`, and names the user and the device session.
pub record IsValid (e : Env) (token : Text) (t user session : ℕ) : Type 0 where
  pub claims : Claims
  pub verified : e.verified_claims token ≡ some claims
  pub fresh : t < claims.expires_at * second
  pub subject : e.parse_uuid claims.subject ≡ some user
  pub known : (user == nil_uuid) ≡ false
  pub named : session ≡ or_nil (e.parse_uuid claims.session_id)

-- The tables, the keys and the calls are what they were.
pub record IsSame (w w' : World) : Type 0 where
  pub db : w'.db ≡ w.db
  pub calls : w'.calls ≡ w.calls

-- No user and device session are those of the token at `t`.
abbrev IsInvalid : Env → Text → ℕ → Type 0
IsInvalid e token t = (user session : ℕ) → IsValid e token t user session → ⊥

module _ (e : Env) (token : Text) (t : ℕ) where
  unsigned_lem : e.verified_claims token ≡ none → IsInvalid e token t
  unsigned_lem unsigned user session v = let signed = v.verified in cc

  module _ (claims : Claims) (signed : e.verified_claims token ≡ some claims) where
    over_lem : ltb t (claims.expires_at * second) ≡ false → IsInvalid e token t
    over_lem over user session v =
        let verified = v.verified in
        let same : v.claims ≡ claims = cc in
        let end_is = ap (λ (c : Claims). c.expires_at) same in
        let fresh = v.fresh in ground (arith, over, fresh, end_is)

    subject_lem : e.parse_uuid claims.subject ≡ none → IsInvalid e token t
    subject_lem unread user session v =
        let verified = v.verified in
        let same : v.claims ≡ claims = cc in
        let subject_is = ap (λ (c : Claims). e.parse_uuid c.subject) same in
        let subject = v.subject in cc

    nil_lem :
        (named : ℕ)
        → e.parse_uuid claims.subject ≡ some named
        → (named == nil_uuid) ≡ true
        → IsInvalid e token t
    nil_lem named read nil user session v =
        let verified = v.verified in
        let same : v.claims ≡ claims = cc in
        let subject_is = ap (λ (c : Claims). e.parse_uuid c.subject) same in
        let subject = v.subject in
        let is : user ≡ named = cc in let known = v.known in ground (arith, nil, known, is)

parse_lem :
    (e : Env) (token : Text) (w : World)
    → Outcome
        (parse_access_token e token w).0
        (λ p.
          IsValid e token (e.now w.steps) p.0 p.1 × ((parse_access_token e token w).1 ≡ advance w))
        (IsSame w (parse_access_token e token w).1 × IsInvalid e token (e.now w.steps))
unfolding parse_access_token running
parse_lem e token w = elim (Option-cases (e.verified_claims token)) [
  | inl unsigned ↦
      rw unsigned
        (record { db = refl; calls = refl }, unsigned_lem e token (e.now w.steps) unsigned)
  | inr (claims, signed) ↦ elim (Bool-cases (ltb (e.now w.steps) (claims.expires_at * second))) [
    | inr over ↦
        rw (signed, over)
          (record { db = refl; calls = refl }, over_lem e token (e.now w.steps) claims signed over)
    | inl fresh ↦ elim (Option-cases (e.parse_uuid claims.subject)) [
      | inl unread ↦
          rw (signed, fresh, unread)
            (
              record { db = refl; calls = refl },
              subject_lem e token (e.now w.steps) claims signed unread,
            )
      | inr (user, is) ↦ elim (Bool-cases (user == nil_uuid)) [
        | inl nil ↦
            rw (signed, fresh, is, nil)
              (
                record { db = refl; calls = refl },
                nil_lem e token (e.now w.steps) claims signed user is nil,
              )
        | inr known ↦
            rw (signed, fresh, is, known)
              (
                record {
                  claims = claims;
                  verified = signed;
                  fresh = ground (arith, fresh);
                  subject = is;
                  known = known;
                  named = refl;
                },
                refl,
              )
      ]
    ]
  ]
]

-- The request went on to `next`, with a valid token of a device session that Redis answered is not
-- blocked, or of none.
pub record IsLetThrough (e : Env) (authorization : Text) (next : ℕ → ℕ → Action Response)
    (w : World) (answer : Result Response × World) : Type 0 where
  pub token : Text
  pub user : ℕ
  pub session : ℕ
  pub entered : World
  pub given : bearer_token authorization ≡ some token
  pub valid : IsValid e token (e.now w.steps) user session
  pub clear :
      (session ≡ nil_uuid)
      ⊎ ((e.redis_fails (suc w.steps) ≡ false)
          × (lookup session (e.now (suc w.steps)) w.db.redis.blocked_sessions ≡ none))
  pub same : IsSame w entered
  pub handed_on : answer ≡ next user session entered

-- Why the answer is 401: there is no bearer token, it is not valid, or its device session is blocked.
pub data IsDenied (e : Env) (authorization : Text) (w : World) : Type 0 where
  no_token : bearer_token authorization ≡ none → IsDenied e authorization w
  not_valid :
      (token : Text)
      → bearer_token authorization ≡ some token
      → IsInvalid e token (e.now w.steps)
      → IsDenied e authorization w
  is_blocked_session :
      (token : Text) (user session : ℕ) (x : Entry ⊤)
      → bearer_token authorization ≡ some token
      → IsValid e token (e.now w.steps) user session
      → (session == nil_uuid) ≡ false
      → e.redis_fails (suc w.steps) ≡ false
      → lookup session (e.now (suc w.steps)) w.db.redis.blocked_sessions ≡ some x
      → IsDenied e authorization w

-- Why it is 503: the token is valid and names a device session, and Redis does not answer.
pub record IsUnanswered (e : Env) (authorization : Text) (w : World) : Type 0 where
  pub token : Text
  pub user : ℕ
  pub session : ℕ
  pub given : bearer_token authorization ≡ some token
  pub valid : IsValid e token (e.now w.steps) user session
  pub named : (session == nil_uuid) ≡ false
  pub down : e.redis_fails (suc w.steps) ≡ true

-- The request was refused, with 401 or 503 for a reason of it, and `next` did not run.
pub record IsRefused (e : Env) (authorization : Text) (w : World) (answer : Result Response × World)
    : Type 0 where
  pub same : IsSame w answer.1
  pub why :
      ((answer.0 ≡ ok unauthorized) × IsDenied e authorization w)
      ⊎ ((answer.0 ≡ ok unavailable) × IsUnanswered e authorization w)

abbrev pub IsGuarded :
    Env → Text → (ℕ → ℕ → Action Response) → World → Result Response × World → Type 0
IsGuarded e authorization next w answer =
    IsRefused e authorization w answer ⊎ IsLetThrough e authorization next w answer

module _ (e : Env) (authorization token : Text) (next : ℕ → ℕ → Action Response) (w : World)
    (given : bearer_token authorization ≡ some token) where
  session_lem :
      (user session : ℕ)
      → IsValid e token (e.now w.steps) user session
      → IsGuarded e authorization next w (with_claims e next (ok (user, session)) (advance w))
  unfolding is_blocked running
  session_lem user session valid = elim (Bool-cases (session == nil_uuid)) [
    | inl nil ↦ rw nil (
        inr (record {
          token = token;
          user = user;
          session = session;
          entered = advance w;
          given = given;
          valid = valid;
          clear = inl (ground (arith, nil));
          same = record { db = refl; calls = refl };
          handed_on = refl;
        }))
    | inr named ↦ elim (Bool-cases (e.redis_fails (suc w.steps))) [
      | inl down ↦
          rw (named, down)
            (inl (record {
              same = record { db = refl; calls = refl };
              why = inr (
                refl,
                record {
                  token = token;
                  user = user;
                  session = session;
                  given = given;
                  valid = valid;
                  named = named;
                  down = down;
                },
              );
            }))
      | inr up ↦
          elim (Option-cases (lookup session (e.now (suc w.steps)) w.db.redis.blocked_sessions)) [
            | inr (x, blocked) ↦
                rw (named, up, blocked)
                  (inl (record {
                    same = record { db = refl; calls = refl };
                    why = inl (
                      refl,
                      is_blocked_session token user session x given valid named up blocked,
                    );
                  }))
            | inl free ↦
                rw (named, up, free)
                  (inr (record {
                    token = token;
                    user = user;
                    session = session;
                    entered = advance (advance w);
                    given = given;
                    valid = valid;
                    clear = inr (up, free);
                    same = record { db = refl; calls = refl };
                    handed_on = refl;
                  }))
          ]
    ]
  ]

  parsed_lem :
      (r : Result (ℕ × ℕ)) (v : World)
      → Outcome r
          (λ p. IsValid e token (e.now w.steps) p.0 p.1 × (v ≡ advance w))
          (IsSame w v × IsInvalid e token (e.now w.steps))
      → IsGuarded e authorization next w (with_claims e next r v)
  unfolding running
  parsed_lem (err x) v (same, invalid) =
      inl (record { same = same; why = inl (refl, not_valid token given invalid) })
  parsed_lem (ok p) v (valid, is) = rw is (session_lem p.0 p.1 valid)

-- A request reaches `next` only with a token that was verified, is not past its time and names a
-- user, and whose device session, if it names one, Redis answers is not blocked; `next` is given
-- that user and device session. Else `next` does not run and the answer is 401, where there is no
-- bearer token, or it is not such a token, or Redis answers that its device session is blocked, or
-- 503, where the token is valid and names a device session and Redis does not answer. No table, key
-- or call changes before `next`.
pub auth_middleware-IsGuarded :
    (e : Env) (authorization : Text) (next : ℕ → ℕ → Action Response) (w : World)
    → IsGuarded e authorization next w (auth_middleware e authorization next w)
unfolding auth_middleware running
auth_middleware-IsGuarded e authorization next w =
    elim (Option-cases (bearer_token authorization)) [
      | inl none_given ↦ rw none_given (
          inl (record {
            same = record { db = refl; calls = refl };
            why = inl (refl, no_token none_given);
          }))
      | inr (token, given) ↦ rw given (
          parsed_lem e authorization token next w given (parse_access_token e token w).0
            (parse_access_token e token w).1 (parse_lem e token w))
    ]
