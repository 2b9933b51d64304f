-- ===== src/Middleware.antt =====
-- AuthMiddleware and RateLimitMiddleware of internal/controller/restapi/middleware.go. A response is
-- its status and the message of WriteError; what a handler writes is the handler's.
pub mod Guard
pub mod Blocking
use mathlib.Core.Option
use cloud_zero_knowledge_sto.Base.{
  ℕ, ◌+◌, Bool, true, false, not, ◌&&◌, ◌||◌, Option, none, some, List, [], ◌∷◌, map, Text, leb,
  ◌==◌, if◌then◌else◌, is_empty, text_eq, text,
}
use cloud_zero_knowledge_sto.Store.{Env, Action, Result, ok, err, pure, on_row, attempt}
use cloud_zero_knowledge_sto.Names.{trim_space}
use cloud_zero_knowledge_sto.Sessions.{nil_uuid}
use cloud_zero_knowledge_sto.Blocklist.{is_blocked}
use cloud_zero_knowledge_sto.Limiter.{RateLimiter, allow}
use cloud_zero_knowledge_sto.Tokens.{parse_access_token}

pub record Response : Type 0 where
  pub status : ℕ
  pub message : Text

abbrev pub unauthorized : Response
unauthorized = record { status = 401; message = text "unauthorized" }

abbrev pub unavailable : Response
unavailable = record { status = 503; message = text "service unavailable" }

abbrev pub too_many_requests : Response
too_many_requests = record { status = 429; message = text "rate limit exceeded" }

-- `strings.Cut` at one character
abbrev pub cut : ℕ → Text → Option (Text × Text)
cut sep [] = none
cut sep (c ∷ s) = if c == sep then some ([], s) else Option.map (λ p. (c ∷ p.0, p.1)) (cut sep s)

abbrev lower_ascii : ℕ → ℕ
lower_ascii c = if leb b'A' c && leb c b'Z' then c + 32 else c

-- `strings.EqualFold(s, "Bearer")`: none of its letters folds with one that is not ASCII.
abbrev is_bearer : Text → Bool
is_bearer s = text_eq (map lower_ascii s) (text "bearer")

abbrev token_of : Option (Text × Text) → Option Text
token_of none = none
token_of (some (scheme, rest)) =
    if not (is_bearer scheme) || is_empty (trim_space rest) then none else some (trim_space rest)

-- The token of an `Authorization` header.
unfoldable pub bearer_token : Text → Option Text
bearer_token authorization = token_of (cut 32 (trim_space authorization))

module _ (e : Env) where
  module _ (next : ℕ → ℕ → Action Response) where
    abbrev pub unless_blocked : ℕ → ℕ → Result Bool → Action Response
    unless_blocked user session (err _) = pure unavailable
    unless_blocked user session (ok blocked) =
        if blocked then pure unauthorized else next user session

    abbrev pub with_claims : Result (ℕ × ℕ) → Action Response
    with_claims (err _) = pure unauthorized
    with_claims (ok (user, session)) =
        if session == nil_uuid
        then next user session
        else attempt (is_blocked e session) (unless_blocked user session)

  -- `next` is given the user and the device session of the token.
  unfoldable pub auth_middleware : Text → (ℕ → ℕ → Action Response) → Action Response
  auth_middleware authorization next =
      on_row (bearer_token authorization) (pure unauthorized)
        λ token. attempt (parse_access_token e token) (with_claims next)

  abbrev pub if_allowed : Action Response → Result Bool → Action Response
  if_allowed next (err _) = pure unavailable
  if_allowed next (ok allowed) = if allowed then next else pure too_many_requests

  unfoldable pub rate_limit_middleware : RateLimiter → Text → Action Response → Action Response
  rate_limit_middleware limiter key next = attempt (allow e limiter key) (if_allowed next)
