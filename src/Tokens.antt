-- ===== src/Tokens.antt =====
-- pkg/jwt/service.go: access tokens. Signing and verifying are the library's, as the environment
-- gives them; a date in a token is in seconds, and a token is valid before `exp`.
use cloud_zero_knowledge_sto.Base.{ℕ, ◌+◌, ◌*◌, ◌/◌, not, Option, none, some, Text, ltb, ◌==◌}
use cloud_zero_knowledge_sto.Store.{
  second, Claims, Env, Action, token_failed, invalid_token, pure, raise_if, or_raise, ◌>>=◌, ◌>>◌,
  time_now,
}
use cloud_zero_knowledge_sto.Sessions.{nil_uuid}

-- A `sid` that is missing or not an id is `uuid.Nil`.
abbrev pub or_nil : Option ℕ → ℕ
or_nil none = nil_uuid
or_nil (some id) = id

module _ (e : Env) where
  abbrev pub access_claims : ℕ → ℕ → ℕ → ℕ → Claims
  access_claims ttl user device now = record {
    subject = e.uuid_text user;
    issued_at = now / second;
    expires_at = (now + ttl) / second;
    session_id = e.uuid_text device;
  }

  unfoldable pub issue_access : ℕ → ℕ → ℕ → Action (Text × ℕ)
  issue_access ttl user device = do
    raise_if (user == nil_uuid) token_failed
    now ← time_now e
    raw ← or_raise (e.signed_token (access_claims ttl user device now)) token_failed
    pure (raw, ttl / second)

  unfoldable pub parse_access_token : Text → Action (ℕ × ℕ)
  parse_access_token token = do
    claims ← or_raise (e.verified_claims token) invalid_token
    now ← time_now e
    raise_if (not (ltb now (claims.expires_at * second))) invalid_token
    user ← or_raise (e.parse_uuid claims.subject) invalid_token
    raise_if (user == nil_uuid) invalid_token
    pure (user, or_nil (e.parse_uuid claims.session_id))
