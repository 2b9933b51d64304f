-- ===== src/Store/Keys.antt =====
-- The keys that internal/repo/cache/redis sets, one list for each prefix, with the commands that it
-- uses on them.
use cloud_zero_knowledge_sto.Base.{
  ℕ, ◌+◌, Bool, true, ◌&&◌, Option, none, some, List, ◌∷◌, Text, ⊤, ltb, ◌==◌, if◌then◌else◌,
  delete, select, first,
}

-- A time is in nanoseconds, as a time.Duration is.
abbrev pub second : ℕ
second = 1000000000

abbrev pub millisecond : ℕ
millisecond = 1000000

-- A key, its value, and the time at which it is gone, if any.
pub record Entry (A : Type 0) : Type 0 where
  pub key : ℕ
  pub value : A
  pub until : Option ℕ

abbrev pub is_alive : Option ℕ → ℕ → Bool
is_alive none now = true
is_alive (some until) now = ltb now until

-- An expiration of 0 is none.
abbrev pub until : ℕ → ℕ → Option ℕ
until ttl now = if ttl == 0 then none else some (now + ttl)

module _ {A : Type 0} where
  abbrev pub has_key : ℕ → ℕ → Entry A → Bool
  has_key key now x = x.key == key && is_alive x.until now

  abbrev pub at_key : ℕ → Entry A → Bool
  at_key key x = x.key == key

  -- `GET`
  unfoldable pub lookup : ℕ → ℕ → List (Entry A) → Option (Entry A)
  lookup key now xs = first (select (has_key key now) xs)

  -- `DEL`
  unfoldable pub drop_key : ℕ → List (Entry A) → List (Entry A)
  drop_key key xs = delete (at_key key) xs

  -- `SET key value` with an expiration
  unfoldable pub store : ℕ → A → ℕ → ℕ → List (Entry A) → List (Entry A)
  unfolding drop_key
  store key value ttl now xs =
      record { key = key; value = value; until = until ttl now } ∷ drop_key key xs

-- The form of an SRP session in Redis, whose JSON is taken to be read back as it was written.
pub record SrpRecord : Type 0 where
  pub user_id : Text
  pub email : Text
  pub srp_salt_hex : Text
  pub a_hex : Text
  pub verifier_hex : Text
  pub b_hex : Text
  pub b_pub_hex : Text
  pub crypto_salt : Text
  pub bcrypt_salt : Text
  pub encrypted_private_key : Text
  pub kek_encrypted_master : Text
  pub expires_at : ℕ

-- The counter of a rate limiter, under its whole key.
pub record Counter : Type 0 where
  pub key : Text
  pub count : ℕ
  pub until : Option ℕ

pub record Redis : Type 0 where
  pub blocked_sessions : List (Entry ⊤)
  pub srp_sessions : List (Entry SrpRecord)
  pub counters : List Counter
