-- ===== src/Users.antt =====
-- internal/repo/persistent/postgres/users.go and password_reset.go, with the constraints of
-- migrations on the two tables.
use mathlib.Core.Option
use cloud_zero_knowledge_sto.Base.{
  ℕ, Bool, ◌&&◌, ◌||◌, Option, none, some, List, [], ◌∷◌, ◌++◌, Text, ⊤, ltb, ◌==◌, if◌then◌else◌,
  is_null, text_eq, length, select, update, updated, first, exists_row,
}
use cloud_zero_knowledge_sto.Store.{
  User, PasswordResetToken, Db, Env, Action, Error, Result, ok, err, unique_violation, user_exists,
  check_violation, foreign_key_violation, ◌>>=◌, map_errors, sql, query, exec, uuid_new,
}
use cloud_zero_knowledge_sto.Sessions.{has_user}

pub record NewUserParams : Type 0 where
  pub id : ℕ
  pub email : Text
  pub srp_salt : Text
  pub srp_verifier : Text
  pub bcrypt_salt : Text
  pub crypto_salt : List ℕ
  pub public_key : List ℕ
  pub encrypted_private_key : List ℕ
  pub kek_encrypted_master : List ℕ
  pub kek_encrypted_recovery : List ℕ
  pub recovery_salt : List ℕ

pub record RecoveryData : Type 0 where
  pub user_id : ℕ
  pub kek_encrypted_recovery : List ℕ
  pub recovery_salt : List ℕ

pub record ResetPasswordParams : Type 0 where
  pub srp_salt : Text
  pub srp_verifier : Text
  pub bcrypt_salt : Text
  pub crypto_salt : List ℕ
  pub kek_encrypted_master : List ℕ
  pub kek_encrypted_recovery : List ℕ
  pub recovery_salt : List ℕ

-- `crypto_salt`, `kek_encrypted_master` and `encrypted_private_key`; nil where no row was found.
pub record UserKeys : Type 0 where
  pub crypto_salt : List ℕ
  pub kek_encrypted_master : List ℕ
  pub encrypted_private_key : List ℕ

abbrev pub new_user : NewUserParams → User
new_user p = record {
  id = p.id;
  email = p.email;
  srp_salt = p.srp_salt;
  srp_verifier = p.srp_verifier;
  bcrypt_salt = p.bcrypt_salt;
  crypto_salt = p.crypto_salt;
  public_key = p.public_key;
  encrypted_private_key = p.encrypted_private_key;
  kek_encrypted_master = p.kek_encrypted_master;
  kek_encrypted_recovery = p.kek_encrypted_recovery;
  recovery_salt = p.recovery_salt;
}

-- `CHECK`, then the primary key and the unique email.
unfoldable pub insert_user : NewUserParams → Db → Result ⊤ × Db
insert_user p d =
    if ltb (length p.email) 3 || ltb 320 (length p.email)
    then (err check_violation, d)
    else if exists_row (λ u. u.id == p.id || text_eq u.email p.email) d.users
    then (err unique_violation, d)
    else (ok tt, record d { users = d.users ++ new_user p ∷ [] })

abbrev pub as_user_exists : Error → Error
as_user_exists unique_violation = user_exists
as_user_exists x = x

abbrev pub with_credentials : ResetPasswordParams → User → User
with_credentials p u = record u {
  srp_salt = p.srp_salt;
  srp_verifier = p.srp_verifier;
  bcrypt_salt = p.bcrypt_salt;
  crypto_salt = p.crypto_salt;
  kek_encrypted_master = p.kek_encrypted_master;
  kek_encrypted_recovery = p.kek_encrypted_recovery;
  recovery_salt = p.recovery_salt;
}

abbrev pub is_usable : List ℕ → ℕ → PasswordResetToken → Bool
is_usable hash t k = text_eq k.token_hash hash && is_null k.used_at && ltb t k.expires_at

abbrev pub use_token : ℕ → PasswordResetToken → PasswordResetToken
use_token t k = record k { used_at = some t }

abbrev pub new_reset_token : ℕ → ℕ → List ℕ → ℕ → ℕ → PasswordResetToken
new_reset_token id user hash expires_at t = record {
  id = id;
  user_id = user;
  token_hash = hash;
  expires_at = expires_at;
  used_at = none;
  created_at = t;
}

unfoldable pub insert_reset_token : ℕ → ℕ → List ℕ → ℕ → ℕ → Db → Result ⊤ × Db
insert_reset_token id user hash expires_at t d =
    if exists_row (λ k. k.id == id || text_eq k.token_hash hash) d.reset_tokens
    then (err unique_violation, d)
    else if has_user d user
    then (
      ok tt,
      record d { reset_tokens = d.reset_tokens ++ new_reset_token id user hash expires_at t ∷ [] },
    )
    else (err foreign_key_violation, d)

abbrev pub keys_of : Option User → UserKeys
keys_of none = record { crypto_salt = []; kek_encrypted_master = []; encrypted_private_key = [] }
keys_of (some u) = record {
  crypto_salt = u.crypto_salt;
  kek_encrypted_master = u.kek_encrypted_master;
  encrypted_private_key = u.encrypted_private_key;
}

module _ (e : Env) where
  unfoldable pub create_user : NewUserParams → Action ⊤
  create_user p = map_errors as_user_exists (sql e λ _ d. insert_user p d)

  unfoldable pub get_by_email : Text → Action (Option User)
  get_by_email email = query e λ _ d. first (select (λ u. text_eq u.email email) d.users)

  unfoldable pub get_recovery_data_by_user_id : ℕ → Action (Option RecoveryData)
  get_recovery_data_by_user_id user = query e λ _ d.
      Option.map
        (λ u. record {
          user_id = u.id;
          kek_encrypted_recovery = u.kek_encrypted_recovery;
          recovery_salt = u.recovery_salt;
        })
        (first (select (λ u. u.id == user) d.users))

  unfoldable pub update_credentials_and_kek : ℕ → ResetPasswordParams → Action ⊤
  update_credentials_and_kek user p =
      exec e
        λ _ d. (tt, record d { users = update (λ u. u.id == user) (with_credentials p) d.users })

  unfoldable pub get_crypto_salt_and_kek_by_user_id : ℕ → Action UserKeys
  get_crypto_salt_and_kek_by_user_id user =
      query e λ _ d. keys_of (first (select (λ u. u.id == user) d.users))

  -- The id is the default of the column, `gen_random_uuid()`.
  unfoldable pub create_reset_token : ℕ → List ℕ → ℕ → Action ⊤
  create_reset_token user hash expires_at = do
    id ← uuid_new e
    sql e (insert_reset_token id user hash expires_at)

  unfoldable pub get_user_id_from_reset_token : List ℕ → Action (Option ℕ)
  get_user_id_from_reset_token hash =
      query e λ t d. Option.map (λ k. k.user_id) (first (select (is_usable hash t) d.reset_tokens))

  unfoldable pub invalidate_user_tokens : ℕ → Action ⊤
  invalidate_user_tokens user = exec e λ t d. (
    tt,
    record d {
      reset_tokens =
          update (λ k. k.user_id == user && is_null k.used_at) (use_token t) d.reset_tokens;
    },
  )

  unfoldable pub consume_reset_token : List ℕ → Action (Option ℕ)
  consume_reset_token hash = exec e λ t d. (
    Option.map (λ k. k.user_id) (first (updated (is_usable hash t) (use_token t) d.reset_tokens)),
    record d { reset_tokens = update (is_usable hash t) (use_token t) d.reset_tokens },
  )
