-- ===== src/Store/Effects.antt =====
-- A call of the program: state, errors as values, and an environment that answers.
use cloud_zero_knowledge_sto.Base.{
  ℕ, suc, Bool, true, false, Option, none, some, List, ◌∷◌, Text, ⊤, if◌then◌else◌,
}
use cloud_zero_knowledge_sto.Store.Rows.{Folder, AuditEvent, Db}
use cloud_zero_knowledge_sto.Store.Keys.{Redis}

-- The errors of the packages storage, sharing and auth, with those that only pass through: a failed
-- statement, commit or command, a constraint that refused a row, and a failed call of the object
-- store, of the generator of random bytes, of the token library or of the mail server.
pub data Error : Type 0 where
  not_found folder_not_found folder_conflict folder_cycle file_too_large quota_exceeded : Error
  folder_not_empty forbidden no_public_key expired revoked duplicate_share self_share : Error
  invalid_input user_exists invalid_credentials invalid_refresh session_not_found : Error
  reset_token_invalid invalid_proof invalid_hex invalid_token redis_failed random_failed
        token_failed mail_failed at_capacity :
      Error
  db_failed unique_violation foreign_key_violation check_violation object_failed : Error

pub data Result (A : Type 0) : Type 0 where
  ok : A → Result A
  err : Error → Result A

abbrev pub map_result : {A B : Type 0} → (A → B) → Result A → Result B
map_result f (ok a) = ok (f a)
map_result f (err x) = err x

abbrev pub map_error : {A : Type 0} → (Error → Error) → Result A → Result A
map_error f (ok a) = ok a
map_error f (err x) = err (f x)

-- The calls of the object store, the audit log and the mailer, for the record that the world keeps
-- of them.
pub data OutsideCall : Type 0 where
  presign_get remove stat create_multipart : Text → OutsideCall
  presign_part : Text → Text → ℕ → OutsideCall
  complete_multipart abort_multipart : Text → Text → OutsideCall
  log_event : AuditEvent → OutsideCall
  notify_new_login : Text → Text → Text → OutsideCall
  notify_password_reset : Text → Text → OutsideCall

pub record UploadedPart : Type 0 where
  pub part_number : ℕ
  pub etag : Text

-- What a token carries: `sub`, `iat` and `exp` of the registered claims, and `sid`.
pub record Claims : Type 0 where
  pub subject : Text
  pub issued_at : ℕ
  pub expires_at : ℕ
  pub session_id : Text

-- What answers from outside, at each step: the database server fails or not, the clock, the ids
-- that `uuid.New` and `gen_random_uuid` give, and the object store, where `none` and `false` are
-- errors. `uuid_text` is `uuid.UUID.String`, `to_lower` is `strings.ToLower`, `fold_case` is how the
-- database folds a letter for ILIKE, `inet_text` is what it casts back to text of an address that it
-- took as INET, or none if it takes no address, `order_by_name` sorts by the collation of the database, and
-- `cte_rounds` is how many rounds of a recursive query the deadline of a call leaves room for.
-- `random_bytes n` is what `rand.Read` puts into `n` bytes, `parse_uuid` is `uuid.Parse`, `utf_8` is
-- `[]byte(s)`, `decode_base_64` is what `base64.StdEncoding.DecodeString` gives, and the last two
-- sign and verify a token of the JWT library with the secret, its time aside.
pub record Env : Type 0 where
  pub sql_fails : ℕ → Bool
  pub cte_rounds : ℕ
  pub order_by_name : List Folder → List Folder
  pub now : ℕ → ℕ
  pub new_uuid : ℕ → ℕ
  pub uuid_text : ℕ → Text
  pub to_lower : Text → Text
  pub fold_case : ℕ → ℕ
  pub inet_text : Text → Option Text
  pub presigned_get_object : ℕ → Text → Option Text
  pub remove_object_ok : ℕ → Text → Bool
  pub stat_object_size : ℕ → Text → Option ℕ
  pub new_upload_id : ℕ → Text → Option Text
  pub presigned_part : ℕ → Text → Text → ℕ → Option Text
  pub complete_ok : ℕ → Text → Text → List UploadedPart → Bool
  pub abort_ok : ℕ → Text → Text → Bool
  pub redis_fails : ℕ → Bool
  pub mail_ok : ℕ → Bool
  pub random_bytes : ℕ → ℕ → Option (List ℕ)
  pub parse_uuid : Text → Option ℕ
  pub utf_8 : Text → List ℕ
  pub sha_256 : List ℕ → List ℕ
  pub base_64 : List ℕ → Text
  pub raw_url_base_64 : List ℕ → Text
  pub decode_base_64 : Text → List ℕ
  pub signed_token : Claims → Option Text
  pub verified_claims : Text → Option Claims

-- The calls are newest first. `steps` counts the questions put to the environment.
pub record World : Type 0 where
  pub db : Db
  pub calls : List OutsideCall
  pub steps : ℕ

abbrev pub Action : Type 0 → Type 0
Action A = World → Result A × World

module _ {A : Type 0} where
  unfoldable pub pure : A → Action A
  pure a w = (ok a, w)

  unfoldable pub raise : Error → Action A
  raise x w = (err x, w)

  unfoldable pub or_raise : Option A → Error → Action A
  unfolding pure raise
  or_raise none x = raise x
  or_raise (some a) x = pure a

module _ {A B : Type 0} where
  abbrev pub continue : Result A → (A → Action B) → Action B
  continue (ok a) f w = f a w
  continue (err x) f w = (err x, w)

  infixl 5 ◌>>=◌ ◌>>◌
  unfoldable pub ◌>>=◌ : Action A → (A → Action B) → Action B
  ◌>>=◌ m f w = continue (m w).0 f (m w).1

  abbrev pub ◌>>◌ : Action A → Action B → Action B
  m >> k = m >>= λ _. k

  -- A `QueryRow` that found no row goes on with `m`, one that found `a` with `f a`.
  unfoldable pub on_row : Option A → Action B → (A → Action B) → Action B
  on_row none m f = m
  on_row (some a) m f = f a

  -- `if err := m; err != nil { … }` where the code goes on in both cases.
  unfoldable pub attempt : Action A → (Result A → Action B) → Action B
  attempt m f w = f (m w).0 (m w).1

-- Report some errors of `m` as others.
unfoldable pub map_errors : {A : Type 0} → (Error → Error) → Action A → Action A
map_errors f m w = (map_error f (m w).0, (m w).1)

unfoldable pub raise_if : Bool → Error → Action ⊤
unfolding pure raise
raise_if true x = raise x
raise_if false x = pure tt

abbrev pub advance : World → World
advance w = record w { steps = suc w.steps }

-- How the body of a transaction ends: by `tx.Commit`, or by a return that leaves the deferred
-- `tx.Rollback` to run.
pub data Ending (A : Type 0) : Type 0 where
  commit roll_back : A → Ending A

module _ (e : Env) where
  module _ {A : Type 0} where
    abbrev pub put_result : Result A × Db → World → Result A × World
    put_result (r, d) w = (r, record w { db = d; steps = suc w.steps })

    -- One SQL statement: the server fails it and nothing changes, or it runs at `NOW()`.
    unfoldable pub sql : (ℕ → Db → Result A × Db) → Action A
    sql f w =
        if e.sql_fails w.steps
        then (err db_failed, advance w)
        else put_result (f (e.now w.steps) w.db) w

    -- A statement that only reads.
    unfoldable pub query : (ℕ → Db → A) → Action A
    unfolding sql
    query f = sql λ t d. (ok (f t d), d)

    -- A statement that no constraint can refuse.
    unfoldable pub exec : (ℕ → Db → A × Db) → Action A
    unfolding sql
    exec f = sql λ t d. (ok (f t d).0, (f t d).1)

    unfoldable pub finish : World → Result (Ending A) × World → Result A × World
    finish w (err x, w') = (err x, record w' { db = w.db })
    finish w (ok (roll_back a), w') = (ok a, record w' { db = w.db })
    finish w (ok (commit a), w') =
        if e.sql_fails w'.steps
        then (err db_failed, record (advance w') { db = w.db })
        else (ok a, advance w')

    -- `pool.Begin` to `tx.Commit`. `NOW()` is the time at which the transaction began.
    unfoldable pub in_transaction : (ℕ → Action (Ending A)) → Action A
    unfolding finish
    in_transaction body w =
        if e.sql_fails w.steps
        then (err db_failed, advance w)
        else finish w (body (e.now w.steps) (advance w))

    -- One call of the object store.
    unfoldable pub ask : OutsideCall → (ℕ → A) → Action A
    ask call answer w =
        (ok (answer w.steps), record w { calls = call ∷ w.calls; steps = suc w.steps })

    -- A question that leaves no record.
    unfoldable pub draw : (ℕ → A) → Action A
    draw answer w = (ok (answer w.steps), advance w)

    -- One command, or one pipeline, of Redis.
    abbrev pub put_keys : A × Redis → World → Result A × World
    put_keys (a, r) w = (ok a, record w { db = record w.db { redis = r }; steps = suc w.steps })

    unfoldable pub command : (ℕ → Redis → A × Redis) → Action A
    command f w =
        if e.redis_fails w.steps
        then (err redis_failed, advance w)
        else put_keys (f (e.now w.steps) w.db.redis) w

  unfoldable pub time_now : Action ℕ
  time_now w = (ok (e.now w.steps), advance w)

  unfoldable pub uuid_new : Action ℕ
  uuid_new w = (ok (e.new_uuid w.steps), advance w)

-- Opens everything above, for a test or a proof that runs an operation.
unfoldable pub running : ⊤
unfolding pure raise or_raise ◌>>=◌ attempt on_row map_errors raise_if sql query exec in_transaction
    ask draw command time_now uuid_new
running = tt
