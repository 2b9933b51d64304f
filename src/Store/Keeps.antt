-- ===== src/Store/Keeps.antt =====
-- Invariants of the tables: one rule for each way to build an action.
use cloud_zero_knowledge_sto.Base.{
  ℕ, Bool, true, false, Option, none, some, List, Text, inl, inr, if◌then◌else◌, Bool-cases,
}
use cloud_zero_knowledge_sto.Store.Keys.{Redis}
use cloud_zero_knowledge_sto.Store.Rows.{Db}
use cloud_zero_knowledge_sto.Store.Effects.{
  Env, World, Action, Result, ok, err, Error, OutsideCall, UploadedPart, Ending, commit, roll_back,
  pure, raise, or_raise, raise_if, advance, continue, ◌>>=◌, on_row, attempt, map_errors, sql,
  query, exec, finish, in_transaction, ask, draw, command, time_now, uuid_new,
}
use cloud_zero_knowledge_sto.Store.Objects.{
  presigned_get_object, remove_object, stat_object, new_multipart_upload, presign_upload_part,
  complete_multipart_object, abort_multipart_upload, ignore_error,
}

-- `m` keeps `P`, whether it returns or fails.
pub record Keeps {A : Type 0} (P : Db → Type 0) (m : Action A) : Type 0 where
  pub at : (w : World) → P w.db → P (m w).1.db

module _ {A : Type 0} {P : Db → Type 0} where
  pub Keeps-pure : (a : A) → Keeps P (pure a)
  unfolding pure
  Keeps-pure a = record { at = λ w h. h }

  pub Keeps-raise : (x : Error) → Keeps P (raise {A = A} x)
  unfolding raise
  Keeps-raise x = record { at = λ w h. h }

  pub Keeps-or_raise : (o : Option A) (x : Error) → Keeps P (or_raise o x)
  unfolding or_raise
  Keeps-or_raise none x = record { at = λ w h. h }
  Keeps-or_raise (some a) x = record { at = λ w h. h }

  pub Keeps-if : (b : Bool) (m n : Action A) → Keeps P m → Keeps P n → Keeps P (if b then m else n)
  Keeps-if true m n km kn = km
  Keeps-if false m n km kn = kn

  pub Keeps-map_errors : (f : Error → Error) (m : Action A) → Keeps P m → Keeps P (map_errors f m)
  unfolding map_errors
  Keeps-map_errors f m km = record { at = λ w h. km.at w h }

  pub Keeps-ignore_error : (m : Action A) → Keeps P m → Keeps P (ignore_error m)
  unfolding ignore_error attempt pure
  Keeps-ignore_error m km = record { at = λ w h. km.at w h }

pub Keeps-raise_if : {P : Db → Type 0} (b : Bool) (x : Error) → Keeps P (raise_if b x)
unfolding raise_if
Keeps-raise_if true x = record { at = λ w h. h }
Keeps-raise_if false x = record { at = λ w h. h }

module _ {A B : Type 0} {P : Db → Type 0} where
  Keeps-continue :
      (r : Result A) (f : A → Action B) → ((a : A) → Keeps P (f a)) → Keeps P (continue r f)
  Keeps-continue (ok a) f kf = kf a
  Keeps-continue (err x) f kf = record { at = λ w h. h }

  pub Keeps-bind :
      (m : Action A) (f : A → Action B) → Keeps P m → ((a : A) → Keeps P (f a)) → Keeps P (m >>= f)
  unfolding ◌>>=◌
  Keeps-bind m f km kf = record { at = λ w h. (Keeps-continue (m w).0 f kf).at (m w).1 (km.at w h) }

  pub Keeps-on_row :
      (o : Option A) (m : Action B) (f : A → Action B)
      → Keeps P m
      → ((a : A) → Keeps P (f a))
      → Keeps P (on_row o m f)
  unfolding on_row
  Keeps-on_row none m f km kf = km
  Keeps-on_row (some a) m f km kf = kf a

  pub Keeps-attempt :
      (m : Action A) (f : Result A → Action B)
      → Keeps P m
      → ((r : Result A) → Keeps P (f r))
      → Keeps P (attempt m f)
  unfolding attempt
  Keeps-attempt m f km kf = record { at = λ w h. (kf (m w).0).at (m w).1 (km.at w h) }

module _ (e : Env) {A : Type 0} (P : Db → Type 0) where
  Keeps-finish :
      (w w' : World) (r : Result (Ending A)) → P w.db → P w'.db → P (finish e w (r, w')).1.db
  unfolding finish
  Keeps-finish w w' (err x) h h' = h
  Keeps-finish w w' (ok (roll_back a)) h h' = h
  Keeps-finish w w' (ok (commit a)) h h' = elim (Bool-cases (e.sql_fails w'.steps)) [
    | inl down ↦ rw down h
    | inr up ↦ rw up h'
  ]

module _ (e : Env) {A : Type 0} {P : Db → Type 0} where
  pub Keeps-sql :
      (f : ℕ → Db → Result A × Db) → ((t : ℕ) (d : Db) → P d → P (f t d).1) → Keeps P (sql e f)
  unfolding sql
  Keeps-sql f kf = record {
    at = λ w h. elim (Bool-cases (e.sql_fails w.steps)) [
      | inl down ↦ rw down h
      | inr up ↦ rw up (kf (e.now w.steps) w.db h)
    ];
  }

  pub Keeps-query : (f : ℕ → Db → A) → Keeps P (query e f)
  unfolding query
  Keeps-query f = Keeps-sql (λ t d. (ok (f t d), d)) (λ t d h. h)

  pub Keeps-exec :
      (f : ℕ → Db → A × Db) → ((t : ℕ) (d : Db) → P d → P (f t d).1) → Keeps P (exec e f)
  unfolding exec
  Keeps-exec f kf = Keeps-sql (λ t d. (ok (f t d).0, (f t d).1)) kf

  pub Keeps-in_transaction :
      (body : ℕ → Action (Ending A))
      → ((t : ℕ) → Keeps P (body t))
      → Keeps P (in_transaction e body)
  unfolding in_transaction
  Keeps-in_transaction body kb = record {
    at = λ w h. elim (Bool-cases (e.sql_fails w.steps)) [
      | inl down ↦ rw down h
      | inr up ↦ rw up (Keeps-finish e P w _ _ h ((kb (e.now w.steps)).at (advance w) h))
    ];
  }

  pub Keeps-ask : (call : OutsideCall) (answer : ℕ → A) → Keeps P (ask e call answer)
  unfolding ask
  Keeps-ask call answer = record { at = λ w h. h }

module _ (e : Env) {A : Type 0} {P : Db → Type 0} where
  pub Keeps-draw : (answer : ℕ → A) → Keeps P (draw e answer)
  unfolding draw
  Keeps-draw answer = record { at = λ w h. h }

  pub Keeps-command :
      (f : ℕ → Redis → A × Redis)
      → ((t : ℕ) (d : Db) → P d → P (record d { redis = (f t d.redis).1 }))
      → Keeps P (command e f)
  unfolding command
  Keeps-command f kf = record {
    at = λ w h. elim (Bool-cases (e.redis_fails w.steps)) [
      | inl down ↦ rw down h
      | inr up ↦ rw up (kf (e.now w.steps) w.db h)
    ];
  }

module _ (e : Env) {P : Db → Type 0} where
  pub Keeps-time_now : Keeps P (time_now e)
  unfolding time_now
  Keeps-time_now = record { at = λ w h. h }

  pub Keeps-uuid_new : Keeps P (uuid_new e)
  unfolding uuid_new
  Keeps-uuid_new = record { at = λ w h. h }

ruleset plain_rules = (Keeps-bind, Keeps-ask, Keeps-or_raise, Keeps-raise_if)

-- The object store is another process: no call of it changes a table.
module _ (e : Env) {P : Db → Type 0} where
  pub Keeps-presigned_get_object : (key : Text) → Keeps P (presigned_get_object e key)
  unfolding presigned_get_object
  Keeps-presigned_get_object key = search plain_rules

  pub Keeps-remove_object : (key : Text) → Keeps P (remove_object e key)
  unfolding remove_object
  Keeps-remove_object key = search plain_rules

  pub Keeps-stat_object : (key : Text) → Keeps P (stat_object e key)
  unfolding stat_object
  Keeps-stat_object key = search plain_rules

  pub Keeps-new_multipart_upload : (key : Text) → Keeps P (new_multipart_upload e key)
  unfolding new_multipart_upload
  Keeps-new_multipart_upload key = search plain_rules

  pub Keeps-presign_upload_part : (key id : Text) (n : ℕ) → Keeps P (presign_upload_part e key id n)
  unfolding presign_upload_part
  Keeps-presign_upload_part key id n = search plain_rules

  pub Keeps-complete_multipart_object :
      (key id : Text) (parts : List UploadedPart)
      → Keeps P (complete_multipart_object e key id parts)
  unfolding complete_multipart_object
  Keeps-complete_multipart_object key id parts = search plain_rules

  pub Keeps-abort_multipart_upload : (key id : Text) → Keeps P (abort_multipart_upload e key id)
  unfolding abort_multipart_upload
  Keeps-abort_multipart_upload key id = search plain_rules

pub ruleset keeps_rules = (
  Keeps-pure, Keeps-raise, Keeps-or_raise, Keeps-raise_if, Keeps-if, Keeps-map_errors, Keeps-bind,
  Keeps-on_row, Keeps-attempt, Keeps-ignore_error, Keeps-query, Keeps-ask, Keeps-draw,
  Keeps-time_now, Keeps-uuid_new, Keeps-presigned_get_object, Keeps-remove_object,
  Keeps-stat_object, Keeps-new_multipart_upload, Keeps-presign_upload_part,
  Keeps-complete_multipart_object, Keeps-abort_multipart_upload,
)
