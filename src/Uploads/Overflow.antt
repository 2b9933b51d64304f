-- ===== src/Uploads/Overflow.antt =====
-- `InitiateMultipartUpload` of internal/usecase/storage/service.go where the bytes in use and the
-- declared size add up to 2^63 or more.
use cloud_zero_knowledge_sto.Base.{
  ℕ, zero, suc, ◌+◌, ◌%◌, ◌^◌, ◌≤◌, ◌<◌, true, false, ◌||◌, Option, none, some, ◌∷◌, ◌++◌, Text,
  ◌≡◌, refl, ap, ◌∙◌, arith, inl, inr, ltb, ◌==◌, Bool-cases, is_null, exists_row, text_eq, ==_refl,
}
use cloud_zero_knowledge_sto.Store.{
  Db, Env, World, advance, Action, Result, ok, err, ◌>>=◌, uuid_new, new_multipart_upload,
  presign_upload_part,
}
use cloud_zero_knowledge_sto.Store.Ends.{
  Outcome, Ends, Ends-bind, Ends-given, Ends-mono, Ends-pure, Ends-ask, Ends-or_raise_when,
  Ends-raise_when, Ends-attempt_split,
}
use cloud_zero_knowledge_sto.Store.Steps.{Ends-raise_if_then}
use cloud_zero_knowledge_sto.Store.Answering.{Ends-sql_up, Ends-never}
use cloud_zero_knowledge_sto.Blobs.{
  int64_limit, RegisterBlobParams, register, register_blob, get_user_storage_used,
}
use cloud_zero_knowledge_sto.Names.{slash}
use cloud_zero_knowledge_sto.Uploads.{
  Limits, InitiateMultipartParams, InitiateMultipartResult, is_too_large, exceeds_quota,
  check_quota, pass_or_abort, or_abort, presign_parts, initiate_multipart_upload,
}
use cloud_zero_knowledge_sto.Uploads.Admission.{used_by, used_by-new}

-- The object store opens every upload and signs every link.
pub record IsOpen (e : Env) : Type 0 where
  pub opens : (n : ℕ) (key : Text) → is_null (e.new_upload_id n key) ≡ false
  pub signs : (n : ℕ) (key id : Text) (part : ℕ) → is_null (e.presigned_part n key id part) ≡ false

there_lem : {A : Type 0} (o : Option A) → is_null o ≡ false → o ≡ none → ⊥
there_lem none h lost = absurd cc
there_lem (some a) h lost = absurd cc

-- `m` returns and keeps `P`.
abbrev Works : {A : Type 0} → (Db → Type 0) → Action A → Type 0
Works P m = Ends P m (λ _. P) (λ _. ⊥)

module _ (e : Env) (store_up : IsOpen e) {P : Db → Type 0} where
  new_multipart_upload-Works : (key : Text) → Works P (new_multipart_upload e key)
  unfolding new_multipart_upload
  new_multipart_upload-Works key = Ends-bind _ _ _ _ _ (Ends-ask e _ _ _) λ answer.
      Ends-given _ _ _ _ λ asked.
        Ends-mono _ _ _ _ _
          (Ends-or_raise_when answer _ (λ _. ⊥)
            λ lost d p.
              there_lem (e.new_upload_id asked.0 key) (store_up.opens asked.0 key) (asked.1 ∙ lost))
          (λ a d h. h.1) (λ d h. h)

  presign_upload_part-Works :
      (key id : Text) (part : ℕ) → Works P (presign_upload_part e key id part)
  unfolding presign_upload_part
  presign_upload_part-Works key id part = Ends-bind _ _ _ _ _ (Ends-ask e _ _ _) λ answer.
      Ends-given _ _ _ _ λ asked.
        Ends-mono _ _ _ _ _
          (Ends-or_raise_when answer _ (λ _. ⊥)
            λ lost d p.
              there_lem (e.presigned_part asked.0 key id part) (store_up.signs asked.0 key id part)
                (asked.1 ∙ lost))
          (λ a d h. h.1) (λ d h. h)

module _ (e : Env) {A : Type 0} {P Q : Db → Type 0} where
  or_abort_returns :
      (key id : Text) (m : Action A)
      → Ends P m (λ _. Q) (λ _. ⊥)
      → Ends P (or_abort e key id m) (λ _. Q) (λ _. ⊥)
  unfolding or_abort pass_or_abort
  or_abort_returns key id m y =
      Ends-attempt_split _ _ (λ _. Q) (λ _. ⊥) _ _ y (λ a. Ends-pure _ _ _ λ d q. q)
        (λ x. Ends-never _ _ _)

presign_parts-Works :
    (e : Env)
    → IsOpen e
    → {P : Db → Type 0} (key id : Text) (n i : ℕ) → Works P (presign_parts e key id n i)
unfolding presign_parts
presign_parts-Works e store_up key id zero i = Ends-pure _ _ _ λ d p. p
presign_parts-Works e store_up {P} key id (suc n) i =
    Ends-bind _ _ (λ _. P) _ _
      (or_abort_returns e key id _ (presign_upload_part-Works e store_up key id i))
      λ url.
        Ends-bind _ _ (λ _. P) _ _ (presign_parts-Works e store_up key id n (suc i))
          λ rest. Ends-pure _ _ _ λ d p. p

-- The test of the quota at a sum that wraps.
exceeds_quota_wraps :
    (quota used size : ℕ)
    → used < int64_limit
    → size < int64_limit
    → int64_limit ≤ used + size
    → exceeds_quota quota used size ≡ false
exceeds_quota_wraps quota used size hu hs wraps =
    let plain : (used + size) % 2 ^ 64 ≡ used + size = omega arith in ground (arith, plain)

module _ (e : Env) (sql_up : (n : ℕ) → e.sql_fails n ≡ false) (d₀ : Db) where
  check_quota-Works :
      (l : Limits) (u size : ℕ)
      → used_by u d₀ < int64_limit
      → size < int64_limit
      → int64_limit ≤ used_by u d₀ + size
      → Works (λ d. d ≡ d₀) (check_quota e l u size)
  unfolding check_quota get_user_storage_used
  check_quota-Works l u size hu hs wraps = elim (Bool-cases (ltb 0 l.quota_bytes)) [
    | inl limited ↦ rw limited (
        Ends-bind _ _ (λ used d. (used ≡ used_by u d₀) × (d ≡ d₀)) _ _
          (Ends-sql_up e sql_up _ _ _ λ t d same.
            let fits : ltb (used_by u d) int64_limit ≡ true =
              ap (λ x. ltb (used_by u x) int64_limit) same ∙ ground (arith, hu) in
            rw fits (ap (used_by u) same, same))
          λ used. Ends-given _ _ _ _ λ is.
            let passes = exceeds_quota_wraps l.quota_bytes (used_by u d₀) size hu hs wraps in
            Ends-mono _ _ _ _ _
              (Ends-raise_when _ _ (λ _. ⊥)
                λ over d same.
                  absurd (let h = ap (λ k. exceeds_quota l.quota_bytes k size) is in cc))
              (λ _ d h. h.1) (λ d h. h))
    | inr free ↦ rw free (Ends-pure _ _ _ λ d same. same)
  ]

  register_blob_returns :
      (p : RegisterBlobParams)
      → exists_row (λ b. b.id == p.id || text_eq b.object_key p.object_key) d₀.blobs ≡ false
      → exists_row (λ u. u.id == p.user_id) d₀.users ≡ true
      → p.folder_id ≡ none
      → Ends
          (λ d. d ≡ d₀)
          (register_blob e p)
          (λ _ d. used_by p.user_id d ≡ used_by p.user_id d₀ + p.file_size)
          (λ _. ⊥)
  unfolding register_blob register
  register_blob_returns p fresh known root = Ends-sql_up e sql_up _ _ _ λ t d same.
      rw (same, fresh, known, root) (used_by-new d₀ _ p.user_id _ refl (==_refl p.user_id))

-- The key of the object of a new blob.
abbrev pub object_key_of : Env → ℕ → ℕ → Text
object_key_of e user id = e.uuid_text user ++ slash ∷ e.uuid_text id

start_lem :
    {A : Type 0} (e : Env) (k : ℕ → Action A) (Q : A → Db → Type 0) (R : Db → Type 0) (w : World)
    → Ends (λ d. d ≡ w.db) (k (e.new_uuid w.steps)) Q R
    → Outcome
        ((uuid_new e >>= k) w).0
        (λ a. Q a ((uuid_new e >>= k) w).1.db)
        (R ((uuid_new e >>= k) w).1.db)
unfolding uuid_new ◌>>=◌
start_lem e k Q R w y = y.at (advance w) refl

returned : {A : Type 0} (r : Result A) (X : A → Type 0) → Outcome r X ⊥ → (a : A) × (r ≡ ok a) × X a
returned (ok a) X h = (a, refl, h)
returned (err x) X h = absurd h

-- With a database and an object store that answer and a quota below 2^63, an upload into the root
-- folder, by a user who exists, of a file within the limit for files, under a new id and a new key:
-- if the bytes in use and the declared size are below 2^63 each and come to 2^63 or more together,
-- the upload is admitted, and the user's rows then add up to more than the quota.
pub initiate_over_quota :
    (e : Env) (l : Limits) (p : InitiateMultipartParams) (w : World)
    → ((n : ℕ) → e.sql_fails n ≡ false)
    → IsOpen e
    → l.quota_bytes < int64_limit
    → is_too_large l p.file_size ≡ false
    → p.folder_id ≡ none
    → exists_row (λ u. u.id == p.user_id) w.db.users ≡ true
    → exists_row
        (λ b.
          b.id == e.new_uuid w.steps
          || text_eq b.object_key (object_key_of e p.user_id (e.new_uuid w.steps)))
        w.db.blobs
      ≡ false
    → used_by p.user_id w.db < int64_limit
    → p.file_size < int64_limit
    → int64_limit ≤ used_by p.user_id w.db + p.file_size
    → (r : InitiateMultipartResult) × ((initiate_multipart_upload e l p w).0 ≡ ok r)
      × (l.quota_bytes < used_by p.user_id (initiate_multipart_upload e l p w).1.db)
unfolding initiate_multipart_upload
initiate_over_quota e l p w sql_up store_up bounded within root known fresh hu hs wraps =
    let same = λ (d : Db). d ≡ w.db in
    let over = λ (d : Db). l.quota_bytes < used_by p.user_id d in
    returned (initiate_multipart_upload e l p w).0 _ (
      start_lem e _ (λ _. over) (λ _. ⊥) w
        (Ends-raise_if_then w.db _ _ _ _ _ (λ large. absurd cc)
          λ _.
            Ends-bind _ _ (λ _. same) _ _
              (check_quota-Works e sql_up w.db l p.user_id p.file_size hu hs wraps)
              λ _.
                Ends-bind _ _ (λ _. same) _ _ (rw root (Ends-pure _ _ _ λ d h. h))
                  λ _.
                    Ends-bind _ _ (λ _. same) _ _ (new_multipart_upload-Works e store_up _)
                      λ upload_id.
                        Ends-bind _ _ (λ _. over) _ _
                          (or_abort_returns e _ upload_id _ (
                            Ends-mono _ _ _ _ _
                              (register_blob_returns e sql_up w.db _ fresh known root)
                              (λ _ d h. omega (arith, h, wraps, bounded)) (λ d h. h)))
                          λ _.
                            Ends-bind _ _ (λ _. over) _ _
                              (presign_parts-Works e store_up _ upload_id p.part_count 1)
                              λ urls. Ends-pure _ _ _ λ d h. h))
