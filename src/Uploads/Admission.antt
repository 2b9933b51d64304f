-- ===== src/Uploads/Admission.antt =====
-- What `InitiateMultipartUpload` of internal/usecase/storage/service.go has checked and written
-- when it returns.
use cloud_zero_knowledge_sto.Base.{
  ℕ, zero, suc, ◌+◌, ◌%◌, ◌^◌, ◌≤◌, ◌<◌, Bool, true, false, ◌&&◌, Option, none, some, List, [], ◌∷◌,
  ◌++◌, Text, ◌≡◌, refl, ⊤, arith, ◌⊎◌, inl, inr, ltb, ◌==◌, if◌then◌else◌, Bool-cases, not, ap,
  ==_refl, first-exists, select, first, exists_row,
}
use cloud_zero_knowledge_sto.Store.{
  Blob, Db, Env, World, Action, Result, ok, err, ◌>>◌, attempt, pure, raise, ignore_error,
  abort_multipart_upload,
}
use cloud_zero_knowledge_sto.Store.Keeps.{
  keeps_rules, Keeps-uuid_new, Keeps-new_multipart_upload, Keeps-presign_upload_part,
}
use cloud_zero_knowledge_sto.Store.Yields.{
  After, Yields, Yields-ok, Yields-keep, Yields-pure, Yields-mono, Yields-given, Yields-raise,
  Yields-raise_if, Yields-bind, Yields-sql, Yields-query,
}
use cloud_zero_knowledge_sto.Blobs.{
  int64_limit, sum_sizes, RegisterBlobParams, new_blob, register, register_blob,
  get_user_storage_used,
}
use cloud_zero_knowledge_sto.Folders.{is_live, is_folder_of, get_folder}
use cloud_zero_knowledge_sto.Names.{slash, trim_space, sanitize_file_name}
use cloud_zero_knowledge_sto.Uploads.{
  Limits, InitiateMultipartParams, PartUrl, InitiateMultipartResult, is_too_large, exceeds_quota,
  check_quota, require_folder, require_optional_folder, pass_or_abort, or_abort, presign_parts,
  initiate_multipart_upload,
}

abbrev pub used_by : ℕ → Db → ℕ
used_by u d = sum_sizes (select (λ b. b.user_id == u) d.blobs)

-- Whether a folder, if one is given, is a live folder of the user.
abbrev pub folder_allowed : Option ℕ → ℕ → Db → Bool
folder_allowed none u d = true
folder_allowed (some id) u d = exists_row (λ f. is_folder_of id u f && is_live f) d.folders

abbrev pub numbers : List PartUrl → List ℕ
numbers [] = []
numbers (p ∷ ps) = p.part_number ∷ numbers ps

abbrev pub count_up : ℕ → ℕ → List ℕ
count_up zero i = []
count_up (suc n) i = i ∷ count_up n (suc i)

abbrev pub quota_allows : Limits → ℕ → Db → ℕ → Bool
quota_allows l u d size =
    if ltb 0 l.quota_bytes
    then ltb (used_by u d) int64_limit && not (exceeds_quota l.quota_bytes (used_by u d) size)
    else true

module _ (e : Env) (d₀ : Db) where
  -- The tables are still those of the start.
  abbrev Same : Db → Type 0
  Same d = d ≡ d₀

  check_quota_lem :
      (l : Limits) (u size : ℕ)
      → Yields Same (check_quota e l u size) (λ _ d. (quota_allows l u d₀ size ≡ true) × (d ≡ d₀))
  unfolding check_quota get_user_storage_used
  check_quota_lem l u size = elim (Bool-cases (ltb 0 l.quota_bytes)) [
    | inl limited ↦ rw limited (
        Yields-bind _ _ (λ used d. (used ≡ used_by u d₀) × (ltb used int64_limit ≡ true) × (d ≡ d₀))
          _
          (Yields-sql e _ _ λ t d h. elim (Bool-cases (ltb (used_by u d) int64_limit)) [
            | inl fits ↦ rw fits (ap (used_by u) h, fits, h)
            | inr over ↦ rw over tt
          ])
          λ used.
            Yields-mono _ _ _ (Yields-raise_if _ _)
              λ _ d (small, (eq, fits, same)). (rw (← eq, small, fits) refl, same))
    | inr free ↦ rw free (Yields-pure tt _ (λ d h. (refl, h)))
  ]

  require_folder_lem :
      (o : Option ℕ) (u : ℕ)
      → Yields Same
          (require_optional_folder e o u)
          (λ _ d. (folder_allowed o u d₀ ≡ true) × (d ≡ d₀))
  unfolding require_folder get_folder
  require_folder_lem none u = Yields-pure tt _ (λ d h. (refl, h))
  require_folder_lem (some id) u =
      Yields-bind _ _
        (λ found d.
          (found ≡ first (select (λ f. is_folder_of id u f && is_live f) d₀.folders)) × (d ≡ d₀))
        _
        (Yields-query e _ _ λ t d h.
          (ap (λ x. first (select (λ f. is_folder_of id u f && is_live f) x.folders)) h, h))
        λ found. Yields-mono _ _ _ (Yields-raise_if _ _) λ _ d (there, (eq, same)).
          (first-exists (λ f. is_folder_of id u f && is_live f) d₀.folders (rw eq at there), same)

module _ (e : Env) where
  pass_or_abort_lem :
      {A : Type 0} (key id : Text) (r : Result A) (Q : A → Db → Type 0) (w : World)
      → After r (λ a. Q a w.db)
      → After (pass_or_abort e key id r w).0 (λ a. Q a (pass_or_abort e key id r w).1.db)
  unfolding pass_or_abort pure
  pass_or_abort_lem key id (ok a) Q w h = h
  pass_or_abort_lem key id (err x) Q w h =
      let y : Yields (λ _. ⊤) (ignore_error (abort_multipart_upload e key id) >> raise x) Q =
        Yields-bind _ _ (λ _ _. ⊤) Q (Yields-keep _ (search keeps_rules)) λ _. Yields-raise x Q in
      y.at w tt

  or_abort_lem :
      {A : Type 0} {P : Db → Type 0} (key id : Text) (m : Action A) (Q : A → Db → Type 0)
      → Yields P m Q
      → Yields P (or_abort e key id m) Q
  unfolding or_abort attempt
  or_abort_lem key id m Q y = record {
    at = λ w p. pass_or_abort_lem key id (m w).0 Q (m w).1 (y.at w p);
  }

module _ (e : Env) {P : Db → Type 0} where
  presign_parts_lem :
      (key id : Text) (n i : ℕ)
      → Yields P (presign_parts e key id n i) (λ urls d. (numbers urls ≡ count_up n i) × P d)
  unfolding presign_parts
  presign_parts_lem key id zero i = Yields-pure [] _ (λ d h. (refl, h))
  presign_parts_lem key id (suc n) i =
      Yields-bind _ _ (λ _. P) _
        (or_abort_lem e key id _ _ (Yields-keep _ (Keeps-presign_upload_part e key id i)))
        λ url.
          Yields-bind _ _ (λ urls d. (numbers urls ≡ count_up n (suc i)) × P d) _
            (presign_parts_lem key id n (suc i))
            λ rest. Yields-pure _ _ (λ d h. (ap (λ ns. i ∷ ns) h.0, h.1))

-- The row that a registration appends, if it returns.
register_blob_lem :
    (e : Env) (d₀ : Db) (p : RegisterBlobParams)
    → Yields
        (λ d. d ≡ d₀)
        (register_blob e p)
        (λ _ d. (t : ℕ) × (d ≡ record d₀ { blobs = d₀.blobs ++ new_blob p t ∷ [] }))
unfolding register_blob register
register_blob_lem e d₀ p = Yields-sql e _ _ λ t d h. grind (arith, h)

sum_sizes-snoc :
    (q : Blob → Bool) (rows : List Blob) (b : Blob)
    → q b ≡ true
    → sum_sizes (select q (rows ++ b ∷ [])) ≡ sum_sizes (select q rows) + b.file_size
unfolding sum_sizes
sum_sizes-snoc q [] b h = ground arith
sum_sizes-snoc q (x ∷ rows) b h = ground (arith, sum_sizes-snoc q rows b h)

-- What the database and the answer hold after an upload was admitted at the tables `d₀`.
pub record IsAdmitted (e : Env) (l : Limits) (p : InitiateMultipartParams) (d₀ : Db)
    (r : InitiateMultipartResult) (d : Db) : Type 0 where
  pub within_limit : (l.max_upload_bytes ≡ 0) ⊎ (p.file_size ≤ l.max_upload_bytes)
  pub within_quota : (l.quota_bytes ≡ 0) ⊎ (used_by p.user_id d ≤ l.quota_bytes)
  pub in_folder : folder_allowed p.folder_id p.user_id d₀ ≡ true
  pub registered :
      (t : ℕ) × (d ≡ record d₀ {
        blobs =
            d₀.blobs
            ++ record {
              id = r.blob_id;
              user_id = p.user_id;
              folder_id = p.folder_id;
              file_name = sanitize_file_name p.file_name;
              content_type = trim_space p.content_type;
              object_key = e.uuid_text p.user_id ++ slash ∷ e.uuid_text r.blob_id;
              file_size = p.file_size;
              file_size_plain = p.file_size_plain;
              chunk_size = p.chunk_size;
              created_at = t;
              uploaded_at = none;
              encrypted_file_key = p.encrypted_file_key;
              upload_id = r.upload_id;
              deleted_at = none;
            }
              ∷ [];
      })
  pub all_parts : numbers r.part_urls ≡ count_up p.part_count 1

-- The size fits the limit, read off the test.
limit_lem :
    (l : Limits) (size : ℕ)
    → is_too_large l size ≡ false
    → (l.max_upload_bytes ≡ 0) ⊎ (size ≤ l.max_upload_bytes)
limit_lem l size h = ground arith

-- Without wrap-around the quota test is the comparison that it stands for.
pub quota_lem :
    (l : Limits) (u size : ℕ) (d : Db)
    → used_by u d + size < int64_limit
    → quota_allows l u d size ≡ true
    → (l.quota_bytes ≡ 0) ⊎ (used_by u d + size ≤ l.quota_bytes)
quota_lem l u size d small h =
    let plain : (used_by u d + size) % 2 ^ 64 ≡ used_by u d + size = omega arith in
    ground (arith, plain)

pub used_by-new :
    (d d' : Db) (u : ℕ) (b : Blob)
    → d' ≡ record d { blobs = d.blobs ++ b ∷ [] }
    → (b.user_id == u) ≡ true
    → used_by u d' ≡ used_by u d + b.file_size
used_by-new d d' u b e mine = rw e (sum_sizes-snoc (λ r. r.user_id == u) d.blobs b mine)

initiate_lem :
    (e : Env) (l : Limits) (p : InitiateMultipartParams) (d₀ : Db)
    → used_by p.user_id d₀ + p.file_size < int64_limit
    → Yields (λ d. d ≡ d₀) (initiate_multipart_upload e l p) (IsAdmitted e l p d₀)
unfolding initiate_multipart_upload
initiate_lem e l p d₀ small =
    let start = λ (d : Db). d ≡ d₀ in
    Yields-bind _ _ (λ _. start) _ (Yields-keep _ (Keeps-uuid_new e))
      λ id. Yields-bind _ _ _ _ (Yields-raise_if _ _) λ _. Yields-given _ _ _ λ size_ok.
        Yields-bind _ _ _ _ (check_quota_lem e d₀ l p.user_id p.file_size) λ _.
          Yields-given _ _ _ λ quota_ok.
            Yields-bind _ _ _ _ (require_folder_lem e d₀ p.folder_id p.user_id) λ _.
              Yields-given _ _ _ λ folder_ok.
                Yields-bind _ _ (λ _. start) _ (Yields-keep _ (Keeps-new_multipart_upload e _))
                  λ upload_id.
                    Yields-bind _ _ _ _ (or_abort_lem e _ upload_id _ _ (register_blob_lem e d₀ _))
                      λ _.
                        Yields-bind _ _ _ _ (presign_parts_lem e _ upload_id p.part_count 1) λ urls.
                          Yields-pure _ _ λ d h. record {
                            within_limit = limit_lem l p.file_size size_ok;
                            within_quota =
                                rw (used_by-new d₀ d p.user_id _ h.1.1 (==_refl p.user_id))
                                  (quota_lem l p.user_id p.file_size d₀ small quota_ok);
                            in_folder = folder_ok;
                            registered = h.1;
                            all_parts = h.0;
                          }

-- An upload that is admitted, where the sizes do not add up to 2^63: the file is within the limit
-- for files, what the user's rows then add up to is within the quota (0 is no limit), a folder
-- that was named is a live folder of the user, the table has one row more, pending, with the
-- declared sizes, the cleaned name and the object's key, and the links are for the parts 1, 2, …
-- up to the number asked for.
pub initiate-IsAdmitted :
    (e : Env) (l : Limits) (p : InitiateMultipartParams) (w : World) (r : InitiateMultipartResult)
    → used_by p.user_id w.db + p.file_size < int64_limit
    → (initiate_multipart_upload e l p w).0 ≡ ok r
    → IsAdmitted e l p w.db r (initiate_multipart_upload e l p w).1.db
initiate-IsAdmitted e l p w r small eq = Yields-ok (initiate_lem e l p w.db small) w refl r eq
