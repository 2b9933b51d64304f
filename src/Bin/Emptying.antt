-- ===== src/Bin/Emptying.antt =====
-- What `EmptyTrash` of internal/usecase/storage/service.go leave.
use cloud_zero_knowledge_sto.Base.{
  ℕ, suc, Bool, true, false, ◌&&◌, none, List, [], ◌∷◌, map, ◌≡◌, ◌⊎◌, inl, inr, refl, ap, ◌∙◌,
  ◌==◌, ⊤, is_not_null, select, update, delete, select-delete_self, Bool-cases,
}
use cloud_zero_knowledge_sto.Store.{
  Blob, Folder, Db, drop_blobs, drop_folders, names_one_of, Env, World, err, db_failed, running,
}
use cloud_zero_knowledge_sto.Store.Ends.{
  Outcome, Ends, Ends-mono, Ends-bind, Ends-pure, Ends-exec, Ends-sql,
}
use cloud_zero_knowledge_sto.Store.Transactions.{Ends-in_transaction}
use cloud_zero_knowledge_sto.Blobs.{is_trashed, empty_trashed_blobs}
use cloud_zero_knowledge_sto.Folders.{detach, empty_trashed_folders}
use cloud_zero_knowledge_sto.Bin.{empty_trash}
use cloud_zero_knowledge_sto.Directories.Removal.{delete_folders_cases, remove_all_lem}

abbrev pub is_bin_blob : ℕ → Blob → Bool
is_bin_blob user b = b.user_id == user && is_trashed b

abbrev pub is_bin_folder : ℕ → Folder → Bool
is_bin_folder user f = f.user_id == user && is_not_null f.deleted_at

-- After the first statement.
abbrev pub without_blobs : ℕ → Db → Db
without_blobs user d = drop_blobs (is_bin_blob user) d

-- After the transaction.
abbrev pub without_folders : ℕ → Db → Db
without_folders user d = drop_folders (is_bin_folder user) (
    detach (is_bin_folder user) (
      drop_blobs (λ b. b.user_id == user && names_one_of (is_bin_folder user) d.folders b.folder_id)
        d))

none_after_delete {ℓ} :
    {A : Type ℓ} (q p : A → Bool) (rows : List A)
    → select q rows ≡ []
    → select q (delete p rows) ≡ []
none_after_delete q p [] h = refl
none_after_delete q p (x ∷ rows) h = elim (Bool-cases (q x)) [
  | inl hit ↦ let some_left : (x ∷ select q rows) ≡ [] = rw hit at h in cc
  | inr miss ↦
      let ih = none_after_delete q p rows (rw miss at h) in
      elim (Bool-cases (p x)) [ inl goes ↦ rw goes ih | inr stays ↦ rw (stays, miss) ih ]
]

none_after_update {ℓ} :
    {A : Type ℓ} (q p : A → Bool) (f : A → A)
    → ((a : A) → q (f a) ≡ q a)
    → (rows : List A) → select q rows ≡ []
    → select q (update p f rows) ≡ []
none_after_update q p f same [] h = refl
none_after_update q p f same (x ∷ rows) h = elim (Bool-cases (q x)) [
  | inl hit ↦ let some_left : (x ∷ select q rows) ≡ [] = rw hit at h in cc
  | inr miss ↦
      let ih = none_after_update q p f same rows (rw miss at h) in
      elim (Bool-cases (p x)) [
        | inl goes ↦ rw (goes, same x, miss) ih
        | inr stays ↦ rw (stays, miss) ih
      ]
]

-- What holds when the trash of a user was emptied at the tables `d₀`.
pub record IsEmptied (user : ℕ) (d₀ d : Db) : Type 0 where
  pub left : d ≡ without_folders user (without_blobs user d₀)
  pub no_blob : select (is_bin_blob user) d.blobs ≡ []
  pub no_folder : select (is_bin_folder user) d.folders ≡ []

emptied_lem :
    (user : ℕ) (d₀ d : Db) → d ≡ without_folders user (without_blobs user d₀) → IsEmptied user d₀ d
emptied_lem user d₀ d eq = record {
  left = eq;
  no_blob =
      ap (λ x. select (is_bin_blob user) x.blobs) eq
      ∙ none_after_update (is_bin_blob user) _ (λ b. record b { folder_id = none }) (λ b. refl) _
          (none_after_delete (is_bin_blob user) _ _
            (select-delete_self (is_bin_blob user) d₀.blobs));
  no_folder =
      ap (λ x. select (is_bin_folder user) x.folders) eq
      ∙ select-delete_self (is_bin_folder user)
          (detach (is_bin_folder user) (without_blobs user d₀)).folders;
}

module _ (e : Env) (user : ℕ) (d₀ : Db) where
  empty_folders_lem :
      Ends
        (λ d. d ≡ d₀)
        (empty_trashed_folders e user)
        (λ _ d. d ≡ without_folders user d₀)
        (λ d. d ≡ d₀)
  unfolding empty_trashed_folders
  empty_folders_lem = Ends-in_transaction e _ d₀ _ λ t.
      let here = λ (b : Blob).
        b.user_id == user && names_one_of (is_bin_folder user) d₀.folders b.folder_id in
      let d₁ = drop_blobs here d₀ in
      Ends-bind _ _ (λ _ d. d ≡ d₁) _ (λ _. ⊤)
        (Ends-exec e _ _ (λ _. ⊤) (λ d h. tt)
          (λ _ d h.
            ap
              (λ x.
                drop_blobs
                  (λ b.
                    b.user_id == user && names_one_of (is_bin_folder user) x.folders b.folder_id)
                  x)
              h))
        λ _.
          Ends-bind _ _ (λ _ d. d ≡ detach (is_bin_folder user) d₁) _ (λ _. ⊤)
            (Ends-exec e _ _ (λ _. ⊤) (λ d h. tt) (λ _ d h. ap (detach (is_bin_folder user)) h))
            λ _.
              Ends-bind _ _ (λ _ d. d ≡ without_folders user d₀) _ (λ _. ⊤)
                (Ends-sql e _ _ (λ _. ⊤) (λ d h. tt)
                  λ _ d h.
                    rw h
                      (delete_folders_cases (is_bin_folder user) (detach (is_bin_folder user) d₁)))
                λ _. Ends-pure _ _ (λ _. ⊤) λ d h. h

empty_trash_lem :
    (e : Env) (user : ℕ) (d₀ : Db)
    → Ends
        (λ d. d ≡ d₀)
        (empty_trash e user)
        (λ _ d. IsEmptied user d₀ d)
        (λ d. (d ≡ d₀) ⊎ (d ≡ without_blobs user d₀))
unfolding empty_trash empty_trashed_blobs
empty_trash_lem e user d₀ =
    let R = λ (d : Db). (d ≡ d₀) ⊎ (d ≡ without_blobs user d₀) in
    Ends-bind _ _ (λ _ d. d ≡ without_blobs user d₀) _ R
      (Ends-exec e _ _ R (λ d h. inl h) (λ _ d h. ap (without_blobs user) h))
      λ blobs.
        Ends-bind _ _ (λ _ d. d ≡ without_folders user (without_blobs user d₀)) _ R
          (Ends-mono _ _ _ _ R (empty_folders_lem e user (without_blobs user d₀)) (λ _ d h. h)
            (λ d h. inr h))
          λ r.
            Ends-bind _ _ (λ _ d. d ≡ without_folders user (without_blobs user d₀)) _ R
              (remove_all_lem e d₀ (map (λ b. b.object_key) blobs) R)
              λ _.
                Ends-bind _ _ (λ _ d. d ≡ without_folders user (without_blobs user d₀)) _ R
                  (remove_all_lem e d₀ r.1 R) λ _. Ends-pure _ _ R λ d h. emptied_lem user d₀ d h

-- When `EmptyTrash` returns, no blob and no folder of the user is left in the trash: the trashed
-- blobs, the blobs in trashed folders and the trashed folders are deleted, with the rows that hang
-- on them. When it fails, the tables are as they were or lack exactly the trashed blobs.
pub empty_trash-IsEmptied :
    (e : Env) (user : ℕ) (w : World)
    → Outcome
        (empty_trash e user w).0
        (λ _. IsEmptied user w.db (empty_trash e user w).1.db)
        (((empty_trash e user w).1.db ≡ w.db)
          ⊎ ((empty_trash e user w).1.db ≡ without_blobs user w.db))
empty_trash-IsEmptied e user w = (empty_trash_lem e user w.db).at w refl

-- If the database answers the first statement of `EmptyTrash` and refuses the transaction that
-- follows, the rows of the trashed blobs are deleted, the call fails, and the object store was not
-- asked to remove any object.
pub empty_trash_leaks :
    (e : Env) (user : ℕ) (w : World)
    → e.sql_fails w.steps ≡ false
    → e.sql_fails (suc w.steps) ≡ true
    → empty_trash e user w
      ≡ (err db_failed, record w { db = without_blobs user w.db; steps = suc (suc w.steps) })
unfolding empty_trash empty_trashed_blobs empty_trashed_folders running
empty_trash_leaks e user w up down = rw (up, down) refl
