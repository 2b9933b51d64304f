-- ===== src/Directories/Removal.antt =====
-- What `HardDeleteFolder` of internal/usecase/storage/service.go leaves.
use cloud_zero_knowledge_sto.Base.{
  ℕ, Bool, true, ◌&&◌, not, Option, none, some, List, [], ◌∷◌, map, Text, ◌≡◌, ◌⊎◌, inl, inr, refl,
  sym, ap, ◌∙◌, subst, ⊤, select, update, exists_row, contains, Bool-cases,
}
use cloud_zero_knowledge_sto.Store.{
  Folder, Db, drop_blobs, drop_folders, names_one_of, Env, World, ignore_error,
}
use cloud_zero_knowledge_sto.Store.Ends.{
  Outcome, Ends, Ends-mono, Ends-given, Ends-bind, Ends-pure, Ends-query, Ends-exec, Ends-sql,
  Ends-on_row, Ends-or_raise_when, Ends-attempt,
}
use cloud_zero_knowledge_sto.Store.Transactions.{Ends-in_transaction}
use cloud_zero_knowledge_sto.Folders.{
  in_folders, detach, unique_names, update_folders, delete_folders, hard_delete_folder,
}
use cloud_zero_knowledge_sto.Directories.{remove_all, hard_delete_directory}
use cloud_zero_knowledge_sto.Directories.Trash.{IsSubtree, select_subtree_lem, clash}
use cloud_zero_knowledge_sto.Folders.Forest.{some_lem}
use cloud_zero_knowledge_sto.Store.Answers.{remove_object_lem}
use cloud_zero_knowledge_sto.Directories.Restoration.{trashed_folder, Any}

abbrev pub without_subtree : List ℕ → Db → Db
without_subtree ids d =
    drop_folders (λ f. contains ids f.id)
      (detach (λ f. contains ids f.id) (drop_blobs (in_folders ids) d))

-- What holds when a folder was deleted for good at the tables `d₀`.
pub record IsRemoved (id user : ℕ) (d₀ : Db) (keys : List Text) (name : Text) (d : Db)
    : Type 0 where
  pub row : Folder
  pub was_trashed : trashed_folder id user d₀ ≡ some row
  pub ids : List ℕ
  pub subtree : IsSubtree (λ _. true) d₀.folders (id ∷ []) ids
  pub gone : d ≡ without_subtree ids d₀
  pub all_keys : keys ≡ map (λ b. b.object_key) (select (in_folders ids) d₀.blobs)
  pub named : name ≡ row.name

pub delete_folders_cases :
    (here : Folder → Bool) (d : Db)
    → Outcome (delete_folders here d).0 (λ _. (delete_folders here d).1 ≡ drop_folders here d) ⊤
unfolding delete_folders
delete_folders_cases here d =
    let held =
      exists_row (λ f. not (here f) && names_one_of here d.folders f.parent_id) d.folders in
    elim (Bool-cases held) [ inl refused ↦ rw refused tt | inr free ↦ rw free refl ]

detach_cases :
    (here : Folder → Bool) (d : Db)
    → let r = update_folders here (λ f. record f { parent_id = none }) d in
      Outcome r.0 (λ _. r.1 ≡ detach here d) ⊤
unfolding update_folders
detach_cases here d =
    let rows = update here (λ f. record f { parent_id = none }) d.folders in
    elim (Bool-cases (unique_names rows)) [ inl unique ↦ rw unique refl | inr taken ↦ rw taken tt ]

module _ (e : Env) (d₀ : Db) where
  abbrev Deleted : ℕ → ℕ → Option (List Text × Text) → Db → Type 0
  Deleted id user o d =
      ((o ≡ none) × (d ≡ d₀))
      ⊎ ((r : List Text × Text) × (o ≡ some r) × IsRemoved id user d₀ r.0 r.1 d)

  hard_delete_folder_lem :
      (id user : ℕ)
      → Ends (λ d. d ≡ d₀) (hard_delete_folder e id user) (Deleted id user) (λ d. d ≡ d₀)
  unfolding hard_delete_folder
  hard_delete_folder_lem id user = Ends-in_transaction e _ d₀ _ λ t.
      let none_left = Any e d₀ in
      Ends-bind _ _ (λ found d. (found ≡ trashed_folder id user d₀) × (d ≡ d₀)) _ none_left
        (Ends-query e _ _ none_left (λ d h. tt) (λ _ d h. (ap (trashed_folder id user) h, h)))
        λ found. Ends-given _ _ _ none_left λ read.
          Ends-on_row found _ _ _ none_left (λ _. Ends-pure _ _ none_left λ d h. inl (refl, refl))
            λ root got.
              Ends-bind _ _ _ _ none_left
                (select_subtree_lem e d₀ (λ _. true) (λ _. id ∷ []) none_left (λ d h. tt))
                λ ids. Ends-given _ _ _ none_left λ subtree.
                  let here = λ (f : Folder). contains ids f.id in
                  let d₁ = drop_blobs (in_folders ids) d₀ in
                  Ends-bind _ _
                    (λ ks d.
                      (ks ≡ map (λ b. b.object_key) (select (in_folders ids) d₀.blobs)) × (d ≡ d₁))
                    _ none_left
                    (Ends-exec e _ _ none_left (λ d h. tt)
                      (λ _ d h. (
                        ap (λ x. map (λ b. b.object_key) (select (in_folders ids) x.blobs)) h,
                        ap (drop_blobs (in_folders ids)) h,
                      )))
                    λ keys. Ends-given _ _ _ none_left λ all.
                      Ends-bind _ _ (λ _ d. d ≡ detach here d₁) _ none_left
                        (Ends-sql e _ _ none_left (λ d h. tt) λ _ d h. rw h (detach_cases here d₁))
                        λ _.
                          Ends-bind _ _ (λ _ d. d ≡ without_subtree ids d₀) _ none_left
                            (Ends-sql e _ _ none_left (λ d h. tt)
                              λ _ d h. rw h (delete_folders_cases here (detach here d₁)))
                            λ _. Ends-pure _ _ none_left λ d h. inr (
                              (keys, root.name),
                              refl,
                              record {
                                row = root;
                                was_trashed = sym read ∙ got;
                                ids = ids;
                                subtree = subtree;
                                gone = h;
                                all_keys = all;
                                named = refl;
                              },
                            )

  pub remove_all_lem :
      {P : Db → Type 0} (keys : List Text) (R : Db → Type 0) → Ends P (remove_all e keys) (λ _. P) R
  unfolding remove_all ignore_error
  remove_all_lem [] R = Ends-pure tt _ R λ d h. h
  remove_all_lem {P} (key ∷ keys) R =
      Ends-bind _ _ (λ _. P) _ R
        (Ends-attempt _ _ _ R
          (Ends-mono _ _ _ P P (remove_object_lem e key P (λ d h. h)) (λ _ d h. h.1) (λ d h. h))
          λ _. Ends-pure tt _ R λ d h. h)
        λ _. remove_all_lem keys R

  hard_delete_lem :
      (id user : ℕ)
      → Ends
          (λ d. d ≡ d₀)
          (hard_delete_directory e user id)
          (λ name d. (keys : List Text) × IsRemoved id user d₀ keys name d)
          (λ d. d ≡ d₀)
  unfolding hard_delete_directory
  hard_delete_lem id user =
      let R = λ (d : Db). d ≡ d₀ in
      Ends-bind _ _ _ _ R (hard_delete_folder_lem id user) λ found.
        Ends-bind _ _ (λ r. IsRemoved id user d₀ r.0 r.1) _ R
          (Ends-mono _ _ _ R R
            (Ends-or_raise_when found _ R (λ gone d h. elim h [
              | inl (_, same) ↦ same
              | inr (r, there, _) ↦ clash found gone r there _
            ]))
            (λ r d (got, h). elim h [
              | inl (gone, _) ↦ clash found gone r got _
              | inr (r', there, removed) ↦
                  subst (λ x. IsRemoved id user d₀ x.0 x.1 d) (some_lem r' r (sym there ∙ got))
                    removed
            ])
            (λ d h. h))
          λ r.
            Ends-bind _ _ (λ _. IsRemoved id user d₀ r.0 r.1) _ R (remove_all_lem r.0 R)
              λ _. Ends-pure _ _ R λ d h. (r.0, h)

-- `HardDeleteFolder` either fails and leaves every table as it was, or: the user had the folder in
-- the trash, the rows of it and of every folder below it, however deep, are deleted, with those of
-- all blobs in them, and the rows that referred to any of these are deleted or let go of them.
pub hard_delete_directory-IsRemoved :
    (e : Env) (id user : ℕ) (w : World)
    → Outcome
        (hard_delete_directory e user id w).0
        (λ name.
          (keys : List Text) × IsRemoved id user w.db keys name
            (hard_delete_directory e user id w).1.db)
        ((hard_delete_directory e user id w).1.db ≡ w.db)
hard_delete_directory-IsRemoved e id user w = (hard_delete_lem e w.db id user).at w refl
