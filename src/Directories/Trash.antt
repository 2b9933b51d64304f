-- ===== src/Directories/Trash.antt =====
-- What `DeleteFolder` of internal/usecase/storage/service.go leaves, over
-- internal/repo/persistent/postgres/folders.go.
use cloud_zero_knowledge_sto.Base.{
  ℕ, Bool, true, false, ◌&&◌, not, Option, none, some, List, map, ◌≡◌, ◌↔◌, ◌⊎◌, inl, inr, refl,
  sym, ap, ⊤, is_empty, select, contains, Bool-cases,
}
use cloud_zero_knowledge_sto.Store.{Folder, Db, Env, World}
use cloud_zero_knowledge_sto.Store.Ends.{
  Outcome, Ends, Ends-given, Ends-bind, Ends-pure, Ends-exec, Ends-sql, Ends-raise_when,
}
use cloud_zero_knowledge_sto.Store.Transactions.{Ends-read, Ends-in_transaction}
use cloud_zero_knowledge_sto.Folders.{
  is_live, is_folder_of, get_folder, select_subtree, answer_of, trash_folders, trash_contents,
  trash_folder,
}
use cloud_zero_knowledge_sto.Folders.Subtree.{closure}
use cloud_zero_knowledge_sto.Folders.Reach.{Below, closure-Below}
use cloud_zero_knowledge_sto.Directories.{delete_directory}
use cloud_zero_knowledge_sto.Directories.Moves.{live_row}

-- `ids` are the folders with `p` that stand below `roots`, all of them.
pub record IsSubtree (p : Folder → Bool) (folders : List Folder) (roots ids : List ℕ) : Type 0 where
  pub reached : (x : ℕ) → (contains ids x ≡ true) ↔ Below p folders roots x

module _ (e : Env) (d₀ : Db) where
  abbrev Same : Db → Type 0
  Same d = d ≡ d₀

  answer_lem :
      (p : Folder → Bool) (roots : List ℕ) (o : Option (List ℕ)) (d : Db) (R : Db → Type 0)
      → d ≡ d₀
      → (d ≡ d₀ → R d)
      → o ≡ closure e.cte_rounds p d₀.folders roots
      → Outcome
          (answer_of o d).0
          (λ ids. IsSubtree p d₀.folders roots ids × ((answer_of o d).1 ≡ d₀))
          (R (answer_of o d).1)
  answer_lem p roots none d R same fails eq = fails same
  answer_lem p roots (some ids) d R same fails eq =
      (record { reached = closure-Below p d₀.folders e.cte_rounds roots ids (sym eq) }, same)

  pub select_subtree_lem :
      (p : Folder → Bool) (roots : List Folder → List ℕ) (R : Db → Type 0)
      → ((d : Db) → d ≡ d₀ → R d)
      → Ends Same
          (select_subtree e p roots)
          (λ ids d. IsSubtree p d₀.folders (roots d₀.folders) ids × (d ≡ d₀))
          R
  unfolding select_subtree
  select_subtree_lem p roots R fails = Ends-sql e _ _ R fails λ t d same.
      answer_lem p (roots d₀.folders) _ d R same (fails d)
        (ap (λ x. closure e.cte_rounds p x.folders (roots x.folders)) same)

-- The live folder `id` of the user, as the root of a query.
abbrev pub live_root : ℕ → ℕ → List Folder → List ℕ
live_root id user folders =
    map (λ f. f.id) (select (λ f. is_folder_of id user f && is_live f) folders)

-- What holds when a folder went to the trash at the tables `d₀`.
pub record IsInTrash (id user : ℕ) (d₀ d : Db) : Type 0 where
  pub ids : List ℕ
  pub time : ℕ
  pub subtree : IsSubtree is_live d₀.folders (live_root id user d₀.folders) ids
  pub trashed : d ≡ trash_contents ids time (trash_folders ids time d₀)

pub clash : {A : Type 0} (o : Option A) → o ≡ none → (a : A) → o ≡ some a → (X : Type 0) → X
clash o gone a there X = cc

-- A flag is not both.
off : (b : Bool) → b ≡ true → not b ≡ true → (X : Type 0) → X
off true h k X = cc
off false h k X = cc

on : (b : Bool) → b ≡ false → not b ≡ false → (X : Type 0) → X
on true h k X = cc
on false h k X = cc

module _ (e : Env) (d₀ : Db) where
  trash_folder_lem :
      (id user : ℕ)
      → Ends
          (λ d. d ≡ d₀)
          (trash_folder e id user)
          (λ done d. ((done ≡ false) × (d ≡ d₀)) ⊎ ((done ≡ true) × IsInTrash id user d₀ d))
          (λ d. d ≡ d₀)
  unfolding trash_folder
  trash_folder_lem id user = Ends-in_transaction e _ d₀ _ λ t.
      Ends-bind _ _ _ _ (λ _. ⊤)
        (select_subtree_lem e d₀ is_live (live_root id user) (λ _. ⊤) (λ d h. tt))
        λ ids.
          Ends-given _ _ _ (λ _. ⊤)
            λ subtree. elim (Bool-cases (is_empty ids)) [
              | inl missing ↦ rw missing (Ends-pure _ _ (λ _. ⊤) λ d h. inl (refl, refl))
              | inr present ↦ rw present (
                  Ends-bind _ _ (λ _ d. d ≡ trash_folders ids t d₀) _ (λ _. ⊤)
                    (Ends-exec e _ _ (λ _. ⊤) (λ d h. tt) (λ _ d h. ap (trash_folders ids t) h))
                    λ _.
                      Ends-bind _ _ (λ _ d. d ≡ trash_contents ids t (trash_folders ids t d₀)) _
                        (λ _. ⊤)
                        (Ends-exec e _ _ (λ _. ⊤) (λ d h. tt)
                          (λ _ d h. ap (trash_contents ids t) h))
                        λ _.
                          Ends-pure _ _ (λ _. ⊤)
                            λ d h. inr (
                              refl,
                              record { ids = ids; time = t; subtree = subtree; trashed = h },
                            ))
            ]

  delete_lem :
      (id user : ℕ)
      → Ends
          (λ d. d ≡ d₀)
          (delete_directory e user id)
          (λ name d.
            ((f : Folder) × (live_row id user d₀ ≡ some f) × (name ≡ f.name))
            × IsInTrash id user d₀ d)
          (λ d. d ≡ d₀)
  unfolding delete_directory get_folder
  delete_lem id user =
      let R = λ (d : Db). d ≡ d₀ in
      Ends-read e d₀ _ _ (live_row id user) _ λ folder found.
        Ends-bind _ _ _ _ R (trash_folder_lem id user) λ done.
          Ends-bind _ _ _ _ R
            (Ends-raise_when (not done) _ R (λ undone d h. elim h [
              | inl (_, same) ↦ same
              | inr (sure, _) ↦ off done sure undone _
            ]))
            λ _. Ends-given _ _ _ R λ did. Ends-pure _ _ R λ d h. elim h [
              | inl (undone, _) ↦ on done undone did _
              | inr (_, there) ↦ ((folder, found, refl), there)
            ]

-- `DeleteFolder` either fails and leaves every table as it was, or: the folder was a live folder
-- of the user, whose name is the answer, and at one time it and every live folder below it, however
-- deep, went to the trash, with every blob in one of them that was not there yet, and nothing else
-- changed.
pub delete_directory-IsInTrash :
    (e : Env) (id user : ℕ) (w : World)
    → Outcome
        (delete_directory e user id w).0
        (λ name.
          ((f : Folder) × (live_row id user w.db ≡ some f) × (name ≡ f.name))
          × IsInTrash id user w.db (delete_directory e user id w).1.db)
        ((delete_directory e user id w).1.db ≡ w.db)
delete_directory-IsInTrash e id user w = (delete_lem e w.db id user).at w refl
