-- ===== src/Directories/Restoration.antt =====
-- What `RestoreFolder` of internal/usecase/storage/service.go leaves.
use cloud_zero_knowledge_sto.Base.{
  ℕ, Bool, true, ◌&&◌, Option, none, some, List, [], ◌∷◌, Text, ◌≡◌, ◌⊎◌, inl, inr, refl, sym, ap,
  ◌∙◌, subst, ⊤, if◌then◌else◌, is_null, is_not_null, select, update, first, contains, Bool-cases,
}
use cloud_zero_knowledge_sto.Store.{Folder, Db, Env, World, commit, pure, query, sql, exec, ◌>>◌}
use cloud_zero_knowledge_sto.Store.Ends.{
  Outcome, Outcome-mono, Ends, Ends-mono, Ends-given, Ends-bind, Ends-pure, Ends-query, Ends-exec,
  Ends-sql, Ends-on_row, Ends-or_raise_when,
}
use cloud_zero_knowledge_sto.Store.Transactions.{Ended, Ends-in_transaction}
use cloud_zero_knowledge_sto.Blobs.{names_live_folder}
use cloud_zero_knowledge_sto.Folders.{
  is_folder_of, restore_row, restore_contents, unique_names, update_folders, restore_folder,
}
use cloud_zero_knowledge_sto.Folders.Forest.{some_lem}
use cloud_zero_knowledge_sto.Directories.{restore_directory}
use cloud_zero_knowledge_sto.Directories.Trash.{IsSubtree, select_subtree_lem, clash}

-- The trashed folder `id` of the user.
abbrev pub trashed_folder : ℕ → ℕ → Db → Option Folder
trashed_folder id user d =
    first (select (λ f. is_folder_of id user f && is_not_null f.deleted_at) d.folders)

-- Where a folder comes back: to its parent if that is live, else to the top level.
abbrev pub place_back : Folder → Db → Option ℕ
place_back f d =
    if is_null f.parent_id
    then f.parent_id
    else if names_live_folder d.folders f.parent_id
    then f.parent_id
    else none

-- What holds when a folder came back at the tables `d₀`.
pub record IsBack (id user : ℕ) (d₀ : Db) (name : Text) (d : Db) : Type 0 where
  pub row : Folder
  pub was_trashed : trashed_folder id user d₀ ≡ some row
  pub ids : List ℕ
  pub subtree : IsSubtree (λ _. true) d₀.folders (id ∷ []) ids
  pub restored :
      d
      ≡ restore_contents ids (record d₀ {
        folders = update (λ f. contains ids f.id) (restore_row id (place_back row d₀)) d₀.folders;
      })
  pub unique : unique_names d.folders ≡ true
  pub named : name ≡ row.name

update_folders_cases :
    (here : Folder → Bool) (f : Folder → Folder) (d : Db)
    → Outcome
        (update_folders here f d).0
        (λ _.
          ((update_folders here f d).1 ≡ record d { folders = update here f d.folders })
          × (unique_names (update here f d.folders) ≡ true))
        ⊤
unfolding update_folders
update_folders_cases here f d = elim (Bool-cases (unique_names (update here f d.folders))) [
  | inl free ↦ rw free (refl, refl)
  | inr clash ↦ rw clash tt
]

module _ (e : Env) (d₀ : Db) where
  abbrev pub Any : Db → Type 0
  Any _ = ⊤

  parent_lem :
      (root : Folder)
      → Ends
          (λ d. d ≡ d₀)
          (if is_null root.parent_id
            then pure true
            else query e (λ _ d. names_live_folder d.folders root.parent_id))
          (λ good d. ((if good then root.parent_id else none) ≡ place_back root d₀) × (d ≡ d₀))
          Any
  parent_lem root = elim (Bool-cases (is_null root.parent_id)) [
    | inl top ↦ rw top (Ends-pure true _ Any λ d h. (refl, h))
    | inr below ↦ rw below (Ends-query e _ _ Any (λ d h. tt) λ _ d h. (rw h refl, h))
  ]

  put_back_lem :
      (id user : ℕ) (root : Folder)
      → trashed_folder id user d₀ ≡ some root
      → (ids : List ℕ) → IsSubtree (λ _. true) d₀.folders (id ∷ []) ids
      → Ends
          (λ d. d ≡ d₀)
          (do
            sql e λ _ d.
                update_folders (λ f. contains ids f.id) (restore_row id (place_back root d₀)) d
            exec e λ _ d. (tt, restore_contents ids d)
            pure (commit (some root.name)))
          (Ended e
            (λ o d.
              ((o ≡ none) × (d ≡ d₀))
              ⊎ ((name : Text) × (o ≡ some name) × IsBack id user d₀ name d))
            d₀)
          Any
  put_back_lem id user root was ids subtree =
      let here = λ (f : Folder). contains ids f.id in
      let back = restore_row id (place_back root d₀) in
      let d₁ : Db = record d₀ { folders = update here back d₀.folders } in
      Ends-bind _ _ (λ _ d. (unique_names d₁.folders ≡ true) × (d ≡ d₁)) _ Any
        (Ends-sql e _ _ Any (λ d h. tt)
          λ _ d h. rw h (
            Outcome-mono (update_folders here back d₀).0 _ _ _ _
              (λ _ (same, unique). (unique, same)) (λ x. x) (update_folders_cases here back d₀)))
        λ _. Ends-given _ _ _ Any λ unique.
          Ends-bind _ _ (λ _ d. d ≡ restore_contents ids d₁) _ Any
            (Ends-exec e _ _ Any (λ d h. tt) (λ _ d h. ap (restore_contents ids) h))
            λ _. Ends-pure _ _ Any λ d h. inr (
              root.name,
              refl,
              record {
                row = root;
                was_trashed = was;
                ids = ids;
                subtree = subtree;
                restored = h;
                unique = ap (λ x. unique_names x.folders) h ∙ unique;
                named = refl;
              },
            )

  restore_folder_lem :
      (id user : ℕ)
      → Ends
          (λ d. d ≡ d₀)
          (restore_folder e id user)
          (λ o d.
            ((o ≡ none) × (d ≡ d₀)) ⊎ ((name : Text) × (o ≡ some name) × IsBack id user d₀ name d))
          (λ d. d ≡ d₀)
  unfolding restore_folder
  restore_folder_lem id user = Ends-in_transaction e _ d₀ _ λ t.
      Ends-bind _ _ (λ found d. (found ≡ trashed_folder id user d₀) × (d ≡ d₀)) _ Any
        (Ends-query e _ _ Any (λ d h. tt) (λ _ d h. (ap (trashed_folder id user) h, h)))
        λ found. Ends-given _ _ _ Any λ read.
          Ends-on_row found _ _ _ Any (λ _. Ends-pure _ _ Any λ d h. inl (refl, refl))
            λ root got.
              Ends-bind _ _ _ _ Any
                (select_subtree_lem e d₀ (λ _. true) (λ _. id ∷ []) Any (λ d h. tt))
                λ ids. Ends-given _ _ _ Any λ subtree.
                  Ends-bind _ _ _ _ Any (parent_lem root) λ good.
                    Ends-given _ _ _ Any
                      λ placed. rw placed (put_back_lem id user root (sym read ∙ got) ids subtree)

  restore_directory_lem :
      (id user : ℕ)
      → Ends (λ d. d ≡ d₀) (restore_directory e user id) (IsBack id user d₀) (λ d. d ≡ d₀)
  unfolding restore_directory
  restore_directory_lem id user =
      let R = λ (d : Db). d ≡ d₀ in
      Ends-bind _ _ _ _ R (restore_folder_lem id user) λ found.
        Ends-mono _ _ _ R R
          (Ends-or_raise_when found _ R (λ gone d h. elim h [
            | inl (_, same) ↦ same
            | inr (name, there, _) ↦ clash found gone name there _
          ]))
          (λ name d (got, h). elim h [
            | inl (gone, _) ↦ clash found gone name got _
            | inr (name', there, back) ↦
                subst (λ n. IsBack id user d₀ n d) (some_lem name' name (sym there ∙ got)) back
          ])
          (λ d h. h)

-- `RestoreFolder` either fails and leaves every table as it was, or: the user had the folder in the
-- trash, and it comes back with every folder below it and every blob in one of these, to its parent
-- if that is live and to the top level otherwise; the names of live folders are then unique.
pub restore_directory-IsBack :
    (e : Env) (id user : ℕ) (w : World)
    → Outcome
        (restore_directory e user id w).0
        (λ name. IsBack id user w.db name (restore_directory e user id w).1.db)
        ((restore_directory e user id w).1.db ≡ w.db)
restore_directory-IsBack e id user w = (restore_directory_lem e w.db id user).at w refl
