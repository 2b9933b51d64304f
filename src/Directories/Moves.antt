-- ===== src/Directories/Moves.antt =====
-- What `MoveFolder` of internal/usecase/storage/service.go leaves.
use cloud_zero_knowledge_sto.Base.{
  ℕ, true, false, ◌&&◌, Option, none, some, List, [], map, ◌≡◌, refl, sym, ap, ◌∙◌, ⊤, ◌==◌,
  is_null, select, update, first, exists_row, contains, ◌||◌, inl, inr, updated_some, Bool-cases,
}
use cloud_zero_knowledge_sto.Store.{Folder, Db, Env, World}
use cloud_zero_knowledge_sto.Store.Ends.{
  Outcome, Ends, Ends-mono, Ends-given, Ends-bind, Ends-pure, Ends-query, Ends-sql, Ends-raise_if,
  Ends-raise_when, Ends-map_errors, Ends-attempt,
}
use cloud_zero_knowledge_sto.Store.Transactions.{Ends-read}
use cloud_zero_knowledge_sto.Blobs.{folder_key_ok}
use cloud_zero_knowledge_sto.Folders.{
  MoveFolderParams, is_live, is_folder_of, get_folder, move, move_folder, unique_names,
  is_descendant_of, update_folders,
}
use cloud_zero_knowledge_sto.Folders.Subtree.{closure_to_depth}
use cloud_zero_knowledge_sto.Directories.{source_name, check_new_parent, move_directory}

abbrev pub live_row : ℕ → ℕ → Db → Option Folder
live_row id user d = first (select (λ f. is_folder_of id user f && is_live f) d.folders)

-- The folders that the check for cycles looks at: those at most 100 levels below `id`.
abbrev pub near_below : ℕ → Db → List ℕ
near_below id d =
    closure_to_depth 100 is_live d.folders (map (λ f. f.id) (select (λ f. f.id == id) d.folders))

-- A new parent was checked against the tables `d₀`.
abbrev pub IsAllowedParent : ℕ → ℕ → Option ℕ → Db → Type 0
IsAllowedParent id user none d₀ = ⊤
IsAllowedParent id user (some parent_id) d₀ =
    ((parent_id == id) ≡ false)
    × ((f : Folder) × (live_row parent_id user d₀ ≡ some f))
    × (contains (near_below id d₀) parent_id ≡ false)

abbrev pub moved_folder : ℕ → ℕ → Option ℕ → Db → Db
moved_folder id user o d = record d {
  folders =
      update (λ f. is_folder_of id user f && is_live f) (λ f. record f { parent_id = o }) d.folders;
}

-- What holds when a folder was moved at the tables `d₀`.
pub record IsMoved (p : MoveFolderParams) (d₀ d : Db) : Type 0 where
  pub was_live : (f : Folder) × (live_row p.folder_id p.user_id d₀ ≡ some f)
  pub allowed : IsAllowedParent p.folder_id p.user_id p.new_parent_id d₀
  pub moved : d ≡ moved_folder p.folder_id p.user_id p.new_parent_id d₀

-- No row is affected and nothing changes, or the row moves.
abbrev MovedBy : ℕ → ℕ → Option ℕ → Db → ℕ → Db → Type 0
MovedBy id user o d n d' =
    ((n == 0) ≡ true → d' ≡ d) × ((n == 0) ≡ false → d' ≡ moved_folder id user o d)

-- What the `UPDATE` does.
move_cases :
    (id user : ℕ) (o : Option ℕ) (t : ℕ) (d : Db)
    → Outcome
        (move id user o t d).0
        (λ n. MovedBy id user o d n (move id user o t d).1)
        ((move id user o t d).1 ≡ d)
unfolding move update_folders
move_cases id user o t d =
    let here = λ (f : Folder). is_folder_of id user f && is_live f in
    let put = λ (f : Folder). record f { parent_id = o } in
    elim (Bool-cases (exists_row here d.folders)) [
      | inr absent ↦ rw absent (λ _. refl, λ h. cc)
      | inl present ↦ elim (Bool-cases (is_null o || folder_key_ok d.folders o)) [
        | inr bad ↦ rw (present, bad) refl
        | inl good ↦ elim (Bool-cases (unique_names (update here put d.folders))) [
          | inr clash ↦ rw (present, good, clash) refl
          | inl free ↦
              let some_row = updated_some here put d.folders present in
              rw (present, good, free) (λ h. cc, λ _. refl)
        ]
      ]
    ]

module _ (e : Env) (d₀ : Db) where
  abbrev Same : Db → Type 0
  Same d = d ≡ d₀

  check_new_parent_lem :
      (id user : ℕ) (o : Option ℕ)
      → Ends Same
          (check_new_parent e id user o)
          (λ _ d. IsAllowedParent id user o d₀ × (d ≡ d₀))
          Same
  unfolding get_folder is_descendant_of
  check_new_parent_lem id user none = Ends-pure [] _ Same λ d h. (tt, h)
  check_new_parent_lem id user (some q) =
      Ends-bind _ _ _ _ Same (Ends-raise_if (q == id) _ Same (λ d h. h)) λ _.
        Ends-given _ _ _ Same λ not_self. Ends-read e d₀ _ _ (live_row q user) _ λ parent found.
          Ends-bind _ _ (λ below d. (below ≡ contains (near_below id d₀) q) × (d ≡ d₀)) _ Same
            (Ends-query e _ _ Same (λ d h. h)
              (λ t d h. (ap (λ x. contains (near_below id x) q) h, h)))
            λ below. Ends-bind _ _ _ _ Same (Ends-raise_if below _ Same (λ d h. h.1)) λ _.
              Ends-given _ _ _ Same λ off.
                Ends-given _ _ _ Same
                  λ read. Ends-pure _ _ Same λ d h. ((not_self, (parent, found), sym read ∙ off), h)

  source_name_lem : (o : Option ℕ) (user : ℕ) → Ends Same (source_name e o user) (λ _. Same) Same
  unfolding get_folder
  source_name_lem none user = Ends-pure [] _ Same λ d h. h
  source_name_lem (some q) user =
      Ends-attempt _ _ _ Same (Ends-query e _ _ Same (λ d h. h) (λ t d h. h))
        λ r. Ends-pure _ _ Same λ d h. h

  move_folder_lem :
      (p : MoveFolderParams)
      → Ends Same
          (move_folder e p)
          (λ _ d. d ≡ moved_folder p.folder_id p.user_id p.new_parent_id d₀)
          Same
  unfolding move_folder
  move_folder_lem p =
      Ends-bind _ _ (MovedBy p.folder_id p.user_id p.new_parent_id d₀) _ Same
        (Ends-map_errors _ _ _ Same (
          Ends-sql e _ _ Same (λ d h. h)
            λ t d h. rw h (move_cases p.folder_id p.user_id p.new_parent_id t d₀)))
        λ n.
          Ends-mono _ _ _ Same Same (Ends-raise_when (n == 0) _ Same (λ none_hit d h. h.0 none_hit))
            (λ _ d (hit, by). by.1 hit) (λ d h. h)

  move_lem : (p : MoveFolderParams) → Ends Same (move_directory e p) (λ _. IsMoved p d₀) Same
  unfolding move_directory get_folder
  move_lem p = Ends-read e d₀ _ _ (live_row p.folder_id p.user_id) _ λ folder found.
      Ends-bind _ _ _ _ Same (source_name_lem folder.parent_id p.user_id) λ _.
        Ends-bind _ _ _ _ Same (check_new_parent_lem p.folder_id p.user_id p.new_parent_id) λ _.
          Ends-given _ _ _ Same λ allowed. Ends-bind _ _ _ _ Same (move_folder_lem p) λ _.
            Ends-pure _ _ Same
              λ d h. record { was_live = (folder, found); allowed = allowed; moved = h }

-- `MoveFolder` either fails and leaves every table as it was, or: the folder was a live folder of
-- the user; the new parent, if there is one, was another live folder of the user that is not among
-- the live folders up to 100 levels below the folder; and the only change is the folder's parent.
pub move_directory-IsMoved :
    (e : Env) (p : MoveFolderParams) (w : World)
    → Outcome
        (move_directory e p w).0
        (λ _. IsMoved p w.db (move_directory e p w).1.db)
        ((move_directory e p w).1.db ≡ w.db)
move_directory-IsMoved e p w = (move_lem e w.db p).at w refl
