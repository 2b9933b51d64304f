-- ===== src/Directories/Forests.antt =====
-- The live folders as a forest under `MoveFolder` of internal/usecase/storage/service.go.
use cloud_zero_knowledge_sto.Base.{
  both_true, ℕ, suc, ◌+◌, ◌<◌, ◌≤◌, true, false, ◌&&◌, Option, none, some, List, [], ◌∷◌, map, ◌≡◌,
  sym, ap, subst, ◌∙◌, arith, inl, inr, ◌==◌, ==_iff, if◌then◌else◌, select, first, contains,
  Bool-cases,
}
use cloud_zero_knowledge_sto.Store.{Folder, Db, Env, World}
use cloud_zero_knowledge_sto.Store.Ends.{Outcome-elim}
use cloud_zero_knowledge_sto.Folders.{MoveFolderParams, is_live, is_folder_of}
use cloud_zero_knowledge_sto.Folders.Reach.{In, IsClosed, closure-IsClosed, closure_roots}
use cloud_zero_knowledge_sto.Folders.Forest.{
  IsRanked, IsForest, closure_ends, some_lem, to_depth_whole, In-update,
}
use cloud_zero_knowledge_sto.Directories.{move_directory}
use cloud_zero_knowledge_sto.Directories.Moves.{
  near_below, IsAllowedParent, moved_folder, IsMoved, move_directory-IsMoved,
}

abbrev roots_of : ℕ → List Folder → List ℕ
roots_of id folders = map (λ f. f.id) (select (λ f. f.id == id) folders)

roots_sound :
    (id : ℕ) (folders : List Folder) (x : ℕ) → contains (roots_of id folders) x ≡ true → x ≡ id
roots_sound id [] x h = cc
roots_sound id (f ∷ folders) x h = ground (arith, roots_sound id folders x)

roots_complete :
    (id user : ℕ) (folders : List Folder) (f : Folder)
    → first (select (λ g. is_folder_of id user g && is_live g) folders) ≡ some f
    → contains (roots_of id folders) id ≡ true
roots_complete id user [] f h = cc
roots_complete id user (g ∷ folders) f h = ground (arith, roots_complete id user folders f)

-- The rank after the move: what does not move is lifted over what does.
abbrev lifted : (ℕ → ℕ) → ℕ → List ℕ → ℕ → ℕ
lifted rank id ids x = if contains ids x then rank x else rank x + suc (rank id)

module _ (rank : ℕ → ℕ) (id user : ℕ) (d : Db) (ids : List ℕ) where
  stays_ranked :
      IsRanked is_live d.folders rank
      → IsClosed is_live d.folders ids
      → (f : Folder) (s : ℕ) → In f d.folders
      → is_live f ≡ true
      → f.parent_id ≡ some s
      → lifted rank id ids f.id < lifted rank id ids s
  stays_ranked ranked closed f s i live held =
      let lower : rank f.id < rank s = ranked.falls f s i live held in
      elim (Bool-cases (contains ids s)) [
        | inl below ↦ rw (below, closed f s i live held below) lower
        | inr apart ↦ elim (Bool-cases (contains ids f.id)) [
          | inl in_it ↦ rw (apart, in_it) (omega arith)
          | inr out ↦ rw (apart, out) (omega arith)
        ]
      ]

  moves_ranked :
      (x s : ℕ)
      → (x == id) ≡ true
      → contains ids id ≡ true
      → contains ids s ≡ false
      → lifted rank id ids x < lifted rank id ids s
  moves_ranked x s same inside apart = rw ((==_iff x id).0 same, inside, apart) (omega arith)

  moved-IsRanked :
      (o : Option ℕ)
      → IsRanked is_live d.folders rank
      → IsClosed is_live d.folders ids
      → contains ids id ≡ true
      → ((s : ℕ) → o ≡ some s → contains ids s ≡ false)
      → IsRanked is_live (moved_folder id user o d).folders (lifted rank id ids)
  moved-IsRanked o ranked closed inside apart = record {
    falls = λ f s i live held.
        let (f₀, at, eq) =
          In-update (λ g. is_folder_of id user g && is_live g) (λ g. record g { parent_id = o })
            d.folders f i in
        elim (Bool-cases (is_folder_of id user f₀ && is_live f₀)) [
          | inl hit ↦
              let eq' : f ≡ record f₀ { parent_id = o } = rw hit at eq in
              let mine : (f₀.id == id) ≡ true = (both_true _ _ (both_true _ _ hit).0).0 in
              moves_ranked f.id s (ap (λ g. g.id == id) eq' ∙ mine) inside
                (apart s (sym (ap (λ g. g.parent_id) eq') ∙ held))
          | inr miss ↦
              let eq' : f ≡ f₀ = rw miss at eq in
              stays_ranked ranked closed f s (subst (λ g. In g d.folders) (sym eq') at) live held
        ];
  }

allowed_lem :
    (id user : ℕ) (o : Option ℕ) (d : Db)
    → IsAllowedParent id user o d
    → (s : ℕ) → o ≡ some s
    → contains (near_below id d) s ≡ false
allowed_lem id user none d h s eq = cc
allowed_lem id user (some q) d h s eq =
    ap (contains (near_below id d)) (sym (some_lem q s eq)) ∙ h.2

moved-IsForest :
    (p : MoveFolderParams) (d₀ d : Db) (rank : ℕ → ℕ)
    → IsRanked is_live d₀.folders rank
    → rank p.folder_id ≤ 100
    → IsMoved p d₀ d
    → IsForest is_live d.folders
moved-IsForest p d₀ d rank ranked small m =
    let roots = roots_of p.folder_id d₀.folders in
    let (ids, whole) =
      closure_ends is_live d₀.folders rank ranked 101 roots
        (λ x i. rw (roots_sound p.folder_id d₀.folders x i) (omega arith)) in
    let near : near_below p.folder_id d₀ ≡ ids =
      to_depth_whole is_live d₀.folders 100 roots ids whole in
    let inside =
      closure_roots is_live d₀.folders 101 roots ids p.folder_id whole
        (roots_complete p.folder_id p.user_id d₀.folders m.was_live.0 m.was_live.1) in
    (
      lifted rank p.folder_id ids,
      rw m.moved (
          moved-IsRanked rank p.folder_id p.user_id d₀ ids p.new_parent_id ranked
            (closure-IsClosed is_live d₀.folders 101 roots ids whole) inside
            (λ s eq.
              ap (λ xs. contains xs s) (sym near)
              ∙ allowed_lem p.folder_id p.user_id p.new_parent_id d₀ m.allowed s eq)),
    )

-- Where the live folders form a forest in which at most 100 levels stand below the moved folder,
-- they form a forest after `MoveFolder` too, whatever it returns.
pub move_directory-IsForest :
    (e : Env) (p : MoveFolderParams) (w : World) (rank : ℕ → ℕ)
    → IsRanked is_live w.db.folders rank
    → rank p.folder_id ≤ 100
    → IsForest is_live (move_directory e p w).1.db.folders
move_directory-IsForest e p w rank ranked small =
    Outcome-elim (move_directory e p w).0 _ _ _ (move_directory-IsMoved e p w)
      (moved-IsForest p w.db _ rank ranked small) (λ same. (rank, rw same ranked))
