-- ===== src/Folders/Reach.antt =====
-- What the recursive queries of internal/repo/persistent/postgres/folders.go compute: the folders
-- that stand below some others, each however deep.
use cloud_zero_knowledge_sto.Base.{
  both_true, either_true, or_true, true_or, ℕ, zero, suc, Bool, true, false, ◌&&◌, ◌||◌, Option,
  none, some, List, [], ◌∷◌, ◌++◌, map, ◌≡◌, ◌⊎◌, inl, inr, refl, sym, ap, subst, ◌↔◌, ◌∙◌, arith,
  ◌==◌, ==_refl, ==_iff, holds_id, select, contains, map-some,
}
use cloud_zero_knowledge_sto.Store.{Folder}
use cloud_zero_knowledge_sto.Folders.Subtree.{children, closure}

-- Rows of the table, as a relation.
pub data In (f : Folder) : List Folder → Type 0 where
  here : {fs : List Folder} → In f (f ∷ fs)
  there : {g : Folder} {fs : List Folder} → In f fs → In f (g ∷ fs)

-- `x` is one of `roots`, or a folder with `p` whose parent stands below `roots`.
pub data Below (p : Folder → Bool) (folders : List Folder) (roots : List ℕ) : ℕ → Type 0 where
  root : {x : ℕ} → contains roots x ≡ true → Below p folders roots x
  child :
      (f : Folder) {s : ℕ}
      → In f folders
      → p f ≡ true
      → f.parent_id ≡ some s
      → Below p folders roots s
      → Below p folders roots f.id

contains-append :
    (xs ys : List ℕ) (x : ℕ) → contains (xs ++ ys) x ≡ (contains xs x || contains ys x)
contains-append [] ys x = refl
contains-append (y ∷ xs) ys x = ground (arith, contains-append xs ys x)

pub contains_whole :
    (xs ys ids : List ℕ) (x : ℕ)
    → xs ++ ys ≡ ids
    → contains ids x ≡ (contains xs x || contains ys x)
contains_whole xs ys ids x eq = ap (λ l. contains l x) (sym eq) ∙ contains-append xs ys x

contains_nil : (ids : List ℕ) (x : ℕ) → some [] ≡ some ids → contains ids x ≡ false
contains_nil [] x eq = refl
contains_nil (y ∷ ids) x eq = cc

-- One round, of one parent.
abbrev pub of_parent : (Folder → Bool) → List Folder → ℕ → List ℕ
of_parent p folders s = map (λ f. f.id) (select (λ f. holds_id f.parent_id s && p f) folders)

holds_id_lem : (o : Option ℕ) (s : ℕ) → holds_id o s ≡ true → o ≡ some s
holds_id_lem none s h = cc
holds_id_lem (some x) s h = ap some ((==_iff x s).0 h)

module _ (p : Folder → Bool) where
  of_parent_cases :
      (folders : List Folder) (f : Folder) (s x : ℕ)
      → contains (of_parent p (f ∷ folders) s) x ≡ true
      → (((holds_id f.parent_id s && p f) ≡ true) × (f.id ≡ x))
        ⊎ (contains (of_parent p folders s) x ≡ true)
  of_parent_cases folders f s x h = ground arith

  -- What the join with one parent gives is a row below it.
  pub of_parent_sound :
      (folders : List Folder) (s x : ℕ)
      → contains (of_parent p folders s) x ≡ true
      → (f : Folder) × In f folders × (p f ≡ true) × (f.parent_id ≡ some s) × (f.id ≡ x)
  of_parent_sound [] s x h = cc
  of_parent_sound (f ∷ folders) s x h = elim (of_parent_cases folders f s x h) [
    | inl (hit, eq) ↦
        let (held, fits) = both_true _ _ hit in (f, here, fits, holds_id_lem f.parent_id s held, eq)
    | inr later ↦
        let (g, i, fits, held, eq) = of_parent_sound folders s x later in
        (g, there i, fits, held, eq)
  ]

  pub of_parent_complete :
      (folders : List Folder) (f : Folder) (s : ℕ)
      → In f folders
      → p f ≡ true
      → f.parent_id ≡ some s
      → contains (of_parent p folders s) f.id ≡ true
  of_parent_complete [] f s i hp hs = elim i [ ]
  of_parent_complete (_ ∷ folders) f s here hp hs =
      let held : holds_id f.parent_id s ≡ true = ap (λ o. holds_id o s) hs ∙ ==_refl s in
      rw (held, hp, ==_refl f.id) refl
  of_parent_complete (g ∷ folders) f s (there i) hp hs =
      ground (arith, of_parent_complete folders f s i hp hs)

module _ (p : Folder → Bool) (folders : List Folder) where
  -- What a round gives is one step below the rows it joins.
  pub children_sound :
      (work : List ℕ) (x : ℕ)
      → contains (children p folders work) x ≡ true
      → (s : ℕ) × (contains work s ≡ true) × (contains (of_parent p folders s) x ≡ true)
  unfolding children
  children_sound [] x h = cc
  children_sound (s ∷ work) x h =
      elim (either_true _ _ (sym (contains-append (of_parent p folders s) _ x) ∙ h)) [
        | inl now ↦ (s, rw (==_refl s) refl, now)
        | inr later ↦
            let (s', i, below) = children_sound work x later in (s', or_true (s == s') _ i, below)
      ]

  pub children_complete :
      (work : List ℕ) (s x : ℕ)
      → contains work s ≡ true
      → contains (of_parent p folders s) x ≡ true
      → contains (children p folders work) x ≡ true
  unfolding children
  children_complete [] s x h c = cc
  children_complete (s' ∷ work) s x h c =
      contains-append (of_parent p folders s') (children p folders work) x
      ∙ elim (either_true _ _ h) [
        | inl same ↦ true_or (contains (of_parent p folders s') x) _ (rw ((==_iff s' s).0 same) c)
        | inr later ↦ or_true _ _ (children_complete work s x later c)
      ]

  -- A set that holds the children of its elements.
  abbrev pub IsClosed : List ℕ → Type 0
  IsClosed ids =
      (f : Folder) (s : ℕ)
      → In f folders
      → p f ≡ true
      → f.parent_id ≡ some s
      → contains ids s ≡ true
      → contains ids f.id ≡ true

  pub closure_roots :
      (rounds : ℕ) (work ids : List ℕ) (x : ℕ)
      → closure rounds p folders work ≡ some ids
      → contains work x ≡ true
      → contains ids x ≡ true
  unfolding closure
  closure_roots rounds [] ids x eq h = cc
  closure_roots zero (s ∷ work) ids x eq h = cc
  closure_roots (suc rounds) (s ∷ work) ids x eq h =
      let (rest, _, whole) = map-some (λ r. (s ∷ work) ++ r) _ ids eq in
      contains_whole (s ∷ work) rest ids x whole ∙ true_or _ _ h

  pub closure-IsClosed :
      (rounds : ℕ) (work ids : List ℕ) → closure rounds p folders work ≡ some ids → IsClosed ids
  unfolding closure
  closure-IsClosed rounds [] ids eq f s i hp hs h = let none_in = contains_nil ids s eq in cc
  closure-IsClosed zero (s' ∷ work) ids eq f s i hp hs h = cc
  closure-IsClosed (suc rounds) (s' ∷ work) ids eq f s i hp hs h =
      let (rest, below, whole) = map-some (λ r. (s' ∷ work) ++ r) _ ids eq in
      let now : contains (s' ∷ work) s ≡ true → contains rest f.id ≡ true = λ at.
        closure_roots rounds _ rest f.id below
          (children_complete (s' ∷ work) s f.id at (of_parent_complete p folders f s i hp hs)) in
      let next : contains rest f.id ≡ true =
        elim (either_true _ _ (sym (contains_whole (s' ∷ work) rest ids s whole) ∙ h)) [
          | inl at ↦ now at
          | inr later ↦ closure-IsClosed rounds _ rest below f s i hp hs later
        ] in
      contains_whole (s' ∷ work) rest ids f.id whole ∙ or_true _ _ next

  closure_sound :
      (roots : List ℕ) (rounds : ℕ) (work ids : List ℕ)
      → ((x : ℕ) → contains work x ≡ true → Below p folders roots x)
      → closure rounds p folders work ≡ some ids
      → (x : ℕ) → contains ids x ≡ true
      → Below p folders roots x
  unfolding closure
  closure_sound roots rounds [] ids start eq x h = let none_in = contains_nil ids x eq in cc
  closure_sound roots zero (s ∷ work) ids start eq x h = cc
  closure_sound roots (suc rounds) (s ∷ work) ids start eq x h =
      let (rest, below, whole) = map-some (λ r. (s ∷ work) ++ r) _ ids eq in
      let next : (y : ℕ)
          → contains (children p folders (s ∷ work)) y ≡ true
          → Below p folders roots y =
        λ y c.
          let (s', i, c') = children_sound (s ∷ work) y c in
          let (f, at, fits, held, eq') = of_parent_sound p folders s' y c' in
          subst (Below p folders roots) eq' (child f at fits held (start s' i)) in
      elim (either_true _ _ (sym (contains_whole (s ∷ work) rest ids x whole) ∙ h)) [
        | inl now ↦ start x now
        | inr later ↦ closure_sound roots rounds _ rest next below x later
      ]

  pub closed_complete :
      (roots ids : List ℕ)
      → IsClosed ids
      → ((x : ℕ) → contains roots x ≡ true → contains ids x ≡ true)
      → (x : ℕ) → Below p folders roots x
      → contains ids x ≡ true
  closed_complete roots ids closed start x (root h) = start x h
  closed_complete roots ids closed start x (child f {s} i fits held b) =
      closed f s i fits held (closed_complete roots ids closed start s b)

  -- A query that ends gives the folders below its roots, all of them and no other.
  pub closure-Below :
      (rounds : ℕ) (roots ids : List ℕ)
      → closure rounds p folders roots ≡ some ids
      → (x : ℕ) → (contains ids x ≡ true) ↔ Below p folders roots x
  closure-Below rounds roots ids eq x = (
    closure_sound roots rounds roots ids (λ y h. root h) eq x,
    closed_complete roots ids (closure-IsClosed rounds roots ids eq)
        (λ y h. closure_roots rounds roots ids y eq h) x,
  )
