-- ===== src/Folders/Forest.antt =====
-- When the recursive queries of internal/repo/persistent/postgres/folders.go end: on folders
-- where no folder stands below itself.
use cloud_zero_knowledge_sto.Base.{
  true_or, both_true, ℕ, zero, suc, ◌<◌, Bool, true, ◌&&◌, none, some, List, [], ◌∷◌, ◌++◌, ◌≡◌,
  ◌⊎◌, inl, inr, refl, sym, ap, ◌∙◌, subst, arith, ◌==◌, ==_refl, if◌then◌else◌, update, contains,
  map-some, ltb,
}
use cloud_zero_knowledge_sto.Store.{Folder}
use cloud_zero_knowledge_sto.Folders.Subtree.{children, closure, closure_to_depth}
use cloud_zero_knowledge_sto.Folders.Reach.{In, here, there, children_sound, of_parent_sound}

-- `rank` counts at least the levels below each folder: it falls from a parent to a child.
pub record IsRanked (p : Folder → Bool) (folders : List Folder) (rank : ℕ → ℕ) : Type 0 where
  pub falls :
      (f : Folder) (s : ℕ) → In f folders → p f ≡ true → f.parent_id ≡ some s → rank f.id < rank s

-- No folder stands below itself.
abbrev pub IsForest : (Folder → Bool) → List Folder → Type 0
IsForest p folders = (rank : ℕ → ℕ) × IsRanked p folders rank

module _ (p : Folder → Bool) (folders : List Folder) (rank : ℕ → ℕ)
    (ranked : IsRanked p folders rank) where
  children_rank :
      (n : ℕ) (work : List ℕ)
      → ((x : ℕ) → contains work x ≡ true → rank x < suc n)
      → (x : ℕ) → contains (children p folders work) x ≡ true
      → rank x < n
  children_rank n work small x h =
      let (s, i, c) = children_sound p folders work x h in
      let (f, at, fits, held, eq) = of_parent_sound p folders s x c in
      let lower : rank f.id < rank s = ranked.falls f s at fits held in
      let bound : rank s < suc n = small s i in subst (λ y. rank y < n) eq (omega arith)

  -- A query ends on a forest, in no more rounds than there are levels.
  pub closure_ends :
      (rounds : ℕ) (work : List ℕ)
      → ((x : ℕ) → contains work x ≡ true → rank x < rounds)
      → (ids : List ℕ) × (closure rounds p folders work ≡ some ids)
  unfolding closure
  closure_ends rounds [] small = ([], refl)
  closure_ends zero (s ∷ work) small =
      let impossible : rank s < 0 = small s (true_or (s == s) _ (==_refl s)) in absurd (omega arith)
  closure_ends (suc rounds) (s ∷ work) small =
      let (rest, eq) = closure_ends rounds _ (children_rank rounds (s ∷ work) small) in
      ((s ∷ work) ++ rest, rw eq refl)

append_nil : (xs : List ℕ) → xs ++ [] ≡ xs
append_nil [] = refl
append_nil (x ∷ xs) = ap (λ ys. x ∷ ys) (append_nil xs)

to_depth_nil :
    (p : Folder → Bool) (folders : List Folder) (d : ℕ) → closure_to_depth d p folders [] ≡ []
unfolding closure_to_depth children
to_depth_nil p folders zero = refl
to_depth_nil p folders (suc d) = to_depth_nil p folders d

pub some_lem {ℓ} : {A : Type ℓ} (x y : A) → some x ≡ some y → x ≡ y
some_lem x y eq = cc

closure_zero :
    (p : Folder → Bool) (folders : List Folder) (work ids : List ℕ)
    → closure 0 p folders work ≡ some ids
    → ids ≡ []
unfolding closure
closure_zero p folders [] ids eq = sym (some_lem [] ids eq)
closure_zero p folders (s ∷ work) ids eq = cc

-- A bound on the depth that is not reached does not matter.
pub to_depth_whole :
    (p : Folder → Bool) (folders : List Folder) (d : ℕ) (work ids : List ℕ)
    → closure (suc d) p folders work ≡ some ids
    → closure_to_depth d p folders work ≡ ids
unfolding closure closure_to_depth
to_depth_whole p folders d [] ids eq = to_depth_nil p folders d ∙ some_lem [] ids eq
to_depth_whole p folders zero (s ∷ work) ids eq =
    let (rest, below, whole) = map-some (λ r. (s ∷ work) ++ r) _ ids eq in
    sym (append_nil (s ∷ work))
    ∙ ap (λ r. (s ∷ work) ++ r) (sym (closure_zero p folders _ rest below))
    ∙ whole
to_depth_whole p folders (suc d) (s ∷ work) ids eq =
    let (rest, below, whole) = map-some (λ r. (s ∷ work) ++ r) _ ids eq in
    ap (λ r. (s ∷ work) ++ r) (to_depth_whole p folders d _ rest below) ∙ whole

In-cons : (f g : Folder) (fs : List Folder) → In f (g ∷ fs) → (f ≡ g) ⊎ In f fs
In-cons f _ fs here = inl refl
In-cons f g fs (there i) = inr i

-- The rows of an updated table.
pub In-update :
    (here' : Folder → Bool) (g : Folder → Folder) (folders : List Folder) (f : Folder)
    → In f (update here' g folders)
    → (f₀ : Folder) × In f₀ folders × (f ≡ (if here' f₀ then g f₀ else f₀))
In-update here' g [] f i = elim i [ ]
In-update here' g (f₁ ∷ folders) f i = elim (In-cons f _ _ i) [
  | inl eq ↦ (f₁, here, eq)
  | inr later ↦ let (f₀, at, eq) = In-update here' g folders f later in (f₀, there at, eq)
]

-- A test of a rank on a table.
abbrev pub falls_at : (ℕ → ℕ) → Folder → Bool
falls_at rank f = elim f.parent_id [ none ↦ true | some s ↦ ltb (rank f.id) (rank s) ]

abbrev pub falls_everywhere : (ℕ → ℕ) → List Folder → Bool
falls_everywhere rank [] = true
falls_everywhere rank (f ∷ folders) = falls_at rank f && falls_everywhere rank folders

falls_here :
    (rank : ℕ → ℕ) (f : Folder) (s : ℕ)
    → falls_at rank f ≡ true
    → f.parent_id ≡ some s
    → rank f.id < rank s
falls_here rank f s h held =
    let at : ltb (rank f.id) (rank s) ≡ true =
      ap (λ o. elim o [ none ↦ true | some s ↦ ltb (rank f.id) (rank s) ]) (sym held) ∙ h in
    ground arith

In-falls :
    (rank : ℕ → ℕ) (folders : List Folder) (f : Folder)
    → falls_everywhere rank folders ≡ true
    → In f folders
    → falls_at rank f ≡ true
In-falls rank [] f h i = elim i [ ]
In-falls rank (g ∷ folders) f h i = elim (In-cons f g folders i) [
  | inl eq ↦ ap (falls_at rank) eq ∙ (both_true _ _ h).0
  | inr later ↦ In-falls rank folders f (both_true (falls_at rank g) _ h).1 later
]

pub falls_everywhere-IsRanked :
    (p : Folder → Bool) (folders : List Folder) (rank : ℕ → ℕ)
    → falls_everywhere rank folders ≡ true
    → IsRanked p folders rank
falls_everywhere-IsRanked p folders rank h = record {
  falls = λ f s i _ held. falls_here rank f s (In-falls rank folders f h i) held;
}
