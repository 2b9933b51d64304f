-- ===== src/Folders/Cycles.antt =====
-- The recursive queries of internal/repo/persistent/postgres/folders.go on folders in a cycle.
use mathlib.Core.Option
use cloud_zero_knowledge_sto.Base.{
  ℕ, zero, suc, Bool, true, none, some, List, [], ◌∷◌, ◌++◌, ◌≡◌, refl, ap, contains,
}
use cloud_zero_knowledge_sto.Store.{Folder}
use cloud_zero_knowledge_sto.Folders.Subtree.{children, closure}
use cloud_zero_knowledge_sto.Folders.Reach.{In, of_parent_complete, children_complete}

-- Each of `ring` has a child in `ring`.
abbrev pub Circular : (Folder → Bool) → List Folder → List ℕ → Type 0
Circular p folders ring =
    (x : ℕ)
    → contains ring x ≡ true
    → (f : Folder) × In f folders
      × (p f ≡ true)
      × (f.parent_id ≡ some x)
      × (contains ring f.id ≡ true)

-- From a folder of a cycle a recursive query does not end, whatever number of rounds it is given.
pub closure_circles :
    (p : Folder → Bool) (folders : List Folder) (ring work : List ℕ) (x : ℕ) (rounds : ℕ)
    → Circular p folders ring
    → contains ring x ≡ true
    → contains work x ≡ true
    → closure rounds p folders work ≡ none
unfolding closure
closure_circles p folders ring [] x rounds circular inside now = cc
closure_circles p folders ring (s ∷ work) x zero circular inside now = refl
closure_circles p folders ring (s ∷ work) x (suc rounds) circular inside now =
    let (f, at, fits, held, stays) = circular x inside in
    let next =
      children_complete p folders (s ∷ work) x f.id now
        (of_parent_complete p folders f x at fits held) in
    ap (Option.map λ rest. (s ∷ work) ++ rest) (
      closure_circles p folders ring (children p folders (s ∷ work)) f.id rounds circular stays
        next)
