-- ===== src/Folders/Subtree.antt =====
-- The recursive queries of internal/repo/persistent/postgres/folders.go. A round joins the
-- folders with the rows of the round before; `UNION ALL` keeps every row, and the query ends
-- with the first round that gives none.
use mathlib.Core.Option
use cloud_zero_knowledge_sto.Base.{
  ℕ, zero, suc, Bool, ◌&&◌, Option, none, some, List, [], ◌∷◌, ◌++◌, map, holds_id, select,
}
use cloud_zero_knowledge_sto.Store.{Folder}

-- One round: `FROM folders f JOIN subtree s ON f.parent_id = s.id WHERE p`.
unfoldable pub children : (Folder → Bool) → List Folder → List ℕ → List ℕ
children p folders [] = []
children p folders (s ∷ work) =
    map (λ f. f.id) (select (λ f. holds_id f.parent_id s && p f) folders) ++ children p folders work

-- All rounds; `none` if more than the given number are wanted.
unfoldable pub closure : ℕ → (Folder → Bool) → List Folder → List ℕ → Option (List ℕ)
unfolding children
closure rounds p folders [] = some []
closure zero p folders (s ∷ work) = none
closure (suc rounds) p folders (s ∷ work) =
    Option.map (λ rest. (s ∷ work) ++ rest)
      (closure rounds p folders (children p folders (s ∷ work)))

-- The same with a bound on the depth in the query.
unfoldable pub closure_to_depth : ℕ → (Folder → Bool) → List Folder → List ℕ → List ℕ
unfolding children
closure_to_depth zero p folders work = work
closure_to_depth (suc depth) p folders work =
    work ++ closure_to_depth depth p folders (children p folders work)
