-- ===== src/Base/Table.antt =====
-- A table as a list of rows, and the clauses `SELECT … WHERE`, `UPDATE … WHERE`, `DELETE … WHERE`
-- and `ORDER BY` over it.
use Prim.Native.Nat.{ℕ}
use mathlib.Core.Bool.{Bool, false, ◌||◌}
use mathlib.Core.Option.{Option, none, some}
use mathlib.Core.List.{List, [], ◌∷◌}
use cloud_zero_knowledge_sto.Base.Tests.{if◌then◌else◌, ltb}

module _ {ℓ} {A : Type ℓ} where
  abbrev pub select : (A → Bool) → List A → List A
  select p [] = []
  select p (r ∷ rows) = if p r then r ∷ select p rows else select p rows

  abbrev pub update : (A → Bool) → (A → A) → List A → List A
  update p f [] = []
  update p f (r ∷ rows) = (if p r then f r else r) ∷ update p f rows

  abbrev pub delete : (A → Bool) → List A → List A
  delete p [] = []
  delete p (r ∷ rows) = if p r then delete p rows else r ∷ delete p rows

  -- The row that `QueryRow` scans; `none` is `pgx.ErrNoRows`.
  abbrev pub first : List A → Option A
  first [] = none
  first (r ∷ _) = some r

  abbrev pub exists_row : (A → Bool) → List A → Bool
  exists_row p [] = false
  exists_row p (r ∷ rows) = p r || exists_row p rows

  -- The rows that `UPDATE … RETURNING` gives.
  abbrev pub updated : (A → Bool) → (A → A) → List A → List A
  updated p f [] = []
  updated p f (r ∷ rows) = if p r then f r ∷ updated p f rows else updated p f rows

  abbrev pub insert_desc : (A → ℕ) → A → List A → List A
  insert_desc key r [] = r ∷ []
  insert_desc key r (x ∷ rows) =
      if ltb (key x) (key r) then r ∷ x ∷ rows else x ∷ insert_desc key r rows

  -- `ORDER BY key DESC`
  unfoldable pub order_desc : (A → ℕ) → List A → List A
  order_desc key [] = []
  order_desc key (r ∷ rows) = insert_desc key r (order_desc key rows)
