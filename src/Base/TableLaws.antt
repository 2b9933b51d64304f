-- ===== src/Base/TableLaws.antt =====
-- Laws of the clauses over a table.
use cloud_zero_knowledge_sto.Base.Lists.{length}
use cloud_zero_knowledge_sto.Base.Tests.{◌==◌, Bool-cases, is_null}
use cloud_zero_knowledge_sto.Base.Table.{select, update, delete, updated, first, exists_row}
use mathlib.Core.Path.{◌≡◌, refl}
use mathlib.Core.Logic.{inl, inr}
use mathlib.Core.Bool.{Bool, true, false, ◌||◌}
use mathlib.Core.Option.{none, some}
use mathlib.Core.List.{List, [], ◌∷◌, ◌++◌}
use native.Mathlib.Omega.{arith}

module _ {ℓ} {A : Type ℓ} (q p : A → Bool) where
  -- Rows that no update touches are selected as before.
  pub select-update_disjoint :
      (f : A → A)
      → ((a : A) → p a ≡ true → q a ≡ false)
      → ((a : A) → p a ≡ true → q (f a) ≡ false)
      → (rows : List A) → select q (update p f rows) ≡ select q rows
  select-update_disjoint f out out' [] = refl
  select-update_disjoint f out out' (r ∷ rows) =
      let ih = select-update_disjoint f out out' rows in
      elim (Bool-cases (p r)) [
        | inl hit ↦ ground (arith, ih, out r hit, out' r hit)
        | inr miss ↦ ground (arith, ih, miss)
      ]

  pub select-delete_disjoint :
      ((a : A) → p a ≡ true → q a ≡ false)
      → (rows : List A) → select q (delete p rows) ≡ select q rows
  select-delete_disjoint out [] = refl
  select-delete_disjoint out (r ∷ rows) =
      let ih = select-delete_disjoint out rows in
      elim (Bool-cases (p r)) [
        | inl hit ↦ ground (arith, ih, out r hit)
        | inr miss ↦ ground (arith, ih, miss)
      ]

module _ {ℓ} {A : Type ℓ} where
  pub select-append :
      (q : A → Bool) (xs ys : List A) → select q (xs ++ ys) ≡ select q xs ++ select q ys
  select-append q [] ys = refl
  select-append q (x ∷ xs) ys = ground (arith, select-append q xs ys)

  pub select-snoc_out :
      (q : A → Bool) (rows : List A) (r : A)
      → q r ≡ false
      → select q (rows ++ r ∷ []) ≡ select q rows
  select-snoc_out q [] r out = ground arith
  select-snoc_out q (x ∷ rows) r out = ground (arith, select-snoc_out q rows r out)

  -- What `QueryRow` finds satisfies the condition.
  pub first-select_sound :
      (p : A → Bool) (rows : List A) (r : A) → first (select p rows) ≡ some r → p r ≡ true
  first-select_sound p [] r h = cc
  first-select_sound p (x ∷ rows) r h = ground (arith, first-select_sound p rows r)

  pub select-delete_self : (p : A → Bool) (rows : List A) → select p (delete p rows) ≡ []
  select-delete_self p [] = refl
  select-delete_self p (x ∷ rows) = ground (arith, select-delete_self p rows)

  pub first-exists :
      (p : A → Bool) (rows : List A)
      → is_null (first (select p rows)) ≡ false
      → exists_row p rows ≡ true
  first-exists p [] h = cc
  first-exists p (x ∷ rows) h = ground (arith, first-exists p rows)

  pub first-some :
      (p : A → Bool) (rows : List A) (r : A)
      → first (select p rows) ≡ some r
      → exists_row p rows ≡ true
  first-some p [] r h = cc
  first-some p (x ∷ rows) r h = ground (arith, first-some p rows r)

  -- An update that finds a row gives one back.
  pub updated_some :
      (p : A → Bool) (f : A → A) (rows : List A)
      → exists_row p rows ≡ true
      → (length (updated p f rows) == 0) ≡ false
  updated_some p f [] h = cc
  updated_some p f (x ∷ rows) h = ground (arith, updated_some p f rows)

  pub select-ext :
      (p q : A → Bool) → ((a : A) → p a ≡ q a) → (rows : List A) → select p rows ≡ select q rows
  select-ext p q same [] = refl
  select-ext p q same (x ∷ rows) = ground (arith, same x, select-ext p q same rows)

  pub exists-update-false :
      (p q : A → Bool) (f : A → A)
      → ((a : A) → p a ≡ false → p (f a) ≡ false)
      → (rows : List A) → exists_row p rows ≡ false
      → exists_row p (update q f rows) ≡ false
  exists-update-false p q f kept [] h = refl
  exists-update-false p q f kept (x ∷ rows) h =
      ground (arith, kept x, exists-update-false p q f kept rows)

  pub exists-update-true :
      (p q : A → Bool) (f : A → A)
      → ((a : A) → p a ≡ true → p (f a) ≡ true)
      → (rows : List A) → exists_row p rows ≡ true
      → exists_row p (update q f rows) ≡ true
  exists-update-true p q f kept [] h = cc
  exists-update-true p q f kept (x ∷ rows) h =
      ground (arith, kept x, exists-update-true p q f kept rows)

  pub exists-snoc :
      (p : A → Bool) (rows : List A) (x : A)
      → exists_row p (rows ++ x ∷ []) ≡ (exists_row p rows || p x)
  exists-snoc p [] x = ground arith
  exists-snoc p (y ∷ rows) x = ground (arith, exists-snoc p rows x)

  -- What `UPDATE … RETURNING` gives is an updated row that met the condition.
  pub first-updated :
      (p : A → Bool) (f : A → A) (rows : List A) (x : A)
      → first (updated p f rows) ≡ some x
      → (a : A) × (p a ≡ true) × (f a ≡ x) × (first (select p rows) ≡ some a)
  first-updated p f [] x h = cc
  first-updated p f (y ∷ rows) x h = elim (Bool-cases (p y)) [
    | inl hit ↦ (y, hit, ground arith, ground arith)
    | inr miss ↦
        let rest : first (updated p f rows) ≡ some x = ground arith in
        let (a, met, made, at) = first-updated p f rows x rest in (a, met, made, ground arith)
  ]

  -- An update after which no row meets its condition.
  pub exists-update_self :
      (p : A → Bool) (f : A → A)
      → ((a : A) → p a ≡ true → p (f a) ≡ false)
      → (rows : List A) → exists_row p (update p f rows) ≡ false
  exists-update_self p f out [] = refl
  exists-update_self p f out (x ∷ rows) = ground (arith, out x, exists-update_self p f out rows)

  -- An update that finds no row.
  pub update-none :
      (p : A → Bool) (f : A → A) (rows : List A)
      → first (updated p f rows) ≡ none
      → update p f rows ≡ rows
  update-none p f [] h = refl
  update-none p f (x ∷ rows) h = ground (arith, update-none p f rows)

  pub updated_empty :
      (p q : A → Bool) (f : A → A)
      → ((a : A) → p a ≡ true → q a ≡ true)
      → (rows : List A) → exists_row q rows ≡ false
      → updated p f rows ≡ []
  updated_empty p q f implies [] h = refl
  updated_empty p q f implies (x ∷ rows) h =
      ground (arith, implies x, updated_empty p q f implies rows)

  -- An update that reaches every row of `p` but those of `out`, of which there are none.
  pub exists-update_but :
      (p q out : A → Bool) (f : A → A)
      → ((a : A) → p a ≡ true → out a ≡ false → q a ≡ true)
      → ((a : A) → q a ≡ true → p (f a) ≡ false)
      → (rows : List A) → exists_row out rows ≡ false
      → exists_row p (update q f rows) ≡ false
  exists-update_but p q out f reached gone [] h = refl
  exists-update_but p q out f reached gone (x ∷ rows) h =
      ground (arith, reached x, gone x, exists-update_but p q out f reached gone rows)
