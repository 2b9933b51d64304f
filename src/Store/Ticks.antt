-- ===== src/Store/Ticks.antt =====
-- The count of questions never goes back, and the clock with it.
use cloud_zero_knowledge_sto.Base.{
  ℕ, zero, suc, ◌≤◌, Bool, true, false, ◌≡◌, ◌==◌, arith, inl, inr, Bool-cases,
}
use cloud_zero_knowledge_sto.Store.Rows.{Db}
use cloud_zero_knowledge_sto.Store.Effects.{
  Env, World, Action, Result, ok, err, Error, Ending, commit, roll_back, pure, raise_if, ◌>>=◌,
  continue, sql, exec, finish, in_transaction,
}

pub record Grows {A : Type 0} (m : Action A) : Type 0 where
  pub at : (w : World) → w.steps ≤ (m w).1.steps

pub Grows-pure : {A : Type 0} (a : A) → Grows (pure a)
unfolding pure
Grows-pure a = record { at = λ w. omega arith }

pub Grows-raise_if : (b : Bool) (x : Error) → Grows (raise_if b x)
unfolding raise_if
Grows-raise_if true x = record { at = λ w. omega arith }
Grows-raise_if false x = record { at = λ w. omega arith }

continue-Grows :
    {A B : Type 0} (r : Result A) (f : A → Action B) (w : World)
    → ((a : A) → Grows (f a))
    → w.steps ≤ (continue r f w).1.steps
continue-Grows (ok a) f w h = (h a).at w
continue-Grows (err x) f w h = omega arith

pub Grows-bind :
    {A B : Type 0} (m : Action A) (f : A → Action B)
    → Grows m
    → ((a : A) → Grows (f a))
    → Grows (m >>= f)
unfolding ◌>>=◌
Grows-bind m f h k = record { at = λ w. omega (arith, h.at w, continue-Grows (m w).0 f (m w).1 k) }

module _ (e : Env) {A : Type 0} where
  pub Grows-exec : (f : ℕ → Db → A × Db) → Grows (exec e f)
  unfolding exec sql
  Grows-exec f = record { at = λ w. ground arith }

  finish-Grows : (w w' : World) (r : Result (Ending A)) → w'.steps ≤ (finish e w (r, w')).1.steps
  unfolding finish
  finish-Grows w w' (err x) = omega arith
  finish-Grows w w' (ok (roll_back a)) = omega arith
  finish-Grows w w' (ok (commit a)) = ground arith

  pub Grows-in_transaction :
      (body : ℕ → Action (Ending A)) → ((t : ℕ) → Grows (body t)) → Grows (in_transaction e body)
  unfolding in_transaction
  Grows-in_transaction body h = record {
    at = λ w. elim (Bool-cases (e.sql_fails w.steps)) [
      | inl down ↦ rw down (omega arith)
      | inr up ↦
          let run = body (e.now w.steps) (record w { steps = suc w.steps }) in
          let longer = finish-Grows w run.1 run.0 in
          let grown = (h (e.now w.steps)).at (record w { steps = suc w.steps }) in
          rw up (omega (arith, longer, grown))
    ];
  }

pub ruleset grows_rules = (Grows-pure, Grows-raise_if, Grows-bind, Grows-exec, Grows-in_transaction)

pub steady-le : (now : ℕ → ℕ) → ((n : ℕ) → now n ≤ now (suc n)) → (m n : ℕ) → m ≤ n → now m ≤ now n
steady-le now steady m zero h = let is : m ≡ 0 = omega (arith, h) in rw is (omega arith)
steady-le now steady m (suc n) h = elim (Bool-cases (m == suc n)) [
  | inl last ↦ let is : m ≡ suc n = ground (arith, last) in rw is (omega arith)
  | inr before ↦
      let h' : m ≤ n = ground (arith, h, before) in
      omega (arith, steady-le now steady m n h', steady n)
]
