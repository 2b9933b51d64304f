-- ===== src/Store/Yields.antt =====
-- What holds when an action returns: from tables with `P`, a result `a` and tables with `Q a`.
use cloud_zero_knowledge_sto.Base.{
  ℕ, Bool, true, false, Option, none, some, ◌≡◌, refl, ⊤, inl, inr, Bool-cases,
}
use cloud_zero_knowledge_sto.Store.Rows.{Db}
use cloud_zero_knowledge_sto.Store.Effects.{
  Env, World, Action, Result, ok, err, Error, pure, raise, or_raise, raise_if, continue, ◌>>=◌,
  on_row, map_errors, map_error, sql, query, exec,
}
use cloud_zero_knowledge_sto.Store.Keeps.{Keeps}

-- `Q` of the value, if there is one.
abbrev pub After : {A : Type 0} → Result A → (A → Type 0) → Type 0
After (ok a) Q = Q a
After (err _) Q = ⊤

pub record Yields {A : Type 0} (P : Db → Type 0) (m : Action A) (Q : A → Db → Type 0) : Type 0 where
  pub at : (w : World) → P w.db → After (m w).0 (λ a. Q a (m w).1.db)

-- The value that an action returned meets its postcondition.
pub Yields-ok :
    {A : Type 0} {P : Db → Type 0} {m : Action A} {Q : A → Db → Type 0}
    → Yields P m Q
    → (w : World) → P w.db
    → (a : A) → (m w).0 ≡ ok a
    → Q a (m w).1.db
Yields-ok {A} {P} {m} {Q} y w p a eq = rw eq at (y.at w p)

module _ {A : Type 0} where
  After-any : (r : Result A) (X : Type 0) → X → After r (λ _. X)
  After-any (ok a) X x = x
  After-any (err _) X x = tt

  After-map_error :
      (f : Error → Error) (r : Result A) (Q : A → Type 0) → After r Q → After (map_error f r) Q
  After-map_error f (ok a) Q h = h
  After-map_error f (err _) Q h = tt

  After-mono : (r : Result A) (X Y : A → Type 0) → ((a : A) → X a → Y a) → After r X → After r Y
  After-mono (ok a) X Y f h = f a h
  After-mono (err _) X Y f h = tt

  -- A fact before the call that is not about the tables.
  pub Yields-given :
      {P : Db → Type 0} (X : Type 0) (m : Action A) (Q : A → Db → Type 0)
      → (X → Yields P m Q)
      → Yields (λ d. X × P d) m Q
  Yields-given X m Q y = record { at = λ w h. (y h.0).at w h.1 }

  pub Yields-mono :
      {P : Db → Type 0} (m : Action A) (Q R : A → Db → Type 0)
      → Yields P m Q
      → ((a : A) (d : Db) → Q a d → R a d)
      → Yields P m R
  Yields-mono m Q R y f = record {
    at = λ w p. After-mono (m w).0 _ _ (λ a. f a (m w).1.db) (y.at w p);
  }

module _ {A B : Type 0} where
  After-continue :
      (r : Result A) (f : A → Action B) (Q : A → Db → Type 0) (R : B → Db → Type 0) (w : World)
      → After r (λ a. Q a w.db)
      → ((a : A) → Yields (Q a) (f a) R)
      → After (continue r f w).0 (λ b. R b (continue r f w).1.db)
  After-continue (ok a) f Q R w h k = (k a).at w h
  After-continue (err x) f Q R w h k = tt

module _ {A : Type 0} {P : Db → Type 0} where
  -- What an action keeps, it yields.
  pub Yields-keep : (m : Action A) → Keeps P m → Yields P m (λ _. P)
  Yields-keep m km = record { at = λ w h. After-any (m w).0 (P (m w).1.db) (km.at w h) }

  pub Yields-pure : (a : A) (Q : A → Db → Type 0) → ((d : Db) → P d → Q a d) → Yields P (pure a) Q
  unfolding pure
  Yields-pure a Q h = record { at = λ w p. h w.db p }

  pub Yields-raise : (x : Error) (Q : A → Db → Type 0) → Yields P (raise x) Q
  unfolding raise
  Yields-raise x Q = record { at = λ w p. tt }

  pub Yields-or_raise :
      (o : Option A) (x : Error) → Yields P (or_raise o x) (λ a d. (o ≡ some a) × P d)
  unfolding or_raise
  Yields-or_raise none x = record { at = λ w p. tt }
  Yields-or_raise (some a) x = record { at = λ w p. (refl, p) }

  pub Yields-map_errors :
      (f : Error → Error) (m : Action A) (Q : A → Db → Type 0)
      → Yields P m Q
      → Yields P (map_errors f m) Q
  unfolding map_errors
  Yields-map_errors f m Q y = record { at = λ w p. After-map_error f (m w).0 _ (y.at w p) }

pub Yields-raise_if :
    {P : Db → Type 0} (b : Bool) (x : Error) → Yields P (raise_if b x) (λ _ d. (b ≡ false) × P d)
unfolding raise_if
Yields-raise_if true x = record { at = λ w p. tt }
Yields-raise_if false x = record { at = λ w p. (refl, p) }

module _ {A B : Type 0} {P : Db → Type 0} where
  pub Yields-bind :
      (m : Action A) (f : A → Action B) (Q : A → Db → Type 0) (R : B → Db → Type 0)
      → Yields P m Q
      → ((a : A) → Yields (Q a) (f a) R)
      → Yields P (m >>= f) R
  unfolding ◌>>=◌
  Yields-bind m f Q R y k = record { at = λ w p. After-continue (m w).0 f Q R (m w).1 (y.at w p) k }

  pub Yields-on_row :
      (o : Option A) (m : Action B) (f : A → Action B) (R : B → Db → Type 0)
      → (o ≡ none → Yields P m R)
      → ((a : A) → o ≡ some a → Yields P (f a) R)
      → Yields P (on_row o m f) R
  unfolding on_row
  Yields-on_row none m f R ym yf = ym refl
  Yields-on_row (some a) m f R ym yf = yf a refl

module _ (e : Env) {A : Type 0} {P : Db → Type 0} where
  pub Yields-sql :
      (f : ℕ → Db → Result A × Db) (Q : A → Db → Type 0)
      → ((t : ℕ) (d : Db) → P d → After (f t d).0 (λ a. Q a (f t d).1))
      → Yields P (sql e f) Q
  unfolding sql
  Yields-sql f Q h = record {
    at = λ w p. elim (Bool-cases (e.sql_fails w.steps)) [
      | inl down ↦ rw down tt
      | inr up ↦ rw up (h (e.now w.steps) w.db p)
    ];
  }

  pub Yields-query :
      (f : ℕ → Db → A) (Q : A → Db → Type 0)
      → ((t : ℕ) (d : Db) → P d → Q (f t d) d)
      → Yields P (query e f) Q
  unfolding query
  Yields-query f Q h = Yields-sql (λ t d. (ok (f t d), d)) Q h

  pub Yields-exec :
      (f : ℕ → Db → A × Db) (Q : A → Db → Type 0)
      → ((t : ℕ) (d : Db) → P d → Q (f t d).0 (f t d).1)
      → Yields P (exec e f) Q
  unfolding exec
  Yields-exec f Q h = Yields-sql (λ t d. (ok (f t d).0, (f t d).1)) Q h
