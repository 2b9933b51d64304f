-- ===== src/Store/Steps.antt =====
-- One call from known tables, and what follows it.
use cloud_zero_knowledge_sto.Base.{
  ℕ, suc, Bool, true, false, Option, none, some, ⊤, sym, subst, ◌≡◌, refl, inl, inr, Bool-cases,
}
use cloud_zero_knowledge_sto.Store.Keys.{Redis}
use cloud_zero_knowledge_sto.Store.Rows.{Db}
use cloud_zero_knowledge_sto.Store.Effects.{
  Env, Action, Error, ◌>>=◌, or_raise, raise_if, query, exec, sql, command, draw,
}
use cloud_zero_knowledge_sto.Store.Ends.{
  Ends, Ends-bind, Ends-given, Ends-or_raise_when, Ends-raise_when,
}

module _ {A B : Type 0} (d₀ : Db) (Q : B → Db → Type 0) (R : Db → Type 0) where
  module _ (e : Env) where
    pub Ends-exec_then :
        (f : ℕ → Db → A × Db) (k : A → Action B)
        → R d₀
        → ((t : ℕ) → Ends (λ d. d ≡ (f t d₀).1) (k (f t d₀).0) Q R)
        → Ends (λ d. d ≡ d₀) (exec e f >>= k) Q R
    unfolding exec sql ◌>>=◌
    Ends-exec_then f k down y = record {
      at = λ w same. elim (Bool-cases (e.sql_fails w.steps)) [
        | inl fails ↦ rw (fails, same) down
        | inr up ↦
            rw (up, same)
              ((y (e.now w.steps)).at
                (record w { db = (f (e.now w.steps) d₀).1; steps = suc w.steps }) refl)
      ];
    }

    pub Ends-query_then :
        (f : ℕ → Db → A) (k : A → Action B)
        → R d₀
        → ((t : ℕ) → Ends (λ d. d ≡ d₀) (k (f t d₀)) Q R)
        → Ends (λ d. d ≡ d₀) (query e f >>= k) Q R
    unfolding query exec
    Ends-query_then f k down y = Ends-exec_then (λ t d. (f t d, d)) k down y

    pub Ends-command_then :
        (f : ℕ → Redis → A × Redis) (k : A → Action B)
        → R d₀
        → ((t : ℕ)
            → Ends (λ d. d ≡ record d₀ { redis = (f t d₀.redis).1 }) (k (f t d₀.redis).0) Q R)
        → Ends (λ d. d ≡ d₀) (command e f >>= k) Q R
    unfolding command ◌>>=◌
    Ends-command_then f k down y = record {
      at = λ w same. elim (Bool-cases (e.redis_fails w.steps)) [
        | inl fails ↦ rw (fails, same) down
        | inr up ↦
            rw (up, same)
              ((y (e.now w.steps)).at
                (record w {
                  db = record d₀ { redis = (f (e.now w.steps) d₀.redis).1 };
                  steps = suc w.steps;
                })
                refl)
      ];
    }

    pub Ends-draw_then :
        (answer : ℕ → A) (k : A → Action B)
        → ((n : ℕ) → Ends (λ d. d ≡ d₀) (k (answer n)) Q R)
        → Ends (λ d. d ≡ d₀) (draw e answer >>= k) Q R
    unfolding draw ◌>>=◌
    Ends-draw_then answer k y = record {
      at = λ w same. (y w.steps).at (record w { steps = suc w.steps }) same;
    }

  pub Ends-or_raise_then :
      (o : Option A) (x : Error) (k : A → Action B)
      → (o ≡ none → R d₀)
      → ((a : A) → o ≡ some a → Ends (λ d. d ≡ d₀) (k a) Q R)
      → Ends (λ d. d ≡ d₀) (or_raise o x >>= k) Q R
  Ends-or_raise_then o x k out y =
      Ends-bind _ _ _ _ _ (Ends-or_raise_when o x R (λ lost d same. subst R (sym same) (out lost)))
        λ a. Ends-given _ _ _ _ λ is. y a is

module _ {B : Type 0} (d₀ : Db) (Q : B → Db → Type 0) (R : Db → Type 0) where
  pub Ends-raise_if_then :
      (b : Bool) (x : Error) (k : ⊤ → Action B)
      → (b ≡ true → R d₀)
      → (b ≡ false → Ends (λ d. d ≡ d₀) (k tt) Q R)
      → Ends (λ d. d ≡ d₀) (raise_if b x >>= k) Q R
  Ends-raise_if_then b x k out y =
      Ends-bind _ _ _ _ _ (Ends-raise_when b x R (λ is d same. subst R (sym same) (out is)))
        λ _. Ends-given _ _ _ _ λ is. y is
