-- ===== src/Store/Answering.antt =====
-- What holds of an action where the database answers every statement and every commit, and where
-- Redis answers every command.
use cloud_zero_knowledge_sto.Base.{ℕ, suc, false, ◌≡◌, refl}
use cloud_zero_knowledge_sto.Store.Keys.{Redis}
use cloud_zero_knowledge_sto.Store.Rows.{Db}
use cloud_zero_knowledge_sto.Store.Effects.{
  Env, World, Action, Error, Result, raise, continue, ok, err, Ending, commit, roll_back, advance,
  sql, query, exec, finish, in_transaction, command, ◌>>=◌,
}
use cloud_zero_knowledge_sto.Store.Ends.{Outcome, Ends}
use cloud_zero_knowledge_sto.Store.Transactions.{Ended}

module _ (e : Env) (up : (n : ℕ) → e.sql_fails n ≡ false) where
  module _ {A : Type 0} {P : Db → Type 0} where
    pub Ends-sql_up :
        (f : ℕ → Db → Result A × Db) (Q : A → Db → Type 0) (R : Db → Type 0)
        → ((t : ℕ) (d : Db) → P d → Outcome (f t d).0 (λ a. Q a (f t d).1) (R (f t d).1))
        → Ends P (sql e f) Q R
    unfolding sql
    Ends-sql_up f Q R h = record { at = λ w p. rw (up w.steps) (h (e.now w.steps) w.db p) }

    pub Ends-query_up :
        (f : ℕ → Db → A) (Q : A → Db → Type 0) (R : Db → Type 0)
        → ((t : ℕ) (d : Db) → P d → Q (f t d) d)
        → Ends P (query e f) Q R
    unfolding query
    Ends-query_up f Q R h = Ends-sql_up (λ t d. (ok (f t d), d)) Q R h

    pub Ends-exec_up :
        (f : ℕ → Db → A × Db) (Q : A → Db → Type 0) (R : Db → Type 0)
        → ((t : ℕ) (d : Db) → P d → Q (f t d).0 (f t d).1)
        → Ends P (exec e f) Q R
    unfolding exec
    Ends-exec_up f Q R h = Ends-sql_up (λ t d. (ok (f t d).0, (f t d).1)) Q R h

  module _ {A : Type 0} (Q : A → Db → Type 0) (R : Db → Type 0) (d₀ : Db) where
    finish_up :
        (w : World) (w' : World) (r : Result (Ending A))
        → w.db ≡ d₀
        → Outcome r (λ a. Ended e Q d₀ a w'.db) (R d₀)
        → Outcome
            (finish e w (r, w')).0
            (λ a. Q a (finish e w (r, w')).1.db)
            (R (finish e w (r, w')).1.db)
    unfolding finish
    finish_up w w' (err x) same h = rw same h
    finish_up w w' (ok (roll_back a)) same h = rw same h
    finish_up w w' (ok (commit a)) same h = rw (up w'.steps) h

    pub Ends-in_transaction_up :
        (body : ℕ → Action (Ending A))
        → ((t : ℕ) → Ends (λ d. d ≡ d₀) (body t) (Ended e Q d₀) (λ _. R d₀))
        → Ends (λ d. d ≡ d₀) (in_transaction e body) Q R
    unfolding in_transaction
    Ends-in_transaction_up body y = record {
      at = λ w same.
          rw (up w.steps) (finish_up w _ _ same ((y (e.now w.steps)).at (advance w) same));
    }

pub Ends-command_up :
    (e : Env)
    → ((n : ℕ) → e.redis_fails n ≡ false)
    → {A : Type 0} {P : Db → Type 0} (f : ℕ → Redis → A × Redis) (Q : A → Db → Type 0)
      (R : Db → Type 0)
    → ((t : ℕ) (d : Db) → P d → Q (f t d.redis).0 (record d { redis = (f t d.redis).1 }))
    → Ends P (command e f) Q R
unfolding command
Ends-command_up e up f Q R h = record { at = λ w p. rw (up w.steps) (h (e.now w.steps) w.db p) }

-- A call and what follows it, from the tables `d₀`.
module _ {A B : Type 0} (d₀ : Db) (Q : B → Db → Type 0) (R : Db → Type 0) where
  module _ (e : Env) where
    pub Ends-exec_then_up :
        ((n : ℕ) → e.sql_fails n ≡ false)
        → (f : ℕ → Db → A × Db) (k : A → Action B)
        → ((t : ℕ) → Ends (λ d. d ≡ (f t d₀).1) (k (f t d₀).0) Q R)
        → Ends (λ d. d ≡ d₀) (exec e f >>= k) Q R
    unfolding exec sql ◌>>=◌
    Ends-exec_then_up up f k y = record {
      at = λ w same.
          rw (up w.steps, same)
            ((y (e.now w.steps)).at
              (record w { db = (f (e.now w.steps) d₀).1; steps = suc w.steps }) refl);
    }

    pub Ends-query_then_up :
        ((n : ℕ) → e.sql_fails n ≡ false)
        → (f : ℕ → Db → A) (k : A → Action B) → ((t : ℕ) → Ends (λ d. d ≡ d₀) (k (f t d₀)) Q R)
        → Ends (λ d. d ≡ d₀) (query e f >>= k) Q R
    unfolding query sql ◌>>=◌
    Ends-query_then_up up f k y = record {
      at = λ w same.
          rw (up w.steps, same)
            ((y (e.now w.steps)).at (record w { db = d₀; steps = suc w.steps }) refl);
    }

-- `m` fails with `x`, and leaves tables with `Q`.
pub record Raises {A : Type 0} (P : Db → Type 0) (m : Action A) (x : Error) (Q : Db → Type 0)
    : Type 0 where
  pub at : (w : World) → P w.db → ((m w).0 ≡ err x) × Q (m w).1.db

raise_after :
    {A B : Type 0} (r : Result A) (x : Error) (Q : Db → Type 0) (w : World)
    → Outcome r (λ _. Q w.db) ⊥
    → ((continue r (λ _. raise {A = B} x) w).0 ≡ err x)
      × Q (continue r (λ _. raise {A = B} x) w).1.db
unfolding raise
raise_after (ok a) x Q w h = (refl, h)
raise_after (err _) x Q w h = absurd h

-- After a call that never fails.
pub Raises-after :
    {A B : Type 0} {P : Db → Type 0} (m : Action A) (x : Error) (Q : Db → Type 0)
    → Ends P m (λ _. Q) (λ _. ⊥)
    → Raises {A = B} P (m >>= λ _. raise x) x Q
unfolding ◌>>=◌
Raises-after m x Q y = record { at = λ w p. raise_after (m w).0 x Q (m w).1 (y.at w p) }

pub Raises-exec_then_up :
    {A B : Type 0} (d₀ : Db) (x : Error) (Q : Db → Type 0) (e : Env)
    → ((n : ℕ) → e.sql_fails n ≡ false)
    → (f : ℕ → Db → A × Db) (k : A → Action B)
    → ((t : ℕ) → Raises (λ d. d ≡ (f t d₀).1) (k (f t d₀).0) x Q)
    → Raises (λ d. d ≡ d₀) (exec e f >>= k) x Q
unfolding exec sql ◌>>=◌
Raises-exec_then_up d₀ x Q e up f k y = record {
  at = λ w same.
      rw (up w.steps, same)
        ((y (e.now w.steps)).at (record w { db = (f (e.now w.steps) d₀).1; steps = suc w.steps })
          refl);
}

-- What never holds before a call.
pub Ends-never :
    {A : Type 0} (m : Action A) (Q : A → Db → Type 0) (R : Db → Type 0) → Ends (λ _. ⊥) m Q R
Ends-never m Q R = record { at = λ w p. absurd p }
