-- ===== src/Store/Ends.antt =====
-- What holds when an action returns and what holds when it fails: from tables with `P`, a result
-- `a` and tables with `Q a`, or an error and tables with `R`.
use cloud_zero_knowledge_sto.Base.{
  ℕ, Bool, true, false, Option, none, some, ◌≡◌, refl, inl, inr, Bool-cases,
}
use cloud_zero_knowledge_sto.Store.Keys.{Redis}
use cloud_zero_knowledge_sto.Store.Rows.{Db}
use cloud_zero_knowledge_sto.Store.Keeps.{Keeps}
use cloud_zero_knowledge_sto.Store.Effects.{
  Env, World, Action, Result, ok, err, Error, pure, raise, or_raise, raise_if, continue, ◌>>=◌,
  attempt, on_row, map_errors, map_error, sql, query, exec, OutsideCall, ask, draw, command,
  time_now,
}

abbrev pub Outcome : {A : Type 0} → Result A → (A → Type 0) → Type 0 → Type 0
Outcome (ok a) Q R = Q a
Outcome (err _) Q R = R

pub record Ends {A : Type 0} (P : Db → Type 0) (m : Action A) (Q : A → Db → Type 0)
    (R : Db → Type 0) : Type 0 where
  pub at : (w : World) → P w.db → Outcome (m w).0 (λ a. Q a (m w).1.db) (R (m w).1.db)

module _ {A : Type 0} where
  pub Outcome-mono :
      (r : Result A) (X Y : A → Type 0) (S T : Type 0)
      → ((a : A) → X a → Y a)
      → (S → T)
      → Outcome r X S
      → Outcome r Y T
  Outcome-mono (ok a) X Y S T f g h = f a h
  Outcome-mono (err _) X Y S T f g h = g h

  Outcome-map_error :
      (f : Error → Error) (r : Result A) (Q : A → Type 0) (R : Type 0)
      → Outcome r Q R
      → Outcome (map_error f r) Q R
  Outcome-map_error f (ok a) Q R h = h
  Outcome-map_error f (err _) Q R h = h

  pub Ends-mono :
      {P : Db → Type 0} (m : Action A) (Q Q' : A → Db → Type 0) (R R' : Db → Type 0)
      → Ends P m Q R
      → ((a : A) (d : Db) → Q a d → Q' a d)
      → ((d : Db) → R d → R' d)
      → Ends P m Q' R'
  Ends-mono m Q Q' R R' y f g = record {
    at = λ w p. Outcome-mono (m w).0 _ _ _ _ (λ a. f a (m w).1.db) (g (m w).1.db) (y.at w p);
  }

  -- A fact before the call that is not about the tables.
  pub Ends-given :
      {P : Db → Type 0} (X : Type 0) (m : Action A) (Q : A → Db → Type 0) (R : Db → Type 0)
      → (X → Ends P m Q R)
      → Ends (λ d. X × P d) m Q R
  Ends-given X m Q R y = record { at = λ w h. (y h.0).at w h.1 }

module _ {A B : Type 0} where
  Outcome-continue :
      (r : Result A) (f : A → Action B) (Q : A → Db → Type 0) (S : B → Db → Type 0)
      (R : Db → Type 0) (w : World)
      → Outcome r (λ a. Q a w.db) (R w.db)
      → ((a : A) → Ends (Q a) (f a) S R)
      → Outcome (continue r f w).0 (λ b. S b (continue r f w).1.db) (R (continue r f w).1.db)
  Outcome-continue (ok a) f Q S R w h k = (k a).at w h
  Outcome-continue (err x) f Q S R w h k = h

  pub Ends-bind :
      {P : Db → Type 0} (m : Action A) (f : A → Action B) (Q : A → Db → Type 0)
      (S : B → Db → Type 0) (R : Db → Type 0)
      → Ends P m Q R
      → ((a : A) → Ends (Q a) (f a) S R)
      → Ends P (m >>= f) S R
  unfolding ◌>>=◌
  Ends-bind m f Q S R y k = record {
    at = λ w p. Outcome-continue (m w).0 f Q S R (m w).1 (y.at w p) k;
  }

  pub Ends-on_row :
      {P : Db → Type 0} (o : Option A) (m : Action B) (f : A → Action B) (Q : B → Db → Type 0)
      (R : Db → Type 0)
      → (o ≡ none → Ends P m Q R)
      → ((a : A) → o ≡ some a → Ends P (f a) Q R)
      → Ends P (on_row o m f) Q R
  unfolding on_row
  Ends-on_row none m f Q R ym yf = ym refl
  Ends-on_row (some a) m f Q R ym yf = yf a refl

module _ {A : Type 0} {P : Db → Type 0} where
  pub Ends-pure :
      (a : A) (Q : A → Db → Type 0) (R : Db → Type 0)
      → ((d : Db) → P d → Q a d)
      → Ends P (pure a) Q R
  unfolding pure
  Ends-pure a Q R h = record { at = λ w p. h w.db p }

  pub Ends-raise :
      (x : Error) (Q : A → Db → Type 0) (R : Db → Type 0)
      → ((d : Db) → P d → R d)
      → Ends P (raise x) Q R
  unfolding raise
  Ends-raise x Q R h = record { at = λ w p. h w.db p }

  pub Ends-or_raise :
      (o : Option A) (x : Error) (R : Db → Type 0)
      → ((d : Db) → P d → R d)
      → Ends P (or_raise o x) (λ a d. (o ≡ some a) × P d) R
  unfolding or_raise
  Ends-or_raise none x R h = record { at = λ w p. h w.db p }
  Ends-or_raise (some a) x R h = record { at = λ w p. (refl, p) }

  pub Ends-map_errors :
      (f : Error → Error) (m : Action A) (Q : A → Db → Type 0) (R : Db → Type 0)
      → Ends P m Q R
      → Ends P (map_errors f m) Q R
  unfolding map_errors
  Ends-map_errors f m Q R y = record { at = λ w p. Outcome-map_error f (m w).0 _ _ (y.at w p) }

pub Ends-raise_if :
    {P : Db → Type 0} (b : Bool) (x : Error) (R : Db → Type 0)
    → ((d : Db) → P d → R d)
    → Ends P (raise_if b x) (λ _ d. (b ≡ false) × P d) R
unfolding raise_if
Ends-raise_if true x R h = record { at = λ w p. h w.db p }
Ends-raise_if false x R h = record { at = λ w p. (refl, p) }

module _ (e : Env) {A : Type 0} {P : Db → Type 0} where
  pub Ends-sql :
      (f : ℕ → Db → Result A × Db) (Q : A → Db → Type 0) (R : Db → Type 0)
      → ((d : Db) → P d → R d)
      → ((t : ℕ) (d : Db) → P d → Outcome (f t d).0 (λ a. Q a (f t d).1) (R (f t d).1))
      → Ends P (sql e f) Q R
  unfolding sql
  Ends-sql f Q R fails h = record {
    at = λ w p. elim (Bool-cases (e.sql_fails w.steps)) [
      | inl down ↦ rw down (fails w.db p)
      | inr up ↦ rw up (h (e.now w.steps) w.db p)
    ];
  }

  pub Ends-query :
      (f : ℕ → Db → A) (Q : A → Db → Type 0) (R : Db → Type 0)
      → ((d : Db) → P d → R d)
      → ((t : ℕ) (d : Db) → P d → Q (f t d) d)
      → Ends P (query e f) Q R
  unfolding query
  Ends-query f Q R fails h = Ends-sql (λ t d. (ok (f t d), d)) Q R fails h

  pub Ends-exec :
      (f : ℕ → Db → A × Db) (Q : A → Db → Type 0) (R : Db → Type 0)
      → ((d : Db) → P d → R d)
      → ((t : ℕ) (d : Db) → P d → Q (f t d).0 (f t d).1)
      → Ends P (exec e f) Q R
  unfolding exec
  Ends-exec f Q R fails h = Ends-sql (λ t d. (ok (f t d).0, (f t d).1)) Q R fails h

  pub Ends-ask :
      (call : OutsideCall) (answer : ℕ → A) (R : Db → Type 0)
      → Ends P (ask e call answer) (λ a d. ((n : ℕ) × (answer n ≡ a)) × P d) R
  unfolding ask
  Ends-ask call answer R = record { at = λ w p. ((w.steps, refl), p) }

module _ (e : Env) {A : Type 0} {P : Db → Type 0} where
  pub Ends-draw :
      (answer : ℕ → A) (R : Db → Type 0)
      → Ends P (draw e answer) (λ a d. ((n : ℕ) × (answer n ≡ a)) × P d) R
  unfolding draw
  Ends-draw answer R = record { at = λ w p. ((w.steps, refl), p) }

  pub Ends-command :
      (f : ℕ → Redis → A × Redis) (Q : A → Db → Type 0) (R : Db → Type 0)
      → ((d : Db) → P d → R d)
      → ((t : ℕ) (d : Db) → P d → Q (f t d.redis).0 (record d { redis = (f t d.redis).1 }))
      → Ends P (command e f) Q R
  unfolding command
  Ends-command f Q R fails h = record {
    at = λ w p. elim (Bool-cases (e.redis_fails w.steps)) [
      | inl down ↦ rw down (fails w.db p)
      | inr up ↦ rw up (h (e.now w.steps) w.db p)
    ];
  }

pub Ends-time_now :
    (e : Env) {P : Db → Type 0} (R : Db → Type 0)
    → Ends P (time_now e) (λ t d. ((n : ℕ) × (e.now n ≡ t)) × P d) R
unfolding time_now
Ends-time_now e R = record { at = λ w p. ((w.steps, refl), p) }

outcome_any : {A : Type 0} (r : Result A) (X : Type 0) → Outcome r (λ _. X) X → X
outcome_any (ok a) X h = h
outcome_any (err _) X h = h

pub Ends-attempt :
    {A B : Type 0} {P : Db → Type 0} (m : Action A) (f : Result A → Action B) (Q : B → Db → Type 0)
    (R : Db → Type 0)
    → Ends P m (λ _. P) P
    → ((r : Result A) → Ends P (f r) Q R)
    → Ends P (attempt m f) Q R
unfolding attempt
Ends-attempt {A} {B} {P} m f Q R y k = record {
  at = λ w p. (k (m w).0).at (m w).1 (outcome_any (m w).0 (P (m w).1.db) (y.at w p));
}

-- The same with what the test says known where it fails.
pub Ends-raise_when :
    {P : Db → Type 0} (b : Bool) (x : Error) (R : Db → Type 0)
    → (b ≡ true → (d : Db) → P d → R d)
    → Ends P (raise_if b x) (λ _ d. (b ≡ false) × P d) R
unfolding raise_if
Ends-raise_when true x R h = record { at = λ w p. h refl w.db p }
Ends-raise_when false x R h = record { at = λ w p. (refl, p) }

-- What follows both from a return and from a failure.
pub Outcome-elim :
    {A : Type 0} (r : Result A) (X Y Z : Type 0) → Outcome r (λ _. X) Y → (X → Z) → (Y → Z) → Z
Outcome-elim (ok a) X Y Z h f g = f h
Outcome-elim (err _) X Y Z h f g = g h

pub Ends-or_raise_when :
    {A : Type 0} {P : Db → Type 0} (o : Option A) (x : Error) (R : Db → Type 0)
    → (o ≡ none → (d : Db) → P d → R d)
    → Ends P (or_raise o x) (λ a d. (o ≡ some a) × P d) R
unfolding or_raise raise pure
Ends-or_raise_when none x R h = record { at = λ w p. h refl w.db p }
Ends-or_raise_when (some a) x R h = record { at = λ w p. (refl, p) }

Outcome-any : {A : Type 0} (r : Result A) (X : Type 0) → X → Outcome r (λ _. X) X
Outcome-any (ok a) X x = x
Outcome-any (err _) X x = x

-- What an action keeps, whether it returns or fails.
pub Ends-keep : {A : Type 0} {P : Db → Type 0} (m : Action A) → Keeps P m → Ends P m (λ _. P) P
Ends-keep m k = record { at = λ w p. Outcome-any (m w).0 _ (k.at w p) }

-- After a call that keeps `P`.
pub Ends-after :
    {A B : Type 0} {P : Db → Type 0} (m : Action A) (f : A → Action B) (Q : B → Db → Type 0)
    → Keeps P m
    → ((a : A) → Ends P (f a) Q P)
    → Ends P (m >>= f) Q P
Ends-after m f Q k y = Ends-bind m f _ Q _ (Ends-keep m k) y

Outcome-split :
    {A B : Type 0} (r : Result A) (f : Result A → Action B) (w : World) (Q : A → Db → Type 0)
    (X : Db → Type 0) (S : B → Db → Type 0) (R : Db → Type 0)
    → Outcome r (λ a. Q a w.db) (X w.db)
    → ((a : A) → Ends (Q a) (f (ok a)) S R)
    → ((x : Error) → Ends X (f (err x)) S R)
    → Outcome (f r w).0 (λ b. S b (f r w).1.db) (R (f r w).1.db)
Outcome-split (ok a) f w Q X S R h y n = (y a).at w h
Outcome-split (err x) f w Q X S R h y n = (n x).at w h

-- Both ways in which the code goes on.
pub Ends-attempt_split :
    {A B : Type 0} {P : Db → Type 0} (m : Action A) (f : Result A → Action B) (Q : A → Db → Type 0)
    (X : Db → Type 0) (S : B → Db → Type 0) (R : Db → Type 0)
    → Ends P m Q X
    → ((a : A) → Ends (Q a) (f (ok a)) S R)
    → ((x : Error) → Ends X (f (err x)) S R)
    → Ends P (attempt m f) S R
unfolding attempt
Ends-attempt_split m f Q X S R h y n = record {
  at = λ w p. Outcome-split (m w).0 f (m w).1 Q X S R (h.at w p) y n;
}
