-- ===== src/Store/Quiet.antt =====
-- Actions that log no event.
use cloud_zero_knowledge_sto.Base.{
  ℕ, Bool, true, false, Option, none, some, List, [], ◌∷◌, Text, ◌≡◌, refl, ◌∙◌, inl, inr,
  Bool-cases,
}
use cloud_zero_knowledge_sto.Store.Rows.{AuditEvent, Db}
use cloud_zero_knowledge_sto.Store.Effects.{
  Env, World, OutsideCall, log_event, remove, Action, Result, ok, err, Error, pure, or_raise,
  raise_if, ◌>>=◌, continue, sql, query, exec, ask,
}
use cloud_zero_knowledge_sto.Store.Objects.{remove_object}

-- The events that were logged, newest first.
unfoldable pub events : List OutsideCall → List AuditEvent
events [] = []
events (log_event x ∷ cs) = x ∷ events cs
events (_ ∷ cs) = events cs

pub record Quiet {A : Type 0} (m : Action A) : Type 0 where
  pub at : (w : World) → events (m w).1.calls ≡ events w.calls

pub Quiet-pure : {A : Type 0} (a : A) → Quiet (pure a)
unfolding pure
Quiet-pure a = record { at = λ w. refl }

pub Quiet-or_raise : {A : Type 0} (o : Option A) (x : Error) → Quiet (or_raise o x)
unfolding or_raise
Quiet-or_raise none x = record { at = λ w. refl }
Quiet-or_raise (some a) x = record { at = λ w. refl }

pub Quiet-raise_if : (b : Bool) (x : Error) → Quiet (raise_if b x)
unfolding raise_if
Quiet-raise_if true x = record { at = λ w. refl }
Quiet-raise_if false x = record { at = λ w. refl }

continue-Quiet :
    {A B : Type 0} (r : Result A) (f : A → Action B) (w : World)
    → ((a : A) → Quiet (f a))
    → events (continue r f w).1.calls ≡ events w.calls
continue-Quiet (ok a) f w h = (h a).at w
continue-Quiet (err x) f w h = refl

pub Quiet-bind :
    {A B : Type 0} (m : Action A) (f : A → Action B)
    → Quiet m
    → ((a : A) → Quiet (f a))
    → Quiet (m >>= f)
unfolding ◌>>=◌
Quiet-bind m f h k = record { at = λ w. continue-Quiet (m w).0 f (m w).1 k ∙ h.at w }

module _ (e : Env) {A : Type 0} where
  pub Quiet-query : (f : ℕ → Db → A) → Quiet (query e f)
  unfolding query sql
  Quiet-query f = record {
    at = λ w. elim (Bool-cases (e.sql_fails w.steps)) [
      | inl down ↦ rw down refl
      | inr up ↦ rw up refl
    ];
  }

  pub Quiet-exec : (f : ℕ → Db → A × Db) → Quiet (exec e f)
  unfolding exec sql
  Quiet-exec f = record {
    at = λ w. elim (Bool-cases (e.sql_fails w.steps)) [
      | inl down ↦ rw down refl
      | inr up ↦ rw up refl
    ];
  }

Quiet-remove : (e : Env) (key : Text) (answer : ℕ → Bool) → Quiet (ask e (remove key) answer)
unfolding ask events
Quiet-remove e key answer = record { at = λ w. refl }

pub Quiet-remove_object : (e : Env) (key : Text) → Quiet (remove_object e key)
unfolding remove_object
Quiet-remove_object e key = search (Quiet-bind, Quiet-remove, Quiet-raise_if)

pub ruleset quiet_rules = (
  Quiet-pure, Quiet-or_raise, Quiet-raise_if, Quiet-bind, Quiet-query, Quiet-exec,
  Quiet-remove_object,
)
