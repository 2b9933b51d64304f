-- ===== src/Store/Transactions.antt =====
-- What a transaction leaves, and what follows a row that was read.
use mathlib.Core.Option
use cloud_zero_knowledge_sto.Base.{
  ap, sym, ◌∙◌, map-some, inl, inr, ℕ, Option, some, ◌≡◌, ⊤, Bool-cases,
}
use cloud_zero_knowledge_sto.Store.Rows.{Db}
use cloud_zero_knowledge_sto.Store.Effects.{
  Env, World, Action, Result, ok, err, Error, Ending, commit, roll_back, or_raise, ◌>>=◌, advance,
  query, finish, in_transaction,
}
use cloud_zero_knowledge_sto.Store.Ends.{
  Outcome, Ends, Ends-bind, Ends-given, Ends-query, Ends-or_raise,
}

-- What a transaction leaves: the tables of its start unless it was committed.
module _ (e : Env) {A : Type 0} (Q : A → Db → Type 0) (d₀ : Db) where
  abbrev pub Ended : Ending A → Db → Type 0
  Ended (commit a) d = Q a d
  Ended (roll_back a) d = Q a d₀

  finish_lem :
      (w : World) (w' : World) (r : Result (Ending A))
      → w.db ≡ d₀
      → Outcome r (λ a. Ended a w'.db) ⊤
      → Outcome
          (finish e w (r, w')).0
          (λ a. Q a (finish e w (r, w')).1.db)
          ((finish e w (r, w')).1.db ≡ d₀)
  unfolding finish
  finish_lem w w' (err x) same h = same
  finish_lem w w' (ok (roll_back a)) same h = rw same h
  finish_lem w w' (ok (commit a)) same h = elim (Bool-cases (e.sql_fails w'.steps)) [
    | inl down ↦ rw down same
    | inr up ↦ rw up h
  ]

  pub Ends-in_transaction :
      (body : ℕ → Action (Ending A))
      → ((t : ℕ) → Ends (λ d. d ≡ d₀) (body t) Ended (λ _. ⊤))
      → Ends (λ d. d ≡ d₀) (in_transaction e body) Q (λ d. d ≡ d₀)
  unfolding in_transaction
  Ends-in_transaction body y = record {
    at = λ w same. elim (Bool-cases (e.sql_fails w.steps)) [
      | inl down ↦ rw down same
      | inr up ↦ rw up (finish_lem w _ _ same ((y (e.now w.steps)).at (advance w) same))
    ];
  }

-- Read a row at the tables `d₀`, fail if there is none, and go on.
module _ (e : Env) {A B : Type 0} (d₀ : Db) (x : Error) (Q : B → Db → Type 0) where
  pub Ends-read :
      (q : Db → Option A) (k : A → Action B)
      → ((a : A) → q d₀ ≡ some a → Ends (λ d. d ≡ d₀) (k a) Q (λ d. d ≡ d₀))
      → Ends
          (λ d. d ≡ d₀)
          (query e (λ t d. q d) >>= λ found. or_raise found x >>= k)
          Q
          (λ d. d ≡ d₀)
  Ends-read q k y =
      let R = λ (d : Db). d ≡ d₀ in
      Ends-bind _ _ (λ found d. (found ≡ q d₀) × (d ≡ d₀)) _ R
        (Ends-query e _ _ R (λ d h. h) (λ t d h. (ap q h, h)))
        λ found.
          Ends-bind _ _ _ _ R (Ends-or_raise found x R (λ d h. h.1))
            λ a. Ends-given _ _ _ R λ got. Ends-given _ _ _ R λ read. y a (sym read ∙ got)

  pub Ends-read_map :
      {C : Type 0} (q : Db → Option C) (f : C → A) (k : A → Action B)
      → ((c : C) → q d₀ ≡ some c → Ends (λ d. d ≡ d₀) (k (f c)) Q (λ d. d ≡ d₀))
      → Ends
          (λ d. d ≡ d₀)
          (query e (λ t d. Option.map f (q d)) >>= λ found. or_raise found x >>= k)
          Q
          (λ d. d ≡ d₀)
  Ends-read_map q f k y =
      Ends-read (λ d. Option.map f (q d)) k
        λ a got. let (c, was, is) = map-some f (q d₀) a got in rw (← is) (y c was)
