-- ===== src/Store/KeyLaws.antt =====
-- Laws of the commands on keys with an expiration.
use cloud_zero_knowledge_sto.Base.{
  ℕ, ◌+◌, ◌<◌, true, none, some, List, [], ◌∷◌, ◌≡◌, refl, arith, ◌==◌, ==_refl, inl, inr,
  Bool-cases,
}
use cloud_zero_knowledge_sto.Store.Keys.{Entry, is_alive, until, lookup, drop_key, store}

pub alive_until : (ttl now t : ℕ) → t < now + ttl → is_alive (until ttl now) t ≡ true
alive_until ttl now t h = elim (Bool-cases (ttl == 0)) [
  | inl never ↦ rw never refl
  | inr some_time ↦ rw some_time (ground arith)
]

module _ {A : Type 0} where
  -- A key is found until its time is over.
  pub lookup-store :
      (key : ℕ) (value : A) (ttl now t : ℕ) (xs : List (Entry A))
      → t < now + ttl
      → lookup key t (store key value ttl now xs)
        ≡ some (record { key = key; value = value; until = until ttl now })
  unfolding lookup store
  lookup-store key value ttl now t xs h = rw (==_refl key, alive_until ttl now t h) refl

  pub lookup-drop_key : (key t : ℕ) (xs : List (Entry A)) → lookup key t (drop_key key xs) ≡ none
  unfolding lookup drop_key
  lookup-drop_key key t [] = refl
  lookup-drop_key key t (x ∷ xs) = elim (Bool-cases (x.key == key)) [
    | inl same ↦ rw same (lookup-drop_key key t xs)
    | inr apart ↦ rw (apart, apart) (lookup-drop_key key t xs)
  ]
