-- ===== src/Blocklist.antt =====
-- internal/repo/cache/redis/session_blocklist.go. A pipeline is one command.
use cloud_zero_knowledge_sto.Base.{ℕ, Bool, List, [], ◌∷◌, ⊤, if◌then◌else◌, is_empty, is_not_null}
use cloud_zero_knowledge_sto.Store.{Entry, lookup, store, Env, Action, pure, command}

unfoldable pub block_all : List ℕ → ℕ → ℕ → List (Entry ⊤) → List (Entry ⊤)
block_all [] ttl t xs = xs
block_all (id ∷ ids) ttl t xs = block_all ids ttl t (store id tt ttl t xs)

module _ (e : Env) where
  unfoldable pub block : ℕ → ℕ → Action ⊤
  block id ttl =
      command e λ t r. (tt, record r { blocked_sessions = store id tt ttl t r.blocked_sessions })

  unfoldable pub block_batch : List ℕ → ℕ → Action ⊤
  block_batch ids ttl =
      if is_empty ids
      then pure tt
      else command e
          λ t r. (tt, record r { blocked_sessions = block_all ids ttl t r.blocked_sessions })

  unfoldable pub is_blocked : ℕ → Action Bool
  is_blocked id = command e λ t r. (is_not_null (lookup id t r.blocked_sessions), r)
