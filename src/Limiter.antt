-- ===== src/Limiter.antt =====
-- internal/repo/cache/redis/rate_limiter.go. The Lua script is one command.
pub mod Window
use cloud_zero_knowledge_sto.Base.{
  ℕ, suc, ◌+◌, ◌*◌, ◌/◌, Bool, some, List, [], ◌∷◌, ◌++◌, Text, leb, if◌then◌else◌, text_eq,
}
use cloud_zero_knowledge_sto.Store.{Counter, second, is_alive, Env, Action, pure, ◌>>=◌, command}

pub record RateLimiter : Type 0 where
  pub prefix : Text
  pub limit : ℕ
  pub window : ℕ

-- `int64(r.window.Seconds())`, as `EXPIRE` counts it.
abbrev pub window_seconds : RateLimiter → ℕ
window_seconds r = r.window / second

abbrev pub first_count : Text → ℕ → ℕ → Counter
first_count key window_sec t = record {
  key = key;
  count = 1;
  until = some (t + window_sec * second);
}

-- `incrExpireScript`: INCR goes on from a key that is alive, and EXPIRE is set with the count of 1.
unfoldable pub incr_expire : Text → ℕ → ℕ → List Counter → ℕ × List Counter
incr_expire key window_sec t [] = (1, first_count key window_sec t ∷ [])
incr_expire key window_sec t (c ∷ cs) =
    let (n, rest) = incr_expire key window_sec t cs in
    if text_eq c.key key
    then (if is_alive c.until t
        then (suc c.count, record c { count = suc c.count } ∷ cs)
        else (1, first_count key window_sec t ∷ cs))
    else (n, c ∷ rest)

module _ (e : Env) where
  unfoldable pub allow : RateLimiter → Text → Action Bool
  allow r key = do
    count ← command e λ t keys.
        let (n, counters) = incr_expire (r.prefix ++ key) (window_seconds r) t keys.counters in
        (n, record keys { counters = counters })
    pure (leb count r.limit)
