-- ===== src/Limiter/Window.antt =====
-- How many calls of Allow of internal/repo/cache/redis/rate_limiter.go one window lets through.
use cloud_zero_knowledge_sto.Base.{
  ℕ, suc, ◌+◌, ◌-◌, ◌*◌, ◌≤◌, ◌<◌, Bool, true, false, ◌&&◌, Option, none, some, List, [], ◌∷◌, ◌++◌,
  Text, ⊤, ◌≡◌, ◌⊎◌, refl, sym, ap, subst, ◌∙◌, arith, inl, inr, Bool-cases, if◌then◌else◌, text_eq,
  text_eq_refl, text_eq_sound, ==_refl, leb, length,
}
use cloud_zero_knowledge_sto.Store.{Counter, second, is_alive, Env, World, Result, ok, err, running}
use cloud_zero_knowledge_sto.Limiter.{RateLimiter, window_seconds, first_count, incr_expire, allow}

abbrev is_yes : Result Bool → Bool
is_yes (ok b) = b
is_yes (err _) = false

-- The calls for `k` that are allowed, of calls for any keys one after the other.
unfoldable pub allowed : Env → RateLimiter → Text → List Text → World → ℕ
allowed e r k [] w = 0
allowed e r k (key ∷ keys) w =
    (if text_eq key k && is_yes (allow e r key w).0 then 1 else 0)
    + allowed e r k keys (allow e r key w).1

abbrev pub find : Text → List Counter → Option Counter
find key [] = none
find key (c ∷ cs) = if text_eq c.key key then some c else find key cs

-- The counter of `key` after INCR and EXPIRE.
abbrev bump : Text → ℕ → ℕ → Option Counter → Counter
bump key window_sec t none = first_count key window_sec t
bump key window_sec t (some c) =
    if is_alive c.until t then record c { count = suc c.count } else first_count key window_sec t

incr_found :
    (key : Text) (window_sec t : ℕ) (cs : List Counter)
    → ((incr_expire key window_sec t cs).0 ≡ (bump key window_sec t (find key cs)).count)
      × (find key (incr_expire key window_sec t cs).1 ≡ some (bump key window_sec t (find key cs)))
unfolding incr_expire
incr_found key window_sec t [] = (refl, rw (text_eq_refl key) refl)
incr_found key window_sec t (c ∷ cs) =
    let (n, at) = incr_found key window_sec t cs in
    elim (Bool-cases (text_eq c.key key)) [
      | inr other ↦ rw (other, other) (n, at)
      | inl same ↦ elim (Bool-cases (is_alive c.until t)) [
        | inl alive ↦ rw (same, alive, same) (refl, refl)
        | inr over ↦ rw (same, over, text_eq_refl key) (refl, refl)
      ]
    ]

other_key : (a b c : Text) → text_eq a b ≡ true → text_eq b c ≡ false → text_eq a c ≡ false
other_key a b c same apart = let is : a ≡ b = text_eq_sound a b same in rw is apart

incr_other :
    (key k : Text) (window_sec t : ℕ) (cs : List Counter)
    → text_eq key k ≡ false
    → find k (incr_expire key window_sec t cs).1 ≡ find k cs
unfolding incr_expire
incr_other key k window_sec t [] apart = rw apart refl
incr_other key k window_sec t (c ∷ cs) apart = elim (Bool-cases (text_eq c.key key)) [
  | inl same ↦
      let not_k = other_key c.key key k same apart in
      elim (Bool-cases (is_alive c.until t)) [
        | inl alive ↦ rw (same, alive, not_k) refl
        | inr over ↦ rw (same, over, apart, not_k) refl
      ]
  | inr different ↦ rw different (ground (arith, incr_other key k window_sec t cs apart))
]

-- The window from `start` to `stop` has let `n` calls of the key in so far: there is no counter that
-- is alive, or one of `n` that is alive to the end.
abbrev pub HasCounted : ℕ → ℕ → ℕ → Option Counter → Type 0
HasCounted start stop n none = n ≡ 0
HasCounted start stop n (some c) =
    ((n ≡ 0) × ((t : ℕ) → start ≤ t → is_alive c.until t ≡ false))
    ⊎ ((c.count ≡ n) × ((t : ℕ) → t < stop → is_alive c.until t ≡ true))

bump_counts :
    (key : Text) (window_sec start t n : ℕ) (o : Option Counter)
    → start ≤ t
    → t < start + window_sec * second
    → HasCounted start (start + window_sec * second) n o
    → ((bump key window_sec t o).count ≡ suc n)
      × HasCounted start (start + window_sec * second) (suc n) (some (bump key window_sec t o))
bump_counts key window_sec start t n none from before h =
    (rw h refl, inr (rw h refl, λ t' b. ground arith))
bump_counts key window_sec start t n (some c) from before (inl (zero_yet, over)) =
    rw (over t from) (rw zero_yet refl, inr (rw zero_yet refl, λ t' b. ground arith))
bump_counts key window_sec start t n (some c) from before (inr (is, alive)) =
    rw (alive t before) (ap suc is, inr (ap suc is, alive))

text_eq-append : (p a b : Text) → text_eq (p ++ a) (p ++ b) ≡ text_eq a b
text_eq-append [] a b = refl
text_eq-append (c ∷ p) a b = rw (==_refl c) (text_eq-append p a b)

-- No counter of the key is alive at `t`.
abbrev pub IsIdle : ℕ → Option Counter → Type 0
IsIdle t none = ⊤
IsIdle t (some c) = is_alive c.until t ≡ false

idle_lem : (start stop : ℕ) (o : Option Counter) → IsIdle start o → HasCounted start stop 0 o
idle_lem start stop none h = refl
idle_lem start stop (some c) h = inl (refl, λ t from. over c.until t from h)
  where
    over :
        (until : Option ℕ) (t : ℕ)
        → start ≤ t
        → is_alive until start ≡ false
        → is_alive until t ≡ false
    over none t from h = h
    over (some u) t from h = ground arith

module _ (e : Env) (r : RateLimiter) (k : Text) (start : ℕ)
    (up : (n : ℕ) → e.redis_fails n ≡ false) where
  abbrev stop : ℕ
  stop = start + window_seconds r * second

  abbrev counter : World → Option Counter
  counter w = find (r.prefix ++ k) w.db.redis.counters

  abbrev count_of : Text → World → ℕ
  count_of key w =
      (incr_expire (r.prefix ++ key) (window_seconds r) (e.now w.steps) w.db.redis.counters).0

  allow_lem :
      (key : Text) (w : World)
      → ((allow e r key w).0 ≡ ok (leb (count_of key w) r.limit))
        × ((allow e r key w).1.db.redis.counters
            ≡ (incr_expire
                (r.prefix ++ key)
                (window_seconds r)
                (e.now w.steps)
                w.db.redis.counters).1)
        × ((allow e r key w).1.steps ≡ suc w.steps)
  unfolding allow running
  allow_lem key w = rw (up w.steps) (refl, refl, refl)

  abbrev InWindow : ℕ → ℕ → Type 0
  InWindow from calls = (n : ℕ) → from ≤ n → n < from + calls → (start ≤ e.now n) × (e.now n < stop)

  allowed_lem :
      (keys : List Text) (w : World) (n : ℕ)
      → InWindow w.steps (length keys)
      → HasCounted start stop n (counter w)
      → allowed e r k keys w ≤ r.limit - n
  unfolding allowed
  allowed_lem [] w n within h = omega arith
  allowed_lem (key ∷ keys) w n within h =
      let (answer, left, step) = allow_lem key w in
      let (from, before) = within w.steps (omega arith) (omega arith) in
      let later : InWindow (allow e r key w).1.steps (length keys) =
        λ i low high. within i (omega (arith, step)) (omega (arith, step)) in
      elim (Bool-cases (text_eq key k)) [
        | inr other ↦
            let apart : text_eq (r.prefix ++ key) (r.prefix ++ k) ≡ false =
              text_eq-append r.prefix key k ∙ other in
            let same : counter (allow e r key w).1 ≡ counter w =
              ap (find (r.prefix ++ k)) left
              ∙ incr_other (r.prefix ++ key) (r.prefix ++ k) (window_seconds r) (e.now w.steps)
                  w.db.redis.counters apart in
            let rest =
              allowed_lem keys (allow e r key w).1 n later
                (subst (HasCounted start stop n) (sym same) h) in
            rw other (omega (arith, rest))
        | inl mine ↦
            let is : key ≡ k = text_eq_sound key k mine in
            let (counts, found) =
              incr_found (r.prefix ++ k) (window_seconds r) (e.now w.steps) w.db.redis.counters in
            let (next, kept) =
              bump_counts (r.prefix ++ k) (window_seconds r) start (e.now w.steps) n (counter w)
                from before h in
            let counter' : counter (allow e r key w).1
                ≡ some (bump (r.prefix ++ k) (window_seconds r) (e.now w.steps) (counter w)) =
              ap (find (r.prefix ++ k)) left ∙ rw is found in
            let count : count_of key w ≡ suc n = rw is (counts ∙ next) in
            let rest =
              allowed_lem keys (allow e r key w).1 (suc n) later
                (subst (HasCounted start stop (suc n)) (sym counter') kept) in
            rw (mine, answer, count) (ground (arith, rest))
      ]

-- With a Redis that answers, of calls of Allow for any keys one after the other, all within one
-- window's length from a time at which no counter of `k` is alive, at most `limit` for `k` are
-- allowed.
pub allowed-le-limit :
    (e : Env) (r : RateLimiter) (k : Text) (keys : List Text) (w : World) (start : ℕ)
    → ((n : ℕ) → e.redis_fails n ≡ false)
    → ((n : ℕ)
        → w.steps ≤ n
        → n < w.steps + length keys
        → (start ≤ e.now n) × (e.now n < start + window_seconds r * second))
    → IsIdle start (find (r.prefix ++ k) w.db.redis.counters)
    → allowed e r k keys w ≤ r.limit
allowed-le-limit e r k keys w start up within idle =
    omega (arith, allowed_lem e r k start up keys w 0 within (idle_lem start _ _ idle))
