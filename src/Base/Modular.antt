-- ===== src/Base/Modular.antt =====
-- Powers, and arithmetic modulo a number.
use Prim.Native.Nat.{ℕ, zero, suc, ◌+◌, ◌*◌, ◌/◌, ◌%◌, ◌^◌, ◌<◌}
use mathlib.Core.Path.{◌≡◌, refl, sym, ap, ◌∙◌}
use mathlib.Core.Logic.{◌≢◌}
use native.Mathlib.Nat.{
  pow-zero, pow-suc, mul_left_comm, mul_assoc, mul_comm, add-mul, mul-one, mod-add-div, div-add-mod,
  mod-eq_of_lt, add-mul-mod_self_left, mul-mod_right,
}
use native.Mathlib.Omega.{arith}

pub pow-add : (a i j : ℕ) → a ^ (i + j) ≡ a ^ i * a ^ j
pow-add a i zero =
    let index : i + 0 ≡ i = omega arith in rw (index, pow-zero a) (sym (mul-one (a ^ i)))
pow-add a i (suc j) =
    let step : a ^ suc (i + j) ≡ a ^ (i + j) * a = pow-suc a (i + j) in
    let last : a ^ suc j ≡ a ^ j * a = pow-suc a j in
    let index : i + suc j ≡ suc (i + j) = omega arith in
    rw (index, step, last, pow-add a i j) (mul_assoc (a ^ i) (a ^ j) a)

pub pow-mul : (a i j : ℕ) → a ^ (i * j) ≡ (a ^ i) ^ j
pow-mul a i zero =
    let index : i * 0 ≡ 0 = omega arith in rw (index, pow-zero a, pow-zero (a ^ i)) refl
pow-mul a i (suc j) =
    let index : i * suc j ≡ i * j + i = omega arith in
    rw (index, pow-add a (i * j) i, pow-mul a i j, pow-suc (a ^ i) j) refl

pub mod-mul : (n a b : ℕ) → a % n * b % n ≡ a * b % n
mod-mul n a b =
    let whole : a ≡ a % n + n * (a / n) = sym (mod-add-div a n) in
    let split : a * b ≡ a % n * b + n * (a / n * b) =
      ap (λ (k : ℕ). k * b) whole
      ∙ (add-mul (a % n) (n * (a / n)) b ∙ ap (λ (k : ℕ). a % n * b + k) (mul_assoc n (a / n) b)) in
    sym (ap (λ (k : ℕ). k % n) split ∙ add-mul-mod_self_left (a % n * b) n (a / n * b))

pub mul-mod : (n a b : ℕ) → a * (b % n) % n ≡ a * b % n
mul-mod n a b =
    ap (λ (k : ℕ). k % n) (mul_comm a (b % n))
    ∙ (mod-mul n b a ∙ ap (λ (k : ℕ). k % n) (mul_comm b a))

pub pow-mod : (n a k : ℕ) → (a % n) ^ k % n ≡ a ^ k % n
pow-mod n a zero = rw (pow-zero (a % n), pow-zero a) refl
pow-mod n a (suc k) =
    rw (pow-suc (a % n) k, pow-suc a k)
      (sym (mod-mul n ((a % n) ^ k) (a % n))
        ∙ (ap (λ (x : ℕ). x * (a % n) % n) (pow-mod n a k)
            ∙ (mod-mul n (a ^ k) (a % n) ∙ mul-mod n (a ^ k) a)))

halve : (m q p : ℕ) → (2 * m + 1) * q ≡ p * 2 → p ≡ (2 * m + 1) * (q / 2)
halve m q p h =
    let spread = add-mul (2 * m) 1 q in
    let double = mul_assoc 2 m q in
    let half : q ≡ 2 * (q / 2) = omega (arith, spread, double) in
    let inner : m * q ≡ 2 * (m * (q / 2)) =
      ap (λ (k : ℕ). m * k) half ∙ mul_left_comm m 2 (q / 2) in
    let outer = add-mul (2 * m) 1 (q / 2) in
    let twice = mul_assoc 2 m (q / 2) in omega (arith, spread, double, inner, outer, twice, half)

-- A power of two is no multiple of an odd number above one.
pub two_pow-mod : (m a : ℕ) → 0 < m → 2 ^ a % (2 * m + 1) ≢ 0
two_pow-mod m zero h is =
    let small : 1 % (2 * m + 1) ≡ 1 = mod-eq_of_lt (omega arith) in
    let start : 2 ^ 0 % (2 * m + 1) ≡ 1 = rw (pow-zero 2) small in omega (arith, start)
two_pow-mod m (suc a) h is =
    let q : ℕ = 2 ^ suc a / (2 * m + 1) in
    let whole = div-add-mod (2 ^ suc a) (2 * m + 1) in
    let even : (2 * m + 1) * q ≡ 2 ^ a * 2 = omega (arith, whole, pow-suc 2 a) in
    two_pow-mod m a h
      (ap (λ (k : ℕ). k % (2 * m + 1)) (halve m q (2 ^ a) even) ∙ mul-mod_right (2 * m + 1) (q / 2))
