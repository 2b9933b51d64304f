-- ===== src/Srp/Group.antt =====
-- The modulus of pkg/srp/srp.go beside the formula of RFC 3526 for its 2048-bit group:
-- 2^2048 - 2^1984 - 1 + 2^64 * (⌊2^1918 * π⌋ + 124476).
use cloud_zero_knowledge_sto.Base.{ℕ, zero, suc, ◌+◌, ◌-◌, ◌*◌, ◌/◌, ◌^◌, ◌≡◌, refl}
use cloud_zero_knowledge_sto.Srp.{big_n}

-- `term / k - term / (m^2 * (k + 2)) + …`, with so many terms, each rounded down.
unfoldable alternating : ℕ → ℕ → ℕ → ℕ → ℕ
alternating zero m k term = 0
alternating (suc n) m k term = term / k - alternating n m (k + 2) (term / (m * m))

-- The arc tangent of `1 / m`, times `scale`.
abbrev arctan_of_inverse : ℕ → ℕ → ℕ
arctan_of_inverse scale m = alternating 460 m 1 (scale / m)

-- π times `scale`, by Machin's formula; with 2048 bits, 130 of them are to spare.
abbrev scaled_pi : ℕ → ℕ
scaled_pi scale = 16 * arctan_of_inverse scale 5 - 4 * arctan_of_inverse scale 239

unfoldable pub rfc_3526_prime : ℕ
unfolding alternating
rfc_3526_prime = 2 ^ 2048 - 2 ^ 1984 - 1 + 2 ^ 64 * (scaled_pi (2 ^ 2048) / 2 ^ 130 + 124476)

pub big_n_lem : big_n ≡ rfc_3526_prime
unfolding big_n alternating rfc_3526_prime
big_n_lem = refl
