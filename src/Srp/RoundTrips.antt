-- ===== src/Srp/RoundTrips.antt =====
-- Encodings of pkg/srp/srp.go read back: bytes as hex, numbers as bytes, sessions as snapshots.
use cloud_zero_knowledge_sto.Base.{
  ℕ, zero, suc, ◌+◌, ◌-◌, ◌*◌, ◌/◌, ◌%◌, ◌≤◌, ◌<◌, some, List, [], ◌∷◌, ◌++◌, ◌≡◌, refl, ap, ◌∙◌,
  arith, inl, inr, Bool-cases, ◌==◌, All, length,
}
use cloud_zero_knowledge_sto.Store.{ok}
use cloud_zero_knowledge_sto.Srp.Bytes.{
  hex_digit, digit_value, encode_hex, decode_hex, from_bytes_onto, from_bytes, to_bytes_before,
  to_bytes, zeros,
}
use cloud_zero_knowledge_sto.Srp.{
  ServerSession, pad, n_len, snapshot, new_server_session_from_snapshot,
}

abbrev pub IsByte : ℕ → Type 0
IsByte b = b < 256

digit_back : (n : ℕ) → n < 16 → digit_value (hex_digit n) ≡ some n
digit_back n h = ground arith

pub decode-encode : (bs : List ℕ) → All IsByte bs → decode_hex (encode_hex bs) ≡ some bs
unfolding decode_hex encode_hex
decode-encode [] h = refl
decode-encode (b ∷ bs) (small, h) =
    let whole : b / 16 * 16 + b % 16 ≡ b = omega arith in
    rw
      (
        digit_back (b / 16) (omega arith),
        digit_back (b % 16) (omega arith),
        decode-encode bs h,
        whole,
      )
      refl

bytes_back :
    (fuel n : ℕ) (bs : List ℕ)
    → n ≤ fuel
    → from_bytes_onto 0 (to_bytes_before fuel n bs) ≡ from_bytes_onto n bs
unfolding from_bytes_onto to_bytes_before
bytes_back zero n bs h = let nothing : n ≡ 0 = omega arith in rw nothing refl
bytes_back (suc fuel) n bs h = elim (Bool-cases (n == 0)) [
  | inl done ↦ let nothing : n ≡ 0 = ground arith in rw (done, nothing) refl
  | inr more ↦
      let smaller : n / 256 ≤ fuel = ground arith in
      let whole : n / 256 * 256 + n % 256 ≡ n = omega arith in
      rw more (
        bytes_back fuel (n / 256) ((n % 256) ∷ bs) smaller
        ∙ ap (λ (k : ℕ). from_bytes_onto k bs) whole)
]

pub from_bytes-to_bytes : (n : ℕ) → from_bytes (to_bytes n) ≡ n
unfolding from_bytes to_bytes from_bytes_onto
from_bytes-to_bytes n = bytes_back n n [] (omega arith)

bytes_before-IsByte :
    (fuel n : ℕ) (bs : List ℕ) → All IsByte bs → All IsByte (to_bytes_before fuel n bs)
unfolding to_bytes_before
bytes_before-IsByte zero n bs h = h
bytes_before-IsByte (suc fuel) n bs h = elim (Bool-cases (n == 0)) [
  | inl done ↦ rw done h
  | inr more ↦ rw more (bytes_before-IsByte fuel (n / 256) ((n % 256) ∷ bs) (omega arith, h))
]

pub to_bytes-IsByte : (n : ℕ) → All IsByte (to_bytes n)
unfolding to_bytes
to_bytes-IsByte n = bytes_before-IsByte n n [] tt

zeros_lem : (k : ℕ) (bs : List ℕ) → from_bytes (zeros k ++ bs) ≡ from_bytes bs
unfolding from_bytes from_bytes_onto zeros
zeros_lem zero bs = refl
zeros_lem (suc k) bs = zeros_lem k bs

zeros-IsByte : (k : ℕ) (bs : List ℕ) → All IsByte bs → All IsByte (zeros k ++ bs)
unfolding zeros
zeros-IsByte zero bs h = h
zeros-IsByte (suc k) bs h = (omega arith, zeros-IsByte k bs h)

pub from_bytes-pad : (n : ℕ) → from_bytes (pad n) ≡ n
unfolding pad
from_bytes-pad n = zeros_lem (n_len - length (to_bytes n)) (to_bytes n) ∙ from_bytes-to_bytes n

pub pad-IsByte : (n : ℕ) → All IsByte (pad n)
unfolding pad
pad-IsByte n = zeros-IsByte (n_len - length (to_bytes n)) (to_bytes n) (to_bytes-IsByte n)

pub session-snapshot : (s : ServerSession) → new_server_session_from_snapshot (snapshot s) ≡ ok s
unfolding new_server_session_from_snapshot snapshot
session-snapshot s =
    rw
      (
        decode-encode (to_bytes s.verifier) (to_bytes-IsByte s.verifier),
        decode-encode (to_bytes s.b) (to_bytes-IsByte s.b),
        decode-encode (pad s.b_pub) (pad-IsByte s.b_pub),
        from_bytes-to_bytes s.verifier,
        from_bytes-to_bytes s.b,
        from_bytes-pad s.b_pub,
      )
      refl
