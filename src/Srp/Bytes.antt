-- ===== src/Srp/Bytes.antt =====
-- What pkg/srp uses of encoding/hex, and of the bytes of math/big. A byte is a number below 256.
use cloud_zero_knowledge_sto.Base.{
  ℕ, zero, suc, ◌+◌, ◌-◌, ◌*◌, ◌/◌, ◌%◌, ◌&&◌, Option, none, some, List, [], ◌∷◌, Text, ltb, leb,
  ◌==◌, if◌then◌else◌,
}

abbrev pub hex_digit : ℕ → ℕ
hex_digit n = if ltb n 10 then b'0' + n else b'a' + (n - 10)

abbrev pub digit_value : ℕ → Option ℕ
digit_value c =
    if leb b'0' c && leb c b'9'
    then some (c - b'0')
    else if leb b'a' c && leb c b'f'
    then some (c - b'a' + 10)
    else if leb b'A' c && leb c b'F'
    then some (c - b'A' + 10)
    else none

-- `hex.EncodeToString`
unfoldable pub encode_hex : List ℕ → Text
encode_hex [] = []
encode_hex (b ∷ bs) = hex_digit (b / 16) ∷ hex_digit (b % 16) ∷ encode_hex bs

abbrev pub join_byte : Option ℕ → Option ℕ → Option (List ℕ) → Option (List ℕ)
join_byte (some high) (some low) (some bs) = some ((high * 16 + low) ∷ bs)
join_byte _ _ _ = none

-- `hex.DecodeString`
unfoldable pub decode_hex : Text → Option (List ℕ)
decode_hex [] = some []
decode_hex (_ ∷ []) = none
decode_hex (c ∷ d ∷ s) = join_byte (digit_value c) (digit_value d) (decode_hex s)

-- `SetBytes`
unfoldable pub from_bytes_onto : ℕ → List ℕ → ℕ
from_bytes_onto n [] = n
from_bytes_onto n (b ∷ bs) = from_bytes_onto (n * 256 + b) bs

unfoldable pub from_bytes : List ℕ → ℕ
unfolding from_bytes_onto
from_bytes bs = from_bytes_onto 0 bs

-- `Bytes`, on more fuel than the number has bytes
unfoldable pub to_bytes_before : ℕ → ℕ → List ℕ → List ℕ
to_bytes_before zero n bs = bs
to_bytes_before (suc fuel) n bs =
    let rest = to_bytes_before fuel (n / 256) ((n % 256) ∷ bs) in if n == 0 then bs else rest

unfoldable pub to_bytes : ℕ → List ℕ
unfolding to_bytes_before
to_bytes n = to_bytes_before n n []

unfoldable pub zeros : ℕ → List ℕ
zeros zero = []
zeros (suc n) = 0 ∷ zeros n
