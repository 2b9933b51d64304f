-- ===== src/Srp.antt =====
-- pkg/srp/srp.go: the server side of SRP-6a. SHA-256 is a parameter, on bytes; a number is a natural
-- one, as a big.Int that comes from bytes is.
pub mod Bytes
pub mod Group
pub mod RoundTrips
pub mod Agreement
use Prim.Native.Nat.{bit_xor}
use cloud_zero_knowledge_sto.Base.{
  ℕ, ◌+◌, ◌-◌, ◌*◌, ◌%◌, ◌^◌, not, List, [], ◌∷◌, ◌++◌, Text, ◌==◌, if◌then◌else◌, Option, none,
  some, length, text_eq,
}
use cloud_zero_knowledge_sto.Store.{Result, ok, err, invalid_hex, invalid_proof, random_failed}
use cloud_zero_knowledge_sto.Srp.Bytes.{
  encode_hex, decode_hex, from_bytes, from_bytes_onto, to_bytes, zeros,
}

-- The words of `nHex`, its last one apart.
abbrev pub n_words : List ℕ
n_words =
    0xffffffffffffffffc90fdaa22168c234c4c6628b80dc1cd1
    ∷ 0x29024e088a67cc74020bbea63b139b22514a08798e3404dd
    ∷ 0xef9519b3cd3a431b302b0a6df25f14374fe1356d6d51c245
    ∷ 0xe485b576625e7ec6f44c42e9a637ed6b0bff5cb6f406b7ed
    ∷ 0xee386bfb5a899fa5ae9f24117c4b1fe649286651ece45b3d
    ∷ 0xc2007cb8a163bf0598da48361c55d39a69163fa8fd24cf5f
    ∷ 0x83655d23dca3ad961c62f356208552bb9ed529077096966d
    ∷ 0x670c354e4abc9804f1746c08ca18217c32905e462e36ce3b
    ∷ 0xe39e772c180e86039b2783a2ec07a28fb5c55df06f4c52c9
    ∷ 0xde2bcbf6955817183995497cea956ae515d2261898fa0510 ∷ []

abbrev join_words : ℕ → List ℕ → ℕ
join_words n [] = n
join_words n (w ∷ ws) = join_words (n * 2 ^ 192 + w) ws

unfoldable pub big_n : ℕ
big_n = join_words 0 n_words * 2 ^ 128 + 0x15728e5a8aacaa68ffffffffffffffff

abbrev pub big_g : ℕ
big_g = 2

unfoldable pub n_len : ℕ
unfolding big_n to_bytes
n_len = length (to_bytes big_n)

unfoldable pub pad : ℕ → List ℕ
pad x = let bytes = to_bytes x in zeros (n_len - length bytes) ++ bytes

-- `Exp(base, exponent, N)`
abbrev pub exp : ℕ → ℕ → ℕ
exp b k = b ^ k % big_n

unfoldable pub xor_bytes : List ℕ → List ℕ → List ℕ
xor_bytes [] ys = []
xor_bytes (a ∷ xs) [] = []
xor_bytes (a ∷ xs) (b ∷ ys) = bit_xor a b ∷ xor_bytes xs ys

pub record ServerSession : Type 0 where
  pub verifier : ℕ
  pub b : ℕ
  pub b_pub : ℕ

pub record Snapshot : Type 0 where
  pub verifier_hex : Text
  pub b_hex : Text
  pub b_pub_hex : Text

abbrev with_bytes : {A : Type 0} → Option (List ℕ) → (List ℕ → Result A) → Result A
with_bytes none f = err invalid_hex
with_bytes (some bs) f = f bs

unfoldable pub public_ephemeral_hex : ServerSession → Text
public_ephemeral_hex s = encode_hex (pad s.b_pub)

unfoldable pub snapshot : ServerSession → Snapshot
snapshot s = record {
  verifier_hex = encode_hex (to_bytes s.verifier);
  b_hex = encode_hex (to_bytes s.b);
  b_pub_hex = encode_hex (pad s.b_pub);
}

unfoldable pub new_server_session_from_snapshot : Snapshot → Result ServerSession
new_server_session_from_snapshot s = with_bytes (decode_hex s.verifier_hex) λ v.
    with_bytes (decode_hex s.b_hex) λ b.
      with_bytes (decode_hex s.b_pub_hex)
        λ b_pub. ok (record { verifier = from_bytes v; b = from_bytes b; b_pub = from_bytes b_pub })

module _ (sha_256 : List ℕ → List ℕ) where
  unfoldable pub big_k : ℕ
  big_k = from_bytes (sha_256 (pad big_n ++ pad big_g))

  unfoldable pub srp_xor_ng : List ℕ
  srp_xor_ng = xor_bytes (sha_256 (pad big_n)) (sha_256 (pad big_g))

  -- `b = k·v + g^b mod N`
  unfoldable pub public_ephemeral : ℕ → ℕ → ℕ
  public_ephemeral v b = (big_k * v % big_n + exp big_g b) % big_n

  abbrev pub with_random : ℕ → Option (List ℕ) → Result ServerSession
  with_random v none = err random_failed
  with_random v (some b_bytes) =
      let b = from_bytes b_bytes in
      ok (record { verifier = v; b = b; b_pub = public_ephemeral v b })

  -- The second argument is what `rand.Read` gave.
  unfoldable pub new_server_session : Text → Option (List ℕ) → Result ServerSession
  unfolding public_ephemeral
  new_server_session verifier_hex random =
      with_bytes (decode_hex verifier_hex) λ bytes. with_random (from_bytes bytes) random

  unfoldable pub scramble : ℕ → ℕ → ℕ
  scramble a_pub b_pub = from_bytes (sha_256 (pad a_pub ++ pad b_pub))

  -- `S = (A · v^u)^b mod N`, and its hash
  unfoldable pub srp_session_key : ℕ → ServerSession → List ℕ
  unfolding scramble
  srp_session_key a_pub s =
      sha_256 (pad (exp (a_pub * exp s.verifier (scramble a_pub s.b_pub) % big_n) s.b))

  unfoldable pub srp_compute_m1 : ℕ → ℕ → List ℕ → List ℕ → List ℕ → List ℕ
  unfolding srp_xor_ng
  srp_compute_m1 a_pub b_pub key username salt =
      sha_256 (srp_xor_ng ++ sha_256 username ++ salt ++ pad a_pub ++ pad b_pub ++ key)

  unfoldable pub srp_compute_m2 : ℕ → List ℕ → List ℕ → List ℕ
  srp_compute_m2 a_pub m1 key = sha_256 (pad a_pub ++ m1 ++ key)

  -- `username` is the bytes of the email address.
  unfoldable pub verify_client_proof : ServerSession → Text → Text → List ℕ → Text → Result Text
  verify_client_proof s a_hex m1_hex username srp_salt_hex =
      with_bytes (decode_hex a_hex) λ a_bytes.
        let a_pub = from_bytes a_bytes in
        if a_pub % big_n == 0
        then err invalid_proof
        else with_bytes (decode_hex srp_salt_hex) λ salt.
          let key = srp_session_key a_pub s in
          let want_m1 = srp_compute_m1 a_pub s.b_pub key username salt in
          with_bytes (decode_hex m1_hex) λ got_m1.
            if text_eq want_m1 got_m1
            then ok (encode_hex (srp_compute_m2 a_pub want_m1 key))
            else err invalid_proof
