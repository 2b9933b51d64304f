-- ===== src/Srp/Agreement.antt =====
-- The server side of pkg/srp/srp.go against a client of SRP-6a in the 2048-bit group of RFC 3526.
use cloud_zero_knowledge_sto.Base.{
  ℕ, ◌+◌, ◌-◌, ◌*◌, ◌/◌, ◌%◌, ◌^◌, ◌≤◌, ◌<◌, false, some, List, ◌≡◌, refl, sym, ap, ◌∙◌, subst,
  arith, inl, inr, Bool-cases, ◌==◌, All, text_eq_refl,
}
use native.Mathlib.Nat.{mod-lt, mod-mod, mod-add-mod, add-mod_right, mul_comm}
use cloud_zero_knowledge_sto.Base.Modular.{pow-add, pow-mul, mod-mul, mul-mod, pow-mod, two_pow-mod}
use cloud_zero_knowledge_sto.Store.{ok}
use cloud_zero_knowledge_sto.Srp.Bytes.{encode_hex, from_bytes, to_bytes}
use cloud_zero_knowledge_sto.Srp.RoundTrips.{
  IsByte, decode-encode, from_bytes-to_bytes, to_bytes-IsByte,
}
use cloud_zero_knowledge_sto.Srp.Group.{rfc_3526_prime, big_n_lem}
use cloud_zero_knowledge_sto.Srp.{
  ServerSession, big_n, big_g, big_k, pad, public_ephemeral, new_server_session, scramble,
  srp_session_key, srp_compute_m1, srp_compute_m2, verify_client_proof,
}

half_n : ℕ
half_n = big_n / 2

big_n_odd : big_n ≡ 2 * half_n + 1
unfolding big_n half_n
big_n_odd = refl

big_n_positive : 0 < big_n
big_n_positive = rw big_n_odd (omega arith)

half_n_positive : 0 < half_n
unfolding big_n half_n
half_n_positive = omega arith

-- What a client with the modulus `n` sends for its secret `a`, and what it registers for the key `x`
-- of its password.
abbrev pub client_ephemeral : ℕ → ℕ → ℕ
client_ephemeral n a = 2 ^ a % n

abbrev pub client_verifier : ℕ → ℕ → ℕ
client_verifier n x = 2 ^ x % n

client_ephemeral_not_zero : (a : ℕ) → (client_ephemeral big_n a % big_n == 0) ≡ false
client_ephemeral_not_zero a = elim (Bool-cases (client_ephemeral big_n a % big_n == 0)) [
  | inr other ↦ other
  | inl zero ↦
      let is : 2 ^ a % big_n % big_n ≡ 0 = ground arith in
      let is' : 2 ^ a % (2 * half_n + 1) ≡ 0 =
        rw (← big_n_odd) (sym (mod-mod (2 ^ a) big_n) ∙ is) in
      absurd (two_pow-mod half_n a half_n_positive is')
]

module _ (sha_256 : List ℕ → List ℕ) where
  -- The formula of RFC 5054, 2.6: `(B - k·g^x) ^ (a + u·x) mod N`, and its hash.
  unfoldable pub client_key : ℕ → ℕ → ℕ → ℕ → List ℕ
  client_key n a x b_pub =
      let u = scramble sha_256 (client_ephemeral n a) b_pub in
      let kv = big_k sha_256 * client_verifier n x % n in
      sha_256 (pad ((b_pub + (n - kv)) ^ (a + u * x) % n))

  abbrev pub server : ℕ → ℕ → ℕ → ServerSession
  server n x b = record {
    verifier = client_verifier n x;
    b = b;
    b_pub = public_ephemeral sha_256 (client_verifier n x) b;
  }

  -- The server session of the verifier accepts the proof of the client with the modulus `n`, and
  -- answers the server proof over the same key.
  abbrev pub IsAccepted : ℕ → ℕ → ℕ → List ℕ → List ℕ → List ℕ → Type 0
  IsAccepted n a x random username salt =
      let s = server n x (from_bytes random) in
      let key = client_key n a x s.b_pub in
      let m1 = srp_compute_m1 sha_256 (client_ephemeral n a) s.b_pub key username salt in
      (new_server_session sha_256 (encode_hex (to_bytes (client_verifier n x))) (some random)
        ≡ ok s)
      × (verify_client_proof sha_256 s (encode_hex (to_bytes (client_ephemeral n a)))
            (encode_hex m1) username (encode_hex salt)
          ≡ ok (encode_hex (srp_compute_m2 sha_256 (client_ephemeral n a) m1 key)))

-- Modulo any number, both sides come to `g ^ ((a + u·x)·b)`.
module _ (n g a b u x : ℕ) where
  server_power : ((g ^ a % n) * ((g ^ x % n) ^ u % n) % n) ^ b % n ≡ g ^ ((a + x * u) * b) % n
  server_power =
      let powers = sym (pow-add g a (x * u) ∙ ap (λ (k : ℕ). g ^ a * k) (pow-mul g x u)) in
      let base : g ^ a % n * ((g ^ x % n) ^ u % n) % n ≡ g ^ (a + x * u) % n =
        mod-mul n (g ^ a) ((g ^ x % n) ^ u % n)
        ∙ (ap (λ (k : ℕ). g ^ a * k % n) (pow-mod n (g ^ x) u)
            ∙ (mul-mod n (g ^ a) ((g ^ x) ^ u) ∙ ap (λ (k : ℕ). k % n) powers)) in
      ap (λ (k : ℕ). k ^ b % n) base
      ∙ (pow-mod n (g ^ (a + x * u)) b ∙ ap (λ (k : ℕ). k % n) (sym (pow-mul g (a + x * u) b)))

  client_power :
      (c : ℕ)
      → c ≤ n
      → ((c + g ^ b % n) % n + (n - c)) ^ (a + u * x) % n ≡ g ^ (b * (a + u * x)) % n
  client_power c small =
      let base : ((c + g ^ b % n) % n + (n - c)) % n ≡ g ^ b % n =
        mod-add-mod (c + g ^ b % n) n (n - c)
        ∙ (ap (λ (k : ℕ). k % n)
              (let e : c + g ^ b % n + (n - c) ≡ g ^ b % n + n = omega arith in e)
            ∙ (add-mod_right (g ^ b % n) n ∙ mod-mod (g ^ b) n)) in
      sym (pow-mod n ((c + g ^ b % n) % n + (n - c)) (a + u * x))
      ∙ (ap (λ (k : ℕ). k ^ (a + u * x) % n) base
          ∙ (pow-mod n (g ^ b) (a + u * x) ∙ ap (λ (k : ℕ). k % n) (sym (pow-mul g b (a + u * x)))))

  powers_agree :
      (c : ℕ)
      → c ≤ n
      → ((g ^ a % n) * ((g ^ x % n) ^ u % n) % n) ^ b % n
        ≡ ((c + g ^ b % n) % n + (n - c)) ^ (a + u * x) % n
  powers_agree c small =
      let index : (a + x * u) * b ≡ b * (a + u * x) =
        mul_comm (a + x * u) b ∙ ap (λ (k : ℕ). b * (a + k)) (mul_comm x u) in
      server_power ∙ (ap (λ (k : ℕ). g ^ k % n) index ∙ sym (client_power c small))

module _ (sha_256 : List ℕ → List ℕ) (a x b : ℕ) where
  keys_agree :
      srp_session_key sha_256 (client_ephemeral big_n a) (server sha_256 big_n x b)
      ≡ client_key sha_256 big_n a x (server sha_256 big_n x b).b_pub
  unfolding srp_session_key client_key public_ephemeral
  keys_agree =
      let kv = big_k sha_256 * client_verifier big_n x % big_n in
      let small : kv < big_n = mod-lt (big_k sha_256 * client_verifier big_n x) big_n_positive in
      ap (λ (k : ℕ). sha_256 (pad k))
        (powers_agree big_n big_g a b
          (scramble sha_256 (client_ephemeral big_n a) (server sha_256 big_n x b).b_pub) x kv
          (omega arith))

accepted_lem :
    (sha_256 : List ℕ → List ℕ) (a x : ℕ) (random username salt : List ℕ)
    → ((bs : List ℕ) → All IsByte (sha_256 bs))
    → All IsByte salt
    → IsAccepted sha_256 big_n a x random username salt
unfolding new_server_session verify_client_proof srp_compute_m1
accepted_lem sha_256 a x random username salt hash_bytes salt_bytes =
    let s = server sha_256 big_n x (from_bytes random) in
    let v = client_verifier big_n x in
    let sent = client_ephemeral big_n a in
    (
      rw (decode-encode (to_bytes v) (to_bytes-IsByte v), from_bytes-to_bytes v) refl,
      rw
          (
            decode-encode (to_bytes sent) (to_bytes-IsByte sent),
            from_bytes-to_bytes sent,
            client_ephemeral_not_zero a,
            decode-encode salt salt_bytes,
            keys_agree sha_256 a x (from_bytes random),
            decode-encode (sha_256 _) (hash_bytes _),
            text_eq_refl (sha_256 _),
          )
          refl,
    )

-- For every password key, every secret of the client and all random bytes of the server: the server
-- session of the client's verifier accepts the proof of a client that computes the key by the
-- formula of RFC 5054 with the generator 2 and the 2048-bit prime of RFC 3526, which is given by its
-- own formula, and answers the server proof over the same key. SHA-256 is any function to bytes, and
-- the salt is bytes.
pub verify_client_proof-client :
    (sha_256 : List ℕ → List ℕ) (a x : ℕ) (random username salt : List ℕ)
    → ((bs : List ℕ) → All IsByte (sha_256 bs))
    → All IsByte salt
    → IsAccepted sha_256 rfc_3526_prime a x random username salt
verify_client_proof-client sha_256 a x random username salt hash_bytes salt_bytes =
    subst (λ n. IsAccepted sha_256 n a x random username salt) big_n_lem
      (accepted_lem sha_256 a x random username salt hash_bytes salt_bytes)
