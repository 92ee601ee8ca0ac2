-- ===== src/Tests/Toy.antt =====
-- Stand-ins for the crates, just rich enough to satisfy what is assumed of them.
use jeangrey.Prelude.{
  ℕ, ◌+◌, ◌≡◌, ◌≢◌, ◌⊎◌, refl, Bool, true, false, Option, some, none, List, [], ◌∷◌, ◌++◌, length,
  take, drop, get_or, replicate, ltb, ◌==◌, ==_iff, ==_refl, bytes_eq, bytes_eq_refl, bytes_eq→eq,
  EqLaws, take_prefix, drop_prefix, length-replicate, if◌then◌else◌, ◌&&◌, &&-parts, IsBytes, arith,
  ltb→lt,
}
use jeangrey.Crates.{
  ip4, tcp, Crates, AeadLaws, PeerIdLaws, AddrLaws, HashLaws, SignatureLaws, KemLaws, HkdfLaws,
}

abbrev seal_toy : List ℕ → List ℕ → List ℕ → List ℕ → List ℕ
seal_toy key nonce aad text = (nonce ++ aad) ++ text

abbrev open_toy : List ℕ → List ℕ → List ℕ → List ℕ → Option (List ℕ)
open_toy key nonce aad box =
    let tag = nonce ++ aad in
    if bytes_eq (take (length tag) box) tag then some (drop (length tag) box) else none

-- Keys and peer ids are numbers, addresses are their own text, and secrets are repeated coins.
abbrev pub toy : Crates
toy = record {
  encrypt = seal_toy;
  decrypt = open_toy;
  sha256 = λ bs. bs;
  hkdf_expand = λ salt ikm info n. replicate n (get_or ikm 0 0 + length info);
  SigningKey = ℕ;
  VerifyingKey = ℕ;
  verifying_key = λ k. k;
  sign = λ k m coins. k ∷ replicate 3308 0;
  sig_is_valid = λ s. true;
  verify_with_context = λ k m s. get_or s 0 0 == k;
  key_encode = λ k. k ∷ replicate 1951 0;
  key_decode = λ bs. get_or bs 0 0;
  DecapsulationKey = ℕ;
  kem_generate = λ coins. (coins ∷ replicate 1183 0, coins);
  kem_encapsulate = λ ek seed. some (seed ∷ replicate 1087 0, replicate 32 seed);
  kem_decapsulate = λ dk ct. some (replicate 32 (get_or ct 0 0));
  is_utf8 = λ bs. true;
  PeerId = ℕ;
  peer_eq = λ a b. a == b;
  peer_lt = ltb;
  peer_to_bytes = λ p. 0x12 ∷ 0x20 ∷ p ∷ [];
  peer_from_bytes = λ bs. some (get_or bs 2 0);
  peer_to_base58 = λ p. p ∷ [];
  peer_from_str = λ bs. some (get_or bs 0 0);
  Multiaddr = List ℕ;
  addr_to_string = λ a. a;
  addr_from_str = λ a. some a;
  protocols = λ a. ip4 a ∷ tcp 4001 ∷ [];
  addr_eq = bytes_eq;
  with_circuit = λ a p. a ++ (p ∷ []);
  display_v4 = λ octets. octets;
  display_v6 = λ octets. octets;
  display_u16 = λ n. n ∷ [];
}

pub toy-AeadLaws : AeadLaws toy
toy-AeadLaws = record {
  decrypt-encrypt = λ key nonce aad text.
      rw
        (
          take_prefix (length (nonce ++ aad)) (nonce ++ aad) text refl,
          bytes_eq_refl (nonce ++ aad),
          drop_prefix (length (nonce ++ aad)) (nonce ++ aad) text refl,
        )
        refl;
}

toy-lt_asym : (a b : ℕ) → ltb a b ≡ true → ltb b a ≡ false
toy-lt_asym a b h = ground arith

toy-lt_total : (a b : ℕ) → a ≢ b → (ltb a b ≡ true) ⊎ (ltb b a ≡ true)
toy-lt_total a b ne = ground arith

pub toy-PeerIdLaws : PeerIdLaws toy
toy-PeerIdLaws = record {
  eq→≡ = λ a b h. (==_iff a b).0 h;
  eq_refl = ==_refl;
  lt_asym = toy-lt_asym;
  lt_total = toy-lt_total;
}

pub toy-AddrLaws : AddrLaws toy
toy-AddrLaws = record { from_str-to_string = λ a. refl; to_string_utf8 = λ a. refl }

pub toy-HashLaws : HashLaws toy
toy-HashLaws = record { peer_of_multihash = λ pk. (get_or pk 0 0, refl) }

pub toy-SignatureLaws : SignatureLaws toy
toy-SignatureLaws = record {
  length-key_encode = λ k. omega (arith, length-replicate {A = ℕ} 1951 0);
  key_decode-key_encode = λ k. refl;
  length-sign = λ k m coins. omega (arith, length-replicate {A = ℕ} 3308 0);
  sign_valid = λ k m coins. refl;
  sign_verifies = λ k m coins. ==_refl k;
}

pub toy-KemLaws : KemLaws toy
toy-KemLaws = record {
  length-key = λ coins. omega (arith, length-replicate {A = ℕ} 1183 0);
  round_trip = λ coins seed. (
    seed ∷ replicate 1087 0,
    replicate 32 seed,
    refl,
    refl,
    omega (arith, length-replicate {A = ℕ} 1087 0),
  );
}

pub toy-HkdfLaws : HkdfLaws toy
toy-HkdfLaws = record {
  length-hkdf_expand = λ salt ikm info n. length-replicate n (get_or ikm 0 0 + length info);
}

abbrev pub is_bytes : List ℕ → Bool
is_bytes [] = true
is_bytes (x ∷ xs) = ltb x 256 && is_bytes xs

-- A list is shown to be bytes by running the test.
pub is_bytes→IsBytes : (xs : List ℕ) → is_bytes xs ≡ true → IsBytes xs
is_bytes→IsBytes [] h = tt
is_bytes→IsBytes (x ∷ xs) h =
    let (p, q) = &&-parts (ltb x 256) (is_bytes xs) h in (ltb→lt x 256 p, is_bytes→IsBytes xs q)

pub toy-keys : EqLaws toy.addr_eq
toy-keys = record { eq→≡ = bytes_eq→eq; eq_refl = bytes_eq_refl }
