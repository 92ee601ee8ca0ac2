-- ===== src/Crates.antt =====
-- What the program takes from code outside the repository: the cryptographic crates, libp2p's
-- addresses and peer ids, and the standard library's UTF-8 test. Bytes are numbers, a `String` is the
-- list of its UTF-8 bytes, and the randomness that a call draws is an argument of it.
use jeangrey.Prelude.{ℕ, ◌≡◌, ◌≢◌, ◌⊎◌, Bool, true, false, Option, some, List, ◌∷◌, length}

-- The components of a multiaddr that the program matches on.
pub data Protocol (PeerId : Type 0) : Type 0 where
  ip4 ip6 : List ℕ → Protocol PeerId
  tcp : ℕ → Protocol PeerId
  p2p : PeerId → Protocol PeerId
  p2p_circuit : Protocol PeerId
  other : ℕ → Protocol PeerId

pub record Crates : Type 1 where
  -- `chacha20poly1305`: key, nonce, associated data, text
  pub encrypt : List ℕ → List ℕ → List ℕ → List ℕ → List ℕ
  pub decrypt : List ℕ → List ℕ → List ℕ → List ℕ → Option (List ℕ)
  -- `sha2` and `hkdf`: salt, input, info, output length
  pub sha256 : List ℕ → List ℕ
  pub hkdf_expand : List ℕ → List ℕ → List ℕ → ℕ → List ℕ
  -- `ml-dsa`: signing is randomized; `sig_is_valid` is `Signature::try_from(bytes).is_ok()`
  pub SigningKey : Type 0
  pub VerifyingKey : Type 0
  pub verifying_key : SigningKey → VerifyingKey
  pub sign : SigningKey → List ℕ → ℕ → List ℕ
  pub sig_is_valid : List ℕ → Bool
  pub verify_with_context : VerifyingKey → List ℕ → List ℕ → Bool
  pub key_encode : VerifyingKey → List ℕ
  pub key_decode : List ℕ → VerifyingKey
  -- `ml-kem`: a key pair, encapsulation and decapsulation
  pub DecapsulationKey : Type 0
  pub kem_generate : ℕ → List ℕ × DecapsulationKey
  pub kem_encapsulate : List ℕ → ℕ → Option (List ℕ × List ℕ)
  pub kem_decapsulate : DecapsulationKey → List ℕ → Option (List ℕ)
  -- `std::str::from_utf8(bytes).is_ok()`
  pub is_utf8 : List ℕ → Bool
  -- `libp2p::PeerId`
  pub PeerId : Type 0
  pub peer_eq : PeerId → PeerId → Bool
  pub peer_lt : PeerId → PeerId → Bool
  pub peer_to_bytes : PeerId → List ℕ
  pub peer_from_bytes : List ℕ → Option PeerId
  pub peer_to_base58 : PeerId → List ℕ
  pub peer_from_str : List ℕ → Option PeerId
  -- `libp2p::Multiaddr`
  pub Multiaddr : Type 0
  pub addr_to_string : Multiaddr → List ℕ
  pub addr_from_str : List ℕ → Option Multiaddr
  pub protocols : Multiaddr → List (Protocol PeerId)
  pub addr_eq : Multiaddr → Multiaddr → Bool
  -- `addr.with(Protocol::P2p(peer)).with(Protocol::P2pCircuit)`
  pub with_circuit : Multiaddr → PeerId → Multiaddr
  -- `Display` of `Ipv4Addr`, `Ipv6Addr` and `u16`
  pub display_v4 : List ℕ → List ℕ
  pub display_v6 : List ℕ → List ℕ
  pub display_u16 : ℕ → List ℕ

-- Opening what was sealed under the same key, nonce and associated data gives the text.
pub record AeadLaws (c : Crates) : Type 0 where
  pub decrypt-encrypt :
      (key nonce aad text : List ℕ)
      → c.decrypt key nonce aad (c.encrypt key nonce aad text) ≡ some text

-- `PeerId` has a total order, and its equality test decides equality.
pub record PeerIdLaws (c : Crates) : Type 0 where
  pub eq→≡ : (a b : c.PeerId) → c.peer_eq a b ≡ true → a ≡ b
  pub eq_refl : (a : c.PeerId) → c.peer_eq a a ≡ true
  pub lt_asym : (a b : c.PeerId) → c.peer_lt a b ≡ true → c.peer_lt b a ≡ false
  pub lt_total : (a b : c.PeerId) → a ≢ b → (c.peer_lt a b ≡ true) ⊎ (c.peer_lt b a ≡ true)

-- The printed form of an address is UTF-8 and parses to the address.
pub record AddrLaws (c : Crates) : Type 0 where
  pub from_str-to_string : (a : c.Multiaddr) → c.addr_from_str (c.addr_to_string a) ≡ some a
  pub to_string_utf8 : (a : c.Multiaddr) → c.is_utf8 (c.addr_to_string a) ≡ true

-- A multihash of SHA-256 is a peer id, and the digest has 32 bytes.
pub record HashLaws (c : Crates) : Type 0 where
  pub peer_of_multihash :
      (pk : List ℕ) → (p : c.PeerId) × (c.peer_from_bytes (0x12 ∷ 0x20 ∷ c.sha256 pk) ≡ some p)

-- ML-DSA-65: keys have 1952 bytes and can be read back; a signature has 3309 bytes, is well formed and
-- verifies under the signer's key.
pub record SignatureLaws (c : Crates) : Type 0 where
  pub length-key_encode : (k : c.VerifyingKey) → length (c.key_encode k) ≡ 1952
  pub key_decode-key_encode : (k : c.VerifyingKey) → c.key_decode (c.key_encode k) ≡ k
  pub length-sign : (k : c.SigningKey) (m : List ℕ) (coins : ℕ) → length (c.sign k m coins) ≡ 3309
  pub sign_valid :
      (k : c.SigningKey) (m : List ℕ) (coins : ℕ) → c.sig_is_valid (c.sign k m coins) ≡ true
  pub sign_verifies :
      (k : c.SigningKey) (m : List ℕ) (coins : ℕ)
      → c.verify_with_context (c.verifying_key k) m (c.sign k m coins) ≡ true

-- ML-KEM-768: the sizes, and decapsulation gives the secret that was encapsulated.
pub record KemLaws (c : Crates) : Type 0 where
  pub length-key : (coins : ℕ) → length (c.kem_generate coins).0 ≡ 1184
  pub round_trip :
      (coins seed : ℕ)
      → (ct ss : List ℕ) × (c.kem_encapsulate (c.kem_generate coins).0 seed ≡ some (ct, ss))
        × (c.kem_decapsulate (c.kem_generate coins).1 ct ≡ some ss)
        × (length ct ≡ 1088)

-- HKDF gives as many bytes as it is asked for.
pub record HkdfLaws (c : Crates) : Type 0 where
  pub length-hkdf_expand :
      (salt ikm info : List ℕ) (n : ℕ) → length (c.hkdf_expand salt ikm info n) ≡ n
