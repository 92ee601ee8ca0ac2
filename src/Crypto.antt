-- ===== src/Crypto.antt =====
-- src/crypto.rs: the wrappers around the cryptographic crates. The crates are a parameter.
use jeangrey.Prelude.{
  ℕ, Bool, false, Option, some, none, List, Result, ok, ◌>>=◌, ◌>>◌, ensure, ok_or, length, ◌==◌,
  codes, if◌then◌else◌,
}
use jeangrey.Crates.{Crates}

-- `kem`
abbrev pub ek_len : ℕ
ek_len = 1184

abbrev pub ct_len : ℕ
ct_len = 1088

pub data KemError : Type 0 where
  bad_key_size bad_ciphertext_size : ℕ → KemError
  encapsulation_failed decapsulation_failed : KemError

-- `mldsa`
abbrev pub pubkey_len : ℕ
pubkey_len = 1952

abbrev pub sig_len : ℕ
sig_len = 3309

-- `kdf`
abbrev pub session_id_len : ℕ
session_id_len = 16

abbrev pub aead_key_len : ℕ
aead_key_len = 32

pub record SessionKeys : Type 0 where
  pub session_id : List ℕ
  pub a_to_b : List ℕ
  pub b_to_a : List ℕ

module _ (c : Crates) where
  -- The ciphertext and the shared secret.
  unfoldable pub encapsulate : List ℕ → ℕ → Result KemError (List ℕ × List ℕ)
  encapsulate ek coins = do
    ensure (length ek == ek_len) (bad_key_size (length ek))
    ok_or (c.kem_encapsulate ek coins) encapsulation_failed >>= ok

  unfoldable pub decapsulate : c.DecapsulationKey → List ℕ → Result KemError (List ℕ)
  decapsulate dk ct = do
    ensure (length ct == ct_len) (bad_ciphertext_size (length ct))
    ok_or (c.kem_decapsulate dk ct) decapsulation_failed >>= ok

  unfoldable pub verify : c.VerifyingKey → List ℕ → List ℕ → Bool
  verify pk message sig =
      if length sig == sig_len
      then (if c.sig_is_valid sig then c.verify_with_context pk message sig else false)
      else false

  unfoldable pub pubkey_from_bytes : List ℕ → Option c.VerifyingKey
  pubkey_from_bytes bytes = if length bytes == pubkey_len then some (c.key_decode bytes) else none

  unfoldable pub derive_session_keys : List ℕ → List ℕ → SessionKeys
  derive_session_keys ikm transcript = record {
    session_id = c.hkdf_expand transcript ikm (codes "jeangrey/mvp1/session-id/v1") session_id_len;
    a_to_b = c.hkdf_expand transcript ikm (codes "jeangrey/mvp1/aead/a-to-b/v1") aead_key_len;
    b_to_a = c.hkdf_expand transcript ikm (codes "jeangrey/mvp1/aead/b-to-a/v1") aead_key_len;
  }
