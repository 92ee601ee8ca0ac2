-- ===== src/Handshake/Hello.antt =====
-- src/handshake.rs: the hello payload, [uuid 16][name_len u16][name][pubkey 1952].
use jeangrey.Prelude.{
  ℕ, ◌+◌, Bool, Option, some, none, List, ◌++◌, length, take, drop, slice, leb, ◌==◌, to_be_bytes,
  from_be_bytes, if◌then◌else◌,
}
use jeangrey.Crates.{Crates}
use jeangrey.Crypto.{pubkey_len, pubkey_from_bytes}
use jeangrey.Identity.{DeviceIdentity}

abbrev pub max_user_name : ℕ
max_user_name = 64

pub record PeerHello (c : Crates) : Type 0 where
  pub pubkey : c.VerifyingKey
  pub device_uuid : List ℕ
  pub user_name : List ℕ

module _ (c : Crates) where
  -- `name.len() as u16` keeps the two low bytes of the length.
  unfoldable pub encode_hello : DeviceIdentity c → List ℕ
  encode_hello identity =
      identity.device_uuid
      ++ (to_be_bytes 2 (length identity.user.user_name)
          ++ (identity.user.user_name ++ c.key_encode identity.verifying_key))

  -- `?` on an `Option`, for a test.
  abbrev guarded {ℓ} : {A : Type ℓ} → Bool → Option A → Option A
  guarded test rest = if test then rest else none

  unfoldable pub decode_hello : List ℕ → Option (PeerHello c)
  decode_hello payload = guarded (leb (16 + 2 + pubkey_len) (length payload)) (
      let name_len = from_be_bytes (slice 16 18 payload) in
      guarded (leb name_len max_user_name) (
        guarded (length payload == 18 + name_len + pubkey_len) (
          guarded (c.is_utf8 (slice 18 (18 + name_len) payload))
            (elim (pubkey_from_bytes c (drop (18 + name_len) payload)) [
              | none ↦ none
              | some pubkey ↦ some (record {
                pubkey = pubkey;
                device_uuid = take 16 payload;
                user_name = slice 18 (18 + name_len) payload;
              })
            ]))))
