-- ===== src/Identity.antt =====
-- src/identity.rs: device identities and the peer id that a device key determines. The transport
-- keypair is libp2p's and only its peer id is used.
use jeangrey.Prelude.{ℕ, Option, some, none, List, ◌∷◌, length, take, leb, if◌then◌else◌}
use jeangrey.Crates.{Crates}

pub record UserIdentity : Type 0 where
  pub user_id : List ℕ
  pub user_name : List ℕ

pub record DeviceIdentity (c : Crates) : Type 0 where
  pub user : UserIdentity
  pub secret_key : c.SigningKey
  pub verifying_key : c.VerifyingKey
  pub device_uuid : List ℕ
  pub transport_peer_id : c.PeerId
  pub peer_id : c.PeerId

module _ (c : Crates) where
  -- 0x12 is sha2-256 and 0x20 the length of its digest; `none` is the panic of the `expect`.
  unfoldable pub peer_id_of : c.VerifyingKey → Option c.PeerId
  peer_id_of vk = c.peer_from_bytes (0x12 ∷ 0x20 ∷ c.sha256 (c.key_encode vk))

  -- `DeviceIdentity::assemble` on a key and a user, as `generate` and `from_seed` call it.
  unfoldable pub assemble :
      UserIdentity → c.SigningKey → List ℕ → c.PeerId → Option (DeviceIdentity c)
  assemble user secret_key device_uuid transport_peer_id =
      elim (peer_id_of (c.verifying_key secret_key)) [
        | none ↦ none
        | some peer_id ↦ some (record {
          user = user;
          secret_key = secret_key;
          verifying_key = c.verifying_key secret_key;
          device_uuid = device_uuid;
          transport_peer_id = transport_peer_id;
          peer_id = peer_id;
        })
      ]

  -- The first ten base58 characters.
  unfoldable pub short_id : c.PeerId → List ℕ
  short_id p = let s = c.peer_to_base58 p in take (if leb (length s) 10 then length s else 10) s
