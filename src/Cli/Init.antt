-- ===== src/Cli/Init.antt =====
-- src/cli.rs: `jeangrey init`. What `DeviceIdentity::generate` draws is an argument; the printed lines are left out.
use jeangrey.Prelude.{
  ℕ, Bool, not, Option, List, Result, ok, ok_or, ◌>>=◌, ◌>>◌, ensure, length, leb, ◌==◌, is_none,
}
use jeangrey.Crates.{Crates}
use jeangrey.Identity.{DeviceIdentity, assemble}
use jeangrey.Records.{Codecs}
use jeangrey.Handshake.Hello.{max_user_name}
use jeangrey.Storage.Directory.{
  Storage, StorageCrates, panicked, load_identity, save_identity, save_config,
}
use jeangrey.Cli.Options.{
  Common, CliError, storage_error, empty_name, name_too_long, already_exists, map_err, unwrap_or,
  default_port,
}

module _ (c : Crates) (x : Codecs) (s : StorageCrates c) where
  -- The random values of a new identity.
  pub record Drawn : Type 0 where
    pub user_id : List ℕ
    pub secret_key : c.SigningKey
    pub device_uuid : List ℕ
    pub keypair : s.Keypair

  -- `DeviceIdentity::generate`; `none` is the panic of `peer_id_of`.
  unfoldable pub generate : List ℕ → Drawn → Option (DeviceIdentity c)
  generate name drawn =
      assemble c (record { user_id = drawn.user_id; user_name = name }) drawn.secret_key
        drawn.device_uuid (s.keypair_peer drawn.keypair)

  -- `works` is whether the file system carries out the reads and the writes.
  unfoldable pub cmd_init : Bool → Common → List ℕ → Drawn → Storage → Result CliError Storage
  unfolding generate
  cmd_init works common name drawn storage = do
    ensure (not (length name == 0)) empty_name
    ensure (leb (length name) max_user_name) name_too_long
    existing ← map_err storage_error (load_identity c x s works storage)
    ensure (is_none existing) already_exists
    identity ← ok_or (generate name drawn) (storage_error panicked)
    saved ← map_err storage_error (save_identity c x s works identity drawn.keypair storage)
    map_err storage_error (
          save_config c x s works
            (record { listen_port = unwrap_or default_port common.listen_port }) saved)
        >>= ok
