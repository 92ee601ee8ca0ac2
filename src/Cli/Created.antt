-- ===== src/Cli/Created.antt =====
-- src/cli.rs: what `jeangrey init` leaves behind.
use jeangrey.Prelude.{ℕ, ◌≤◌, ◌≡◌, refl, true, some, none, List, ok, err, length, le→leb}
use jeangrey.Crates.{Crates}
use jeangrey.Identity.{DeviceIdentity}
use jeangrey.Records.{Codecs}
use jeangrey.Records.RoundTrip.{CodecLaws, nonempty_test}
use jeangrey.Handshake.Hello.{max_user_name}
use jeangrey.Storage.Directory.{
  Storage, StorageCrates, NodeConfig, load_identity, save_identity, save_config, load_config,
  identity_file,
}
use jeangrey.Storage.RoundTrip.{StorageLaws, load_identity-save_identity}
use jeangrey.Cli.Options.{Common, already_exists, unwrap_or, default_port}
use jeangrey.Cli.Init.{Drawn, generate, cmd_init}

module _ (c : Crates) (x : Codecs) (s : StorageCrates c) (codec : CodecLaws c x)
    (laws : StorageLaws c s)
    (config_laws : (f : NodeConfig) → s.config_from_json (s.config_to_json f) ≡ some f) where
  -- The directory after `init`.
  pub record Initialized (common : Common) (d : DeviceIdentity c) (keypair : s.Keypair)
      (after : Storage) : Type 0 where
    pub identity : load_identity c x s true after ≡ ok (some (d, keypair))
    pub config :
        load_config c x s true after
        ≡ ok (record { listen_port = unwrap_or default_port common.listen_port })
    pub once :
        (common : Common) (name : List ℕ) (drawn : Drawn c x s)
        → 1 ≤ length name
        → length name ≤ max_user_name
        → cmd_init c x s true common name drawn after ≡ err already_exists

  -- On a directory without an identity and a file system that works, `cmd_init` with a name of 1
  -- to 64 bytes succeeds; then the identity that it generated, with its transport keypair, and
  -- the port (the default when none was given) are what `load_identity` and `load_config` return,
  -- and a further `cmd_init` with such a name fails because an identity exists. Ids are taken to
  -- have 16 bytes and seeds 32, and seeds, keypairs, files and text codecs to be readable back.
  pub cmd_init-Initialized :
      (common : Common) (name : List ℕ) (drawn : Drawn c x s) (before : Storage)
      (d : DeviceIdentity c)
      → 1 ≤ length name
      → length name ≤ max_user_name
      → length drawn.user_id ≡ 16
      → length drawn.device_uuid ≡ 16
      → before.identity ≡ none
      → generate c x s name drawn ≡ some d
      → (after : Storage) × (cmd_init c x s true common name drawn before ≡ ok after)
        × Initialized common d drawn.keypair after
  unfolding cmd_init generate save_identity save_config load_config load_identity
  cmd_init-Initialized common name drawn before d named fits user_16 uuid_16 empty made =
      let config : NodeConfig = record {
        listen_port = unwrap_or default_port common.listen_port;
      } in
      let configured : Storage = record before { config = some (s.config_to_json config) } in
      let after : Storage = record configured {
        identity = some (s.identity_to_json (identity_file c x s d drawn.keypair));
      } in
      let loads : load_identity c x s true after ≡ ok (some (d, drawn.keypair)) =
        load_identity-save_identity c x s codec laws
          (record { user_id = drawn.user_id; user_name = name }) drawn.secret_key drawn.device_uuid
          drawn.keypair d configured user_16 uuid_16 made in
      (
        after,
        rw
            (
              cmd_init,
              nonempty_test (length name) named,
              le→leb (length name) max_user_name fits,
              load_identity,
              empty,
              made,
            )
            refl,
        record {
          identity = loads;
          config = rw (load_config, config_laws config) refl;
          once = λ other again new_drawn n f.
              rw
                (
                  cmd_init,
                  nonempty_test (length again) n,
                  le→leb (length again) max_user_name f,
                  loads,
                )
                refl;
        },
      )
