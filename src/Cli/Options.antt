-- ===== src/Cli/Options.antt =====
-- src/cli.rs: the options of a node, from the command line and the stored configuration. Choosing the data
-- directory and parsing the arguments is left to the caller.
use jeangrey.Prelude.{ℕ, Bool, Option, some, none, List, [], ◌∷◌, Result, ok, err, ok_or, ◌>>=◌}
use jeangrey.Crates.{Crates}
use jeangrey.Records.{Codecs}
use jeangrey.Storage.Directory.{
  Storage, StorageCrates, StorageError, load_config, load_identity, Loaded,
}
use jeangrey.Node.State.{Node, Env, NodeOptions, NodeError, BootstrapPeer, PeerSyntax, parse_peer}
use jeangrey.Node.Maintenance.{new}

abbrev pub default_port : ℕ
default_port = 9000

-- `Common` without the data directory.
pub record Common : Type 0 where
  pub listen_port : Option ℕ
  pub bootstrap : List (List ℕ)
  pub relay : List (List ℕ)
  pub relay_server : Bool

pub data CliError : Type 0 where
  storage_error : StorageError → CliError
  peer_syntax : PeerSyntax → CliError
  node_error : NodeError → CliError
  no_identity empty_name name_too_long already_exists : CliError

abbrev pub map_err : {E F A : Type 0} → (E → F) → Result E A → Result F A
map_err f (ok a) = ok a
map_err f (err e) = err (f e)

abbrev pub unwrap_or : {A : Type 0} → A → Option A → A
unwrap_or a none = a
unwrap_or a (some b) = b

module _ (c : Crates) where
  unfoldable pub parse_peers : List (List ℕ) → Result CliError (List BootstrapPeer)
  parse_peers [] = ok []
  parse_peers (s ∷ rest) = do
    bp ← map_err peer_syntax (parse_peer c s)
    others ← parse_peers rest
    ok (bp ∷ others)

  -- The last relay counts.
  abbrev pub last_relay :
      Option BootstrapPeer → List (List ℕ) → Result CliError (Option BootstrapPeer)
  last_relay relay [] = ok relay
  last_relay relay (s ∷ rest) =
      map_err peer_syntax (parse_peer c s) >>= λ bp. last_relay (some bp) rest

module _ (c : Crates) (x : Codecs) (s : StorageCrates c) where
  unfoldable pub build_options : Bool → Common → Storage → Result CliError NodeOptions
  unfolding parse_peers
  build_options readable common storage = do
    config ← map_err storage_error (load_config c x s readable storage)
    bootstrap ← parse_peers c common.bootstrap
    relay ← last_relay c none common.relay
    ok (record {
      listen_port = unwrap_or config.listen_port common.listen_port;
      bootstrap = bootstrap;
      external_ips = [];
      relay = relay;
      relay_server = common.relay_server;
    })

  -- `load_identity` of the command line: an identity is required.
  unfoldable pub require_identity : Bool → Storage → Result CliError (Loaded c x s)
  require_identity readable storage =
      map_err storage_error (load_identity c x s readable storage) >>= λ loaded.
      ok_or loaded no_identity >>= ok

  unfoldable pub new_node :
      Bool → Common → (c.Multiaddr → Bool) → Env c → Storage → Result CliError (Node c)
  unfolding build_options require_identity
  new_node readable common can_listen env storage = do
    options ← build_options readable common storage
    loaded ← require_identity readable storage
    map_err node_error (new c x loaded.0 options can_listen env) >>= ok
