-- ===== src/Storage/Directory.antt =====
-- src/storage.rs: the data directory with its three files, and what is read from and written to them. Whether
-- the file system carries an operation out is an argument.
use jeangrey.Prelude.{
  ℕ, Bool, Option, some, none, List, ◌++◌, [], ◌∷◌, Result, ok, ok_or, ensure, ◌>>=◌, ◌>>◌, length,
  ◌==◌, bytes_eq, codes, if◌then◌else◌,
}
use jeangrey.Crates.{Crates}
use jeangrey.Identity.{DeviceIdentity, assemble}
use jeangrey.Records.{Codecs, sixteen}
use jeangrey.Storage.History.{HistoryKind, sent, received}

abbrev pub seed_len : ℕ
seed_len = 32

pub record IdentityFile : Type 0 where
  pub v : ℕ
  pub user_id_hex : List ℕ
  pub user_name : List ℕ
  pub device_uuid_hex : List ℕ
  pub mldsa_seed_b64 : List ℕ
  pub transport_keypair_b64 : List ℕ
  pub peer_id_b58 : List ℕ

pub record NodeConfig : Type 0 where
  pub listen_port : ℕ

-- The parts of `ml-dsa`, `libp2p` and `serde_json` that storage uses.
pub record StorageCrates (c : Crates) : Type 1 where
  pub key_from_seed : List ℕ → c.SigningKey
  pub key_seed : c.SigningKey → List ℕ
  pub Keypair : Type 0
  pub keypair_to_bytes : Keypair → List ℕ
  pub keypair_from_bytes : List ℕ → Option Keypair
  pub keypair_peer : Keypair → c.PeerId
  pub identity_to_json : IdentityFile → List ℕ
  pub identity_from_json : List ℕ → Option IdentityFile
  pub config_to_json : NodeConfig → List ℕ
  pub config_from_json : List ℕ → Option NodeConfig
  -- `Display` of a `u64`
  pub display_u64 : ℕ → List ℕ

-- `panicked` is the `expect` of `peer_id_of`.
pub data StorageError : Type 0 where
  io corrupt panicked : StorageError

pub record Storage : Type 0 where
  pub identity : Option (List ℕ)
  pub config : Option (List ℕ)
  pub history : List (List ℕ)

-- The file's text, `none` when it cannot be read.
abbrev pub read_to_string : Bool → List ℕ → Option (List ℕ)
read_to_string readable text = if readable then some text else none

-- `try_into` of an array of the seed's length
abbrev pub seed_array : List ℕ → Option (List ℕ)
seed_array bytes = if length bytes == seed_len then some bytes else none

module _ (c : Crates) (x : Codecs) (s : StorageCrates c) where
  -- An identity and its transport keypair, which fixes `transport_peer_id`.
  abbrev pub Loaded : Type 0
  Loaded = DeviceIdentity c × s.Keypair

  unfoldable pub decode_keypair : List ℕ → Option s.Keypair
  decode_keypair text = elim (x.b64_decode text) [
    | none ↦ none
    | some bytes ↦ s.keypair_from_bytes bytes
  ]

  unfoldable pub encode_keypair : s.Keypair → List ℕ
  encode_keypair kp = x.b64_encode (s.keypair_to_bytes kp)

  -- The text of `identity.json`, read back.
  unfoldable pub parse_identity : List ℕ → Result StorageError Loaded
  unfolding decode_keypair
  parse_identity text = do
    file ← ok_or (s.identity_from_json text) corrupt
    seed_bytes ← ok_or (x.b64_decode file.mldsa_seed_b64) corrupt
    seed ← ok_or (seed_array seed_bytes) corrupt
    device_uuid ← ok_or (sixteen (x.hex_decode file.device_uuid_hex)) corrupt
    user_id ← ok_or (sixteen (x.hex_decode file.user_id_hex)) corrupt
    keypair ← ok_or (decode_keypair file.transport_keypair_b64) corrupt
    identity ←
        ok_or
          (assemble c (record { user_id = user_id; user_name = file.user_name })
            (s.key_from_seed seed) device_uuid (s.keypair_peer keypair))
          panicked
    ensure (bytes_eq (c.peer_to_base58 identity.peer_id) file.peer_id_b58) corrupt
    ok (identity, keypair)

  unfoldable pub load_identity : Bool → Storage → Result StorageError (Option Loaded)
  unfolding parse_identity
  load_identity readable storage = elim storage.identity [
    | none ↦ ok none
    | some text ↦ ok_or (read_to_string readable text) io >>= λ t.
        parse_identity t >>= λ loaded. ok (some loaded)
  ]

  abbrev pub identity_file : DeviceIdentity c → s.Keypair → IdentityFile
  identity_file identity keypair = record {
    v = 1;
    user_id_hex = x.hex_encode identity.user.user_id;
    user_name = identity.user.user_name;
    device_uuid_hex = x.hex_encode identity.device_uuid;
    mldsa_seed_b64 = x.b64_encode (s.key_seed identity.secret_key);
    transport_keypair_b64 = x.b64_encode (s.keypair_to_bytes keypair);
    peer_id_b58 = c.peer_to_base58 identity.peer_id;
  }

  -- `write_atomic` replaces the whole file or leaves it.
  unfoldable pub save_identity :
      Bool → DeviceIdentity c → s.Keypair → Storage → Result StorageError Storage
  save_identity written identity keypair storage = do
    ensure written io
    ok (record storage { identity = some (s.identity_to_json (identity_file identity keypair)) })

  unfoldable pub load_config : Bool → Storage → Result StorageError NodeConfig
  load_config readable storage = elim storage.config [
    | none ↦ ok (record { listen_port = 9000 })
    | some text ↦
        ok_or (read_to_string readable text) io >>= λ t. ok_or (s.config_from_json t) corrupt >>= ok
  ]

  unfoldable pub save_config : Bool → NodeConfig → Storage → Result StorageError Storage
  save_config written config storage = do
    ensure written io
    ok (record storage { config = some (s.config_to_json config) })

  -- 34 is the quotation mark.
  unfoldable pub as_json : ℕ → HistoryKind → List ℕ
  as_json now_ms (sent peer msg_id status) =
      let q : List ℕ = 34 ∷ [] in
      codes "{"
      ++ q
      ++ codes "event"
      ++ q
      ++ codes ":"
      ++ q
      ++ codes "sent"
      ++ q
      ++ codes ","
      ++ q
      ++ codes "peer"
      ++ q
      ++ codes ":"
      ++ q
      ++ peer
      ++ q
      ++ codes ","
      ++ q
      ++ codes "msg_id"
      ++ q
      ++ codes ":"
      ++ s.display_u64 msg_id
      ++ codes ","
      ++ q
      ++ codes "status"
      ++ q
      ++ codes ":"
      ++ q
      ++ status
      ++ q
      ++ codes ","
      ++ q
      ++ codes "ts_ms"
      ++ q
      ++ codes ":"
      ++ s.display_u64 now_ms
      ++ codes "}"
  as_json now_ms (received peer msg_id) =
      let q : List ℕ = 34 ∷ [] in
      codes "{"
      ++ q
      ++ codes "event"
      ++ q
      ++ codes ":"
      ++ q
      ++ codes "received"
      ++ q
      ++ codes ","
      ++ q
      ++ codes "peer"
      ++ q
      ++ codes ":"
      ++ q
      ++ peer
      ++ q
      ++ codes ","
      ++ q
      ++ codes "msg_id"
      ++ q
      ++ codes ":"
      ++ s.display_u64 msg_id
      ++ codes ","
      ++ q
      ++ codes "ts_ms"
      ++ q
      ++ codes ":"
      ++ s.display_u64 now_ms
      ++ codes "}"

  unfoldable pub append_history : Bool → ℕ → HistoryKind → Storage → Result StorageError Storage
  unfolding as_json
  append_history written now_ms entry storage = do
    ensure written io
    ok (record storage { history = storage.history ++ (as_json now_ms entry ∷ []) })
