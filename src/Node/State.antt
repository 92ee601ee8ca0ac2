-- ===== src/Node/State.antt =====
-- src/node.rs: the constants, the data and the state of `Node`. Times are milliseconds since an origin more
-- than five seconds before the start. What the node asks of libp2p and of the history file is a
-- list of commands, in the order of the calls; log lines are left out.
use jeangrey.Prelude.{
  ℕ, ◌-◌, ◌*◌, Bool, Option, some, none, List, [], ◌∷◌, ◌++◌, codes, ◌==◌, leb, Result, ok, ok_or,
  ◌>>=◌,
}
use jeangrey.Crates.{Crates}
use jeangrey.Identity.{DeviceIdentity}
use jeangrey.Records.{AddrRecord, VerifiedRecord}
use jeangrey.Session.State.{IpAddr}
use jeangrey.Storage.History.{HistoryKind}
use jeangrey.Storage.Directory.{StorageError}
use jeangrey.Behaviour.State.{Behaviour}

abbrev pub secs : ℕ → ℕ
secs n = n * 1000

abbrev pub max_traversal_attempts : ℕ
max_traversal_attempts = 3

abbrev pub publish_interval : ℕ
publish_interval = secs 30

abbrev pub interface_scan_interval : ℕ
interface_scan_interval = secs 5

abbrev pub max_lookup_attempts : ℕ
max_lookup_attempts = 10

abbrev pub lookup_retry_delay : ℕ
lookup_retry_delay = secs 1

abbrev pub reconnect_dial_delay : ℕ
reconnect_dial_delay = secs 2

abbrev pub reconnect_delay : ℕ
reconnect_delay = secs 3

abbrev pub validation_timeout : ℕ
validation_timeout = secs 15

abbrev pub public_revalidate_interval : ℕ
public_revalidate_interval = secs 300

abbrev pub max_validation_attempts : ℕ
max_validation_attempts = 3

abbrev pub probe_timeout : ℕ
probe_timeout = secs 30

-- The peer id and the addresses are texts.
pub record BootstrapPeer : Type 0 where
  pub peer_id : List ℕ
  pub addrs : List (List ℕ)

pub record NodeOptions : Type 0 where
  pub listen_port : ℕ
  pub bootstrap : List BootstrapPeer
  pub external_ips : List IpAddr
  pub relay : Option BootstrapPeer
  pub relay_server : Bool

pub data PeerPath : Type 0 where
  disconnected connecting direct relayed traversing failed : PeerPath

unfoldable pub label : PeerPath → List ℕ
label disconnected = codes "disconnected"
label connecting = codes "connecting"
label direct = codes "direct"
label relayed = codes "via-relay"
label traversing = codes "traversing"
label failed = codes "failed"

pub data CandidateState : Type 0 where
  pending validated : (since : ℕ) → CandidateState
  rejected : (attempts : ℕ) → CandidateState

pub data NatStatus : Type 0 where
  public private unknown : NatStatus

pub data NodeError : Type 0 where
  listen_failed address_invalid : NodeError
  storage_failed : StorageError → NodeError

pub record LookupRequest (c : Crates) : Type 0 where
  pub peer : c.PeerId
  pub attempts : ℕ

pub record LookupRetry (c : Crates) : Type 0 where
  pub peer : c.PeerId
  pub attempts : ℕ
  pub next_at : ℕ

pub record RetryDial (c : Crates) : Type 0 where
  pub peer : c.PeerId
  pub transport : c.PeerId
  pub addrs : List c.Multiaddr
  pub next_at : ℕ

pub record Candidate (c : Crates) : Type 0 where
  pub state : CandidateState
  pub prober : c.PeerId

pub record PendingProbe (c : Crates) : Type 0 where
  pub addr : c.Multiaddr
  pub since : ℕ

-- The calls into the swarm, into Kademlia and into the history file.
pub data Command (c : Crates) : Type 0 where
  put_record : (key value : List ℕ) → Command c
  get_record : (key : List ℕ) → Command c
  kad_bootstrap : Command c
  add_address remove_address : (transport : c.PeerId) (addr : c.Multiaddr) → Command c
  disconnect_peer : (transport : c.PeerId) → Command c
  listen_on add_external_address : (addr : c.Multiaddr) → Command c
  append_history : HistoryKind → Command c

pub record Node (c : Crates) : Type 0 where
  pub session : Behaviour c
  pub identity : DeviceIdentity c
  pub our_record : AddrRecord
  pub current_addrs : List c.Multiaddr
  pub last_publish : ℕ
  pub last_interface_scan : ℕ
  pub last_bootstrap : ℕ
  pub connected : List c.PeerId
  pub bootstrap_pending : List BootstrapPeer
  pub bootstrap_mapped : List c.PeerId
  pub bootstrap_dialing : List c.Multiaddr
  pub pending_lookups : List (ℕ × LookupRequest c)
  pub retry_lookups : List (LookupRetry c)
  pub dialing : List c.PeerId
  pub had_session : List c.PeerId
  pub retry_dials : List (RetryDial c)
  pub records : List (c.PeerId × VerifiedRecord c)
  pub candidates : List (c.Multiaddr × Candidate c)
  pub validated_public_addrs : List c.Multiaddr
  pub pending_probes : List (c.PeerId × PendingProbe c)
  pub listen_port : ℕ
  pub external_ips : List IpAddr
  pub relay : Option BootstrapPeer
  pub relay_server : Bool
  pub relay_transport : Option c.PeerId
  pub relay_dialing : Bool
  pub peer_paths : List (c.PeerId × PeerPath)
  pub traversal_attempts : List (c.PeerId × ℕ)
  pub nat_status : NatStatus
  pub commands : List (Command c)

-- What a call reads from outside: the monotonic clock and the system clock, the coins of a signature, the ids
-- that its loops draw (of messages and of queries), the operating system's interfaces, and the swarm's
-- listeners and number of connected peers.
pub record Env (c : Crates) : Type 0 where
  pub now : ℕ
  pub unix_secs : ℕ
  pub coins : ℕ
  pub draw : ℕ → ℕ
  pub interfaces : Option (List IpAddr)
  pub listeners : List c.Multiaddr
  pub connected_peers : ℕ

-- `t.elapsed() >= d`
abbrev pub elapsed : ℕ → ℕ → ℕ → Bool
elapsed now t d = leb d (now - t)

-- `s.split_once(sep)`
abbrev pub split_once : ℕ → List ℕ → Option (List ℕ × List ℕ)
split_once sep [] = none
split_once sep (b ∷ rest) = elim (b == sep) [
  | Bool.true ↦ some ([], rest)
  | Bool.false ↦ elim (split_once sep rest) [
    | none ↦ none
    | some parts ↦ some (b ∷ parts.0, parts.1)
  ]
]

-- Which text `BootstrapPeer::parse` complains about.
pub data PeerSyntax : Type 0 where
  no_separator invalid_peer_id invalid_multiaddr : PeerSyntax

module _ (c : Crates) where
  -- `BootstrapPeer::parse`; 64 is `@`.
  unfoldable pub parse_peer : List ℕ → Result PeerSyntax BootstrapPeer
  parse_peer s = do
    parts ← ok_or (split_once 64 s) no_separator
    peer ← ok_or (c.peer_from_str parts.0) invalid_peer_id
    addr ← ok_or (c.addr_from_str parts.1) invalid_multiaddr
    ok (record { peer_id = c.peer_to_base58 peer; addrs = c.addr_to_string addr ∷ [] })

  -- `none` is the panic of the `expect`.
  unfoldable pub bootstrap_peer_id : BootstrapPeer → Option c.PeerId
  bootstrap_peer_id bp = c.peer_from_str bp.peer_id

  abbrev pub parse_addrs : List (List ℕ) → List c.Multiaddr
  parse_addrs [] = []
  parse_addrs (a ∷ rest) = elim (c.addr_from_str a) [
    | none ↦ parse_addrs rest
    | some addr ↦ addr ∷ parse_addrs rest
  ]

  unfoldable pub multiaddrs : BootstrapPeer → List c.Multiaddr
  multiaddrs bp = parse_addrs bp.addrs

  abbrev pub issue : Command c → Node c → Node c
  issue command n = record n { commands = n.commands ++ (command ∷ []) }
