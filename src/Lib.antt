-- ===== src/Lib.antt =====
-- A model of JeanGrey, a peer-to-peer messenger with a post-quantum handshake, and the theorems that make
-- its protocol core correct. Paths are those of the repository.
--
-- The program's parts. `src/framing.rs` is the wire format. `src/handshake.rs` establishes keys with a peer
-- by exchanging five kinds of frame. `src/session.rs` seals and opens messages, acknowledgements and control
-- frames with those keys. `src/transport.rs` runs handshake and session on a libp2p stream, and `src/node.rs`
-- drives it with lookups, address validation and reconnects; `src/records.rs` signs address records,
-- `src/storage.rs` keeps the identity and `src/cli.rs` is the command line.
--
-- The model's files.
--   Prelude        Boolean tests, results with `?` as a do block, slices, big-endian integers.
--   Crates         the code outside the repository as a record of operations, with the laws relied upon.
--   Crypto         src/crypto.rs: the wrappers' size checks and the key derivation.
--   Identity       src/identity.rs: identities, `peer_id_of`, `assemble`.
--   Framing        src/framing.rs: `encode`, `decode`. RoundTrip, Accepts and Prefix hold the proofs.
--   Handshake      src/handshake.rs: Hello (`encode_hello`, `decode_hello`), Transcript (`build_transcript`,
--                  `combine_shared_secrets`, `select_keys`), Machine (`new`, `on_frame` and the handlers).
--                  Stages lists the states that can be reached, Steps shows each handler to move among them,
--                  Authentic and Stalled draw the conclusions; RoundTrip and Agreement compare the two
--                  sides; Exchange, Honest, Liveness and Completes run two devices.
--   Session        src/session.rs: State, Plaintext, Frames (`encrypt_*`, `handle_frame`), Establish
--                  (`Session::new`). Channel, Parse, Delivery, Replay and Nonces hold the proofs.
--   Records        src/records.rs: `sign_addr_record`, `verify_addr_record` and the signed bytes. Signed,
--                  Verified and RoundTrip hold the proofs.
--   Transport      src/transport.rs: `poll_read_once` with its loop, which cuts the byte stream into frames. Limit and
--                  Reassembly hold the proofs.
--   Behaviour      src/transport.rs: `SessionBehaviour`. State (the maps and the command queue), Send (`connect`,
--                  `send_message` and the control frames), Receive (`on_handler_event` and what it calls), Swarm
--                  (connection events and `poll`). Acknowledge and Drop hold the proofs.
--   Storage        src/storage.rs: History (`HistoryKind`), Directory (`load_identity`, `save_identity`, the
--                  configuration and the history file). RoundTrip holds the proofs.
--   Node           src/node.rs: State (`Node` with its data and constants), Addresses (`filter_local_addrs`,
--                  `refresh_local_addresses`, `publish_record`), Probes (observed addresses and dial-backs),
--                  Discovery (look-ups, the cache of records, dials), Events (`on_session_event`), Swarm
--                  (`handle_event`), Maintenance (`Node::new`, `maintenance`), Interactive (`run_interactive`).
--                  View names the fields that the invariants read; Frames and Others show who leaves them alone.
--                  Candidates, Listing, Invariant, Preserved and Handled show who keeps the invariants; Reachable
--                  has the runs and Runs their conclusions. Provenance, Withdrawn and Answered trace published
--                  addresses; Cache, Retries, Filter, Discovered and Reconnect hold the other proofs.
--   Cli            src/cli.rs: Options (`build_options`, `new_node`), Init (`cmd_init`), Repl (the interactive
--                  line). Created holds the proof.
--   Tests          concrete runs, over stand-in crates that satisfy the laws (Toy).
--
-- Conventions. Bytes are numbers, and a `String` is the list of its UTF-8 bytes. A `u32` or `u64` is a
-- number, with `checked_add` and wrapping arithmetic written out. A call that draws randomness or reads the
-- clock takes the value as an argument. A `&mut self` method returns the new state; a panic is a value. Every
-- recursion is structural, so no fuel is used. A node's calls into libp2p and the history file are kept as a list of
-- commands, and one call reads its clock once.
--
-- Not modelled: the arguments and the one-shot commands of `src/cli.rs`; the write queue and the substream
-- negotiation of `SessionHandler`; the building of the libp2p transport in `Node::new` and the run loops over it;
-- the async runtime, libp2p's swarm, Kademlia, the file system and the terminal, which are input and
-- output; log lines and the printing of errors; the cryptographic algorithms, which are parameters with
-- functional laws only, so that no statement here is about their secrecy.
pub mod Prelude
pub mod Crates
pub mod Crypto
pub mod Identity
pub mod Framing
pub mod Handshake
pub mod Session
pub mod Records
pub mod Transport
pub mod Behaviour
pub mod Storage
pub mod Node
pub mod Cli
mod Tests
