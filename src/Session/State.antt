-- ===== src/Session/State.antt =====
-- src/session.rs: the session's state and the values that are computed from it alone.
use Prim.Native.Nat.{bit_or}
use jeangrey.Prelude.{
  ℕ, ◌+◌, ◌-◌, ◌*◌, ◌%◌, ◌^◌, Bool, false, ◌&&◌, ◌||◌, Option, none, some, List, [], ◌∷◌, ◌++◌,
  length, drop, leb, ◌==◌, to_be_bytes, if◌then◌else◌,
}
use jeangrey.Framing.{MessageType, version, to_u8}

abbrev pub max_message_bytes : ℕ
max_message_bytes = 4096

abbrev pub seen_window : ℕ
seen_window = 4096

abbrev pub max_seq_violations : ℕ
max_seq_violations = 5

abbrev pub max_control_addr_bytes : ℕ
max_control_addr_bytes = 512

abbrev pub msg_tag : ℕ
msg_tag = 1

abbrev pub ack_tag : ℕ
ack_tag = 2

abbrev pub observed_addr_tag : ℕ
observed_addr_tag = 3

abbrev pub dial_back_req_tag : ℕ
dial_back_req_tag = 4

abbrev pub dial_back_res_tag : ℕ
dial_back_res_tag = 5

abbrev pub u32_max : ℕ
u32_max = 2 ^ 32 - 1

-- `std::net::IpAddr`, by its octets.
pub data IpAddr : Type 0 where
  v4 v6 : List ℕ → IpAddr

pub data Inbound (Addr : Type 0) : Type 0 where
  message_in : (seq msg_id created_ts_ms : ℕ) (body : List ℕ) → Inbound Addr
  ack_in : (msg_id ack_seq : ℕ) → Inbound Addr
  observed_addr : (seq : ℕ) (ip : IpAddr) (source_port : ℕ) → Inbound Addr
  dial_back_req : (seq : ℕ) (addr : Addr) → Inbound Addr
  dial_back_res : (seq : ℕ) (addr : Addr) (reachable : Bool) → Inbound Addr

pub data SessionError : Type 0 where
  wrong_session replay authentication_failed malformed_plaintext hostile invalid_frame_type :
      SessionError
  message_too_large : ℕ → SessionError

pub record Session : Type 0 where
  pub session_id : List ℕ
  pub send_key : List ℕ
  pub recv_key : List ℕ
  pub my_dir : List ℕ
  pub peer_dir : List ℕ
  pub out_seq : ℕ
  pub in_seq : ℕ
  pub seq_violations : ℕ
  pub seen : List (ℕ × ℕ)

-- `seq.checked_add(1)` on a `u32`
unfoldable pub checked_succ : ℕ → Option ℕ
checked_succ n = if n == u32_max then none else some (n + 1)

-- The associated data: version and type in one byte, session, sequence number, message id.
unfoldable pub aad : Session → MessageType → ℕ → ℕ → List ℕ
aad s t seq msg_id =
    bit_or version (to_u8 t * 16 % 256)
    ∷ (s.session_id ++ (to_be_bytes 4 seq ++ to_be_bytes 8 msg_id))

-- [dir:2][zero:2][seq:4][zero:4]
unfoldable pub nonce : List ℕ → ℕ → List ℕ
nonce dir seq = dir ++ (0 ∷ 0 ∷ (to_be_bytes 4 seq ++ (0 ∷ 0 ∷ 0 ∷ 0 ∷ [])))

-- `VecDeque::pop_front` before `push_back`, once the window is full.
unfoldable pub remember : Session → ℕ → ℕ → Session
remember s seq msg_id = record s {
  seen =
      (if leb seen_window (length s.seen) then drop 1 s.seen else s.seen) ++ ((seq, msg_id) ∷ []);
}

any_seen : ℕ → ℕ → List (ℕ × ℕ) → Bool
any_seen seq msg_id [] = false
any_seen seq msg_id ((s, m) ∷ rest) = (s == seq && m == msg_id) || any_seen seq msg_id rest

unfoldable pub was_seen : Session → ℕ → ℕ → Bool
unfolding any_seen
was_seen s seq msg_id = any_seen seq msg_id s.seen
