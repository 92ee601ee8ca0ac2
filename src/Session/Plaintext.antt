-- ===== src/Session/Plaintext.antt =====
-- src/session.rs: the plaintexts of messages, acknowledgements and control frames, and
-- `parse_plaintext`. The slices are read behind the length tests of the source.
use jeangrey.Prelude.{
  ℕ, ◌+◌, ◌-◌, Bool, true, false, not, ◌&&◌, ◌||◌, List, [], ◌∷◌, ◌++◌, Result, ok, err, ◌>>=◌,
  ◌>>◌, ensure, ok_or, length, get_or, take, drop, slice, leb, ◌==◌, to_be_bytes, from_be_bytes,
  if◌then◌else◌,
}
use jeangrey.Crates.{Crates}
use jeangrey.Framing.{MessageType, message, ack, control}
use jeangrey.Session.State.{
  Session, Inbound, message_in, ack_in, observed_addr, dial_back_req, dial_back_res, IpAddr, v4, v6,
  SessionError, malformed_plaintext, msg_tag, ack_tag, observed_addr_tag, dial_back_req_tag,
  dial_back_res_tag, max_control_addr_bytes,
}

unfoldable pub message_plaintext : List ℕ → ℕ → List ℕ
message_plaintext text ts = msg_tag ∷ (to_be_bytes 8 ts ++ text)

unfoldable pub ack_plaintext : ℕ → ℕ → ℕ → List ℕ
ack_plaintext ack_msg_id ack_seq ts =
    ack_tag ∷ (to_be_bytes 8 ack_msg_id ++ (to_be_bytes 4 ack_seq ++ to_be_bytes 8 ts))

abbrev ip_bytes : IpAddr → List ℕ
ip_bytes (v4 octets) = 4 ∷ octets
ip_bytes (v6 octets) = 16 ∷ octets

unfoldable pub observed_addr_plaintext : IpAddr → ℕ → List ℕ
observed_addr_plaintext ip port = observed_addr_tag ∷ (ip_bytes ip ++ to_be_bytes 2 port)

-- `reachable as u8`
abbrev pub bool_byte : Bool → ℕ
bool_byte true = 1
bool_byte false = 0

abbrev min_len : ℕ → ℕ
min_len n = if leb n max_control_addr_bytes then n else max_control_addr_bytes

module _ (c : Crates) where
  -- The release build's `push_addr`: the `debug_assert!` is not in it.
  unfoldable pub addr_bytes : c.Multiaddr → List ℕ
  addr_bytes addr =
      let s = c.addr_to_string addr in
      to_be_bytes 2 (min_len (length s)) ++ take (min_len (length s)) s

  unfoldable pub dial_back_req_plaintext : c.Multiaddr → List ℕ
  unfolding addr_bytes
  dial_back_req_plaintext addr = dial_back_req_tag ∷ addr_bytes addr

  unfoldable pub dial_back_res_plaintext : c.Multiaddr → Bool → List ℕ
  unfolding addr_bytes
  dial_back_res_plaintext addr reachable =
      dial_back_res_tag ∷ (addr_bytes addr ++ (bool_byte reachable ∷ []))

  unfoldable pub take_addr_with_rest : List ℕ → Result SessionError (c.Multiaddr × List ℕ)
  take_addr_with_rest pt = do
    ensure (leb 4 (length pt)) malformed_plaintext
    let len = from_be_bytes (slice 1 3 pt)
    ensure (not (len == 0) && leb len max_control_addr_bytes) malformed_plaintext
    ensure (leb (3 + len) (length pt)) malformed_plaintext
    ensure (c.is_utf8 (slice 3 (3 + len) pt)) malformed_plaintext
    addr ← ok_or (c.addr_from_str (slice 3 (3 + len) pt)) malformed_plaintext
    ok (addr, drop (3 + len) pt)

  unfoldable pub take_addr : List ℕ → Result SessionError c.Multiaddr
  take_addr pt = do (addr, rest) ← take_addr_with_rest pt; ok addr

  -- `self.in_seq - 1` is read after `handle_frame` has advanced `in_seq`, so it is not 0.
  parse_message : Session → ℕ → List ℕ → Result SessionError (Inbound c.Multiaddr)
  parse_message s msg_id pt = do
    ensure (leb 9 (length pt)) malformed_plaintext
    ensure (c.is_utf8 (drop 9 pt)) malformed_plaintext
    ok (message_in (s.in_seq - 1) msg_id (from_be_bytes (slice 1 9 pt)) (drop 9 pt))

  parse_ack : List ℕ → Result SessionError (Inbound c.Multiaddr)
  parse_ack pt = do
    ensure (length pt == 21) malformed_plaintext
    ok (ack_in (from_be_bytes (slice 1 9 pt)) (from_be_bytes (slice 9 13 pt)))

  parse_observed_addr : Session → List ℕ → Result SessionError (Inbound c.Multiaddr)
  parse_observed_addr s pt = do
    ensure (leb 8 (length pt)) malformed_plaintext
    let ip_len = get_or pt 1 0
    ensure (length pt == 1 + 1 + ip_len + 2 && (ip_len == 4 || ip_len == 16)) malformed_plaintext
    let ip = if ip_len == 4 then v4 (slice 2 6 pt) else v6 (slice 2 18 pt)
    ok (observed_addr (s.in_seq - 1) ip (from_be_bytes (slice (2 + ip_len) (2 + ip_len + 2) pt)))

  parse_dial_back_req : Session → List ℕ → Result SessionError (Inbound c.Multiaddr)
  parse_dial_back_req s pt = do addr ← take_addr pt; ok (dial_back_req (s.in_seq - 1) addr)

  parse_dial_back_res : Session → List ℕ → Result SessionError (Inbound c.Multiaddr)
  parse_dial_back_res s pt = do
    ensure (leb 4 (length pt)) malformed_plaintext
    (addr, rest) ← take_addr_with_rest pt
    ensure (length rest == 1) malformed_plaintext
    ok (dial_back_res (s.in_seq - 1) addr (get_or rest 0 0 == 1))

  -- `match (msg_type, tag)` on a plaintext that is not empty.
  parse_tagged : Session → MessageType → ℕ → ℕ → List ℕ → Result SessionError (Inbound c.Multiaddr)
  unfolding parse_message parse_ack parse_observed_addr parse_dial_back_req parse_dial_back_res
  parse_tagged s message msg_id tag pt =
      if tag == msg_tag then parse_message s msg_id pt else err malformed_plaintext
  parse_tagged s ack msg_id tag pt =
      if tag == ack_tag then parse_ack pt else err malformed_plaintext
  parse_tagged s control msg_id tag pt =
      if tag == observed_addr_tag
      then parse_observed_addr s pt
      else if tag == dial_back_req_tag
      then parse_dial_back_req s pt
      else if tag == dial_back_res_tag
      then parse_dial_back_res s pt
      else err malformed_plaintext
  parse_tagged s _ msg_id tag pt = err malformed_plaintext

  unfoldable pub parse_plaintext :
      Session → MessageType → ℕ → List ℕ → Result SessionError (Inbound c.Multiaddr)
  unfolding parse_tagged
  parse_plaintext s t msg_id [] = err malformed_plaintext
  parse_plaintext s t msg_id (tag ∷ rest) = parse_tagged s t msg_id tag (tag ∷ rest)
