-- ===== src/Framing.antt =====
-- src/framing.rs: the wire frames. A byte is a number below 256, a `[u8; 16]` a list of bytes, and
-- `buf[i]` and `buf[i..j]` are read behind the length tests of the source.
pub mod RoundTrip
pub mod Accepts
pub mod Prefix
use jeangrey.Prelude.{
  ℕ, ◌+◌, ◌≡◌, Bool, true, false, not, ◌&&◌, ◌||◌, Option, none, some, List, [], ◌∷◌, ◌++◌, Result,
  ok, err, ◌>>=◌, ◌>>◌, ensure, ok_or, length, get_or, slice, replicate, leb, ◌==◌, bytes_eq,
  to_be_bytes, from_be_bytes, if◌then◌else◌,
}

abbrev pub version : ℕ
version = 1

abbrev pub max_payload : ℕ
max_payload = 65536

-- 2 + 1 + 1 + 1 + 16 + 4 + 8 + 4
abbrev pub header_len : ℕ
header_len = 37

pub data MessageType : Type 0 where
  hello kem_offer kem_response auth ready message ack error control : MessageType

-- `msg_type as u8`
unfoldable pub to_u8 : MessageType → ℕ
to_u8 hello = 1
to_u8 kem_offer = 2
to_u8 kem_response = 3
to_u8 auth = 4
to_u8 ready = 5
to_u8 message = 6
to_u8 ack = 7
to_u8 error = 8
to_u8 control = 9

unfoldable pub from_u8 : ℕ → Option MessageType
from_u8 v =
    if v == 1
    then some hello
    else if v == 2
    then some kem_offer
    else if v == 3
    then some kem_response
    else if v == 4
    then some auth
    else if v == 5
    then some ready
    else if v == 6
    then some message
    else if v == 7
    then some ack
    else if v == 8
    then some error
    else if v == 9
    then some control
    else none

pub record Frame : Type 0 where
  pub msg_type : MessageType
  pub flags : ℕ
  pub session_id : List ℕ
  pub seq : ℕ
  pub msg_id : ℕ
  pub payload : List ℕ

abbrev pub zero_id : List ℕ
zero_id = replicate 16 0

unfoldable pub handshake : MessageType → List ℕ → Frame
handshake t payload = record {
  msg_type = t;
  flags = 0;
  session_id = zero_id;
  seq = 0;
  msg_id = 0;
  payload = payload;
}

abbrev pub is_session_type : MessageType → Bool
is_session_type message = true
is_session_type ack = true
is_session_type control = true
is_session_type _ = false

unfoldable pub is_session_frame : Frame → Bool
is_session_frame f = is_session_type f.msg_type

pub data FrameError : Type 0 where
  bad_magic truncated session_fields_on_handshake_frame handshake_fields_on_session_frame :
      FrameError
  unsupported_version unknown_type reserved_flags payload_too_large : ℕ → FrameError

unfoldable pub encode : Frame → List ℕ
encode f =
    0x4A
    ∷ 0x47
    ∷ version
    ∷ to_u8 f.msg_type
    ∷ f.flags
    ∷ (f.session_id
        ++ (to_be_bytes 4 f.seq
            ++ (to_be_bytes 8 f.msg_id ++ (to_be_bytes 4 (length f.payload) ++ f.payload))))

-- The `matches!` of `decode`.
abbrev pub is_handshake_type : MessageType → Bool
is_handshake_type hello = true
is_handshake_type kem_offer = true
is_handshake_type kem_response = true
is_handshake_type auth = true
is_handshake_type ready = true
is_handshake_type error = true
is_handshake_type _ = false

-- The session fields that a frame of a type may carry: the end of `decode`.
unfoldable pub check_fields : MessageType → List ℕ → ℕ → ℕ → Result FrameError (Unit {0})
check_fields t session_id seq msg_id =
    if is_handshake_type t
    then ensure (bytes_eq session_id zero_id && (seq == 0 && msg_id == 0))
        session_fields_on_handshake_frame
    else ensure (not (bytes_eq session_id zero_id)) handshake_fields_on_session_frame

-- The fields at their offsets in the header.
abbrev pub session_id_of : List ℕ → List ℕ
session_id_of buf = slice 5 21 buf

abbrev pub seq_of : List ℕ → ℕ
seq_of buf = from_be_bytes (slice 21 25 buf)

abbrev pub msg_id_of : List ℕ → ℕ
msg_id_of buf = from_be_bytes (slice 25 33 buf)

abbrev pub payload_len_of : List ℕ → ℕ
payload_len_of buf = from_be_bytes (slice 33 37 buf)

unfoldable pub decode : List ℕ → Result FrameError Frame
decode buf = do
  ensure (leb header_len (length buf)) truncated
  ensure (get_or buf 0 0 == 0x4A && get_or buf 1 0 == 0x47) bad_magic
  ensure (get_or buf 2 0 == version) (unsupported_version (get_or buf 2 0))
  msg_type ← ok_or (from_u8 (get_or buf 3 0)) (unknown_type (get_or buf 3 0))
  ensure (get_or buf 4 0 == 0) (reserved_flags (get_or buf 4 0))
  ensure (leb (payload_len_of buf) max_payload) (payload_too_large (payload_len_of buf))
  ensure (leb (header_len + payload_len_of buf) (length buf)) truncated
  check_fields msg_type (session_id_of buf) (seq_of buf) (msg_id_of buf)
  ok (record {
    msg_type = msg_type;
    flags = get_or buf 4 0;
    session_id = session_id_of buf;
    seq = seq_of buf;
    msg_id = msg_id_of buf;
    payload = slice header_len (header_len + payload_len_of buf) buf;
  })
