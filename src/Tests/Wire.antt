-- ===== src/Tests/Wire.antt =====
-- The frame theorems at one frame, and frames that `decode` refuses.
use jeangrey.Prelude.{
  ℕ, ◌+◌, ◌<◌, ◌≡◌, refl, arith, List, [], ◌∷◌, ◌++◌, ok, err, length, take, take-append-drop, drop,
  IsBytes, to_be_bytes, from_be_bytes, bytes_eq,
}
use jeangrey.Framing.{
  MessageType, Frame, truncated, bad_magic, encode, decode, zero_id, header_len, max_payload, to_u8,
  from_u8, check_fields, payload_len_of,
}
use jeangrey.Tests.Toy.{is_bytes→IsBytes}
use jeangrey.Framing.RoundTrip.{IsWire, decode-encode_append}
use jeangrey.Framing.Accepts.{encode-decode, decode-IsWire}
use jeangrey.Framing.Prefix.{decode_prefix, decode-truncated_bound}

abbrev hello_frame : Frame
hello_frame = record {
  msg_type = MessageType.hello;
  flags = 0;
  session_id = zero_id;
  seq = 0;
  msg_id = 0;
  payload = 7 ∷ 8 ∷ [];
}

hello_frame-IsWire : IsWire hello_frame
hello_frame-IsWire = record {
  no_flags = refl;
  id_len = refl;
  id_bytes = is_bytes→IsBytes zero_id refl;
  seq_range = omega arith;
  msg_id_range = omega arith;
  payload_bytes = is_bytes→IsBytes hello_frame.payload refl;
  payload_fits = omega arith;
  fields = (refl, refl, refl);
}

abbrev wire : List ℕ
wire = encode hello_frame ++ (9 ∷ [])

wire-accepted : decode wire ≡ ok hello_frame
unfolding encode decode to_u8 from_u8 check_fields to_be_bytes from_be_bytes payload_len_of bytes_eq
wire-accepted = refl

wire-IsBytes : IsBytes wire
unfolding encode to_u8 to_be_bytes
wire-IsBytes = is_bytes→IsBytes wire refl

decode_append_example : decode (encode hello_frame ++ (9 ∷ [])) ≡ ok hello_frame
decode_append_example = decode-encode_append hello_frame (9 ∷ []) hello_frame-IsWire

encode_decode_example : encode hello_frame ++ drop (37 + 2) wire ≡ wire
encode_decode_example = encode-decode wire hello_frame wire-accepted wire-IsBytes

IsWire_example : IsWire hello_frame
IsWire_example = decode-IsWire wire hello_frame wire-accepted wire-IsBytes

truncated_example : 2 < header_len + max_payload
unfolding decode
truncated_example = decode-truncated_bound (0x4A ∷ 0x47 ∷ []) refl

short_prefix : length (take 36 (encode hello_frame)) < length (encode hello_frame)
unfolding encode to_u8 to_be_bytes
short_prefix = omega arith

-- The first 36 bytes of the frame.
prefix_example : decode (take 36 (encode hello_frame)) ≡ err truncated
prefix_example =
    decode_prefix hello_frame (take 36 (encode hello_frame)) (drop 36 (encode hello_frame))
      hello_frame-IsWire (take-append-drop 36 (encode hello_frame)) short_prefix

-- A bad magic byte is refused at once.
bad_magic_test : decode (0 ∷ drop 1 wire) ≡ err bad_magic
unfolding encode decode to_u8 to_be_bytes
bad_magic_test = refl
