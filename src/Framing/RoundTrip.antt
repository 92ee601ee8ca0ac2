-- ===== src/Framing/RoundTrip.antt =====
-- src/framing.rs: `decode` inverts `encode`, and accepts nothing else.
use jeangrey.Prelude.{
  ℕ, ◌+◌, ◌^◌, ◌≤◌, ◌<◌, ◌≡◌, ◌≢◌, refl, ap, ◌∙◌, append-nil, arith, Bool, true, false, not, ◌&&◌,
  some, List, [], ◌∷◌, ◌++◌, append_assoc, append-nil, ok, ensure, length, slice, slice-middle,
  get_or, length-append, to_be_bytes, from_be_bytes, length-to_be_bytes, from_be_bytes-to_be_bytes,
  IsBytes, bytes_eq, bytes_eq_refl, ne→bytes_eq, le→leb, ==_iff, ◌==◌, if◌then◌else◌,
}
use jeangrey.Framing.{
  MessageType, hello, to_u8, from_u8, Frame, zero_id, version, max_payload, header_len, FrameError,
  encode, is_handshake_type, check_fields, session_id_of, seq_of, msg_id_of, payload_len_of, decode,
}

-- What the session fields of a frame are: zero on a handshake frame, a nonzero id on the others.
abbrev pub FieldsFit : Bool → List ℕ → ℕ → ℕ → Type 0
FieldsFit true session_id seq msg_id = (session_id ≡ zero_id) × (seq ≡ 0) × (msg_id ≡ 0)
FieldsFit false session_id seq msg_id = session_id ≢ zero_id

-- The frames that may travel: the Rust types' ranges, no flags, a payload within the limit.
pub record IsWire (f : Frame) : Type 0 where
  pub no_flags : f.flags ≡ 0
  pub id_len : length f.session_id ≡ 16
  pub id_bytes : IsBytes f.session_id
  pub seq_range : f.seq < 2 ^ 32
  pub msg_id_range : f.msg_id < 2 ^ 64
  pub payload_bytes : IsBytes f.payload
  pub payload_fits : length f.payload ≤ max_payload
  pub fields : FieldsFit (is_handshake_type f.msg_type) f.session_id f.seq f.msg_id

from_u8-to_u8 : (t : MessageType) → from_u8 (to_u8 t) ≡ some t
unfolding from_u8 to_u8
from_u8-to_u8 hello = refl
from_u8-to_u8 _ = refl

check_fields_fit :
    (t : MessageType) (id : List ℕ) (seq msg_id : ℕ)
    → FieldsFit (is_handshake_type t) id seq msg_id
    → check_fields t id seq msg_id ≡ ok tt
unfolding check_fields
check_fields_fit t id seq msg_id h = go (is_handshake_type t) h
  where
    go :
        (b : Bool)
        → FieldsFit b id seq msg_id
        → (if b
            then ensure
                (bytes_eq id zero_id && (seq == 0 && msg_id == 0))
                FrameError.session_fields_on_handshake_frame
            else ensure (not (bytes_eq id zero_id)) FrameError.handshake_fields_on_session_frame)
          ≡ ok tt
    go true (p, q, r) = rw (p, q, r, bytes_eq_refl zero_id)
    go false p = rw (ne→bytes_eq id zero_id p)

-- What `decode` reads off a buffer that it accepts as `f`.
pub record Reads (buf : List ℕ) (f : Frame) : Type 0 where
  pub header : 37 ≤ length buf
  pub magic0 : get_or buf 0 0 ≡ 0x4A
  pub magic1 : get_or buf 1 0 ≡ 0x47
  pub versioned : get_or buf 2 0 ≡ 1
  pub typed : from_u8 (get_or buf 3 0) ≡ some f.msg_type
  pub flagged : get_or buf 4 0 ≡ f.flags
  pub no_flags : f.flags ≡ 0
  pub sized : payload_len_of buf ≡ length f.payload
  pub bounded : length f.payload ≤ max_payload
  pub complete : 37 + length f.payload ≤ length buf
  pub id : session_id_of buf ≡ f.session_id
  pub sequence : seq_of buf ≡ f.seq
  pub message_id : msg_id_of buf ≡ f.msg_id
  pub fits : check_fields f.msg_type f.session_id f.seq f.msg_id ≡ ok tt
  pub body : slice header_len (header_len + length f.payload) buf ≡ f.payload

pub decode_accepts : (buf : List ℕ) (f : Frame) → Reads buf f → decode buf ≡ ok f
unfolding decode
decode_accepts buf f r = rw (
  le→leb 37 (length buf) r.header,
  r.magic0,
  r.magic1,
  r.versioned,
  r.typed,
  r.flagged,
  r.sized,
  r.id,
  r.sequence,
  r.message_id,
  r.body,
  le→leb (length f.payload) max_payload r.bounded,
  le→leb (37 + length f.payload) (length buf) r.complete,
  r.fits,
  (==_iff f.flags 0).1 r.no_flags,
)

module _ (f : Frame) (rest : List ℕ) (w : IsWire f) where
  abbrev head : List ℕ
  head = 0x4A ∷ 0x47 ∷ version ∷ to_u8 f.msg_type ∷ f.flags ∷ []

  abbrev id_end : List ℕ
  id_end = head ++ f.session_id

  abbrev seq_end : List ℕ
  seq_end = id_end ++ to_be_bytes 4 f.seq

  abbrev msg_id_end : List ℕ
  msg_id_end = seq_end ++ to_be_bytes 8 f.msg_id

  abbrev len_end : List ℕ
  len_end = msg_id_end ++ to_be_bytes 4 (length f.payload)

  length-id_end : length id_end ≡ 21
  length-id_end = omega (arith, w.id_len, length-append head f.session_id)

  length-seq_end : length seq_end ≡ 25
  length-seq_end =
      omega (
        arith,
        length-id_end,
        length-append id_end (to_be_bytes 4 f.seq),
        length-to_be_bytes 4 f.seq,
      )

  length-msg_id_end : length msg_id_end ≡ 33
  length-msg_id_end = omega (
    arith,
    length-seq_end,
    length-append seq_end (to_be_bytes 8 f.msg_id),
    length-to_be_bytes 8 f.msg_id,
  )

  length-len_end : length len_end ≡ 37
  length-len_end = omega (
    arith,
    length-msg_id_end,
    length-append msg_id_end (to_be_bytes 4 (length f.payload)),
    length-to_be_bytes 4 (length f.payload),
  )

  abbrev after_id : List ℕ
  after_id =
      to_be_bytes 4 f.seq
      ++ (to_be_bytes 8 f.msg_id ++ (to_be_bytes 4 (length f.payload) ++ (f.payload ++ rest)))

  at_id : encode f ++ rest ≡ head ++ (f.session_id ++ after_id)
  unfolding encode
  at_id = simp append_assoc

  at_seq : encode f ++ rest ≡ id_end ++ after_id
  unfolding encode
  at_seq = simp append_assoc

  at_msg_id :
      encode f ++ rest
      ≡ seq_end
        ++ (to_be_bytes 8 f.msg_id ++ (to_be_bytes 4 (length f.payload) ++ (f.payload ++ rest)))
  unfolding encode
  at_msg_id = simp append_assoc

  at_len :
      encode f ++ rest ≡ msg_id_end ++ (to_be_bytes 4 (length f.payload) ++ (f.payload ++ rest))
  unfolding encode
  at_len = simp append_assoc

  pub at_payload : encode f ++ rest ≡ len_end ++ (f.payload ++ rest)
  unfolding encode
  at_payload = simp append_assoc

  session_id_of-encode : session_id_of (encode f ++ rest) ≡ f.session_id
  session_id_of-encode =
      ap session_id_of at_id
      ∙ slice-middle head f.session_id after_id 5 21 refl (omega (arith, w.id_len))

  seq_of-encode : seq_of (encode f ++ rest) ≡ f.seq
  seq_of-encode =
      ap seq_of at_seq
      ∙ (ap from_be_bytes (
            slice-middle id_end (to_be_bytes 4 f.seq) _ 21 25 length-id_end
              (omega (arith, length-to_be_bytes 4 f.seq)))
          ∙ from_be_bytes-to_be_bytes 4 f.seq w.seq_range)

  msg_id_of-encode : msg_id_of (encode f ++ rest) ≡ f.msg_id
  msg_id_of-encode =
      ap msg_id_of at_msg_id
      ∙ (ap from_be_bytes (
            slice-middle seq_end (to_be_bytes 8 f.msg_id) _ 25 33 length-seq_end
              (omega (arith, length-to_be_bytes 8 f.msg_id)))
          ∙ from_be_bytes-to_be_bytes 8 f.msg_id w.msg_id_range)

  payload_len_of-encode : payload_len_of (encode f ++ rest) ≡ length f.payload
  payload_len_of-encode =
      ap payload_len_of at_len
      ∙ (ap from_be_bytes (
            slice-middle msg_id_end (to_be_bytes 4 (length f.payload)) _ 33 37 length-msg_id_end
              (omega (arith, length-to_be_bytes 4 (length f.payload))))
          ∙ from_be_bytes-to_be_bytes 4 (length f.payload) (omega (arith, w.payload_fits)))

  payload_of-encode :
      slice header_len (header_len + length f.payload) (encode f ++ rest) ≡ f.payload
  payload_of-encode =
      ap (slice header_len (header_len + length f.payload)) at_payload
      ∙ slice-middle len_end f.payload rest header_len _ length-len_end refl

  length-encode_append : length (encode f ++ rest) ≡ 37 + length f.payload + length rest
  length-encode_append = omega (
    arith,
    ap length at_payload,
    length-append len_end (f.payload ++ rest),
    length-append f.payload rest,
    length-len_end,
  )

  pub encode-Reads : Reads (encode f ++ rest) f
  unfolding encode
  encode-Reads = record {
    header = omega (arith, length-encode_append);
    magic0 = refl;
    magic1 = refl;
    versioned = refl;
    typed = from_u8-to_u8 f.msg_type;
    flagged = refl;
    no_flags = w.no_flags;
    sized = payload_len_of-encode;
    bounded = w.payload_fits;
    complete = omega (arith, length-encode_append);
    id = session_id_of-encode;
    sequence = seq_of-encode;
    message_id = msg_id_of-encode;
    fits = check_fields_fit f.msg_type f.session_id f.seq f.msg_id w.fields;
    body = payload_of-encode;
  }

  -- For a frame within the wire's ranges, `decode` of its encoding followed by any bytes gives
  -- the frame.
  pub decode-encode_append : decode (encode f ++ rest) ≡ ok f
  decode-encode_append = decode_accepts (encode f ++ rest) f encode-Reads

-- With nothing behind it, the encoding of a frame decodes to the frame.
pub decode-encode : (f : Frame) → IsWire f → decode (encode f) ≡ ok f
decode-encode f w = rw (append-nil (encode f)) at (decode-encode_append f [] w)

pub length-encode : (f : Frame) → IsWire f → length (encode f) ≡ 37 + length f.payload
length-encode f w = omega (arith, length-encode_append f [] w, length-append (encode f) [])
