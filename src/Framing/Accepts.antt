-- ===== src/Framing/Accepts.antt =====
-- src/framing.rs: what `decode` accepts is exactly the encoding of a frame, and a proper prefix of an
-- encoding is reported as truncated.
use jeangrey.Prelude.{
  ℕ, ◌+◌, ◌^◌, ◌≤◌, ◌<◌, ◌≡◌, refl, sym, ap, subst, ◌∙◌, arith, Bool, true, false, not, ◌&&◌, some,
  List, [], ◌∷◌, ◌++◌, append_assoc, ok, ensure, ensure_inv, ok_or_inv, >>=_inv, ok-injective,
  length, slice, drop, get_or, length-slice, to_be_bytes, from_be_bytes, to_be_bytes-from_be_bytes,
  IsBytes, IsBytes-take, IsBytes-drop, from_be_bytes-lt, ◌-◌, slice-drop, leb→le, ==_iff, bytes_eq,
  bytes_eq→eq, bytes_eq→ne, ◌==◌, if◌then◌else◌,
}
use jeangrey.Framing.{
  MessageType, hello, to_u8, from_u8, Frame, zero_id, version, max_payload, header_len, FrameError,
  encode, is_handshake_type, check_fields, session_id_of, seq_of, msg_id_of, payload_len_of, decode,
}
use jeangrey.Framing.RoundTrip.{FieldsFit, IsWire, Reads}

Reads-of :
    (buf : List ℕ) (f : Frame) (t : MessageType)
    → 37 ≤ length buf
    → (get_or buf 0 0 == 0x4A && get_or buf 1 0 == 0x47) ≡ true
    → (get_or buf 2 0 == version) ≡ true
    → from_u8 (get_or buf 3 0) ≡ some t
    → (get_or buf 4 0 == 0) ≡ true
    → payload_len_of buf ≤ max_payload
    → header_len + payload_len_of buf ≤ length buf
    → check_fields t (session_id_of buf) (seq_of buf) (msg_id_of buf) ≡ ok tt
    → record {
      msg_type = t;
      flags = get_or buf 4 0;
      session_id = session_id_of buf;
      seq = seq_of buf;
      msg_id = msg_id_of buf;
      payload = slice header_len (header_len + payload_len_of buf) buf;
    }
      ≡ f
    → Reads buf f
Reads-of buf f t long magic ver typed flags bounded complete fits e =
    let body : slice header_len (header_len + payload_len_of buf) buf ≡ f.payload =
      ap (λ g. g.payload) e in
    let n : payload_len_of buf ≡ length f.payload =
      omega
        (arith, ap length body, length-slice header_len (header_len + payload_len_of buf) buf) in
    record {
      header = long;
      magic0 = ground arith;
      magic1 = ground arith;
      versioned = ground arith;
      typed = typed ∙ ap (λ g. some g.msg_type) e;
      flagged = ap (λ g. g.flags) e;
      no_flags = sym (ap (λ g. g.flags) e) ∙ (==_iff _ _).0 flags;
      sized = n;
      bounded = omega arith;
      complete = omega arith;
      id = ap (λ g. g.session_id) e;
      sequence = ap (λ g. g.seq) e;
      message_id = ap (λ g. g.msg_id) e;
      fits = sym (ap (λ g. check_fields g.msg_type g.session_id g.seq g.msg_id) e) ∙ fits;
      body = ap (λ k. slice header_len (header_len + k) buf) (sym n) ∙ body;
    }

pub decode-Reads : (buf : List ℕ) (f : Frame) → decode buf ≡ ok f → Reads buf f
unfolding decode
decode-Reads buf f h = ensure_inv _ _ _ h λ long k1. ensure_inv _ _ _ k1 λ magic k2.
    ensure_inv _ _ _ k2 λ ver k3. ok_or_inv _ _ _ k3 λ t typed k4. ensure_inv _ _ _ k4 λ flags k5.
      ensure_inv _ _ _ k5 λ bounded k6. ensure_inv _ _ _ k6 λ complete k7.
        >>=_inv _ _ k7 λ u fits k8.
          Reads-of buf f t (leb→le _ _ long) magic ver typed flags (leb→le _ _ bounded)
            (leb→le _ _ complete) fits (ok-injective k8)

-- The type byte that `from_u8` accepts is the one `to_u8` writes.
to_u8-from_u8 : (t : MessageType) (v : ℕ) → from_u8 v ≡ some t → to_u8 t ≡ v
unfolding from_u8 to_u8
to_u8-from_u8 hello v h = ground arith
to_u8-from_u8 _ v h = ground arith

five_bytes :
    (buf : List ℕ)
    → 5 ≤ length buf
    → buf
      ≡ get_or buf 0 0
        ∷ get_or buf 1 0
        ∷ get_or buf 2 0
        ∷ get_or buf 3 0
        ∷ get_or buf 4 0
        ∷ drop 5 buf
five_bytes (a ∷ b ∷ c ∷ d ∷ e ∷ rest) h = refl
five_bytes [] h = absurd (omega arith)
five_bytes (a ∷ []) h = absurd (omega arith)
five_bytes (a ∷ b ∷ []) h = absurd (omega arith)
five_bytes (a ∷ b ∷ c ∷ []) h = absurd (omega arith)
five_bytes (a ∷ b ∷ c ∷ d ∷ []) h = absurd (omega arith)

-- The integer of `w` bytes at an offset, written out again, gives back its bytes.
to_be_bytes-slice :
    (i j w : ℕ) (buf : List ℕ) (n : ℕ)
    → from_be_bytes (slice i j buf) ≡ n
    → i + w ≡ j
    → j ≤ length buf
    → IsBytes buf
    → to_be_bytes w n ++ drop j buf ≡ drop i buf
to_be_bytes-slice i j w buf n e q h p =
    let l : length (slice i j buf) ≡ w = omega (arith, length-slice i j buf) in
    rw
      (
        ← e,
        to_be_bytes-from_be_bytes w (slice i j buf) l
            (IsBytes-take (j - i) (drop i buf) (IsBytes-drop i buf p)),
      )
      (slice-drop i j buf (omega arith))

slice-lt :
    (i j : ℕ) (buf : List ℕ)
    → i ≤ j
    → j ≤ length buf
    → IsBytes buf
    → from_be_bytes (slice i j buf) < 256 ^ (j - i)
slice-lt i j buf h k p =
    subst (λ w. from_be_bytes (slice i j buf) < 256 ^ w) (length-slice i j buf h k)
      (from_be_bytes-lt (slice i j buf) (IsBytes-take (j - i) (drop i buf) (IsBytes-drop i buf p)))

check_fields_sound :
    (t : MessageType) (id : List ℕ) (seq msg_id : ℕ)
    → check_fields t id seq msg_id ≡ ok tt
    → FieldsFit (is_handshake_type t) id seq msg_id
unfolding check_fields
check_fields_sound t id seq msg_id h = go (is_handshake_type t) h
  where
    go :
        (b : Bool)
        → (if b
            then ensure
                (bytes_eq id zero_id && (seq == 0 && msg_id == 0))
                FrameError.session_fields_on_handshake_frame
            else ensure (not (bytes_eq id zero_id)) FrameError.handshake_fields_on_session_frame)
          ≡ ok tt
        → FieldsFit b id seq msg_id
    go true h = (ground (arith, bytes_eq→eq id zero_id), ground arith, ground arith)
    go false h = bytes_eq→ne id zero_id (ground arith)

module _ (buf : List ℕ) (f : Frame) (accepted : decode buf ≡ ok f) (bytes : IsBytes buf) where
  reads : Reads buf f
  reads = decode-Reads buf f accepted

  from_21 : to_be_bytes 4 f.seq ++ drop 25 buf ≡ drop 21 buf
  from_21 =
      to_be_bytes-slice 21 25 4 buf f.seq reads.sequence refl (omega (arith, reads.header)) bytes

  from_25 : to_be_bytes 8 f.msg_id ++ drop 33 buf ≡ drop 25 buf
  from_25 =
      to_be_bytes-slice 25 33 8 buf f.msg_id reads.message_id refl (omega (arith, reads.header))
        bytes

  from_33 : to_be_bytes 4 (length f.payload) ++ drop 37 buf ≡ drop 33 buf
  from_33 = to_be_bytes-slice 33 37 4 buf _ reads.sized refl reads.header bytes

  from_37 : f.payload ++ drop (header_len + length f.payload) buf ≡ drop 37 buf
  from_37 =
      ap (λ p. p ++ drop (header_len + length f.payload) buf) (sym reads.body)
      ∙ slice-drop header_len (header_len + length f.payload) buf (omega arith)

  from_5 : f.session_id ++ drop 21 buf ≡ drop 5 buf
  from_5 = ap (λ id. id ++ drop 21 buf) (sym reads.id) ∙ slice-drop 5 21 buf (omega arith)

  -- A buffer of bytes that `decode` accepts begins with the encoding of the frame that it
  -- returns.
  pub encode-decode : encode f ++ drop (header_len + length f.payload) buf ≡ buf
  unfolding encode
  encode-decode =
      rw
        (
          append_assoc, append_assoc, append_assoc, append_assoc, from_37, from_33, from_25,
          from_21, from_5,
        )
        (cc (
          five_bytes buf (omega (arith, reads.header)),
          reads.magic0,
          reads.magic1,
          reads.versioned,
          to_u8-from_u8 f.msg_type (get_or buf 3 0) reads.typed,
          reads.flagged,
        ))

  -- A frame that `decode` returns from a buffer of bytes is within the wire's ranges: no flags, a
  -- 16-byte session id, numbers that fit their types, a payload of at most `MAX_PAYLOAD` bytes,
  -- and session fields as its type demands.
  pub decode-IsWire : IsWire f
  decode-IsWire = record {
    no_flags = reads.no_flags;
    id_len = rw (← reads.id) (length-slice 5 21 buf (omega arith) (omega (arith, reads.header)));
    id_bytes = rw (← reads.id) (IsBytes-take 16 (drop 5 buf) (IsBytes-drop 5 buf bytes));
    seq_range =
        rw (← reads.sequence)
          (slice-lt 21 25 buf (omega arith) (omega (arith, reads.header)) bytes);
    msg_id_range =
        rw (← reads.message_id)
          (slice-lt 25 33 buf (omega arith) (omega (arith, reads.header)) bytes);
    payload_bytes = rw (← reads.body) (IsBytes-take _ _ (IsBytes-drop 37 buf bytes));
    payload_fits = reads.bounded;
    fields = check_fields_sound f.msg_type f.session_id f.seq f.msg_id reads.fits;
  }
