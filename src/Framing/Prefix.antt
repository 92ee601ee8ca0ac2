-- ===== src/Framing/Prefix.antt =====
-- src/framing.rs: a buffer that holds only a part of a frame is reported as truncated, so that the
-- reader waits for more; no other part of a frame is refused.
use jeangrey.Prelude.{
  ℕ, ◌+◌, ◌≤◌, ◌<◌, ◌≡◌, ◌≢◌, refl, sym, ap, subst, ◌∙◌, arith, Bool, true, false, inl, inr, some,
  List, [], ◌++◌, append-nil, ok, err, length, get_or, from_be_bytes, slice-append_le,
  get_or-append, leb, le→leb, ◌==◌, ◌&&◌, Bool-cases, leb→le, ensure_err_inv, ok_or_err_inv, ◌>>◌,
}
use mathlib.Core.Bool.{false≢true}
use jeangrey.Framing.{
  Frame, MessageType, from_u8, check_fields, FrameError, max_payload, header_len, version,
  truncated, bad_magic, unsupported_version, unknown_type, reserved_flags, payload_too_large,
  encode, payload_len_of, decode,
}
use jeangrey.Framing.RoundTrip.{IsWire, Reads, encode-Reads, length-encode}

lt→leb : (a b : ℕ) → b < a → leb a b ≡ false
lt→leb a b h = ground arith

decode_short : (buf : List ℕ) → length buf < header_len → decode buf ≡ err truncated
unfolding decode
decode_short buf h = rw (lt→leb 37 (length buf) h)

-- A buffer with a whole header, whose announced payload is not complete.
record Awaits (buf : List ℕ) (f : Frame) : Type 0 where
  pub header : 37 ≤ length buf
  pub magic0 : get_or buf 0 0 ≡ 0x4A
  pub magic1 : get_or buf 1 0 ≡ 0x47
  pub versioned : get_or buf 2 0 ≡ 1
  pub typed : from_u8 (get_or buf 3 0) ≡ some f.msg_type
  pub flagged : get_or buf 4 0 ≡ 0
  pub sized : payload_len_of buf ≡ length f.payload
  pub bounded : length f.payload ≤ max_payload
  pub missing : length buf < 37 + length f.payload

decode-Awaits : (buf : List ℕ) (f : Frame) → Awaits buf f → decode buf ≡ err truncated
unfolding decode
decode-Awaits buf f a = rw (
  le→leb 37 (length buf) a.header,
  a.magic0,
  a.magic1,
  a.versioned,
  a.typed,
  a.flagged,
  a.sized,
  le→leb (length f.payload) max_payload a.bounded,
  lt→leb (37 + length f.payload) (length buf) a.missing,
)

module _ (f : Frame) (w : IsWire f) (got more : List ℕ) (whole : got ++ more ≡ encode f) where
  whole-Reads : Reads (got ++ more) f
  whole-Reads = rw whole (subst (λ buf. Reads buf f) (append-nil (encode f)) (encode-Reads f [] w))

  abbrev agree_at : (i : ℕ) → i < length got → get_or got i 0 ≡ get_or (got ++ more) i 0
  agree_at i h = sym (get_or-append i 0 got more h)

  prefix-Awaits : 37 ≤ length got → length got < length (encode f) → Awaits got f
  prefix-Awaits long short = record {
    header = long;
    magic0 = agree_at 0 (omega arith) ∙ whole-Reads.magic0;
    magic1 = agree_at 1 (omega arith) ∙ whole-Reads.magic1;
    versioned = agree_at 2 (omega arith) ∙ whole-Reads.versioned;
    typed = ap from_u8 (agree_at 3 (omega arith)) ∙ whole-Reads.typed;
    flagged = agree_at 4 (omega arith) ∙ (whole-Reads.flagged ∙ w.no_flags);
    sized =
        sym (ap from_be_bytes (slice-append_le 33 37 got more (omega arith) long))
        ∙ whole-Reads.sized;
    bounded = w.payload_fits;
    missing = omega (arith, length-encode f w);
  }

-- Every proper prefix of the encoding of a frame within the wire's ranges is reported as
-- truncated.
pub decode_prefix :
    (f : Frame) (got more : List ℕ)
    → IsWire f
    → got ++ more ≡ encode f
    → length got < length (encode f)
    → decode got ≡ err truncated
decode_prefix f got more w whole short = elim (Bool-cases (leb 37 (length got))) [
  | inl long ↦ decode-Awaits got f (prefix-Awaits f w got more whole (leb→le _ _ long) short)
  | inr brief ↦ decode_short got (ground arith)
]

abbrev is_truncated : FrameError → Bool
is_truncated truncated = true
is_truncated _ = false

short_bound : (l : ℕ) → leb header_len l ≡ false → l < header_len + max_payload
short_bound l h = ground arith

missing_bound :
    (n l : ℕ)
    → leb n max_payload ≡ true
    → leb (header_len + n) l ≡ false
    → l < header_len + max_payload
missing_bound n l h k = ground arith

check_fields-ne-truncated :
    (t : MessageType) (id : List ℕ) (seq msg_id : ℕ) (f : Frame)
    → (check_fields t id seq msg_id >> ok f) ≢ err truncated
unfolding check_fields
check_fields-ne-truncated t id seq msg_id f h = ground arith

-- A buffer that `decode` reports as truncated is shorter than `HEADER_LEN + MAX_PAYLOAD`.
pub decode-truncated_bound :
    (buf : List ℕ) → decode buf ≡ err truncated → length buf < header_len + max_payload
unfolding decode
decode-truncated_bound buf h =
    ensure_err_inv _ _ _ h (λ short _. short_bound _ short)
      λ long k1.
        ensure_err_inv (get_or buf 0 0 == 0x4A && get_or buf 1 0 == 0x47) bad_magic _ k1
          (other_error _ refl)
          λ magic k2.
            ensure_err_inv (get_or buf 2 0 == version) (unsupported_version _) _ k2
              (other_error _ refl)
              λ ver k3.
                ok_or_err_inv (from_u8 (get_or buf 3 0)) (unknown_type _) _ k3 (other_error _ refl)
                  λ t typed k4.
                    ensure_err_inv (get_or buf 4 0 == 0) (reserved_flags _) _ k4
                      (other_error _ refl)
                      λ flags k5.
                        ensure_err_inv (leb (payload_len_of buf) max_payload)
                          (payload_too_large (payload_len_of buf)) _ k5 (other_error _ refl)
                          λ bounded k6.
                            ensure_err_inv (leb (header_len + payload_len_of buf) (length buf))
                              truncated _ k6
                              (λ missing _.
                                missing_bound (payload_len_of buf) (length buf) bounded missing)
                              λ complete k7. absurd (check_fields-ne-truncated t _ _ _ _ k7)
  where
    other_error : {P Q : Type 0} (e : FrameError) → is_truncated e ≡ false → P → e ≡ truncated → Q
    other_error e f p q = absurd (false≢true (sym f ∙ ap is_truncated q))
