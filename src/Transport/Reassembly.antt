-- ===== src/Transport/Reassembly.antt =====
-- src/transport.rs: however the bytes of a run of frames are cut into chunks, the handler gives those frames.
use jeangrey.Prelude.{
  ℕ, zero, suc, ◌+◌, ◌≤◌, ◌<◌, ◌≡◌, refl, sym, ap, ◌∙◌, arith, inl, inr, false, some, List, [], ◌∷◌,
  ◌++◌, append_assoc, append-nil, ok, err, length, take, drop, ltb, length-append, Bool-cases,
  ltb→lt, map, ap₂, take-append-drop, take-append_le, drop-append_le, take_prefix, drop_prefix,
}
use jeangrey.Framing.{Frame, header_len, encode, decode, truncated}
use jeangrey.Framing.RoundTrip.{IsWire, decode-encode_append, length-encode}
use jeangrey.Framing.Prefix.{decode_prefix}
use jeangrey.Transport.Limit.{short_buffer}
use jeangrey.Transport.{
  Polled, received, Chunk, bytes, io_error, Reader, Read, taken, max_read_buffer, read_loop,
  poll_read_once,
}

-- The bytes that the reads give.
abbrev pub concat : List Chunk → List ℕ
concat [] = []
concat (bytes chunk ∷ rest) = chunk ++ concat rest
concat (io_error ∷ rest) = concat rest

-- The bytes that a run of frames is on the wire.
abbrev pub wires : List Frame → List ℕ
wires [] = []
wires (f ∷ fs) = encode f ++ wires fs

abbrev pub AllWire : List Frame → Type 0
AllWire [] = Unit {0}
AllWire (f ∷ fs) = IsWire f × AllWire fs

-- Every read gives bytes: the stream neither ended nor failed.
abbrev pub Open : List Chunk → Type 0
Open [] = Unit {0}
Open (bytes chunk ∷ rest) = (1 ≤ length chunk) × Open rest
Open (io_error ∷ rest) = ⊥

-- The answers of as many polls in a row.
unfoldable pub poll_frames : ℕ → Reader → List Polled
poll_frames zero r = []
poll_frames (suc n) r = let (r', polled) = poll_read_once r in polled ∷ poll_frames n r'

-- A poll that gives the frame and leaves the rest of the bytes.
abbrev Gives : Read → Frame → List ℕ → Type 0
Gives r f tail = (r.polled ≡ received f) × (r.read_buf ++ concat r.chunks ≡ tail) × Open r.chunks

loop_decoded :
    (buf : List ℕ) (chunks : List Chunk) (f : Frame)
    → decode buf ≡ ok f
    → read_loop buf chunks ≡ taken buf chunks f
unfolding read_loop
loop_decoded buf [] f e = rw (e, read_loop) refl
loop_decoded buf (io_error ∷ rest) f e = rw (e, read_loop) refl
loop_decoded buf (bytes [] ∷ rest) f e = rw (e, read_loop) refl
loop_decoded buf (bytes (b ∷ bs) ∷ rest) f e = rw (e, read_loop) refl

loop_more :
    (buf chunk : List ℕ) (rest : List Chunk)
    → decode buf ≡ err truncated
    → ltb max_read_buffer (length buf) ≡ false
    → 1 ≤ length chunk
    → read_loop buf (bytes chunk ∷ rest) ≡ read_loop (buf ++ chunk) rest
unfolding read_loop
loop_more buf [] rest e l h = absurd (omega arith)
loop_more buf (b ∷ bs) rest e l h = rw (e, l, read_loop) refl

ltb-false : (m n : ℕ) → ltb m n ≡ false → n ≤ m
ltb-false m n h = ground arith

module _ (f : Frame) (w : IsWire f) (tail : List ℕ) where
  -- The whole frame is in the buffer.
  Gives-at_once :
      (buf : List ℕ) (chunks : List Chunk)
      → Open chunks
      → length (encode f) ≤ length buf
      → buf ++ concat chunks ≡ encode f ++ tail
      → Gives (read_loop buf chunks) f tail
  Gives-at_once buf chunks o h e =
      let n = length (encode f) in
      let rest = drop n buf in
      let front : take n buf ≡ encode f =
        sym (take-append_le n buf (concat chunks) h)
        ∙ (ap (take n) e ∙ take_prefix n (encode f) tail refl) in
      let behind : rest ++ concat chunks ≡ tail =
        sym (drop-append_le n buf (concat chunks) h)
        ∙ (ap (drop n) e ∙ drop_prefix n (encode f) tail refl) in
      let whole : buf ≡ encode f ++ rest =
        sym (take-append-drop n buf) ∙ ap (λ z. z ++ rest) front in
      let decoded : decode buf ≡ ok f = ap decode whole ∙ decode-encode_append f rest w in
      let left : drop (header_len + length f.payload) buf ++ concat chunks ≡ tail =
        ap (λ k. drop k buf ++ concat chunks) (sym (length-encode f w)) ∙ behind in
      rw (loop_decoded buf chunks f decoded) (refl, left, o)

  truncated_so_far :
      (buf : List ℕ) (chunks : List Chunk)
      → length buf < length (encode f)
      → buf ++ concat chunks ≡ encode f ++ tail
      → decode buf ≡ err truncated
  truncated_so_far buf chunks short e =
      let n = length buf in
      let front : buf ≡ take n (encode f) =
        sym (take_prefix n buf (concat chunks) refl)
        ∙ (ap (take n) e ∙ take-append_le n (encode f) tail (omega (arith, short))) in
      decode_prefix f buf (drop n (encode f)) w
        (ap (λ z. z ++ drop n (encode f)) front ∙ take-append-drop n (encode f)) short

  -- Whatever of the frame is in the buffer, the chunks complete it.
  Gives-chunks :
      (buf : List ℕ) (chunks : List Chunk)
      → Open chunks
      → buf ++ concat chunks ≡ encode f ++ tail
      → Gives (read_loop buf chunks) f tail
  Gives-chunks buf [] o e =
      Gives-at_once buf [] o
        (omega (arith, ap length e, ap length (append-nil buf), length-append (encode f) tail)) e
  Gives-chunks buf (io_error ∷ rest) o e = absurd o
  Gives-chunks buf (bytes chunk ∷ rest) o e =
      elim (Bool-cases (ltb (length buf) (length (encode f)))) [
        | inl short ↦
            rw
              (loop_more buf chunk rest
                (truncated_so_far buf (bytes chunk ∷ rest) (ltb→lt _ _ short) e)
                (short_buffer (length buf)
                  (omega (arith, ltb→lt _ _ short, length-encode f w, w.payload_fits)))
                o.0)
              (Gives-chunks (buf ++ chunk) rest o.1 (append_assoc buf chunk (concat rest) ∙ e))
        | inr enough ↦ Gives-at_once buf (bytes chunk ∷ rest) o (ltb-false _ _ enough) e
      ]

-- Whatever part of the bytes is in the read buffer and however the rest is cut into non-empty
-- reads of a substream, if together they are the encodings of some frames within the wire's
-- ranges followed by any bytes, then as many polls as there are frames give those frames, in
-- order and unchanged.
pub poll_frames-wires :
    (fs : List Frame) (tail buf : List ℕ) (chunks : List Chunk)
    → AllWire fs
    → Open chunks
    → buf ++ concat chunks ≡ wires fs ++ tail
    → poll_frames (length fs) (record { substream = some chunks; read_buf = buf }) ≡ map received fs
unfolding poll_frames poll_read_once
poll_frames-wires [] tail buf chunks w o e = refl
poll_frames-wires (f ∷ fs) tail buf chunks (w, ws) o e =
    let r = read_loop buf chunks in
    let (frame, left, still_open) =
      Gives-chunks f w (wires fs ++ tail) buf chunks o
        (e ∙ append_assoc (encode f) (wires fs) tail) in
    ap₂ ◌∷◌ frame (poll_frames-wires fs tail r.read_buf r.chunks ws still_open left)
