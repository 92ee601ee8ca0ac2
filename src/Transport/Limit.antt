-- ===== src/Transport/Limit.antt =====
-- src/transport.rs: the test against `MAX_READ_BUFFER` never fails.
use jeangrey.Prelude.{
  ℕ, ◌+◌, ◌<◌, ◌≡◌, ◌≢◌, refl, ap, sym, ◌∙◌, arith, Bool, true, false, List, [], ◌∷◌, ◌++◌, Result,
  ok, err, length, ltb, Option-cases, inl, inr,
}
use mathlib.Core.Bool.{false≢true}
use jeangrey.Framing.{Frame, FrameError, truncated, header_len, max_payload, decode}
use jeangrey.Framing.Prefix.{decode-truncated_bound}
use jeangrey.Transport.{
  Polled, pending, ended, io_failed, buffer_exceeded, Chunk, bytes, io_error, Reader, Read, taken,
  stopped, undecoded, max_read_buffer, read_loop, poll_read_once,
}

pub short_buffer : (n : ℕ) → n < header_len + max_payload → ltb max_read_buffer n ≡ false
short_buffer n h = ground arith

abbrev is_excess : Polled → Bool
is_excess buffer_exceeded = true
is_excess _ = false

within_undecoded :
    (buf : List ℕ) (chunks : List Chunk) (wait : Read) (e : FrameError)
    → decode buf ≡ err e
    → is_excess wait.polled ≡ false
    → is_excess (undecoded buf chunks wait e).polled ≡ false
within_undecoded buf chunks wait truncated h w =
    rw (short_buffer (length buf) (decode-truncated_bound buf h)) w
within_undecoded buf chunks wait _ h w = refl

-- One turn of the loop, by what `decode` makes of the buffer.
within_turn :
    (buf : List ℕ) (chunks : List Chunk) (wait : Read) (d : Result FrameError Frame)
    → decode buf ≡ d
    → is_excess wait.polled ≡ false
    → is_excess
        (elim d as (λ _. Read) [
          | ok frame ↦ taken buf chunks frame
          | err e ↦ undecoded buf chunks wait e
        ]).polled
      ≡ false
within_turn buf chunks wait (ok f) h w = refl
within_turn buf chunks wait (err e) h w = within_undecoded buf chunks wait e h w

within_limit :
    (buf : List ℕ) (chunks : List Chunk) → is_excess (read_loop buf chunks).polled ≡ false
unfolding read_loop
within_limit buf [] = within_turn buf [] (stopped buf [] pending) (decode buf) refl refl
within_limit buf (io_error ∷ rest) =
    within_turn buf (io_error ∷ rest) (stopped buf rest io_failed) (decode buf) refl refl
within_limit buf (bytes [] ∷ rest) =
    within_turn buf (bytes [] ∷ rest) (stopped buf rest ended) (decode buf) refl refl
within_limit buf (bytes (b ∷ bs) ∷ rest) =
    within_turn buf (bytes (b ∷ bs) ∷ rest) (read_loop (buf ++ (b ∷ bs)) rest) (decode buf) refl
      (within_limit (buf ++ (b ∷ bs)) rest)

-- Whatever is buffered, whether there is a substream or not, and whatever its reads give (bytes,
-- the end of the stream or an I/O error), no poll fails the test against `MAX_READ_BUFFER`.
pub poll_read_once-ne-buffer_exceeded : (r : Reader) → (poll_read_once r).1 ≢ buffer_exceeded
unfolding poll_read_once
poll_read_once-ne-buffer_exceeded r h = elim (Option-cases r.substream) [
  | inl missing ↦ false≢true (ap is_excess (rw (missing, poll_read_once) at h))
  | inr (chunks, here) ↦
      false≢true
        (sym (within_limit r.read_buf chunks) ∙ ap is_excess (rw (here, poll_read_once) at h))
]
