-- ===== src/Transport.antt =====
-- src/transport.rs: how the connection handler cuts the byte stream into frames. What the reads of the
-- substream give is a list: bytes, none at the end of the stream, or an I/O error; when the list runs out, the
-- substream has nothing yet and the poll is pending.
pub mod Reassembly
pub mod Limit
use jeangrey.Prelude.{
  ℕ, ◌+◌, Option, none, some, List, [], ◌∷◌, ◌++◌, Bool, Result, ok, err, length, drop, ltb,
  if◌then◌else◌,
}
use jeangrey.Framing.{Frame, FrameError, truncated, header_len, max_payload, decode}

abbrev pub max_read_buffer : ℕ
max_read_buffer = header_len + max_payload

-- What one call answers: nothing yet, the end of the stream, a frame, or an `io::Error`,
-- of the substream or of the frame's format.
pub data Polled : Type 0 where
  pending ended : Polled
  received : Frame → Polled
  malformed : FrameError → Polled
  io_failed buffer_exceeded : Polled

-- What one read of the substream gives.
pub data Chunk : Type 0 where
  bytes : List ℕ → Chunk
  io_error : Chunk

-- The fields that a poll uses: the substream, once it is negotiated, and the read buffer.
pub record Reader : Type 0 where
  pub substream : Option (List Chunk)
  pub read_buf : List ℕ

-- The read buffer, the reads to come, and the answer.
pub record Read : Type 0 where
  pub read_buf : List ℕ
  pub chunks : List Chunk
  pub polled : Polled

abbrev pub taken : List ℕ → List Chunk → Frame → Read
taken buf chunks frame = record {
  read_buf = drop (header_len + length frame.payload) buf;
  chunks = chunks;
  polled = received frame;
}

abbrev pub stopped : List ℕ → List Chunk → Polled → Read
stopped buf chunks polled = record { read_buf = buf; chunks = chunks; polled = polled }

-- What is done when no frame is decoded: `wait` when the buffer is within the limit.
abbrev pub undecoded : List ℕ → List Chunk → Read → FrameError → Read
undecoded buf chunks wait truncated =
    if ltb max_read_buffer (length buf) then stopped buf chunks buffer_exceeded else wait
undecoded buf chunks wait e = stopped buf chunks (malformed e)

-- The loop over a negotiated substream.
unfoldable pub read_loop : List ℕ → List Chunk → Read
read_loop buf [] = elim (decode buf) [
  | ok frame ↦ taken buf [] frame
  | err e ↦ undecoded buf [] (stopped buf [] pending) e
]
read_loop buf (io_error ∷ rest) = elim (decode buf) [
  | ok frame ↦ taken buf (io_error ∷ rest) frame
  | err e ↦ undecoded buf (io_error ∷ rest) (stopped buf rest io_failed) e
]
read_loop buf (bytes [] ∷ rest) = elim (decode buf) [
  | ok frame ↦ taken buf (bytes [] ∷ rest) frame
  | err e ↦ undecoded buf (bytes [] ∷ rest) (stopped buf rest ended) e
]
read_loop buf (bytes (b ∷ bs) ∷ rest) =
    let more = read_loop (buf ++ (b ∷ bs)) rest in
    elim (decode buf) [
      | ok frame ↦ taken buf (bytes (b ∷ bs) ∷ rest) frame
      | err e ↦ undecoded buf (bytes (b ∷ bs) ∷ rest) more e
    ]

-- Without a substream the answer is `Ok(None)`, the same as at the end of a stream.
unfoldable pub poll_read_once : Reader → Reader × Polled
poll_read_once r = elim r.substream as (λ _. Reader × Polled) [
  | none ↦ (r, ended)
  | some chunks ↦
      let read = read_loop r.read_buf chunks in
      (record { substream = some read.chunks; read_buf = read.read_buf }, read.polled)
]
