-- ===== src/Tests/Streams.antt =====
-- The transport theorems for two frames in three chunks.
use jeangrey.Prelude.{
  ℕ, ◌≤◌, ◌≡◌, ◌≢◌, refl, arith, some, List, [], ◌∷◌, ◌++◌, take, drop, length, to_be_bytes,
  replicate,
}
use jeangrey.Framing.{Frame, MessageType, encode, to_u8, zero_id}
use jeangrey.Framing.RoundTrip.{IsWire}
use jeangrey.Transport.{
  received, io_failed, buffer_exceeded, Chunk, bytes, io_error, Reader, read_loop, poll_read_once,
}
use jeangrey.Transport.Reassembly.{poll_frames, poll_frames-wires}
use jeangrey.Transport.Limit.{poll_read_once-ne-buffer_exceeded}
use jeangrey.Tests.Toy.{is_bytes→IsBytes}

abbrev hello_frame : Frame
hello_frame = record {
  msg_type = MessageType.hello;
  flags = 0;
  session_id = zero_id;
  seq = 0;
  msg_id = 0;
  payload = 1 ∷ 2 ∷ [];
}

abbrev ready_frame : Frame
ready_frame = record {
  msg_type = MessageType.ready;
  flags = 0;
  session_id = zero_id;
  seq = 0;
  msg_id = 0;
  payload = replicate 16 7;
}

hello_frame-IsWire : IsWire hello_frame
hello_frame-IsWire = record {
  no_flags = refl;
  id_len = refl;
  id_bytes = is_bytes→IsBytes zero_id refl;
  seq_range = omega arith;
  msg_id_range = omega arith;
  payload_bytes = is_bytes→IsBytes (1 ∷ 2 ∷ []) refl;
  payload_fits = omega arith;
  fields = (refl, refl, refl);
}

ready_frame-IsWire : IsWire ready_frame
ready_frame-IsWire = record {
  no_flags = refl;
  id_len = refl;
  id_bytes = is_bytes→IsBytes zero_id refl;
  seq_range = omega arith;
  msg_id_range = omega arith;
  payload_bytes = is_bytes→IsBytes (replicate 16 7) refl;
  payload_fits = omega arith;
  fields = (refl, refl, refl);
}

-- Both frames on the wire, with the first byte of a third behind them.
abbrev wire : List ℕ
wire = encode hello_frame ++ (encode ready_frame ++ (0x4A ∷ []))

abbrev early : List ℕ
early = take 5 wire

abbrev middle : List ℕ
middle = take 50 (drop 5 wire)

abbrev late : List ℕ
late = drop 55 wire

early_open : 1 ≤ length early
unfolding encode to_u8 to_be_bytes
early_open = omega arith

middle_open : 1 ≤ length middle
unfolding encode to_u8 to_be_bytes
middle_open = omega arith

late_open : 1 ≤ length late
unfolding encode to_u8 to_be_bytes
late_open = omega arith

cut :
    early ++ (middle ++ (late ++ []))
    ≡ encode hello_frame ++ (encode ready_frame ++ []) ++ (0x4A ∷ [])
unfolding encode to_u8 to_be_bytes
cut = refl

abbrev reads : List Chunk
reads = bytes early ∷ bytes middle ∷ bytes late ∷ []

frames_example :
    poll_frames 2 (record { substream = some reads; read_buf = [] })
    ≡ received hello_frame ∷ received ready_frame ∷ []
frames_example =
    poll_frames-wires (hello_frame ∷ ready_frame ∷ []) (0x4A ∷ []) [] reads
      (hello_frame-IsWire, (ready_frame-IsWire, tt)) (early_open, (middle_open, (late_open, tt)))
      cut

abbrev failing : Reader
failing = record { substream = some (bytes early ∷ io_error ∷ []); read_buf = [] }

failing-io_failed : (poll_read_once failing).1 ≡ io_failed
unfolding poll_read_once read_loop encode jeangrey.Framing.decode to_u8 to_be_bytes
failing-io_failed = refl

limit_example : (poll_read_once failing).1 ≢ buffer_exceeded
limit_example = poll_read_once-ne-buffer_exceeded failing
