-- ===== src/Session/Replay.antt =====
-- src/session.rs: `handle_frame` over whole runs of frames. No frame is accepted twice, frames are
-- accepted in the order of their numbers, and repeated violations end in `Hostile`.
use jeangrey.Prelude.{
  ℕ, ◌+◌, ◌%◌, ◌^◌, ◌≤◌, ◌<◌, ◌≡◌, ◌≢◌, sym, ap, ◌∙◌, arith, List, [], ◌∷◌, ok, err, Result, length,
  leb, ltb, ==_iff, ne→==, bytes_eq_refl, if◌then◌else◌,
}
use jeangrey.Crates.{Crates}
use jeangrey.Framing.{Frame}
use jeangrey.Session.State.{
  Session, u32_max, Inbound, SessionError, replay, hostile, max_seq_violations, remember,
  checked_succ,
}
use jeangrey.Session.Channel.{checked_succ-lt}
use jeangrey.Session.Frames.{handle_frame, violate}

module _ (c : Crates) where
  -- The session after a run of frames, whatever came of each.
  unfoldable pub feed : Session → List Frame → Session
  feed s [] = s
  feed s (f ∷ fs) = feed (handle_frame c s f).0 fs

  -- The expected number never goes back.
  in_seq_mono : (s : Session) (f : Frame) → s.in_seq ≤ (handle_frame c s f).0.in_seq
  unfolding handle_frame remember checked_succ
  in_seq_mono s f = ground arith

  in_seq-feed : (s : Session) (fs : List Frame) → s.in_seq ≤ (feed s fs).in_seq
  unfolding feed
  in_seq-feed s [] = omega arith
  in_seq-feed s (f ∷ fs) = omega (arith, in_seq_mono s f, in_seq-feed (handle_frame c s f).0 fs)

  -- A frame that is accepted had the expected number, and the next number is expected after it.
  accepted_seq :
      (s s' : Session) (f : Frame) (m : Inbound c.Multiaddr)
      → handle_frame c s f ≡ (s', ok m)
      → (f.seq ≡ s.in_seq) × (s'.in_seq ≡ f.seq + 1)
  unfolding handle_frame remember checked_succ
  accepted_seq s s' f m h = ground arith

  counted_next :
      (s : Session) (f : Frame)
      → f.session_id ≡ s.session_id
      → f.seq ≡ s.in_seq
      → s.in_seq < u32_max
      → (handle_frame c s f).0.in_seq ≡ f.seq + 1
  unfolding handle_frame remember
  counted_next s f id n h =
      rw (id, bytes_eq_refl s.session_id, (==_iff f.seq s.in_seq).1 n, checked_succ-lt s.in_seq h)
        (ap (λ k. k + 1) (sym n))

  -- Of two frames that one session accepts, with any frames handled between them, the later one
  -- has the greater sequence number, so no frame is accepted twice.
  pub accepted_order :
      (s s' : Session) (f g : Frame) (m m' : Inbound c.Multiaddr) (between : List Frame)
      → handle_frame c s f ≡ (s', ok m)
      → (handle_frame c (feed s' between) g).1 ≡ ok m'
      → f.seq < g.seq
  accepted_order s s' f g m m' between h again =
      let t = feed s' between in
      let late =
        accepted_seq t (handle_frame c t g).0 g m' (ap (λ r. ((handle_frame c t g).0, r)) again) in
      omega (arith, (accepted_seq s s' f m h).1, in_seq-feed s' between, late.0)

  -- Once a frame of the session with the expected sequence number was handled, even if its
  -- payload did not open, no later frame with that number is accepted, whatever is handled
  -- between them.
  pub counted_blocks :
      (s : Session) (f g : Frame) (m : Inbound c.Multiaddr) (between : List Frame)
      → f.session_id ≡ s.session_id
      → f.seq ≡ s.in_seq
      → s.in_seq < u32_max
      → g.seq ≡ f.seq
      → (handle_frame c (feed (handle_frame c s f).0 between) g).1 ≢ ok m
  counted_blocks s f g m between id n room same again =
      let s' = (handle_frame c s f).0 in
      let t = feed s' between in
      let late =
        accepted_seq t (handle_frame c t g).0 g m (ap (λ r. ((handle_frame c t g).0, r)) again) in
      omega (arith, counted_next s f id n room, in_seq-feed s' between, late.0)

  -- A frame of this session whose number is not the expected one.
  abbrev OutOfOrder : Session → Frame → Type 0
  OutOfOrder s f = (f.session_id ≡ s.session_id) × (f.seq ≢ s.in_seq)

  abbrev AllOutOfOrder : Session → List Frame → Type 0
  AllOutOfOrder s [] = Unit {0}
  AllOutOfOrder s (f ∷ fs) = OutOfOrder s f × AllOutOfOrder s fs

  abbrev violated : Session → ℕ → Session
  violated s n = record s { seq_violations = n }

  handle-OutOfOrder : (s : Session) (f : Frame) → OutOfOrder s f → handle_frame c s f ≡ violate c s
  unfolding handle_frame
  handle-OutOfOrder s f (id, n) = rw (id, bytes_eq_refl s.session_id, ne→== f.seq s.in_seq n)

  feed_out_of_order :
      (s : Session) (n : ℕ) (fs : List Frame)
      → AllOutOfOrder s fs
      → n + length fs < 2 ^ 32
      → feed (violated s n) fs ≡ violated s (n + length fs)
  unfolding feed violate
  feed_out_of_order s n [] all h = ap (violated s) (omega arith)
  feed_out_of_order s n (f ∷ fs) (wrong, all) h =
      let step : (handle_frame c (violated s n) f).0 ≡ violated s (n + 1) =
        ap (λ r. r.0) (handle-OutOfOrder (violated s n) f wrong) ∙ ap (violated s) (omega arith) in
      rw step (feed_out_of_order s (n + 1) fs all (omega arith) ∙ ap (violated s) (omega arith))

  -- From a session with no violations, a run of fewer than 2^32 - 1 frames of the session with
  -- wrong sequence numbers changes nothing but the violation counter, and the next such frame is
  -- answered `Replay` if fewer than four came before it and `Hostile` otherwise.
  pub hostile_at_five :
      (s : Session) (fs : List Frame) (f : Frame)
      → s.seq_violations ≡ 0
      → AllOutOfOrder s fs
      → OutOfOrder s f
      → length fs + 1 < 2 ^ 32
      → handle_frame c (feed s fs) f ≡ (
        record s { seq_violations = length fs + 1 },
        err (if ltb (length fs) 4 then replay else hostile),
      )
  unfolding violate
  hostile_at_five s fs f z all wrong h =
      let fresh : s ≡ violated s 0 = λ i. record s { seq_violations = z i } in
      let e : (0 + length fs + 1) % 2 ^ 32 ≡ length fs + 1 = omega arith in
      ap (λ t. handle_frame c (feed t fs) f) fresh
      ∙ (ap (λ t. handle_frame c t f) (feed_out_of_order s 0 fs all (omega arith))
          ∙ (handle-OutOfOrder (violated s (0 + length fs)) f wrong ∙ rw e (verdict (length fs))))
    where
      verdict :
          (n : ℕ)
          → ◌≡◌ {A = Session × Result SessionError (Inbound c.Multiaddr)}
              (violated s (n + 1), err (if leb max_seq_violations (n + 1) then hostile else replay))
              (violated s (n + 1), err (if ltb n 4 then replay else hostile))
      verdict n = ground arith
