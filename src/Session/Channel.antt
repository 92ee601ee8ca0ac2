-- ===== src/Session/Channel.antt =====
-- src/session.rs: what one party seals, the other opens. Two sessions are paired when each holds the
-- other's keys and direction tags and expects the other's next sequence number.
use jeangrey.Prelude.{ℕ, ◌+◌, ◌<◌, ◌≡◌, ap, arith, true, some, List, bytes_eq_refl, ==_iff}
use jeangrey.Crates.{Crates, AeadLaws}
use jeangrey.Framing.{MessageType, Frame, is_session_type}
use jeangrey.Session.State.{Session, u32_max, checked_succ, remember, nonce, aad}
use jeangrey.Session.Plaintext.{parse_plaintext}
use jeangrey.Session.Frames.{seal, handle_frame}

-- `from` seals what `to` opens.
pub record Feeds (from to : Session) : Type 0 where
  pub same_id : from.session_id ≡ to.session_id
  pub same_key : from.send_key ≡ to.recv_key
  pub same_dir : from.my_dir ≡ to.peer_dir
  pub in_step : from.out_seq ≡ to.in_seq

pub record Paired (a b : Session) : Type 0 where
  pub forth : Feeds a b
  pub back : Feeds b a

pub checked_succ-lt : (n : ℕ) → n < u32_max → checked_succ n ≡ some (n + 1)
unfolding checked_succ
checked_succ-lt n h = ground arith

-- The session after it has counted a frame.
unfoldable pub counted : Session → ℕ → Session
counted s msg_id = remember (record s { in_seq = s.in_seq + 1 }) s.in_seq msg_id

-- A frame with the expected number that decrypts is counted, and its plaintext goes to the parser.
handle_expected :
    (c : Crates) (b : Session) (f : Frame) (plaintext : List ℕ)
    → f.session_id ≡ b.session_id
    → f.seq ≡ b.in_seq
    → b.in_seq < u32_max
    → is_session_type f.msg_type ≡ true
    → c.decrypt b.recv_key (nonce b.peer_dir f.seq) (aad b f.msg_type f.seq f.msg_id) f.payload
      ≡ some plaintext
    → handle_frame c b f
      ≡ (counted b f.msg_id, parse_plaintext c (counted b f.msg_id) f.msg_type f.msg_id plaintext)
unfolding handle_frame counted remember aad
handle_expected c b f plaintext id n h st d = rw (
  id,
  bytes_eq_refl b.session_id,
  (==_iff f.seq b.in_seq).1 n,
  checked_succ-lt b.in_seq h,
  st,
  d,
  n,
)

module _ (c : Crates) (laws : AeadLaws c) where
  -- A sealed frame is counted by the other party, and its plaintext goes to the parser.
  pub handle_frame-seal :
      (a b : Session) (next : ℕ) (t : MessageType) (msg_id : ℕ) (plaintext : List ℕ)
      → Feeds a b
      → b.in_seq < u32_max
      → is_session_type t ≡ true
      → handle_frame c b (seal c (record a { out_seq = next }) t a.out_seq msg_id plaintext)
        ≡ (counted b msg_id, parse_plaintext c (counted b msg_id) t msg_id plaintext)
  unfolding seal aad
  handle_frame-seal a b next t msg_id plaintext p h st =
      handle_expected c b (seal c (record a { out_seq = next }) t a.out_seq msg_id plaintext)
        plaintext p.same_id p.in_step h st
        (rw (p.same_key, p.same_dir, p.same_id) (laws.decrypt-encrypt _ _ _ plaintext))

-- Both parties move on by one: the next frame of `a` is the one that `b` expects.
pub Paired-step :
    (a b : Session) (msg_id : ℕ)
    → Paired a b
    → Paired (record a { out_seq = a.out_seq + 1 }) (counted b msg_id)
unfolding counted remember
Paired-step a b msg_id p = record {
  forth = record {
    same_id = p.forth.same_id;
    same_key = p.forth.same_key;
    same_dir = p.forth.same_dir;
    in_step = ap (λ n. n + 1) p.forth.in_step;
  };
  back = record {
    same_id = p.back.same_id;
    same_key = p.back.same_key;
    same_dir = p.back.same_dir;
    in_step = p.back.in_step;
  };
}
