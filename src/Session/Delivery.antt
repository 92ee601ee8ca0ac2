-- ===== src/Session/Delivery.antt =====
-- src/session.rs: every kind of frame that one party of a pair seals is delivered to the other as it
-- was sent, and the two stay paired, so that the next one is delivered too.
use jeangrey.Prelude.{
  ℕ, ◌+◌, ◌-◌, ◌^◌, ◌≤◌, ◌<◌, ◌≡◌, refl, sym, ap, ◌∙◌, arith, Bool, true, Option, some, List, ok,
  Result, length, le→ltb,
}
use jeangrey.Crates.{Crates, AeadLaws, AddrLaws}
use jeangrey.Framing.{MessageType, message, ack, control, Frame, is_session_type}
use jeangrey.Session.State.{
  Session, u32_max, max_message_bytes, Inbound, message_in, ack_in, observed_addr, dial_back_req,
  dial_back_res, IpAddr, remember,
}
use jeangrey.Session.Plaintext.{
  parse_plaintext, message_plaintext, ack_plaintext, observed_addr_plaintext,
  dial_back_req_plaintext, dial_back_res_plaintext,
}
use jeangrey.Session.Frames.{
  seal, seal_next, encrypt_message, encrypt_ack, encrypt_observed_addr, encrypt_dial_back_req,
  encrypt_dial_back_res, handle_frame,
}
use jeangrey.Session.Channel.{Paired, Paired-step, counted, checked_succ-lt, handle_frame-seal}
use jeangrey.Session.Parse.{
  parse-message_plaintext, parse-ack_plaintext, parse-observed_addr_plaintext,
  parse-dial_back_req_plaintext, parse-dial_back_res_plaintext, IsIpAddr, FitsControl,
}

-- The sessions after a frame, with what `b` hands to its caller.
abbrev Delivers : (c : Crates) → Session → Session → Frame → Session → Inbound c.Multiaddr → Type 0
Delivers c a' b f b' inbound = (handle_frame c b f ≡ (b', ok inbound)) × Paired a' b'

in_seq-counted : (b : Session) (msg_id : ℕ) → (counted b msg_id).in_seq - 1 ≡ b.in_seq
unfolding counted remember
in_seq-counted b msg_id = omega arith

module _ (c : Crates) (laws : AeadLaws c) (a b : Session) (paired : Paired a b)
    (room : a.out_seq < u32_max) where
  open_room : b.in_seq < u32_max
  open_room = rw (← paired.forth.in_step) room

  sent_seq : (msg_id : ℕ) → (counted b msg_id).in_seq - 1 ≡ a.out_seq
  sent_seq msg_id = in_seq-counted b msg_id ∙ sym paired.forth.in_step

  abbrev advanced : Session
  advanced = record a { out_seq = a.out_seq + 1 }

  delivers :
      (t : MessageType) (msg_id : ℕ) (plaintext : List ℕ) (inbound : Inbound c.Multiaddr)
      → is_session_type t ≡ true
      → parse_plaintext c (counted b msg_id) t msg_id plaintext ≡ ok inbound
      → Delivers c advanced b
          (seal c advanced t a.out_seq msg_id plaintext)
          (counted b msg_id)
          inbound
  delivers t msg_id plaintext inbound st parsed = (
    handle_frame-seal c laws a b (a.out_seq + 1) t msg_id plaintext paired.forth open_room st
        ∙ ap (λ (r : Result _ (Inbound c.Multiaddr)). (counted b msg_id, r)) parsed,
    Paired-step a b msg_id paired,
  )

  -- For paired sessions with room for one more frame, a UTF-8 text of at most `MAX_MESSAGE_BYTES`
  -- bytes is sealed by `encrypt_message`, whatever time it carries, into a frame that
  -- `handle_frame` of the other side opens to the same text, id, time and sequence number, and
  -- the two sessions are paired again. The AEAD is taken to open what it sealed.
  pub message_delivered :
      (text : List ℕ) (msg_id ts : ℕ)
      → length text ≤ max_message_bytes
      → c.is_utf8 text ≡ true
      → ts < 2 ^ 64
      → (a' b' : Session) × (f : Frame) × (encrypt_message c a text msg_id ts ≡ (a', ok f))
        × (handle_frame c b f ≡ (b', ok (message_in a.out_seq msg_id ts text)))
        × Paired a' b'
  unfolding encrypt_message
  message_delivered text msg_id ts short u h =
      let parsed : parse_plaintext c (counted b msg_id) message msg_id (message_plaintext text ts)
          ≡ ok (message_in a.out_seq msg_id ts text) =
        parse-message_plaintext c (counted b msg_id) msg_id ts text h u
        ∙ ap (λ q. ok (message_in q msg_id ts text)) (sent_seq msg_id) in
      let (opened, paired') = delivers message msg_id (message_plaintext text ts) _ refl parsed in
      (
        advanced,
        counted b msg_id,
        seal c advanced message a.out_seq msg_id (message_plaintext text ts),
        rw (le→ltb (length text) max_message_bytes short, checked_succ-lt a.out_seq room),
        opened,
        paired',
      )

  -- What `seal_next` sends for a plaintext that the other side parses.
  abbrev Sends : Option (Session × Frame) → Inbound c.Multiaddr → Type 0
  Sends sent inbound =
      (a' b' : Session) × (f : Frame) × (sent ≡ some (a', f))
      × (handle_frame c b f ≡ (b', ok inbound))
      × Paired a' b'

  seal_next_delivered :
      (t : MessageType) (msg_id : ℕ) (plaintext : List ℕ) (inbound : Inbound c.Multiaddr)
      → is_session_type t ≡ true
      → parse_plaintext c (counted b msg_id) t msg_id plaintext ≡ ok inbound
      → Sends (seal_next c a t msg_id plaintext) inbound
  unfolding seal_next
  seal_next_delivered t msg_id plaintext inbound st parsed =
      let (opened, paired') = delivers t msg_id plaintext inbound st parsed in
      (
        advanced,
        counted b msg_id,
        seal c advanced t a.out_seq msg_id plaintext,
        rw (checked_succ-lt a.out_seq room, seal_next),
        opened,
        paired',
      )

  -- For paired sessions with room for one more frame, an acknowledgement is delivered with the
  -- message id and the sequence number that it acknowledges, and the sessions are paired again.
  -- The AEAD is taken to open what it sealed.
  pub ack_delivered :
      (ack_msg_id ack_seq ts msg_id : ℕ)
      → ack_msg_id < 2 ^ 64
      → ack_seq < 2 ^ 32
      → Sends (encrypt_ack c a ack_msg_id ack_seq ts msg_id) (ack_in ack_msg_id ack_seq)
  unfolding encrypt_ack
  ack_delivered ack_msg_id ack_seq ts msg_id h k =
      seal_next_delivered ack msg_id (ack_plaintext ack_msg_id ack_seq ts) _ refl
        (parse-ack_plaintext c (counted b msg_id) msg_id ack_msg_id ack_seq ts h k)

  -- For paired sessions with room for one more frame, an observed IPv4 or IPv6 address and port
  -- is delivered with its octets, its port and the sequence number, and the sessions are paired
  -- again. The AEAD is taken to open what it sealed.
  pub observed_addr_delivered :
      (ip : IpAddr) (port msg_id : ℕ)
      → IsIpAddr ip
      → port < 2 ^ 16
      → Sends (encrypt_observed_addr c a ip port msg_id) (observed_addr a.out_seq ip port)
  unfolding encrypt_observed_addr
  observed_addr_delivered ip port msg_id i h =
      seal_next_delivered control msg_id (observed_addr_plaintext ip port) _ refl (
        parse-observed_addr_plaintext c (counted b msg_id) msg_id ip port i h
        ∙ ap (λ q. ok (observed_addr q ip port)) (sent_seq msg_id))

  -- For paired sessions with room for one more frame, a dial-back request, and a dial-back
  -- response, over an address whose text has 1 to 512 bytes is delivered with the address, the
  -- sequence number and (for the response) the verdict, and the sessions are paired again. The
  -- AEAD is taken to open what it sealed, and the printed form of an address to parse to it.
  pub dial_back_delivered :
      (addr_laws : AddrLaws c) (addr : c.Multiaddr) (reachable : Bool) (msg_id : ℕ)
      → FitsControl c addr
      → Sends (encrypt_dial_back_req c a addr msg_id) (dial_back_req a.out_seq addr)
        × Sends
            (encrypt_dial_back_res c a addr reachable msg_id)
            (dial_back_res a.out_seq addr reachable)
  unfolding encrypt_dial_back_req encrypt_dial_back_res
  dial_back_delivered addr_laws addr reachable msg_id fits = (
    seal_next_delivered control msg_id (dial_back_req_plaintext c addr) _ refl (
        parse-dial_back_req_plaintext c (counted b msg_id) addr_laws addr fits msg_id
        ∙ ap (λ q. ok (dial_back_req q addr)) (sent_seq msg_id)),
    seal_next_delivered control msg_id (dial_back_res_plaintext c addr reachable) _ refl (
        parse-dial_back_res_plaintext c (counted b msg_id) addr_laws addr fits msg_id reachable
        ∙ ap (λ q. ok (dial_back_res q addr reachable)) (sent_seq msg_id)),
  )
