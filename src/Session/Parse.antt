-- ===== src/Session/Parse.antt =====
-- src/session.rs: `parse_plaintext` inverts each of the plaintexts that the session builds.
use jeangrey.Prelude.{
  ℕ, ◌+◌, ◌-◌, ◌^◌, ◌≤◌, ◌<◌, ◌≡◌, refl, sym, ap, ◌∙◌, arith, Bool, true, false, List, [], ◌∷◌,
  ◌++◌, append_assoc, append-nil, ok, Result, length, drop, slice, slice-middle, take_all, some,
  ne→==, length-append, take_prefix, drop_prefix, length-to_be_bytes, to_be_bytes, from_be_bytes,
  from_be_bytes-to_be_bytes, le→leb, ==_iff, ◌==◌,
}
use jeangrey.Crates.{Crates, AddrLaws}
use jeangrey.Framing.{message, ack, control}
use jeangrey.Session.State.{
  Session, Inbound, SessionError, message_in, ack_in, observed_addr, dial_back_req, dial_back_res,
  IpAddr, v4, v6, max_control_addr_bytes, dial_back_req_tag, dial_back_res_tag,
}
use jeangrey.Session.Plaintext.{
  message_plaintext, ack_plaintext, observed_addr_plaintext, dial_back_req_plaintext,
  dial_back_res_plaintext, addr_bytes, bool_byte, take_addr, take_addr_with_rest, parse_plaintext,
}

-- An IPv4 or IPv6 address by its octets.
abbrev pub IsIpAddr : IpAddr → Type 0
IsIpAddr (v4 octets) = length octets ≡ 4
IsIpAddr (v6 octets) = length octets ≡ 16

-- An address whose text fits a control frame.
abbrev pub FitsControl : (c : Crates) → c.Multiaddr → Type 0
FitsControl c addr =
    (0 < length (c.addr_to_string addr)) × (length (c.addr_to_string addr) ≤ max_control_addr_bytes)

module _ (c : Crates) (s : Session) where
  pub parse-message_plaintext :
      (msg_id ts : ℕ) (text : List ℕ)
      → ts < 2 ^ 64
      → c.is_utf8 text ≡ true
      → parse_plaintext c s message msg_id (message_plaintext text ts)
        ≡ ok (message_in (s.in_seq - 1) msg_id ts text)
  unfolding parse_plaintext message_plaintext
  parse-message_plaintext msg_id ts text h u =
      let l : length (to_be_bytes 8 ts) ≡ 8 = length-to_be_bytes 8 ts in
      let long : 9 ≤ length (message_plaintext text ts) =
        omega (arith, length-append (to_be_bytes 8 ts) text, l) in
      rw (
        le→leb 9 (length (message_plaintext text ts)) long,
        drop_prefix 8 (to_be_bytes 8 ts) text l,
        u,
        take_prefix 8 (to_be_bytes 8 ts) text l,
        from_be_bytes-to_be_bytes 8 ts h,
      )

  pub parse-ack_plaintext :
      (msg_id ack_msg_id ack_seq ts : ℕ)
      → ack_msg_id < 2 ^ 64
      → ack_seq < 2 ^ 32
      → parse_plaintext c s ack msg_id (ack_plaintext ack_msg_id ack_seq ts)
        ≡ ok (ack_in ack_msg_id ack_seq)
  unfolding parse_plaintext ack_plaintext
  parse-ack_plaintext msg_id ack_msg_id ack_seq ts h k =
      let la : length (to_be_bytes 8 ack_msg_id) ≡ 8 = length-to_be_bytes 8 ack_msg_id in
      let lb : length (to_be_bytes 4 ack_seq) ≡ 4 = length-to_be_bytes 4 ack_seq in
      let l : length (ack_plaintext ack_msg_id ack_seq ts) ≡ 21 = omega (
        arith,
        length-append (to_be_bytes 8 ack_msg_id) (to_be_bytes 4 ack_seq ++ to_be_bytes 8 ts),
        length-append (to_be_bytes 4 ack_seq) (to_be_bytes 8 ts),
        la,
        lb,
        length-to_be_bytes 8 ts,
      ) in
      rw (
        (==_iff (length (ack_plaintext ack_msg_id ack_seq ts)) 21).1 l,
        take_prefix 8 (to_be_bytes 8 ack_msg_id) (to_be_bytes 4 ack_seq ++ to_be_bytes 8 ts) la,
        drop_prefix 8 (to_be_bytes 8 ack_msg_id) (to_be_bytes 4 ack_seq ++ to_be_bytes 8 ts) la,
        take_prefix 4 (to_be_bytes 4 ack_seq) (to_be_bytes 8 ts) lb,
        from_be_bytes-to_be_bytes 8 ack_msg_id h,
        from_be_bytes-to_be_bytes 4 ack_seq k,
      )

  pub parse-observed_addr_plaintext :
      (msg_id : ℕ) (ip : IpAddr) (port : ℕ)
      → IsIpAddr ip
      → port < 2 ^ 16
      → parse_plaintext c s control msg_id (observed_addr_plaintext ip port)
        ≡ ok (observed_addr (s.in_seq - 1) ip port)
  unfolding parse_plaintext observed_addr_plaintext
  parse-observed_addr_plaintext msg_id (v4 octets) port l h =
      let total : length (observed_addr_plaintext (v4 octets) port) ≡ 8 =
        omega (arith, length-append octets (to_be_bytes 2 port), length-to_be_bytes 2 port) in
      rw (
        total,
        take_prefix 4 octets (to_be_bytes 2 port) l,
        drop_prefix 4 octets (to_be_bytes 2 port) l,
        take_all 2 (to_be_bytes 2 port) (length-to_be_bytes 2 port),
        from_be_bytes-to_be_bytes 2 port h,
      )
  parse-observed_addr_plaintext msg_id (v6 octets) port l h =
      let total : length (observed_addr_plaintext (v6 octets) port) ≡ 20 =
        omega (arith, length-append octets (to_be_bytes 2 port), length-to_be_bytes 2 port) in
      rw (
        total,
        take_prefix 16 octets (to_be_bytes 2 port) l,
        drop_prefix 16 octets (to_be_bytes 2 port) l,
        take_all 2 (to_be_bytes 2 port) (length-to_be_bytes 2 port),
        from_be_bytes-to_be_bytes 2 port h,
      )

  abbrev text_of : c.Multiaddr → List ℕ
  text_of addr = c.addr_to_string addr

  addr_bytes-of_fits :
      (addr : c.Multiaddr)
      → FitsControl c addr
      → addr_bytes c addr ≡ to_be_bytes 2 (length (text_of addr)) ++ text_of addr
  unfolding addr_bytes
  addr_bytes-of_fits addr (p, q) = rw (
    le→leb (length (text_of addr)) max_control_addr_bytes q,
    take_all (length (text_of addr)) (text_of addr) refl,
  )

  module _ (tag : ℕ) (text rest : List ℕ) (small : length text ≤ max_control_addr_bytes) where
    abbrev len_bytes : List ℕ
    len_bytes = to_be_bytes 2 (length text)

    abbrev plaintext : List ℕ
    plaintext = tag ∷ (len_bytes ++ (text ++ rest))

    len_bytes_two : length len_bytes ≡ 2
    len_bytes_two = length-to_be_bytes 2 (length text)

    len_of : from_be_bytes (slice 1 3 plaintext) ≡ length text
    len_of =
        ap from_be_bytes (take_prefix 2 len_bytes (text ++ rest) len_bytes_two)
        ∙ from_be_bytes-to_be_bytes 2 (length text) (omega arith)

    text_at : slice 3 (3 + length text) plaintext ≡ text
    text_at =
        slice-middle (tag ∷ len_bytes) text rest 3 (3 + length text) (omega (arith, len_bytes_two))
          refl

    rest_at : drop (3 + length text) plaintext ≡ rest
    rest_at =
        let l : length (tag ∷ (len_bytes ++ text)) ≡ 3 + length text =
          omega (arith, length-append len_bytes text, len_bytes_two) in
        ap (drop (3 + length text)) (ap (◌∷◌ tag) (sym (append_assoc len_bytes text rest)))
        ∙ drop_prefix (3 + length text) (tag ∷ (len_bytes ++ text)) rest l

    length-plaintext : length plaintext ≡ 3 + length text + length rest
    length-plaintext =
        omega
          (arith, length-append len_bytes (text ++ rest), length-append text rest, len_bytes_two)

    take_addr_with_rest-plaintext :
        (addr : c.Multiaddr)
        → 0 < length text
        → c.is_utf8 text ≡ true
        → c.addr_from_str text ≡ some addr
        → take_addr_with_rest c plaintext ≡ ok (addr, rest)
    unfolding take_addr_with_rest
    take_addr_with_rest-plaintext addr pos u e = rw (
      le→leb 4 (length plaintext) (omega (arith, length-plaintext)),
      len_of,
      ne→== (length text) 0 (omega arith),
      le→leb (length text) max_control_addr_bytes small,
      le→leb (3 + length text) (length plaintext) (omega (arith, length-plaintext)),
      text_at,
      u,
      e,
      rest_at,
    )

  module _ (laws : AddrLaws c) (addr : c.Multiaddr) (fits : FitsControl c addr) where
    -- An address field parses to the address and what follows it.
    take_addr_with_rest-addr_bytes :
        (tag : ℕ) (rest : List ℕ)
        → take_addr_with_rest c (tag ∷ (addr_bytes c addr ++ rest)) ≡ ok (addr, rest)
    take_addr_with_rest-addr_bytes tag rest =
        rw (addr_bytes-of_fits addr fits, append_assoc)
          (take_addr_with_rest-plaintext tag (text_of addr) rest fits.1 addr fits.0
            (laws.to_string_utf8 addr) (laws.from_str-to_string addr))

    pub parse-dial_back_req_plaintext :
        (msg_id : ℕ)
        → parse_plaintext c s control msg_id (dial_back_req_plaintext c addr)
          ≡ ok (dial_back_req (s.in_seq - 1) addr)
    unfolding parse_plaintext dial_back_req_plaintext take_addr
    parse-dial_back_req_plaintext msg_id =
        let e : take_addr_with_rest c (dial_back_req_plaintext c addr) ≡ ok (addr, []) =
          rw append-nil at (take_addr_with_rest-addr_bytes dial_back_req_tag []) in
        rw (e, take_addr)

    pub parse-dial_back_res_plaintext :
        (msg_id : ℕ) (reachable : Bool)
        → parse_plaintext c s control msg_id (dial_back_res_plaintext c addr reachable)
          ≡ ok (dial_back_res (s.in_seq - 1) addr reachable)
    unfolding parse_plaintext dial_back_res_plaintext
    parse-dial_back_res_plaintext msg_id reachable =
        let a : List ℕ = addr_bytes c addr in
        let long : 4 ≤ length (dial_back_res_plaintext c addr reachable) = omega (
          arith,
          ap length (addr_bytes-of_fits addr fits),
          length-append a (bool_byte reachable ∷ []),
          fits.0,
          length-append (to_be_bytes 2 (length (text_of addr))) (text_of addr),
          length-to_be_bytes 2 (length (text_of addr)),
        ) in
        rw
          (
            le→leb 4 (length (dial_back_res_plaintext c addr reachable)) long,
            take_addr_with_rest-addr_bytes dial_back_res_tag (bool_byte reachable ∷ []),
          )
          (flag reachable)
      where
        flag :
            (r : Bool)
            → ◌≡◌ {A = Result SessionError (Inbound c.Multiaddr)}
                (ok (dial_back_res (s.in_seq - 1) addr (bool_byte r == 1)))
                (ok (dial_back_res (s.in_seq - 1) addr r))
        flag true = refl
        flag false = refl
