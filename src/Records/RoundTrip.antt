-- ===== src/Records/RoundTrip.antt =====
-- src/records.rs: a record that a device signs is accepted while it is fresh.
use jeangrey.Prelude.{
  ℕ, ◌+◌, ◌%◌, ◌^◌, ◌≤◌, ◌<◌, suc, zero, ◌≡◌, refl, ap, arith, true, not, ◌||◌, some, List, [], ◌∷◌,
  ok, length, ltb, ◌==◌, ==_iff, bytes_eq_refl, take, map, le→leb,
}
use jeangrey.Crates.{Crates, PeerIdLaws, AddrLaws, SignatureLaws}
use jeangrey.Crypto.{verify}
use jeangrey.Identity.{DeviceIdentity, peer_id_of}
use jeangrey.Records.{
  Codecs, signed_bytes, record_kind, max_skew_secs, max_addrs, default_ttl_secs, sixteen,
  check_addrs, verify_addr_record, sign_addr_record, unsigned_record,
}
use jeangrey.Records.Verified.{Usable}
use jeangrey.Handshake.Honest.{verify-sign}
use jeangrey.Handshake.RoundTrip.{pubkey_from_bytes-key_encode}

-- What the text codecs and the printed forms of a peer id promise: they can be read back.
pub record CodecLaws (c : Crates) (x : Codecs) : Type 0 where
  pub b64_decode-b64_encode : (bs : List ℕ) → x.b64_decode (x.b64_encode bs) ≡ some bs
  pub hex_decode-hex_encode : (bs : List ℕ) → x.hex_decode (x.hex_encode bs) ≡ some bs
  pub from_bytes-to_bytes : (p : c.PeerId) → c.peer_from_bytes (c.peer_to_bytes p) ≡ some p
  pub from_str-to_base58 : (p : c.PeerId) → c.peer_from_str (c.peer_to_base58 p) ≡ some p

-- An identity whose fields are as `DeviceIdentity::assemble` makes them, with a name that records allow.
pub record Publishable (c : Crates) (d : DeviceIdentity c) : Type 0 where
  pub own_key : c.verifying_key d.secret_key ≡ d.verifying_key
  pub own_id : peer_id_of c d.verifying_key ≡ some d.peer_id
  pub uuid_16 : length d.device_uuid ≡ 16
  pub user_16 : length d.user.user_id ≡ 16
  pub named : 1 ≤ length d.user.user_name
  pub name_fits : length d.user.user_name ≤ 64

length-map : {A B : Type 0} (f : A → B) (xs : List A) → length (map f xs) ≡ length xs
length-map f [] = refl
length-map f (x ∷ xs) = ap (λ n. suc n) (length-map f xs)

take_enough : {A : Type 0} (n : ℕ) (xs : List A) → length xs ≤ n → take n xs ≡ xs
take_enough zero [] h = refl
take_enough zero (x ∷ xs) h = absurd (omega arith)
take_enough (suc n) [] h = refl
take_enough (suc n) (x ∷ xs) h = ap (◌∷◌ x) (take_enough n xs (omega arith))

pub sixteen-some : (bs : List ℕ) → length bs ≡ 16 → sixteen (some bs) ≡ some bs
sixteen-some bs l = rw ((==_iff (length bs) 16).1 l) refl

name_test : (n : ℕ) → 1 ≤ n → n ≤ 64 → not (n == 0 || ltb 64 n) ≡ true
name_test n h k = ground arith

late_test : (a b : ℕ) → b ≤ a → a < 2 ^ 64 → not (ltb (a % 2 ^ 64) b) ≡ true
late_test a b h k = ground arith

pub nonempty_test : (n : ℕ) → 1 ≤ n → not (n == 0) ≡ true
nonempty_test n h = ground arith

module _ (c : Crates) (addr_laws : AddrLaws c) where
  check_addrs-map :
      (addrs : List c.Multiaddr) (seen : List (List ℕ))
      → Usable c addrs seen
      → check_addrs c (map c.addr_to_string addrs) seen ≡ ok addrs
  unfolding check_addrs
  check_addrs-map [] seen u = refl
  check_addrs-map (a ∷ rest) seen (has_tcp, no_p2p, fresh, u) =
      rw
        (
          addr_laws.from_str-to_string a,
          has_tcp,
          no_p2p,
          fresh,
          check_addrs-map rest (c.addr_to_string a ∷ seen) u,
        )
        refl

module _ (c : Crates) (x : Codecs) (ids : PeerIdLaws c) (addr_laws : AddrLaws c)
    (sigs : SignatureLaws c) (codec : CodecLaws c x) (d : DeviceIdentity c)
    (ready : Publishable c d) (addrs : List c.Multiaddr) (usable : Usable c addrs [])
    (some_addrs : 1 ≤ length addrs) (few : length addrs ≤ max_addrs) (now later coins : ℕ)
    (range : now + 150 < 2 ^ 64) (range' : later + 30 < 2 ^ 64) where
  texts : take max_addrs (map c.addr_to_string addrs) ≡ map c.addr_to_string addrs
  texts =
      take_enough max_addrs (map c.addr_to_string addrs)
        (omega (arith, length-map c.addr_to_string addrs))

  valid :
      verify c d.verifying_key
        (signed_bytes (sign_addr_record c x d addrs now coins))
        (c.sign d.secret_key (signed_bytes (unsigned_record c x d addrs now)) coins)
      ≡ true
  unfolding sign_addr_record signed_bytes
  valid = verify-sign c sigs d (signed_bytes (unsigned_record c x d addrs now)) coins ready.own_key

  -- For a device as `assemble` makes it with a user name of 1 to 64 bytes, 1 to 8 usable
  -- addresses and times that do not overflow, the record that `sign_addr_record` makes is
  -- accepted under the device's peer id from 30 seconds before to 150 seconds after it was
  -- issued, with exactly the device's ids, name and addresses. The crates are taken to obey their
  -- laws (peer ids, addresses, signatures, text codecs).
  pub verify_addr_record-sign_addr_record :
      now ≤ later + 30
      → later ≤ now + 150
      → verify_addr_record c x
          (c.peer_to_bytes d.peer_id)
          (sign_addr_record c x d addrs now coins)
          later
        ≡ ok (record {
          peer_id = d.peer_id;
          user_id = d.user.user_id;
          user_name = d.user.user_name;
          device_uuid = d.device_uuid;
          transport_peer = d.transport_peer_id;
          addrs = addrs;
          issued_at = now;
        })
  unfolding verify_addr_record sign_addr_record
  verify_addr_record-sign_addr_record fresh alive =
      rw
        (
          bytes_eq_refl record_kind,
          late_test (later + max_skew_secs) now fresh range',
          late_test (now + default_ttl_secs + max_skew_secs) later (omega arith) (omega arith),
          codec.b64_decode-b64_encode (c.key_encode d.verifying_key),
          pubkey_from_bytes-key_encode c sigs d.verifying_key,
          ready.own_id,
          codec.from_bytes-to_bytes d.peer_id,
          ids.eq_refl d.peer_id,
          bytes_eq_refl (c.peer_to_base58 d.peer_id),
          codec.b64_decode-b64_encode
              (c.sign d.secret_key (signed_bytes (unsigned_record c x d addrs now)) coins),
          valid,
          codec.hex_decode-hex_encode d.user.user_id,
          sixteen-some d.user.user_id ready.user_16,
          name_test (length d.user.user_name) ready.named ready.name_fits,
          codec.from_str-to_base58 d.transport_peer_id,
          texts,
          length-map c.addr_to_string addrs,
          nonempty_test (length addrs) some_addrs,
          le→leb (length addrs) max_addrs few,
          check_addrs-map c addr_laws addrs [] usable,
          codec.hex_decode-hex_encode d.device_uuid,
          sixteen-some d.device_uuid ready.uuid_16,
        )
        refl
