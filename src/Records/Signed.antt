-- ===== src/Records/Signed.antt =====
-- src/records.rs: what is signed determines every signed field.
use jeangrey.Prelude.{
  ℕ, ◌^◌, ◌<◌, ◌≡◌, ◌≢◌, refl, sym, ap, ◌∙◌, arith, List, [], ◌∷◌, ◌++◌, length, take, drop,
  to_be_bytes, from_be_bytes, length-to_be_bytes, from_be_bytes-to_be_bytes, take_prefix,
  drop_prefix, append_assoc, length-append, ap₂,
}
use jeangrey.Records.{AddrRecord, field, addr_fields, signed_bytes, record_sign_prefix}

-- Two lists with prefixes of one length agree in the prefix and in the rest.
split :
    {a b r s : List ℕ} (n : ℕ) → length a ≡ n → length b ≡ n → a ++ r ≡ b ++ s → (a ≡ b) × (r ≡ s)
split {a} {b} {r} {s} n la lb e = (
  sym (take_prefix n a r la) ∙ (ap (take n) e ∙ take_prefix n b s lb),
  sym (drop_prefix n a r la) ∙ (ap (drop n) e ∙ drop_prefix n b s lb),
)

split_number :
    {m n : ℕ} {r s : List ℕ} (w : ℕ)
    → m < 256 ^ w
    → n < 256 ^ w
    → to_be_bytes w m ++ r ≡ to_be_bytes w n ++ s
    → (m ≡ n) × (r ≡ s)
split_number {m} {n} w h k e =
    let (same, rest) = split w (length-to_be_bytes w m) (length-to_be_bytes w n) e in
    (
      sym (from_be_bytes-to_be_bytes w m h)
          ∙ (ap from_be_bytes same ∙ from_be_bytes-to_be_bytes w n k),
      rest,
    )

split_field :
    {a b r s : List ℕ} (w : ℕ)
    → length a < 256 ^ w
    → length b < 256 ^ w
    → field w a ++ r ≡ field w b ++ s
    → (a ≡ b) × (r ≡ s)
split_field {a} {b} {r} {s} w h k e =
    let flat =
      sym (append_assoc (to_be_bytes w (length a)) a r)
      ∙ (e ∙ append_assoc (to_be_bytes w (length b)) b s) in
    let (n, rest) = split_number w h k flat in split (length a) refl (sym n) rest

-- Every length and number of a record fits its field.
abbrev pub AddrsFit : List (List ℕ) → Type 0
AddrsFit [] = Unit {0}
AddrsFit (a ∷ rest) = (length a < 2 ^ 32) × AddrsFit rest

pub record FitsFields (r : AddrRecord) : Type 0 where
  pub v : r.v < 2 ^ 32
  pub kind : length r.kind < 2 ^ 64
  pub device_uuid : length r.device_uuid < 2 ^ 64
  pub peer_id : length r.peer_id < 2 ^ 64
  pub pubkey : length r.pubkey_b64 < 2 ^ 64
  pub user_id : length r.user_id_hex < 2 ^ 64
  pub user_name : length r.user_name < 2 ^ 64
  pub transport : length r.transport_peer_b58 < 2 ^ 64
  pub addrs : AddrsFit r.addrs
  pub issued_at : r.issued_at < 2 ^ 64
  pub ttl_secs : r.ttl_secs < 2 ^ 64

field_nonempty : (a r : List ℕ) → field 4 a ++ r ≢ []
field_nonempty a r e = omega (
  arith,
  ap length e,
  length-append (field 4 a) r,
  length-append (to_be_bytes 4 (length a)) a,
  length-to_be_bytes 4 (length a),
)

addr_fields-injective :
    (xs ys : List (List ℕ)) → AddrsFit xs → AddrsFit ys → addr_fields xs ≡ addr_fields ys → xs ≡ ys
addr_fields-injective [] [] p q e = refl
addr_fields-injective [] (b ∷ ys) p q e = absurd (field_nonempty b (addr_fields ys) (sym e))
addr_fields-injective (a ∷ xs) [] p q e = absurd (field_nonempty a (addr_fields xs) e)
addr_fields-injective (a ∷ xs) (b ∷ ys) p q e =
    let (same, rest) = split_field 4 (omega (arith, p.0)) (omega (arith, q.0)) e in
    ap₂ ◌∷◌ same (addr_fields-injective xs ys p.1 q.1 rest)

-- The fields that a signature covers: all but the signature.
pub record SameFields (r s : AddrRecord) : Type 0 where
  pub v : r.v ≡ s.v
  pub kind : r.kind ≡ s.kind
  pub device_uuid : r.device_uuid ≡ s.device_uuid
  pub peer_id : r.peer_id ≡ s.peer_id
  pub pubkey : r.pubkey_b64 ≡ s.pubkey_b64
  pub user_id : r.user_id_hex ≡ s.user_id_hex
  pub user_name : r.user_name ≡ s.user_name
  pub transport : r.transport_peer_b58 ≡ s.transport_peer_b58
  pub addrs : r.addrs ≡ s.addrs
  pub issued_at : r.issued_at ≡ s.issued_at
  pub ttl_secs : r.ttl_secs ≡ s.ttl_secs

-- Two records whose numbers and lengths fit their fields and whose signed bytes agree have the
-- same fields, the signature excepted: a signature covers every field.
pub signed_bytes-injective :
    (r s : AddrRecord)
    → FitsFields r
    → FitsFields s
    → signed_bytes r ≡ signed_bytes s
    → SameFields r s
unfolding signed_bytes
signed_bytes-injective r s p q e =
    let (_, e0) =
      split {a = record_sign_prefix} {b = record_sign_prefix} (length record_sign_prefix) refl refl
        e in
    let (v, e1) = split_number 4 (omega (arith, p.v)) (omega (arith, q.v)) e0 in
    let (kind, e2) = split_field 8 (omega (arith, p.kind)) (omega (arith, q.kind)) e1 in
    let (uuid, e3) =
      split_field 8 (omega (arith, p.device_uuid)) (omega (arith, q.device_uuid)) e2 in
    let (peer, e4) = split_field 8 (omega (arith, p.peer_id)) (omega (arith, q.peer_id)) e3 in
    let (key, e5) = split_field 8 (omega (arith, p.pubkey)) (omega (arith, q.pubkey)) e4 in
    let (user, e6) = split_field 8 (omega (arith, p.user_id)) (omega (arith, q.user_id)) e5 in
    let (name, e7) = split_field 8 (omega (arith, p.user_name)) (omega (arith, q.user_name)) e6 in
    let (transport, e8) =
      split_field 8 (omega (arith, p.transport)) (omega (arith, q.transport)) e7 in
    let (issued, e9) =
      split_number 8 (omega (arith, p.issued_at)) (omega (arith, q.issued_at)) e8 in
    let (ttl, e10) = split_number 8 (omega (arith, p.ttl_secs)) (omega (arith, q.ttl_secs)) e9 in
    record {
      v = v;
      kind = kind;
      device_uuid = uuid;
      peer_id = peer;
      pubkey = key;
      user_id = user;
      user_name = name;
      transport = transport;
      addrs = addr_fields-injective r.addrs s.addrs p.addrs q.addrs e10;
      issued_at = issued;
      ttl_secs = ttl;
    }
