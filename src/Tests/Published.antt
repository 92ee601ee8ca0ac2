-- ===== src/Tests/Published.antt =====
-- The record theorems for one published record.
use jeangrey.Prelude.{◌≡◌, refl, arith, [], ◌∷◌, ok, some, replicate}
use jeangrey.Identity.{DeviceIdentity, peer_id_of}
use jeangrey.Records.{
  AddrRecord, Codecs, VerifiedRecord, sign_addr_record, verify_addr_record, signed_bytes,
  record_kind,
}
use jeangrey.Records.Signed.{FitsFields, SameFields, signed_bytes-injective}
use jeangrey.Records.Verified.{Vouched, verify_addr_record-Vouched}
use jeangrey.Records.RoundTrip.{CodecLaws, Publishable, verify_addr_record-sign_addr_record}
use jeangrey.Tests.Toy.{toy, toy-PeerIdLaws, toy-AddrLaws, toy-SignatureLaws}

abbrev pub plain : Codecs
plain = record {
  b64_encode = λ bs. bs;
  b64_decode = λ bs. some bs;
  hex_encode = λ bs. bs;
  hex_decode = λ bs. some bs;
  to_json = λ r. r.kind;
  from_json = λ bs. some (record {
    v = 1;
    kind = bs;
    device_uuid = [];
    peer_id = [];
    pubkey_b64 = [];
    user_id_hex = [];
    user_name = [];
    transport_peer_b58 = [];
    addrs = [];
    issued_at = 0;
    ttl_secs = 0;
    sig_b64 = [];
  });
}

pub plain-CodecLaws : CodecLaws toy plain
plain-CodecLaws = record {
  b64_decode-b64_encode = λ bs. refl;
  hex_decode-hex_encode = λ bs. refl;
  from_bytes-to_bytes = λ p. refl;
  from_str-to_base58 = λ p. refl;
}

abbrev pub device : DeviceIdentity toy
device = record {
  user = record { user_id = replicate 16 9; user_name = 97 ∷ 98 ∷ [] };
  secret_key = 3;
  verifying_key = 3;
  device_uuid = replicate 16 8;
  transport_peer_id = 5;
  peer_id = 3;
}

pub device-Publishable : Publishable toy device
unfolding peer_id_of
device-Publishable = record {
  own_key = refl;
  own_id = refl;
  uuid_16 = refl;
  user_16 = refl;
  named = omega arith;
  name_fits = omega arith;
}

abbrev pub verified : VerifiedRecord toy
verified = record {
  peer_id = 3;
  user_id = replicate 16 9;
  user_name = 97 ∷ 98 ∷ [];
  device_uuid = replicate 16 8;
  transport_peer = 5;
  addrs = (47 ∷ 49 ∷ []) ∷ [];
  issued_at = 1000;
}

-- Signed at 1000, verified in the last second that it counts.
published_example :
    verify_addr_record toy plain
      (0x12 ∷ 0x20 ∷ 3 ∷ [])
      (sign_addr_record toy plain device ((47 ∷ 49 ∷ []) ∷ []) 1000 0)
      1150
    ≡ ok verified
published_example =
    verify_addr_record-sign_addr_record toy plain toy-PeerIdLaws toy-AddrLaws toy-SignatureLaws
      plain-CodecLaws device device-Publishable ((47 ∷ 49 ∷ []) ∷ []) (refl, refl, refl, tt)
      (omega arith) (omega arith) 1000 1150 0 (omega arith) (omega arith) (omega arith)
      (omega arith)

-- The same a minute after signing.
accepted :
    verify_addr_record toy plain
      (0x12 ∷ 0x20 ∷ 3 ∷ [])
      (sign_addr_record toy plain device ((47 ∷ 49 ∷ []) ∷ []) 1000 0)
      1060
    ≡ ok verified
accepted =
    verify_addr_record-sign_addr_record toy plain toy-PeerIdLaws toy-AddrLaws toy-SignatureLaws
      plain-CodecLaws device device-Publishable ((47 ∷ 49 ∷ []) ∷ []) (refl, refl, refl, tt)
      (omega arith) (omega arith) 1000 1060 0 (omega arith) (omega arith) (omega arith)
      (omega arith)

Vouched_example :
    Vouched toy plain
      (0x12 ∷ 0x20 ∷ 3 ∷ [])
      (sign_addr_record toy plain device ((47 ∷ 49 ∷ []) ∷ []) 1000 0)
      1060
      verified
Vouched_example =
    verify_addr_record-Vouched toy plain toy-PeerIdLaws (0x12 ∷ 0x20 ∷ 3 ∷ [])
      (sign_addr_record toy plain device ((47 ∷ 49 ∷ []) ∷ []) 1000 0) 1060 verified accepted

-- Two records that differ in their signatures alone.
abbrev one : AddrRecord
one = record {
  v = 1;
  kind = record_kind;
  device_uuid = [];
  peer_id = 3 ∷ [];
  pubkey_b64 = 3 ∷ [];
  user_id_hex = [];
  user_name = 97 ∷ [];
  transport_peer_b58 = 5 ∷ [];
  addrs = (47 ∷ []) ∷ [];
  issued_at = 1000;
  ttl_secs = 120;
  sig_b64 = [];
}

abbrev two : AddrRecord
two = record one { sig_b64 = 1 ∷ [] }

one-FitsFields : FitsFields one
one-FitsFields = record {
  v = omega arith;
  kind = omega arith;
  device_uuid = omega arith;
  peer_id = omega arith;
  pubkey = omega arith;
  user_id = omega arith;
  user_name = omega arith;
  transport = omega arith;
  addrs = (omega arith, tt);
  issued_at = omega arith;
  ttl_secs = omega arith;
}

two-FitsFields : FitsFields two
two-FitsFields = record {
  v = omega arith;
  kind = omega arith;
  device_uuid = omega arith;
  peer_id = omega arith;
  pubkey = omega arith;
  user_id = omega arith;
  user_name = omega arith;
  transport = omega arith;
  addrs = (omega arith, tt);
  issued_at = omega arith;
  ttl_secs = omega arith;
}

same_signed : signed_bytes one ≡ signed_bytes two
unfolding signed_bytes
same_signed = refl

SameFields_example : SameFields one two
SameFields_example = signed_bytes-injective one two one-FitsFields two-FitsFields same_signed
