-- ===== src/Records.antt =====
-- src/records.rs: signed address records. A `String` is the list of its bytes; the text codecs and serde_json
-- are a parameter. The additions on `u64` wrap, as they do in a release build.
pub mod Signed
pub mod Verified
pub mod RoundTrip
use jeangrey.Prelude.{
  ℕ, ◌+◌, ◌%◌, ◌^◌, Bool, true, false, not, ◌&&◌, ◌||◌, Option, some, none, List, [], ◌∷◌, ◌++◌,
  map, Result, ok, err, ◌>>=◌, ◌>>◌, ensure, ok_or, length, take, ltb, leb, ◌==◌, bytes_eq,
  to_be_bytes, codes, if◌then◌else◌,
}
use jeangrey.Crates.{Crates, Protocol, tcp, p2p}
use jeangrey.Crypto.{verify, pubkey_from_bytes}
use jeangrey.Identity.{DeviceIdentity, peer_id_of}

abbrev pub record_sign_prefix : List ℕ
record_sign_prefix = codes "jeangrey/mvp1/addr-record/v1"

abbrev pub record_kind : List ℕ
record_kind = codes "jeangrey.device-addr.v1"

-- 16 * 1024
abbrev pub max_record_bytes : ℕ
max_record_bytes = 16384

abbrev pub max_addrs : ℕ
max_addrs = 8

abbrev pub default_ttl_secs : ℕ
default_ttl_secs = 120

abbrev pub max_skew_secs : ℕ
max_skew_secs = 30

pub record AddrRecord : Type 0 where
  pub v : ℕ
  pub kind : List ℕ
  pub device_uuid : List ℕ
  pub peer_id : List ℕ
  pub pubkey_b64 : List ℕ
  pub user_id_hex : List ℕ
  pub user_name : List ℕ
  pub transport_peer_b58 : List ℕ
  pub addrs : List (List ℕ)
  pub issued_at : ℕ
  pub ttl_secs : ℕ
  pub sig_b64 : List ℕ

-- The `base64`, `hex` and `serde_json` crates.
pub record Codecs : Type 0 where
  pub b64_encode : List ℕ → List ℕ
  pub b64_decode : List ℕ → Option (List ℕ)
  pub hex_encode : List ℕ → List ℕ
  pub hex_decode : List ℕ → Option (List ℕ)
  pub to_json : AddrRecord → List ℕ
  pub from_json : List ℕ → Option AddrRecord

pub record VerifiedRecord (c : Crates) : Type 0 where
  pub peer_id : c.PeerId
  pub user_id : List ℕ
  pub user_name : List ℕ
  pub device_uuid : List ℕ
  pub transport_peer : c.PeerId
  pub addrs : List c.Multiaddr
  pub issued_at : ℕ

pub data RecordError : Type 0 where
  too_large unsupported_version : ℕ → RecordError
  malformed expired from_the_future key_mismatch bad_signature bad_key no_addresses
        too_many_addresses bad_address :
      RecordError

-- `panicked` is the `expect` of `peer_id_of`.
pub data RecordFault : Type 0 where
  panicked : RecordFault
  failed : RecordError → RecordFault

-- A string with its length before it, as a big-endian number of `w` bytes.
abbrev pub field : ℕ → List ℕ → List ℕ
field w s = to_be_bytes w (length s) ++ s

abbrev pub addr_fields : List (List ℕ) → List ℕ
addr_fields [] = []
addr_fields (a ∷ rest) = field 4 a ++ addr_fields rest

unfoldable pub signed_bytes : AddrRecord → List ℕ
signed_bytes r =
    record_sign_prefix
    ++ (to_be_bytes 4 r.v
        ++ (field 8 r.kind
            ++ (field 8 r.device_uuid
                ++ (field 8 r.peer_id
                    ++ (field 8 r.pubkey_b64
                        ++ (field 8 r.user_id_hex
                            ++ (field 8 r.user_name
                                ++ (field 8 r.transport_peer_b58
                                    ++ (to_be_bytes 8 r.issued_at
                                        ++ (to_be_bytes 8 r.ttl_secs
                                            ++ addr_fields r.addrs))))))))))

abbrev pub is_tcp : {P : Type 0} → Protocol P → Bool
is_tcp (tcp port) = true
is_tcp _ = false

abbrev pub is_p2p : {P : Type 0} → Protocol P → Bool
is_p2p (p2p id) = true
is_p2p _ = false

abbrev pub any : {P : Type 0} → (P → Bool) → List P → Bool
any test [] = false
any test (x ∷ xs) = test x || any test xs

abbrev pub contains : List ℕ → List (List ℕ) → Bool
contains s seen = any (bytes_eq s) seen

-- `hex::decode(..).ok().and_then(|v| v.try_into().ok())` into 16 bytes
abbrev pub sixteen : Option (List ℕ) → Option (List ℕ)
sixteen none = none
sixteen (some bytes) = if length bytes == 16 then some bytes else none

module _ (c : Crates) where
  -- The loop over the addresses; `seen` holds the texts met so far.
  unfoldable pub check_addrs : List (List ℕ) → List (List ℕ) → Result RecordFault (List c.Multiaddr)
  check_addrs [] seen = ok []
  check_addrs (a ∷ rest) seen = do
    maddr ← ok_or (c.addr_from_str a) (failed bad_address)
    ensure (any is_tcp (c.protocols maddr)) (failed bad_address)
    ensure (not (any is_p2p (c.protocols maddr))) (failed bad_address)
    ensure (not (contains (c.addr_to_string maddr) seen)) (failed bad_address)
    addrs ← check_addrs rest (c.addr_to_string maddr ∷ seen)
    ok (maddr ∷ addrs)

module _ (c : Crates) (x : Codecs) where
  unfoldable pub from_bytes : List ℕ → Result RecordError AddrRecord
  from_bytes bytes = do
    ensure (leb (length bytes) max_record_bytes) (too_large (length bytes))
    ok_or (x.from_json bytes) malformed >>= ok

  abbrev pub unsigned_record : DeviceIdentity c → List c.Multiaddr → ℕ → AddrRecord
  unsigned_record identity addrs now = record {
    v = 1;
    kind = record_kind;
    device_uuid = x.hex_encode identity.device_uuid;
    peer_id = c.peer_to_base58 identity.peer_id;
    pubkey_b64 = x.b64_encode (c.key_encode identity.verifying_key);
    user_id_hex = x.hex_encode identity.user.user_id;
    user_name = identity.user.user_name;
    transport_peer_b58 = c.peer_to_base58 identity.transport_peer_id;
    addrs = take max_addrs (map c.addr_to_string addrs);
    issued_at = now;
    ttl_secs = default_ttl_secs;
    sig_b64 = [];
  }

  -- `now` is the clock and `coins` randomizes the signature.
  unfoldable pub sign_addr_record : DeviceIdentity c → List c.Multiaddr → ℕ → ℕ → AddrRecord
  sign_addr_record identity addrs now coins =
      let r = unsigned_record identity addrs now in
      record r { sig_b64 = x.b64_encode (c.sign identity.secret_key (signed_bytes r) coins) }

  unfoldable pub verify_addr_record :
      List ℕ → AddrRecord → ℕ → Result RecordFault (VerifiedRecord c)
  verify_addr_record key r now = do
    ensure (r.v == 1) (failed (unsupported_version r.v))
    ensure (bytes_eq r.kind record_kind) (failed malformed)
    ensure (not (ltb ((now + max_skew_secs) % 2 ^ 64) r.issued_at)) (failed from_the_future)
    ensure (not (ltb ((r.issued_at + r.ttl_secs + max_skew_secs) % 2 ^ 64) now)) (failed expired)
    pk_bytes ← ok_or (x.b64_decode r.pubkey_b64) (failed malformed)
    pubkey ← ok_or (pubkey_from_bytes c pk_bytes) (failed malformed)
    computed ← ok_or (peer_id_of c pubkey) panicked
    key_peer ← ok_or (c.peer_from_bytes key) (failed bad_key)
    ensure (c.peer_eq computed key_peer) (failed key_mismatch)
    ensure (bytes_eq r.peer_id (c.peer_to_base58 computed)) (failed key_mismatch)
    sig ← ok_or (x.b64_decode r.sig_b64) (failed malformed)
    ensure (verify c pubkey (signed_bytes r) sig) (failed bad_signature)
    user_id ← ok_or (sixteen (x.hex_decode r.user_id_hex)) (failed malformed)
    ensure (not (length r.user_name == 0 || ltb 64 (length r.user_name))) (failed malformed)
    transport_peer ← ok_or (c.peer_from_str r.transport_peer_b58) (failed malformed)
    ensure (not (length r.addrs == 0)) (failed no_addresses)
    ensure (leb (length r.addrs) max_addrs) (failed too_many_addresses)
    addrs ← check_addrs c r.addrs []
    device_uuid ← ok_or (sixteen (x.hex_decode r.device_uuid)) (failed malformed)
    ok (record {
      peer_id = computed;
      user_id = user_id;
      user_name = r.user_name;
      device_uuid = device_uuid;
      transport_peer = transport_peer;
      addrs = addrs;
      issued_at = r.issued_at;
    })
