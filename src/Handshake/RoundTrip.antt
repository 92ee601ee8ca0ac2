-- ===== src/Handshake/RoundTrip.antt =====
-- src/handshake.rs: the peer reads the hello that a device writes.
use jeangrey.Prelude.{
  ℕ, ◌+◌, ◌≤◌, ◌≡◌, refl, ap, sym, ◌∙◌, arith, true, some, List, ◌++◌, length, take, drop, slice,
  leb, ◌==◌, le→leb, ==_iff, to_be_bytes, from_be_bytes, length-append, length-to_be_bytes,
  from_be_bytes-to_be_bytes, slice-middle, take_prefix, drop_prefix, append_assoc,
}
use jeangrey.Crates.{Crates, SignatureLaws}
use jeangrey.Crypto.{pubkey_len, pubkey_from_bytes}
use jeangrey.Identity.{DeviceIdentity}
use jeangrey.Handshake.Hello.{max_user_name, encode_hello, decode_hello}

-- An identity whose name fits the hello: the name is text of at most 64 bytes and the uuid has 16.
pub record Presentable (c : Crates) (d : DeviceIdentity c) : Type 0 where
  pub uuid_16 : length d.device_uuid ≡ 16
  pub name_fits : length d.user.user_name ≤ max_user_name
  pub name_utf8 : c.is_utf8 d.user.user_name ≡ true

module _ (c : Crates) where
  -- What `decode_hello` reads, when every test passes.
  decode_hello_accepts :
      (p : List ℕ) (name : List ℕ) (key : c.VerifyingKey)
      → length p ≡ 18 + length name + pubkey_len
      → from_be_bytes (slice 16 18 p) ≡ length name
      → length name ≤ max_user_name
      → slice 18 (18 + length name) p ≡ name
      → c.is_utf8 name ≡ true
      → pubkey_from_bytes c (drop (18 + length name) p) ≡ some key
      → decode_hello c p ≡ some (record { pubkey = key; device_uuid = take 16 p; user_name = name })
  unfolding decode_hello
  decode_hello_accepts p name key l n fits s utf8 k =
      let long : leb (16 + 2 + pubkey_len) (length p) ≡ true = le→leb _ _ (omega arith) in
      let exact : (length p == 18 + length name + pubkey_len) ≡ true = (==_iff _ _).1 l in
      let short : leb (length name) max_user_name ≡ true = le→leb _ _ fits in
      let read : slice 18 (18 + from_be_bytes (slice 16 18 p)) p ≡ name =
        ap (λ m. slice 18 (18 + m) p) n ∙ s in
      rw (long, n, short, exact, s, utf8, k)
        (ap (λ z. some (record { pubkey = key; device_uuid = take 16 p; user_name = z })) read)

  pub pubkey_from_bytes-key_encode :
      SignatureLaws c → (k : c.VerifyingKey) → pubkey_from_bytes c (c.key_encode k) ≡ some k
  unfolding pubkey_from_bytes
  pubkey_from_bytes-key_encode laws k =
      let size : (length (c.key_encode k) == pubkey_len) ≡ true =
        (==_iff _ _).1 (laws.length-key_encode k) in
      rw (size, laws.key_decode-key_encode k) refl

  -- For an identity with a 16-byte uuid and a UTF-8 name of at most 64 bytes, `decode_hello` of
  -- its encoded hello gives its key, its uuid and its name. Keys are taken to have 1952 bytes and
  -- to be readable back.
  pub decode_hello-encode_hello :
      (laws : SignatureLaws c) (d : DeviceIdentity c)
      → Presentable c d
      → decode_hello c (encode_hello c d)
        ≡ some (record {
          pubkey = d.verifying_key;
          device_uuid = d.device_uuid;
          user_name = d.user.user_name;
        })
  unfolding encode_hello
  decode_hello-encode_hello laws d fit =
      let name = d.user.user_name in
      let size = to_be_bytes 2 (length name) in
      let key = c.key_encode d.verifying_key in
      let p = encode_hello c d in
      let two : length size ≡ 2 = length-to_be_bytes 2 (length name) in
      let front : length (d.device_uuid ++ size) ≡ 18 =
        omega (arith, length-append d.device_uuid size, two, fit.uuid_16) in
      let whole : length p ≡ 18 + length name + pubkey_len = omega (
        arith,
        length-append d.device_uuid (size ++ (name ++ key)),
        length-append size (name ++ key),
        length-append name key,
        two,
        fit.uuid_16,
        laws.length-key_encode d.verifying_key,
      ) in
      let n : from_be_bytes (slice 16 18 p) ≡ length name =
        ap from_be_bytes
          (slice-middle d.device_uuid size (name ++ key) 16 18 fit.uuid_16 (omega (arith, two)))
        ∙ from_be_bytes-to_be_bytes 2 (length name) (omega (arith, fit.name_fits)) in
      let regroup : p ≡ (d.device_uuid ++ size) ++ (name ++ key) =
        sym (append_assoc d.device_uuid size (name ++ key)) in
      let s : slice 18 (18 + length name) p ≡ name =
        ap (slice 18 (18 + length name)) regroup
        ∙ slice-middle (d.device_uuid ++ size) name key 18 (18 + length name) front refl in
      let rest : drop (18 + length name) p ≡ key =
        ap (drop (18 + length name)) (regroup ∙ sym (append_assoc (d.device_uuid ++ size) name key))
        ∙ drop_prefix (18 + length name) (d.device_uuid ++ size ++ name) key
            (omega (arith, length-append (d.device_uuid ++ size) name, front)) in
      decode_hello_accepts p name d.verifying_key whole n fit.name_fits s fit.name_utf8
        (ap (pubkey_from_bytes c) rest ∙ pubkey_from_bytes-key_encode laws d.verifying_key)
      ∙ ap (λ u. some (record { pubkey = d.verifying_key; device_uuid = u; user_name = name }))
          (take_prefix 16 d.device_uuid (size ++ (name ++ key)) fit.uuid_16)
