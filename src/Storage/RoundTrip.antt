-- ===== src/Storage/RoundTrip.antt =====
-- src/storage.rs: what was saved can be loaded, and what is loaded names itself.
use jeangrey.Prelude.{
  ℕ, arith, ◌≡◌, refl, ap, sym, ◌∙◌, true, Option, some, none, List, ok, ok_or_inv, ensure_inv,
  ok-injective, Option-cases, some-injective, inl, inr, subst, ◌>>=◌, length, ==_iff, bytes_eq,
  bytes_eq_refl, bytes_eq→eq,
}
use jeangrey.Crates.{Crates}
use jeangrey.Identity.{DeviceIdentity, UserIdentity, assemble, peer_id_of}
use jeangrey.Records.{Codecs, sixteen}
use jeangrey.Records.RoundTrip.{CodecLaws, sixteen-some}
use jeangrey.Storage.Directory.{
  Storage, StorageCrates, corrupt, panicked, IdentityFile, seed_len, seed_array, Loaded,
  parse_identity, load_identity, save_identity, identity_file, decode_keypair,
}

-- Seeds, keypairs and files can be read back.
pub record StorageLaws (c : Crates) (s : StorageCrates c) : Type 0 where
  pub key_from_seed-key_seed : (k : c.SigningKey) → s.key_from_seed (s.key_seed k) ≡ k
  pub length-key_seed : (k : c.SigningKey) → length (s.key_seed k) ≡ seed_len
  pub keypair_from_bytes-keypair_to_bytes :
      (kp : s.Keypair) → s.keypair_from_bytes (s.keypair_to_bytes kp) ≡ some kp
  pub identity_from_json-identity_to_json :
      (f : IdentityFile) → s.identity_from_json (s.identity_to_json f) ≡ some f

-- An identity that `assemble` made.
assembled_named {ℓ} :
    {c : Crates} {P : Type ℓ} (user : UserIdentity) (key : c.SigningKey) (uuid : List ℕ)
    (transport : c.PeerId) (d : DeviceIdentity c)
    → assemble c user key uuid transport ≡ some d
    → ((p : c.PeerId)
        → peer_id_of c (c.verifying_key key) ≡ some p
        → record {
          user = user;
          secret_key = key;
          verifying_key = c.verifying_key key;
          device_uuid = uuid;
          transport_peer_id = transport;
          peer_id = p;
        }
          ≡ d
        → P)
    → P
unfolding assemble
assembled_named {c = c} user key uuid transport d made k =
    elim (Option-cases (peer_id_of c (c.verifying_key key))) [
      | inl nameless ↦ absurd (cc (rw (assemble, nameless) at made))
      | inr (p, named) ↦ k p named (some-injective (rw (assemble, named) at made))
    ]

module _ (c : Crates) (x : Codecs) (s : StorageCrates c) (codec : CodecLaws c x)
    (laws : StorageLaws c s) where
  -- An identity that `assemble` made with 16-byte ids is loaded from where it was saved as it
  -- was, with its transport keypair. Seeds, keypairs, files and text codecs are taken to be
  -- readable back, and seeds to have 32 bytes.
  pub load_identity-save_identity :
      (user : UserIdentity) (key : c.SigningKey) (uuid : List ℕ) (keypair : s.Keypair)
      (d : DeviceIdentity c) (before : Storage)
      → length user.user_id ≡ 16
      → length uuid ≡ 16
      → assemble c user key uuid (s.keypair_peer keypair) ≡ some d
      → (save_identity c x s true d keypair before >>= λ after. load_identity c x s true after)
        ≡ ok (some (d, keypair))
  unfolding save_identity load_identity parse_identity decode_keypair
  load_identity-save_identity user key uuid keypair d before user_16 uuid_16 made =
      assembled_named user key uuid (s.keypair_peer keypair) d made λ p named same.
        let D : DeviceIdentity c = record {
          user = user;
          secret_key = key;
          verifying_key = c.verifying_key key;
          device_uuid = uuid;
          transport_peer_id = s.keypair_peer keypair;
          peer_id = p;
        } in
        subst
          (λ d.
            (save_identity c x s true d keypair before >>= λ after. load_identity c x s true after)
            ≡ ok (some (d, keypair)))
          same
          (rw
            (
              laws.identity_from_json-identity_to_json (identity_file c x s D keypair),
              codec.b64_decode-b64_encode (s.key_seed key),
              (==_iff (length (s.key_seed key)) seed_len).1 (laws.length-key_seed key),
              codec.hex_decode-hex_encode uuid,
              sixteen-some uuid uuid_16,
              codec.hex_decode-hex_encode user.user_id,
              sixteen-some user.user_id user_16,
              decode_keypair,
              codec.b64_decode-b64_encode (s.keypair_to_bytes keypair),
              laws.keypair_from_bytes-keypair_to_bytes keypair,
              laws.key_from_seed-key_seed key,
              made ∙ ap some (sym same),
              bytes_eq_refl (c.peer_to_base58 p),
            )
            refl)

  -- What is known of an identity that was loaded.
  pub record Checked (file : IdentityFile) (loaded : Loaded c x s) : Type 0 where
    pub seed : List ℕ
    pub seed_stored : x.b64_decode file.mldsa_seed_b64 ≡ some seed
    pub seed_32 : length seed ≡ seed_len
    pub key_rebuilt : loaded.0.secret_key ≡ s.key_from_seed seed
    pub public_half : loaded.0.verifying_key ≡ c.verifying_key loaded.0.secret_key
    pub keypair_stored : decode_keypair c x s file.transport_keypair_b64 ≡ some loaded.1
    pub uuid_stored : sixteen (x.hex_decode file.device_uuid_hex) ≡ some loaded.0.device_uuid
    pub user_stored : sixteen (x.hex_decode file.user_id_hex) ≡ some loaded.0.user.user_id
    pub name_stored : loaded.0.user.user_name ≡ file.user_name
    pub names_itself : peer_id_of c loaded.0.verifying_key ≡ some loaded.0.peer_id
    pub as_stored : c.peer_to_base58 loaded.0.peer_id ≡ file.peer_id_b58
    pub uuid_16 : length loaded.0.device_uuid ≡ 16
    pub user_16 : length loaded.0.user.user_id ≡ 16
    pub same_transport : s.keypair_peer loaded.1 ≡ loaded.0.transport_peer_id

  seed_16 : (o : Option (List ℕ)) (bytes : List ℕ) → sixteen o ≡ some bytes → length bytes ≡ 16
  seed_16 none bytes h = absurd (cc (h))
  seed_16 (some b) bytes h = ground arith

  seed_array-same :
      (bytes seed : List ℕ)
      → seed_array bytes ≡ some seed
      → (bytes ≡ seed) × (length seed ≡ seed_len)
  seed_array-same bytes seed h = ground arith

  -- When the text of an identity file is accepted, the loaded secret key is the one that the
  -- stored seed of 32 bytes gives, the public key is its other half, the peer id is that of this
  -- public key and prints as the stored id, the keypair is the stored one and the transport id is
  -- that of the keypair, and the uuid, the user id (16 bytes each) and the user name are the
  -- stored ones.
  pub parse_identity-Checked :
      (text : List ℕ) (file : IdentityFile) (loaded : Loaded c x s)
      → s.identity_from_json text ≡ some file
      → parse_identity c x s text ≡ ok loaded
      → Checked file loaded
  unfolding parse_identity
  parse_identity-Checked text file loaded here h =
      ok_or_inv (s.identity_from_json text) corrupt _ h λ f parsed h1.
        ok_or_inv (x.b64_decode f.mldsa_seed_b64) corrupt _ h1 λ seed_bytes decoded h2.
          ok_or_inv (seed_array seed_bytes) corrupt _ h2 λ seed sized h3.
            ok_or_inv (sixteen (x.hex_decode f.device_uuid_hex)) corrupt _ h3 λ uuid uuid_ok h4.
              ok_or_inv (sixteen (x.hex_decode f.user_id_hex)) corrupt _ h4 λ user_id user_ok h5.
                ok_or_inv (decode_keypair c x s f.transport_keypair_b64) corrupt _ h5
                  λ keypair kp_ok h6.
                    ok_or_inv
                      (assemble c (record { user_id = user_id; user_name = f.user_name })
                        (s.key_from_seed seed) uuid (s.keypair_peer keypair))
                      panicked _ h6
                      λ identity made h7.
                        ensure_inv (bytes_eq (c.peer_to_base58 identity.peer_id) f.peer_id_b58)
                          corrupt _ h7
                          λ match h8.
                            let e : (identity, keypair) ≡ loaded = ok-injective h8 in
                            let same_file : f ≡ file = some-injective (sym parsed ∙ here) in
                            let uuid_16 = seed_16 (x.hex_decode f.device_uuid_hex) uuid uuid_ok in
                            let user_16 = seed_16 (x.hex_decode f.user_id_hex) user_id user_ok in
                            subst (λ g. Checked g loaded) same_file
                              (subst (Checked f) e (
                                assembled_named
                                  (record { user_id = user_id; user_name = f.user_name })
                                  (s.key_from_seed seed) uuid (s.keypair_peer keypair) identity made
                                  λ p named same.
                                    subst (λ d. Checked f (d, keypair)) same
                                      (record {
                                        seed = seed;
                                        seed_stored =
                                            decoded
                                            ∙ ap some (seed_array-same seed_bytes seed sized).0;
                                        seed_32 = (seed_array-same seed_bytes seed sized).1;
                                        key_rebuilt = refl;
                                        public_half = refl;
                                        keypair_stored = kp_ok;
                                        uuid_stored = uuid_ok;
                                        user_stored = user_ok;
                                        name_stored = refl;
                                        names_itself = named;
                                        as_stored = bytes_eq→eq (c.peer_to_base58 p) f.peer_id_b58 (
                                            subst
                                              (λ (d : DeviceIdentity c).
                                                bytes_eq (c.peer_to_base58 d.peer_id) f.peer_id_b58
                                                ≡ true)
                                              (sym same) match);
                                        uuid_16 = uuid_16;
                                        user_16 = user_16;
                                        same_transport = refl;
                                      })))
