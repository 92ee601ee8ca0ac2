-- ===== src/Tests/Stored.antt =====
-- An identity that is created, saved and loaded, and interactive lines.
use jeangrey.Prelude.{
  arith, false, codes, ℕ, ◌≡◌, refl, true, Option, some, none, List, [], ◌∷◌, ◌++◌, take-append,
  drop-append, ok, ◌>>=◌, replicate, get_or, take, drop, length,
}
use jeangrey.Identity.{assemble, peer_id_of}
use jeangrey.Storage.Directory.{
  Storage, StorageCrates, IdentityFile, save_identity, load_identity, parse_identity, identity_file,
  encode_keypair,
}
use jeangrey.Storage.RoundTrip.{StorageLaws, Checked, parse_identity-Checked}
use jeangrey.Cli.Options.{Common}
use jeangrey.Cli.Init.{Drawn, generate, cmd_init}
use jeangrey.Cli.Repl.{ReplCommand, send, read_line}
use jeangrey.Cli.Created.{Initialized, cmd_init-Initialized}
use jeangrey.Tests.Toy.{toy}
use jeangrey.Tests.Published.{plain, plain-CodecLaws, device}

-- A text behind its length.
abbrev put : List ℕ → List ℕ → List ℕ
put text rest = length text ∷ (text ++ rest)

abbrev first : List ℕ → List ℕ
first [] = []
first (n ∷ rest) = take n rest

abbrev rest_of : List ℕ → List ℕ
rest_of [] = []
rest_of (n ∷ rest) = drop n rest

abbrev to_text : IdentityFile → List ℕ
to_text f =
    f.v
    ∷ put f.user_id_hex (
        put f.user_name (
          put f.device_uuid_hex
            (put f.mldsa_seed_b64 (put f.transport_keypair_b64 (put f.peer_id_b58 [])))))

abbrev from_text : List ℕ → Option IdentityFile
from_text [] = none
from_text (v ∷ t) =
    let t1 = rest_of t in
    let t2 = rest_of t1 in
    let t3 = rest_of t2 in
    let t4 = rest_of t3 in
    let t5 = rest_of t4 in
    some (record {
      v = v;
      user_id_hex = first t;
      user_name = first t1;
      device_uuid_hex = first t2;
      mldsa_seed_b64 = first t3;
      transport_keypair_b64 = first t4;
      peer_id_b58 = first t5;
    })

abbrev disk : StorageCrates toy
disk = record {
  key_from_seed = λ bs. get_or bs 0 0;
  key_seed = λ k. k ∷ replicate 31 0;
  Keypair = ℕ;
  keypair_to_bytes = λ k. k ∷ [];
  keypair_from_bytes = λ bs. some (get_or bs 0 0);
  keypair_peer = λ k. k;
  identity_to_json = to_text;
  identity_from_json = from_text;
  config_to_json = λ f. f.listen_port ∷ [];
  config_from_json = λ bs. some (record { listen_port = get_or bs 0 0 });
  display_u64 = λ n. n ∷ [];
}

from_text-to_text : (f : IdentityFile) → from_text (to_text f) ≡ some f
from_text-to_text f =
    let p6 = put f.peer_id_b58 [] in
    let p5 = put f.transport_keypair_b64 p6 in
    let p4 = put f.mldsa_seed_b64 p5 in
    let p3 = put f.device_uuid_hex p4 in
    let p2 = put f.user_name p3 in
    rw
      (
        take-append f.user_id_hex p2,
        drop-append f.user_id_hex p2,
        take-append f.user_name p3,
        drop-append f.user_name p3,
        take-append f.device_uuid_hex p4,
        drop-append f.device_uuid_hex p4,
        take-append f.mldsa_seed_b64 p5,
        drop-append f.mldsa_seed_b64 p5,
        take-append f.transport_keypair_b64 p6,
        drop-append f.transport_keypair_b64 p6,
        take-append f.peer_id_b58 [],
      )
      refl

disk-StorageLaws : StorageLaws toy disk
disk-StorageLaws = record {
  key_from_seed-key_seed = λ k. refl;
  length-key_seed = λ k. refl;
  keypair_from_bytes-keypair_to_bytes = λ kp. refl;
  identity_from_json-identity_to_json = from_text-to_text;
}

abbrev empty : Storage
empty = record { identity = none; config = none; history = [] }

abbrev common : Common
common = record { listen_port = some 9123; bootstrap = []; relay = []; relay_server = false }

abbrev drawn : Drawn toy plain disk
drawn = record {
  user_id = replicate 16 9;
  secret_key = 3;
  device_uuid = replicate 16 8;
  keypair = 5;
}

created_example :
    (after : Storage) × (cmd_init toy plain disk true common (97 ∷ 98 ∷ []) drawn empty ≡ ok after)
    × Initialized toy plain disk plain-CodecLaws disk-StorageLaws (λ f. refl) common device 5 after
unfolding generate assemble peer_id_of
created_example =
    cmd_init-Initialized toy plain disk plain-CodecLaws disk-StorageLaws (λ f. refl) common
      (97 ∷ 98 ∷ []) drawn empty device (omega arith) (omega arith) refl refl refl refl

-- Two words and the rest of the line.
sending : read_line toy (codes "send a hi you") ≡ send 97 (codes "hi you")
unfolding read_line jeangrey.Prelude.bytes_eq
sending = refl

sending_nothing : read_line toy (codes "send a") ≡ ReplCommand.unknown
unfolding read_line jeangrey.Prelude.bytes_eq
sending_nothing = refl

abbrev text : List ℕ
text = to_text (identity_file toy plain disk device 5)

loaded : parse_identity toy plain disk text ≡ ok (device, 5)
unfolding parse_identity jeangrey.Storage.Directory.decode_keypair assemble peer_id_of
    jeangrey.Prelude.bytes_eq
loaded = refl

checked_example :
    Checked toy plain disk plain-CodecLaws disk-StorageLaws
      (identity_file toy plain disk device 5)
      (device, 5)
checked_example =
    parse_identity-Checked toy plain disk plain-CodecLaws disk-StorageLaws text
      (identity_file toy plain disk device 5) (device, 5)
      (from_text-to_text (identity_file toy plain disk device 5)) loaded
