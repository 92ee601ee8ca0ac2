-- ===== src/Session/Establish.antt =====
-- src/session.rs: the session that a completed handshake opens.
use jeangrey.Prelude.{List, [], ◌∷◌, ℕ, if◌then◌else◌}
use jeangrey.Crates.{Crates}
use jeangrey.Handshake.Machine.{HandshakeResult}
use jeangrey.Session.State.{Session}

abbrev lower_dir : List ℕ
lower_dir = 0 ∷ 1 ∷ []

abbrev upper_dir : List ℕ
upper_dir = 0 ∷ 2 ∷ []

module _ (c : Crates) where
  unfoldable pub open_session : HandshakeResult c → Session
  unfolding lower_dir upper_dir
  open_session result =
      let lower = c.peer_lt result.my_id result.peer_id in
      record {
        session_id = result.keys.session_id;
        send_key = result.send_key;
        recv_key = result.recv_key;
        my_dir = if lower then lower_dir else upper_dir;
        peer_dir = if lower then upper_dir else lower_dir;
        out_seq = 0;
        in_seq = 0;
        seq_violations = 0;
        seen = [];
      }
