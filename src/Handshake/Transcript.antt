-- ===== src/Handshake/Transcript.antt =====
-- src/handshake.rs: the transcript digest, the order of the two shared secrets, and the choice of keys.
use jeangrey.Prelude.{ℕ, Bool, List, ◌∷◌, ◌++◌, length, to_be_bytes, if◌then◌else◌}
use jeangrey.Crates.{Crates}
use jeangrey.Crypto.{SessionKeys}

-- The payloads of one side: hello, offer, response.
pub record Payloads : Type 0 where
  pub hello : List ℕ
  pub offer : List ℕ
  pub response : List ℕ

-- One payload as it enters the hash: its tag, its length as a `u32`, its bytes.
abbrev pub chunk : ℕ → List ℕ → List ℕ
chunk tag payload = tag ∷ (to_be_bytes 4 (length payload) ++ payload)

abbrev pub in_order : Bool → List ℕ → List ℕ → List ℕ
in_order mine_first mine theirs = if mine_first then mine ++ theirs else theirs ++ mine

unfoldable pub transcript_input : Bool → Payloads → Payloads → List ℕ
transcript_input mine_first mine theirs =
    in_order mine_first (chunk 1 mine.hello) (chunk 1 theirs.hello)
    ++ (in_order mine_first (chunk 2 mine.offer) (chunk 2 theirs.offer)
        ++ in_order mine_first (chunk 3 mine.response) (chunk 3 theirs.response))

unfoldable pub combine_shared_secrets : List ℕ → List ℕ → Bool → List ℕ
combine_shared_secrets ss_to_peer ss_from_peer mine_is_lower =
    if mine_is_lower then ss_from_peer ++ ss_to_peer else ss_to_peer ++ ss_from_peer

module _ (c : Crates) where
  unfoldable pub build_transcript : c.PeerId → c.PeerId → Payloads → Payloads → List ℕ
  unfolding transcript_input
  build_transcript my_id peer_id mine theirs =
      c.sha256 (transcript_input (c.peer_lt my_id peer_id) mine theirs)

  -- The send key and the receive key.
  unfoldable pub select_keys : SessionKeys → c.PeerId → c.PeerId → List ℕ × List ℕ
  select_keys keys my_id peer_id =
      if c.peer_lt my_id peer_id then (keys.a_to_b, keys.b_to_a) else (keys.b_to_a, keys.a_to_b)
