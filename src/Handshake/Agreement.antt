-- ===== src/Handshake/Agreement.antt =====
-- src/handshake.rs: the two sides order and derive alike, so what they hash, combine and pick agrees.
use jeangrey.Prelude.{ℕ, ◌≡◌, ◌≢◌, refl, ap, ◌∙◌, Bool, true, false, not, List, inl, inr}
use jeangrey.Crates.{Crates, PeerIdLaws}
use jeangrey.Crypto.{SessionKeys}
use jeangrey.Handshake.Transcript.{
  Payloads, transcript_input, build_transcript, combine_shared_secrets, select_keys,
}

-- Of two peer ids, exactly one is lower.
pub not-peer_lt :
    (c : Crates) (laws : PeerIdLaws c) (a b : c.PeerId)
    → a ≢ b
    → c.peer_lt b a ≡ not (c.peer_lt a b)
not-peer_lt c laws a b ne = elim (laws.lt_total a b ne) [
  | inl ab ↦ rw (laws.lt_asym a b ab, ab) refl
  | inr ba ↦ rw (ba, laws.lt_asym b a ba) refl
]

transcript_input-not :
    (first : Bool) (mine theirs : Payloads)
    → transcript_input (not first) theirs mine ≡ transcript_input first mine theirs
unfolding transcript_input
transcript_input-not true mine theirs = refl
transcript_input-not false mine theirs = refl

combine_shared_secrets-not :
    (lower : Bool) (s t : List ℕ)
    → combine_shared_secrets t s (not lower) ≡ combine_shared_secrets s t lower
unfolding combine_shared_secrets
combine_shared_secrets-not true s t = refl
combine_shared_secrets-not false s t = refl

module _ (c : Crates) (laws : PeerIdLaws c) (a b : c.PeerId) (ne : a ≢ b) where
  -- For two different peer ids, the transcript digest that one side builds from its own and the
  -- other's payloads is the digest that the other side builds with the two exchanged. The order
  -- of peer ids is taken to be total.
  pub build_transcript-swap :
      (mine theirs : Payloads)
      → build_transcript c b a theirs mine ≡ build_transcript c a b mine theirs
  unfolding build_transcript
  build_transcript-swap mine theirs =
      ap (λ lower. c.sha256 (transcript_input lower theirs mine)) (not-peer_lt c laws a b ne)
      ∙ ap c.sha256 (transcript_input-not (c.peer_lt a b) mine theirs)

  pub combine-swap :
      (s t : List ℕ)
      → combine_shared_secrets t s (c.peer_lt b a) ≡ combine_shared_secrets s t (c.peer_lt a b)
  combine-swap s t =
      ap (combine_shared_secrets t s) (not-peer_lt c laws a b ne)
      ∙ combine_shared_secrets-not (c.peer_lt a b) s t

  -- What one side sends with, the other receives with.
  pub select_keys-swap :
      (keys : SessionKeys)
      → select_keys c keys b a ≡ ((select_keys c keys a b).1, (select_keys c keys a b).0)
  unfolding select_keys
  select_keys-swap keys = elim (laws.lt_total a b ne) [
    | inl ab ↦ rw (laws.lt_asym a b ab, ab) refl
    | inr ba ↦ rw (ba, laws.lt_asym b a ba) refl
  ]
