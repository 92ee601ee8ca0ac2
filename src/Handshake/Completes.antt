-- ===== src/Handshake/Completes.antt =====
-- src/handshake.rs and src/session.rs: the exchange of two genuine devices gives results that open paired
-- sessions.
use jeangrey.Prelude.{
  ℕ, ◌≡◌, ◌≢◌, refl, sym, subst, ◌++◌, ap, true, Option, List, ok, length, inl, inr,
}
use jeangrey.Crates.{Crates, PeerIdLaws, SignatureLaws, KemLaws, HkdfLaws}
use jeangrey.Crypto.{SessionKeys, session_id_len, derive_session_keys}
use jeangrey.Identity.{DeviceIdentity}
use jeangrey.Handshake.Hello.{PeerHello}
use jeangrey.Handshake.Agreement.{select_keys-swap}
use jeangrey.Session.Establish.{open_session}
use jeangrey.Session.Channel.{Feeds, Paired}
use jeangrey.Handshake.Machine.{HandshakeResult, auth_label, is_expected, result_for}
use jeangrey.Handshake.Stages
use jeangrey.Handshake.Stages.{state}
use jeangrey.Handshake.Exchange.{move_first, move_offer, move_response, move_auth, move_ready}
use jeangrey.Handshake.Honest.{Coins, Genuine, exchange, encapsulate-generate, decapsulate-generate}
use jeangrey.Handshake.Liveness.{
  hello_of, greeting, offer, response, digest, keys, keys-swap, verify-signed,
}

module _ (c : Crates) (ids : PeerIdLaws c) (sigs : SignatureLaws c) (kems : KemLaws c)
    (hkdf : HkdfLaws c) (a b : DeviceIdentity c) (genuine_a : Genuine c a) (genuine_b : Genuine c b)
    (apart : a.peer_id ≢ b.peer_id) (ea eb : Option c.PeerId)
    (dialled_b : is_expected c ea b.peer_id ≡ true) (dialled_a : is_expected c eb a.peer_id ≡ true)
    (now : ℕ) (x y : Coins) where
  abbrev keys_a : SessionKeys
  keys_a = keys c sigs kems a b genuine_b ea dialled_b x y

  abbrev keys_b : SessionKeys
  keys_b = keys c sigs kems b a genuine_a eb dialled_a y x

  abbrev result_a : HandshakeResult c
  result_a =
      result_for c a.peer_id b.peer_id (hello_of c sigs kems a b genuine_b ea dialled_b x y b)
        keys_a

  abbrev result_b : HandshakeResult c
  result_b =
      result_for c b.peer_id a.peer_id (hello_of c sigs kems b a genuine_a eb dialled_a y x a)
        keys_b

  session_id_16 :
      (ikm digest : List ℕ) → length (derive_session_keys c ikm digest).session_id ≡ session_id_len
  unfolding derive_session_keys
  session_id_16 ikm digest = hkdf.length-hkdf_expand digest ikm _ session_id_len

  exchange-results : exchange c a b ea eb now x y ≡ ok (result_a, result_b)
  unfolding exchange
  exchange-results =
      let ga = greeting c sigs kems a b genuine_b ea dialled_b x y in
      let gb = greeting c sigs kems b a genuine_a eb dialled_a y x in
      let oa = offer c sigs kems a b genuine_b ea dialled_b x y in
      let ob = offer c sigs kems b a genuine_a eb dialled_a y x in
      let pa = response c sigs kems a b genuine_b ea dialled_b x y in
      let pb = response c sigs kems b a genuine_a eb dialled_a y x in
      let digest_a = digest c sigs kems a b genuine_b ea dialled_b x y in
      let digest_b = digest c sigs kems b a genuine_a eb dialled_a y x in
      let sa : Stages.Signed c a ea ga oa pa = (
        c.sign b.secret_key (auth_label ++ digest_b) y.sign,
        verify-signed c ids sigs kems a b genuine_a genuine_b apart ea eb dialled_b dialled_a x y,
      ) in
      let sb : Stages.Signed c b eb gb ob pb = (
        c.sign a.secret_key (auth_label ++ digest_a) x.sign,
        verify-signed c ids sigs kems b a genuine_b genuine_a (λ e. apart (sym e)) eb ea dialled_a
            dialled_b y x,
      ) in
      let same =
        ap (λ k. k.session_id)
          (keys-swap c ids sigs kems a b genuine_a genuine_b apart ea eb dialled_b dialled_a x y) in
      rw
        (
          move_first c a ea now ga b eb now refl,
          move_first c b eb now gb a ea now refl,
          move_offer c a ea now ga oa x.seal (encapsulate-generate c kems y.kem x.seal),
          move_offer c b eb now gb ob y.seal (encapsulate-generate c kems x.kem y.seal),
          move_response c a ea now ga oa pa x.sign (decapsulate-generate c kems x.kem y.seal),
          move_response c b eb now gb ob pb y.sign (decapsulate-generate c kems y.kem x.seal),
          move_auth c a ea now ga oa pa 0 sa,
          move_auth c b eb now gb ob pb 0 sb,
          move_ready c a ea now ga oa pa 0 sa keys_b.session_id (session_id_16 _ _) same,
          move_ready c b eb now gb ob pb 0 sb keys_a.session_id (session_id_16 _ _) (sym same),
        )
        refl

  -- Results over the same keys open sessions that are paired.
  open_session-Feeds :
      (k : SessionKeys) (h h' : PeerHello c) (p q : c.PeerId)
      → p ≢ q
      → Feeds (open_session c (result_for c p q h k)) (open_session c (result_for c q p h' k))
  unfolding open_session
  open_session-Feeds k h h' p q ne = record {
    same_id = refl;
    same_key = sym (ap (λ z. z.1) (select_keys-swap c ids p q ne k));
    same_dir = elim (ids.lt_total p q ne) [
      | inl pq ↦ rw (pq, ids.lt_asym p q pq) refl
      | inr qp ↦ rw (qp, ids.lt_asym q p qp) refl
    ];
    in_step = refl;
  }

  -- When two devices as `assemble` makes them, each with a 16-byte uuid and a UTF-8 name of at
  -- most 64 bytes, with different peer ids and each accepting the other, hand each other their
  -- frames kind by kind, both handshakes complete, each result names the other device, and the
  -- sessions that `Session::new` opens from the results are paired. The crates are taken to obey
  -- their laws (peer ids, signatures, KEM, HKDF).
  pub exchange-Paired :
      (ra rb : HandshakeResult c) × (exchange c a b ea eb now x y ≡ ok (ra, rb))
      × (ra.peer_id ≡ b.peer_id)
      × (rb.peer_id ≡ a.peer_id)
      × Paired (open_session c ra) (open_session c rb)
  exchange-Paired =
      let same =
        keys-swap c ids sigs kems a b genuine_a genuine_b apart ea eb dialled_b dialled_a x y in
      (
        result_a,
        result_b,
        exchange-results,
        refl,
        refl,
        subst
            (λ k. Paired (open_session c result_a) (
              open_session c (
                result_for c b.peer_id a.peer_id
                  (hello_of c sigs kems b a genuine_a eb dialled_a y x a) k)))
            (sym same)
            (record {
              forth = open_session-Feeds keys_a _ _ a.peer_id b.peer_id apart;
              back = open_session-Feeds keys_a _ _ b.peer_id a.peer_id (λ e. apart (sym e));
            }),
      )
