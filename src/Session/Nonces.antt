-- ===== src/Session/Nonces.antt =====
-- src/session.rs: the nonces of the frames that a session seals never repeat, in either direction.
use jeangrey.Prelude.{
  ℕ, ◌+◌, ◌-◌, ◌^◌, ◌≤◌, ◌<◌, ◌≡◌, ◌≢◌, sym, ap, subst, ◌∙◌, arith, Bool, Option, some, none, List,
  [], ◌∷◌, ◌++◌, ok, err, Result, length, take, drop, slice, map, take_prefix, drop_prefix,
  drop-drop, to_be_bytes, from_be_bytes, length-to_be_bytes, from_be_bytes-to_be_bytes,
  Option-cases, Bool-cases, some-injective, refl, ltb, inl, inr,
}
use jeangrey.Crates.{Crates}
use jeangrey.Framing.{MessageType, message, Frame}
use jeangrey.Session.State.{
  Session, SessionError, IpAddr, nonce, aad, checked_succ, max_message_bytes,
}
use jeangrey.Session.Plaintext.{message_plaintext}
use jeangrey.Session.Frames.{
  seal, seal_next, encrypt_message, encrypt_ack, encrypt_observed_addr, encrypt_dial_back_req,
  encrypt_dial_back_res,
}

-- The number and the direction can be read back from a nonce.
nonce-seq :
    (dir : List ℕ) (seq : ℕ)
    → length dir ≡ 2
    → seq < 2 ^ 32
    → from_be_bytes (slice 4 8 (nonce dir seq)) ≡ seq
unfolding nonce
nonce-seq dir seq l h =
    let tail = to_be_bytes 4 seq ++ (0 ∷ 0 ∷ 0 ∷ 0 ∷ []) in
    let shift : drop 2 (dir ++ (0 ∷ 0 ∷ tail)) ≡ 0 ∷ 0 ∷ tail =
      drop_prefix 2 dir (0 ∷ 0 ∷ tail) l in
    let four : drop 4 (nonce dir seq) ≡ tail =
      sym (drop-drop 2 2 (nonce dir seq)) ∙ ap (drop 2) shift in
    ap (λ x. from_be_bytes (take 4 x)) four
    ∙ (ap from_be_bytes
          (take_prefix 4 (to_be_bytes 4 seq) (0 ∷ 0 ∷ 0 ∷ 0 ∷ []) (length-to_be_bytes 4 seq))
        ∙ from_be_bytes-to_be_bytes 4 seq h)

nonce-dir : (dir : List ℕ) (seq : ℕ) → length dir ≡ 2 → take 2 (nonce dir seq) ≡ dir
unfolding nonce
nonce-dir dir seq l = take_prefix 2 dir _ l

-- Two nonces that agree are of one direction and one number.
pub nonce-injective :
    (d e : List ℕ) (m n : ℕ)
    → length d ≡ 2
    → length e ≡ 2
    → m < 2 ^ 32
    → n < 2 ^ 32
    → nonce d m ≡ nonce e n
    → (d ≡ e) × (m ≡ n)
nonce-injective d e m n p q h k eq = (
  sym (nonce-dir d m p) ∙ (ap (take 2) eq ∙ nonce-dir e n q),
  sym (nonce-seq d m p h) ∙ (ap (λ x. from_be_bytes (slice 4 8 x)) eq ∙ nonce-seq e n q k),
)

-- The calls that seal a frame, with the clock and the random id that each draws.
pub data Call (Addr : Type 0) : Type 0 where
  message_call : (text : List ℕ) (msg_id ts : ℕ) → Call Addr
  ack_call : (ack_msg_id ack_seq ts msg_id : ℕ) → Call Addr
  observed_addr_call : (ip : IpAddr) (port msg_id : ℕ) → Call Addr
  dial_back_req_call : (addr : Addr) (msg_id : ℕ) → Call Addr
  dial_back_res_call : (addr : Addr) (reachable : Bool) (msg_id : ℕ) → Call Addr

module _ (c : Crates) where
  abbrev sealed : Session × Result SessionError Frame → Option (Session × Frame)
  sealed (s, ok f) = some (s, f)
  sealed (s, err e) = none

  -- One call: the session and the frame, if one was sealed.
  pub call : Session → Call c.Multiaddr → Option (Session × Frame)
  call s (message_call text msg_id ts) = sealed (encrypt_message c s text msg_id ts)
  call s (ack_call ack_msg_id ack_seq ts msg_id) = encrypt_ack c s ack_msg_id ack_seq ts msg_id
  call s (observed_addr_call ip port msg_id) = encrypt_observed_addr c s ip port msg_id
  call s (dial_back_req_call addr msg_id) = encrypt_dial_back_req c s addr msg_id
  call s (dial_back_res_call addr reachable msg_id) =
      encrypt_dial_back_res c s addr reachable msg_id

  -- The frames that a run of calls seals; a call that seals none leaves the session as it was.
  pub frames : Session → List (Call c.Multiaddr) → List Frame
  frames s [] = []
  frames s (k ∷ ks) = elim (call s k) [ none ↦ frames s ks | some (s', f) ↦ f ∷ frames s' ks ]

  -- A sealed frame carries the session's number, and the next one is greater.
  record Sealed (s s' : Session) (f : Frame) : Type 0 where
    pub number : f.seq ≡ s.out_seq
    pub next : s'.out_seq ≡ f.seq + 1
    pub fits : f.seq < 2 ^ 32 - 1
    pub dir : s'.my_dir ≡ s.my_dir
    pub key : s'.send_key ≡ s.send_key
    pub additional : List ℕ
    pub plaintext : List ℕ
    pub ciphertext :
        f.payload ≡ c.encrypt s.send_key (nonce s.my_dir s.out_seq) additional plaintext

  seal-Sealed :
      (s : Session) (t : MessageType) (msg_id next : ℕ) (plaintext : List ℕ)
      → checked_succ s.out_seq ≡ some next
      → s.out_seq < 2 ^ 32
      → let s' = record s { out_seq = next } in Sealed s s' (seal c s' t s.out_seq msg_id plaintext)
  unfolding seal checked_succ
  seal-Sealed s t msg_id next plaintext e h = record {
    number = refl;
    next = ground arith;
    fits = ground arith;
    dir = refl;
    key = refl;
    additional = aad (record s { out_seq = next }) t s.out_seq msg_id;
    plaintext = plaintext;
    ciphertext = refl;
  }

  seal_next-Sealed :
      (s s' : Session) (f : Frame) (t : MessageType) (msg_id : ℕ) (plaintext : List ℕ)
      → seal_next c s t msg_id plaintext ≡ some (s', f)
      → s.out_seq < 2 ^ 32
      → Sealed s s' f
  unfolding seal_next
  seal_next-Sealed s s' f t msg_id plaintext h r = elim (Option-cases (checked_succ s.out_seq)) [
    | inl full ↦ absurd (cc (rw (full, seal_next) at h))
    | inr (next, e) ↦
        let same = some-injective (rw (e, seal_next) at h) in
        subst (λ (q : Session × Frame). Sealed s q.0 q.1) same
          (seal-Sealed s t msg_id next plaintext e r)
  ]

  call-Sealed :
      (s s' : Session) (f : Frame) (k : Call c.Multiaddr)
      → call s k ≡ some (s', f)
      → s.out_seq < 2 ^ 32
      → Sealed s s' f
  unfolding call encrypt_message encrypt_ack encrypt_observed_addr encrypt_dial_back_req
      encrypt_dial_back_res
  call-Sealed s s' f (message_call text msg_id ts) h r =
      elim (Bool-cases (ltb max_message_bytes (length text))) [
        | inl long ↦ absurd (cc (rw (long, call, encrypt_message) at h))
        | inr fits ↦ elim (Option-cases (checked_succ s.out_seq)) [
          | inl full ↦ absurd (cc (rw (fits, full, call, encrypt_message) at h))
          | inr (next, e) ↦
              let same = some-injective (rw (fits, e, call, encrypt_message) at h) in
              subst (λ (q : Session × Frame). Sealed s q.0 q.1) same
                (seal-Sealed s message msg_id next (message_plaintext text ts) e r)
        ]
      ]
  call-Sealed s s' f (ack_call ack_msg_id ack_seq ts msg_id) h r = seal_next-Sealed s s' f _ _ _ h r
  call-Sealed s s' f (observed_addr_call ip port msg_id) h r = seal_next-Sealed s s' f _ _ _ h r
  call-Sealed s s' f (dial_back_req_call addr msg_id) h r = seal_next-Sealed s s' f _ _ _ h r
  call-Sealed s s' f (dial_back_res_call addr reachable msg_id) h r =
      seal_next-Sealed s s' f _ _ _ h r

  -- Every frame of the list has a number from `lo` on that fits a `u32`.
  abbrev From : ℕ → List Frame → Type 0
  From lo [] = Unit {0}
  From lo (f ∷ fs) = (lo ≤ f.seq) × (f.seq < 2 ^ 32) × From lo fs

  From-weaken : (lo hi : ℕ) (fs : List Frame) → lo ≤ hi → From hi fs → From lo fs
  From-weaken lo hi [] h p = tt
  From-weaken lo hi (f ∷ fs) h p = (omega arith, p.1, From-weaken lo hi fs h p.2)

  -- No element of the list is repeated.
  abbrev AllDiffer : List ℕ → List (List ℕ) → Type 0
  AllDiffer x [] = Unit {0}
  AllDiffer x (y ∷ ys) = (x ≢ y) × AllDiffer x ys

  abbrev pub Distinct : List (List ℕ) → Type 0
  Distinct [] = Unit {0}
  Distinct (x ∷ xs) = AllDiffer x xs × Distinct xs

  -- Each frame's payload is a ciphertext under the key and the nonce beside it.
  abbrev pub EncryptedUnder : List ℕ → List (List ℕ) → List Frame → Type 0
  EncryptedUnder key [] [] = Unit {0}
  EncryptedUnder key (n ∷ ns) (f ∷ fs) =
      ((additional plaintext : List ℕ) × (f.payload ≡ c.encrypt key n additional plaintext))
      × EncryptedUnder key ns fs
  EncryptedUnder key _ _ = ⊥

  abbrev nonces : List ℕ → List Frame → List (List ℕ)
  nonces dir fs = map (λ f. nonce dir f.seq) fs

  fresh_nonce :
      (dir : List ℕ) (f : Frame) (fs : List Frame)
      → length dir ≡ 2
      → f.seq < 2 ^ 32
      → From (f.seq + 1) fs
      → AllDiffer (nonce dir f.seq) (nonces dir fs)
  fresh_nonce dir f [] l h p = tt
  fresh_nonce dir f (g ∷ gs) l h p = (
    λ e. omega (arith, (nonce-injective dir dir f.seq g.seq l l h p.1 e).1, p.0),
    fresh_nonce dir f gs l h p.2,
  )

  -- The frames of a run have growing numbers, and so different nonces, and are encrypted under them.
  record Run (key dir : List ℕ) (lo : ℕ) (fs : List Frame) : Type 0 where
    pub numbered : From lo fs
    pub distinct : Distinct (nonces dir fs)
    pub encrypted : EncryptedUnder key (nonces dir fs) fs

  frames-Run :
      (s : Session) (ks : List (Call c.Multiaddr))
      → length s.my_dir ≡ 2
      → s.out_seq < 2 ^ 32
      → Run s.send_key s.my_dir s.out_seq (frames s ks)
  unfolding frames
  frames-Run s [] l h = record { numbered = tt; distinct = tt; encrypted = tt }
  frames-Run s (k ∷ ks) l h = elim (Option-cases (call s k)) [
    | inl e ↦ rw (e, frames) (frames-Run s ks l h)
    | inr ((s', f), e) ↦
        let q = call-Sealed s s' f k e h in
        let same_dir : length s'.my_dir ≡ 2 = ap length q.dir ∙ l in
        let fits : s'.out_seq < 2 ^ 32 = omega (arith, q.next, q.fits) in
        let later : Run s.send_key s.my_dir (f.seq + 1) (frames s' ks) =
          rw (sym q.key, sym q.dir, sym q.next) (frames-Run s' ks same_dir fits) in
        rw (e, frames)
          (record {
            numbered = (
              omega (arith, q.number),
              omega (arith, q.fits),
              From-weaken s.out_seq (f.seq + 1) (frames s' ks) (omega (arith, q.number))
                  later.numbered,
            );
            distinct = (
              fresh_nonce s.my_dir f (frames s' ks) l (omega (arith, q.fits)) later.numbered,
              later.distinct,
            );
            encrypted = (
              (
                q.additional,
                q.plaintext,
                q.ciphertext
                    ∙ ap (λ n. c.encrypt s.send_key (nonce s.my_dir n) q.additional q.plaintext)
                        (sym q.number),
              ),
              later.encrypted,
            );
          })
  ]

  -- Whatever sequence of encrypt calls a session with a two-byte direction tag is given, the
  -- payloads of the frames it seals are encryptions under its send key, one after the other under
  -- pairwise different nonces.
  pub nonces-Distinct :
      (s : Session) (ks : List (Call c.Multiaddr))
      → length s.my_dir ≡ 2
      → s.out_seq < 2 ^ 32
      → (ns : List (List ℕ)) × EncryptedUnder s.send_key ns (frames s ks) × Distinct ns
  nonces-Distinct s ks l h =
      let run = frames-Run s ks l h in (nonces s.my_dir (frames s ks), run.encrypted, run.distinct)
