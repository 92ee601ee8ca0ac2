-- ===== src/Node/Candidates.antt =====
-- src/node.rs: the addresses that are published besides our own are the ones under a validation that has not
-- been refuted.
use jeangrey.Prelude.{
  ℕ, ◌≡◌, Bool, true, false, not, Option, some, none, List, [], ◌∷◌, ◌++◌, arith, find, insert,
  adjust, member, retain, EqLaws, find-insert_if, find-adjust_if, member-retain_if,
  member-append_one, if◌then◌else◌,
}
use jeangrey.Crates.{Crates}
use jeangrey.Node.State.{Candidate, CandidateState, pending, validated, rejected}
use jeangrey.Node.Probes.{is_validated}

abbrev pub is_rejected : CandidateState → Bool
is_rejected (rejected attempts) = true
is_rejected (pending since) = false
is_rejected (validated since) = false

-- An address may be published, and must be.
abbrev pub live : {c : Crates} → Option (Candidate c) → Bool
live none = false
live (some candidate) = not (is_rejected candidate.state)

abbrev pub certain : {c : Crates} → Option (Candidate c) → Bool
certain none = false
certain (some candidate) = is_validated candidate.state

module _ (c : Crates) where
  -- One address: listed only while live, and always while certain.
  abbrev pub Fits : Bool → Option (Candidate c) → Type 0
  Fits listed candidate =
      (listed ≡ true → live candidate ≡ true) × (certain candidate ≡ true → listed ≡ true)

  abbrev pub Consistent : List (c.Multiaddr × Candidate c) → List c.Multiaddr → Type 0
  Consistent known listed =
      (a : c.Multiaddr) → Fits (member c.addr_eq a listed) (find c.addr_eq a known)

  module _ (laws : EqLaws c.addr_eq) where
    pub Consistent-new_prober :
        (addr : c.Multiaddr) (prober : c.PeerId) (known : List (c.Multiaddr × Candidate c))
        (listed : List c.Multiaddr)
        → Consistent known listed
        → Consistent (adjust c.addr_eq addr (λ k. record k { prober = prober }) known) listed
    Consistent-new_prober addr prober known listed fit a = ground (
      arith,
      find-adjust_if c.addr_eq laws a addr (λ k. record k { prober = prober }) known,
      fit a,
    )

    pub Consistent-pending :
        (addr : c.Multiaddr) (candidate : Candidate c) (now : ℕ)
        (known : List (c.Multiaddr × Candidate c)) (listed : List c.Multiaddr)
        → candidate.state ≡ pending now
        → Consistent known listed
        → Consistent (insert c.addr_eq addr candidate known) listed
    Consistent-pending addr candidate now known listed e fit a =
        ground (arith, find-insert_if c.addr_eq laws a addr candidate known, fit a)

    pub Consistent-accepted :
        (addr : c.Multiaddr) (now : ℕ) (k : Candidate c) (known : List (c.Multiaddr × Candidate c))
        (listed : List c.Multiaddr)
        → find c.addr_eq addr known ≡ some k
        → Consistent known listed
        → Consistent
            (adjust c.addr_eq addr (λ k. record k { state = validated now }) known)
            (if member c.addr_eq addr listed then listed else listed ++ (addr ∷ []))
    Consistent-accepted addr now k known listed here fit a = ground (
      arith,
      find-adjust_if c.addr_eq laws a addr (λ k. record k { state = validated now }) known,
      member-append_one c.addr_eq a addr listed,
      laws.eq→≡ a addr,
      fit a,
    )

    pub Consistent-refused :
        (addr : c.Multiaddr) (attempts : ℕ) (known : List (c.Multiaddr × Candidate c))
        (listed : List c.Multiaddr)
        → Consistent known listed
        → Consistent
            (adjust c.addr_eq addr (λ k. record k { state = rejected attempts }) known)
            (retain (λ a. not (c.addr_eq a addr)) listed)
    Consistent-refused addr attempts known listed fit a = ground (
      arith,
      find-adjust_if c.addr_eq laws a addr (λ k. record k { state = rejected attempts }) known,
      member-retain_if c.addr_eq laws a addr listed,
      fit a,
    )

    pub Consistent-renewed :
        (addr : c.Multiaddr) (now : ℕ) (known : List (c.Multiaddr × Candidate c))
        (listed : List c.Multiaddr)
        → Consistent known listed
        → Consistent (adjust c.addr_eq addr (λ k. record k { state = pending now }) known) listed
    Consistent-renewed addr now known listed fit a = ground (
      arith,
      find-adjust_if c.addr_eq laws a addr (λ k. record k { state = pending now }) known,
      fit a,
    )
