-- ===== src/Node/Filter.antt =====
-- src/node.rs: `filter_local_addrs` and the interface scan.
use jeangrey.Prelude.{
  ℕ, ◌≡◌, refl, ap, sym, subst, ◌∙◌, inl, inr, true, false, ◌||◌, some, List, [], ◌∷◌, arith,
  Bool-cases, map, bytes_eq_refl, Every, EqLaws, &&-parts,
}
use jeangrey.Crates.{Crates}
use jeangrey.Records.{Codecs, contains}
use jeangrey.Session.State.{IpAddr}
use jeangrey.Node.State.{Node, Env, elapsed, interface_scan_interval}
use jeangrey.Node.Addresses.{
  keeps, filter_from, filter_local_addrs, add_missing, addrs_eq, publish_record,
  refresh_local_addresses,
}

module _ (c : Crates) where
  -- Every address passes the test, and no two print alike.
  abbrev pub Kept : List IpAddr → List c.Multiaddr → List (List ℕ) → Type 0
  Kept ips [] seen = Unit {0}
  Kept ips (a ∷ rest) seen =
      (keeps c ips a ≡ true)
      × (contains (c.addr_to_string a) seen ≡ false)
      × Kept ips rest (c.addr_to_string a ∷ seen)

  -- The address, or one that prints alike, is there.
  abbrev pub Covered : List IpAddr → List c.Multiaddr → List (List ℕ) → c.Multiaddr → Type 0
  Covered ips out seen a =
      keeps c ips a ≡ true
      → (contains (c.addr_to_string a) (map c.addr_to_string out)
          || contains (c.addr_to_string a) seen)
        ≡ true

  Covered-later :
      (ips : List IpAddr) (b : c.Multiaddr) (out addrs : List c.Multiaddr) (seen : List (List ℕ))
      → Every (Covered ips out (c.addr_to_string b ∷ seen)) addrs
      → Every (Covered ips (b ∷ out) seen) addrs
  Covered-later ips b out [] seen all = tt
  Covered-later ips b out (a ∷ rest) seen all =
      ((λ keep. ground (arith, all.0 keep)), Covered-later ips b out rest seen all.1)

  filter_from-Kept :
      (ips : List IpAddr) (addrs : List c.Multiaddr) (seen : List (List ℕ))
      → Kept ips (filter_from c ips addrs seen) seen
        × Every (Covered ips (filter_from c ips addrs seen) seen) addrs
  filter_from-Kept ips [] seen = (tt, tt)
  filter_from-Kept ips (a ∷ rest) seen =
      let text = c.addr_to_string a in
      let Both : List c.Multiaddr → Type 0 =
        λ out. Kept ips out seen × Every (Covered ips out seen) (a ∷ rest) in
      elim (Bool-cases (keeps c ips a)) [
        | inr dropped ↦
            let (kept, all) = filter_from-Kept ips rest seen in
            let same : filter_from c ips rest seen ≡ filter_from c ips (a ∷ rest) seen =
              sym (rw (dropped) refl) in
            subst Both same (kept, ((λ keep. absurd (cc (keep, dropped))), all))
        | inl keep ↦ elim (Bool-cases (contains text seen)) [
          | inl again ↦
              let (kept, all) = filter_from-Kept ips rest seen in
              let same : filter_from c ips rest seen ≡ filter_from c ips (a ∷ rest) seen =
                sym (rw (keep, again) refl) in
              subst Both same (kept, ((λ k. ground (arith, again)), all))
          | inr fresh ↦
              let (kept, all) = filter_from-Kept ips rest (text ∷ seen) in
              let out = filter_from c ips rest (text ∷ seen) in
              let same : (a ∷ out) ≡ filter_from c ips (a ∷ rest) seen =
                sym (rw (keep, fresh) refl) in
              subst Both same (
                (keep, fresh, kept),
                ((λ k. ground (arith, bytes_eq_refl text)), Covered-later ips a out rest seen all),
              )
        ]
      ]

  -- A list that passes is left as it is.
  filter_from_lem :
      (ips : List IpAddr) (addrs : List c.Multiaddr) (seen : List (List ℕ))
      → Kept ips addrs seen
      → filter_from c ips addrs seen ≡ addrs
  filter_from_lem ips [] seen k = refl
  filter_from_lem ips (a ∷ rest) seen (keep, fresh, kept) =
      rw (keep, fresh) (ap (λ z. a ∷ z) (filter_from_lem ips rest (c.addr_to_string a ∷ seen) kept))

  -- Every address that `filter_local_addrs` returns has a loopback or local IP, or no IP and a
  -- circuit component; no two of them print alike; every address of the input that passes this
  -- test prints as one of them; and filtering again changes nothing.
  pub filter_local_addrs-Kept :
      (addrs : List c.Multiaddr) (ips : List IpAddr)
      → let out = filter_local_addrs c addrs ips in
        Kept ips out [] × Every (Covered ips out []) addrs × (filter_local_addrs c out ips ≡ out)
  unfolding filter_local_addrs
  filter_local_addrs-Kept addrs ips =
      let (kept, all) = filter_from-Kept ips addrs [] in
      (kept, all, filter_from_lem ips (filter_from c ips addrs []) [] kept)

  module _ (laws : EqLaws c.addr_eq) where
    addrs_eq→≡ : (xs ys : List c.Multiaddr) → addrs_eq c xs ys ≡ true → xs ≡ ys
    addrs_eq→≡ [] [] h = refl
    addrs_eq→≡ [] (y ∷ ys) h = absurd (cc (h))
    addrs_eq→≡ (x ∷ xs) [] h = absurd (cc (h))
    addrs_eq→≡ (x ∷ xs) (y ∷ ys) h =
        let (p, q) = &&-parts (c.addr_eq x y) (addrs_eq c xs ys) h in
        ap (λ z. z ∷ xs) (laws.eq→≡ x y p) ∙ ap (λ zs. y ∷ zs) (addrs_eq→≡ xs ys q)

    -- `publish_record` leaves the addresses alone.
    current-publish_record :
        (x : Codecs) (env : Env c) (n : Node c)
        → (publish_record c x env n).current_addrs ≡ n.current_addrs
    unfolding publish_record
    current-publish_record x env n = ground arith

    -- After a due interface scan that succeeds, every current address has a loopback or local IP,
    -- or no IP and a circuit component, and no two of them print alike. The equality test of
    -- addresses is taken to decide equality.
    pub refresh-Kept :
        (x : Codecs) (env : Env c) (n : Node c) (ips : List IpAddr)
        → elapsed env.now n.last_interface_scan interface_scan_interval ≡ true
        → env.interfaces ≡ some ips
        → Kept ips (refresh_local_addresses c x env n).current_addrs []
    unfolding refresh_local_addresses
    refresh-Kept x env n ips due scanned =
        let all = add_missing c env.listeners n.current_addrs in
        let filtered = filter_local_addrs c all ips in
        let changed : Node c = record n {
          last_interface_scan = env.now;
          current_addrs = filtered;
        } in
        let ends : (refresh_local_addresses c x env n).current_addrs ≡ filtered =
          ground
            (arith, due, scanned, addrs_eq→≡ filtered all, current-publish_record x env changed) in
        subst (λ out. Kept ips out []) (sym ends) (filter_local_addrs-Kept all ips).0
