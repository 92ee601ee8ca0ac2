-- ===== src/Node/Addresses.antt =====
-- src/node.rs: our own addresses, the record that publishes them and the tests on observed addresses.
use jeangrey.Prelude.{
  ℕ, Bool, true, false, not, ◌&&◌, ◌||◌, Option, some, none, List, [], ◌∷◌, ◌++◌, length, ◌==◌,
  bytes_eq, codes, member, retain, if◌then◌else◌,
}
use jeangrey.Crates.{Crates, Protocol, p2p_circuit}
use jeangrey.Records.{Codecs, any, contains, sign_addr_record}
use jeangrey.Session.State.{IpAddr, v4, v6}
use jeangrey.Behaviour.Swarm.{first_ip}
use jeangrey.Node.State.{
  Node, Env, put_record, kad_bootstrap, issue, elapsed, interface_scan_interval,
}

abbrev pub ip_eq : IpAddr → IpAddr → Bool
ip_eq (v4 a) (v4 b) = bytes_eq a b
ip_eq (v6 a) (v6 b) = bytes_eq a b
ip_eq (v4 a) (v6 b) = false
ip_eq (v6 a) (v4 b) = false

-- `IpAddr::is_loopback` of the standard library: 127.0.0.0/8 and ::1.
abbrev pub is_loopback : IpAddr → Bool
is_loopback (v4 []) = false
is_loopback (v4 (a ∷ rest)) = a == 127
is_loopback (v6 octets) =
    bytes_eq octets (0 ∷ 0 ∷ 0 ∷ 0 ∷ 0 ∷ 0 ∷ 0 ∷ 0 ∷ 0 ∷ 0 ∷ 0 ∷ 0 ∷ 0 ∷ 0 ∷ 0 ∷ 1 ∷ [])

abbrev pub is_circuit : {P : Type 0} → Protocol P → Bool
is_circuit p2p_circuit = true
is_circuit _ = false

module _ (c : Crates) where
  -- The `match` on the first IP component of an address.
  unfoldable pub keeps : List IpAddr → c.Multiaddr → Bool
  keeps local_ips a = elim (first_ip c (c.protocols a)) [
    | some ip ↦ is_loopback ip || member ip_eq ip local_ips
    | none ↦ any is_circuit (c.protocols a)
  ]

  -- `seen` holds the texts of the addresses kept so far.
  abbrev pub filter_from : List IpAddr → List c.Multiaddr → List (List ℕ) → List c.Multiaddr
  filter_from local_ips [] seen = []
  filter_from local_ips (a ∷ rest) seen =
      let text = c.addr_to_string a in
      let kept = a ∷ filter_from local_ips rest (text ∷ seen) in
      let left = filter_from local_ips rest seen in
      if keeps local_ips a && not (contains text seen) then kept else left

  unfoldable pub filter_local_addrs : List c.Multiaddr → List IpAddr → List c.Multiaddr
  filter_local_addrs addrs local_ips = filter_from local_ips addrs []

  -- `push` of each address that is not there yet.
  unfoldable pub add_missing : List c.Multiaddr → List c.Multiaddr → List c.Multiaddr
  add_missing [] addrs = addrs
  add_missing (a ∷ rest) addrs =
      add_missing rest (if member c.addr_eq a addrs then addrs else addrs ++ (a ∷ []))

  abbrev pub addrs_eq : List c.Multiaddr → List c.Multiaddr → Bool
  addrs_eq [] [] = true
  addrs_eq [] (b ∷ bs) = false
  addrs_eq (a ∷ as') [] = false
  addrs_eq (a ∷ as') (b ∷ bs) = c.addr_eq a b && addrs_eq as' bs

  -- Whether the set changed, and the node.
  unfoldable pub note_listen_addr : c.Multiaddr → Node c → Bool × Node c
  note_listen_addr addr n =
      if member c.addr_eq addr n.current_addrs
      then (false, n)
      else (true, record n { current_addrs = n.current_addrs ++ (addr ∷ []) })

  unfoldable pub note_listen_addr_gone : c.Multiaddr → Node c → Bool × Node c
  note_listen_addr_gone addr n =
      let left = retain (λ a. not (c.addr_eq a addr)) n.current_addrs in
      (not (length left == length n.current_addrs), record n { current_addrs = left })

  module _ (x : Codecs) where
    unfoldable pub publish_record : Env c → Node c → Node c
    unfolding add_missing
    publish_record env n = elim (add_missing n.validated_public_addrs n.current_addrs) [
      | [] ↦ n
      | a ∷ rest ↦
          let signed = sign_addr_record c x n.identity (a ∷ rest) env.unix_secs env.coins in
          issue c (put_record (c.peer_to_bytes n.identity.peer_id) (x.to_json signed))
            (record n { our_record = signed; last_publish = env.now })
    ]

    unfoldable pub refresh_local_addresses : Env c → Node c → Node c
    refresh_local_addresses env n =
        if not (elapsed env.now n.last_interface_scan interface_scan_interval)
        then n
        else (let n1 = record n { last_interface_scan = env.now } in
            elim env.interfaces [
              | none ↦ n1
              | some local_ips ↦
                  let all = add_missing env.listeners n1.current_addrs in
                  let filtered = filter_local_addrs all local_ips in
                  if addrs_eq filtered all
                  then record n1 { current_addrs = all }
                  else publish_record env (record n1 { current_addrs = filtered })
            ])

  -- The result is only logged.
  unfoldable pub bootstrap_kad : Env c → Node c → Node c
  bootstrap_kad env n = issue c kad_bootstrap (record n { last_bootstrap = env.now })

  unfoldable pub is_external_ip : Env c → Node c → IpAddr → Bool
  is_external_ip env n ip =
      member ip_eq ip n.external_ips
      || (not (is_loopback ip)
          && elim env.interfaces [ some local ↦ not (member ip_eq ip local) | none ↦ true ])

  -- The observed address with our port.
  abbrev pub candidate_text : IpAddr → ℕ → List ℕ
  candidate_text (v4 octets) port =
      codes "/ip4/" ++ (c.display_v4 octets ++ (codes "/tcp/" ++ c.display_u16 port))
  candidate_text (v6 octets) port =
      codes "/ip6/" ++ (c.display_v6 octets ++ (codes "/tcp/" ++ c.display_u16 port))

  unfoldable pub candidate_for : Node c → IpAddr → Option c.Multiaddr
  candidate_for n ip =
      if n.listen_port == 0 then none else c.addr_from_str (candidate_text ip n.listen_port)
