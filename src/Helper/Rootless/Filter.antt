-- ===== src/Helper/Rootless/Filter.antt =====
-- The rules of a rootless network as a packet filter on what leaves the host.
use dockerwall.Base.{
  ℕ, ◌≡◌, refl, ◌∙◌, Bool, true, false, ◌&&◌, ◌||◌, Option, some, List, [], ◌∷◌, ◌++◌, All,
  if◌then◌else◌, eqb, list_eq, nat_eq, option_eq, arith,
}
use dockerwall.Text.{Text, codes}
use dockerwall.Text.Decimal.{to_decimal, digits_of, parse_uint, push_digit, is_digit}
use dockerwall.Ipset.{ipv6_ipset_name}
use dockerwall.Helper.Rule.{delete_args, operation_index}
use dockerwall.Helper.Chain.{Words, insertions}
use dockerwall.Helper.Chain.Front.{Fresh, IsElsewhere}
use dockerwall.Helper.Chain.Verdict.{verdict, verdict_step, Packet, MatchLaws}
use dockerwall.Helper.Rootless.Rules.{
  podman_output_chain, dns_destination, source_established, source_dns, source_allow, source_drop,
  source_neighbor, output_hook, dns_redirect, dns_redirects, masquerade, rootless_rules,
  rootless_ipv6_rules,
}

-- The rules of a network in the chain DOCKERWALL-OUTPUT, those of IPv4 and those of IPv6.
abbrev pub output_rules : Text → Text → ℕ → List Words
output_rules name source_cidr dns_port =
    source_established name source_cidr
    ∷ source_dns name source_cidr dns_port (codes "udp")
    ∷ source_dns name source_cidr dns_port (codes "tcp")
    ∷ source_allow name source_cidr name
    ∷ source_drop name source_cidr
    ∷ []

abbrev pub output_ipv6_rules : Text → Text → List Words
output_ipv6_rules name source_cidr =
    source_established name source_cidr
    ∷ source_neighbor name source_cidr (codes "neighbor-solicitation")
    ∷ source_neighbor name source_cidr (codes "neighbor-advertisement")
    ∷ source_allow name source_cidr (ipv6_ipset_name name)
    ∷ source_drop name source_cidr
    ∷ []

-- What the network's rules are to decide, in front of the rules of the others.
abbrev pub output_policy : Text → Text → ℕ → Packet → Option Text → Option Text
output_policy name source_cidr dns_port packet others =
    if packet.source source_cidr
    then some (
        if packet.state (codes "ESTABLISHED,RELATED")
          || packet.member name
          || (packet.destination (dns_destination dns_port)
              && packet.port (to_decimal dns_port)
              && (packet.protocol (codes "udp") || packet.protocol (codes "tcp")))
        then codes "ACCEPT"
        else codes "DROP")
    else others

abbrev pub output_ipv6_policy : Text → Text → Packet → Option Text → Option Text
output_ipv6_policy name source_cidr packet others =
    if packet.source source_cidr
    then some (
        if packet.state (codes "ESTABLISHED,RELATED")
          || packet.member (ipv6_ipset_name name)
          || (packet.protocol (codes "ipv6-icmp")
              && (packet.icmp_type (codes "neighbor-solicitation")
                  || packet.icmp_type (codes "neighbor-advertisement")))
        then codes "ACCEPT"
        else codes "DROP")
    else others

abbrev pub other_rules : Text → Text → Text → ℕ → List Words
other_rules name source_cidr interface dns_port =
    (if eqb dns_port 53 then [] else dns_redirects name source_cidr dns_port)
    ++ (masquerade name source_cidr interface ∷ [])

module _ (name source_cidr : Text) where
  pub rules_split :
      (interface : Text) (dns_port : ℕ)
      → rootless_rules name source_cidr interface dns_port
        ≡ (output_hook name source_cidr ∷ [])
          ++ (insertions podman_output_chain 0 (output_rules name source_cidr dns_port)
              ++ other_rules name source_cidr interface dns_port)
  unfolding rootless_rules to_decimal digits_of
  rules_split interface dns_port = refl

  pub ipv6_rules_split :
      rootless_ipv6_rules name source_cidr
      ≡ (output_hook name source_cidr ∷ [])
        ++ (insertions podman_output_chain 0 (output_ipv6_rules name source_cidr) ++ [])
  unfolding rootless_ipv6_rules to_decimal digits_of
  ipv6_rules_split = refl

  pub hook-IsElsewhere : IsElsewhere podman_output_chain (output_hook name source_cidr)
  unfolding list_eq nat_eq delete_args operation_index parse_uint push_digit is_digit
  hook-IsElsewhere = (refl, refl)

  redirects-IsElsewhere :
      (interface : Text) (dns_port : ℕ)
      → All
          (IsElsewhere podman_output_chain)
          (dns_redirects name source_cidr dns_port ++ (masquerade name source_cidr interface ∷ []))
  unfolding dns_redirects dns_redirect list_eq nat_eq delete_args operation_index parse_uint
      push_digit is_digit
  redirects-IsElsewhere interface dns_port =
      ((refl, refl), ((refl, refl), ((refl, refl), ((refl, refl), ((refl, refl), tt)))))

  pub others-IsElsewhere :
      (interface : Text) (dns_port : ℕ) (b : Bool)
      → All (IsElsewhere podman_output_chain) (
          (if b then [] else dns_redirects name source_cidr dns_port)
          ++ (masquerade name source_cidr interface ∷ []))
  unfolding list_eq nat_eq delete_args operation_index parse_uint push_digit is_digit
  others-IsElsewhere interface dns_port true = ((refl, refl), tt)
  others-IsElsewhere interface dns_port false = redirects-IsElsewhere interface dns_port

  pub rules-Fresh : (dns_port : ℕ) → Fresh [] (output_rules name source_cidr dns_port)
  unfolding list_eq nat_eq option_eq
  rules-Fresh dns_port = (
    tt,
    (
      ((2, refl), tt),
      (
        ((2, refl), ((5, refl), tt)),
        (
          ((7, refl), ((2, refl), ((2, refl), tt))),
          (((6, refl), ((2, refl), ((2, refl), ((6, refl), tt)))), tt),
        ),
      ),
    ),
  )

  pub ipv6_rules-Fresh : Fresh [] (output_ipv6_rules name source_cidr)
  unfolding list_eq nat_eq option_eq
  ipv6_rules-Fresh = (
    tt,
    (
      ((2, refl), tt),
      (
        ((2, refl), ((7, refl), tt)),
        (
          ((7, refl), ((2, refl), ((2, refl), tt))),
          (((6, refl), ((2, refl), ((2, refl), ((6, refl), tt)))), tt),
        ),
      ),
    ),
  )

module _ (packet : Packet) (hits : Words → Bool) (m : MatchLaws packet hits)
    (name source_cidr : Text) where
  pub verdict_lem :
      (dns_port : ℕ) (others : List Words)
      → verdict hits (output_rules name source_cidr dns_port ++ others)
        ≡ output_policy name source_cidr dns_port packet (verdict hits others)
  verdict_lem dns_port others =
      let from = packet.source source_cidr in
      let dns : Text → Bool = λ protocol.
        from
        && (packet.destination (dns_destination dns_port)
            && (packet.protocol protocol && (packet.port (to_decimal dns_port) && true))) in
      let drops : List Words = source_drop name source_cidr ∷ others in
      let allows : List Words = source_allow name source_cidr name ∷ drops in
      let tcp : List Words = source_dns name source_cidr dns_port (codes "tcp") ∷ allows in
      let udp : List Words = source_dns name source_cidr dns_port (codes "udp") ∷ tcp in
      verdict_step hits (source_established name source_cidr) udp
        (from && (packet.state (codes "ESTABLISHED,RELATED") && true)) (codes "ACCEPT")
        (simp (m.sources, m.loads, m.comments, m.states, m.targets)) refl
        (verdict_step hits (source_dns name source_cidr dns_port (codes "udp")) tcp
          (dns (codes "udp")) (codes "ACCEPT")
          (simp (m.sources, m.destinations, m.protocols, m.ports, m.loads, m.comments, m.targets))
          refl
          (verdict_step hits (source_dns name source_cidr dns_port (codes "tcp")) allows
            (dns (codes "tcp")) (codes "ACCEPT")
            (simp (m.sources, m.destinations, m.protocols, m.ports, m.loads, m.comments, m.targets))
            refl
            (verdict_step hits (source_allow name source_cidr name) drops
              (from && (packet.member name && true)) (codes "ACCEPT")
              (simp (m.sources, m.loads, m.comments, m.members, m.targets)) refl
              (verdict_step hits (source_drop name source_cidr) others (from && true) (codes "DROP")
                (simp (m.sources, m.loads, m.comments, m.targets)) refl
                (refl {a = verdict hits others})))))
      ∙ ground arith

  pub ipv6_verdict_lem :
      (others : List Words)
      → verdict hits (output_ipv6_rules name source_cidr ++ others)
        ≡ output_ipv6_policy name source_cidr packet (verdict hits others)
  ipv6_verdict_lem others =
      let from = packet.source source_cidr in
      let neighbor : Text → Bool = λ icmp_type.
        from && (packet.protocol (codes "ipv6-icmp") && (packet.icmp_type icmp_type && true)) in
      let drops : List Words = source_drop name source_cidr ∷ others in
      let allows : List Words = source_allow name source_cidr (ipv6_ipset_name name) ∷ drops in
      let advertises : List Words =
        source_neighbor name source_cidr (codes "neighbor-advertisement") ∷ allows in
      let solicits : List Words =
        source_neighbor name source_cidr (codes "neighbor-solicitation") ∷ advertises in
      verdict_step hits (source_established name source_cidr) solicits
        (from && (packet.state (codes "ESTABLISHED,RELATED") && true)) (codes "ACCEPT")
        (simp (m.sources, m.loads, m.comments, m.states, m.targets)) refl
        (verdict_step hits (source_neighbor name source_cidr (codes "neighbor-solicitation"))
          advertises (neighbor (codes "neighbor-solicitation")) (codes "ACCEPT")
          (simp (m.sources, m.protocols, m.icmp_types, m.loads, m.comments, m.targets)) refl
          (verdict_step hits (source_neighbor name source_cidr (codes "neighbor-advertisement"))
            allows (neighbor (codes "neighbor-advertisement")) (codes "ACCEPT")
            (simp (m.sources, m.protocols, m.icmp_types, m.loads, m.comments, m.targets)) refl
            (verdict_step hits (source_allow name source_cidr (ipv6_ipset_name name)) drops
              (from && (packet.member (ipv6_ipset_name name) && true)) (codes "ACCEPT")
              (simp (m.sources, m.loads, m.comments, m.members, m.targets)) refl
              (verdict_step hits (source_drop name source_cidr) others (from && true) (codes "DROP")
                (simp (m.sources, m.loads, m.comments, m.targets)) refl
                (refl {a = verdict hits others})))))
      ∙ ground arith
