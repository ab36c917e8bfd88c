-- ===== src/Tests/Deny.antt =====
-- The rules of a rootless network on a host with one chain.
use dockerwall.Base.{
  ℕ, ◌≡◌, refl, sym, ap, Bool, true, false, none, some, [], ◌∷◌, ◌++◌, All, eqb, if◌then◌else◌,
  ◌==◌, list_eq, nat_eq, option_eq, length,
}
use dockerwall.Text.{Text, codes}
use dockerwall.Text.Decimal.{parse_uint, push_digit, is_digit, parse_digits}
use dockerwall.Result.{Result, ok}
use dockerwall.Helper.Rule.{
  delete_args, operation_index, ensure_rules, ensure_rule_present, remove_rule_all, insert_rule,
}
use dockerwall.Helper.Chain.Verdict.{verdict}
use dockerwall.Tests.Table.{
  Table, put_into, put, put_at, insert_words, take_away, execute, table_host, table_host_laws,
  shrinks_deletion, other_rule, passes, hits, hits_laws,
}
use dockerwall.Ipset.{ipv6_ipset_name}
use dockerwall.Helper.Rule.Returns.{Shrinks}
use dockerwall.Helper.Rootless.Rules.{
  output_hook, source_established, source_dns, source_allow, source_drop, source_neighbor,
  dns_redirect, dns_redirects, masquerade, rootless_rules, rootless_ipv6_rules,
  ensure_rootless_podman_rules, ensure_ipv6_if, ensure_rootless_podman_ipv6_rules,
}
use dockerwall.Helper.Rootless.Filter.{
  output_rules, output_ipv6_rules, output_policy, output_ipv6_policy,
}
use dockerwall.Helper.Rootless.Deny.{
  OutputLaws, IsApart, rootless_default_deny, rootless_ipv6_default_deny,
}
use dockerwall.Helper.Command.{
  run_command_allow_failure, run_command_checked, check_output, ensure_chain, check_chain,
}
use dockerwall.Helper.Chain.{without_all}
use dockerwall.Tests.Filter.{apart, packet, one_rule, decision}

-- The hosts of the rules of a rootless network: `other` is the tool of the other protocol.
module _ (other : Text) where
  abbrev output_chain : Text
  output_chain = codes "DOCKERWALL-OUTPUT"

  hook-Shrinks :
      (name source_cidr : Text)
      → Shrinks (table_host other output_chain) (λ t. length t.0) (output_hook name source_cidr)
  unfolding delete_args operation_index parse_uint push_digit is_digit execute list_eq nat_eq
      option_eq
  hook-Shrinks name source_cidr =
      other_rule other output_chain (output_hook name source_cidr) refl (λ w. refl)

  others_shrink :
      (name source_cidr interface : Text) (dns_port : ℕ) (b : Bool)
      → All (Shrinks (table_host other output_chain) (λ t. length t.0)) (
          (if b then [] else dns_redirects name source_cidr dns_port)
          ++ (masquerade name source_cidr interface ∷ []))
  unfolding delete_args operation_index parse_uint push_digit is_digit execute list_eq nat_eq
      option_eq dns_redirects dns_redirect
  others_shrink name source_cidr interface dns_port true =
      (other_rule other output_chain (masquerade name source_cidr interface) refl (λ w. refl), tt)
  others_shrink name source_cidr interface dns_port false = (
    other_rule other output_chain
        (dns_redirect name source_cidr dns_port (codes "OUTPUT") (codes "udp")) refl (λ w. refl),
    (
      other_rule other output_chain
          (dns_redirect name source_cidr dns_port (codes "OUTPUT") (codes "tcp")) refl (λ w. refl),
      (
        other_rule other output_chain
            (dns_redirect name source_cidr dns_port (codes "PREROUTING") (codes "udp")) refl
            (λ w. refl),
        (
          other_rule other output_chain
              (dns_redirect name source_cidr dns_port (codes "PREROUTING") (codes "tcp")) refl
              (λ w. refl),
          (
            other_rule other output_chain (masquerade name source_cidr interface) refl (λ w. refl),
            tt,
          ),
        ),
      ),
    ),
  )

  output_host-OutputLaws : OutputLaws (table_host other output_chain) 20 (λ t. length t.0)
  unfolding rootless_rules rootless_ipv6_rules delete_args operation_index parse_uint push_digit
      is_digit list_eq nat_eq option_eq
  output_host-OutputLaws = record {
    bounded = λ w. w.1;
    shrinks = λ name source_cidr interface dns_port. (
      hook-Shrinks name source_cidr,
      (
        shrinks_deletion other output_chain (source_established name source_cidr),
        (
          shrinks_deletion other output_chain (source_dns name source_cidr dns_port (codes "udp")),
          (
            shrinks_deletion other output_chain
                (source_dns name source_cidr dns_port (codes "tcp")),
            (
              shrinks_deletion other output_chain (source_allow name source_cidr name),
              (
                shrinks_deletion other output_chain (source_drop name source_cidr),
                others_shrink name source_cidr interface dns_port (eqb dns_port 53),
              ),
            ),
          ),
        ),
      ),
    );
    shrinks_ipv6 = λ name source_cidr. (
      hook-Shrinks name source_cidr,
      (
        shrinks_deletion other output_chain (source_established name source_cidr),
        (
          shrinks_deletion other output_chain
              (source_neighbor name source_cidr (codes "neighbor-solicitation")),
          (
            shrinks_deletion other output_chain
                (source_neighbor name source_cidr (codes "neighbor-advertisement")),
            (
              shrinks_deletion other output_chain
                  (source_allow name source_cidr (ipv6_ipset_name name)),
              (shrinks_deletion other output_chain (source_drop name source_cidr), tt),
            ),
          ),
        ),
      ),
    );
  }

six_apart : (codes "ip6tables" == codes "iptables") ≡ false
unfolding list_eq nat_eq
six_apart = refl

-- What `ip6tables` does on the host of an IPv4 chain.
ip6tables-IsApart :
    IsApart
      (table_host (codes "ip6tables") (codes "DOCKERWALL-OUTPUT"))
      (codes "ip6tables")
      (λ t. t.0)
unfolding run_command_allow_failure list_eq nat_eq
ip6tables-IsApart args w w' output e = sym (ap (λ r. r.1.0) e)

abbrev source : Text
source = codes "198.18.0.2/32"

rootless_default_deny_example :
    (r : Result (Unit {0})) × (w' : Table) × (ensure_rootless_podman_rules
        (table_host (codes "ip6tables") (codes "DOCKERWALL-OUTPUT"))
        20
        (codes "iptables")
        (codes "ip6tables")
        (codes "net")
        source
        (some (codes "2001:db8::7/128"))
        (codes "eth0")
        5353
        one_rule
      ≡ some (r, w'))
    × (r ≡ ok tt
        → verdict (hits packet) w'.0
          ≡ output_policy (codes "net") source 5353 packet (
              verdict
                (hits packet)
                (without_all (output_rules (codes "net") source 5353) one_rule.0)))
rootless_default_deny_example =
    rootless_default_deny (table_host (codes "ip6tables") (codes "DOCKERWALL-OUTPUT")) 20
      (λ t. length t.0) (output_host-OutputLaws (codes "ip6tables")) (codes "iptables") (λ t. t.0)
      (table_host_laws (codes "ip6tables") (codes "iptables") (codes "DOCKERWALL-OUTPUT") apart)
      (codes "ip6tables") ip6tables-IsApart (codes "net") source (some (codes "2001:db8::7/128"))
      (codes "eth0") 5353 packet (hits packet) one_rule (hits_laws packet)

rootless_ipv6_default_deny_example :
    (r : Result (Unit {0})) × (w' : Table) × (ensure_rootless_podman_ipv6_rules
        (table_host (codes "iptables") (codes "DOCKERWALL-OUTPUT"))
        20
        (codes "ip6tables")
        (codes "net")
        (codes "2001:db8::7/128")
        one_rule
      ≡ some (r, w'))
    × (r ≡ ok tt
        → verdict (hits packet) w'.0
          ≡ output_ipv6_policy (codes "net") (codes "2001:db8::7/128") packet (
              verdict (hits packet) (
                without_all
                  (output_ipv6_rules (codes "net") (codes "2001:db8::7/128"))
                  one_rule.0)))
rootless_ipv6_default_deny_example =
    rootless_ipv6_default_deny (table_host (codes "iptables") (codes "DOCKERWALL-OUTPUT")) 20
      (λ t. length t.0) (output_host-OutputLaws (codes "iptables")) (codes "ip6tables") (λ t. t.0)
      (table_host_laws (codes "iptables") (codes "ip6tables") (codes "DOCKERWALL-OUTPUT") six_apart)
      (codes "net") (codes "2001:db8::7/128") packet (hits packet) one_rule (hits_laws packet)

rootless_packet_dropped :
    decision (
      ensure_rootless_podman_rules
        (table_host (codes "ip6tables") (codes "DOCKERWALL-OUTPUT"))
        20
        (codes "iptables")
        (codes "ip6tables")
        (codes "other")
        (codes "172.30.1.0/28")
        none
        (codes "eth0")
        53
        one_rule)
    ≡ some (codes "DROP")
unfolding ensure_rootless_podman_rules ensure_ipv6_if ensure_chain check_chain rootless_rules
    dns_redirects dns_redirect ensure_rules ensure_rule_present remove_rule_all insert_rule
    run_command_checked check_output run_command_allow_failure delete_args operation_index
    parse_uint push_digit is_digit execute list_eq nat_eq option_eq insert_words put_at put put_into
    take_away parse_digits hits passes
rootless_packet_dropped = refl
