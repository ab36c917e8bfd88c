-- ===== src/Helper/Rootless/Rules.antt =====
-- The rules of a rootless network: `ensure_rootless_podman_rules` and what it calls.
use dockerwall.Base.{ℕ, Option, none, some, List, [], ◌∷◌, ◌++◌, if◌then◌else◌, eqb}
use dockerwall.Text.{Text, codes}
use dockerwall.Text.Decimal.{to_decimal}
use dockerwall.Host.{Host}
use dockerwall.Result.{pure, Loop, once, ◌>>?◌}
use dockerwall.Ipset.{ipv6_ipset_name}
use dockerwall.Helper.Command.{ensure_chain}
use dockerwall.Helper.Rule.{ensure_rules}
use dockerwall.Helper.Docker.{comment}
use dockerwall.Helper.Rootless.Interface.{rootless_dns_cidr}

abbrev pub podman_output_chain : Text
podman_output_chain = codes "DOCKERWALL-OUTPUT"

-- `ROOTLESS_DNS_REDIRECT_CIDR`
abbrev pub rootless_dns_redirect_cidr : Text
rootless_dns_redirect_cidr = codes "127.0.0.1/32"

abbrev pub dns_destination : ℕ → Text
dns_destination dns_port = if eqb dns_port 53 then rootless_dns_cidr else rootless_dns_redirect_cidr

-- `-j …`
abbrev pub jump : Text → List Text
jump name = codes "-j" ∷ name ∷ []

-- `format!("dockerwall:{name}:…")` behind `-m comment --comment`.
abbrev pub remark : Text → Text → List Text
remark name what = comment (codes "dockerwall:" ++ (name ++ (b':' ∷ what)))

module _ (name source_cidr : Text) where
  abbrev pub from_source : List Text → List Text
  from_source rest = codes "-s" ∷ source_cidr ∷ rest

  abbrev pub output_hook : List Text
  output_hook =
      codes "-I"
      ∷ codes "OUTPUT"
      ∷ codes "1"
      ∷ from_source (remark name (codes "output-hook") ++ jump podman_output_chain)

  abbrev pub at_position : Text → List Text → List Text
  at_position position rule = codes "-I" ∷ podman_output_chain ∷ position ∷ rule

  abbrev pub source_established : List Text
  source_established = from_source (
      remark name (codes "established")
      ++ (codes "-m"
          ∷ codes "conntrack"
          ∷ codes "--ctstate"
          ∷ codes "ESTABLISHED,RELATED"
          ∷ jump (codes "ACCEPT")))

  abbrev pub source_dns : ℕ → Text → List Text
  source_dns dns_port protocol = from_source (
      codes "-d"
      ∷ dns_destination dns_port
      ∷ codes "-p"
      ∷ protocol
      ∷ codes "--dport"
      ∷ to_decimal dns_port
      ∷ (remark name (codes "dns-" ++ protocol) ++ jump (codes "ACCEPT")))

  -- What is in the set may be reached.
  abbrev pub source_allow : Text → List Text
  source_allow set = from_source (
      remark name (codes "allow")
      ++ (codes "-m"
          ∷ codes "set"
          ∷ codes "--match-set"
          ∷ set
          ∷ codes "dst"
          ∷ jump (codes "ACCEPT")))

  abbrev pub source_drop : List Text
  source_drop = from_source (remark name (codes "drop") ++ jump (codes "DROP"))

  abbrev pub source_neighbor : Text → List Text
  source_neighbor icmp_type = from_source (
      codes "-p"
      ∷ codes "ipv6-icmp"
      ∷ codes "-m"
      ∷ codes "icmp6"
      ∷ codes "--icmpv6-type"
      ∷ icmp_type
      ∷ (remark name icmp_type ++ jump (codes "ACCEPT")))

  unfoldable pub dns_redirect : ℕ → Text → Text → List Text
  dns_redirect dns_port chain protocol =
      codes "-t"
      ∷ codes "nat"
      ∷ codes "-I"
      ∷ chain
      ∷ codes "1"
      ∷ from_source (
          codes "-d"
          ∷ rootless_dns_cidr
          ∷ codes "-p"
          ∷ protocol
          ∷ codes "--dport"
          ∷ codes "53"
          ∷ (remark name (codes "dns-" ++ (chain ++ (b'-' ∷ protocol)))
              ++ (codes "-j" ∷ codes "REDIRECT" ∷ codes "--to-ports" ∷ to_decimal dns_port ∷ [])))

  -- The rules of `ensure_rootless_dns_redirects`.
  unfoldable pub dns_redirects : ℕ → List (List Text)
  dns_redirects dns_port =
      dns_redirect dns_port (codes "OUTPUT") (codes "udp")
      ∷ dns_redirect dns_port (codes "OUTPUT") (codes "tcp")
      ∷ dns_redirect dns_port (codes "PREROUTING") (codes "udp")
      ∷ dns_redirect dns_port (codes "PREROUTING") (codes "tcp")
      ∷ []

  abbrev pub masquerade : Text → List Text
  masquerade interface =
      codes "-t"
      ∷ codes "nat"
      ∷ codes "-I"
      ∷ codes "POSTROUTING"
      ∷ codes "1"
      ∷ from_source
          (codes "-o" ∷ interface ∷ (remark name (codes "masquerade") ++ jump (codes "MASQUERADE")))

  -- The rules of `ensure_rootless_podman_rules`, in its order, without those of IPv6.
  unfoldable pub rootless_rules : Text → ℕ → List (List Text)
  rootless_rules interface dns_port =
      output_hook
      ∷ at_position (codes "1") source_established
      ∷ at_position (codes "2") (source_dns dns_port (codes "udp"))
      ∷ at_position (codes "3") (source_dns dns_port (codes "tcp"))
      ∷ at_position (codes "4") (source_allow name)
      ∷ at_position (codes "5") source_drop
      ∷ ((if eqb dns_port 53 then [] else dns_redirects dns_port) ++ (masquerade interface ∷ []))

  -- The rules of `ensure_rootless_podman_ipv6_rules`.
  unfoldable pub rootless_ipv6_rules : List (List Text)
  rootless_ipv6_rules =
      output_hook
      ∷ at_position (codes "1") source_established
      ∷ at_position (codes "2") (source_neighbor (codes "neighbor-solicitation"))
      ∷ at_position (codes "3") (source_neighbor (codes "neighbor-advertisement"))
      ∷ at_position (codes "4") (source_allow (ipv6_ipset_name name))
      ∷ at_position (codes "5") source_drop
      ∷ []

module _ (H : Host) (fuel : ℕ) where
  unfoldable pub ensure_rootless_podman_ipv6_rules : Text → Text → Text → Loop H.World (Unit {0})
  ensure_rootless_podman_ipv6_rules binary name source_cidr =
      once (ensure_chain H binary podman_output_chain) >>? λ _.
      ensure_rules H fuel binary (rootless_ipv6_rules name source_cidr)

  unfoldable pub ensure_ipv6_if : Text → Text → Option Text → Loop H.World (Unit {0})
  ensure_ipv6_if ip6tables_binary name none = once (pure tt)
  ensure_ipv6_if ip6tables_binary name (some source_ipv6_cidr) =
      ensure_rootless_podman_ipv6_rules ip6tables_binary name source_ipv6_cidr

  unfoldable pub ensure_rootless_podman_rules :
      Text → Text → Text → Text → Option Text → Text → ℕ → Loop H.World (Unit {0})
  ensure_rootless_podman_rules binary ip6tables_binary name source_cidr source_ipv6_cidr interface
        dns_port =
      once (ensure_chain H binary podman_output_chain)
      >>? (λ _. ensure_rules H fuel binary (rootless_rules name source_cidr interface dns_port))
      >>? (λ _. ensure_ipv6_if ip6tables_binary name source_ipv6_cidr)
