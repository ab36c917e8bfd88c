-- ===== src/Helper/Rootless.antt =====
-- `prepare_network`, and its Podman branch: a rootless network has a source address of its own, and
-- rules on what leaves the host from it.
pub mod Root
pub mod Interface
pub mod Source
pub mod Rules
pub mod Filter
pub mod Deny
pub mod Allocated
pub mod Refused
use dockerwall.Base.{ℕ, Option, none, some, List, [], ◌∷◌, ◌++◌, map}
use dockerwall.Text.{Text, codes}
use dockerwall.Net.Ipv6.{display_ipv6}
use dockerwall.Host.{Host}
use dockerwall.Result.{Prog, pure, fail, ◌>>=◌, ◌>>◌, Loop, once, ◌>>?◌}
use dockerwall.Trust.{resolve_binary}
use dockerwall.Ipset.{ipset_candidates}
use dockerwall.Manage.{send_create}
use dockerwall.Helper.Command.{validate_interface_name, destroy_ipsets, create_ipsets}
use dockerwall.Helper.Allocate.{cidr_of, allocate_rootless_podman_source_ip}
use dockerwall.Helper.Docker.{iptables_candidates, prepare_docker_network}
use dockerwall.Helper.Rootless.Root.{ensure_host_root}
use dockerwall.Helper.Rootless.Interface.{
  ip_candidates, default_route_interface, replace_address, configure_rootless_podman_source_ipv6,
  ensure_rootless_dns_alias, ensure_rootless_dns_daemon,
}
use dockerwall.Helper.Rootless.Source.{allocate_rootless_podman_source_ipv6}
use dockerwall.Helper.Rootless.Rules.{ensure_rootless_podman_rules}

abbrev ip6tables_candidates : List Text
ip6tables_candidates = codes "/usr/sbin/ip6tables" ∷ codes "/sbin/ip6tables" ∷ []

-- `ContainerRuntime` of src/cli.rs
pub data ContainerRuntime : Type 0 where
  docker podman : ContainerRuntime

-- The variables of `prepare_rootless_podman_network` that its rules take.
pub record RootlessPlan : Type 0 where
  pub iptables_binary : Text
  pub ip6tables_binary : Text
  pub source_cidr : Text
  pub source_ipv6_cidr : Option Text
  pub interface : Text
  pub dns_port : ℕ

abbrev ipv6_cidr : Option ℕ → Option Text
ipv6_cidr none = none
ipv6_cidr (some source_ipv6) = some (display_ipv6 source_ipv6 ++ codes "/128")

module _ (H : Host) where
  unfoldable pub choose_interface : Option Text → Prog H.World Text
  choose_interface none = default_route_interface H
  choose_interface (some interface) = λ w. (validate_interface_name interface, w)

  unfoldable pub configure_if : Text → Text → Option ℕ → Prog H.World (Unit {0})
  configure_if ip_binary interface none = pure tt
  configure_if ip_binary interface (some source_ipv6) =
      configure_rootless_podman_source_ipv6 H ip_binary interface source_ipv6

  -- What follows `ensure_host_root`, up to the rules.
  unfoldable pub prepare_rootless_host : Text → Option Text → Prog H.World RootlessPlan
  prepare_rootless_host name requested_interface = do
    ip_binary ← resolve_binary H ip_candidates
    ensure_rootless_dns_alias H ip_binary
    dns_port ← ensure_rootless_dns_daemon H
    interface ← choose_interface requested_interface
    ipset_binary ← resolve_binary H ipset_candidates
    iptables_binary ← resolve_binary H iptables_candidates
    ip6tables_binary ← resolve_binary H ip6tables_candidates
    source_ip ← allocate_rootless_podman_source_ip H iptables_binary ip_binary name
    source_ipv6 ← allocate_rootless_podman_source_ipv6 H ip6tables_binary ip_binary interface name
    replace_address H ip_binary (cidr_of source_ip) interface
    configure_if ip_binary interface source_ipv6
    destroy_ipsets H ipset_binary name
    create_ipsets H ipset_binary name
    pure (record {
      iptables_binary = iptables_binary;
      ip6tables_binary = ip6tables_binary;
      source_cidr = cidr_of source_ip;
      source_ipv6_cidr = ipv6_cidr source_ipv6;
      interface = interface;
      dns_port = dns_port;
    })

  unfoldable pub rootless_rules_of : ℕ → Text → RootlessPlan → Loop H.World (Unit {0})
  rootless_rules_of fuel name plan =
      ensure_rootless_podman_rules H fuel plan.iptables_binary plan.ip6tables_binary name
        plan.source_cidr plan.source_ipv6_cidr plan.interface plan.dns_port

  unfoldable pub prepare_rootless_podman_network :
      ℕ → Text → List Text → Option Text → Loop H.World (Unit {0})
  prepare_rootless_podman_network fuel name domain_patterns requested_interface =
      once (ensure_host_root H >>= λ _. prepare_rootless_host name requested_interface) >>? λ plan.
      rootless_rules_of fuel name plan >>? λ _.
      once (send_create H name (some plan.source_cidr) domain_patterns)

  unfoldable pub prepare_docker_branch :
      (Text → ℕ → ℕ) → ℕ → Text → List Text → Option Text → Loop H.World (Unit {0})
  prepare_docker_branch hash fuel name domain_patterns none =
      prepare_docker_network H hash fuel name domain_patterns
  prepare_docker_branch hash fuel name domain_patterns (some interface) =
      once (fail (codes "--interface is only valid with --runtime podman"))

  unfoldable pub prepare_network :
      (Text → ℕ → ℕ)
      → ℕ
      → Text
      → List Text
      → ContainerRuntime
      → Option Text
      → Loop H.World (Unit {0})
  prepare_network hash fuel name domain_patterns docker interface =
      prepare_docker_branch hash fuel name domain_patterns interface
  prepare_network hash fuel name domain_patterns podman interface =
      prepare_rootless_podman_network fuel name domain_patterns interface
