-- ===== src/Helper/Rootless/Interface.antt =====
-- The interface of a rootless network, the address and the daemon of its DNS server.
use dockerwall.Base.{
  ℕ, zero, suc, Option, none, some, List, [], ◌∷◌, ◌++◌, if◌then◌else◌, ◌==◌, list_eq, nat_eq,
}
use dockerwall.Text.{Text, codes, split_ascii_whitespace, split_once, lines}
use dockerwall.Net.Ipv6.{display_ipv6, parse_ipv6}
use dockerwall.Host.{Host}
use dockerwall.Result.{Result, ok, err, Prog, pure, ◌>>=◌}
use dockerwall.Trust.{resolve_binary}
use dockerwall.Manage.{get_dns_port}
use dockerwall.Helper.Command.{run_command_checked, validate_interface_name}

abbrev pub ip_candidates : List Text
ip_candidates = codes "/usr/sbin/ip" ∷ codes "/sbin/ip" ∷ codes "/usr/bin/ip" ∷ []

-- `ROOTLESS_DNS_CIDR`
abbrev pub rootless_dns_cidr : Text
rootless_dns_cidr = codes "198.18.0.1/32"

-- The field behind the first `dev`; the outer option says whether there is one.
unfoldable pub device_field : List Text → Option (Option Text)
device_field [] = none
device_field (field ∷ []) = if field == codes "dev" then some none else none
device_field (field ∷ next ∷ fields) =
    let rest = device_field (next ∷ fields) in
    if field == codes "dev" then some (some next) else rest

unfoldable pub default_device : List Text → Option (Option Text)
default_device [] = none
default_device (field ∷ fields) = if field == codes "default" then device_field fields else none

-- The loop over the routes.
unfoldable pub route_interface : List Text → Result Text
route_interface [] = err (codes "could not determine the default-route interface")
route_interface (route ∷ routes) =
    let rest = route_interface routes in
    elim (default_device (split_ascii_whitespace route)) [
      | none ↦ rest
      | some device ↦ elim device [
        | none ↦ err (codes "default route has no interface")
        | some interface ↦ validate_interface_name interface
      ]
    ]

-- The field behind the first `inet6`.
unfoldable pub inet6_field : List Text → Option Text
inet6_field [] = none
inet6_field (field ∷ []) = none
inet6_field (field ∷ next ∷ fields) =
    let rest = inet6_field (next ∷ fields) in if field == codes "inet6" then some next else rest

-- What one line of `ip -6 addr show` gives: an address whose prefix has 64 bits.
unfoldable pub prefix_of_cidr : Text → Option ℕ
prefix_of_cidr cidr = elim (split_once b'/' cidr) [
  | none ↦ none
  | some parts ↦ if parts.1 == codes "64" then parse_ipv6 parts.0 else none
]

unfoldable pub prefix_of_line : Text → Option ℕ
prefix_of_line line = elim (inet6_field (split_ascii_whitespace line)) [
  | none ↦ none
  | some cidr ↦ prefix_of_cidr cidr
]

unfoldable pub first_prefix : List Text → Option ℕ
first_prefix [] = none
first_prefix (line ∷ rest) =
    let later = first_prefix rest in
    elim (prefix_of_line line) [ none ↦ later | some address ↦ some address ]

-- What is done where there is no result.
unfoldable pub or_else : {W A : Type 0} → Prog W A → Result A × W → Result A × W
or_else next (ok a, w) = (ok a, w)
or_else next (err message, w) = next w

module _ (H : Host) where
  unfoldable pub default_route_interface : Prog H.World Text
  default_route_interface = do
    ip_binary ← resolve_binary H ip_candidates
    output ← run_command_checked H ip_binary (codes "route" ∷ codes "show" ∷ codes "default" ∷ [])
    λ w. (route_interface (lines output.stdout), w)

  unfoldable pub rootless_podman_ipv6_prefix : Text → Text → Prog H.World (Option ℕ)
  rootless_podman_ipv6_prefix ip_binary interface = do
    output ← run_command_checked H ip_binary (
        codes "-o"
        ∷ codes "-6"
        ∷ codes "addr"
        ∷ codes "show"
        ∷ codes "dev"
        ∷ interface
        ∷ codes "scope"
        ∷ codes "global"
        ∷ [])
    pure (first_prefix (lines output.stdout))

  unfoldable pub configure_rootless_podman_source_ipv6 : Text → Text → ℕ → Prog H.World (Unit {0})
  configure_rootless_podman_source_ipv6 ip_binary interface source_ipv6 = do
    _ ← run_command_checked H ip_binary (
        codes "-6"
        ∷ codes "addr"
        ∷ codes "replace"
        ∷ (display_ipv6 source_ipv6 ++ codes "/64")
        ∷ codes "dev"
        ∷ interface
        ∷ codes "preferred_lft"
        ∷ codes "0"
        ∷ codes "valid_lft"
        ∷ codes "forever"
        ∷ [])
    pure tt

  unfoldable pub replace_address : Text → Text → Text → Prog H.World (Unit {0})
  replace_address ip_binary cidr interface = do
    _ ←
        run_command_checked H ip_binary
          (codes "addr" ∷ codes "replace" ∷ cidr ∷ codes "dev" ∷ interface ∷ [])
    pure tt

  unfoldable pub ensure_rootless_dns_alias : Text → Prog H.World (Unit {0})
  ensure_rootless_dns_alias ip_binary = replace_address ip_binary rootless_dns_cidr (codes "lo")

  -- The loop that waits for the daemon: `left` rounds are still to be made.
  unfoldable pub await_dns_port : ℕ → Prog H.World ℕ
  await_dns_port zero w = (err (codes "external host Dockerwall daemon did not become ready"), w)
  await_dns_port (suc left) w =
      or_else (λ v. await_dns_port left (H.sleep 100 v)) (get_dns_port H w)

  unfoldable pub ensure_rootless_dns_daemon : Prog H.World ℕ
  ensure_rootless_dns_daemon w =
      or_else (H.spawn_daemon >>= λ _. await_dns_port 50) (get_dns_port H w)
