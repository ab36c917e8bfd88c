-- ===== src/Helper/Rootless/Source.antt =====
-- `allocate_rootless_podman_source_ipv6`: an IPv6 address in the /64 of the interface.
use dockerwall.Base.{
  ℕ, zero, suc, ◌/◌, ◌^◌, Option, none, some, List, [], ◌∷◌, ◌++◌, if◌then◌else◌, eqb,
}
use dockerwall.Text.{Text, codes, contains_text, lines}
use dockerwall.Net.Ipv6.{display_ipv6}
use dockerwall.Host.{Host}
use dockerwall.Result.{err, Prog, pure, ◌>>=◌}
use dockerwall.Helper.Address.{rootless_podman_source_ipv6}
use dockerwall.Helper.Command.{run_command_checked, output_rule_source_ipv6}
use dockerwall.Helper.Allocate.{own_marker, unless_shown}
use dockerwall.Helper.Rootless.Interface.{rootless_podman_ipv6_prefix}

-- `segments()[..4]`, the first 64 of the 128 bits.
abbrev pub high_half : ℕ → ℕ
high_half ip = ip / 2 ^ 64

-- The address that a rule of this network has already, if it is in the /64.
unfoldable pub own_source_ipv6 : Text → ℕ → List Text → Option ℕ
own_source_ipv6 marker prefix [] = none
own_source_ipv6 marker prefix (line ∷ rules) =
    let rest = own_source_ipv6 marker prefix rules in
    if contains_text line marker
    then elim (output_rule_source_ipv6 line) [
      | none ↦ rest
      | some source_ip ↦
          if eqb (high_half source_ip) (high_half prefix) then some source_ip else rest
    ]
    else rest

abbrev pub show_args_ipv6 : ℕ → List Text
show_args_ipv6 source_ip =
    codes "-o"
    ∷ codes "-6"
    ∷ codes "addr"
    ∷ codes "show"
    ∷ codes "to"
    ∷ (display_ipv6 source_ip ++ codes "/128")
    ∷ []

module _ (H : Host) (ip_binary name : Text) (prefix : ℕ) where
  -- The loop: `left` attempts are still to be made.
  unfoldable pub free_source_ipv6 : ℕ → ℕ → Prog H.World ℕ
  free_source_ipv6 zero attempt w =
      (err (codes "all managed rootless Podman IPv6 source addresses are in use"), w)
  free_source_ipv6 (suc left) attempt w =
      let source_ip = rootless_podman_source_ipv6 prefix name attempt in
      unless_shown source_ip (free_source_ipv6 left (suc attempt))
        (run_command_checked H ip_binary (show_args_ipv6 source_ip) w)

  unfoldable pub own_or_free_ipv6 : Option ℕ → Prog H.World ℕ
  own_or_free_ipv6 (some source_ip) = pure source_ip
  own_or_free_ipv6 none = free_source_ipv6 50 0

module _ (H : Host) (ip6tables_binary ip_binary interface name : Text) where
  -- Behind the prefix of the interface.
  unfoldable pub allocate_in : Option ℕ → Prog H.World (Option ℕ)
  allocate_in none = pure none
  allocate_in (some prefix) = do
    output ← run_command_checked H ip6tables_binary (codes "-S" ∷ codes "OUTPUT" ∷ [])
    source_ip ←
        own_or_free_ipv6 H ip_binary name prefix
          (own_source_ipv6 (own_marker name) prefix (lines output.stdout))
    pure (some source_ip)

  unfoldable pub allocate_rootless_podman_source_ipv6 : Prog H.World (Option ℕ)
  allocate_rootless_podman_source_ipv6 =
      rootless_podman_ipv6_prefix H ip_binary interface >>= allocate_in
