-- ===== src/Helper/Allocate.antt =====
-- `allocate_rootless_podman_source_ip`: the address that a rule of the network has already, or the
-- first one that neither a rule nor an interface has.
pub mod Free
use dockerwall.Base.{
  ℕ, zero, suc, Bool, true, false, Option, none, some, List, [], ◌∷◌, ◌++◌, if◌then◌else◌, any,
  is_empty,
}
use dockerwall.Text.{Text, codes, contains_text, lines}
use dockerwall.Net.Ipv4.{display_ipv4}
use dockerwall.Host.{Host, Output}
use dockerwall.Result.{Result, ok, err, Prog, pure, fail, ◌>>=◌}
use dockerwall.Helper.Address.{source_slots, rootless_podman_source_ip}
use dockerwall.Helper.Command.{run_command_checked, output_rule_source_ip}

unfoldable pub own_marker : Text → Text
own_marker name = codes "dockerwall:" ++ (name ++ codes ":output-hook")

unfoldable pub own_source_ip : Text → List Text → Option ℕ
own_source_ip marker [] = none
own_source_ip marker (line ∷ rules) =
    let rest = own_source_ip marker rules in
    if contains_text line marker
    then elim (output_rule_source_ip line) [ none ↦ rest | some source_ip ↦ some source_ip ]
    else rest

abbrev pub cidr_of : ℕ → Text
cidr_of source_ip = display_ipv4 source_ip ++ codes "/32"

-- The arguments that ask for the interface of an address.
abbrev pub show_args : ℕ → List Text
show_args source_ip =
    codes "-o" ∷ codes "-4" ∷ codes "addr" ∷ codes "show" ∷ codes "to" ∷ cidr_of source_ip ∷ []

-- What an attempt makes of the output of `ip`: the address is free if no interface is shown, and
-- `next` is the rest of the loop.
unfoldable pub unless_shown : {W : Type 0} → ℕ → Prog W ℕ → Result Output × W → Result ℕ × W
unless_shown source_ip next (err message, w) = (err message, w)
unless_shown source_ip next (ok output, w) =
    let later = next w in if is_empty output.stdout then (ok source_ip, w) else later

module _ (H : Host) (ip_binary name : Text) (rules : List Text) where
  -- The loop: `left` attempts are still to be made.
  unfoldable pub free_source_ip : ℕ → ℕ → Prog H.World ℕ
  free_source_ip zero attempt w =
      (err (codes "all managed rootless Podman source addresses are in use"), w)
  free_source_ip (suc left) attempt w =
      let source_ip = rootless_podman_source_ip name attempt in
      if any (λ line. contains_text line (cidr_of source_ip)) rules
      then free_source_ip left (suc attempt) w
      else unless_shown source_ip (free_source_ip left (suc attempt))
          (run_command_checked H ip_binary (show_args source_ip) w)

  unfoldable pub own_or_free : Option ℕ → Prog H.World ℕ
  own_or_free (some source_ip) = pure source_ip
  own_or_free none = free_source_ip source_slots 0

module _ (H : Host) where
  unfoldable pub allocate_rootless_podman_source_ip : Text → Text → Text → Prog H.World ℕ
  allocate_rootless_podman_source_ip iptables_binary ip_binary name = do
    output ← run_command_checked H iptables_binary (codes "-S" ∷ codes "OUTPUT" ∷ [])
    own_or_free H ip_binary name (lines output.stdout)
        (own_source_ip (own_marker name) (lines output.stdout))
