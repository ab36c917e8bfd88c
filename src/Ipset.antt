-- ===== src/Ipset.antt =====
-- src/ipset.rs: pushing the addresses of a managed set to the kernel through `ipset restore`.
pub mod Members
pub mod Restored
use mathlib.Core.List.{flat_map}
use dockerwall.Base.{
  ℕ, Bool, true, false, Option, none, some, List, [], ◌∷◌, ◌++◌, if◌then◌else◌, map,
}
use dockerwall.Text.{Text, codes, trim}
use dockerwall.Net.{IpAddr, v4, v6}
use dockerwall.Net.Display.{display_ip}
use dockerwall.Host.{Host, Output}
use dockerwall.Result.{Prog, pure, fail, or_fail, ◌>>=◌, ◌>>◌}
use dockerwall.Trust.{first_trusted}

abbrev pub ipset_candidates : List Text
ipset_candidates = codes "/usr/sbin/ipset" ∷ codes "/sbin/ipset" ∷ codes "/usr/bin/ipset" ∷ []

unfoldable pub ipv6_ipset_name : Text → Text
ipv6_ipset_name name = name ++ codes "-v6"

-- The commands that `ipset restore` is given, and the line of each.
pub data Command : Type 0 where
  flush : Text → Command
  add : Text → IpAddr → Command

unfoldable pub render : Command → Text
unfolding display_ip
render (flush name) = codes "flush " ++ (name ++ codes "\n")
render (add name ip) = codes "add " ++ (name ++ (codes " " ++ (display_ip ip ++ codes " -exist\n")))

-- The set of a name that an address goes to.
unfoldable pub set_for : Text → IpAddr → Text
set_for name (v4 a) = name
set_for name (v6 a) = ipv6_ipset_name name

unfoldable pub add_commands : Text → List IpAddr → List Command
add_commands name [] = []
add_commands name (ip ∷ ips) = add (set_for name ip) ip ∷ add_commands name ips

unfoldable pub update_commands : Text → List IpAddr → List Command
update_commands name ips = flush name ∷ flush (ipv6_ipset_name name) ∷ add_commands name ips

unfoldable pub render_all : List Command → Text
unfolding render
render_all [] = []
render_all (c ∷ cs) = render c ++ render_all cs

module _ (H : Host) where
  unfoldable pub resolve_ipset_binary : Prog H.World Text
  unfolding first_trusted
  resolve_ipset_binary w =
      or_fail (codes "trusted ipset binary not found") (first_trusted H ipset_candidates w) w

  unfoldable pub check_restore : Output → Prog H.World (Unit {0})
  check_restore output =
      if output.success
      then pure tt
      else fail (
          codes "ipset restore failed: "
          ++ (trim output.stderr ++ (codes "; stdout: " ++ trim output.stdout)))

  unfoldable pub update_ipset : Text → List IpAddr → Prog H.World (Unit {0})
  unfolding resolve_ipset_binary check_restore update_commands render_all
  update_ipset name ips = do
    ipset_binary ← resolve_ipset_binary
    output ← H.run ipset_binary (codes "restore" ∷ []) (render_all (update_commands name ips))
    check_restore output
