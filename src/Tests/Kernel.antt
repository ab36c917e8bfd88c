-- ===== src/Tests/Kernel.antt =====
-- A kernel whose sets are a predicate, and the theorems about pushes on it.
use dockerwall.Base.{
  ◌≡◌, ◌≢◌, refl, sym, ap, Bool, true, false, ◌&&◌, Option, some, List, [], ◌∷◌, if◌then◌else◌,
  ◌==◌, list_eq, nat_eq,
}
use dockerwall.Text.{Text, codes}
use dockerwall.Net.{IpAddr, v4, v6, ip_eq}
use dockerwall.Ipset.{Command, flush, add, ipv6_ipset_name, set_for, add_commands, update_commands}
use dockerwall.Ipset.Members.{RestoreLaws, exec_all, update_members}

abbrev pub Sets : Type 0
Sets = Text → IpAddr → Bool

abbrev pub exec_sets : Command → Sets → Option Sets
exec_sets (flush name) k = some (λ n a. if n == name then false else k n a)
exec_sets (add name ip) k = some (λ n a. if n == name && a == ip then true else k n a)

abbrev pub in_set : Sets → Text → IpAddr → Bool
in_set k n a = k n a

abbrev pub no_sets : Sets
no_sets n a = false

pub exec_sets_laws : RestoreLaws exec_sets in_set
exec_sets_laws = record {
  flush_members = λ name k k' n a e.
      let same : (λ m b. if m == name then false else k m b) ≡ k' = cc e in
      sym (ap (λ (g : Sets). g n a) same);
  add_members = λ name ip k k' n a e.
      let same : (λ m b. if m == name && b == ip then true else k m b) ≡ k' = cc e in
      sym (ap (λ (g : Sets). g n a) same);
}

abbrev two_ips : List IpAddr
two_ips = v4 0x01020304 ∷ v6 7 ∷ []

-- The sets after the push of an IPv4 and an IPv6 address to `net`.
abbrev pushed : Sets
pushed n a =
    if n == ipv6_ipset_name (codes "net") && a == v6 7
    then true
    else if n == codes "net" && a == v4 0x01020304
    then true
    else if n == ipv6_ipset_name (codes "net")
    then false
    else if n == codes "net"
    then false
    else false

update_members_example :
    (pushed (codes "net") (v4 0x01020304) ≡ true)
    × (pushed (ipv6_ipset_name (codes "net")) (v4 0x01020304) ≡ false)
    × (codes "b" ≢ codes "net"
        → codes "b" ≢ ipv6_ipset_name (codes "net")
        → pushed (codes "b") (v4 0x01020304) ≡ false)
unfolding exec_all update_commands add_commands set_for ip_eq
update_members_example =
    update_members exec_sets in_set exec_sets_laws (codes "net") two_ips no_sets pushed (codes "b")
      (v4 0x01020304) refl
