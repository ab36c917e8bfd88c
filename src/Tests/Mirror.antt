-- ===== src/Tests/Mirror.antt =====
-- A response on a daemon with one set, whose kernel holds the same address.
use mathlib.Core.Path.{subst}
use dockerwall.Base.{
  ◌≡◌, inl, inr, refl, sym, ap, true, false, ◌&&◌, some, [], ◌∷◌, if◌then◌else◌, ◌==◌, ==_iff,
  list_eq, nat_eq, length, length-append, Bool-cases, arith,
}
use dockerwall.Base.Assoc.{lookup, lookup-nil}
use dockerwall.Text.{
  Text, codes, strip_prefix, ends_with, trim_end_matches, to_lower, to_ascii_lowercase,
}
use dockerwall.Net.{v4, v6, ip_eq}
use dockerwall.State.{
  State, ManagedIpset, normalize_domain, domain_matches_pattern, any_pattern, matches_ipset,
  insert_ip, extend_ips, apply_to_set, apply_loop, apply_resolved_ips,
}
use dockerwall.Stats.{no_networks}
use dockerwall.Ipset.{set_for, add_commands, update_commands, ipv6_ipset_name}
use dockerwall.Ipset.Members.{exec_all}
use dockerwall.Control.{Daemon}
use dockerwall.Proxy.{
  Message, a, collect_resolved_ips, query_domain, query_domains, inspect_message,
}
use dockerwall.System.Mirror.{IsApart, push_all, Holds}
use dockerwall.System.Refinement.{Mirrors, inspect_message-Mirrors}
use dockerwall.Tests.Kernel.{Sets, exec_sets, in_set, exec_sets_laws}

abbrev pub web : ManagedIpset
web = record { allowed_domain_patterns = codes "*.example.com" ∷ []; ips = v4 1 ∷ [] }

abbrev pub web_state : State
web_state = (codes "web", web) ∷ []

abbrev pub web_daemon : Daemon
web_daemon = record { state = web_state; networks = no_networks; stats = [] }

abbrev pub web_answer : Message
web_answer = record { queries = codes "www.example.com." ∷ []; answers = a 7 ∷ [] }

abbrev pub web_sets : Sets
web_sets n ip = n == codes "web" && ip == v4 1

-- The kernel's sets behind the push of 0.0.0.7 and 0.0.0.1.
abbrev pub web_sets_pushed : Sets
web_sets_pushed n ip =
    if n == codes "web" && ip == v4 1
    then true
    else if n == codes "web" && ip == v4 7
    then true
    else if n == ipv6_ipset_name (codes "web")
    then false
    else if n == codes "web"
    then false
    else web_sets n ip

only_web :
    (name : Text) (m : ManagedIpset)
    → lookup name web_state ≡ some m
    → (codes "web" ≡ name) × (web ≡ m)
unfolding lookup
only_web name m h = elim (Bool-cases (name == codes "web")) [
  | inl same ↦ (sym ((==_iff name (codes "web")).0 same), ground arith)
  | inr differ ↦ absurd (ground arith)
]

web-Holds : Holds in_set web_sets (codes "web") (v4 1 ∷ [])
unfolding ipv6_ipset_name list_eq nat_eq
web-Holds (v4 x) = (ground arith, refl)
web-Holds (v6 x) = (ground arith, ground arith)

pub web-Mirrors : Mirrors in_set web_state web_sets
web-Mirrors name m h =
    let (p, q) = only_web name m h in
    subst (λ t. Holds in_set web_sets t m.ips) p
      (subst (λ t. Holds in_set web_sets (codes "web") t.ips) q web-Holds)

pub web-IsApart :
    (name : Text) (m : ManagedIpset) → lookup name web_state ≡ some m → IsApart name web_state
unfolding ipv6_ipset_name
web-IsApart name m h n v e =
    let p = (only_web name m h).0 in
    let q = (only_web n v e).0 in
    let long_n = length-append n (codes "-v6") in
    let long_name = length-append name (codes "-v6") in
    let short_n = ap (λ t. length t) q in
    let short_name = ap (λ t. length t) p in
    (
      λ r. absurd (omega (arith, long_n, short_n, short_name, ap (λ t. length t) r)),
      λ r. absurd (omega (arith, long_name, short_n, short_name, ap (λ t. length t) r)),
    )

pub web_pushed :
    push_all exec_sets (inspect_message web_answer (v4 2) 0 60 web_daemon).0 web_sets
    ≡ some web_sets_pushed
unfolding push_all strip_prefix trim_end_matches list_eq nat_eq ip_eq inspect_message
    collect_resolved_ips query_domains query_domain to_ascii_lowercase to_lower apply_resolved_ips
    apply_loop apply_to_set matches_ipset any_pattern domain_matches_pattern normalize_domain
    ends_with insert_ip extend_ips exec_all update_commands add_commands set_for
web_pushed = refl

inspect_message-Mirrors_example :
    Mirrors in_set (inspect_message web_answer (v4 2) 0 60 web_daemon).1.state web_sets_pushed
inspect_message-Mirrors_example =
    inspect_message-Mirrors exec_sets in_set exec_sets_laws web_answer (v4 2) 0 60 web_daemon
      web_sets web_sets_pushed (lookup-nil (codes "web"), tt) web-IsApart web-Mirrors web_pushed
