-- ===== src/Tests/Daemon.antt =====
-- The theorems about the daemon at concrete inputs.
use dockerwall.Base.{
  ◌+◌, ◌-◌, ◌*◌, ◌^◌, ◌≤◌, ◌≡◌, ◌⊎◌, ◌↔◌, inl, inr, refl, true, false, none, some, [], ◌∷◌, ◌==◌,
  list_eq, nat_eq, contains, length, arith, Bool-cases,
}
use mathlib.Core.Path.{subst}
use dockerwall.Base.Assoc.{lookup, lookup-nil, insert}
use dockerwall.Text.{
  Text, codes, trim, trim_end_matches, trim_start_matches, is_whitespace, to_lower,
  to_ascii_lowercase,
}
use dockerwall.Net.{IpAddr, v4, v6, ip_eq}
use dockerwall.Result.{ok}
use dockerwall.State.{
  State, ManagedIpset, normalize_domain, domain_matches_pattern, apply_resolved_ips,
}
use dockerwall.State.Match.{Matches, domain_matches_pattern_iff, lookalike_refused}
use dockerwall.State.Apply.{Distinct}
use dockerwall.State.Growth.{IsAdmitted, apply_resolved_ips_grows}
use dockerwall.Stats.{no_networks, register_network}
use dockerwall.Stats.Registry.{no_networks-IsConsistent}
use dockerwall.Manage.{create_payload, remove_payload}
use dockerwall.Control.{Daemon, handle_command}
use dockerwall.Control.Protocol.{IsWord, AllWords, handle_command-create_payload}
use dockerwall.Control.Effects.{Reports, handle_command-Reports, handle_command-remove_payload}
use dockerwall.Control.Invariant.{IsValid, handle_command-IsValid}
use dockerwall.Proxy.{Message, a, inspect_message, is_local_ip}
use dockerwall.Proxy.Invariant.{inspect_message-IsValid}
use dockerwall.Proxy.Admission.{
  idle, receive, acquire, start, received, acquired, forwarding, limit_of, max_concurrent_global,
  max_concurrent_per_ip,
}
use dockerwall.Proxy.Limits.{Reachable-limits, flood, flood_starves}
use dockerwall.Proxy.Local.{IsServed, is_local_ip_iff, mapped_client}
use dockerwall.Stats.Subnet.{canonical_ip}

abbrev net : ManagedIpset
net = record { allowed_domain_patterns = codes "*.example.com" ∷ []; ips = v4 1 ∷ [] }

abbrev one_set : State
one_set = (codes "net", net) ∷ []

abbrev pub one_daemon : Daemon
one_daemon = record { state = one_set; networks = no_networks; stats = [] }

net_found : lookup (codes "net") one_set ≡ some net
unfolding lookup list_eq nat_eq
net_found = refl

one_set-Distinct :
    (name : Text) (m : ManagedIpset)
    → ((name == codes "net") ≡ true) ⊎ ((name == codes "net") ≡ false)
    → lookup name one_set ≡ some m
    → Distinct m.ips
unfolding lookup
one_set-Distinct name m (inl same) h =
    let e : net ≡ m = ground arith in subst (λ t. Distinct t.ips) e (refl, tt)
one_set-Distinct name m (inr differ) h = absurd (ground arith)

one_daemon-IsValid : IsValid one_daemon
one_daemon-IsValid = record {
  names = (lookup-nil (codes "net"), tt);
  distinct = λ name m h. one name m h;
  networks = no_networks-IsConsistent;
  stats = record { nodup = tt; within = omega arith };
}
  where
    one : (name : Text) (m : ManagedIpset) → lookup name one_set ≡ some m → Distinct m.ips
    one name m h = one_set-Distinct name m (Bool-cases (name == codes "net")) h

domain_matches_pattern_iff_example :
    (domain_matches_pattern (codes "www.example.com.") (codes "*.Example.com") ≡ true)
    ↔ Matches
        (normalize_domain (codes "www.example.com."))
        (normalize_domain (codes "*.Example.com"))
domain_matches_pattern_iff_example =
    domain_matches_pattern_iff (codes "www.example.com.") (codes "*.Example.com")

lookalike_refused_example :
    domain_matches_pattern (codes "evilexample.com") (codes "*.example.com") ≡ false
unfolding normalize_domain to_ascii_lowercase to_lower trim_end_matches
lookalike_refused_example =
    lookalike_refused (codes "evi") (codes "example.com") b'l' (omega arith) refl refl

apply_resolved_ips_grows_example :
    (m' : ManagedIpset) × (lookup
        (codes "net")
        (apply_resolved_ips (codes "www.example.com" ∷ []) (v4 2 ∷ []) one_set).1
      ≡ some m')
    × (m'.allowed_domain_patterns ≡ codes "*.example.com" ∷ [])
    × ((ip : IpAddr)
        → (contains m'.ips ip ≡ true) ↔ (
            (contains (v4 1 ∷ []) ip ≡ true)
            ⊎ (IsAdmitted (codes "www.example.com" ∷ []) net × (contains (v4 2 ∷ []) ip ≡ true))))
apply_resolved_ips_grows_example =
    apply_resolved_ips_grows (codes "www.example.com" ∷ []) (v4 2 ∷ []) one_set (codes "net")
      net_found

handle_command-IsValid_example :
    IsValid (handle_command 53 0 (codes "CREATE\tnet\t10.0.0.0/28\texample.com\n") one_daemon).1
handle_command-IsValid_example =
    handle_command-IsValid one_daemon-IsValid 53 0 (codes "CREATE\tnet\t10.0.0.0/28\texample.com\n")
      (omega arith)

abbrev answer : Message
answer = record { queries = codes "www.example.com." ∷ []; answers = a 0x01020304 ∷ [] }

inspect_message-IsValid_example : IsValid (inspect_message answer (v4 0x0a000001) 5 60 one_daemon).1
inspect_message-IsValid_example =
    inspect_message-IsValid answer (v4 0x0a000001) 5 60 one_daemon-IsValid

Reachable-limits_example :
    (length (acquire 0 (receive (v4 0x0a000001) idle)).tasks ≤ max_concurrent_global)
    × (forwarding (v4 0x0a000001) (acquire 0 (receive (v4 0x0a000001) idle)).tasks
        ≤ max_concurrent_per_ip)
    × ((acquire 0 (receive (v4 0x0a000001) idle)).global
        ≡ max_concurrent_global - length (acquire 0 (receive (v4 0x0a000001) idle)).tasks)
    × (limit_of (v4 0x0a000001) (acquire 0 (receive (v4 0x0a000001) idle))
        ≡ max_concurrent_per_ip
          - forwarding (v4 0x0a000001) (acquire 0 (receive (v4 0x0a000001) idle)).tasks)
Reachable-limits_example =
    Reachable-limits (v4 0x0a000001) (acquired 0 (received (v4 0x0a000001) start))

local_client : is_local_ip (v4 0x0a000001) ≡ true
local_client =
    (is_local_ip_iff (v4 0x0a000001) (omega arith)).1 (inr (inl (omega arith, omega arith)))

flood_starves_example :
    receive (v4 0x0a000002) (flood max_concurrent_global (v4 0x0a000001) idle)
    ≡ flood max_concurrent_global (v4 0x0a000001) idle
flood_starves_example = flood_starves (v4 0x0a000001) (v4 0x0a000002) local_client

is_local_ip_iff_example : (is_local_ip (v4 0x0a000001) ≡ true) ↔ IsServed (v4 0x0a000001)
is_local_ip_iff_example = is_local_ip_iff (v4 0x0a000001) (omega arith)

pub net-IsWord : IsWord (codes "net")
unfolding trim trim_end_matches trim_start_matches is_whitespace
net-IsWord = record { trimmed = refl; nonempty = refl; no_tab = refl; no_line = refl }

pub example_com_words : AllWords (codes "example.com" ∷ [])
unfolding trim trim_end_matches trim_start_matches is_whitespace
example_com_words =
    (record { trimmed = refl; nonempty = refl; no_tab = refl; no_line = refl }, refl, tt)

handle_command-create_payload_example :
    handle_command 53 0
      (create_payload (codes "net") (some (codes "10.0.0.0/28")) (codes "example.com" ∷ []))
      one_daemon
    ≡ (
      ok (codes "OK\tcreated\n"),
      record one_daemon {
        networks = register_network (codes "net") (codes "10.0.0.0/28") no_networks;
        state =
            insert
              (codes "net")
              (record { allowed_domain_patterns = codes "example.com" ∷ []; ips = [] })
              one_set;
      },
    )
unfolding trim trim_end_matches trim_start_matches is_whitespace
handle_command-create_payload_example =
    handle_command-create_payload 53 0 (codes "net") (codes "10.0.0.0/28")
      (codes "example.com" ∷ []) one_daemon net-IsWord refl refl refl example_com_words

handle_command-remove_payload_example :
    ((handle_command 53 0 (remove_payload (codes "net")) one_daemon).0 ≡ ok (codes "OK\tremoved\n"))
    × (lookup (codes "net") (handle_command 53 0 (remove_payload (codes "net")) one_daemon).1.state
        ≡ none)
unfolding list_eq nat_eq
handle_command-remove_payload_example =
    handle_command-remove_payload 53 0 (codes "net") (codes "net") one_daemon net-IsWord

handle_command-Reports_example :
    Reports one_daemon (handle_command 53 0 (codes "CREATE\t\t\t\n") one_daemon)
handle_command-Reports_example = handle_command-Reports 53 0 (codes "CREATE\t\t\t\n") one_daemon

mapped_client_example :
    (is_local_ip (v6 (0xffff * 2 ^ 32 + 0x0a000001)) ≡ false)
    × (canonical_ip (v6 (0xffff * 2 ^ 32 + 0x0a000001)) ≡ v4 0x0a000001)
mapped_client_example = mapped_client 0x0a000001 (omega arith)
