-- ===== src/Proxy.antt =====
-- src/proxy.rs: what the DNS proxy lets in, and what it makes of a response.
pub mod Admission
pub mod Limits
pub mod Serve
pub mod Local
pub mod Invariant
use dockerwall.Base.{
  ℕ, ◌+◌, ◌/◌, ◌%◌, ◌^◌, ◌≡◌, Bool, true, false, ◌&&◌, ◌||◌, Option, none, some, List, [], ◌∷◌,
  ◌++◌, leb, eqb, if◌then◌else◌, is_empty,
}
use dockerwall.Text.{Text, codes, trim_end_matches, to_ascii_lowercase}
use dockerwall.Net.{IpAddr, v4, v6, octet0, octet1}
use dockerwall.Host.{Host}
use dockerwall.Result.{Prog, pure, ignore_result, ◌>>=◌, ◌>>◌}
use dockerwall.State.{State, Changed, apply_resolved_ips}
use dockerwall.Stats.{Stats, Networks, record_resolve}
use dockerwall.Ipset.{update_ipset}
use dockerwall.Control.{Daemon}

-- The parts of a decoded DNS message that the proxy reads: the names that were asked for, in
-- UTF-8, and the data of the answers.
pub data RData : Type 0 where
  a : ℕ → RData
  aaaa : ℕ → RData
  other : RData

pub record Message : Type 0 where
  pub queries : List Text
  pub answers : List RData

-- `Ipv4Addr::is_loopback`, `is_private` and `is_link_local`, as documented.
unfoldable pub v4_is_loopback : ℕ → Bool
v4_is_loopback ip = eqb (octet0 ip) 127

unfoldable pub v4_is_private : ℕ → Bool
v4_is_private ip =
    eqb (octet0 ip) 10
    || (eqb (octet0 ip) 172 && (leb 16 (octet1 ip) && leb (octet1 ip) 31))
    || (eqb (octet0 ip) 192 && eqb (octet1 ip) 168)

unfoldable pub v4_is_link_local : ℕ → Bool
v4_is_link_local ip = eqb (octet0 ip) 169 && eqb (octet1 ip) 254

-- `Ipv6Addr::is_loopback`, `is_unique_local` (`fc00::/7`) and `is_unicast_link_local` (`fe80::/10`).
unfoldable pub v6_is_loopback : ℕ → Bool
v6_is_loopback ip = eqb ip 1

unfoldable pub v6_is_unique_local : ℕ → Bool
v6_is_unique_local ip = eqb (ip / 2 ^ 121) 126

unfoldable pub v6_is_unicast_link_local : ℕ → Bool
v6_is_unicast_link_local ip = eqb (ip / 2 ^ 118) 1018

unfoldable pub is_local_ip : IpAddr → Bool
is_local_ip (v4 ip) =
    v4_is_loopback ip
    || v4_is_private ip
    || v4_is_link_local ip
    || (eqb (octet0 ip) 198 && (eqb (octet1 ip) 18 || eqb (octet1 ip) 19))
is_local_ip (v6 ip) = v6_is_loopback ip || v6_is_unique_local ip || v6_is_unicast_link_local ip

unfoldable pub collect_resolved_ips : List RData → List IpAddr
collect_resolved_ips [] = []
collect_resolved_ips (a ip ∷ answers) = v4 ip ∷ collect_resolved_ips answers
collect_resolved_ips (aaaa ip ∷ answers) = v6 ip ∷ collect_resolved_ips answers
collect_resolved_ips (other ∷ answers) = collect_resolved_ips answers

unfoldable pub query_domain : Text → Text
query_domain name = to_ascii_lowercase (trim_end_matches (λ c. eqb c b'.') name)

unfoldable pub query_domains : List Text → List Text
query_domains [] = []
query_domains (name ∷ names) = query_domain name ∷ query_domains names

-- The loop over the queries: each is recorded, at the time `now`.
unfoldable pub record_queries : List Text → IpAddr → ℕ → ℕ → Networks → State → Stats → Stats
record_queries [] origin now ttl n state stats = stats
record_queries (name ∷ names) origin now ttl n state stats =
    record_queries names origin now ttl n state
      (record_resolve (query_domain name) origin now ttl n state stats)

-- `inspect_and_update_state` up to the pushes: the sets to push, and the new state of the daemon.
unfoldable pub inspect_message : Message → IpAddr → ℕ → ℕ → Daemon → Changed × Daemon
inspect_message message origin now ttl d =
    let resolved_ips = collect_resolved_ips message.answers in
    let stats = record_queries message.queries origin now ttl d.networks d.state d.stats in
    if is_empty resolved_ips
    then ([], record d { stats = stats })
    else (let (changed, state) =
          apply_resolved_ips (query_domains message.queries) resolved_ips d.state in
        (changed, record d { state = state; stats = stats }))

module _ (H : Host) where
  -- The pushes, one after the other; the error of one is printed and does not stop the rest.
  unfoldable pub push_sets : Changed → H.World → H.World
  push_sets [] w = w
  push_sets ((name, ips) ∷ changed) w = push_sets changed (update_ipset H name ips w).1

  -- `inspect_and_update_state`. `decode` is `Message::from_vec`; what it refuses is passed over.
  unfoldable pub inspect_and_update_state :
      {Packet : Type 0}
      → (Packet → Option Message)
      → Packet
      → IpAddr
      → ℕ
      → ℕ
      → Daemon × H.World
      → Daemon × H.World
  inspect_and_update_state decode response origin now ttl (d, w) = elim (decode response) [
    | none ↦ (d, w)
    | some message ↦
        (let (changed, d') = inspect_message message origin now ttl d in (d', push_sets changed w))
  ]
