-- ===== src/Stats.antt =====
-- src/stats.rs: the registry of networks, and the counts of name resolutions. A time is a number of
-- nanoseconds, so a difference that would be negative is zero, as in `unwrap_or(Duration::ZERO)`.
pub mod Subnet
pub mod Registry
pub mod Record
pub mod Report
use dockerwall.Base.{
  ℕ, ◌+◌, ◌-◌, ◌*◌, ◌%◌, ◌^◌, ◌≡◌, refl, Bool, true, false, not, ◌&&◌, ◌||◌, Option, none, some,
  List, [], ◌∷◌, ◌++◌, leb, ltb, eqb, if◌then◌else◌, ◌==◌, list_eq, nat_eq, pair_eq, length,
}
use dockerwall.Base.Assoc.{Dict, lookup, insert}
use dockerwall.Text.{Text}
use dockerwall.Net.{IpAddr, ip_eq}
use dockerwall.State.{State, is_domain_accepted_by_network}
use dockerwall.Stats.Subnet.{ip_in_subnet}

abbrev pub max_stats_entries : ℕ
max_stats_entries = 1_000_000

pub record StatEntry : Type 0 where
  pub count : ℕ
  pub last_seen : ℕ
  pub network_id : Option ℕ
  pub accepted : Option Bool

pub record NetworkInfo : Type 0 where
  pub name : Text
  pub subnet : Text

-- A domain and the address that asked for it.
abbrev pub Key : Type 0
Key = Text × IpAddr

-- `SUBNET_TO_ID`, `NETWORK_REGISTRY` and `NEXT_NETWORK_ID`.
pub record Networks : Type 0 where
  pub subnet_to_id : Dict Text ℕ
  pub registry : Dict ℕ NetworkInfo
  pub next_network_id : ℕ

-- `STATS`
abbrev pub Stats : Type 0
Stats = Dict Key StatEntry

abbrev pub no_networks : Networks
no_networks = record { subnet_to_id = []; registry = []; next_network_id = 1 }

unfoldable pub register_network : Text → Text → Networks → Networks
register_network name subnet n =
    let info : NetworkInfo = record { name = name; subnet = subnet } in
    elim (lookup subnet n.subnet_to_id) [
      | some id ↦ record n { registry = insert id info n.registry }
      | none ↦ record {
        subnet_to_id = insert subnet n.next_network_id n.subnet_to_id;
        registry = insert n.next_network_id info n.registry;
        next_network_id = (n.next_network_id + 1) % 2 ^ 32;
      }
    ]

-- `subnet_map.iter().find(...)`: the first subnet that holds the address.
unfoldable pub find_subnet : IpAddr → Dict Text ℕ → Option ℕ
find_subnet origin [] = none
find_subnet origin ((subnet, id) ∷ d) =
    if ip_in_subnet origin subnet then some id else find_subnet origin d

-- The network of an address, and its name.
unfoldable pub find_network : IpAddr → Networks → Option ℕ × Option Text
find_network origin n = elim (find_subnet origin n.subnet_to_id) [
  | none ↦ (none, none)
  | some id ↦ (some id, elim (lookup id n.registry) [ none ↦ none | some info ↦ some info.name ])
]

unfoldable pub accepted_by : Text → Option Text → State → Option Bool
accepted_by domain none state = none
accepted_by domain (some name) state = some (is_domain_accepted_by_network domain name state)

-- `stats.retain(...)`
unfoldable pub retain_recent : ℕ → ℕ → Stats → Stats
retain_recent now ttl [] = []
retain_recent now ttl ((k, entry) ∷ stats) =
    let rest = retain_recent now ttl stats in
    if ltb (now - entry.last_seen) ttl then (k, entry) ∷ rest else rest

-- `stats.entry(key).or_insert(...)`, and the four updates behind it.
unfoldable pub bump_entry : ℕ → Option ℕ → Option Bool → Option StatEntry → StatEntry
bump_entry now network_id accepted old = record {
  count = (elim old [ none ↦ 0 | some entry ↦ entry.count ] + 1) % 2 ^ 64;
  last_seen = now;
  network_id = network_id;
  accepted = accepted;
}

-- The part of `record_resolve` under the lock of `STATS`.
unfoldable pub record_entry : Text → IpAddr → ℕ → ℕ → Option ℕ → Option Bool → Stats → Stats
record_entry domain origin now ttl network_id accepted stats =
    let recent = retain_recent now ttl stats in
    let old = lookup (domain, origin) recent in
    let recorded = insert (domain, origin) (bump_entry now network_id accepted old) recent in
    elim old [
      | some entry ↦ recorded
      | none ↦ if leb max_stats_entries (length recent) then recent else recorded
    ]

unfoldable pub record_resolve : Text → IpAddr → ℕ → ℕ → Networks → State → Stats → Stats
record_resolve domain origin now ttl n state stats =
    let (network_id, network_name) = find_network origin n in
    record_entry domain origin now ttl network_id (accepted_by domain network_name state) stats
