-- ===== src/Stats/Report.antt =====
-- `get_stats_report`: the text of the statistics. A group's entries stand in the order in which the
-- table is run through, and the groups are taken from it by sorted identifiers and addresses.
pub mod Shows
pub mod Complete
pub mod Duration
pub mod Row
pub mod Client
use dockerwall.Base.{
  ℕ, suc, zero, ◌+◌, ◌-◌, ◌*◌, ◌/◌, ◌<◌, ◌≤◌, ◌≡◌, inl, inr, Bool, true, false, Option, none, some,
  List, [], ◌∷◌, ◌++◌, arith, leb, ltb, eqb, if◌then◌else◌, ◌==◌, list_eq, nat_eq, pair_eq,
  option_eq, length, is_empty, Bool-cases, ltb→lt,
}
use dockerwall.Base.Assoc.{Dict, lookup}
use dockerwall.Text.{Text, codes}
use dockerwall.Text.Decimal.{to_decimal}
use dockerwall.Net.{IpAddr, v4, v6, ip_eq}
use dockerwall.Net.Display.{display_ip}
use dockerwall.Stats.{Stats, StatEntry, Networks, NetworkInfo}

abbrev pub nanos : ℕ
nanos = 1_000_000_000

-- The argument is a duration in nanoseconds.
unfoldable pub format_duration : ℕ → Text
format_duration d =
    let secs = d / nanos in
    if ltb secs 60
    then to_decimal secs ++ codes "s ago"
    else if ltb secs 3600
    then to_decimal (secs / 60) ++ codes "m ago"
    else if ltb secs 86400
    then to_decimal (secs / 3600) ++ codes "h ago"
    else to_decimal (secs / 86400) ++ codes "d ago"

-- `{:<n}`: blanks behind a text that is shorter than `n` characters.
blanks : ℕ → Text
blanks zero = []
blanks (suc n) = b' ' ∷ blanks n

unfoldable pub pad_right : ℕ → Text → Text
unfolding blanks
pad_right n s = s ++ blanks (n - length s)

-- `Vec::sort`, by an order.
module _ {ℓ} {A : Type ℓ} (le : A → A → Bool) where
  unfoldable pub insert_sorted : A → List A → List A
  insert_sorted a [] = a ∷ []
  insert_sorted a (b ∷ l) = let rest = insert_sorted a l in if le a b then a ∷ b ∷ l else b ∷ rest

  unfoldable pub sort : List A → List A
  sort [] = []
  sort (a ∷ l) = insert_sorted a (sort l)

-- `Ord` of `IpAddr`: IPv4 before IPv6.
abbrev pub ip_le : IpAddr → IpAddr → Bool
ip_le (v4 a) (v4 b) = leb a b
ip_le (v4 a) (v6 b) = true
ip_le (v6 a) (v4 b) = false
ip_le (v6 a) (v6 b) = leb a b

abbrev pub Origin : Type 0
Origin = Option ℕ × IpAddr

abbrev pub Entries : Type 0
Entries = List (Text × StatEntry)

-- `grouped_stats.entry(…).or_default().push(…)`
unfoldable pub push_entry : Origin → Text × StatEntry → Dict Origin Entries → Dict Origin Entries
push_entry o e [] = (o, e ∷ []) ∷ []
push_entry o e ((p, es) ∷ groups) =
    if o == p then (p, es ++ (e ∷ [])) ∷ groups else (p, es) ∷ push_entry o e groups

unfoldable pub group_onto : Dict Origin Entries → Stats → Dict Origin Entries
unfolding push_entry
group_onto groups [] = groups
group_onto groups (((domain, origin), entry) ∷ stats) =
    group_onto (push_entry (entry.network_id, origin) (domain, entry) groups) stats

-- The addresses of one network, or of none.
unfoldable pub ips_of : Option ℕ → Dict Origin Entries → List IpAddr
ips_of net [] = []
ips_of net (((id, ip), es) ∷ groups) =
    let rest = ips_of net groups in if id == net then ip ∷ rest else rest

-- `grouped_stats.get(…).unwrap()`, which is asked for a key of the map only.
pub entries_of : Origin → Dict Origin Entries → Entries
entries_of o groups = elim (lookup o groups) [ none ↦ [] | some es ↦ es ]

pub ids_of : Dict ℕ NetworkInfo → List ℕ
ids_of [] = []
ids_of ((id, info) ∷ registry) = id ∷ ids_of registry

-- A verdict with its count, if there is one.
unfoldable pub status_of : StatEntry → Text
status_of entry = elim entry.accepted [
  | some true ↦ if ltb 0 entry.count then to_decimal entry.count ++ codes "✅ " else []
  | some false ↦ if ltb 0 entry.count then to_decimal entry.count ++ codes "❌ " else []
  | none ↦ []
]

abbrev last_ago : ℕ → StatEntry → Text
last_ago now entry = format_duration (now - entry.last_seen)

pub entry_line : ℕ → Bool → IpAddr → Text × StatEntry → Text
entry_line now single_ip ip (domain, entry) =
    if single_ip
    then codes "  "
      ++ (pad_right 15 (display_ip ip)
          ++ (codes " "
              ++ (pad_right 30 domain
                  ++ (codes " "
                      ++ (pad_right 10 (status_of entry)
                          ++ (codes " " ++ (last_ago now entry ++ codes "\n")))))))
    else codes "    "
      ++ (pad_right 30 domain
          ++ (codes " "
              ++ (pad_right 10 (status_of entry)
                  ++ (codes " " ++ (last_ago now entry ++ codes "\n")))))

unknown_line : ℕ → Text × StatEntry → Text
unknown_line now (domain, entry) =
    codes "    "
    ++ (pad_right 30 domain
        ++ (codes " "
            ++ (pad_right 10 (to_decimal entry.count ++ codes " resolves")
                ++ (codes " " ++ (last_ago now entry ++ codes "\n")))))

pub concat_map {ℓ} : {A : Type ℓ} → (A → Text) → List A → Text
concat_map f [] = []
concat_map f (a ∷ l) = f a ++ concat_map f l

pub ip_heading : IpAddr → Text
ip_heading ip = codes "  IP: " ++ (display_ip ip ++ codes "\n")

network_block : ℕ → Dict Origin Entries → Dict ℕ NetworkInfo → ℕ → Text
network_block now groups registry id = elim (lookup id registry) [
  | none ↦ []
  | some info ↦
      let ips = sort ip_le (ips_of (some id) groups) in
      let single_ip = eqb (length ips) 1 in
      let block = λ (ip : IpAddr).
        (if single_ip then [] else ip_heading ip)
        ++ concat_map (entry_line now single_ip ip) (entries_of (some id, ip) groups) in
      codes "Network: "
      ++ (info.name
          ++ (codes " ("
              ++ (info.subnet
                  ++ (codes ")\n"
                      ++ (if is_empty ips
                          then codes "  No activity\n\n"
                          else concat_map block ips ++ codes "\n")))))
]

unknown_block : ℕ → Dict Origin Entries → Text
unknown_block now groups =
    let ips = sort ip_le (ips_of none groups) in
    let block = λ (ip : IpAddr).
      ip_heading ip ++ concat_map (unknown_line now) (entries_of (none, ip) groups) in
    if is_empty ips
    then []
    else codes
        "Unknown Networks (created before the daemon was restarted — still fully functional, but with limited info):\n"
      ++ concat_map block ips

unfoldable pub get_stats_report : ℕ → Networks → Stats → Text
unfolding network_block unknown_block concat_map entries_of ids_of group_onto ips_of sort
    insert_sorted entry_line unknown_line ip_heading status_of pad_right format_duration
get_stats_report now n stats =
    let groups = group_onto [] stats in
    concat_map (network_block now groups n.registry) (sort leb (ids_of n.registry))
    ++ unknown_block now groups
