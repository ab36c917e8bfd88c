-- ===== src/Stats/Record.antt =====
-- What recording a resolution does to the counts.
use dockerwall.Base.{
  ℕ, suc, ◌+◌, ◌%◌, ◌^◌, ◌-◌, ◌≤◌, ◌≡◌, refl, ap, ◌∙◌, Bool, false, Option, none, some, [], ◌∷◌,
  arith, leb, ltb, if◌then◌else◌, ◌==◌, list_eq, nat_eq, pair_eq, Option-cases, inl, inr, length,
}
use dockerwall.Base.Assoc.{lookup, lookup-insert, insert-NodupKeys, NodupKeys, length-insert}
use dockerwall.Text.{Text}
use dockerwall.Net.{IpAddr, ip_eq}
use dockerwall.State.{State}
use dockerwall.Stats.{
  Stats, StatEntry, Key, Networks, find_network, accepted_by, retain_recent, bump_entry,
  record_entry, record_resolve, max_stats_entries,
}

-- An entry that was seen less than `ttl` ago.
abbrev pub is_recent : ℕ → ℕ → StatEntry → Bool
is_recent now ttl entry = ltb (now - entry.last_seen) ttl

abbrev pub if_recent : ℕ → ℕ → Option StatEntry → Option StatEntry
if_recent now ttl none = none
if_recent now ttl (some entry) = if is_recent now ttl entry then some entry else none

pub lookup-retain_recent :
    (now ttl : ℕ) (k : Key) (stats : Stats)
    → NodupKeys stats
    → lookup k (retain_recent now ttl stats) ≡ if_recent now ttl (lookup k stats)
unfolding retain_recent lookup
lookup-retain_recent now ttl k [] u = refl
lookup-retain_recent now ttl k ((j, entry) ∷ stats) (fresh, u) =
    ground (arith, lookup-retain_recent now ttl k stats u)

retain_recent-NodupKeys :
    (now ttl : ℕ) (stats : Stats) → NodupKeys stats → NodupKeys (retain_recent now ttl stats)
unfolding retain_recent
retain_recent-NodupKeys now ttl [] u = tt
retain_recent-NodupKeys now ttl ((j, entry) ∷ stats) (fresh, u) =
    ground (arith, retain_recent-NodupKeys now ttl stats u, lookup-retain_recent now ttl j stats u)

length-retain_recent :
    (now ttl : ℕ) (stats : Stats) → length (retain_recent now ttl stats) ≤ length stats
unfolding retain_recent
length-retain_recent now ttl [] = omega arith
length-retain_recent now ttl ((j, entry) ∷ stats) =
    ground (arith, length-retain_recent now ttl stats)

-- How many entries are recent.
abbrev pub count_recent : ℕ → ℕ → Stats → ℕ
count_recent now ttl [] = 0
count_recent now ttl ((k, entry) ∷ stats) =
    if is_recent now ttl entry then suc (count_recent now ttl stats) else count_recent now ttl stats

length-retain_recent_count :
    (now ttl : ℕ) (stats : Stats)
    → length (retain_recent now ttl stats) ≡ count_recent now ttl stats
unfolding retain_recent
length-retain_recent_count now ttl [] = refl
length-retain_recent_count now ttl ((j, entry) ∷ stats) =
    ground (arith, length-retain_recent_count now ttl stats)

-- The resolutions that an entry stands for.
abbrev pub resolutions : Option StatEntry → ℕ
resolutions none = 0
resolutions (some entry) = entry.count

-- One entry for each key, and no more entries than the limit.
pub record IsBounded (stats : Stats) : Type 0 where
  pub nodup : NodupKeys stats
  pub within : length stats ≤ max_stats_entries

abbrev cannot_enter : Option StatEntry → ℕ → Bool
cannot_enter none count = leb max_stats_entries count
cannot_enter (some entry) count = false

bump_entry_fields :
    (now : ℕ) (network_id : Option ℕ) (accepted : Option Bool) (old : Option StatEntry)
    → bump_entry now network_id accepted old ≡ record {
      count = (resolutions old + 1) % 2 ^ 64;
      last_seen = now;
      network_id = network_id;
      accepted = accepted;
    }
unfolding bump_entry
bump_entry_fields now network_id accepted none = refl
bump_entry_fields now network_id accepted (some entry) = refl

-- A new key is dropped when as many recent entries stand there as there may be.
abbrev pub is_dropped : Option StatEntry → ℕ → Bool
is_dropped none count = leb 1_000_000 count
is_dropped (some entry) count = false

module _ (domain : Text) (origin : IpAddr) (now ttl : ℕ) (network_id : Option ℕ)
    (accepted : Option Bool) where
  abbrev recorded : Stats → Stats
  recorded = record_entry domain origin now ttl network_id accepted

  pub record_entry-IsBounded : (stats : Stats) → IsBounded stats → IsBounded (recorded stats)
  unfolding record_entry
  record_entry-IsBounded stats b =
      let recent = retain_recent now ttl stats in
      let key : Key = (domain, origin) in
      let v = bump_entry now network_id accepted (lookup key recent) in
      let nodup = retain_recent-NodupKeys now ttl stats b.nodup in
      let inserted = insert-NodupKeys key v recent nodup in
      elim (Option-cases (lookup key recent)) [
        | inl new ↦ ground (
          arith,
          new,
          length-retain_recent now ttl stats,
          length-insert key v recent,
          nodup,
          inserted,
        )
        | inr (entry, known) ↦
            ground (
              arith,
              known,
              length-retain_recent now ttl stats,
              length-insert key v recent,
              inserted,
            )
      ]

  -- The table behind a resolution, in the words of the code.
  lookup-record_entry_bumped :
      (stats : Stats) (k : Key)
      → IsBounded stats
      → lookup k (recorded stats) ≡ (
          if k == (domain, origin)
          then (if cannot_enter
                (if_recent now ttl (lookup (domain, origin) stats))
                (length (retain_recent now ttl stats))
              then none
              else some (
                  bump_entry now network_id accepted
                    (if_recent now ttl (lookup (domain, origin) stats))))
          else if_recent now ttl (lookup k stats))
  unfolding record_entry
  lookup-record_entry_bumped stats k b =
      let recent = retain_recent now ttl stats in
      let key : Key = (domain, origin) in
      let old = lookup-retain_recent now ttl key stats b.nodup in
      let here = lookup-retain_recent now ttl k stats b.nodup in
      elim (Option-cases (lookup key recent)) [
        | inl new ↦ ground (
          arith,
          old,
          here,
          new,
          lookup-insert k key (bump_entry now network_id accepted (lookup key recent)) recent,
        )
        | inr (entry, known) ↦ ground (
          arith,
          old,
          here,
          known,
          lookup-insert k key (bump_entry now network_id accepted (lookup key recent)) recent,
        )
      ]

  -- In a table within its bounds, after a resolution is recorded every other key has the entry that
  -- it had, if that is recent, and none otherwise. The key itself has an entry with one more
  -- resolution than its recent entry had, modulo 2^64, or with a first one, seen now, in this
  -- network and with this verdict; only where it has no recent entry and a million entries are
  -- recent it has none.
  pub lookup-record_entry :
      (stats : Stats) (k : Key)
      → IsBounded stats
      → lookup k (recorded stats) ≡ (
          if k == (domain, origin)
          then (if is_dropped
                (if_recent now ttl (lookup (domain, origin) stats))
                (count_recent now ttl stats)
              then none
              else some (record {
                count =
                    (resolutions (if_recent now ttl (lookup (domain, origin) stats)) + 1) % 2 ^ 64;
                last_seen = now;
                network_id = network_id;
                accepted = accepted;
              }))
          else if_recent now ttl (lookup k stats))
  lookup-record_entry stats k b =
      lookup-record_entry_bumped stats k b
      ∙ ap
          (λ n.
            if k == (domain, origin)
            then (if is_dropped (if_recent now ttl (lookup (domain, origin) stats)) n
                then none
                else some (
                    bump_entry now network_id accepted
                      (if_recent now ttl (lookup (domain, origin) stats))))
            else if_recent now ttl (lookup k stats))
          (length-retain_recent_count now ttl stats)
      ∙ ap
          (λ entry.
            if k == (domain, origin)
            then (if is_dropped (if_recent now ttl (lookup (domain, origin) stats))
                  (count_recent now ttl stats)
                then none
                else some entry)
            else if_recent now ttl (lookup k stats))
          (bump_entry_fields now network_id accepted
            (if_recent now ttl (lookup (domain, origin) stats)))

-- `record_resolve` keeps the table bounded, whatever is asked by whom.
pub record_resolve-IsBounded :
    (domain : Text) (origin : IpAddr) (now ttl : ℕ) (n : Networks) (state : State) (stats : Stats)
    → IsBounded stats
    → IsBounded (record_resolve domain origin now ttl n state stats)
unfolding record_resolve
record_resolve-IsBounded domain origin now ttl n state stats =
    record_entry-IsBounded domain origin now ttl (find_network origin n).0
      (accepted_by domain (find_network origin n).1 state) stats
