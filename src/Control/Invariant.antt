-- ===== src/Control/Invariant.antt =====
-- The invariant of the daemon's shared state, under the commands of the control socket.
use dockerwall.Base.{
  ℕ, ◌+◌, ◌<◌, ◌^◌, ◌≡◌, inl, inr, Bool, true, false, some, List, [], ◌∷◌, ◌++◌, eqb, if◌then◌else◌,
  ◌==◌, list_eq, nat_eq, is_empty, Bool-cases, Option-cases, arith,
}
use mathlib.Core.Path.{subst}
use dockerwall.Base.Assoc.{
  lookup, insert, lookup-insert, lookup-remove, NodupKeys, insert-NodupKeys, remove-NodupKeys,
}
use dockerwall.Text.{Text, codes, trim, trim_end_matches, strip_prefix, splitn}
use dockerwall.Result.{ok}
use dockerwall.State.{ManagedIpset}
use dockerwall.State.Apply.{Distinct}
use dockerwall.Stats.Report.{get_stats_report}
use dockerwall.Text.Decimal.{to_decimal}
use dockerwall.Stats.Registry.{IsConsistent, register_network-IsConsistent}
use dockerwall.Stats.Record.{IsBounded}
use dockerwall.Control.{
  Daemon, Reply, parse_domains, create, handle_create, handle_remove, handle_change, handle_command,
}

-- One entry for each name, subnet and key; a set holds no address twice; the identifiers of networks
-- are consistent; the statistics stay within their limit.
pub record IsValid (d : Daemon) : Type 0 where
  pub names : NodupKeys d.state
  pub distinct : (name : Text) (m : ManagedIpset) → lookup name d.state ≡ some m → Distinct m.ips
  pub networks : IsConsistent d.networks
  pub stats : IsBounded d.stats

module _ {d : Daemon} (v : IsValid d) where
  create-IsValid :
      (name subnet raw : Text)
      → d.networks.next_network_id + 1 < 2 ^ 32
      → IsValid (create name subnet raw d).1
  unfolding create
  create-IsValid name subnet raw room = elim (Bool-cases (is_empty name)) [
    | inl missing ↦ rw (missing, create) v
    | inr given ↦
        rw (given, create)
          (record {
            names = insert-NodupKeys name _ d.state v.names;
            distinct = λ n m h. inserted n m h;
            networks = elim (Bool-cases (is_empty subnet)) [
              | inl no_subnet ↦ rw no_subnet v.networks
              | inr some_subnet ↦
                  rw some_subnet (register_network-IsConsistent name subnet v.networks room)
            ];
            stats = v.stats;
          })
  ]
    where
      fresh : ManagedIpset
      fresh = record { allowed_domain_patterns = parse_domains raw; ips = [] }

      inserted :
          (n : Text) (m : ManagedIpset)
          → lookup n (insert name fresh d.state) ≡ some m
          → Distinct m.ips
      inserted n m h = elim (Bool-cases (n == name)) [
        | inl same ↦
            let e : fresh ≡ m = ground (arith, lookup-insert n name fresh d.state) in
            subst (λ t. Distinct t.ips) e tt
        | inr differ ↦ v.distinct n m (ground (arith, lookup-insert n name fresh d.state))
      ]

  handle_create-IsValid :
      (parts : List Text)
      → d.networks.next_network_id + 1 < 2 ^ 32
      → IsValid (handle_create parts d).1
  unfolding handle_create
  handle_create-IsValid [] room = v
  handle_create-IsValid (name ∷ []) room = v
  handle_create-IsValid (name ∷ subnet ∷ []) room = v
  handle_create-IsValid (name ∷ subnet ∷ raw ∷ _) room =
      create-IsValid (trim name) (trim subnet) raw room

  handle_remove-IsValid : (name : Text) → IsValid (handle_remove name d).1
  unfolding handle_remove
  handle_remove-IsValid name = elim (Bool-cases (is_empty name)) [
    | inl missing ↦ rw (missing, handle_remove) v
    | inr given ↦
        rw (given, handle_remove)
          (record {
            names = remove-NodupKeys name d.state v.names;
            distinct = λ n m h. v.distinct n m (ground (arith, lookup-remove n name d.state));
            networks = v.networks;
            stats = v.stats;
          })
  ]

  handle_change-IsValid :
      (command : Text)
      → d.networks.next_network_id + 1 < 2 ^ 32
      → IsValid (handle_change command d).1
  unfolding handle_change
  handle_change-IsValid command room =
      elim (Option-cases (strip_prefix command (codes "CREATE\t"))) [
        | inr (rest, e) ↦ rw (e, handle_change) (handle_create-IsValid (splitn 3 b'\t' rest) room)
        | inl other ↦ elim (Option-cases (strip_prefix command (codes "REMOVE\t"))) [
          | inr (name, e) ↦ rw (other, e, handle_change) (handle_remove-IsValid (trim name))
          | inl unknown ↦ rw (other, unknown, handle_change) v
        ]
      ]

  answers-IsValid :
      (stats info : Bool) (report port : Text) (rest : Reply)
      → IsValid rest.1
      → IsValid (if stats then (ok report, d) else if info then (ok port, d) else rest).1
  answers-IsValid true info report port rest h = v
  answers-IsValid false true report port rest h = v
  answers-IsValid false false report port rest h = h

  -- Every command, an erroneous one too, keeps the daemon's invariant, as long as the counter of
  -- network identifiers has room.
  pub handle_command-IsValid :
      (dns_port now : ℕ) (line : Text)
      → d.networks.next_network_id + 1 < 2 ^ 32
      → IsValid (handle_command dns_port now line d).1
  unfolding handle_command
  handle_command-IsValid dns_port now line room =
      let command = trim_end_matches (λ c. eqb c b'\n') line in
      answers-IsValid (command == codes "STATS") (command == codes "INFO")
        (get_stats_report now d.networks d.stats)
        (codes "OK\t" ++ (to_decimal dns_port ++ codes "\n")) (handle_change command d)
        (handle_change-IsValid command room)
