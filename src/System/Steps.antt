-- ===== src/System/Steps.antt =====
-- What one step may do to the sets of the daemon.
use dockerwall.Base.{
  ℕ, inl, inr, Bool, true, false, List, [], ◌∷◌, ◌++◌, eqb, if◌then◌else◌, ◌==◌, list_eq, nat_eq,
  is_empty, All, Bool-cases, Option-cases,
}
use dockerwall.Base.Assoc.{insert, remove}
use dockerwall.Text.{Text, codes, trim, trim_end_matches, strip_prefix, splitn}
use dockerwall.Text.Decimal.{to_decimal}
use dockerwall.Result.{ok}
use dockerwall.State.{ManagedIpset, State}
use dockerwall.Stats.Report.{get_stats_report}
use dockerwall.Control.{
  Daemon, Reply, parse_domains, create, handle_create, handle_remove, handle_change, handle_command,
}

-- The sets stay as they are, one is replaced by a set without addresses, or one is removed.
pub data Edits (s : State) : State → Type 0 where
  kept : Edits s s
  created :
      (name : Text) (patterns : List Text)
      → Edits s (insert name (record { allowed_domain_patterns = patterns; ips = [] }) s)
  removed : (name : Text) → Edits s (remove name s)

create-Edits :
    (name subnet raw : Text) (d : Daemon) → Edits d.state (create name subnet raw d).1.state
unfolding create
create-Edits name subnet raw d = elim (Bool-cases (is_empty name)) [
  | inl missing ↦ rw (missing, create) kept
  | inr given ↦ rw (given, create) (created name (parse_domains raw))
]

handle_create-Edits :
    (parts : List Text) (d : Daemon) → Edits d.state (handle_create parts d).1.state
unfolding handle_create
handle_create-Edits [] d = kept
handle_create-Edits (name ∷ []) d = kept
handle_create-Edits (name ∷ subnet ∷ []) d = kept
handle_create-Edits (name ∷ subnet ∷ raw ∷ _) d = create-Edits (trim name) (trim subnet) raw d

handle_remove-Edits : (name : Text) (d : Daemon) → Edits d.state (handle_remove name d).1.state
unfolding handle_remove
handle_remove-Edits name d = elim (Bool-cases (is_empty name)) [
  | inl missing ↦ rw (missing, handle_remove) kept
  | inr given ↦ rw (given, handle_remove) (removed name)
]

handle_change-Edits :
    (command : Text) (d : Daemon) → Edits d.state (handle_change command d).1.state
unfolding handle_change
handle_change-Edits command d = elim (Option-cases (strip_prefix command (codes "CREATE\t"))) [
  | inr (rest, e) ↦ rw (e, handle_change) (handle_create-Edits (splitn 3 b'\t' rest) d)
  | inl other ↦ elim (Option-cases (strip_prefix command (codes "REMOVE\t"))) [
    | inr (name, e) ↦ rw (other, e, handle_change) (handle_remove-Edits (trim name) d)
    | inl unknown ↦ rw (other, unknown, handle_change) kept
  ]
]

answers-Edits :
    (stats info : Bool) (report port : Text) (rest : Reply) (d : Daemon)
    → Edits d.state rest.1.state
    → Edits d.state (if stats then (ok report, d) else if info then (ok port, d) else rest).1.state
answers-Edits true info report port rest d h = kept
answers-Edits false true report port rest d h = kept
answers-Edits false false report port rest d h = h

pub handle_command-Edits :
    (dns_port now : ℕ) (line : Text) (d : Daemon)
    → Edits d.state (handle_command dns_port now line d).1.state
unfolding handle_command
handle_command-Edits dns_port now line d =
    let command = trim_end_matches (λ c. eqb c b'\n') line in
    answers-Edits (command == codes "STATS") (command == codes "INFO")
      (get_stats_report now d.networks d.stats)
      (codes "OK\t" ++ (to_decimal dns_port ++ codes "\n")) (handle_change command d) d
      (handle_change-Edits command d)

-- What holds of every set holds of every set after an edit, if it holds of a set without addresses.
pub All-Edits :
    (P : Text × ManagedIpset → Type 0)
    → ((name : Text) (patterns : List Text)
        → P (name, record { allowed_domain_patterns = patterns; ips = [] }))
    → {s t : State} → Edits s t
    → All P s
    → All P t
unfolding insert remove
All-Edits P empty {s} kept h = h
All-Edits P empty {s} (created name patterns) h = inserted s h
  where
    inserted :
        (s : State)
        → All P s
        → All P (insert name (record { allowed_domain_patterns = patterns; ips = [] }) s)
    inserted [] h = (empty name patterns, tt)
    inserted ((n, m) ∷ s) (p, h) = elim (Bool-cases (name == n)) [
      | inl same ↦ rw same (empty name patterns, h)
      | inr differ ↦ rw differ (p, inserted s h)
    ]
All-Edits P empty {s} (removed name) h = without s h
  where
    without : (s : State) → All P s → All P (remove name s)
    without [] h = tt
    without ((n, m) ∷ s) (p, h) = elim (Bool-cases (name == n)) [
      | inl same ↦ rw same (without s h)
      | inr differ ↦ rw differ (p, without s h)
    ]
