-- ===== src/Control.antt =====
-- src/control.rs: the commands of the control socket, and what the other end makes of a response.
pub mod Protocol
pub mod Effects
pub mod Invariant
use dockerwall.Base.{
  ℕ, ◌+◌, ◌≡◌, refl, Bool, true, false, not, ◌&&◌, ◌||◌, Option, none, some, List, [], ◌∷◌, ◌++◌,
  leb, ltb, eqb, if◌then◌else◌, ◌==◌, list_eq, nat_eq, length, is_empty,
}
use dockerwall.Base.Assoc.{Dict, lookup, insert, remove}
use dockerwall.Text.{
  Text, codes, trim, trim_end, trim_end_matches, strip_prefix, starts_with, split, splitn,
}
use dockerwall.Text.Decimal.{to_decimal, parse_uint, parse_uint_error, u16_max}
use dockerwall.Result.{Result, ok, err}
use dockerwall.State.{State, ManagedIpset}
use dockerwall.Stats.{Networks, Stats, register_network}
use dockerwall.Stats.Report.{get_stats_report}

-- The state that the daemon's tasks share: `STATE`, the registry of networks, and `STATS`.
pub record Daemon : Type 0 where
  pub state : State
  pub networks : Networks
  pub stats : Stats

-- `.split(',').map(str::trim).filter(|d| !d.is_empty())`
unfoldable pub trimmed_pieces : List Text → List Text
trimmed_pieces [] = []
trimmed_pieces (w ∷ ws) =
    let piece = trim w in
    let rest = trimmed_pieces ws in if is_empty piece then rest else piece ∷ rest

unfoldable pub parse_domains : Text → List Text
parse_domains raw = trimmed_pieces (split b',' raw)

-- What a command answers, and the state that it leaves. An error closes the connection.
abbrev pub Reply : Type 0
Reply = Result Text × Daemon

-- The insertion of a set, behind the registration of its subnet.
unfoldable pub create : Text → Text → Text → Daemon → Reply
create name subnet raw_domains d =
    if is_empty name then (ok (codes "ERR\tmissing ipset name\n"), d) else (
      ok (codes "OK\tcreated\n"),
      record d {
        networks = if is_empty subnet then d.networks else register_network name subnet d.networks;
        state =
            insert name (record { allowed_domain_patterns = parse_domains raw_domains; ips = [] })
              d.state;
      },
    )

unfoldable pub handle_create : List Text → Daemon → Reply
handle_create [] d = (err (codes "missing ipset name"), d)
handle_create (name ∷ []) d = (err (codes "missing subnet"), d)
handle_create (name ∷ subnet ∷ []) d = (err (codes "missing domains"), d)
handle_create (name ∷ subnet ∷ raw_domains ∷ _) d = create (trim name) (trim subnet) raw_domains d

unfoldable pub handle_remove : Text → Daemon → Reply
handle_remove name d =
    if is_empty name
    then (ok (codes "ERR\tmissing ipset name\n"), d)
    else (ok (codes "OK\tremoved\n"), record d { state = remove name d.state })

-- The last two tests of `handle_control_connection`.
unfoldable pub handle_change : Text → Daemon → Reply
handle_change command d = elim (strip_prefix command (codes "CREATE\t")) [
  | some rest ↦ handle_create (splitn 3 b'\t' rest) d
  | none ↦ elim (strip_prefix command (codes "REMOVE\t")) [
    | some name ↦ handle_remove (trim name) d
    | none ↦ (ok (codes "ERR\tunknown command\n"), d)
  ]
]

-- `handle_control_connection` on the line that it has read, at the time `now`.
unfoldable pub handle_command : ℕ → ℕ → Text → Daemon → Reply
handle_command dns_port now line d =
    let command = trim_end_matches (λ c. eqb c b'\n') line in
    if command == codes "STATS"
    then (ok (get_stats_report now d.networks d.stats), d)
    else if command == codes "INFO"
    then (ok (codes "OK\t" ++ (to_decimal dns_port ++ codes "\n")), d)
    else handle_change command d

-- `handle_control_connection`, where reading the line may take too long.
unfoldable pub handle_control_connection : ℕ → ℕ → Option Text → Daemon → Reply
handle_control_connection dns_port now none d =
    (err (codes "control connection timed out waiting for command"), d)
handle_control_connection dns_port now (some line) d = handle_command dns_port now line d

-- What `send_control_command` makes of a response that is no success.
unfoldable pub refusal {ℓ} : {A : Type ℓ} → Text → Result A
refusal response = elim (strip_prefix (trim_end response) (codes "ERR\t")) [
  | some message ↦ err message
  | none ↦ err (codes "invalid daemon response")
]

-- `send_control_command`, on the response.
unfoldable pub read_response : Text → Result (Unit {0})
read_response response = if starts_with response (codes "OK\t") then ok tt else refusal response

-- `get_dns_port`, on the response.
unfoldable pub read_dns_port : Text → Result ℕ
read_dns_port response = elim (strip_prefix response (codes "OK\t")) [
  | some rest ↦ elim (parse_uint u16_max (trim_end rest)) [
    | some port ↦ ok port
    | none ↦ err (parse_uint_error u16_max (trim_end rest))
  ]
  | none ↦ refusal response
]
