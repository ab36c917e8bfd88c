-- ===== src/Cli/Report.antt =====
-- `dockerwall stats` on a host whose control socket is that of the daemon.
use dockerwall.Base.{
  ℕ, ◌≡◌, refl, ap, ◌∙◌, some, List, [], ◌∷◌, eqb, if◌then◌else◌, list_eq, nat_eq, arith,
}
use dockerwall.Text.{Text, codes, trim_end_matches}
use dockerwall.Host.{Host}
use dockerwall.Result.{ok}
use dockerwall.Stats.Report.{get_stats_report}
use dockerwall.Control.{Daemon, handle_command}
use dockerwall.Cli.{stats, exited, Answer, print_lines, send_stats, main}

abbrev put_first : ℕ → List Text → List Text
put_first c [] = (c ∷ []) ∷ []
put_first c (line ∷ lines) = (c ∷ line) ∷ lines

-- What `read_line` reads from a text, one line after the other, each with its newline.
unfoldable pub read_lines : Text → List Text
read_lines [] = []
read_lines (c ∷ s) =
    let rest = read_lines s in if eqb c b'\n' then (c ∷ []) ∷ rest else put_first c rest

print_lines-put_first :
    (c : ℕ) (lines : List Text) → print_lines (put_first c lines) ≡ c ∷ print_lines lines
unfolding print_lines
print_lines-put_first c [] = refl
print_lines-put_first c (line ∷ lines) = refl

pub print_lines-read_lines : (s : Text) → print_lines (read_lines s) ≡ s
unfolding print_lines read_lines
print_lines-read_lines [] = refl
print_lines-read_lines (c ∷ s) =
    ground (arith, print_lines-read_lines s, print_lines-put_first c (read_lines s))

-- The connection of `send_stats` leads to the daemon, where nothing else happens meanwhile, and is
-- closed behind the whole answer.
abbrev pub IsReporting :
    (H : Host) → (Text → H.World → Answer × H.World) → ℕ → (H.World → Daemon) → Type 0
IsReporting H read_answer dns_port daemon =
    (w : H.World)
    → (now : ℕ) × (daemon (read_answer (codes "STATS\n") w).1
        ≡ (handle_command dns_port now (codes "STATS\n") (daemon w)).1)
      × ((answer : Text)
          → (handle_command dns_port now (codes "STATS\n") (daemon w)).0 ≡ ok answer
          → (read_answer (codes "STATS\n") w).0 ≡ (read_lines answer, ok tt))

handle_stats :
    (dns_port now : ℕ) (d : Daemon)
    → handle_command dns_port now (codes "STATS\n") d
      ≡ (ok (get_stats_report now d.networks d.stats), d)
unfolding handle_command trim_end_matches list_eq nat_eq
handle_stats dns_port now d = refl

-- Where the connection of `send_stats` leads to the daemon, in which nothing else happens
-- meanwhile, and is closed behind the answer, `dockerwall stats` prints the whole report as it is
-- at some time, ends with the exit code 0 and leaves the daemon as it was.
pub main_stats :
    (H : Host) (read_answer : Text → H.World → Answer × H.World) (dns_port : ℕ)
    (daemon : H.World → Daemon) (hash : Text → ℕ → ℕ) (fuel : ℕ) (w : H.World)
    → IsReporting H read_answer dns_port daemon
    → (now : ℕ) × (w' : H.World) × (main H read_answer hash fuel stats w
        ≡ some (exited 0 (get_stats_report now (daemon w).networks (daemon w).stats), w'))
      × (daemon w' ≡ daemon w)
unfolding main send_stats
main_stats H read_answer dns_port daemon hash fuel w reporting =
    let (now, state, told) = reporting w in
    let handled = handle_stats dns_port now (daemon w) in
    let report = get_stats_report now (daemon w).networks (daemon w).stats in
    let answered = told report (ap (λ r. r.0) handled) in
    (
      now,
      (read_answer (codes "STATS\n") w).1,
      rw (answered, print_lines-read_lines report) refl,
      state ∙ ap (λ r. r.1) handled,
    )
