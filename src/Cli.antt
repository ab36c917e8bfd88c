-- ===== src/Cli.antt =====
-- src/cli.rs and src/main.rs: the commands, what `main` calls for each, and the exit code. Also
-- `send_stats` of src/stats.rs.
pub mod Session
pub mod Report
use mathlib.Core.Option
use dockerwall.Base.{ℕ, ◌*◌, Option, none, some, List, [], ◌∷◌, ◌++◌}
use dockerwall.Text.{Text, codes}
use dockerwall.Host.{Host}
use dockerwall.Result.{Result, ok, err, Prog}
use dockerwall.Stats.Report.{nanos}
use dockerwall.Manage.{send_create, send_remove}
use dockerwall.Upstream.{upstream_or_default}
use dockerwall.Helper.Rootless
use dockerwall.Helper.Rootless.{ContainerRuntime}

pub data IpsetCommands : Type 0 where
  create : Text → List Text → IpsetCommands
  remove : Text → IpsetCommands

pub data Commands : Type 0 where
  stats : Commands
  daemon : Text → Option Text → ℕ → Commands
  prepare_network : ContainerRuntime → Option Text → Text → List Text → Commands
  ipset : IpsetCommands → Commands

-- What becomes of the process: its exit code and what `stats` prints, or the call of `run_daemon`
-- with its addresses and the time that statistics are kept, behind which it serves.
pub data Outcome : Type 0 where
  exited : ℕ → Text → Outcome
  serving : Text → Text → ℕ → Outcome

-- The lines that a connection gives to `read_line` one after the other, and how it ends.
abbrev pub Answer : Type 0
Answer = List Text × Result (Unit {0})

unfoldable pub print_lines : List Text → Text
print_lines [] = []
print_lines (line ∷ lines) = line ++ print_lines lines

abbrev pub exit_code : Result (Unit {0}) → ℕ
exit_code (ok _) = 0
exit_code (err message) = 1

abbrev pub exits : {W : Type 0} → Result (Unit {0}) × W → Outcome × W
exits (result, w) = (exited (exit_code result) [], w)

module _ (H : Host) (read_answer : Text → H.World → Answer × H.World) where
  -- What is printed, and the result.
  unfoldable pub send_stats : H.World → (Text × Result (Unit {0})) × H.World
  send_stats w =
      let ((lines, end), w') = read_answer (codes "STATS\n") w in ((print_lines lines, end), w')

  unfoldable pub ipset_command : IpsetCommands → Prog H.World (Unit {0})
  ipset_command (create name allowed_domains) = send_create H name none allowed_domains
  ipset_command (remove name) = send_remove H name

  unfoldable pub main : (Text → ℕ → ℕ) → ℕ → Commands → H.World → Option (Outcome × H.World)
  main hash fuel stats w =
      let ((printed, result), w') = send_stats w in some (exited (exit_code result) printed, w')
  main hash fuel (daemon dns_listen_addr dns_upstream_addr stats_ttl) w =
      some
        (serving dns_listen_addr (upstream_or_default H dns_upstream_addr w) (stats_ttl * nanos), w)
  main hash fuel (prepare_network runtime interface name domain_patterns) w =
      Option.map exits
        (Rootless.prepare_network H hash fuel name domain_patterns runtime interface w)
  main hash fuel (ipset command) w = some (exits (ipset_command command w))
