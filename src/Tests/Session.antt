-- ===== src/Tests/Session.antt =====
-- A host that is nothing but the daemon behind its control socket, and commands on it.
use dockerwall.Base.{ℕ, ◌≡◌, refl, ap, some, none, List, [], ◌∷◌, list_eq, nat_eq}
use dockerwall.Base.Assoc.{lookup}
use dockerwall.Text.{Text, codes}
use dockerwall.Host.{Host}
use dockerwall.Result.{Result, ok, err}
use dockerwall.Stats.Report.{get_stats_report}
use dockerwall.Control.{Daemon, handle_command}
use dockerwall.Cli.{IpsetCommands, create, remove, stats, exited, Answer, main}
use dockerwall.Cli.Session.{
  first_line, IsConnected, sets_of, promised_all, run_script, run_script_lem,
}
use dockerwall.Cli.Report.{read_lines, IsReporting, main_stats}
use dockerwall.Tests.Daemon.{one_daemon, net-IsWord, example_com_words}

-- What comes back: nothing where the daemon closes the connection.
abbrev first_answer : Result Text → Result Text
first_answer (ok answer) = ok (first_line answer)
first_answer (err message) = ok []

abbrev daemon_host : Host
daemon_host = record {
  World = Daemon;
  metadata = λ path w. none;
  run = λ program args input w. (err [], w);
  read_file = λ path w. none;
  request = λ payload w.
      let reply = handle_command 5353 0 (first_line payload) w in (first_answer reply.0, reply.1);
  spawn_daemon = λ w. (err [], w);
  sleep = λ time w. w;
}

abbrev all_lines : Result Text → Answer
all_lines (ok answer) = (read_lines answer, ok tt)
all_lines (err message) = ([], ok tt)

abbrev daemon_answer : Text → Daemon → Answer × Daemon
daemon_answer request w =
    let reply = handle_command 5353 0 request w in (all_lines reply.0, reply.1)

abbrev itself : Daemon → Daemon
itself d = d

daemon_host-IsConnected : IsConnected daemon_host 5353 itself
daemon_host-IsConnected payload w = (0, refl, λ answer e. ap first_answer e)

daemon_answer-IsReporting : IsReporting daemon_host daemon_answer 5353 itself
daemon_answer-IsReporting w = (0, refl, λ answer e. ap all_lines e)

abbrev script : List IpsetCommands
script =
    create (codes "net") (codes "example.com" ∷ [])
    ∷ remove (codes "net")
    ∷ create (codes "net") []
    ∷ []

run_script_lem_example :
    (w' : Daemon) × (run_script daemon_host daemon_answer (λ name attempt. 0) 0 script one_daemon
      ≡ some w')
    × ((name : Text) → lookup name w'.state ≡ promised_all script (sets_of one_daemon) name)
run_script_lem_example =
    run_script_lem daemon_host daemon_answer 5353 itself daemon_host-IsConnected (λ name attempt. 0)
      0 script one_daemon ((net-IsWord, example_com_words), (net-IsWord, ((net-IsWord, tt), tt)))

main_stats_example :
    (now : ℕ) × (w' : Daemon) × (main daemon_host daemon_answer
        (λ name attempt. 0)
        0
        stats
        one_daemon
      ≡ some (exited 0 (get_stats_report now one_daemon.networks one_daemon.stats), w'))
    × (w' ≡ one_daemon)
main_stats_example =
    main_stats daemon_host daemon_answer 5353 itself (λ name attempt. 0) 0 one_daemon
      daemon_answer-IsReporting
