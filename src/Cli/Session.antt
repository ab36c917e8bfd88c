-- ===== src/Cli/Session.antt =====
-- Commands of the command line on a host whose control socket is that of the daemon.
use dockerwall.Base.{
  ℕ, ◌≡◌, refl, sym, ap, ◌∙◌, true, Option, none, some, List, [], ◌∷◌, ◌++◌, eqb, if◌then◌else◌,
  ◌==◌, list_eq, nat_eq, arith,
}
use dockerwall.Base.Assoc.{lookup, lookup-insert, lookup-remove}
use dockerwall.Text.{Text, codes, free, trim, trim_start_matches, trim_end_matches, starts_with}
use dockerwall.Host.{Host}
use dockerwall.Result.{Result, ok}
use dockerwall.State.{ManagedIpset}
use dockerwall.Control.{Daemon, handle_command, read_response}
use dockerwall.Control.Protocol.{
  IsWord, AllWords, create_line, create_payload_line, create_line-free,
  handle_command-create_payload,
}
use dockerwall.Control.Effects.{handle_command_removed}
use dockerwall.Manage.{
  create_payload, remove_payload, send_control_command, send_create, send_remove,
}
use dockerwall.Cli.{
  IpsetCommands, create, remove, ipset, Outcome, exited, Answer, ipset_command, exits, main,
}

-- `read_line` on a text: up to the end of its first line.
unfoldable pub first_line : Text → Text
first_line [] = []
first_line (c ∷ s) = let rest = first_line s in if eqb c b'\n' then c ∷ [] else c ∷ rest

-- The control socket leads to the daemon, where nothing else happens meanwhile: a request is handled
-- on its first line at some time, and the first line of the answer comes back.
abbrev pub IsConnected : (H : Host) → ℕ → (H.World → Daemon) → Type 0
IsConnected H dns_port daemon =
    (payload : Text) (w : H.World)
    → (now : ℕ) × (daemon (H.request payload w).1
        ≡ (handle_command dns_port now (first_line payload) (daemon w)).1)
      × ((answer : Text)
          → (handle_command dns_port now (first_line payload) (daemon w)).0 ≡ ok answer
          → (H.request payload w).0 ≡ ok (first_line answer))

-- The sets of the daemon by their names.
abbrev pub Sets : Type 0
Sets = Text → Option ManagedIpset

abbrev pub sets_of : Daemon → Sets
sets_of d name = lookup name d.state

-- What a command promises.
abbrev pub promised : IpsetCommands → Sets → Sets
promised (create name domains) sets other =
    if other == name
    then some (record { allowed_domain_patterns = domains; ips = [] })
    else sets other
promised (remove name) sets other = if other == name then none else sets other

abbrev pub promised_all : List IpsetCommands → Sets → Sets
promised_all [] sets = sets
promised_all (command ∷ commands) sets = promised_all commands (promised command sets)

abbrev pub IsProper : IpsetCommands → Type 0
IsProper (create name domains) = IsWord name × AllWords domains
IsProper (remove name) = IsWord name

abbrev pub AllProper : List IpsetCommands → Type 0
AllProper [] = Unit {0}
AllProper (command ∷ commands) = IsProper command × AllProper commands

first_line-append :
    (s : Text) → free b'\n' s ≡ true → first_line (s ++ (b'\n' ∷ [])) ≡ s ++ (b'\n' ∷ [])
unfolding first_line
first_line-append [] h = refl
first_line-append (c ∷ s) h = ground (arith, first_line-append s)

payload_none :
    (name : Text) (domains : List Text)
    → create_payload name none domains ≡ create_payload name (some []) domains
unfolding create_payload
payload_none name domains = refl

-- `create_payload` is one line.
first_line-create_payload :
    (name : Text) (domains : List Text)
    → IsWord name
    → AllWords domains
    → first_line (create_payload name none domains) ≡ create_payload name none domains
first_line-create_payload name domains n ds =
    let line : create_payload name none domains ≡ create_line name [] domains ++ (b'\n' ∷ []) =
      payload_none name domains ∙ create_payload_line name [] domains in
    ap first_line line ∙ first_line-append _ (create_line-free name [] domains n refl ds) ∙ sym line

first_line-remove_payload :
    (name : Text) → IsWord name → first_line (remove_payload name) ≡ remove_payload name
unfolding remove_payload
first_line-remove_payload name n =
    first_line-append (codes "REMOVE\t" ++ name) (ground (arith, n.no_line))

blank : trim [] ≡ []
unfolding trim trim_start_matches trim_end_matches
blank = refl

read_response_ok : (rest : Text) → read_response (codes "OK\t" ++ rest) ≡ ok tt
unfolding read_response starts_with
read_response_ok rest = refl

-- A script that goes on as long as its commands end with the exit code 0.
abbrev pub go_on : {W : Type 0} → (W → Option W) → Option (Outcome × W) → Option W
go_on rest (some (exited ℕ.zero printed, w)) = rest w
go_on rest _ = none

module _ (H : Host) (read_answer : Text → H.World → Answer × H.World) (hash : Text → ℕ → ℕ)
    (fuel : ℕ) where
  unfoldable pub run_script : List IpsetCommands → H.World → Option H.World
  run_script [] w = some w
  run_script (command ∷ commands) w =
      go_on (run_script commands) (main H read_answer hash fuel (ipset command) w)

module _ (H : Host) (read_answer : Text → H.World → Answer × H.World) (dns_port : ℕ)
    (daemon : H.World → Daemon) (connected : IsConnected H dns_port daemon) where
  -- A request whose answer is a success.
  request_ok :
      (payload rest : Text) (d' : Daemon) (w : H.World)
      → first_line payload ≡ payload
      → ((now : ℕ)
          → handle_command dns_port now payload (daemon w) ≡ (ok (codes "OK\t" ++ rest), d'))
      → first_line (codes "OK\t" ++ rest) ≡ codes "OK\t" ++ rest
      → (send_control_command H payload w ≡ (ok tt, (H.request payload w).1))
        × (daemon (H.request payload w).1 ≡ d')
  unfolding send_control_command
  request_ok payload rest d' w line handled answer =
      let (now, state, told) = connected payload w in
      let handled' : handle_command dns_port now (first_line payload) (daemon w)
          ≡ (ok (codes "OK\t" ++ rest), d') =
        rw line (handled now) in
      let answered : (H.request payload w).0 ≡ ok (codes "OK\t" ++ rest) =
        told _ (ap (λ r. r.0) handled') ∙ ap (λ s. Result.ok s) answer in
      (rw (answered, read_response_ok rest) refl, state ∙ ap (λ r. r.1) handled')

  -- One command: it ends with the exit code 0, and the sets are what it promises.
  main_ipset :
      (hash : Text → ℕ → ℕ) (fuel : ℕ) (command : IpsetCommands) (w : H.World)
      → IsProper command
      → (w' : H.World) × (main H read_answer hash fuel (ipset command) w ≡ some (exited 0 [], w'))
        × (sets_of (daemon w') ≡ promised command (sets_of (daemon w)))
  unfolding main ipset_command send_create send_remove
  main_ipset hash fuel (create name domains) w (n, ds) =
      let (sent, state) =
        request_ok (create_payload name none domains) (codes "created\n") _ w
          (first_line-create_payload name domains n ds)
          (λ now.
            ap (λ p. handle_command dns_port now p (daemon w)) (payload_none name domains)
            ∙ handle_command-create_payload dns_port now name [] domains (daemon w) n blank refl
                refl ds)
          (first_line-append (codes "OK\tcreated") refl) in
      (
        (H.request (create_payload name none domains) w).1,
        ap (λ r. some (exits r)) sent,
        ap sets_of state ∙ (λ i other.
            lookup-insert other name (record { allowed_domain_patterns = domains; ips = [] })
              (daemon w).state i),
      )
  main_ipset hash fuel (remove name) w n =
      let (sent, state) =
        request_ok (remove_payload name) (codes "removed\n") _ w (first_line-remove_payload name n)
          (λ now. handle_command_removed dns_port now name (daemon w) n)
          (first_line-append (codes "OK\tremoved") refl) in
      (
        (H.request (remove_payload name) w).1,
        ap (λ r. some (exits r)) sent,
        ap sets_of state ∙ (λ i other. lookup-remove other name (daemon w).state i),
      )

  -- Where the control socket leads to the daemon, in which nothing else happens meanwhile, commands
  -- `ipset create` and `ipset remove`, with names and patterns that are not empty, have no blanks
  -- around them, no tab or newline and, in a pattern, no comma, all end with the exit code 0 when
  -- they are run one after the other; and then the daemon has under every name what the last
  -- command about it promises, the new set with no address or none, and what it had under a name
  -- that no command is about.
  pub run_script_lem :
      (hash : Text → ℕ → ℕ) (fuel : ℕ) (commands : List IpsetCommands) (w : H.World)
      → AllProper commands
      → (w' : H.World) × (run_script H read_answer hash fuel commands w ≡ some w')
        × ((name : Text)
            → lookup name (daemon w').state ≡ promised_all commands (sets_of (daemon w)) name)
  unfolding run_script
  run_script_lem hash fuel [] w h = (w, refl, λ name. refl)
  run_script_lem hash fuel (command ∷ commands) w (h, hs) =
      let (v, ended, kept) = main_ipset hash fuel command w h in
      let (w', ran, sets) = run_script_lem hash fuel commands v hs in
      (
        w',
        ap (go_on (run_script H read_answer hash fuel commands)) ended ∙ ran,
        λ name. sets name ∙ ap (λ s. promised_all commands s name) kept,
      )
