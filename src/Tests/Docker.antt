-- ===== src/Tests/Docker.antt =====
-- A host on which no rule stands and every command but a deletion succeeds, and the theorems about the
-- preparation of networks on it.
use dockerwall.Base.{
  ◌⊎◌, refl, ◌<◌, arith, ap, ℕ, ◌≡◌, Bool, true, false, not, ◌||◌, none, some, List, [], ◌∷◌,
  get_elem?, ◌==◌, list_eq, nat_eq, option_eq,
}
use dockerwall.Text.{Text, codes, lines}
use dockerwall.Helper.Address.{rootless_podman_source_ip}
use dockerwall.Helper.Allocate.{
  own_marker, own_source_ip, unless_shown, free_source_ip, own_or_free,
  allocate_rootless_podman_source_ip,
}
use dockerwall.Helper.Allocate.Free.{IsOwn, IsFree, allocate_rootless_podman_source_ip_lem}
use dockerwall.Text.Decimal.{parse_uint, push_digit}
use dockerwall.Result.{Result, ok}
use dockerwall.Host.{Host, Output}
use dockerwall.Helper.Command.{
  check_output, run_command_allow_failure, run_command_checked, output_rule_source_ip,
}
use dockerwall.Helper.Rule.{operation_index, delete_args}
use dockerwall.Helper.Docker.{docker_rules, prepare_docker_network}
use dockerwall.Helper.Docker.Setup.{TableLaws}
use dockerwall.Helper.Docker.Retry.{IsMade, prepare_docker_network_lem}

abbrev is_delete : List Text → Bool
is_delete args = get_elem? args 0 == some (codes "-D") || get_elem? args 2 == some (codes "-D")

abbrev quiet_host : Host
quiet_host = record {
  World = Unit {0};
  metadata = λ path w. some (record { is_file = true; uid = 0; mode = 0o755 });
  run = λ binary args input w.
      (ok (record { success = not (is_delete args); stdout = []; stderr = [] }), w);
  read_file = λ path w. none;
  request = λ payload w. (ok (codes "OK\t5353\n"), w);
  spawn_daemon = λ w. (ok tt, w);
  sleep = λ n w. w;
}

abbrev denied : Output
denied = record { success = false; stdout = []; stderr = [] }

never_deletes :
    (binary : Text) (w w' : Unit {0}) (output : Output)
    → ◌≡◌ {A = Result Output × Unit {0}} (ok denied, w) (ok output, w')
    → output.success ≡ true
    → 0 < 0
never_deletes binary w w' output e fine =
    let same : ok denied ≡ ok output = ap (λ r. r.0) e in
    let failed : denied ≡ output = cc same in
    let absent : false ≡ output.success = ap (λ o. o.success) failed in absurd (cc (absent, fine))

quiet_host-TableLaws : TableLaws quiet_host 1 (λ w. 0)
unfolding run_command_allow_failure operation_index delete_args docker_rules parse_uint push_digit
    list_eq nat_eq option_eq
quiet_host-TableLaws = record {
  bounded = λ w. omega arith;
  shrinks = λ plan. (
    never_deletes,
    (never_deletes, (never_deletes, (never_deletes, (never_deletes, (never_deletes, tt))))),
  );
}

-- A hash that no two attempts share.
abbrev hash : Text → ℕ → ℕ
hash name attempt = attempt

prepare_docker_network_lem_example :
    (r : Result (Unit {0})) × (w' : Unit {0}) × (prepare_docker_network quiet_host hash 1
        (codes "net")
        (codes "example.com" ∷ [])
        tt
      ≡ some (r, w'))
    × (r ≡ ok tt
        → (dns_port : ℕ) × IsMade quiet_host 1 hash
            (codes "net")
            (codes "example.com" ∷ [])
            dns_port
            0
            50
            w')
prepare_docker_network_lem_example =
    prepare_docker_network_lem quiet_host 1 hash (codes "net") (codes "example.com" ∷ []) (λ w. 0)
      quiet_host-TableLaws tt

first_address :
    allocate_rootless_podman_source_ip quiet_host (codes "iptables") (codes "ip") (codes "net") tt
    ≡ (ok (rootless_podman_source_ip (codes "net") 0), tt)
unfolding run_command_allow_failure run_command_checked check_output lines own_source_ip
    unless_shown free_source_ip own_or_free allocate_rootless_podman_source_ip list_eq nat_eq
    option_eq
first_address = refl

allocate_rootless_podman_source_ip_lem_example :
    (output : Output) × (v : Unit {0}) × (run_command_checked quiet_host
        (codes "iptables")
        (codes "-S" ∷ codes "OUTPUT" ∷ [])
        tt
      ≡ (ok output, v))
    × (IsOwn output_rule_source_ip
          (own_marker (codes "net"))
          (lines output.stdout)
          (rootless_podman_source_ip (codes "net") 0)
        ⊎ IsFree quiet_host
            (codes "ip")
            (codes "net")
            (lines output.stdout)
            (rootless_podman_source_ip (codes "net") 0)
            tt)
allocate_rootless_podman_source_ip_lem_example =
    allocate_rootless_podman_source_ip_lem quiet_host (codes "iptables") (codes "ip") (codes "net")
      tt first_address
