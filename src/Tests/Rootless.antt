-- ===== src/Tests/Rootless.antt =====
-- A host with an IPv6 interface whose root runs the program, and the theorems about rootless networks
-- on it.
use dockerwall.Base.{
  ℕ, ◌≡◌, refl, ap, ◌∙◌, ◌^◌, ◌*◌, ◌+◌, Bool, true, not, ◌||◌, none, some, List, [], contains,
  get_elem?, ◌==◌, list_eq, nat_eq, option_eq, if◌then◌else◌,
}
use mathlib.Core.Option.{some-injective}
use dockerwall.Text.{
  Text, codes, lines, split_whitespace, split_by, nonempty, is_whitespace, starts_with, split_once,
  split_ascii_whitespace, is_ascii_whitespace, utf8,
}
use dockerwall.Net.Number.{read_number, span_digits, to_digit}
use dockerwall.Net.Ipv4.{read_ipv4, read_octet, read_dot_octet, read_char}
use dockerwall.Net.Ipv6.{parse_ipv6, display_ipv6}
use dockerwall.Helper.Allocate.{unless_shown}
use dockerwall.Helper.Rootless.Root.{mapped_uid}
use dockerwall.Helper.Rootless.Interface.{
  rootless_podman_ipv6_prefix, first_prefix, prefix_of_line, prefix_of_cidr, inet6_field,
}
use dockerwall.Result.{ok, err}
use dockerwall.Host.{Host, Output}
use dockerwall.Helper.Command.{run_command_checked, run_command_allow_failure, check_output}
use dockerwall.Helper.Address.{rootless_podman_source_ipv6, name_hash, fnv1a}
use dockerwall.Stats.Subnet.{mask}
use dockerwall.Helper.Rootless.{podman, prepare_network}
use dockerwall.Helper.Rootless.Refused.{IsHostRoot, prepare_network_refused}
use dockerwall.Helper.Rootless.Source.{
  allocate_rootless_podman_source_ipv6, allocate_in, own_or_free_ipv6, free_source_ipv6,
  own_source_ipv6,
}
use dockerwall.Helper.Rootless.Allocated.{AllocatedFrom, allocate_rootless_podman_source_ipv6_lem}

abbrev is_delete : List Text → Bool
is_delete args = get_elem? args 0 == some (codes "-D") || get_elem? args 2 == some (codes "-D")

abbrev said : Text → Output
said stdout = record { success = true; stdout = stdout; stderr = [] }

abbrev answer : List Text → Output
answer args =
    if contains args (codes "route")
    then said (codes "default via 10.0.0.1 dev eth0 proto dhcp\n")
    else if contains args (codes "global")
    then said (codes "2: eth0    inet6 2001:db8::5/64 scope global\n")
    else record { success = not (is_delete args); stdout = []; stderr = [] }

-- The host, with what the process's map of users says.
abbrev ipv6_host : Text → Host
ipv6_host uid_map = record {
  World = Unit {0};
  metadata = λ path w. some (record { is_file = true; uid = 0; mode = 0o755 });
  run = λ binary args input w. (ok (answer args), w);
  read_file = λ path w.
      if path == codes "/proc/self/status"
      then some (codes "Name:\tdockerwall\nUid:\t0\t0\t0\t0\n")
      else if path == codes "/proc/self/uid_map"
      then some uid_map
      else none;
  request = λ payload w. (ok (codes "OK\t5353\n"), w);
  spawn_daemon = λ w. (ok tt, w);
  sleep = λ n w. w;
}

abbrev host_map : Text
host_map = codes "         0          0 4294967295\n"

-- The root of a user namespace.
abbrev namespace_map : Text
namespace_map = codes "         0       1000          1\n"

abbrev hash : Text → ℕ → ℕ
hash name attempt = attempt

namespace_root : ¬ IsHostRoot (ipv6_host namespace_map) tt
unfolding mapped_uid lines split_whitespace split_by nonempty is_whitespace starts_with list_eq
    nat_eq
namespace_root root =
    let same : namespace_map ≡ root.uid_map = some-injective _ _ root.reads_map in
    let mapped : mapped_uid (lines namespace_map) ≡ some (codes "0") =
      ap (λ t. mapped_uid (lines t)) same ∙ root.mapped in
    absurd (cc mapped)

prepare_network_refused_example :
    (message : Text) × (prepare_network
        (ipv6_host namespace_map)
        hash
        1
        (codes "net")
        []
        podman
        (some (codes "eth0"))
        tt
      ≡ some (err message, tt))
prepare_network_refused_example =
    prepare_network_refused (ipv6_host namespace_map) tt hash 1 (codes "net") [] podman
      (some (codes "eth0")) namespace_root

first_address :
    allocate_rootless_podman_source_ipv6
      (ipv6_host host_map)
      (codes "ip6tables")
      (codes "ip")
      (codes "eth0")
      (codes "net")
      tt
    ≡ (ok (some (rootless_podman_source_ipv6 (0x20010db8 * 2 ^ 96 + 5) (codes "net") 0)), tt)
unfolding allocate_rootless_podman_source_ipv6 rootless_podman_ipv6_prefix allocate_in
    own_or_free_ipv6 free_source_ipv6 own_source_ipv6 unless_shown run_command_checked
    run_command_allow_failure check_output first_prefix prefix_of_line prefix_of_cidr inet6_field
    lines split_once split_ascii_whitespace split_by nonempty is_ascii_whitespace starts_with
    parse_ipv6 read_number span_digits to_digit read_ipv4 read_octet read_dot_octet read_char
    list_eq nat_eq option_eq display_ipv6 rootless_podman_source_ipv6 mask name_hash fnv1a utf8
first_address = refl

allocate_rootless_podman_source_ipv6_lem_example :
    AllocatedFrom
      (ipv6_host host_map)
      (codes "ip6tables")
      (codes "ip")
      (codes "eth0")
      (codes "net")
      (rootless_podman_source_ipv6 (0x20010db8 * 2 ^ 96 + 5) (codes "net") 0)
      tt
      tt
allocate_rootless_podman_source_ipv6_lem_example =
    allocate_rootless_podman_source_ipv6_lem (ipv6_host host_map) (codes "ip6tables") (codes "ip")
      (codes "eth0") (codes "net") tt first_address
