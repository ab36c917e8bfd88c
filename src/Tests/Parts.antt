-- ===== src/Tests/Parts.antt =====
-- A host on which one rule and one binary stand, and the theorems about the statistics, the trusted
-- binaries and the helper at concrete inputs.
use mathlib.Core.Option.{some-injective}
use dockerwall.Base.{
  ℕ, suc, zero, ◌+◌, ◌*◌, ◌/◌, ◌%◌, ◌^◌, ◌≤◌, ◌<◌, ◌≡◌, ◌≢◌, ◌↔◌, refl, sym, ap, Bool, true, false,
  none, some, List, [], ◌∷◌, ◌++◌, if◌then◌else◌, ◌==◌, list_eq, nat_eq, pair_eq, All, arith,
}
use dockerwall.Base.Assoc.{lookup, lookup-nil}
use dockerwall.Text.{Text, codes}
use dockerwall.Text.Decimal.{to_decimal, parse_uint, push_digit}
use dockerwall.Net.{v4, ip_eq, ipv4}
use dockerwall.Net.Display.{parse_ip}
use dockerwall.Result.{Result, ok, err}
use dockerwall.Host.{Host, Metadata, Output}
use dockerwall.Stats.{
  no_networks, register_network, StatEntry, Stats, record_entry, retain_recent, bump_entry,
}
use dockerwall.Stats.Registry.{no_networks-IsConsistent, register_network_lem}
use dockerwall.Stats.Record.{IsBounded, lookup-record_entry}
use dockerwall.Stats.Subnet.{in_network, in_network_iff, ip_in_subnet}
use dockerwall.Stats.Report.{format_duration, nanos}
use dockerwall.Stats.Report.Duration.{IsUnit, format_duration_lem}
use dockerwall.Trust.{is_trusted, first_trusted, is_trusted_binary}
use dockerwall.Trust.Search.{HasTrusted, first_trusted-some}
use dockerwall.Proxy.{is_local_ip}
use dockerwall.Helper.Address.{
  source_slots, rootless_dns_ip, rootless_podman_source_ip, rootless_podman_source_ipv6,
}
use dockerwall.Helper.Source.{source_ip_range, source_ip_exhausts, source_ipv6_lem}
use dockerwall.Helper.Plan.{subnet_and_gateway, gateway_in_subnet}
use dockerwall.Helper.Command.{run_command_allow_failure}
use dockerwall.Helper.Rule.{ensure_rule_present}
use dockerwall.Helper.Rule.Once.{IsInsertion, RuleLaws, ensure_rule_present_once}

abbrev one_rule : List Text
one_rule = codes "-I" ∷ codes "DOCKER-USER" ∷ codes "4" ∷ codes "-j" ∷ codes "DROP" ∷ []

abbrev drop_words : List Text
drop_words = codes "-j" ∷ codes "DROP" ∷ []

abbrev the_deletion : List Text
the_deletion = codes "-D" ∷ codes "DOCKER-USER" ∷ codes "-j" ∷ codes "DROP" ∷ []

one_rule-IsInsertion : IsInsertion one_rule [] (codes "DOCKER-USER") drop_words
unfolding list_eq nat_eq parse_uint push_digit to_decimal
one_rule-IsInsertion = record {
  operation = codes "-I";
  position = some 4;
  word = codes "-j";
  rest = codes "DROP" ∷ [];
  written = refl;
  of_words = refl;
  no_number = refl;
  inserting = refl;
  first = refl;
  in_range = λ p e. let same = some-injective _ _ e in omega (arith, same);
}

abbrev output_of : Bool → Output
output_of success = record { success = success; stdout = []; stderr = [] }

-- A deletion, on the number of copies of the rule.
abbrev delete_rule : ℕ → Result Output × ℕ
delete_rule zero = (ok (output_of false), zero)
delete_rule (suc n) = (ok (output_of true), n)

abbrev rule_host : Host
rule_host = record {
  World = ℕ;
  metadata = λ path w.
      if path == codes "/sbin/ipset"
      then some (record { is_file = true; uid = 0; mode = 0o755 })
      else none;
  run = λ binary args input w.
      if args == the_deletion then delete_rule w else (ok (output_of true), suc w);
  read_file = λ path w. none;
  request = λ payload w. (err [], w);
  spawn_daemon = λ w. (ok tt, w);
  sleep = λ n w. w;
}

rule_host_laws :
    RuleLaws rule_host (codes "iptables") one_rule [] (codes "DOCKER-USER") drop_words (λ w. w)
unfolding run_command_allow_failure list_eq nat_eq
rule_host_laws = record { deletes = deletes; inserts = λ w w' output e fine. sym (ap (λ r. r.1) e) }
  where
    deletes :
        (w : ℕ)
        → (output : Output) × (w' : ℕ) × (run_command_allow_failure rule_host
              (codes "iptables")
              the_deletion
              w
            ≡ (ok output, w'))
          × (w ≡ (if output.success then suc w' else 0))
          × (output.success ≡ false → w' ≡ 0)
    deletes zero = (output_of false, zero, refl, refl, λ h. refl)
    deletes (suc n) = (output_of true, n, refl, refl, λ h. cc)

ensure_rule_present_once_example :
    (result : Result (Unit {0})) × (w' : ℕ) × (ensure_rule_present rule_host 4
        (codes "iptables")
        one_rule
        3
      ≡ some (result, w'))
    × (result ≡ ok tt → w' ≡ 1)
ensure_rule_present_once_example =
    ensure_rule_present_once rule_host (codes "iptables") one_rule [] (codes "DOCKER-USER")
      drop_words one_rule-IsInsertion (λ w. w) rule_host_laws 4 3 (omega arith)

source_ip_range_example :
    (rootless_dns_ip < rootless_podman_source_ip (codes "net") 3)
    × (rootless_podman_source_ip (codes "net") 3 < ipv4 198 19 255 255)
    × (is_local_ip (v4 (rootless_podman_source_ip (codes "net") 3)) ≡ true)
source_ip_range_example = source_ip_range (codes "net") 3 (omega arith)

source_ip_exhausts_example :
    (attempt : ℕ) × (attempt < source_slots)
    × (rootless_podman_source_ip (codes "net") attempt ≡ ipv4 198 18 7 9)
    × ((other : ℕ)
        → other < source_slots
        → rootless_podman_source_ip (codes "net") other ≡ ipv4 198 18 7 9
        → other ≡ attempt)
source_ip_exhausts_example =
    source_ip_exhausts (codes "net") (ipv4 198 18 7 9) (omega arith) (omega arith)

source_ipv6_lem_example :
    (rootless_podman_source_ipv6 (2 ^ 127 + 1) (codes "net") 0 / 2 ^ 64 ≡ (2 ^ 127 + 1) / 2 ^ 64)
    × (rootless_podman_source_ipv6 (2 ^ 127 + 1) (codes "net") 0
          ≡ rootless_podman_source_ipv6 (2 ^ 127 + 1) (codes "net") 1
        → ◌≡◌ {A = ℕ} 0 1)
source_ipv6_lem_example =
    source_ipv6_lem (2 ^ 127 + 1) (codes "net") 0 1 (omega arith) (omega arith) (omega arith)

gateway_in_subnet_example :
    (g : ℕ) × (parse_ip (subnet_and_gateway 12345).1 ≡ some (v4 g))
    × (ip_in_subnet (v4 g) (subnet_and_gateway 12345).0 ≡ true)
    × (0 < g % 16)
    × (g % 16 < 15)
gateway_in_subnet_example = gateway_in_subnet 12345

in_network_iff_example :
    (in_network 32 (ipv4 10 0 0 9) (ipv4 10 0 0 0) 28 ≡ true)
    ↔ (ipv4 10 0 0 9 / 2 ^ 4 ≡ ipv4 10 0 0 0 / 2 ^ 4)
in_network_iff_example =
    in_network_iff 32 (ipv4 10 0 0 9) (ipv4 10 0 0 0) 28 (omega arith) (omega arith)

abbrev subnet : Text
subnet = codes "10.0.0.0/28"

register_network_lem_example :
    ((id : ℕ) × (lookup subnet (register_network (codes "net") subnet no_networks).subnet_to_id
        ≡ some id)
      × (lookup id (register_network (codes "net") subnet no_networks).registry
          ≡ some (record { name = codes "net"; subnet = subnet })))
    × ((other : Text) (id : ℕ)
        → other ≢ subnet
        → lookup other no_networks.subnet_to_id ≡ some id
        → (lookup other (register_network (codes "net") subnet no_networks).subnet_to_id ≡ some id)
          × (lookup id (register_network (codes "net") subnet no_networks).registry
              ≡ lookup id no_networks.registry))
register_network_lem_example =
    register_network_lem (codes "net") subnet no_networks-IsConsistent (omega arith)

abbrev seen : StatEntry
seen = record { count = 4; last_seen = 90; network_id = some 1; accepted = some true }

abbrev one_entry : Stats
one_entry = ((codes "example.com", v4 1), seen) ∷ []

one_entry-IsBounded : IsBounded one_entry
one_entry-IsBounded = record {
  nodup = (lookup-nil (codes "example.com", v4 1), tt);
  within = omega arith;
}

lookup-record_entry_example :
    lookup
      (codes "example.com", v4 1)
      (record_entry (codes "example.com") (v4 1) 100 60 none none one_entry)
    ≡ some (record { count = 5; last_seen = 100; network_id = none; accepted = none })
unfolding retain_recent bump_entry lookup list_eq nat_eq pair_eq ip_eq
lookup-record_entry_example =
    lookup-record_entry (codes "example.com") (v4 1) 100 60 none none one_entry
      (codes "example.com", v4 1) one_entry-IsBounded

format_duration_lem_example :
    (unit : ℕ) × (letter : Text) × (n : ℕ) × (format_duration (7300 * nanos)
      ≡ to_decimal n ++ letter)
    × IsUnit unit letter n
    × (n * unit * nanos ≤ 7300 * nanos)
    × (7300 * nanos < (n + 1) * unit * nanos)
format_duration_lem_example = format_duration_lem (7300 * nanos)

abbrev root_file : Metadata
root_file = record { is_file = true; uid = 0; mode = 0o755 }

abbrev candidates : List Text
candidates = codes "/usr/sbin/ipset" ∷ codes "/sbin/ipset" ∷ []

ipset_found : first_trusted rule_host candidates 0 ≡ some (codes "/sbin/ipset")
unfolding first_trusted is_trusted_binary is_trusted list_eq nat_eq
ipset_found = refl

first_trusted-some_example :
    (before : List Text) × (behind : List Text) × (candidates
      ≡ before ++ (codes "/sbin/ipset" ∷ behind))
    × HasTrusted rule_host (codes "/sbin/ipset") 0
    × All (λ b. ¬ HasTrusted rule_host b 0) before
first_trusted-some_example = first_trusted-some rule_host candidates 0 ipset_found
