-- ===== src/Tests/Filter.antt =====
-- The rules of a Docker network as a packet filter on a host with one chain.
use dockerwall.Base.{
  ◌≡◌, refl, false, none, some, Option, [], ◌∷◌, ◌==◌, list_eq, nat_eq, option_eq, length, arith,
}
use dockerwall.Text.{Text, codes}
use dockerwall.Text.Decimal.{parse_uint, push_digit, is_digit, parse_digits}
use dockerwall.Result.{Result, ok, err}
use dockerwall.Helper.Rule.{
  delete_args, operation_index, ensure_rules, ensure_rule_present, remove_rule_all, insert_rule,
}
use dockerwall.Helper.Plan.{NetworkPlan}
use dockerwall.Helper.Docker.{
  established_rule, allow_rule, allow_local_rule, drop_rule, dns_rule, docker_rules,
  ensure_docker_iptables_rules,
}
use dockerwall.Helper.Docker.Setup.{TableLaws}
use dockerwall.Helper.Docker.Filter.{filter_rules, docker_policy, docker_default_deny}
use dockerwall.Helper.Chain.Verdict.{verdict, Packet}
use dockerwall.Tests.Table.{
  Table, put_into, put, put_at, insert_words, take_away, execute, table_host, table_host_laws,
  shrinks_deletion, other_rule, passes, hits, hits_laws,
}
use dockerwall.Helper.Command.{run_command_allow_failure, run_command_checked, check_output}
use dockerwall.Helper.Chain.{without_all}

pub docker_host-TableLaws :
    TableLaws (table_host (codes "ip6tables") (codes "DOCKER-USER")) 20 (λ t. length t.0)
unfolding run_command_allow_failure docker_rules delete_args operation_index parse_uint push_digit
    is_digit execute list_eq nat_eq option_eq
docker_host-TableLaws = record {
  bounded = λ w. w.1;
  shrinks = λ plan. (
    shrinks_deletion (codes "ip6tables") (codes "DOCKER-USER") established_rule,
    (
      shrinks_deletion (codes "ip6tables") (codes "DOCKER-USER") (allow_rule plan),
      (
        shrinks_deletion (codes "ip6tables") (codes "DOCKER-USER") (allow_local_rule plan),
        (
          shrinks_deletion (codes "ip6tables") (codes "DOCKER-USER") (drop_rule plan),
          (
            other_rule (codes "ip6tables") (codes "DOCKER-USER") (dns_rule plan (codes "udp")) refl
                (λ w. refl),
            (
              other_rule (codes "ip6tables") (codes "DOCKER-USER") (dns_rule plan (codes "tcp"))
                  refl (λ w. refl),
              tt,
            ),
          ),
        ),
      ),
    ),
  );
}

pub apart : (codes "iptables" == codes "ip6tables") ≡ false
unfolding list_eq nat_eq
apart = refl

-- A packet of the network to an address in its set.
abbrev pub packet : Packet
packet = record {
  state = λ s. false;
  source = λ s. s == codes "172.30.1.0/28";
  destination = λ s. false;
  protocol = λ s. false;
  port = λ s. false;
  icmp_type = λ s. false;
  member = λ s. s == codes "net";
}

abbrev pub plan : NetworkPlan
plan = record {
  name = codes "net";
  subnet = codes "172.30.1.0/28";
  gateway = codes "172.30.1.1";
  dns_port = 5353;
}

-- The chain with a rule of another network.
abbrev pub one_rule : Table
one_rule = ((codes "-s" ∷ codes "172.30.2.0/28" ∷ codes "-j" ∷ codes "DROP" ∷ []) ∷ [], omega arith)

docker_default_deny_example :
    (r : Result (Unit {0})) × (w' : Table) × (ensure_docker_iptables_rules
        (table_host (codes "ip6tables") (codes "DOCKER-USER"))
        20
        (codes "iptables")
        plan
        one_rule
      ≡ some (r, w'))
    × (r ≡ ok tt
        → verdict (hits packet) w'.0
          ≡ docker_policy plan packet
              (verdict (hits packet) (without_all (filter_rules plan) one_rule.0)))
docker_default_deny_example =
    docker_default_deny (table_host (codes "ip6tables") (codes "DOCKER-USER")) 20 (λ t. length t.0)
      docker_host-TableLaws (codes "iptables") (λ t. t.0)
      (table_host_laws (codes "ip6tables") (codes "iptables") (codes "DOCKER-USER") apart) plan
      packet (hits packet) one_rule (hits_laws packet)

-- What the chain of a successful preparation decides on the packet.
abbrev pub decision : Option (Result (Unit {0}) × Table) → Option Text
decision none = none
decision (some (err message, t)) = none
decision (some (ok _, t)) = verdict (hits packet) t.0

packet_accepted :
    decision (
      ensure_docker_iptables_rules
        (table_host (codes "ip6tables") (codes "DOCKER-USER"))
        20
        (codes "iptables")
        plan
        one_rule)
    ≡ some (codes "ACCEPT")
unfolding ensure_docker_iptables_rules ensure_rules ensure_rule_present remove_rule_all insert_rule
    run_command_checked check_output run_command_allow_failure docker_rules delete_args
    operation_index parse_uint push_digit is_digit execute list_eq nat_eq option_eq insert_words
    put_at put put_into take_away parse_digits hits passes
packet_accepted = refl
