-- ===== src/Tests/Policy.antt =====
-- A network whose set is the one of the daemon, and what its rules decide before and after a response.
use dockerwall.Base.{
  ◌≡◌, ◌↔◌, ◌⊎◌, refl, Bool, true, false, some, contains, ◌==◌, list_eq, nat_eq, if◌then◌else◌,
  length,
}
use dockerwall.Base.Assoc.{lookup, lookup-nil}
use dockerwall.Text.{codes}
use dockerwall.Net.{v4, ip_eq}
use dockerwall.Result.{Result, ok}
use dockerwall.Proxy.{collect_resolved_ips, query_domains}
use dockerwall.State.Growth.{IsAdmitted}
use dockerwall.Helper.Plan.{NetworkPlan}
use dockerwall.Helper.Docker.{ensure_docker_iptables_rules}
use dockerwall.Helper.Chain.Verdict.{verdict, Packet}
use dockerwall.System.Policy.{IsOpening, opening_verdict, answer_verdict}
use dockerwall.Tests.Kernel.{Sets, exec_sets, in_set, exec_sets_laws}
use dockerwall.Tests.Mirror.{
  web, web_state, web_daemon, web_answer, web_sets, web_sets_pushed, web-Mirrors, web-IsApart,
  web_pushed,
}
use dockerwall.Tests.Table.{Table, table_host, table_host_laws, hits, hits_laws}
use dockerwall.Tests.Filter.{docker_host-TableLaws, one_rule, apart}

abbrev web_plan : NetworkPlan
web_plan = record {
  name = codes "web";
  subnet = codes "172.30.1.0/28";
  gateway = codes "172.30.1.1";
  dns_port = 5353;
}

-- The first packet of a connection to 0.0.0.7, where the kernel's sets are these.
abbrev opening : Sets → Packet
opening sets = record {
  state = λ s. false;
  source = λ s. s == codes "172.30.1.0/28";
  destination = λ s. false;
  protocol = λ s. false;
  port = λ s. false;
  icmp_type = λ s. false;
  member = λ name. in_set sets name (v4 7);
}

opening-IsOpening : (sets : Sets) → IsOpening in_set sets web_plan 7 (opening sets)
unfolding list_eq nat_eq
opening-IsOpening sets = record {
  fresh = refl;
  from_network = refl;
  not_local = refl;
  in_set = λ name. refl;
}

opening_verdict_example :
    (r : Result (Unit {0})) × (w' : Table) × (ensure_docker_iptables_rules
        (table_host (codes "ip6tables") (codes "DOCKER-USER"))
        20
        (codes "iptables")
        web_plan
        one_rule
      ≡ some (r, w'))
    × (r ≡ ok tt
        → verdict (hits (opening web_sets)) w'.0
          ≡ some (if contains web.ips (v4 7) then codes "ACCEPT" else codes "DROP"))
unfolding lookup list_eq nat_eq
opening_verdict_example =
    opening_verdict (table_host (codes "ip6tables") (codes "DOCKER-USER")) 20 (λ t. length t.0)
      docker_host-TableLaws (codes "iptables") (λ t. t.0)
      (table_host_laws (codes "ip6tables") (codes "iptables") (codes "DOCKER-USER") apart) in_set
      web_plan (opening web_sets) (hits (opening web_sets)) (hits_laws (opening web_sets)) web_sets
      7 web_state web one_rule (opening-IsOpening web_sets) web-Mirrors refl

answer_verdict_example :
    (accepted : Bool) × ((accepted ≡ true) ↔ (
      (contains web.ips (v4 7) ≡ true)
      ⊎ (IsAdmitted (query_domains web_answer.queries) web
          × (contains (collect_resolved_ips web_answer.answers) (v4 7) ≡ true))))
    × ((r : Result (Unit {0})) × (w' : Table) × (ensure_docker_iptables_rules
            (table_host (codes "ip6tables") (codes "DOCKER-USER"))
            20
            (codes "iptables")
            web_plan
            one_rule
          ≡ some (r, w'))
        × (r ≡ ok tt
            → verdict (hits (opening web_sets_pushed)) w'.0
              ≡ some (if accepted then codes "ACCEPT" else codes "DROP")))
unfolding lookup list_eq nat_eq
answer_verdict_example =
    answer_verdict (table_host (codes "ip6tables") (codes "DOCKER-USER")) 20 (λ t. length t.0)
      docker_host-TableLaws (codes "iptables") (λ t. t.0)
      (table_host_laws (codes "ip6tables") (codes "iptables") (codes "DOCKER-USER") apart) in_set
      web_plan (opening web_sets_pushed) (hits (opening web_sets_pushed))
      (hits_laws (opening web_sets_pushed)) exec_sets exec_sets_laws web_answer (v4 2) 0 60
      web_daemon web_sets web_sets_pushed 7 web one_rule (lookup-nil (codes "web"), tt) web-IsApart
      web-Mirrors refl web_pushed (opening-IsOpening web_sets_pushed)
