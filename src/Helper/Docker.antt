-- ===== src/Helper/Docker.antt =====
-- The Docker branch of `prepare_network`: the rules of a network, its resources and the retries.
pub mod Setup
pub mod Retry
pub mod Filter
use dockerwall.Base.{ℕ, zero, suc, ◌+◌, Bool, true, false, Option, none, some, List, [], ◌∷◌, ◌++◌}
use dockerwall.Text.{Text, codes}
use dockerwall.Text.Decimal.{to_decimal}
use dockerwall.Host.{Host}
use dockerwall.Result.{Result, ok, err, Prog, pure, ignore_result, ◌>>=◌, ◌>>◌, Loop, once, ◌>>?◌}
use dockerwall.Trust.{resolve_binary}
use dockerwall.Ipset.{ipset_candidates}
use dockerwall.Manage.{send_create, get_dns_port}
use dockerwall.Helper.Plan.{NetworkPlan, network_plan}
use dockerwall.Helper.Command.{
  run_command_allow_failure, run_command_checked, destroy_ipsets, create_ipsets,
}
use dockerwall.Helper.Rule.{ensure_rules}

abbrev docker_candidates : List Text
docker_candidates =
    codes "/usr/bin/docker" ∷ codes "/bin/docker" ∷ codes "/usr/local/bin/docker" ∷ []

abbrev pub iptables_candidates : List Text
iptables_candidates = codes "/usr/sbin/iptables" ∷ codes "/sbin/iptables" ∷ []

-- `-m comment --comment …`
abbrev pub comment : Text → List Text
comment text = codes "-m" ∷ codes "comment" ∷ codes "--comment" ∷ text ∷ []

-- `format!("dockerwall:{}:…", plan.name)`
abbrev label : NetworkPlan → Text → Text
label plan what = codes "dockerwall:" ++ (plan.name ++ what)

abbrev user_rule : Text → List Text → List Text
user_rule position rest = codes "-I" ∷ codes "DOCKER-USER" ∷ position ∷ rest

abbrev pub dns_rule : NetworkPlan → Text → List Text
dns_rule plan protocol =
    codes "-t"
    ∷ codes "nat"
    ∷ codes "-I"
    ∷ codes "PREROUTING"
    ∷ (comment (label plan (codes ":dns-" ++ protocol))
        ++ (codes "-s"
            ∷ plan.subnet
            ∷ codes "-p"
            ∷ protocol
            ∷ codes "--dport"
            ∷ codes "53"
            ∷ codes "-j"
            ∷ codes "DNAT"
            ∷ codes "--to-destination"
            ∷ (plan.gateway ++ (b':' ∷ to_decimal plan.dns_port))
            ∷ []))

-- The rules of the chain DOCKER-USER, without their positions.
abbrev pub established_rule : List Text
established_rule =
    comment (codes "dockerwall:established")
    ++ (codes "-m"
        ∷ codes "conntrack"
        ∷ codes "--ctstate"
        ∷ codes "ESTABLISHED,RELATED"
        ∷ codes "-j"
        ∷ codes "ACCEPT"
        ∷ [])

abbrev pub allow_rule : NetworkPlan → List Text
allow_rule plan =
    comment (label plan (codes ":allow"))
    ++ (codes "-s"
        ∷ plan.subnet
        ∷ codes "-m"
        ∷ codes "set"
        ∷ codes "--match-set"
        ∷ plan.name
        ∷ codes "dst"
        ∷ codes "-j"
        ∷ codes "ACCEPT"
        ∷ [])

abbrev pub allow_local_rule : NetworkPlan → List Text
allow_local_rule plan =
    comment (label plan (codes ":allow-local"))
    ++ (codes "-s"
        ∷ plan.subnet
        ∷ codes "-d"
        ∷ codes "172.16.0.0/12"
        ∷ codes "-j"
        ∷ codes "ACCEPT"
        ∷ [])

abbrev pub drop_rule : NetworkPlan → List Text
drop_rule plan =
    comment (label plan (codes ":drop"))
    ++ (codes "-s" ∷ plan.subnet ∷ codes "-j" ∷ codes "DROP" ∷ [])

-- The rules that `ensure_docker_iptables_rules` ensures, in its order.
unfoldable pub docker_rules : NetworkPlan → List (List Text)
docker_rules plan =
    user_rule (codes "1") established_rule
    ∷ user_rule (codes "2") (allow_rule plan)
    ∷ user_rule (codes "3") (allow_local_rule plan)
    ∷ user_rule (codes "4") (drop_rule plan)
    ∷ dns_rule plan (codes "udp")
    ∷ dns_rule plan (codes "tcp")
    ∷ []

module _ (H : Host) where
  unfoldable pub ensure_docker_iptables_rules : ℕ → Text → NetworkPlan → Loop H.World (Unit {0})
  ensure_docker_iptables_rules fuel binary plan = ensure_rules H fuel binary (docker_rules plan)

  unfoldable pub remove_docker_network : Text → Text → Prog H.World (Unit {0})
  remove_docker_network binary name =
      ignore_result (run_command_allow_failure H binary (codes "network" ∷ codes "rm" ∷ name ∷ []))

  unfoldable pub create_docker_network : Text → NetworkPlan → Prog H.World (Unit {0})
  create_docker_network binary plan = do
    _ ← run_command_checked H binary (
        codes "network"
        ∷ codes "create"
        ∷ codes "--driver"
        ∷ codes "bridge"
        ∷ codes "--subnet"
        ∷ plan.subnet
        ∷ codes "--ip-range"
        ∷ plan.subnet
        ∷ codes "--gateway"
        ∷ plan.gateway
        ∷ plan.name
        ∷ [])
    pure tt

  -- `setup_docker_resources` in front of the rules; the result is the binary of iptables.
  unfoldable pub setup_docker_network : NetworkPlan → Prog H.World Text
  setup_docker_network plan = do
    ipset_binary ← resolve_binary H ipset_candidates
    docker_binary ← resolve_binary H docker_candidates
    iptables_binary ← resolve_binary H iptables_candidates
    destroy_ipsets H ipset_binary plan.name
    create_ipsets H ipset_binary plan.name
    remove_docker_network docker_binary plan.name
    create_docker_network docker_binary plan
    pure iptables_binary

  unfoldable pub setup_docker_resources : ℕ → NetworkPlan → Loop H.World (Unit {0})
  setup_docker_resources fuel plan =
      once (setup_docker_network plan) >>? λ binary. ensure_docker_iptables_rules fuel binary plan

  -- The loop over the attempts: `left` are still to be made, and `last` is the last error.
  module _ (hash : Text → ℕ → ℕ) (fuel : ℕ) (name : Text) (domain_patterns : List Text)
      (dns_port : ℕ) where
    unfoldable pub attempt_networks : ℕ → ℕ → Text → Loop H.World (Unit {0})
    attempt_networks zero attempt last w = some (err last, w)
    attempt_networks (suc left) attempt last w =
        let plan = network_plan hash name dns_port attempt in
        elim (setup_docker_resources fuel plan w) [
          | none ↦ none
          | some (result, w') ↦ elim result [
            | ok _ ↦ some (send_create H name (some plan.subnet) domain_patterns w')
            | err message ↦ attempt_networks left (suc attempt) message (H.sleep 100 w')
          ]
        ]

  unfoldable pub prepare_docker_network :
      (Text → ℕ → ℕ) → ℕ → Text → List Text → Loop H.World (Unit {0})
  prepare_docker_network hash fuel name domain_patterns = once (get_dns_port H) >>? λ dns_port.
      attempt_networks hash fuel name domain_patterns dns_port 50 0
        (codes "failed to allocate network after 50 attempts")
