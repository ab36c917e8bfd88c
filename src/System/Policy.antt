-- ===== src/System/Policy.antt =====
-- The parts together: the rules of a Docker network, the kernel's sets and the daemon's responses.
use dockerwall.Base.{
  ℕ, ◌≡◌, ◌↔◌, ◌⊎◌, ap, ◌∙◌, Bool, true, false, Option, some, List, contains, if◌then◌else◌,
  list_eq, nat_eq, arith,
}
use dockerwall.Base.Assoc.{lookup, NodupKeys}
use dockerwall.Text.{Text, codes}
use dockerwall.Net.{IpAddr, v4, ip_eq}
use dockerwall.Host.{Host}
use dockerwall.Result.{Result, ok}
use dockerwall.State.{State, ManagedIpset}
use dockerwall.State.Growth.{IsAdmitted, apply_resolved_ips_grows}
use dockerwall.Ipset.{Command}
use dockerwall.Ipset.Members.{RestoreLaws}
use dockerwall.Control.{Daemon}
use dockerwall.Proxy.{Message, collect_resolved_ips, query_domains, inspect_message}
use dockerwall.Helper.Plan.{NetworkPlan}
use dockerwall.Helper.Docker.{ensure_docker_iptables_rules}
use dockerwall.Helper.Docker.Setup.{TableLaws}
use dockerwall.Helper.Docker.Filter.{docker_policy, docker_default_deny}
use dockerwall.Helper.Chain.{Words, ChainLaws}
use dockerwall.Helper.Chain.Verdict.{verdict, Packet, MatchLaws}
use dockerwall.System.Mirror.{IsApart, push_all}
use dockerwall.System.Refinement.{Mirrors, inspect_message-sets, inspect_message-Mirrors}

-- A packet that opens a connection from a network to an IPv4 address out of the local range, where
-- the kernel's sets are `k`.
pub record IsOpening {K : Type 0} (member : K → Text → IpAddr → Bool) (k : K) (plan : NetworkPlan)
    (ip : ℕ) (packet : Packet) : Type 0 where
  pub fresh : packet.state (codes "ESTABLISHED,RELATED") ≡ false
  pub from_network : packet.source plan.subnet ≡ true
  pub not_local : packet.destination (codes "172.16.0.0/12") ≡ false
  pub in_set : (name : Text) → packet.member name ≡ member k name (v4 ip)

module _ (H : Host) (fuel : ℕ) (rules : H.World → ℕ) (tables : TableLaws H fuel rules)
    (binary : Text) (chain : H.World → List Words)
    (laws : ChainLaws H binary (codes "DOCKER-USER") chain) {K : Type 0}
    (member : K → Text → IpAddr → Bool) (plan : NetworkPlan) (packet : Packet) (hits : Words → Bool)
    (matches : MatchLaws packet hits) where
  opening_policy :
      (k : K) (ip : ℕ) (others : Option Text)
      → IsOpening member k plan ip packet
      → docker_policy plan packet others
        ≡ some (if member k plan.name (v4 ip) then codes "ACCEPT" else codes "DROP")
  opening_policy k ip others o = rw (o.fresh, o.from_network, o.not_local, o.in_set) (ground arith)

  -- Where iptables obeys its documented laws, a deletion that succeeds takes a rule away and there
  -- are never as many rules as the fuel, and the kernel holds the daemon's addresses, ensuring the
  -- rules of a Docker network ends; and if it succeeds, the chain DOCKER-USER accepts a packet that
  -- opens a connection from the network's subnet to an IPv4 address out of 172.16.0.0/12 exactly
  -- when the daemon's state has the address in the network's set, and drops it otherwise.
  pub opening_verdict :
      (k : K) (ip : ℕ) (state : State) (m : ManagedIpset) (w : H.World)
      → IsOpening member k plan ip packet
      → Mirrors member state k
      → lookup plan.name state ≡ some m
      → (r : Result (Unit {0})) × (w' : H.World) × (ensure_docker_iptables_rules H fuel binary plan
            w
          ≡ some (r, w'))
        × (r ≡ ok tt
            → verdict hits (chain w')
              ≡ some (if contains m.ips (v4 ip) then codes "ACCEPT" else codes "DROP"))
  opening_verdict k ip state m w o mirror found =
      let (r, w', done, decides) =
        docker_default_deny H fuel rules tables binary chain laws plan packet hits w matches in
      (
        r,
        w',
        done,
        λ fine.
            decides fine
            ∙ opening_policy k ip _ o
            ∙ ap (λ b. some (if b then codes "ACCEPT" else codes "DROP"))
                ((mirror plan.name m found (v4 ip)).0),
      )

  module _ (exec : Command → K → Option K) (restore : RestoreLaws exec member) where
    -- Where iptables and ipset obey their documented laws, a deletion that succeeds takes a rule
    -- away and there are never as many rules as the fuel, each name of the daemon's sets stands
    -- once and none is that of another one's IPv6 set, and the kernel holds the daemon's addresses:
    -- when a response has been handled and its pushes have succeeded, and then the rules of a
    -- Docker network are ensured, which ends, and succeeds, the chain DOCKER-USER accepts a packet
    -- that opens a connection from the network's subnet to an IPv4 address out of 172.16.0.0/12
    -- exactly when the network's set held the address before, or the response has it and a queried
    -- domain matches one of the set's patterns; it drops every other such packet.
    pub answer_verdict :
        (message : Message) (origin : IpAddr) (now ttl : ℕ) (d : Daemon) (k k' : K) (ip : ℕ)
        (m : ManagedIpset) (w : H.World)
        → NodupKeys d.state
        → ((name : Text) (n : ManagedIpset) → lookup name d.state ≡ some n → IsApart name d.state)
        → Mirrors member d.state k
        → lookup plan.name d.state ≡ some m
        → push_all exec (inspect_message message origin now ttl d).0 k ≡ some k'
        → IsOpening member k' plan ip packet
        → (accepted : Bool) × ((accepted ≡ true) ↔ (
            (contains m.ips (v4 ip) ≡ true)
            ⊎ (IsAdmitted (query_domains message.queries) m
                × (contains (collect_resolved_ips message.answers) (v4 ip) ≡ true))))
          × ((r : Result (Unit {0})) × (w' : H.World) × (ensure_docker_iptables_rules H fuel binary
                  plan w
                ≡ some (r, w'))
              × (r ≡ ok tt
                  → verdict hits (chain w')
                    ≡ some (if accepted then codes "ACCEPT" else codes "DROP")))
    answer_verdict message origin now ttl d k k' ip m w u apart mirror found pushed o =
        let (m', found', patterns, grows) =
          apply_resolved_ips_grows (query_domains message.queries)
            (collect_resolved_ips message.answers) d.state plan.name found in
        let after = (inspect_message-sets message origin now ttl d).1 in
        (
          contains m'.ips (v4 ip),
          grows (v4 ip),
          opening_verdict k' ip (inspect_message message origin now ttl d).1.state m' w o
              (inspect_message-Mirrors exec member restore message origin now ttl d k k' u apart
                mirror pushed)
              (ap (lookup plan.name) after ∙ found'),
        )
