-- ===== src/Helper/Docker/Filter.antt =====
-- The rules of a Docker network as a packet filter.
use dockerwall.Base.{
  ℕ, ◌≡◌, refl, sym, ap, ◌∙◌, Bool, true, ◌&&◌, ◌||◌, some, Option, List, [], ◌∷◌, ◌++◌,
  if◌then◌else◌, list_eq, nat_eq, option_eq, arith, All, length,
}
use dockerwall.Text.{Text, codes}
use dockerwall.Text.Decimal.{to_decimal, digits_of, parse_uint, push_digit, is_digit}
use dockerwall.Host.{Host}
use dockerwall.Result.{Result, ok}
use dockerwall.Helper.Plan.{NetworkPlan}
use dockerwall.Helper.Rule.{delete_args, operation_index, ensure_rules}
use dockerwall.Helper.Docker.{
  established_rule, allow_rule, allow_local_rule, drop_rule, docker_rules,
  ensure_docker_iptables_rules,
}
use dockerwall.Helper.Docker.Setup.{TableLaws}
use dockerwall.Helper.Rule.Returns.{ensure_rules-Returns}
use dockerwall.Helper.Chain.{Words, insertions, without_all, ChainLaws}
use dockerwall.Helper.Chain.Front.{Fresh, IsElsewhere, front_lem}
use dockerwall.Helper.Chain.Verdict.{verdict, verdict_step, Packet, MatchLaws}

-- The rules of a network in the chain DOCKER-USER.
abbrev pub filter_rules : NetworkPlan → List Words
filter_rules plan = established_rule ∷ allow_rule plan ∷ allow_local_rule plan ∷ drop_rule plan ∷ []

abbrev skip4 : List Words → List Words
skip4 (a ∷ b ∷ c ∷ d ∷ rest) = rest
skip4 rest = rest

rules_split :
    (plan : NetworkPlan)
    → docker_rules plan
      ≡ insertions (codes "DOCKER-USER") 0 (filter_rules plan) ++ skip4 (docker_rules plan)
unfolding docker_rules list_eq nat_eq to_decimal digits_of
rules_split plan = refl

rules-Fresh : (plan : NetworkPlan) → Fresh [] (filter_rules plan)
unfolding docker_rules list_eq nat_eq option_eq
rules-Fresh plan = (
  tt,
  (
    ((4, refl), tt),
    (((4, refl), ((6, refl), tt)), (((4, refl), ((6, refl), ((6, refl), tt))), tt)),
  ),
)

others-IsElsewhere :
    (plan : NetworkPlan) → All (IsElsewhere (codes "DOCKER-USER")) (skip4 (docker_rules plan))
unfolding docker_rules list_eq nat_eq delete_args operation_index parse_uint push_digit is_digit
others-IsElsewhere plan = ((refl, refl), ((refl, refl), tt))

-- What a network's rules are to decide, in front of the rules of the others.
abbrev pub docker_policy : NetworkPlan → Packet → Option Text → Option Text
docker_policy plan packet others =
    if packet.state (codes "ESTABLISHED,RELATED")
    then some (codes "ACCEPT")
    else if packet.source plan.subnet
    then some (
        if packet.member plan.name || packet.destination (codes "172.16.0.0/12")
        then codes "ACCEPT"
        else codes "DROP")
    else others

verdict_lem :
    (plan : NetworkPlan) (packet : Packet) (hits : Words → Bool) (others : List Words)
    → MatchLaws packet hits
    → verdict hits (filter_rules plan ++ others) ≡ docker_policy plan packet (verdict hits others)
unfolding docker_rules list_eq nat_eq
verdict_lem plan packet hits others m =
    verdict_step hits established_rule
      (allow_rule plan ∷ allow_local_rule plan ∷ drop_rule plan ∷ others)
      (packet.state (codes "ESTABLISHED,RELATED") && true) (codes "ACCEPT")
      (simp (m.loads, m.comments, m.states, m.targets)) refl
      (verdict_step hits (allow_rule plan) (allow_local_rule plan ∷ drop_rule plan ∷ others)
        (packet.source plan.subnet && (packet.member plan.name && true)) (codes "ACCEPT")
        (simp (m.loads, m.comments, m.sources, m.members, m.targets)) refl
        (verdict_step hits (allow_local_rule plan) (drop_rule plan ∷ others)
          (packet.source plan.subnet && (packet.destination (codes "172.16.0.0/12") && true))
          (codes "ACCEPT") (simp (m.loads, m.comments, m.sources, m.destinations, m.targets)) refl
          (verdict_step hits (drop_rule plan) others (packet.source plan.subnet && true)
            (codes "DROP") (simp (m.loads, m.comments, m.sources, m.targets)) refl
            (refl {a = verdict hits others}))))
    ∙ ground arith

few : (plan : NetworkPlan) → length (filter_rules plan) ≡ 4
unfolding docker_rules list_eq nat_eq
few plan = refl

module _ (H : Host) (fuel : ℕ) (rules : H.World → ℕ) (tables : TableLaws H fuel rules)
    (binary : Text) (chain : H.World → List Words)
    (laws : ChainLaws H binary (codes "DOCKER-USER") chain) where
  chain_lem :
      (plan : NetworkPlan) (w w' : H.World)
      → ensure_docker_iptables_rules H fuel binary plan w ≡ some (ok tt, w')
      → chain w' ≡ filter_rules plan ++ without_all (filter_rules plan) (chain w)
  unfolding ensure_docker_iptables_rules
  chain_lem plan w w' h =
      front_lem H fuel binary (codes "DOCKER-USER") chain laws [] (filter_rules plan)
        (skip4 (docker_rules plan)) w w' tt (rules-Fresh plan) (others-IsElsewhere plan)
        (omega (arith, few plan))
        (ap (λ t. ensure_rules H fuel binary t w) (sym (rules_split plan)) ∙ h)

  -- Where iptables obeys the documented laws of its chains and of its tests, a deletion that
  -- succeeds takes a rule away and there are never as many rules as the fuel, ensuring the rules of
  -- a Docker network ends; and if it succeeds, the chain DOCKER-USER accepts a packet of an
  -- established connection, and of the other packets from the network's subnet it accepts those to
  -- an address in the network's set or in 172.16.0.0/12 and drops all others; on every other packet
  -- it decides what the rules that stood in it before decide, without those of this network.
  pub docker_default_deny :
      (plan : NetworkPlan) (packet : Packet) (hits : Words → Bool) (w : H.World)
      → MatchLaws packet hits
      → (r : Result (Unit {0})) × (w' : H.World) × (ensure_docker_iptables_rules H fuel binary plan
            w
          ≡ some (r, w'))
        × (r ≡ ok tt
            → verdict hits (chain w')
              ≡ docker_policy plan packet
                  (verdict hits (without_all (filter_rules plan) (chain w))))
  unfolding ensure_docker_iptables_rules
  docker_default_deny plan packet hits w m =
      let (r, w', done) =
        ensure_rules-Returns H fuel rules tables.bounded binary (docker_rules plan) w
          (tables.shrinks plan) in
      (
        r,
        w',
        done,
        λ fine.
            ap (verdict hits) (chain_lem plan w w' (done ∙ ap (λ t. some (t, w')) fine))
            ∙ verdict_lem plan packet hits (without_all (filter_rules plan) (chain w)) m,
      )
