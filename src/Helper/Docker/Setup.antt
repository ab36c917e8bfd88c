-- ===== src/Helper/Docker/Setup.antt =====
-- The rounds that `setup_docker_resources` takes.
use dockerwall.Base.{ℕ, ◌<◌, refl, All}
use dockerwall.Host.{Host}
use dockerwall.Result.{once}
use dockerwall.Helper.Plan.{NetworkPlan}
use dockerwall.Helper.Rule.Returns.{Shrinks, Returns, >>?-Returns, ensure_rules-Returns}
use dockerwall.Helper.Docker.{
  docker_rules, ensure_docker_iptables_rules, setup_docker_network, setup_docker_resources,
}

-- The host has fewer than `fuel` rules, and a deletion of one of the network's rules that succeeds
-- takes one away.
pub record TableLaws (H : Host) (fuel : ℕ) (rules : H.World → ℕ) : Type 0 where
  pub bounded : (w : H.World) → rules w < fuel
  pub shrinks : (plan : NetworkPlan) → All (Shrinks H rules) (docker_rules plan)

module _ (H : Host) (fuel : ℕ) (rules : H.World → ℕ) (laws : TableLaws H fuel rules) where
  -- Every setup ends.
  pub setup_docker_resources-Returns :
      (plan : NetworkPlan) (w : H.World) → Returns (setup_docker_resources H fuel plan w)
  unfolding setup_docker_resources ensure_docker_iptables_rules
  setup_docker_resources-Returns plan w =
      let first = setup_docker_network H plan w in
      >>?-Returns (once (setup_docker_network H plan))
        (λ binary. ensure_docker_iptables_rules H fuel binary plan) w (first.0, first.1, refl)
        (λ binary v.
          ensure_rules-Returns H fuel rules laws.bounded binary (docker_rules plan) v
            (laws.shrinks plan))
