-- ===== src/Helper/Rootless/Deny.antt =====
-- What the chain DOCKERWALL-OUTPUT decides once the rules of a rootless network are ensured.
use mathlib.Core.Option.{some-injective}
use dockerwall.Base.{
  ℕ, ◌<◌, ◌≡◌, refl, sym, ap, ◌∙◌, Bool, true, Option, some, none, List, [], ◌∷◌, ◌++◌, All, eqb,
  arith, list_eq, nat_eq,
}
use dockerwall.Text.{Text}
use dockerwall.Host.{Host, Output}
use dockerwall.Result.{Result, ok, >>?-eq-ok, once, ◌>>?◌}
use dockerwall.Helper.Command.{run_command_allow_failure, ensure_chain}
use dockerwall.Helper.Rule.{ensure_rules}
use dockerwall.Helper.Rule.Returns.{Shrinks, Returns, >>?-Returns, ensure_rules-Returns}
use dockerwall.Helper.Chain.{Words, without_all, is_elsewhere, ChainLaws}
use dockerwall.Helper.Chain.Front.{front_lem}
use dockerwall.Helper.Chain.Quiet.{quiet_lem, ensure_chain-view}
use dockerwall.Helper.Chain.Verdict.{verdict, Packet, MatchLaws}
use dockerwall.Helper.Rootless.Rules.{
  podman_output_chain, output_hook, rootless_rules, rootless_ipv6_rules,
  ensure_rootless_podman_rules, ensure_ipv6_if, ensure_rootless_podman_ipv6_rules,
}
use dockerwall.Helper.Rootless.Filter.{
  output_rules, output_ipv6_rules, output_policy, output_ipv6_policy, other_rules, rules_split,
  ipv6_rules_split, hook-IsElsewhere, others-IsElsewhere, rules-Fresh, ipv6_rules-Fresh,
  verdict_lem, ipv6_verdict_lem,
}

-- The hosts have fewer than `fuel` rules, and a deletion of one of the network's rules that succeeds
-- takes one away.
pub record OutputLaws (H : Host) (fuel : ℕ) (rules : H.World → ℕ) : Type 0 where
  pub bounded : (w : H.World) → rules w < fuel
  pub shrinks :
      (name source_cidr interface : Text) (dns_port : ℕ)
      → All (Shrinks H rules) (rootless_rules name source_cidr interface dns_port)
  pub shrinks_ipv6 :
      (name source_cidr : Text) → All (Shrinks H rules) (rootless_ipv6_rules name source_cidr)

module _ (H : Host) (fuel : ℕ) (rules : H.World → ℕ) (tables : OutputLaws H fuel rules) where
  ipv6_rules-Returns :
      (binary name source_cidr : Text) (w : H.World)
      → Returns (ensure_rootless_podman_ipv6_rules H fuel binary name source_cidr w)
  unfolding ensure_rootless_podman_ipv6_rules
  ipv6_rules-Returns binary name source_cidr w =
      let created = ensure_chain H binary podman_output_chain w in
      >>?-Returns (once (ensure_chain H binary podman_output_chain))
        (λ _. ensure_rules H fuel binary (rootless_ipv6_rules name source_cidr)) w
        (created.0, created.1, refl)
        (λ _ v.
          ensure_rules-Returns H fuel rules tables.bounded binary
            (rootless_ipv6_rules name source_cidr) v (tables.shrinks_ipv6 name source_cidr))

  ipv6_if-Returns :
      (binary name : Text) (source_ipv6_cidr : Option Text) (w : H.World)
      → Returns (ensure_ipv6_if H fuel binary name source_ipv6_cidr w)
  unfolding ensure_ipv6_if
  ipv6_if-Returns binary name none w = (ok tt, w, refl)
  ipv6_if-Returns binary name (some source_cidr) w = ipv6_rules-Returns binary name source_cidr w

  rules-Returns :
      (binary ip6tables_binary name source_cidr : Text) (source_ipv6_cidr : Option Text)
      (interface : Text) (dns_port : ℕ) (w : H.World)
      → Returns (
          ensure_rootless_podman_rules H fuel binary ip6tables_binary name source_cidr
            source_ipv6_cidr interface dns_port w)
  unfolding ensure_rootless_podman_rules
  rules-Returns binary ip6tables_binary name source_cidr source_ipv6_cidr interface dns_port w =
      let created = ensure_chain H binary podman_output_chain w in
      let four : List Words = rootless_rules name source_cidr interface dns_port in
      >>?-Returns
        (once (ensure_chain H binary podman_output_chain)
          >>? (λ _. ensure_rules H fuel binary four))
        (λ _. ensure_ipv6_if H fuel ip6tables_binary name source_ipv6_cidr) w
        (>>?-Returns (once (ensure_chain H binary podman_output_chain))
          (λ _. ensure_rules H fuel binary four) w (created.0, created.1, refl)
          (λ _ v.
            ensure_rules-Returns H fuel rules tables.bounded binary four v
              (tables.shrinks name source_cidr interface dns_port)))
        (λ _ v. ipv6_if-Returns ip6tables_binary name source_ipv6_cidr v)

module _ (H : Host) (fuel : ℕ) (binary : Text) (chain : H.World → List Words)
    (laws : ChainLaws H binary podman_output_chain chain) where
  created_lem :
      (w w' : H.World)
      → once (ensure_chain H binary podman_output_chain) w ≡ some (ok tt, w')
      → chain w' ≡ chain w
  unfolding list_eq nat_eq
  created_lem w w' h =
      ensure_chain-view H binary chain (λ args. is_elsewhere podman_output_chain args ≡ true)
        laws.leaves podman_output_chain w w' refl refl (some-injective _ _ h)

  ipv6_chain_lem :
      (name source_cidr : Text) (w w' : H.World)
      → ensure_rootless_podman_ipv6_rules H fuel binary name source_cidr w ≡ some (ok tt, w')
      → chain w'
        ≡ output_ipv6_rules name source_cidr
          ++ without_all (output_ipv6_rules name source_cidr) (chain w)
  unfolding ensure_rootless_podman_ipv6_rules
  ipv6_chain_lem name source_cidr w w' h =
      let (_, v, created, rest) =
        >>?-eq-ok (once (ensure_chain H binary podman_output_chain))
          (λ _. ensure_rules H fuel binary (rootless_ipv6_rules name source_cidr)) w h in
      front_lem H fuel binary podman_output_chain chain laws (output_hook name source_cidr ∷ [])
        (output_ipv6_rules name source_cidr) [] v w' (hook-IsElsewhere name source_cidr, tt)
        (ipv6_rules-Fresh name source_cidr) tt (omega arith)
        (ap (λ t. ensure_rules H fuel binary t v) (sym (ipv6_rules_split name source_cidr)) ∙ rest)
      ∙ ap
          (λ t.
            output_ipv6_rules name source_cidr
            ++ without_all (output_ipv6_rules name source_cidr) t)
          (created_lem w v created)

All-quiet : (rules : List Words) → All (λ args. Unit {0} × Unit {0}) rules
All-quiet [] = tt
All-quiet (rule ∷ rules) = ((tt, tt), All-quiet rules)

-- A tool none of whose commands changes the chain: `ip6tables`, whose tables are its own.
abbrev pub IsApart : (H : Host) → Text → (H.World → List Words) → Type 0
IsApart H binary chain =
    (args : Words) (w w' : H.World) (output : Output)
    → run_command_allow_failure H binary args w ≡ (ok output, w')
    → chain w' ≡ chain w

module _ (H : Host) (fuel : ℕ) (ip6tables_binary : Text) (chain : H.World → List Words)
    (apart : IsApart H ip6tables_binary chain) where
  ipv6_if_lem :
      (name : Text) (source_ipv6_cidr : Option Text) (w w' : H.World)
      → ensure_ipv6_if H fuel ip6tables_binary name source_ipv6_cidr w ≡ some (ok tt, w')
      → chain w' ≡ chain w
  unfolding ensure_ipv6_if ensure_rootless_podman_ipv6_rules
  ipv6_if_lem name none w w' h = ap chain (sym (ap (λ t. t.1) (some-injective _ _ h)))
  ipv6_if_lem name (some source_cidr) w w' h =
      let (_, v, created, rest) =
        >>?-eq-ok (once (ensure_chain H ip6tables_binary podman_output_chain))
          (λ _. ensure_rules H fuel ip6tables_binary (rootless_ipv6_rules name source_cidr)) w h in
      quiet_lem H ip6tables_binary chain (λ _. Unit {0})
        (λ args a b output _ e. apart args a b output e) fuel (rootless_ipv6_rules name source_cidr)
        v w' (All-quiet (rootless_ipv6_rules name source_cidr)) rest
      ∙ ensure_chain-view H ip6tables_binary chain (λ _. Unit {0})
          (λ args a b output _ e. apart args a b output e) podman_output_chain w v tt tt
          (some-injective _ _ created)

module _ (H : Host) (fuel : ℕ) (rules : H.World → ℕ) (tables : OutputLaws H fuel rules)
    (binary : Text) (chain : H.World → List Words)
    (laws : ChainLaws H binary podman_output_chain chain) where
  -- Where ip6tables obeys the documented laws of its chains and of its tests, a deletion that
  -- succeeds takes a rule away and there are never as many rules as the fuel, ensuring the IPv6
  -- rules of a rootless network ends; and if it succeeds, the chain DOCKERWALL-OUTPUT accepts of
  -- the packets from the network's IPv6 source address those of an established connection, those to
  -- an address in the network's IPv6 set, and neighbor solicitations and advertisements, and drops
  -- all others; on packets from elsewhere it decides what the rules that stood in it before decide,
  -- without those of this network.
  pub rootless_ipv6_default_deny :
      (name source_cidr : Text) (packet : Packet) (hits : Words → Bool) (w : H.World)
      → MatchLaws packet hits
      → (r : Result (Unit {0})) × (w' : H.World) × (ensure_rootless_podman_ipv6_rules H fuel binary
            name source_cidr w
          ≡ some (r, w'))
        × (r ≡ ok tt
            → verdict hits (chain w')
              ≡ output_ipv6_policy name source_cidr packet
                  (verdict hits (without_all (output_ipv6_rules name source_cidr) (chain w))))
  rootless_ipv6_default_deny name source_cidr packet hits w m =
      let (r, w', done) = ipv6_rules-Returns H fuel rules tables binary name source_cidr w in
      (
        r,
        w',
        done,
        λ fine.
            ap (verdict hits) (
              ipv6_chain_lem H fuel binary chain laws name source_cidr w w'
                (done ∙ ap (λ t. some (t, w')) fine))
            ∙ ipv6_verdict_lem packet hits m name source_cidr
                (without_all (output_ipv6_rules name source_cidr) (chain w)),
      )

  module _ (ip6tables_binary : Text) (apart : IsApart H ip6tables_binary chain)
      (name source_cidr : Text) (source_ipv6_cidr : Option Text) (interface : Text)
      (dns_port : ℕ) where
    chain_lem :
        (w w' : H.World)
        → ensure_rootless_podman_rules H fuel binary ip6tables_binary name source_cidr
            source_ipv6_cidr interface dns_port w
          ≡ some (ok tt, w')
        → chain w'
          ≡ output_rules name source_cidr dns_port
            ++ without_all (output_rules name source_cidr dns_port) (chain w)
    unfolding ensure_rootless_podman_rules
    chain_lem w w' h =
        let (_, u, both, six) =
          >>?-eq-ok
            (once (ensure_chain H binary podman_output_chain) >>? (λ _.
              ensure_rules H fuel binary (rootless_rules name source_cidr interface dns_port)))
            (λ _. ensure_ipv6_if H fuel ip6tables_binary name source_ipv6_cidr) w h in
        let (_, v, created, four) =
          >>?-eq-ok (once (ensure_chain H binary podman_output_chain))
            (λ _. ensure_rules H fuel binary (rootless_rules name source_cidr interface dns_port)) w
            both in
        ipv6_if_lem H fuel ip6tables_binary chain apart name source_ipv6_cidr u w' six
        ∙ front_lem H fuel binary podman_output_chain chain laws (output_hook name source_cidr ∷ [])
            (output_rules name source_cidr dns_port)
            (other_rules name source_cidr interface dns_port) v u
            (hook-IsElsewhere name source_cidr, tt) (rules-Fresh name source_cidr dns_port)
            (others-IsElsewhere name source_cidr interface dns_port (eqb dns_port 53)) (omega arith)
            (ap (λ t. ensure_rules H fuel binary t v)
                (sym (rules_split name source_cidr interface dns_port))
              ∙ four)
        ∙ ap
            (λ t.
              output_rules name source_cidr dns_port
              ++ without_all (output_rules name source_cidr dns_port) t)
            (created_lem H fuel binary chain laws w v created)

    -- Where iptables obeys the documented laws of its chains and of its tests, ip6tables does not
    -- touch the IPv4 chain, a deletion that succeeds takes a rule away and there are never as many
    -- rules as the fuel, ensuring the rules of a rootless network ends; and if it succeeds, the
    -- chain DOCKERWALL-OUTPUT accepts of the packets from the network's source address those of an
    -- established connection, those to an address in the network's set and those to the DNS
    -- server's address and port, and drops all others; on packets from elsewhere it decides what
    -- the rules that stood in it before decide, without those of this network.
    pub rootless_default_deny :
        (packet : Packet) (hits : Words → Bool) (w : H.World)
        → MatchLaws packet hits
        → (r : Result (Unit {0})) × (w' : H.World) × (ensure_rootless_podman_rules H fuel binary
              ip6tables_binary name source_cidr source_ipv6_cidr interface dns_port w
            ≡ some (r, w'))
          × (r ≡ ok tt
              → verdict hits (chain w')
                ≡ output_policy name source_cidr dns_port packet
                    (verdict hits (without_all (output_rules name source_cidr dns_port) (chain w))))
    rootless_default_deny packet hits w m =
        let (r, w', done) =
          rules-Returns H fuel rules tables binary ip6tables_binary name source_cidr
            source_ipv6_cidr interface dns_port w in
        (
          r,
          w',
          done,
          λ fine.
              ap (verdict hits) (chain_lem w w' (done ∙ ap (λ t. some (t, w')) fine))
              ∙ verdict_lem packet hits m name source_cidr dns_port
                  (without_all (output_rules name source_cidr dns_port) (chain w)),
        )
