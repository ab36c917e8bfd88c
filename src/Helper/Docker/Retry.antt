-- ===== src/Helper/Docker/Retry.antt =====
-- The retries of `prepare_docker_network`.
use dockerwall.Base.{ℕ, zero, suc, ◌+◌, ◌≤◌, ◌<◌, ◌≡◌, refl, ap, Option, some, List, arith}
use dockerwall.Text.{Text, codes}
use dockerwall.Host.{Host}
use dockerwall.Result.{Result, ok, err}
use dockerwall.Manage.{send_create, get_dns_port}
use dockerwall.Helper.Plan.{network_plan}
use dockerwall.Helper.Docker.Setup.{TableLaws, setup_docker_resources-Returns}
use dockerwall.Helper.Docker.{setup_docker_resources, attempt_networks, prepare_docker_network}

module _ (H : Host) (fuel : ℕ) (hash : Text → ℕ → ℕ) (name : Text)
    (domain_patterns : List Text) where
  -- One of the attempts from `first` up to `bound` has set its plan up, and the daemon has taken
  -- over the subnet of this plan.
  pub record IsMade (dns_port first bound : ℕ) (w' : H.World) : Type 0 where
    pub attempt : ℕ
    pub from_first : first ≤ attempt
    pub below_bound : attempt < bound
    pub before : H.World
    pub after : H.World
    pub set_up :
        setup_docker_resources H fuel (network_plan hash name dns_port attempt) before
        ≡ some (ok tt, after)
    pub created :
        send_create H name
          (some (network_plan hash name dns_port attempt).subnet)
          domain_patterns
          after
        ≡ (ok tt, w')

  abbrev Outcome : ℕ → ℕ → ℕ → Option (Result (Unit {0}) × H.World) → Type 0
  Outcome dns_port first bound o =
      (r : Result (Unit {0})) × (w' : H.World) × (o ≡ some (r, w'))
      × (r ≡ ok tt → IsMade dns_port first bound w')

  -- One attempt, in front of the others.
  one_attempt :
      (dns_port left attempt : ℕ) (last : Text) (w v : H.World) (r : Result (Unit {0}))
      → setup_docker_resources H fuel (network_plan hash name dns_port attempt) w ≡ some (r, v)
      → ((message : Text)
          → Outcome dns_port (suc attempt) (suc attempt + left) (
              attempt_networks H hash fuel name domain_patterns dns_port left
                (suc attempt)
                message
                (H.sleep 100 v)))
      → Outcome dns_port attempt
          (attempt + suc left)
          (attempt_networks H hash fuel name domain_patterns dns_port (suc left) attempt last w)
  unfolding attempt_networks
  one_attempt dns_port left attempt last w v (ok _) e rest =
      let plan = network_plan hash name dns_port attempt in
      let sent = send_create H name (some plan.subnet) domain_patterns v in
      (
        sent.0,
        sent.1,
        rw (e, attempt_networks) refl,
        λ fine. record {
          attempt = attempt;
          from_first = omega arith;
          below_bound = omega arith;
          before = w;
          after = v;
          set_up = e;
          created = ap (λ t. (t, sent.1)) fine;
        },
      )
  one_attempt dns_port left attempt last w v (err message) e rest =
      let (r, w', done, made) = rest message in
      (
        r,
        w',
        rw (e, attempt_networks) done,
        λ fine.
            let m = made fine in
            record {
              attempt = m.attempt;
              from_first = omega (arith, m.from_first);
              below_bound = omega (arith, m.below_bound);
              before = m.before;
              after = m.after;
              set_up = m.set_up;
              created = m.created;
            },
      )

  module _ (rules : H.World → ℕ) (laws : TableLaws H fuel rules) where
    attempt_networks-Outcome :
        (dns_port left attempt : ℕ) (last : Text) (w : H.World)
        → Outcome dns_port attempt
            (attempt + left)
            (attempt_networks H hash fuel name domain_patterns dns_port left attempt last w)
    unfolding attempt_networks
    attempt_networks-Outcome dns_port zero attempt last w = (err last, w, refl, λ e. cc)
    attempt_networks-Outcome dns_port (suc left) attempt last w =
        let (r, v, e) =
          setup_docker_resources-Returns H fuel rules laws (network_plan hash name dns_port attempt)
            w in
        one_attempt dns_port left attempt last w v r e
          (λ message. attempt_networks-Outcome dns_port left (suc attempt) message (H.sleep 100 v))

    by_port :
        (w : H.World) (t : Result ℕ × H.World)
        → get_dns_port H w ≡ t
        → (r : Result (Unit {0})) × (w' : H.World) × (prepare_docker_network H hash fuel name
              domain_patterns w
            ≡ some (r, w'))
          × (r ≡ ok tt → (dns_port : ℕ) × IsMade dns_port 0 50 w')
    unfolding prepare_docker_network
    by_port w (err message, v) e = (err message, v, rw e refl, λ fine. cc)
    by_port w (ok dns_port, v) e =
        let (r, w', done, made) =
          attempt_networks-Outcome dns_port 50 0
            (codes "failed to allocate network after 50 attempts") v in
        (r, w', rw e done, λ fine. (dns_port, made fine))

    -- Where a deletion that succeeds takes a rule away and there are never as many rules as the
    -- fuel, preparing a Docker network ends, whatever fails; and if it succeeds, then one of the
    -- first 50 plans was set up on the host, and it is the subnet of this plan that the daemon has
    -- been asked to take over and has accepted.
    pub prepare_docker_network_lem :
        (w : H.World)
        → (r : Result (Unit {0})) × (w' : H.World) × (prepare_docker_network H hash fuel name
              domain_patterns w
            ≡ some (r, w'))
          × (r ≡ ok tt → (dns_port : ℕ) × IsMade dns_port 0 50 w')
    prepare_docker_network_lem w = by_port w (get_dns_port H w) refl
