-- ===== src/Helper/Rootless/Refused.antt =====
-- Preparations that are refused before anything is done to the host.
use dockerwall.Base.{
  ℕ, ◌≡◌, refl, ap, ◌∙◌, ◌⊎◌, inl, inr, Option, none, some, List, [], ◌==◌, ==_iff, list_eq, nat_eq,
  get_elem?, if◌then◌else◌, Bool-cases,
}
use dockerwall.Text.{Text, codes, split_whitespace, lines}
use dockerwall.Host.{Host}
use dockerwall.Result.{Result, ok, err, Prog, pure, fail, or_fail, continue_with}
use dockerwall.Helper.Rootless.{
  ContainerRuntime, docker, podman, prepare_rootless_podman_network, prepare_docker_branch,
  prepare_network,
}
use dockerwall.Helper.Rootless.Root.{uid_line, mapped_uid, ensure_host_root}

-- The process has the effective user 0, and the first line of its map of users maps it to the
-- host's user 0.
pub record IsHostRoot (H : Host) (w : H.World) : Type 0 where
  pub status : Text
  pub line : Text
  pub uid_map : Text
  pub reads_status : H.read_file (codes "/proc/self/status") w ≡ some status
  pub finds_line : uid_line (lines status) ≡ some line
  pub effective : get_elem? (split_whitespace line) 2 ≡ some (codes "0")
  pub reads_map : H.read_file (codes "/proc/self/uid_map") w ≡ some uid_map
  pub mapped : mapped_uid (lines uid_map) ≡ some (codes "0")

-- A step that does nothing to the host: it passes with a result that has the property, or it fails.
module _ {W : Type 0} (w : W) where
  abbrev IsCheck : {A : Type 0} → (A → Type 0) → Result A × W → Type 0
  IsCheck {A} P t = ((a : A) × P a × (t ≡ (ok a, w))) ⊎ ((message : Text) × (t ≡ (err message, w)))

  check_chain :
      {A B : Type 0} {P : A → Type 0} {Q : B → Type 0} (f : A → Prog W B) {t : Result A × W}
      → IsCheck P t
      → ((a : A) → P a → IsCheck Q (f a w))
      → IsCheck Q (continue_with f t)
  check_chain f (inl (a, p, e)) next = elim (next a p) [
    | inl (b, q, g) ↦ inl (b, q, rw e g)
    | inr (message, g) ↦ inr (message, rw e g)
  ]
  check_chain f (inr (message, e)) next = inr (message, rw e refl)

  check_option :
      {A : Type 0} (message : Text) (o : Option A) → IsCheck (λ a. o ≡ some a) (or_fail message o w)
  check_option message none = inr (message, refl)
  check_option message (some a) = inl (a, refl, refl)

  check_zero :
      (uid message : Text)
      → IsCheck (λ _. uid ≡ codes "0") ((if uid == codes "0" then pure tt else fail message) w)
  check_zero uid message = elim (Bool-cases (uid == codes "0")) [
    | inl same ↦ inl (tt, (==_iff uid (codes "0")).0 same, rw same refl)
    | inr differs ↦ inr (message, rw differs refl)
  ]

  check_because :
      {A : Type 0} {P Q : A → Type 0} {t : Result A × W}
      → IsCheck P t
      → ((a : A) → P a → Q a)
      → IsCheck Q t
  check_because (inl (a, p, e)) because = inl (a, because a p, e)
  check_because (inr failed) because = inr failed

module _ (H : Host) (w : H.World) where
  ensure_host_root-IsCheck : IsCheck w (λ _. IsHostRoot H w) (ensure_host_root H w)
  unfolding ensure_host_root
  ensure_host_root-IsCheck =
      check_chain w _ (check_option w [] (H.read_file (codes "/proc/self/status") w)) λ status e.
        check_chain w _
          (check_option w (codes "could not determine effective UID") (uid_line (lines status)))
          λ line f.
            check_chain w _
              (check_option w (codes "could not determine effective UID")
                (get_elem? (split_whitespace line) 2))
              λ uid g. check_chain w _ (check_zero w uid _) λ _ z.
                check_chain w _ (check_option w [] (H.read_file (codes "/proc/self/uid_map") w))
                  λ uid_map h.
                    check_chain w _
                      (check_option w (codes "could not determine host UID mapping")
                        (mapped_uid (lines uid_map)))
                      λ host_uid k. check_because w (check_zero w host_uid _) (λ _ m. record {
                        status = status;
                        line = line;
                        uid_map = uid_map;
                        reads_status = e;
                        finds_line = f;
                        effective = g ∙ ap some z;
                        reads_map = h;
                        mapped = k ∙ ap some m;
                      })

  -- The pairs of a runtime and an interface that are refused on the host.
  abbrev pub IsRefused : ContainerRuntime → Option Text → Type 0
  IsRefused docker none = ⊥
  IsRefused docker (some interface) = Unit
  IsRefused podman interface = ¬ IsHostRoot H w

  refused_podman :
      (fuel : ℕ) (name : Text) (domain_patterns : List Text) (interface : Option Text)
      → IsCheck w (λ _. IsHostRoot H w) (ensure_host_root H w)
      → ¬ IsHostRoot H w
      → (message : Text) × (prepare_rootless_podman_network H fuel name domain_patterns interface w
          ≡ some (err message, w))
  unfolding prepare_rootless_podman_network
  refused_podman fuel name domain_patterns interface (inl (_, root, e)) h = absurd (h root)
  refused_podman fuel name domain_patterns interface (inr (message, e)) h = (message, rw e refl)

  -- A preparation for Docker that names an interface, and one for Podman by a process that is not
  -- the root of the host, be it a user or the root of a user namespace, fails and leaves the host
  -- as it was.
  pub prepare_network_refused :
      (hash : Text → ℕ → ℕ) (fuel : ℕ) (name : Text) (domain_patterns : List Text)
      (runtime : ContainerRuntime) (interface : Option Text)
      → IsRefused runtime interface
      → (message : Text) × (prepare_network H hash fuel name domain_patterns runtime interface w
          ≡ some (err message, w))
  unfolding prepare_network prepare_docker_branch
  prepare_network_refused hash fuel name domain_patterns docker none h = absurd h
  prepare_network_refused hash fuel name domain_patterns docker (some interface) h = (_, refl)
  prepare_network_refused hash fuel name domain_patterns podman interface h =
      refused_podman fuel name domain_patterns interface ensure_host_root-IsCheck h
