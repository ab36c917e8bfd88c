-- ===== src/Helper/Rootless/Allocated.antt =====
-- Which address `allocate_rootless_podman_source_ipv6` gives.
use dockerwall.Base.{
  ℕ, zero, suc, ◌+◌, ◌^◌, ◌≤◌, ◌<◌, ◌≡◌, ◌⊎◌, inl, inr, refl, sym, ap, ◌∙◌, true, Option, none,
  some, List, [], ◌∷◌, is_empty, eqb, eqb_iff, Bool-cases, Option-cases, ◌==◌, list_eq, nat_eq,
  arith,
}
use mathlib.Core.Option.{some-injective}
use mathlib.Core.Path.{subst}
use dockerwall.Text.{Text, codes, contains_text, split_once, split_ascii_whitespace, lines}
use dockerwall.Net.Ipv6.Width.{parse_ipv6-lt}
use dockerwall.Host.{Host, Output}
use dockerwall.Result.{Result, ok, err, pure, >>=-eq-ok}
use dockerwall.Helper.Address.{rootless_podman_source_ipv6}
use dockerwall.Helper.Source.{source_ipv6_lem}
use dockerwall.Helper.Command.{run_command_checked, output_rule_source_ipv6}
use dockerwall.Helper.Allocate.{own_marker, unless_shown}
use dockerwall.Helper.Allocate.Free.{IsOwn, later-IsOwn}
use dockerwall.Helper.Rootless.Interface.{
  inet6_field, prefix_of_cidr, prefix_of_line, first_prefix, rootless_podman_ipv6_prefix,
}
use dockerwall.Helper.Rootless.Source.{
  high_half, own_source_ipv6, show_args_ipv6, free_source_ipv6, own_or_free_ipv6, allocate_in,
  allocate_rootless_podman_source_ipv6,
}

-- A prefix that is found has 128 bits.
prefix_of_cidr-lt : (cidr : Text) {ip : ℕ} → prefix_of_cidr cidr ≡ some ip → ip < 2 ^ 128
unfolding prefix_of_cidr
prefix_of_cidr-lt cidr {ip} h = elim (Option-cases (split_once b'/' cidr)) [
  | inl whole ↦ absurd (cc (rw (whole, prefix_of_cidr) at h))
  | inr (parts, e) ↦ elim (Bool-cases (parts.1 == codes "64")) [
    | inl half ↦ parse_ipv6-lt parts.0 (rw (e, half, prefix_of_cidr) at h)
    | inr other ↦ absurd (cc (rw (e, other, prefix_of_cidr) at h))
  ]
]

prefix_of_line-lt : (line : Text) {ip : ℕ} → prefix_of_line line ≡ some ip → ip < 2 ^ 128
unfolding prefix_of_line
prefix_of_line-lt line {ip} h = elim (Option-cases (inet6_field (split_ascii_whitespace line))) [
  | inl missing ↦ absurd (cc (rw (missing, prefix_of_line) at h))
  | inr (cidr, e) ↦ prefix_of_cidr-lt cidr (rw (e, prefix_of_line) at h)
]

first_prefix-lt : (rest : List Text) {ip : ℕ} → first_prefix rest ≡ some ip → ip < 2 ^ 128
unfolding first_prefix
first_prefix-lt [] h = absurd (cc h)
first_prefix-lt (line ∷ rest) {ip} h = elim (Option-cases (prefix_of_line line)) [
  | inl missing ↦ first_prefix-lt rest (rw (missing, first_prefix) at h)
  | inr (found, e) ↦ prefix_of_line-lt line (e ∙ (rw (e, first_prefix) at h))
]

-- A rule of the network gives an address in the /64 only.
own_source_ipv6-some :
    (marker : Text) (prefix : ℕ) (rules : List Text) {ip : ℕ}
    → own_source_ipv6 marker prefix rules ≡ some ip
    → IsOwn output_rule_source_ipv6 marker rules ip × (high_half ip ≡ high_half prefix)
unfolding own_source_ipv6
own_source_ipv6-some marker prefix [] h = absurd (cc h)
own_source_ipv6-some marker prefix (line ∷ rules) {ip} h =
    elim (Bool-cases (contains_text line marker)) [
      | inr other ↦
          behind (own_source_ipv6-some marker prefix rules (rw (other, own_source_ipv6) at h))
      | inl own ↦ elim (Option-cases (output_rule_source_ipv6 line)) [
        | inl no_ip ↦
            behind
              (own_source_ipv6-some marker prefix rules (rw (own, no_ip, own_source_ipv6) at h))
        | inr (found, e) ↦ elim (Bool-cases (eqb (high_half found) (high_half prefix))) [
          | inr elsewhere ↦ behind (
              own_source_ipv6-some marker prefix rules
                (rw (own, e, elsewhere, own_source_ipv6) at h))
          | inl here ↦
              let same : some found ≡ some ip = rw (own, e, here, own_source_ipv6) at h in
              (
                record {
                  before = [];
                  line = line;
                  behind = rules;
                  stands = refl;
                  marked = own;
                  source = e ∙ same;
                },
                ap high_half (sym (some-injective _ _ same))
                    ∙ (eqb_iff (high_half found) (high_half prefix)).0 here,
              )
        ]
      ]
    ]
  where
    behind :
        IsOwn output_rule_source_ipv6 marker rules ip × (high_half ip ≡ high_half prefix)
        → IsOwn output_rule_source_ipv6 marker (line ∷ rules) ip × (high_half ip ≡ high_half prefix)
    behind (own, same) = (later-IsOwn output_rule_source_ipv6 marker line rules own, same)

module _ (H : Host) (ip_binary name : Text) (prefix : ℕ) where
  -- One of 50 attempts gives the address, and the host has shown no interface with it.
  pub record IsUnused (ip : ℕ) (w' : H.World) : Type 0 where
    pub attempt : ℕ
    pub within : attempt < 50
    pub candidate : rootless_podman_source_ipv6 prefix name attempt ≡ ip
    pub before : H.World
    pub output : Output
    pub shown : run_command_checked H ip_binary (show_args_ipv6 ip) before ≡ (ok output, w')
    pub nothing : is_empty output.stdout ≡ true

  shown-IsUnused :
      (left attempt : ℕ) (w : H.World) {ip : ℕ} {w' : H.World} (t : Result Output × H.World)
      → run_command_checked H ip_binary
          (show_args_ipv6 (rootless_podman_source_ipv6 prefix name attempt))
          w
        ≡ t
      → attempt < 50
      → unless_shown
          (rootless_podman_source_ipv6 prefix name attempt)
          (free_source_ipv6 H ip_binary name prefix left (suc attempt))
          t
        ≡ (ok ip, w')
      → ((v : H.World)
          → free_source_ipv6 H ip_binary name prefix left (suc attempt) v ≡ (ok ip, w')
          → IsUnused ip w')
      → IsUnused ip w'
  unfolding unless_shown
  shown-IsUnused left attempt w (err message, v) e b h rest = absurd (cc h)
  shown-IsUnused left attempt w {ip} {w'} (ok output, v) e b h rest =
      elim (Bool-cases (is_empty output.stdout)) [
        | inr used ↦ rest v (rw used at h)
        | inl nothing ↦
            let done : ◌≡◌ {A = Result ℕ × H.World}
                (ok (rootless_podman_source_ipv6 prefix name attempt), v) (ok ip, w') =
              rw nothing at h in
            let result : ◌≡◌ {A = Result ℕ} (ok (rootless_podman_source_ipv6 prefix name attempt))
                (ok ip) =
              ap (λ r. r.0) done in
            let same : rootless_podman_source_ipv6 prefix name attempt ≡ ip = cc result in
            record {
              attempt = attempt;
              within = b;
              candidate = same;
              before = w;
              output = output;
              shown =
                  subst
                    (λ i. run_command_checked H ip_binary (show_args_ipv6 i) w ≡ (ok output, w'))
                    same (e ∙ ap (λ r. (ok output, r.1)) done);
              nothing = nothing;
            }
      ]

  free_source_ipv6-ok :
      (left attempt : ℕ) (w : H.World) {ip : ℕ} {w' : H.World}
      → attempt + left ≤ 50
      → free_source_ipv6 H ip_binary name prefix left attempt w ≡ (ok ip, w')
      → IsUnused ip w'
  unfolding free_source_ipv6
  free_source_ipv6-ok zero attempt w b h = absurd (cc h)
  free_source_ipv6-ok (suc left) attempt w b h =
      shown-IsUnused left attempt w _ refl (omega arith) h
        (λ v e. free_source_ipv6-ok left (suc attempt) v (omega arith) e)

  -- What an allocation below a prefix gives.
  abbrev pub IsAllocated : List Text → ℕ → H.World → Type 0
  IsAllocated rules ip w' =
      (high_half ip ≡ high_half prefix)
      × (IsOwn output_rule_source_ipv6 (own_marker name) rules ip ⊎ IsUnused ip w')

  own_or_free_ipv6-IsAllocated :
      (rules : List Text) (o : Option ℕ) (w : H.World) {ip : ℕ} {w' : H.World}
      → prefix < 2 ^ 128
      → own_source_ipv6 (own_marker name) prefix rules ≡ o
      → own_or_free_ipv6 H ip_binary name prefix o w ≡ (ok ip, w')
      → IsAllocated rules ip w'
  unfolding own_or_free_ipv6
  own_or_free_ipv6-IsAllocated rules (some own) w {ip} b e h =
      let result : ◌≡◌ {A = Result ℕ} (ok own) (ok ip) = ap (λ r. r.0) h in
      let same : own ≡ ip = cc result in
      let (stands, half) = own_source_ipv6-some (own_marker name) prefix rules (e ∙ ap some same) in
      (half, inl stands)
  own_or_free_ipv6-IsAllocated rules none w {ip} b e h =
      let unused = free_source_ipv6-ok 50 0 w (omega arith) h in
      (
        ap high_half (sym unused.candidate)
            ∙ (source_ipv6_lem prefix name unused.attempt unused.attempt b
                (omega (arith, unused.within)) (omega (arith, unused.within))).0,
        inr unused,
      )

module _ (H : Host) (ip6tables_binary ip_binary interface name : Text) where
  -- What the interface and the rules of the host say before an address is allocated.
  abbrev pub AllocatedFrom : ℕ → H.World → H.World → Type 0
  AllocatedFrom ip w w' =
      (prefix : ℕ) × (v : H.World) × (rootless_podman_ipv6_prefix H ip_binary interface w
        ≡ (ok (some prefix), v))
      × (prefix < 2 ^ 128)
      × (output : Output) × (u : H.World) × (run_command_checked H ip6tables_binary
            (codes "-S" ∷ codes "OUTPUT" ∷ []) v
          ≡ (ok output, u))
      × IsAllocated H ip_binary name prefix (lines output.stdout) ip w'

  prefix-lt :
      (w : H.World) {prefix : ℕ} {v : H.World}
      → rootless_podman_ipv6_prefix H ip_binary interface w ≡ (ok (some prefix), v)
      → prefix < 2 ^ 128
  unfolding rootless_podman_ipv6_prefix
  prefix-lt w {prefix} h =
      let (output, u, run, found) =
        >>=-eq-ok (run_command_checked H ip_binary _)
          (λ output. pure (first_prefix (lines output.stdout))) w h in
      let result : ◌≡◌ {A = Result (Option ℕ)} (ok (first_prefix (lines output.stdout)))
          (ok (some prefix)) =
        ap (λ r. r.0) found in
      first_prefix-lt (lines output.stdout) (cc result)

  by_prefix :
      (o : Option ℕ) (w v w' : H.World) {ip : ℕ}
      → rootless_podman_ipv6_prefix H ip_binary interface w ≡ (ok o, v)
      → allocate_in H ip6tables_binary ip_binary interface name o v ≡ (ok (some ip), w')
      → AllocatedFrom ip w w'
  unfolding allocate_in
  by_prefix none w v w' e h = absurd (cc h)
  by_prefix (some prefix) w v w' {ip} e h =
      let (output, u, listed, rest) =
        >>=-eq-ok (run_command_checked H ip6tables_binary (codes "-S" ∷ codes "OUTPUT" ∷ [])) _ v
          h in
      let (own, t, allocated, last) =
        >>=-eq-ok
          (own_or_free_ipv6 H ip_binary name prefix
            (own_source_ipv6 (own_marker name) prefix (lines output.stdout)))
          (λ source_ip. pure (some source_ip)) u rest in
      let result : ◌≡◌ {A = Result (Option ℕ)} (ok (some own)) (ok (some ip)) =
        ap (λ r. r.0) last in
      let same : own ≡ ip = cc result in
      (
        prefix,
        v,
        e,
        prefix-lt w e,
        output,
        u,
        listed,
        own_or_free_ipv6-IsAllocated H ip_binary name prefix (lines output.stdout) _ u
            (prefix-lt w e) refl
            (allocated ∙ ap (λ i. (ok i, t)) same ∙ ap (λ r. (ok ip, r.1)) last),
      )

  -- An allocated IPv6 address is in the /64 of an address of 128 bits that the interface was shown
  -- to have, and it is that of a rule of the network, or one of 50 candidates which no interface of
  -- the host was shown to have, in the state that is left.
  pub allocate_rootless_podman_source_ipv6_lem :
      (w : H.World) {ip : ℕ} {w' : H.World}
      → allocate_rootless_podman_source_ipv6 H ip6tables_binary ip_binary interface name w
        ≡ (ok (some ip), w')
      → AllocatedFrom ip w w'
  unfolding allocate_rootless_podman_source_ipv6
  allocate_rootless_podman_source_ipv6_lem w {ip} {w'} h =
      let (o, v, e, rest) =
        >>=-eq-ok (rootless_podman_ipv6_prefix H ip_binary interface)
          (allocate_in H ip6tables_binary ip_binary interface name) w h in
      by_prefix o w v w' e rest
