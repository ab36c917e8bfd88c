-- ===== src/Helper/Allocate/Free.antt =====
-- Which address `allocate_rootless_podman_source_ip` gives.
use dockerwall.Base.{
  ℕ, zero, suc, ◌+◌, ◌≤◌, ◌<◌, ◌≡◌, ◌⊎◌, inl, inr, refl, ap, ◌∙◌, true, false, some, List, [], ◌∷◌,
  Option, ◌++◌, any, is_empty, Bool-cases, Option-cases, arith,
}
use mathlib.Core.Path.{subst}
use dockerwall.Text.{Text, codes, contains_text, lines}
use dockerwall.Host.{Host, Output}
use dockerwall.Result.{Result, ok, err, >>=-eq-ok}
use dockerwall.Helper.Address.{source_slots, rootless_podman_source_ip}
use dockerwall.Helper.Command.{run_command_checked, output_rule_source_ip}
use dockerwall.Helper.Allocate.{
  own_marker, own_source_ip, cidr_of, show_args, unless_shown, free_source_ip, own_or_free,
  allocate_rootless_podman_source_ip,
}

-- A rule of the network has the address, as its source is read.
pub record IsOwn (source_of : Text → Option ℕ) (marker : Text) (rules : List Text) (ip : ℕ)
    : Type 0 where
  pub before : List Text
  pub line : Text
  pub behind : List Text
  pub stands : rules ≡ before ++ (line ∷ behind)
  pub marked : contains_text line marker ≡ true
  pub source : source_of line ≡ some ip

pub later-IsOwn :
    (source_of : Text → Option ℕ) (marker line : Text) (rules : List Text) {ip : ℕ}
    → IsOwn source_of marker rules ip
    → IsOwn source_of marker (line ∷ rules) ip
later-IsOwn source_of marker line rules o = record {
  before = line ∷ o.before;
  line = o.line;
  behind = o.behind;
  stands = ap (◌∷◌ line) o.stands;
  marked = o.marked;
  source = o.source;
}

own_source_ip-some :
    (marker : Text) (rules : List Text) {ip : ℕ}
    → own_source_ip marker rules ≡ some ip
    → IsOwn output_rule_source_ip marker rules ip
unfolding own_source_ip
own_source_ip-some marker [] h = cc
own_source_ip-some marker (line ∷ rules) {ip} h = elim (Bool-cases (contains_text line marker)) [
  | inr other ↦
      later-IsOwn output_rule_source_ip marker line rules
        (own_source_ip-some marker rules (rw (other, own_source_ip) at h))
  | inl own ↦ elim (Option-cases (output_rule_source_ip line)) [
    | inl no_ip ↦
        later-IsOwn output_rule_source_ip marker line rules
          (own_source_ip-some marker rules (rw (own, no_ip, own_source_ip) at h))
    | inr (found, e) ↦
        let same : some found ≡ some ip = rw (own, e, own_source_ip) at h in
        record {
          before = [];
          line = line;
          behind = rules;
          stands = refl;
          marked = own;
          source = e ∙ same;
        }
  ]
]

module _ (H : Host) (ip_binary name : Text) (rules : List Text) where
  -- An attempt gives the address, no rule mentions it, and the host has shown no interface with it.
  pub record IsFree (ip : ℕ) (w' : H.World) : Type 0 where
    pub attempt : ℕ
    pub within : attempt < source_slots
    pub candidate : rootless_podman_source_ip name attempt ≡ ip
    pub unmentioned : any (λ line. contains_text line (cidr_of ip)) rules ≡ false
    pub before : H.World
    pub output : Output
    pub shown : run_command_checked H ip_binary (show_args ip) before ≡ (ok output, w')
    pub nothing : is_empty output.stdout ≡ true

  shown-IsFree :
      (left attempt : ℕ) (w : H.World) {ip : ℕ} {w' : H.World} (t : Result Output × H.World)
      → run_command_checked H ip_binary (show_args (rootless_podman_source_ip name attempt)) w ≡ t
      → attempt < source_slots
      → any (λ line. contains_text line (cidr_of (rootless_podman_source_ip name attempt))) rules
        ≡ false
      → unless_shown
          (rootless_podman_source_ip name attempt)
          (free_source_ip H ip_binary name rules left (suc attempt))
          t
        ≡ (ok ip, w')
      → ((v : H.World)
          → free_source_ip H ip_binary name rules left (suc attempt) v ≡ (ok ip, w')
          → IsFree ip w')
      → IsFree ip w'
  unfolding unless_shown
  shown-IsFree left attempt w (err message, v) e b u h rest = absurd (cc h)
  shown-IsFree left attempt w {ip} {w'} (ok output, v) e b u h rest =
      elim (Bool-cases (is_empty output.stdout)) [
        | inr used ↦ rest v (rw used at h)
        | inl nothing ↦
            let done : ◌≡◌ {A = Result ℕ × H.World} (ok (rootless_podman_source_ip name attempt), v)
                (ok ip, w') =
              rw nothing at h in
            let result : ◌≡◌ {A = Result ℕ} (ok (rootless_podman_source_ip name attempt)) (ok ip) =
              ap (λ r. r.0) done in
            let same : rootless_podman_source_ip name attempt ≡ ip = cc result in
            record {
              attempt = attempt;
              within = b;
              candidate = same;
              unmentioned =
                  subst (λ i. any (λ line. contains_text line (cidr_of i)) rules ≡ false) same u;
              before = w;
              output = output;
              shown =
                  subst (λ i. run_command_checked H ip_binary (show_args i) w ≡ (ok output, w'))
                    same (e ∙ ap (λ r. (ok output, r.1)) done);
              nothing = nothing;
            }
      ]

  free_source_ip-ok :
      (left attempt : ℕ) (w : H.World) {ip : ℕ} {w' : H.World}
      → attempt + left ≤ source_slots
      → free_source_ip H ip_binary name rules left attempt w ≡ (ok ip, w')
      → IsFree ip w'
  unfolding free_source_ip
  free_source_ip-ok zero attempt w b h = absurd (cc h)
  free_source_ip-ok (suc left) attempt w {ip} {w'} b h =
      let candidate = rootless_podman_source_ip name attempt in
      elim (Bool-cases (any (λ line. contains_text line (cidr_of candidate)) rules)) [
        | inl taken ↦
            free_source_ip-ok left (suc attempt) w (omega arith) (rw (taken, free_source_ip) at h)
        | inr unmentioned ↦
            shown-IsFree left attempt w _ refl (omega arith) unmentioned
              (rw (unmentioned, free_source_ip) at h)
              (λ v e. free_source_ip-ok left (suc attempt) v (omega arith) e)
      ]

-- An allocated address is that of a rule of the network, or one of the candidates which no rule
-- mentions and which no interface of the host was shown to have, in the state that is left.
pub allocate_rootless_podman_source_ip_lem :
    (H : Host) (iptables_binary ip_binary name : Text) (w : H.World) {ip : ℕ} {w' : H.World}
    → allocate_rootless_podman_source_ip H iptables_binary ip_binary name w ≡ (ok ip, w')
    → (output : Output) × (v : H.World) × (run_command_checked H iptables_binary
          (codes "-S" ∷ codes "OUTPUT" ∷ [])
          w
        ≡ (ok output, v))
      × (IsOwn output_rule_source_ip (own_marker name) (lines output.stdout) ip
          ⊎ IsFree H ip_binary name (lines output.stdout) ip w')
unfolding allocate_rootless_podman_source_ip own_or_free
allocate_rootless_podman_source_ip_lem H iptables_binary ip_binary name w {ip} {w'} h =
    let (output, v, listed, rest) =
      >>=-eq-ok (run_command_checked H iptables_binary (codes "-S" ∷ codes "OUTPUT" ∷ []))
        (λ output.
          own_or_free H ip_binary name (lines output.stdout)
            (own_source_ip (own_marker name) (lines output.stdout)))
        w h in
    (
      output,
      v,
      listed,
      elim (Option-cases (own_source_ip (own_marker name) (lines output.stdout))) [
        | inl none_own ↦ inr (
            free_source_ip-ok H ip_binary name (lines output.stdout) source_slots 0 v (omega arith)
              (rw (none_own, own_or_free) at rest))
        | inr (own, e) ↦
            let done : ◌≡◌ {A = Result ℕ × H.World} (ok own, v) (ok ip, w') =
              rw (e, own_or_free) at rest in
            let result : ◌≡◌ {A = Result ℕ} (ok own) (ok ip) = ap (λ r. r.0) done in
            let same : own ≡ ip = cc result in
            inl (own_source_ip-some (own_marker name) (lines output.stdout) (e ∙ ap some same))
      ],
    )
