-- ===== src/State/Growth.antt =====
-- What a response adds to the sets, said without the code's tests.
use mathlib.Core.Option
use dockerwall.Base.{
  ◌≡◌, ◌↔◌, ◌⊎◌, inl, inr, sym, ap, ◌∙◌, Bool, true, ◌||◌, ◌&&◌, some, List, [], ◌∷◌, arith,
  list_eq, nat_eq, contains, any, or_true, and_true,
}
use dockerwall.Base.Assoc.{lookup}
use dockerwall.Text.{Text}
use dockerwall.Net.{IpAddr, ip_eq}
use dockerwall.State.{
  State, ManagedIpset, normalize_domain, domain_matches_pattern, any_pattern, apply_to_set,
  apply_resolved_ips,
}
use dockerwall.State.Match.{Matches, domain_matches_pattern_iff}
use dockerwall.State.Apply.{
  admitted, apply_to_set_lem, contains-extend_ips, lookup-apply_resolved_ips,
}

-- Some queried domain matches some pattern of the set.
pub record IsAdmitted (domains : List Text) (m : ManagedIpset) : Type 0 where
  pub domain : Text
  pub pattern : Text
  pub queried : contains domains domain ≡ true
  pub allowed : contains m.allowed_domain_patterns pattern ≡ true
  pub matches : Matches (normalize_domain domain) (normalize_domain pattern)

any_pattern-some :
    (domain : Text) (ps : List Text)
    → any_pattern domain ps ≡ true
    → (p : Text) × (contains ps p ≡ true) × (domain_matches_pattern domain p ≡ true)
unfolding any_pattern
any_pattern-some domain [] h = cc
any_pattern-some domain (p ∷ ps) h = elim (or_true (domain_matches_pattern domain p) _ h) [
  | inl here ↦ (p, ground arith, here)
  | inr later ↦ let (q, m, e) = any_pattern-some domain ps later in (q, ground arith, e)
]

some-any_pattern :
    (domain p : Text) (ps : List Text)
    → contains ps p ≡ true
    → domain_matches_pattern domain p ≡ true
    → any_pattern domain ps ≡ true
unfolding any_pattern
some-any_pattern domain p [] m e = cc
some-any_pattern domain p (q ∷ ps) m e = ground (arith, some-any_pattern domain p ps)

any-some :
    (f : Text → Bool) (l : List Text)
    → any f l ≡ true
    → (d : Text) × (contains l d ≡ true) × (f d ≡ true)
any-some f [] h = cc
any-some f (d ∷ l) h = elim (or_true (f d) _ h) [
  | inl here ↦ (d, ground arith, here)
  | inr later ↦ let (q, m, e) = any-some f l later in (q, ground arith, e)
]

some-any :
    (f : Text → Bool) (d : Text) (l : List Text) → contains l d ≡ true → f d ≡ true → any f l ≡ true
some-any f d [] m e = cc
some-any f d (x ∷ l) m e = ground (arith, some-any f d l)

pub admitted_iff :
    (domains : List Text) (m : ManagedIpset) → (admitted domains m ≡ true) ↔ IsAdmitted domains m
admitted_iff domains m = (
  λ h.
      let (d, queried, e) = any-some (λ d. any_pattern d m.allowed_domain_patterns) domains h in
      let (p, allowed, e') = any_pattern-some d m.allowed_domain_patterns e in
      record {
        domain = d;
        pattern = p;
        queried = queried;
        allowed = allowed;
        matches = (domain_matches_pattern_iff d p).0 e';
      },
  λ a.
      some-any (λ d. any_pattern d m.allowed_domain_patterns) a.domain domains a.queried
        (some-any_pattern a.domain a.pattern m.allowed_domain_patterns a.allowed
          ((domain_matches_pattern_iff a.domain a.pattern).1 a.matches)),
)

contains-apply_to_set :
    (domains : List Text) (resolved : List IpAddr) (m : ManagedIpset) (ip : IpAddr)
    → contains (apply_to_set domains resolved m).0.ips ip
      ≡ (contains m.ips ip || (admitted domains m && contains resolved ip))
contains-apply_to_set domains resolved m ip =
    ap (λ t. contains t ip) ((apply_to_set_lem domains resolved m).1)
    ∙ ground (arith, contains-extend_ips resolved m.ips ip)

pub grown :
    (domains : List Text) (resolved : List IpAddr) (m : ManagedIpset) (ip : IpAddr)
    → (contains (apply_to_set domains resolved m).0.ips ip ≡ true)
      ↔ ((contains m.ips ip ≡ true) ⊎ (IsAdmitted domains m × (contains resolved ip ≡ true)))
grown domains resolved m ip = (
  λ h.
      elim (or_true (contains m.ips ip) _ (sym (contains-apply_to_set domains resolved m ip) ∙ h)) [
        | inl held ↦ inl held
        | inr new ↦
            let (a, b) = and_true (admitted domains m) _ new in
            inr ((admitted_iff domains m).0 a, b)
      ],
  λ h. contains-apply_to_set domains resolved m ip ∙ elim h [
    | inl held ↦ ground arith
    | inr (a, b) ↦ ground (arith, (admitted_iff domains m).1 a)
  ],
)

-- A response leaves every set with its patterns, and with exactly the addresses that it held and,
-- if a queried domain matches one of its patterns, the resolved ones.
pub apply_resolved_ips_grows :
    (domains : List Text) (resolved : List IpAddr) (state : State) (name : Text) {m : ManagedIpset}
    → lookup name state ≡ some m
    → (m' : ManagedIpset) × (lookup name (apply_resolved_ips domains resolved state).1 ≡ some m')
      × (m'.allowed_domain_patterns ≡ m.allowed_domain_patterns)
      × ((ip : IpAddr)
          → (contains m'.ips ip ≡ true)
            ↔ ((contains m.ips ip ≡ true) ⊎ (IsAdmitted domains m × (contains resolved ip ≡ true))))
apply_resolved_ips_grows domains resolved state name {m} h = (
  (apply_to_set domains resolved m).0,
  lookup-apply_resolved_ips domains resolved state name
      ∙ ap (Option.map (λ m. (apply_to_set domains resolved m).0)) h,
  (apply_to_set_lem domains resolved m).0,
  λ ip. grown domains resolved m ip,
)
