-- ===== src/State/Apply.antt =====
-- `apply_resolved_ips`: which sets grow, by what, and which are reported.
use mathlib.Core.Option
use dockerwall.Base.{
  ◌≤◌, ◌≡◌, inl, inr, refl, sym, ap, ◌∙◌, Bool, true, false, ◌||◌, Option, none, some, List, [],
  ◌∷◌, arith, ◌==◌, list_eq, nat_eq, Bool-cases, contains, length, any, if◌then◌else◌,
}
use dockerwall.Base.Assoc.{lookup, NodupKeys}
use dockerwall.Text.{Text}
use dockerwall.Net.{IpAddr, ip_eq}
use dockerwall.State.{
  State, ManagedIpset, any_pattern, matches_ipset, insert_ip, extend_ips, apply_to_set, apply_loop,
  apply_resolved_ips,
}

-- No address stands in the list twice.
abbrev pub Distinct : List IpAddr → Type 0
Distinct [] = Unit {0}
Distinct (a ∷ l) = (contains l a ≡ false) × Distinct l

contains-insert_ip :
    (r : IpAddr) (ips : List IpAddr) (a : IpAddr)
    → contains (insert_ip r ips) a ≡ (a == r || contains ips a)
unfolding insert_ip
contains-insert_ip r ips a = ground arith

-- A set holds what it held and the new addresses.
pub contains-extend_ips :
    (rs ips : List IpAddr) (a : IpAddr)
    → contains (extend_ips ips rs) a ≡ (contains ips a || contains rs a)
unfolding extend_ips
contains-extend_ips [] ips a = ground arith
contains-extend_ips (r ∷ rs) ips a =
    ground (arith, contains-extend_ips rs (insert_ip r ips) a, contains-insert_ip r ips a)

insert_ip-Distinct : (r : IpAddr) (ips : List IpAddr) → Distinct ips → Distinct (insert_ip r ips)
unfolding insert_ip
insert_ip-Distinct r ips h = ground arith

pub extend_ips-Distinct : (rs ips : List IpAddr) → Distinct ips → Distinct (extend_ips ips rs)
unfolding extend_ips
extend_ips-Distinct [] ips h = h
extend_ips-Distinct (r ∷ rs) ips h =
    extend_ips-Distinct rs (insert_ip r ips) (insert_ip-Distinct r ips h)

length-le-insert_ip : (r : IpAddr) (ips : List IpAddr) → length ips ≤ length (insert_ip r ips)
unfolding insert_ip
length-le-insert_ip r ips = ground arith

length-le-extend_ips : (rs ips : List IpAddr) → length ips ≤ length (extend_ips ips rs)
unfolding extend_ips
length-le-extend_ips [] ips = omega arith
length-le-extend_ips (r ∷ rs) ips =
    omega (arith, length-le-extend_ips rs (insert_ip r ips), length-le-insert_ip r ips)

-- The length tells whether the set has changed at all.
pub extend_ips_same :
    (rs ips : List IpAddr) → length (extend_ips ips rs) ≡ length ips → extend_ips ips rs ≡ ips
unfolding extend_ips
extend_ips_same [] ips h = refl
extend_ips_same (r ∷ rs) ips h = elim (Bool-cases (contains ips r)) [
  | inl old ↦
      let kept : insert_ip r ips ≡ ips = unfold insert_ip in rw old in
      rw kept (extend_ips_same rs ips (rw kept at h))
  | inr new ↦
      let grown : insert_ip r ips ≡ r ∷ ips = unfold insert_ip in rw new in
      absurd (omega (arith, length-le-extend_ips rs (insert_ip r ips), ap (λ t. length t) grown, h))
]

-- The flag of the inner loop says whether some domain is admitted.
pub matches_ipset-any :
    (found : Bool) (domains : List Text) (m : ManagedIpset)
    → matches_ipset found domains m
      ≡ (found || any (λ d. any_pattern d m.allowed_domain_patterns) domains)
unfolding matches_ipset
matches_ipset-any found [] m = ground arith
matches_ipset-any found (d ∷ domains) m =
    matches_ipset-any (if any_pattern d m.allowed_domain_patterns then true else found) domains m
    ∙ ground arith

-- `m` with the resolved addresses, if a queried domain is admitted.
abbrev pub admitted : List Text → ManagedIpset → Bool
admitted domains m = any (λ d. any_pattern d m.allowed_domain_patterns) domains

pub apply_to_set_lem :
    (domains : List Text) (resolved : List IpAddr) (m : ManagedIpset)
    → ((apply_to_set domains resolved m).0.allowed_domain_patterns ≡ m.allowed_domain_patterns)
      × ((apply_to_set domains resolved m).0.ips
          ≡ (if admitted domains m then extend_ips m.ips resolved else m.ips))
      × ((apply_to_set domains resolved m).1 ≡ false
          → (apply_to_set domains resolved m).0.ips ≡ m.ips)
unfolding apply_to_set
apply_to_set_lem domains resolved m = elim (Bool-cases (admitted domains m)) [
  | inl some_match ↦
      ground (arith, matches_ipset-any false domains m, extend_ips_same resolved m.ips)
  | inr no_match ↦ ground (arith, matches_ipset-any false domains m)
]

pub lookup-apply_loop :
    (domains : List Text) (resolved : List IpAddr) (state : State) (name : Text)
    → lookup name (apply_loop domains resolved state).1
      ≡ Option.map (λ m. (apply_to_set domains resolved m).0) (lookup name state)
unfolding apply_loop lookup
lookup-apply_loop domains resolved [] name = refl
lookup-apply_loop domains resolved ((n, m) ∷ state) name =
    ground (arith, lookup-apply_loop domains resolved state name)

apply_to_set_nothing : (domains : List Text) (m : ManagedIpset) → (apply_to_set domains [] m).0 ≡ m
unfolding apply_to_set extend_ips
apply_to_set_nothing domains m = ground arith

apply_to_set_no_domain :
    (resolved : List IpAddr) (m : ManagedIpset) → (apply_to_set [] resolved m).0 ≡ m
unfolding apply_to_set matches_ipset
apply_to_set_no_domain resolved m = refl

map-same :
    (f : ManagedIpset → ManagedIpset)
    → ((m : ManagedIpset) → f m ≡ m)
    → (o : Option ManagedIpset) → Option.map f o ≡ o
map-same f h none = refl
map-same f h (some m) = ap some (h m)

-- Every set of the state becomes what `apply_to_set` makes of it, the early return included.
pub lookup-apply_resolved_ips :
    (domains : List Text) (resolved : List IpAddr) (state : State) (name : Text)
    → lookup name (apply_resolved_ips domains resolved state).1
      ≡ Option.map (λ m. (apply_to_set domains resolved m).0) (lookup name state)
unfolding apply_resolved_ips
lookup-apply_resolved_ips [] resolved state name = sym (
    map-same (λ m. (apply_to_set [] resolved m).0) (apply_to_set_no_domain resolved)
      (lookup name state))
lookup-apply_resolved_ips (d ∷ domains) [] state name = sym (
    map-same (λ m. (apply_to_set (d ∷ domains) [] m).0) (apply_to_set_nothing (d ∷ domains))
      (lookup name state))
lookup-apply_resolved_ips (d ∷ domains) (r ∷ resolved) state name =
    lookup-apply_loop (d ∷ domains) (r ∷ resolved) state name

apply_loop-NodupKeys :
    (domains : List Text) (resolved : List IpAddr) (state : State)
    → NodupKeys state
    → NodupKeys (apply_loop domains resolved state).1
unfolding apply_loop
apply_loop-NodupKeys domains resolved [] u = tt
apply_loop-NodupKeys domains resolved ((n, m) ∷ state) (fresh, u) = (
  lookup-apply_loop domains resolved state n
      ∙ ap (Option.map (λ m. (apply_to_set domains resolved m).0)) fresh,
  apply_loop-NodupKeys domains resolved state u,
)

pub apply_resolved_ips-NodupKeys :
    (domains : List Text) (resolved : List IpAddr) (state : State)
    → NodupKeys state
    → NodupKeys (apply_resolved_ips domains resolved state).1
unfolding apply_resolved_ips
apply_resolved_ips-NodupKeys [] resolved state u = u
apply_resolved_ips-NodupKeys (d ∷ domains) [] state u = u
apply_resolved_ips-NodupKeys (d ∷ domains) (r ∷ resolved) state u =
    apply_loop-NodupKeys (d ∷ domains) (r ∷ resolved) state u
