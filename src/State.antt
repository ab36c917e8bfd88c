-- ===== src/State.antt =====
-- src/state.rs: the allowed patterns and the addresses of each managed set. A `HashSet` is a list
-- without duplicates; what an iteration meets first is left open by the order of the list.
pub mod Match
pub mod Apply
pub mod Growth
pub mod Changed
use dockerwall.Base.{
  ℕ, ◌+◌, ◌≡◌, refl, Bool, true, false, not, ◌&&◌, ◌||◌, Option, none, some, List, [], ◌∷◌, ◌++◌,
  leb, eqb, if◌then◌else◌, ◌==◌, contains, list_eq, nat_eq, any, is_empty, length,
}
use dockerwall.Base.Assoc.{Dict, lookup}
use dockerwall.Text.{Text, codes, trim_end_matches, to_ascii_lowercase, strip_prefix, ends_with}
use dockerwall.Net.{IpAddr, ip_eq}

pub record ManagedIpset : Type 0 where
  pub allowed_domain_patterns : List Text
  pub ips : List IpAddr

-- `STATE`
abbrev pub State : Type 0
State = Dict Text ManagedIpset

unfoldable pub normalize_domain : Text → Text
normalize_domain name = to_ascii_lowercase (trim_end_matches (λ c. eqb c b'.') name)

unfoldable pub domain_matches_pattern : Text → Text → Bool
domain_matches_pattern domain pattern =
    let d : Text = normalize_domain domain in
    let p : Text = normalize_domain pattern in
    elim (strip_prefix p (codes "*.")) [
      | some suffix ↦ d == suffix || ends_with d (b'.' ∷ suffix)
      | none ↦ d == p
    ]

-- `patterns.iter().any(...)`
unfoldable pub any_pattern : Text → List Text → Bool
any_pattern domain [] = false
any_pattern domain (p ∷ ps) = domain_matches_pattern domain p || any_pattern domain ps

-- The inner loop over the queried domains; the flag is `matches_current_ipset`.
unfoldable pub matches_ipset : Bool → List Text → ManagedIpset → Bool
matches_ipset found [] m = found
matches_ipset found (domain ∷ domains) m =
    matches_ipset (if any_pattern domain m.allowed_domain_patterns then true else found) domains m

-- `HashSet::insert` and `HashSet::extend`
unfoldable pub insert_ip : IpAddr → List IpAddr → List IpAddr
insert_ip ip ips = if contains ips ip then ips else ip ∷ ips

unfoldable pub extend_ips : List IpAddr → List IpAddr → List IpAddr
extend_ips ips [] = ips
extend_ips ips (r ∷ rs) = extend_ips (insert_ip r ips) rs

abbrev pub Changed : Type 0
Changed = List (Text × List IpAddr)

-- One set in the loop over the sets: what it becomes, and whether its addresses are to be pushed.
unfoldable pub apply_to_set : List Text → List IpAddr → ManagedIpset → ManagedIpset × Bool
apply_to_set domains resolved m =
    if not (matches_ipset false domains m)
    then (m, false)
    else (let ips = extend_ips m.ips resolved in
        (record m { ips = ips }, not (eqb (length ips) (length m.ips))))

unfoldable pub apply_loop : List Text → List IpAddr → State → Changed × State
apply_loop domains resolved [] = ([], [])
apply_loop domains resolved ((name, m) ∷ state) =
    let (changed, rest) = apply_loop domains resolved state in
    let (m', grew) = apply_to_set domains resolved m in
    (if grew then (name, m'.ips) ∷ changed else changed, (name, m') ∷ rest)

unfoldable pub apply_resolved_ips : List Text → List IpAddr → State → Changed × State
apply_resolved_ips domains resolved state =
    if is_empty domains || is_empty resolved then ([], state) else apply_loop domains resolved state

unfoldable pub is_domain_accepted_by_network : Text → Text → State → Bool
is_domain_accepted_by_network domain network_name state = elim (lookup network_name state) [
  | some m ↦ any_pattern domain m.allowed_domain_patterns
  | none ↦ false
]
