-- ===== src/State/Changed.antt =====
-- Which sets `apply_resolved_ips` reports as changed.
use dockerwall.Base.{
  ◌≡◌, inl, inr, refl, sym, ap, ◌∙◌, Bool, true, false, ◌||◌, Option, none, some, List, [], ◌∷◌,
  arith, eqb_refl, list_eq, nat_eq, Bool-cases, length, is_empty,
}
use dockerwall.Base.Assoc.{lookup, lookup-nil, NodupKeys}
use dockerwall.Text.{Text}
use dockerwall.Net.{IpAddr, ip_eq}
use dockerwall.State.{
  State, ManagedIpset, matches_ipset, extend_ips, apply_to_set, apply_loop, apply_resolved_ips,
}
use dockerwall.State.Apply.{apply_to_set_lem}

-- What is reported of one set: its new addresses, if it grew.
abbrev pub report : ManagedIpset × Bool → Option (List IpAddr)
report (m, true) = some m.ips
report (m, false) = none

abbrev pub reported : List Text → List IpAddr → Option ManagedIpset → Option (List IpAddr)
reported domains resolved none = none
reported domains resolved (some m) = report (apply_to_set domains resolved m)

lookup-changed_loop :
    (domains : List Text) (resolved : List IpAddr) (state : State) (name : Text)
    → NodupKeys state
    → lookup name (apply_loop domains resolved state).0
      ≡ reported domains resolved (lookup name state)
unfolding apply_loop lookup
lookup-changed_loop domains resolved [] name u = refl
lookup-changed_loop domains resolved ((n, m) ∷ state) name (fresh, u) =
    ground (arith, lookup-changed_loop domains resolved state name u)

apply_loop-changed-NodupKeys :
    (domains : List Text) (resolved : List IpAddr) (state : State)
    → NodupKeys state
    → NodupKeys (apply_loop domains resolved state).0
unfolding apply_loop
apply_loop-changed-NodupKeys domains resolved [] u = tt
apply_loop-changed-NodupKeys domains resolved ((n, m) ∷ state) (fresh, u) =
    let rest = apply_loop-changed-NodupKeys domains resolved state u in
    elim (Bool-cases (apply_to_set domains resolved m).1) [
      | inl grew ↦ rw grew (
        lookup-changed_loop domains resolved state n u ∙ ap (reported domains resolved) fresh,
        rest,
      )
      | inr same ↦ rw same rest
    ]

-- No set is reported twice.
pub changed-NodupKeys :
    (domains : List Text) (resolved : List IpAddr) (state : State)
    → NodupKeys state
    → NodupKeys (apply_resolved_ips domains resolved state).0
unfolding apply_resolved_ips
changed-NodupKeys domains resolved state u =
    elim (Bool-cases (is_empty domains || is_empty resolved)) [
      | inl early ↦ rw (early, apply_resolved_ips) tt
      | inr full ↦
          rw (full, apply_resolved_ips) (apply_loop-changed-NodupKeys domains resolved state u)
    ]

nothing_reported :
    (domains : List Text) (resolved : List IpAddr) (o : Option ManagedIpset)
    → (is_empty domains || is_empty resolved) ≡ true
    → reported domains resolved o ≡ none
unfolding apply_to_set matches_ipset extend_ips
nothing_reported domains resolved none h = refl
nothing_reported [] resolved (some m) h = refl
nothing_reported (d ∷ domains) [] (some m) h = ground (arith, eqb_refl (length m.ips))
nothing_reported (d ∷ domains) (r ∷ resolved) (some m) h = cc

-- Where each name stands once, the sets that a response reports are those that grew, each with all
-- its new addresses.
pub lookup-changed :
    (domains : List Text) (resolved : List IpAddr) (state : State) (name : Text)
    → NodupKeys state
    → lookup name (apply_resolved_ips domains resolved state).0
      ≡ reported domains resolved (lookup name state)
unfolding apply_resolved_ips
lookup-changed domains resolved state name u =
    elim (Bool-cases (is_empty domains || is_empty resolved)) [
      | inl early ↦
          rw (early, apply_resolved_ips)
            (lookup-nil name ∙ sym (nothing_reported domains resolved (lookup name state) early))
      | inr full ↦ rw (full, apply_resolved_ips) (lookup-changed_loop domains resolved state name u)
    ]

-- A set that is not reported holds the addresses that it held.
pub unreported_same :
    (domains : List Text) (resolved : List IpAddr) (m : ManagedIpset)
    → reported domains resolved (some m) ≡ none
    → (apply_to_set domains resolved m).0.ips ≡ m.ips
unreported_same domains resolved m h =
    (apply_to_set_lem domains resolved m).2 (not_reported (apply_to_set domains resolved m) h)
  where
    not_reported : (t : ManagedIpset × Bool) → report t ≡ none → t.1 ≡ false
    not_reported (m, true) e = cc
    not_reported (m, false) e = refl
