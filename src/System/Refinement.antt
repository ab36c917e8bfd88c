-- ===== src/System/Refinement.antt =====
-- The abstract view of the firewall, one list of addresses for each set, and the kernel's sets.
use mathlib.Core.Option
use mathlib.Core.Path.{subst}
use dockerwall.Base.{
  ℕ, ◌≡◌, inl, inr, refl, sym, ap, ◌∙◌, Bool, true, false, not, ◌&&◌, contains, Option, none, some,
  List, is_empty, list_eq, nat_eq, Bool-cases, Option-cases,
}
use dockerwall.Base.Assoc.{lookup, NodupKeys}
use dockerwall.Text.{Text}
use dockerwall.Net.{IpAddr, ip_eq}
use dockerwall.State.{ManagedIpset, State, apply_to_set, apply_resolved_ips}
use dockerwall.State.Apply.{lookup-apply_resolved_ips}
use dockerwall.State.Changed.{report, reported, lookup-changed, unreported_same, changed-NodupKeys}
use dockerwall.Ipset.{Command}
use dockerwall.Ipset.Members.{RestoreLaws, is_v4}
use dockerwall.Control.{Daemon}
use dockerwall.Proxy.{Message, collect_resolved_ips, query_domains, inspect_message}
use dockerwall.System.Mirror.{IsApart, push_all, Holds, Pushed, push_all_lem}

-- Every set of the daemon stands in the kernel, divided by the version of its addresses.
abbrev pub Mirrors : {K : Type 0} → (K → Text → IpAddr → Bool) → State → K → Type 0
Mirrors member state k =
    (name : Text) (m : ManagedIpset) → lookup name state ≡ some m → Holds member k name m.ips

-- The sets after a response, and those that it pushes.
pub inspect_message-sets :
    (message : Message) (origin : IpAddr) (now ttl : ℕ) (d : Daemon)
    → ((inspect_message message origin now ttl d).0
        ≡ (apply_resolved_ips
            (query_domains message.queries)
            (collect_resolved_ips message.answers)
            d.state).0)
      × ((inspect_message message origin now ttl d).1.state
          ≡ (apply_resolved_ips
              (query_domains message.queries)
              (collect_resolved_ips message.answers)
              d.state).1)
unfolding inspect_message apply_resolved_ips
inspect_message-sets message origin now ttl d =
    elim (Bool-cases (is_empty (collect_resolved_ips message.answers))) [
      | inr resolved ↦ rw (resolved, inspect_message) (refl, refl)
      | inl nothing ↦ elim (Bool-cases (is_empty (query_domains message.queries))) [
        | inl no_query ↦ rw (nothing, no_query, inspect_message, apply_resolved_ips) (refl, refl)
        | inr asked ↦ rw (nothing, asked, inspect_message, apply_resolved_ips) (refl, refl)
      ]
    ]

changed-IsApart :
    (domains : List Text) (resolved : List IpAddr) (state : State) (name : Text)
    → NodupKeys state
    → IsApart name state
    → IsApart name (apply_resolved_ips domains resolved state).0
changed-IsApart domains resolved state name u apart n ips h =
    let e = sym (lookup-changed domains resolved state n u) ∙ h in
    elim (Option-cases (lookup n state)) [
      | inl missing ↦ absurd (cc (rw missing at e))
      | inr (m, found) ↦ apart n m found
    ]

module _ {K : Type 0} (exec : Command → K → Option K) (member : K → Text → IpAddr → Bool)
    (laws : RestoreLaws exec member) where
  Pushed-Holds :
      (domains : List Text) (resolved : List IpAddr) (m : ManagedIpset) (k k' : K) (name : Text)
      → Holds member k name m.ips
      → Pushed exec member laws k k' name (reported domains resolved (some m))
      → Holds member k' name (apply_to_set domains resolved m).0.ips
  Pushed-Holds domains resolved m k k' name held =
      by_report (apply_to_set domains resolved m) (unreported_same domains resolved m)
    where
      by_report :
          (t : ManagedIpset × Bool)
          → (report t ≡ none → t.0.ips ≡ m.ips)
          → Pushed exec member laws k k' name (report t)
          → Holds member k' name t.0.ips
      by_report (m', true) same h = h
      by_report (m', false) same h =
          let kept = sym (same refl) in
          λ a. (
            (h a).0 ∙ (held a).0 ∙ ap (λ l. is_v4 a && contains l a) kept,
            (h a).1 ∙ (held a).1 ∙ ap (λ l. not (is_v4 a) && contains l a) kept,
          )

  -- Where the kernel obeys the laws of `flush` and `add -exist`, each name stands once and no name
  -- is that of another one's IPv6 set: if the kernel's sets mirror the daemon's, they do so again
  -- after a response all of whose pushes have succeeded, with nothing in between.
  pub inspect_message-Mirrors :
      (message : Message) (origin : IpAddr) (now ttl : ℕ) (d : Daemon) (k k' : K)
      → NodupKeys d.state
      → ((name : Text) (m : ManagedIpset) → lookup name d.state ≡ some m → IsApart name d.state)
      → Mirrors member d.state k
      → push_all exec (inspect_message message origin now ttl d).0 k ≡ some k'
      → Mirrors member (inspect_message message origin now ttl d).1.state k'
  inspect_message-Mirrors message origin now ttl d k k' u apart mirror pushed name m' h =
      let (changed, state) = inspect_message-sets message origin now ttl d in
      before (lookup name d.state) refl
        (sym (lookup-apply_resolved_ips domains resolved d.state name)
          ∙ ap (lookup name) (sym state)
          ∙ h)
        (ap (λ c. push_all exec c k) (sym changed) ∙ pushed)
    where
      domains : List Text
      domains = query_domains message.queries

      resolved : List IpAddr
      resolved = collect_resolved_ips message.answers

      before :
          (o : Option ManagedIpset)
          → lookup name d.state ≡ o
          → Option.map (λ m. (apply_to_set domains resolved m).0) o ≡ some m'
          → push_all exec (apply_resolved_ips domains resolved d.state).0 k ≡ some k'
          → Holds member k' name m'.ips
      before none p q r = cc
      before (some m) p q r =
          let same : (apply_to_set domains resolved m).0 ≡ m' = cc q in
          let after =
            push_all_lem exec member laws (apply_resolved_ips domains resolved d.state).0 k k' name
              (changed-NodupKeys domains resolved d.state u)
              (changed-IsApart domains resolved d.state name u (apart name m p)) r in
          let looked =
            lookup-changed domains resolved d.state name u ∙ ap (reported domains resolved) p in
          subst (λ t. Holds member k' name t.ips) same
            (Pushed-Holds domains resolved m k k' name (mirror name m p)
              (subst (Pushed exec member laws k k' name) looked after))
