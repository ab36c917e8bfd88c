-- ===== src/System/Allowed.antt =====
-- What it means that an address was allowed, and the addresses that a response adds.
use dockerwall.Base.{
  ℕ, ◌≡◌, ◌⊎◌, inl, inr, true, List, [], ◌∷◌, ◌++◌, list_eq, nat_eq, is_empty, contains, All,
  Bool-cases,
}
use dockerwall.Text.{Text}
use dockerwall.Net.{IpAddr, ip_eq}
use dockerwall.State.{ManagedIpset, State, Changed, apply_to_set, apply_loop, apply_resolved_ips}
use dockerwall.State.Growth.{IsAdmitted, grown}
use dockerwall.Control.{Daemon}
use dockerwall.Proxy.{Message, collect_resolved_ips, query_domains, inspect_message}
use dockerwall.System.{Takes, here, later, History}

-- A set stands in the state under this name.
pub data Stands (name : Text) (m : ManagedIpset) : State → Type 0 where
  first : {s : State} → Stands name m ((name, m) ∷ s)
  behind : {e : Text × ManagedIpset} {s : State} → Stands name m s → Stands name m (e ∷ s)

-- The response resolved the address, it answered a query for a domain that a pattern of the set
-- matches, and the set had that pattern when the response came in.
pub record IsAllowed (r : Message × State) (name : Text) (ip : IpAddr) : Type 0 where
  pub set : ManagedIpset
  pub stands : Stands name set r.1
  pub admitted : IsAdmitted (query_domains r.0.queries) set
  pub resolved : contains (collect_resolved_ips r.0.answers) ip ≡ true

-- Some response of the history allowed it.
abbrev pub WasAllowed : History → Text → IpAddr → Type 0
WasAllowed [] name ip = ⊥
WasAllowed (r ∷ h) name ip = IsAllowed r name ip ⊎ WasAllowed h name ip

abbrev pub AllAllowed : History → Text × List IpAddr → Type 0
AllAllowed h (name, ips) = (ip : IpAddr) → contains ips ip ≡ true → WasAllowed h name ip

abbrev pub SetAllowed : History → Text × ManagedIpset → Type 0
SetAllowed h (name, m) = AllAllowed h (name, m.ips)

pub All-weaken :
    (r : Message × State) (h : History) (ps : Changed)
    → All (AllAllowed h) ps
    → All (AllAllowed (r ∷ h)) ps
All-weaken r h [] a = tt
All-weaken r h ((name, ips) ∷ ps) (p, a) = (λ ip m. inr (p ip m), All-weaken r h ps a)

SetAllowed-weaken :
    (r : Message × State) (h : History) (s : State)
    → All (SetAllowed h) s
    → All (SetAllowed (r ∷ h)) s
SetAllowed-weaken r h [] a = tt
SetAllowed-weaken r h ((name, m) ∷ s) (p, a) = (λ ip c. inr (p ip c), SetAllowed-weaken r h s a)

pub All-append :
    (P : Text × List IpAddr → Type 0) (ps qs : Changed) → All P ps → All P qs → All P (ps ++ qs)
All-append P [] qs a b = b
All-append P (p ∷ ps) qs (x, a) b = (x, All-append P ps qs a b)

pub All-Takes :
    (P : Text × List IpAddr → Type 0) {p : Text × List IpAddr} {ps rest : Changed}
    → Takes p ps rest
    → All P ps
    → P p × All P rest
All-Takes P here (x, a) = (x, a)
All-Takes P (later t) (x, a) = let (y, b) = All-Takes P t a in (y, (x, b))

module _ (message : Message) (h : History) (s0 : State) where
  abbrev domains : List Text
  domains = query_domains message.queries

  abbrev resolved_ips : List IpAddr
  resolved_ips = collect_resolved_ips message.answers

  grown-SetAllowed :
      (name : Text) (m : ManagedIpset)
      → Stands name m s0
      → SetAllowed h (name, m)
      → SetAllowed ((message, s0) ∷ h) (name, (apply_to_set domains resolved_ips m).0)
  grown-SetAllowed name m s a ip c = elim ((grown domains resolved_ips m ip).0 c) [
    | inl held ↦ inr (a ip held)
    | inr (adm, res) ↦ inl (record { set = m; stands = s; admitted = adm; resolved = res })
  ]

  apply_loop-allowed :
      (s : State)
      → ((name : Text) (m : ManagedIpset) → Stands name m s → Stands name m s0)
      → All (SetAllowed h) s
      → All (AllAllowed ((message, s0) ∷ h)) (apply_loop domains resolved_ips s).0
        × All (SetAllowed ((message, s0) ∷ h)) (apply_loop domains resolved_ips s).1
  unfolding apply_loop
  apply_loop-allowed [] inside a = (tt, tt)
  apply_loop-allowed ((name, m) ∷ s) inside (p, a) =
      let (pushes, sets) = apply_loop-allowed s (λ n m t. inside n m (behind t)) a in
      let one = grown-SetAllowed name m (inside name m first) p in
      (
        elim (Bool-cases (apply_to_set domains resolved_ips m).1) [
          | inl grew ↦ rw grew (one, pushes)
          | inr same ↦ rw same pushes
        ],
        (one, sets),
      )

pub inspect_message-allowed :
    (message : Message) (origin : IpAddr) (now ttl : ℕ) (h : History) (d : Daemon)
    → All (SetAllowed h) d.state
    → All (AllAllowed ((message, d.state) ∷ h)) (inspect_message message origin now ttl d).0
      × All (SetAllowed ((message, d.state) ∷ h)) (inspect_message message origin now ttl d).1.state
unfolding inspect_message apply_resolved_ips
inspect_message-allowed message origin now ttl h d a =
    elim (Bool-cases (is_empty (collect_resolved_ips message.answers))) [
      | inl nothing ↦
          rw (nothing, inspect_message) (tt, SetAllowed-weaken (message, d.state) h d.state a)
      | inr resolved ↦ elim (Bool-cases (is_empty (query_domains message.queries))) [
        | inl no_query ↦
            rw (resolved, no_query, inspect_message, apply_resolved_ips)
              (tt, SetAllowed-weaken (message, d.state) h d.state a)
        | inr asked ↦
            rw (resolved, asked, inspect_message, apply_resolved_ips)
              (apply_loop-allowed message h d.state d.state (λ n m t. t) a)
      ]
    ]
