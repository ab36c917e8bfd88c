-- ===== src/Proxy/Invariant.antt =====
-- The invariant of the daemon's shared state, under the responses of the proxy.
use mathlib.Core.Option
use mathlib.Core.Path.{subst}
use dockerwall.Base.{
  ℕ, ◌≡◌, inl, inr, refl, sym, ◌∙◌, Option, none, some, List, [], ◌∷◌, list_eq, nat_eq, is_empty,
  Bool-cases,
}
use dockerwall.Base.Assoc.{lookup}
use dockerwall.Text.{Text}
use dockerwall.Net.{IpAddr}
use dockerwall.State.{ManagedIpset, State, apply_resolved_ips, apply_to_set}
use dockerwall.State.Apply.{
  Distinct, apply_resolved_ips-NodupKeys, lookup-apply_resolved_ips, apply_to_set_lem,
  extend_ips-Distinct, admitted,
}
use dockerwall.Stats.{Stats, Networks}
use dockerwall.Stats.Record.{IsBounded, record_resolve-IsBounded}
use dockerwall.Control.{Daemon}
use dockerwall.Control.Invariant.{IsValid}
use dockerwall.Proxy.{Message, record_queries, query_domain, collect_resolved_ips, inspect_message}

record_queries-IsBounded :
    (names : List Text) (origin : IpAddr) (now ttl : ℕ) (n : Networks) (state : State)
    (stats : Stats)
    → IsBounded stats
    → IsBounded (record_queries names origin now ttl n state stats)
unfolding record_queries
record_queries-IsBounded [] origin now ttl n state stats b = b
record_queries-IsBounded (name ∷ names) origin now ttl n state stats b =
    record_queries-IsBounded names origin now ttl n state _
      (record_resolve-IsBounded (query_domain name) origin now ttl n state stats b)

apply_to_set-Distinct :
    (domains : List Text) (resolved : List IpAddr) (m : ManagedIpset)
    → Distinct m.ips
    → Distinct (apply_to_set domains resolved m).0.ips
apply_to_set-Distinct domains resolved m h =
    subst Distinct (sym ((apply_to_set_lem domains resolved m).1))
      (elim (Bool-cases (admitted domains m)) [
        | inl some_match ↦ rw some_match (extend_ips-Distinct resolved m.ips h)
        | inr no_match ↦ rw no_match h
      ])

apply_resolved_ips-Distinct :
    (domains : List Text) (resolved : List IpAddr) (state : State)
    → ((name : Text) (m : ManagedIpset) → lookup name state ≡ some m → Distinct m.ips)
    → (name : Text) (m : ManagedIpset)
    → lookup name (apply_resolved_ips domains resolved state).1 ≡ some m
    → Distinct m.ips
apply_resolved_ips-Distinct domains resolved state h name m e =
    before (lookup name state) refl
      (sym (lookup-apply_resolved_ips domains resolved state name) ∙ e)
  where
    before :
        (o : Option ManagedIpset)
        → lookup name state ≡ o
        → Option.map (λ m. (apply_to_set domains resolved m).0) o ≡ some m
        → Distinct m.ips
    before none p q = cc
    before (some old) p q =
        let same : (apply_to_set domains resolved old).0 ≡ m = cc q in
        subst (λ t. Distinct t.ips) same (apply_to_set-Distinct domains resolved old (h name old p))

-- A response keeps the daemon's invariant, whatever it holds and whoever asked.
pub inspect_message-IsValid :
    (message : Message) (origin : IpAddr) (now ttl : ℕ) {d : Daemon}
    → IsValid d
    → IsValid (inspect_message message origin now ttl d).1
unfolding inspect_message
inspect_message-IsValid message origin now ttl {d} v =
    let stats =
      record_queries-IsBounded message.queries origin now ttl d.networks d.state d.stats v.stats in
    elim (Bool-cases (is_empty (collect_resolved_ips message.answers))) [
      | inl nothing ↦
          rw (nothing, inspect_message)
            (record {
              names = v.names;
              distinct = v.distinct;
              networks = v.networks;
              stats = stats;
            })
      | inr resolved ↦
          rw (resolved, inspect_message)
            (record {
              names = apply_resolved_ips-NodupKeys _ _ d.state v.names;
              distinct = apply_resolved_ips-Distinct _ _ d.state v.distinct;
              networks = v.networks;
              stats = stats;
            })
    ]
