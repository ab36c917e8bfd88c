-- ===== src/Ipset/Members.antt =====
-- What a pushed update leaves in the kernel's sets, from what flushing and adding do.
use dockerwall.Base.{
  ◌≡◌, ◌≢◌, ap, ◌∙◌, Bool, true, false, not, ◌&&◌, ◌||◌, Option, none, some, List, [], ◌∷◌, arith,
  if◌then◌else◌, ◌==◌, list_eq, nat_eq, contains, length, length-append, Option-cases, inl, inr,
}
use dockerwall.Text.{Text, codes}
use dockerwall.Net.{IpAddr, v4, v6, ip_eq}
use dockerwall.Ipset.{Command, flush, add, ipv6_ipset_name, set_for, add_commands, update_commands}

-- The documented behaviour of the two commands: `flush` empties a set, and `add … -exist` adds an
-- address that may be there. `exec` gives none where the tool reports an error.
pub record RestoreLaws {K : Type 0} (exec : Command → K → Option K)
    (member : K → Text → IpAddr → Bool) : Type 0 where
  pub flush_members :
      (name : Text) (k k' : K) (n : Text) (a : IpAddr)
      → exec (flush name) k ≡ some k'
      → member k' n a ≡ (if n == name then false else member k n a)
  pub add_members :
      (name : Text) (ip : IpAddr) (k k' : K) (n : Text) (a : IpAddr)
      → exec (add name ip) k ≡ some k'
      → member k' n a ≡ (if n == name && a == ip then true else member k n a)

abbrev pub is_v4 : IpAddr → Bool
is_v4 (v4 a) = true
is_v4 (v6 a) = false

module _ {K : Type 0} (exec : Command → K → Option K) where
  -- The commands in order, up to the first error.
  unfoldable pub exec_all : List Command → K → Option K
  exec_all [] k = some k
  exec_all (c ∷ cs) k = elim (exec c k) [ none ↦ none | some k' ↦ exec_all cs k' ]

longer_name : (name : Text) → name ≢ ipv6_ipset_name name
unfolding ipv6_ipset_name
longer_name name e = absurd (omega (arith, ap (λ t. length t) e, length-append name (codes "-v6")))

module _ {K : Type 0} (exec : Command → K → Option K) (member : K → Text → IpAddr → Bool)
    (laws : RestoreLaws exec member) where
  exec_all-add_commands :
      (name : Text) (ips : List IpAddr) (k k' : K) (a : IpAddr) (n : Text)
      → exec_all exec (add_commands name ips) k ≡ some k'
      → member k' n a ≡ (n == set_for name a && contains ips a || member k n a)
  unfolding exec_all add_commands
  exec_all-add_commands name [] k k' a n e = ground arith
  exec_all-add_commands name (ip ∷ ips) k k' a n e =
      elim (Option-cases (exec (add (set_for name ip) ip) k)) [
        | inl stop ↦ absurd (ground arith)
        | inr (m, first) ↦ ground (
          arith,
          laws.add_members (set_for name ip) ip k m n a first,
          exec_all-add_commands name ips m k' a n,
        )
      ]

  exec_all-update_commands :
      (name : Text) (ips : List IpAddr) (k k' : K) (n : Text) (a : IpAddr)
      → exec_all exec (update_commands name ips) k ≡ some k'
      → member k' n a ≡ (
          n == set_for name a && contains ips a
          || (if n == ipv6_ipset_name name
              then false
              else if n == name
              then false
              else member k n a))
  unfolding exec_all update_commands
  exec_all-update_commands name ips k k' n a e = elim (Option-cases (exec (flush name) k)) [
    | inl stop ↦ absurd (ground arith)
    | inr (k1, first) ↦ elim (Option-cases (exec (flush (ipv6_ipset_name name)) k1)) [
      | inl stop ↦ absurd (ground arith)
      | inr (k2, second) ↦ ground (
        arith,
        laws.flush_members name k k1 n a first,
        laws.flush_members (ipv6_ipset_name name) k1 k2 n a second,
        exec_all-add_commands name ips k2 k' a n,
      )
    ]
  ]

  -- Where the kernel obeys the laws of `flush` and `add -exist`, an update all of whose commands
  -- succeed leaves exactly the addresses of the list in the two sets of its name, IPv4 in the one
  -- and IPv6 in the other, and every other set holds what it held.
  pub update_members :
      (name : Text) (ips : List IpAddr) (k k' : K) (n : Text) (a : IpAddr)
      → exec_all exec (update_commands name ips) k ≡ some k'
      → (member k' name a ≡ (is_v4 a && contains ips a))
        × (member k' (ipv6_ipset_name name) a ≡ (not (is_v4 a) && contains ips a))
        × (n ≢ name → n ≢ ipv6_ipset_name name → member k' n a ≡ member k n a)
  unfolding set_for
  update_members name ips k k' n (v4 a) e = (
    exec_all-update_commands name ips k k' name (v4 a) e ∙ ground (arith, longer_name name),
    exec_all-update_commands name ips k k' (ipv6_ipset_name name) (v4 a) e
        ∙ ground (arith, longer_name name),
    λ p q. exec_all-update_commands name ips k k' n (v4 a) e ∙ ground arith,
  )
  update_members name ips k k' n (v6 a) e = (
    exec_all-update_commands name ips k k' name (v6 a) e ∙ ground (arith, longer_name name),
    exec_all-update_commands name ips k k' (ipv6_ipset_name name) (v6 a) e
        ∙ ground (arith, longer_name name),
    λ p q. exec_all-update_commands name ips k k' n (v6 a) e ∙ ground arith,
  )
