-- ===== src/System/Mirror.antt =====
-- The pushes of a response, done one after the other with nothing in between.
use dockerwall.Base.{
  ◌≡◌, ◌≢◌, inl, inr, refl, sym, ap, ◌∙◌, Bool, false, not, ◌&&◌, Option, none, some, List, [], ◌∷◌,
  ◌++◌, ◌==◌, ==_iff, ==_refl, list_eq, nat_eq, length, length-append, contains, Bool-cases,
  Option-cases, arith,
}
use mathlib.Core.Path.{subst}
use dockerwall.Base.Assoc.{Dict, lookup, lookup-cons, NodupKeys}
use dockerwall.Text.{Text, codes}
use dockerwall.Net.{IpAddr, ip_eq}
use dockerwall.State.{Changed}
use dockerwall.Ipset.{Command, ipv6_ipset_name, update_commands}
use dockerwall.Ipset.Members.{RestoreLaws, is_v4, exec_all, update_members}

append_injective : (m n s : Text) → m ++ s ≡ n ++ s → m ≡ n
append_injective [] [] s e = refl
append_injective [] (c ∷ n) s e = absurd (omega (arith, ap (λ t. length t) e, length-append n s))
append_injective (b ∷ m) [] s e = absurd (omega (arith, ap (λ t. length t) e, length-append m s))
append_injective (b ∷ m) (c ∷ n) s e =
    let head : b ≡ c = cc e in
    let tail : m ++ s ≡ n ++ s = cc e in let rest = append_injective m n s tail in cc (head, rest)

ipv6_ipset_name_injective : (m n : Text) → ipv6_ipset_name m ≡ ipv6_ipset_name n → m ≡ n
unfolding ipv6_ipset_name
ipv6_ipset_name_injective m n e = append_injective m n (codes "-v6") e

-- The name of no set is that of another one's IPv6 set.
abbrev pub IsApart : {V : Type 0} → Text → Dict Text V → Type 0
IsApart {V} name d =
    (n : Text) (v : V)
    → lookup n d ≡ some v
    → (name ≢ ipv6_ipset_name n) × (ipv6_ipset_name name ≢ n)

-- The pushes of a response, one after the other, as long as they succeed.
module _ {K : Type 0} (exec : Command → K → Option K) where
  unfoldable pub push_all : Changed → K → Option K
  push_all [] k = some k
  push_all ((name, ips) ∷ changed) k = elim (exec_all exec (update_commands name ips) k) [
    | none ↦ none
    | some k' ↦ push_all changed k'
  ]

-- What the two sets of a name hold for an address, given the list of its addresses.
abbrev pub Holds : {K : Type 0} → (K → Text → IpAddr → Bool) → K → Text → List IpAddr → Type 0
Holds member k name ips =
    (a : IpAddr)
    → (member k name a ≡ (is_v4 a && contains ips a))
      × (member k (ipv6_ipset_name name) a ≡ (not (is_v4 a) && contains ips a))

module _ {K : Type 0} (exec : Command → K → Option K) (member : K → Text → IpAddr → Bool)
    (laws : RestoreLaws exec member) where
  abbrev pub Same : K → K → Text → Type 0
  Same k k' name =
      (a : IpAddr)
      → (member k' name a ≡ member k name a)
        × (member k' (ipv6_ipset_name name) a ≡ member k (ipv6_ipset_name name) a)

  -- What the pushes make of the two sets of a name.
  abbrev pub Pushed : K → K → Text → Option (List IpAddr) → Type 0
  Pushed k k' name none = Same k k' name
  Pushed k k' name (some ips) = Holds member k' name ips

  update_others :
      (n : Text) (ips : List IpAddr) (k k' : K) (name : Text)
      → exec_all exec (update_commands n ips) k ≡ some k'
      → name ≢ n
      → name ≢ ipv6_ipset_name n
      → ipv6_ipset_name name ≢ n
      → Same k k' name
  update_others n ips k k' name e p q r a = (
    (update_members exec member laws n ips k k' name a e).2 p q,
    (update_members exec member laws n ips k k' (ipv6_ipset_name name) a e).2 r
        (λ s. p (ipv6_ipset_name_injective name n s)),
  )

  Pushed-first :
      (n : Text) (ips : List IpAddr) (k k1 k' : K) (o : Option (List IpAddr))
      → exec_all exec (update_commands n ips) k ≡ some k1
      → o ≡ none
      → Pushed k1 k' n o
      → Holds member k' n ips
  Pushed-first n ips k k1 k' (some _) one fresh h = cc
  Pushed-first n ips k k1 k' none one fresh h = λ a.
      let (in_v4, in_v6, others) = update_members exec member laws n ips k k1 n a one in
      ((h a).0 ∙ in_v4, (h a).1 ∙ in_v6)

  Pushed-later :
      (k k1 k' : K) (name : Text) (o : Option (List IpAddr))
      → Same k k1 name
      → Pushed k1 k' name o
      → Pushed k k' name o
  Pushed-later k k1 k' name none same h = λ a. ((h a).0 ∙ (same a).0, (h a).1 ∙ (same a).1)
  Pushed-later k k1 k' name (some ips) same h = h

  IsApart-behind :
      (name n : Text) (ips : List IpAddr) (changed : Changed)
      → lookup n changed ≡ none
      → IsApart name ((n, ips) ∷ changed)
      → IsApart name changed
  IsApart-behind name n ips changed fresh apart m v h = elim (Bool-cases (m == n)) [
    | inl same ↦ absurd (ground (arith, fresh))
    | inr differ ↦ apart m v (lookup-cons m n ips changed ∙ rw differ h)
  ]

  differ_ne : (name n : Text) → (name == n) ≡ false → name ≢ n
  differ_ne name n differ s = absurd (ground (arith, (==_iff name n).1 s))

  pub push_all_lem :
      (changed : Changed) (k k' : K) (name : Text)
      → NodupKeys changed
      → IsApart name changed
      → push_all exec changed k ≡ some k'
      → Pushed k k' name (lookup name changed)
  unfolding push_all lookup
  push_all_lem [] k k' name u apart e =
      let same : k ≡ k' = cc e in
      λ a. (
        ap (λ t. member t name a) (sym same),
        ap (λ t. member t (ipv6_ipset_name name) a) (sym same),
      )
  push_all_lem ((n, ips) ∷ changed) k k' name (fresh, u) apart e =
      elim (Option-cases (exec_all exec (update_commands n ips) k)) [
        | inl stop ↦ absurd (cc (rw (stop, push_all) at e))
        | inr (k1, one) ↦
            let after =
              push_all_lem changed k1 k' name u (IsApart-behind name n ips changed fresh apart)
                (rw (one, push_all) at e) in
            elim (Bool-cases (name == n)) [
              | inl same ↦
                  let p : name ≡ n = (==_iff name n).0 same in
                  rw same (
                    subst (λ t. Holds member k' t ips) (sym p)
                      (Pushed-first n ips k k1 k' (lookup n changed) one fresh
                        (subst (λ t. Pushed k1 k' t (lookup t changed)) p after)))
              | inr differ ↦
                  let (p, q) = apart n ips (lookup-cons n n ips changed ∙ rw (==_refl n) refl) in
                  rw differ (
                    Pushed-later k k1 k' name (lookup name changed)
                      (update_others n ips k k1 name one (λ s. differ_ne name n differ s) p q)
                      after)
            ]
      ]
