-- ===== src/Helper/Chain/Front.antt =====
-- A chain behind a list of rules that are ensured, each behind the one before it.
use dockerwall.Base.{
  ℕ, suc, ◌+◌, ◌≤◌, ◌≡◌, refl, sym, ap, ◌∙◌, true, false, some, List, [], ◌∷◌, ◌++◌, append_assoc,
  length, length-append, All, get_elem?, ◌==◌, ==_iff, option_eq, Bool-cases, inl, inr, contains,
  list_eq, nat_eq, arith,
}
use mathlib.Core.Option.{some-injective}
use dockerwall.Text.{Text}
use dockerwall.Text.Decimal.{u32_max}
use dockerwall.Host.{Host}
use dockerwall.Result.{ok, >>?-eq-ok}
use dockerwall.Helper.Rule.{delete_args, ensure_rule_present, ensure_rules}
use dockerwall.Helper.Chain.{Words, insertions, without, without_all, is_elsewhere, ChainLaws}
use dockerwall.Helper.Chain.Ensure.{ensured_front}
use dockerwall.Helper.Chain.Quiet.{quiet_lem}

-- Two rules have different words at some place.
abbrev pub Differs : Words → Words → Type 0
Differs a b = (i : ℕ) × ((get_elem? a i == get_elem? b i) ≡ false)

-- None of the rules stands in front of itself.
abbrev pub Fresh : List Words → List Words → Type 0
Fresh front [] = Unit
Fresh front (rule ∷ rules) = All (Differs rule) front × Fresh (front ++ (rule ∷ [])) rules

Differs-== : (a b : Words) → Differs a b → (a == b) ≡ false
Differs-== a b (i, h) = elim (Bool-cases (a == b)) [
  | inl same ↦
      let equal : get_elem? a i ≡ get_elem? b i = ap (λ t. get_elem? t i) ((==_iff a b).0 same) in
      absurd (cc ((==_iff (get_elem? a i) (get_elem? b i)).1 equal, h))
  | inr differs ↦ differs
]

All-contains :
    (rule : Words) (front : List Words) → All (Differs rule) front → contains front rule ≡ false
All-contains rule [] h = refl
All-contains rule (r ∷ front) (differs, h) =
    rw (Differs-== rule r differs) (All-contains rule front h)

-- The rule's insertion and its deletion leave the chain alone.
abbrev pub IsElsewhere : Text → Words → Type 0
IsElsewhere chain args =
    (is_elsewhere chain args ≡ true) × (is_elsewhere chain (delete_args args) ≡ true)

module _ (H : Host) (fuel : ℕ) (binary : Text) where
  ensure_rules-append :
      (rules more : List Words) (w w' : H.World)
      → ensure_rules H fuel binary (rules ++ more) w ≡ some (ok tt, w')
      → (v : H.World) × (ensure_rules H fuel binary rules w ≡ some (ok tt, v))
        × (ensure_rules H fuel binary more v ≡ some (ok tt, w'))
  unfolding ensure_rules
  ensure_rules-append [] more w w' h = (w, refl, h)
  ensure_rules-append (rule ∷ rules) more w w' h =
      let (_, u, one, rest) =
        >>?-eq-ok (ensure_rule_present H fuel binary rule)
          (λ _. ensure_rules H fuel binary (rules ++ more)) w h in
      let (v, left, right) = ensure_rules-append rules more u w' rest in (v, rw one left, right)

module _ (H : Host) (fuel : ℕ) (binary chain : Text) (table : H.World → List Words)
    (laws : ChainLaws H binary chain table) where
  insertions_lem :
      (front rules behind : List Words) (w w' : H.World)
      → length front + length rules ≤ u32_max
      → Fresh front rules
      → table w ≡ front ++ behind
      → ensure_rules H fuel binary (insertions chain (length front) rules) w ≡ some (ok tt, w')
      → table w' ≡ front ++ (rules ++ without_all rules behind)
  unfolding ensure_rules
  insertions_lem front [] behind w w' small fresh split h =
      ap table (sym (ap (λ t. t.1) (some-injective _ _ h))) ∙ split
  insertions_lem front (rule ∷ rules) behind w w' small (absent, fresh) split h =
      let (_, v, one, rest) =
        >>?-eq-ok (ensure_rule_present H fuel binary _)
          (λ _. ensure_rules H fuel binary (insertions chain (suc (length front)) rules)) w h in
      let put : table v ≡ front ++ (rule ∷ without rule behind) =
        ensured_front H binary chain table laws fuel front behind rule w v (omega arith)
          (All-contains rule front absent) split one in
      let longer : length (front ++ (rule ∷ [])) ≡ suc (length front) =
        omega (arith, length-append front (rule ∷ [])) in
      insertions_lem (front ++ (rule ∷ [])) rules (without rule behind) v w' (omega arith) fresh
        (put ∙ sym (append_assoc front (rule ∷ []) (without rule behind))) (rw longer rest)
      ∙ append_assoc front (rule ∷ []) (rules ++ without_all rules (without rule behind))

  elsewhere_lem :
      (rules : List Words) (w w' : H.World)
      → All (IsElsewhere chain) rules
      → ensure_rules H fuel binary rules w ≡ some (ok tt, w')
      → table w' ≡ table w
  elsewhere_lem = quiet_lem H binary table (λ args. is_elsewhere chain args ≡ true) laws.leaves fuel

  -- A whole list of rules, of which those in the middle go into the chain, from its first position.
  pub front_lem :
      (before rules others : List Words) (w w' : H.World)
      → All (IsElsewhere chain) before
      → Fresh [] rules
      → All (IsElsewhere chain) others
      → length rules ≤ u32_max
      → ensure_rules H fuel binary (before ++ (insertions chain 0 rules ++ others)) w
        ≡ some (ok tt, w')
      → table w' ≡ rules ++ without_all rules (table w)
  front_lem before rules others w w' quiet fresh silent small h =
      let (u, first, next) =
        ensure_rules-append H fuel binary before (insertions chain 0 rules ++ others) w w' h in
      let (v, front, behind) =
        ensure_rules-append H fuel binary (insertions chain 0 rules) others u w' next in
      elsewhere_lem others v w' silent behind
      ∙ insertions_lem [] rules (table u) u v (omega arith) fresh refl front
      ∙ ap (λ t. rules ++ without_all rules t) (elsewhere_lem before w u quiet first)
