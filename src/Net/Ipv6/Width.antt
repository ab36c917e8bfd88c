-- ===== src/Net/Ipv6/Width.antt =====
-- The addresses that `Ipv6Addr::from_str` reads have 128 bits.
use dockerwall.Base.{
  ℕ, zero, suc, ◌-◌, ◌^◌, ◌≤◌, ◌<◌, ◌≡◌, refl, ap, Bool, true, false, Option, none, some, List, [],
  ◌∷◌, ◌++◌, length, length-append, All, leb, leb→le, eqb, if◌then◌else◌, Bool-cases, Option-cases,
  inl, inr, arith,
}
use dockerwall.Text.{Text}
use dockerwall.Net.{of_segments}
use dockerwall.Net.Number.{read_number}
use dockerwall.Net.Ipv4.{whole}
use dockerwall.Net.Ipv6.{
  Groups, read_groups, read_group, read_separator, read_embedded, read_tail, read_gap, zeros,
  after_head, read_ipv6, parse_ipv6,
}

of_segments-lt :
    (xs : List ℕ) → length xs ≤ 8 → All (λ x. x < 65536) xs → of_segments 0 xs < 2 ^ 128
unfolding of_segments
of_segments-lt [] h a = omega arith
of_segments-lt (a0 ∷ []) h (b0, b) = omega arith
of_segments-lt (a0 ∷ a1 ∷ []) h (b0, (b1, b)) = omega arith
of_segments-lt (a0 ∷ a1 ∷ a2 ∷ []) h (b0, (b1, (b2, b))) = omega arith
of_segments-lt (a0 ∷ a1 ∷ a2 ∷ a3 ∷ []) h (b0, (b1, (b2, (b3, b)))) = omega arith
of_segments-lt (a0 ∷ a1 ∷ a2 ∷ a3 ∷ a4 ∷ []) h (b0, (b1, (b2, (b3, (b4, b))))) = omega arith
of_segments-lt (a0 ∷ a1 ∷ a2 ∷ a3 ∷ a4 ∷ a5 ∷ []) h (b0, (b1, (b2, (b3, (b4, (b5, b)))))) =
    omega arith
of_segments-lt (a0 ∷ a1 ∷ a2 ∷ a3 ∷ a4 ∷ a5 ∷ a6 ∷ []) h
      (b0, (b1, (b2, (b3, (b4, (b5, (b6, b))))))) =
    omega arith
of_segments-lt (a0 ∷ a1 ∷ a2 ∷ a3 ∷ a4 ∷ a5 ∷ a6 ∷ a7 ∷ []) h
      (b0, (b1, (b2, (b3, (b4, (b5, (b6, (b7, b)))))))) =
    omega arith
of_segments-lt (a0 ∷ a1 ∷ a2 ∷ a3 ∷ a4 ∷ a5 ∷ a6 ∷ a7 ∷ a8 ∷ xs) h b = absurd (omega arith)

read_number-le :
    (radix max_digits max : ℕ) (zero_prefix : Bool) (s : Text) {n : ℕ} {rest : Text}
    → read_number radix max_digits max zero_prefix s ≡ some (n, rest)
    → n ≤ max
unfolding read_number
read_number-le radix max_digits max zero_prefix s {n} h = ground arith

read_group-lt :
    (first : Bool) (s : Text) {x : ℕ} {rest : Text}
    → read_group first s ≡ some (x, rest)
    → x < 65536
unfolding read_group
read_group-lt first s {x} {rest} h = elim (Option-cases (read_separator first s)) [
  | inl bare ↦ absurd (cc (rw (bare, read_group) at h))
  | inr (behind, e) ↦
      omega (
        arith,
        read_number-le 16 4 65535 true behind {n = x} {rest = rest} (rw (e, read_group) at h),
      )
]

-- At most `left` groups, all of 16 bits.
abbrev AreGroups : ℕ → Groups → Type 0
AreGroups left g = (length g.groups ≤ left) × All (λ x. x < 65536) g.groups

abbrev embedded : ℕ → Bool → Text → Option (ℕ × Text)
embedded left first s = if leb 1 left then read_embedded first s else none

by_group :
    (left : ℕ) (first : Bool) (s : Text) (o : Option (ℕ × Text))
    → read_group first s ≡ o
    → embedded left first s ≡ none
    → ((rest : Text) → AreGroups left (read_groups left false rest))
    → AreGroups (suc left) (read_groups (suc left) first s)
unfolding read_groups
by_group left first s none e n rec = rw (n, e, read_groups) (omega arith, tt)
by_group left first s (some (x, rest)) e n rec =
    rw (n, e, read_groups)
      (omega (arith, (rec rest).0), (read_group-lt first s {x = x} {rest = rest} e, (rec rest).1))

by_embedded :
    (left : ℕ) (first : Bool) (s : Text) (o : Option (ℕ × Text))
    → embedded left first s ≡ o
    → ((rest : Text) → AreGroups left (read_groups left false rest))
    → AreGroups (suc left) (read_groups (suc left) first s)
unfolding read_groups
by_embedded left first s none e rec = by_group left first s (read_group first s) refl e rec
by_embedded left first s (some (a, rest)) e rec = elim (Bool-cases (leb 1 left)) [
  | inl room ↦
      rw (e, read_groups) (omega (arith, leb→le 1 left room), (omega arith, (omega arith, tt)))
  | inr full ↦ absurd (cc (rw full at e))
]

read_groups-AreGroups :
    (left : ℕ) (first : Bool) (s : Text) → AreGroups left (read_groups left first s)
unfolding read_groups
read_groups-AreGroups zero first s = (omega arith, tt)
read_groups-AreGroups (suc left) first s =
    by_embedded left first s _ refl (λ rest. read_groups-AreGroups left false rest)

length-zeros : (n : ℕ) → length (zeros n) ≡ n
length-zeros zero = refl
length-zeros (suc n) = ap suc (length-zeros n)

zeros_small : (n : ℕ) → All (λ x. x < 65536) (zeros n)
zeros_small zero = tt
zeros_small (suc n) = (omega arith, zeros_small n)

All-append :
    (xs ys : List ℕ)
    → All (λ x. x < 65536) xs
    → All (λ x. x < 65536) ys
    → All (λ x. x < 65536) (xs ++ ys)
All-append [] ys a b = b
All-append (x ∷ xs) ys (p, a) b = (p, All-append xs ys a b)

abbrev IsNarrow : Option (ℕ × Text) → Type 0
IsNarrow none = Unit
IsNarrow (some (a, rest)) = a < 2 ^ 128

read_tail-IsNarrow :
    (head : List ℕ) (s : Text)
    → length head ≤ 7
    → All (λ x. x < 65536) head
    → IsNarrow (read_tail head s)
unfolding read_tail
read_tail-IsNarrow head s h a = elim (Option-cases (read_gap s)) [
  | inl no_gap ↦ rw (no_gap, read_tail) tt
  | inr (rest, e) ↦
      let (few, small) = read_groups-AreGroups (7 - length head) true rest in
      let tail = read_groups (7 - length head) true rest in
      let gap : ℕ = 8 - length head - length tail.groups in
      rw (e, read_tail)
        (of_segments-lt (head ++ (zeros gap ++ tail.groups))
          (omega (
            arith,
            length-append head (zeros gap ++ tail.groups),
            length-append (zeros gap) tail.groups,
            length-zeros gap,
          ))
          (All-append head (zeros gap ++ tail.groups) a
            (All-append (zeros gap) tail.groups (zeros_small gap) small)))
]

after_head-IsNarrow : (head : Groups) → AreGroups 8 head → IsNarrow (after_head head)
unfolding after_head
after_head-IsNarrow head (few, small) = elim (Bool-cases (eqb (length head.groups) 8)) [
  | inl full ↦ rw (full) (of_segments-lt head.groups few small)
  | inr more ↦ rw more (by_rest head.has_ipv4 (ground arith))
]
  where
    by_rest :
        (b : Bool)
        → length head.groups ≤ 7
        → IsNarrow (if b then none else read_tail head.groups head.rest)
    by_rest true fewer = tt
    by_rest false fewer = read_tail-IsNarrow head.groups head.rest fewer small

read_ipv6-IsNarrow : (s : Text) → IsNarrow (read_ipv6 s)
unfolding read_ipv6
read_ipv6-IsNarrow s = after_head-IsNarrow (read_groups 8 true s) (read_groups-AreGroups 8 true s)

whole-lt : (o : Option (ℕ × Text)) {ip : ℕ} → IsNarrow o → whole o ≡ some ip → ip < 2 ^ 128
whole-lt none n h = absurd (cc h)
whole-lt (some (a, [])) {ip} n h = let same : a ≡ ip = cc h in omega (arith, same)
whole-lt (some (a, c ∷ rest)) n h = absurd (cc h)

-- Every address that is read has 128 bits.
pub parse_ipv6-lt : (s : Text) {ip : ℕ} → parse_ipv6 s ≡ some ip → ip < 2 ^ 128
unfolding parse_ipv6
parse_ipv6-lt s {ip} h = whole-lt (read_ipv6 s) {ip = ip} (read_ipv6-IsNarrow s) h
