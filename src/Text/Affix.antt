-- ===== src/Text/Affix.antt =====
-- Prefixes and suffixes of texts.
use dockerwall.Base.{
  ◌≡◌, refl, ap, inl, inr, true, some, [], ◌∷◌, ◌++◌, arith, eqb_refl, Bool-cases, Option-cases,
  ◌==◌, ==_iff, ==_refl, list_eq, nat_eq, or_true,
}
use dockerwall.Text.{Text, strip_prefix, starts_with, ends_with, strip_suffix}

pub strip_prefix-append : (p r : Text) → strip_prefix (p ++ r) p ≡ some r
unfolding strip_prefix
strip_prefix-append [] r = refl
strip_prefix-append (c ∷ p) r = rw (eqb_refl c) (strip_prefix-append p r)

pub strip_prefix-some : (s p : Text) {r : Text} → strip_prefix s p ≡ some r → s ≡ p ++ r
unfolding strip_prefix
strip_prefix-some s [] h = cc
strip_prefix-some [] (c ∷ p) h = cc
strip_prefix-some (d ∷ s) (c ∷ p) {r} h = ground (arith, strip_prefix-some s p {r = r})

pub starts_with-append : (p r : Text) → starts_with (p ++ r) p ≡ true
unfolding starts_with
starts_with-append [] r = refl
starts_with-append (c ∷ p) r = rw (eqb_refl c) (starts_with-append p r)

pub ends_with-append : (front t : Text) → ends_with (front ++ t) t ≡ true
unfolding ends_with
ends_with-append [] [] = ==_refl {A = Text} []
ends_with-append [] (c ∷ t) = rw (==_refl (c ∷ t))
ends_with-append (c ∷ front) t = ground (arith, ends_with-append front t)

pub ends_with-some : (s t : Text) → ends_with s t ≡ true → (front : Text) × (s ≡ front ++ t)
unfolding ends_with
ends_with-some [] t h = ([], (==_iff [] t).0 h)
ends_with-some (c ∷ s) t h = elim (or_true ((c ∷ s) == t) (ends_with s t) h) [
  | inl same ↦ ([], (==_iff (c ∷ s) t).0 same)
  | inr later ↦ let (front, e) = ends_with-some s t later in (c ∷ front, ap (◌∷◌ c) e)
]

pub strip_suffix-append : (r t : Text) → (rest : Text) × (strip_suffix (r ++ t) t ≡ some rest)
unfolding strip_suffix
strip_suffix-append [] [] = ([], rw (==_refl {A = Text} []))
strip_suffix-append [] (c ∷ t) = ([], rw (==_refl (c ∷ t)))
strip_suffix-append (c ∷ r) t = elim (Bool-cases ((c ∷ (r ++ t)) == t)) [
  | inl same ↦ ([], rw same)
  | inr differ ↦ let (rest, e) = strip_suffix-append r t in (c ∷ rest, rw (differ, e))
]

pub strip_suffix-some : (s t : Text) {r : Text} → strip_suffix s t ≡ some r → s ≡ r ++ t
unfolding strip_suffix
strip_suffix-some [] t {r} h = ground arith
strip_suffix-some (c ∷ s) t {r} h = elim (Bool-cases ((c ∷ s) == t)) [
  | inl same ↦ ground arith
  | inr differ ↦ elim (Option-cases (strip_suffix s t)) [
    | inl gone ↦ absurd (ground arith)
    | inr (q, e) ↦ ground (arith, strip_suffix-some s t e)
  ]
]
