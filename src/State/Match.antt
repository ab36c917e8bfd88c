-- ===== src/State/Match.antt =====
-- What a pattern admits, said without the code's tests.
use dockerwall.Base.{
  map, ◌≢◌, length, length-append, Bool-cases, ℕ, ◌≡◌, ◌↔◌, inl, inr, refl, sym, ap, ◌∙◌, Bool,
  true, false, ◌||◌, Option, none, some, [], ◌∷◌, ◌++◌, arith, eqb, ◌==◌, ==_iff, list_eq, nat_eq,
  or_true,
}
use mathlib.Core.List.{tail-eq_of_cons-eq}
use dockerwall.Text.{
  Text, codes, trim_end_matches, trim_onto, to_lower, to_ascii_lowercase, strip_prefix, ends_with,
}
use dockerwall.Text.Affix.{strip_prefix-append, strip_prefix-some, ends_with-append, ends_with-some}
use dockerwall.Text.Trim.{to_ascii_lowercase_idem, trim_end_matches_idem}
use dockerwall.State.{normalize_domain, domain_matches_pattern}

-- A name matches itself; `*.` in front of a suffix admits the suffix and every name below it, which
-- ends in a dot and the suffix.
pub data Matches : Text → Text → Type 0 where
  exact : {d p : Text} → d ≡ p → Matches d p
  apex : {d p : Text} (suffix : Text) → p ≡ codes "*." ++ suffix → d ≡ suffix → Matches d p
  below :
      {d p : Text} (front suffix : Text)
      → p ≡ codes "*." ++ suffix
      → d ≡ front ++ (b'.' ∷ suffix)
      → Matches d p

-- The tests of `domain_matches_pattern`, on names in normal form.
abbrev admits : Text → Text → Option Text → Bool
admits d p (some suffix) = d == suffix || ends_with d (b'.' ∷ suffix)
admits d p none = d == p

admits-Matches :
    (d p : Text) (o : Option Text)
    → strip_prefix p (codes "*.") ≡ o
    → admits d p o ≡ true
    → Matches d p
admits-Matches d p none e h = exact ((==_iff d p).0 h)
admits-Matches d p (some suffix) e h = elim (or_true (d == suffix) _ h) [
  | inl same ↦ apex suffix (strip_prefix-some p _ e) ((==_iff d suffix).0 same)
  | inr longer ↦
      let (front, split) = ends_with-some d (b'.' ∷ suffix) longer in
      below front suffix (strip_prefix-some p _ e) split
]

-- A pattern that begins with `*.` is stripped of it.
stripped :
    {p : Text} (suffix : Text) {o : Option Text}
    → p ≡ codes "*." ++ suffix
    → strip_prefix p (codes "*.") ≡ o
    → o ≡ some suffix
stripped suffix starts e =
    sym e ∙ ap (λ t. strip_prefix t (codes "*.")) starts ∙ strip_prefix-append (codes "*.") suffix

ends_below :
    {d : Text} (front suffix : Text)
    → d ≡ front ++ (b'.' ∷ suffix)
    → ends_with d (b'.' ∷ suffix) ≡ true
ends_below front suffix split = rw split (ends_with-append front (b'.' ∷ suffix))

Matches-admits :
    {d p : Text}
    → Matches d p
    → (o : Option Text) → strip_prefix p (codes "*.") ≡ o
    → admits d p o ≡ true
Matches-admits (exact same) none e = ground arith
Matches-admits {d} {p} (exact same) (some suffix) e =
    ground
      (arith, ends_below {d = d} (codes "*") suffix (same ∙ strip_prefix-some p (codes "*.") e))
Matches-admits {d} (apex suffix starts same) o e = rw (stripped suffix starts e) (ground arith)
Matches-admits {d} (below front suffix starts split) o e =
    rw (stripped suffix starts e) (ground (arith, ends_below {d = d} front suffix split))

-- The code's test holds exactly when the two names in normal form are equal, or the pattern is a
-- wildcard and the domain is its suffix or ends in a dot and the suffix.
pub domain_matches_pattern_iff :
    (domain pattern : Text)
    → (domain_matches_pattern domain pattern ≡ true)
      ↔ Matches (normalize_domain domain) (normalize_domain pattern)
unfolding domain_matches_pattern
domain_matches_pattern_iff domain pattern = (
  λ h. admits-Matches _ _ (strip_prefix (normalize_domain pattern) (codes "*.")) refl (h' h),
  λ m. back (Matches-admits m (strip_prefix (normalize_domain pattern) (codes "*.")) refl),
)
  where
    h' :
        domain_matches_pattern domain pattern ≡ true
        → admits
            (normalize_domain domain)
            (normalize_domain pattern)
            (strip_prefix (normalize_domain pattern) (codes "*."))
          ≡ true
    h' h = ground arith

    back :
        admits
            (normalize_domain domain)
            (normalize_domain pattern)
            (strip_prefix (normalize_domain pattern) (codes "*."))
          ≡ true
        → domain_matches_pattern domain pattern ≡ true
    back h = ground arith

-- Lower case neither makes a dot nor removes one.
dot-to_lower : (c : ℕ) → eqb (to_lower c) b'.' ≡ eqb c b'.'
unfolding to_lower
dot-to_lower c = ground arith

trim_onto-to_lower :
    (c : ℕ) (s : Text)
    → trim_onto (λ c. eqb c b'.') (to_lower c) (map to_lower s)
      ≡ map to_lower (trim_onto (λ c. eqb c b'.') c s)
trim_onto-to_lower c [] = ground (arith, dot-to_lower c)
trim_onto-to_lower c (d ∷ s) = refl

trim_dots-to_lower :
    (s : Text)
    → trim_end_matches (λ c. eqb c b'.') (map to_lower s)
      ≡ map to_lower (trim_end_matches (λ c. eqb c b'.') s)
unfolding trim_end_matches
trim_dots-to_lower [] = refl
trim_dots-to_lower (c ∷ s) =
    ap (trim_onto (λ c. eqb c b'.') (to_lower c)) (trim_dots-to_lower s)
    ∙ trim_onto-to_lower c (trim_end_matches (λ c. eqb c b'.') s)

trim_final_dot :
    (s : Text)
    → trim_end_matches (λ c. eqb c b'.') (s ++ (b'.' ∷ [])) ≡ trim_end_matches (λ c. eqb c b'.') s
unfolding trim_end_matches
trim_final_dot [] = refl
trim_final_dot (c ∷ s) = ap (trim_onto (λ c. eqb c b'.') c) (trim_final_dot s)

-- Neither a dot behind a name nor the case of its letters changes its normal form, and taking the
-- normal form twice is taking it once.
normalize_domain_laws :
    (s : Text)
    → (normalize_domain (s ++ (b'.' ∷ [])) ≡ normalize_domain s)
      × (normalize_domain (to_ascii_lowercase s) ≡ normalize_domain s)
      × (normalize_domain (normalize_domain s) ≡ normalize_domain s)
unfolding normalize_domain to_ascii_lowercase
normalize_domain_laws s =
    let dots = λ (c : ℕ). eqb c b'.' in
    let lower = λ (t : Text).
      map to_lower (trim_end_matches dots (map to_lower t))
      ≡ map to_lower (trim_end_matches dots t) in
    let same : (t : Text) → lower t = λ t.
      ap (map to_lower) (trim_dots-to_lower t)
      ∙ to_ascii_lowercase_idem (trim_end_matches dots t) in
    (
      ap (map to_lower) (trim_final_dot s),
      same s,
      same (trim_end_matches dots s) ∙ ap (map to_lower) (trim_end_matches_idem dots s),
    )

longer_tail : (g s : Text) (d : ℕ) → s ≢ g ++ (d ∷ s)
longer_tail g s d e = absurd (omega (arith, ap (λ t. length t) e, length-append g (d ∷ s)))

same_tail : (f g s : Text) (c d : ℕ) → f ++ (c ∷ s) ≡ g ++ (d ∷ s) → c ≡ d
same_tail [] [] s c d e = cc
same_tail [] (x ∷ g) s c d e = absurd (longer_tail g s d (tail-eq_of_cons-eq e))
same_tail (x ∷ f) [] s c d e = absurd (longer_tail f s c (sym (tail-eq_of_cons-eq e)))
same_tail (x ∷ f) (y ∷ g) s c d e = same_tail f g s c d (tail-eq_of_cons-eq e)

same_suffix : (s t : Text) → codes "*." ++ s ≡ codes "*." ++ t → s ≡ t
same_suffix s t e = tail-eq_of_cons-eq (tail-eq_of_cons-eq e)

not-Matches_lookalike :
    (front suffix : Text) (c : ℕ)
    → c ≢ b'.'
    → ¬ Matches (front ++ (c ∷ suffix)) (codes "*." ++ suffix)
not-Matches_lookalike front suffix c ne (exact e) = ne (same_tail front (codes "*") suffix c b'.' e)
not-Matches_lookalike front suffix c ne (apex s starts e) =
    longer_tail front suffix c (sym (e ∙ sym (same_suffix suffix s starts)))
not-Matches_lookalike front suffix c ne (below f s starts e) = ne (
    same_tail front f suffix c b'.'
      (e ∙ ap (λ t. f ++ (b'.' ∷ t)) (sym (same_suffix suffix s starts))))

-- A name in normal form that ends in the suffix of a wildcard in normal form, behind a character
-- that is no dot, is refused: `*.example.com` does not admit `evilexample.com`.
pub lookalike_refused :
    (front suffix : Text) (c : ℕ)
    → c ≢ b'.'
    → normalize_domain (front ++ (c ∷ suffix)) ≡ front ++ (c ∷ suffix)
    → normalize_domain (codes "*." ++ suffix) ≡ codes "*." ++ suffix
    → domain_matches_pattern (front ++ (c ∷ suffix)) (codes "*." ++ suffix) ≡ false
lookalike_refused front suffix c ne hd hp =
    elim (Bool-cases (domain_matches_pattern (front ++ (c ∷ suffix)) (codes "*." ++ suffix))) [
      | inr refused ↦ refused
      | inl admitted ↦ absurd (
          not-Matches_lookalike front suffix c ne
            (rw (hd, hp) at ((domain_matches_pattern_iff _ _).0 admitted)))
    ]
