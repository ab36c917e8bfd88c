-- ===== src/Text/Trim.antt =====
-- Trimming and lower case.
use dockerwall.Base.{ℕ, ◌≡◌, refl, ap, Bool, true, not, [], ◌∷◌, ◌++◌, arith, all}
use dockerwall.Text.{
  Text, trim_onto, trim_end_matches, trim_start_matches, trim, is_whitespace, to_lower,
  to_ascii_lowercase,
}

-- No character is of the class.
abbrev pub none_of : (ℕ → Bool) → Text → Bool
none_of p = all (λ c. not (p c))

pub trim_end_matches_clean :
    (p : ℕ → Bool) (s : Text) → none_of p s ≡ true → trim_end_matches p s ≡ s
unfolding trim_end_matches
trim_end_matches_clean p [] h = refl
trim_end_matches_clean p (c ∷ []) h = ground arith
trim_end_matches_clean p (c ∷ d ∷ s) h = ground (arith, trim_end_matches_clean p (d ∷ s))

trim_onto_idem :
    (p : ℕ → Bool) (c : ℕ) (s : Text)
    → trim_end_matches p s ≡ s
    → trim_end_matches p (trim_onto p c s) ≡ trim_onto p c s
unfolding trim_end_matches
trim_onto_idem p c [] h = ground arith
trim_onto_idem p c (d ∷ s) h = rw h

pub trim_end_matches_idem :
    (p : ℕ → Bool) (s : Text) → trim_end_matches p (trim_end_matches p s) ≡ trim_end_matches p s
unfolding trim_end_matches
trim_end_matches_idem p [] = refl
trim_end_matches_idem p (c ∷ s) =
    trim_onto_idem p c (trim_end_matches p s) (trim_end_matches_idem p s)

trim_start_matches_clean :
    (p : ℕ → Bool) (s : Text) → none_of p s ≡ true → trim_start_matches p s ≡ s
unfolding trim_start_matches
trim_start_matches_clean p [] h = refl
trim_start_matches_clean p (c ∷ s) h = ground arith

pub trim_clean : (s : Text) → none_of is_whitespace s ≡ true → trim s ≡ s
unfolding trim
trim_clean s h =
    rw (trim_start_matches_clean is_whitespace s h) (trim_end_matches_clean is_whitespace s h)

pub to_lower_idem : (c : ℕ) → to_lower (to_lower c) ≡ to_lower c
unfolding to_lower
to_lower_idem c = ground arith

pub to_ascii_lowercase_idem :
    (s : Text) → to_ascii_lowercase (to_ascii_lowercase s) ≡ to_ascii_lowercase s
unfolding to_ascii_lowercase
to_ascii_lowercase_idem [] = refl
to_ascii_lowercase_idem (c ∷ s) = cc (to_lower_idem c, to_ascii_lowercase_idem s)

-- A character of the class behind a text is trimmed off.
pub trim_end_matches-concat :
    (p : ℕ → Bool) (s : Text) (c : ℕ)
    → p c ≡ true
    → trim_end_matches p (s ++ (c ∷ [])) ≡ trim_end_matches p s
unfolding trim_end_matches
trim_end_matches-concat p [] c h = ground arith
trim_end_matches-concat p (d ∷ s) c h = ap (trim_onto p d) (trim_end_matches-concat p s c h)
