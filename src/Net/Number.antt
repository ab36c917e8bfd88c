-- ===== src/Net/Number.antt =====
-- `Parser::read_number` of `std::net`: digits at the front of a text, with what follows them.
use dockerwall.Base.{
  ℕ, ◌+◌, ◌-◌, ◌*◌, ◌≡◌, refl, Bool, false, not, ◌&&◌, ◌||◌, Option, none, some, List, [], ◌∷◌,
  ◌++◌, arith, leb, ltb, eqb, if◌then◌else◌, length, is_empty, Option-cases, inl, inr,
}
use dockerwall.Text.{Text}

-- `char::to_digit` at a radix of 10 or 16.
unfoldable pub to_digit : ℕ → ℕ → Option ℕ
to_digit radix c =
    if leb 48 c && leb c 57
    then some (c - 48)
    else if leb 11 radix && leb 97 c && leb c 102
    then some (c - 87)
    else if leb 11 radix && leb 65 c && leb c 70
    then some (c - 55)
    else none

-- The digits in front, and the rest of the text.
unfoldable pub span_digits : ℕ → Text → List ℕ × Text
span_digits radix [] = ([], [])
span_digits radix (c ∷ s) =
    let (w, rest) = span_digits radix s in
    elim (to_digit radix c) [ none ↦ ([], c ∷ s) | some d ↦ (d ∷ w, rest) ]

abbrev pub value_onto : ℕ → ℕ → List ℕ → ℕ
value_onto radix acc [] = acc
value_onto radix acc (d ∷ w) = value_onto radix (acc * radix + d) w

abbrev pub leads_with_zero : List ℕ → Bool
leads_with_zero [] = false
leads_with_zero (d ∷ w) = eqb d 0 && not (is_empty w)

-- At least one digit and at most `max_digits`, of a value that the type holds; a zero in front of
-- other digits only if it is allowed.
unfoldable pub read_number : ℕ → ℕ → ℕ → Bool → Text → Option (ℕ × Text)
read_number radix max_digits max zero_prefix s =
    let (w, rest) = span_digits radix s in
    if is_empty w
      || ltb max_digits (length w)
      || not zero_prefix && leads_with_zero w
      || ltb max (value_onto radix 0 w)
    then none
    else some (value_onto radix 0 w, rest)

-- The text does not begin with a digit.
abbrev pub EndsNumber : ℕ → Text → Type 0
EndsNumber radix [] = Unit {0}
EndsNumber radix (c ∷ s) = to_digit radix c ≡ none

span_digits_stop :
    (radix : ℕ) (rest : Text) → EndsNumber radix rest → span_digits radix rest ≡ ([], rest)
unfolding span_digits
span_digits_stop radix [] h = refl
span_digits_stop radix (c ∷ s) h = ground arith

-- The digits of a text that is digits only are followed by whatever stands behind them.
pub span_digits-append :
    (radix : ℕ) (s rest : Text) {w : List ℕ}
    → EndsNumber radix rest
    → span_digits radix s ≡ (w, [])
    → span_digits radix (s ++ rest) ≡ (w, rest)
unfolding span_digits
span_digits-append radix [] rest {w} h e = ground (arith, span_digits_stop radix rest h)
span_digits-append radix (c ∷ s) rest {w} h e = elim (Option-cases (to_digit radix c)) [
  | inl stop ↦ absurd (ground arith)
  | inr (d, digit) ↦ ground (arith, span_digits-append radix s rest {w = (span_digits radix s).0} h)
]

-- A number that is read whole is read in front of any text that does not go on with a digit.
pub read_number-append :
    (radix max_digits max : ℕ) (zero_prefix : Bool) (s rest : Text) {n : ℕ}
    → EndsNumber radix rest
    → read_number radix max_digits max zero_prefix s ≡ some (n, [])
    → read_number radix max_digits max zero_prefix (s ++ rest) ≡ some (n, rest)
unfolding read_number
read_number-append radix max_digits max zero_prefix s rest {n} h e =
    ground (arith, span_digits-append radix s rest {w = (span_digits radix s).0} h)
