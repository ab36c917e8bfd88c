-- ===== src/Text/Decimal.antt =====
-- Decimal numbers: `to_string` and `parse` at the unsigned machine types.
use dockerwall.Base.{
  ℕ, zero, suc, ◌+◌, ◌-◌, ◌*◌, ◌/◌, ◌%◌, ◌≤◌, ◌<◌, ◌≡◌, refl, sym, ap, ◌∙◌, ◌≢◌, Bool, true, false,
  ◌&&◌, Option, none, some, [], ◌∷◌, ◌++◌, arith, all, all-append, leb, ltb, eqb, if◌then◌else◌,
  Bool-cases, Option-cases, and_true, eqb_iff, ltb→lt, inl, inr,
}
use dockerwall.Text.{Text, codes, free}

unfoldable pub is_digit : ℕ → Bool
is_digit c = leb 48 c && leb c 57

-- The digits of `n`, with fuel above `n`.
unfoldable pub digits_of : ℕ → ℕ → Text
digits_of zero n = []
digits_of (suc f) n =
    let front = digits_of f (n / 10) in
    let last : ℕ = 48 + n % 10 in if ltb n 10 then last ∷ [] else front ++ (last ∷ [])

-- `Display` of an unsigned number.
unfoldable pub to_decimal : ℕ → Text
unfolding digits_of
to_decimal n = digits_of (suc n) n

-- One digit behind the number read so far, with a check for overflow past `max`.
unfoldable pub push_digit : ℕ → ℕ → ℕ → Option ℕ
unfolding is_digit
push_digit max acc c =
    if is_digit c
    then (let v : ℕ = acc * 10 + (c - 48) in if leb v max then some v else none)
    else none

unfoldable pub parse_digits : ℕ → ℕ → Text → Option ℕ
parse_digits max acc [] = some acc
parse_digits max acc (c ∷ s) = elim (push_digit max acc c) [
  | none ↦ none
  | some v ↦ parse_digits max v s
]

-- `from_str_radix` at 10: no digits is an error, and one plus sign in front of them is not.
unfoldable pub parse_uint : ℕ → Text → Option ℕ
unfolding parse_digits
parse_uint max [] = none
parse_uint max (c ∷ []) = if eqb c b'+' then none else parse_digits max 0 (c ∷ [])
parse_uint max (c ∷ d ∷ s) =
    if eqb c b'+' then parse_digits max 0 (d ∷ s) else parse_digits max 0 (c ∷ d ∷ s)

-- The message of `ParseIntError` for digits that do not parse, behind the number read so far.
unfoldable pub digits_error : ℕ → ℕ → Text → Text
unfolding is_digit push_digit
digits_error max acc [] = []
digits_error max acc (c ∷ s) =
    if is_digit c
    then elim (push_digit max acc c) [
      | none ↦ codes "number too large to fit in target type"
      | some v ↦ digits_error max v s
    ]
    else codes "invalid digit found in string"

-- The same for a text that `parse_uint` refuses.
unfoldable pub parse_uint_error : ℕ → Text → Text
unfolding digits_error
parse_uint_error max [] = codes "cannot parse integer from empty string"
parse_uint_error max (c ∷ []) = digits_error max 0 (c ∷ [])
parse_uint_error max (c ∷ d ∷ s) =
    if eqb c b'+' then digits_error max 0 (d ∷ s) else digits_error max 0 (c ∷ d ∷ s)

abbrev pub u8_max : ℕ
u8_max = 255

abbrev pub u16_max : ℕ
u16_max = 65535

abbrev pub u32_max : ℕ
u32_max = 4294967295

parse_digits-concat :
    (max : ℕ) (s : Text) (acc n c : ℕ)
    → parse_digits max acc s ≡ some n
    → parse_digits max acc (s ++ (c ∷ [])) ≡ push_digit max n c
unfolding parse_digits
parse_digits-concat max [] acc n c h = ground arith
parse_digits-concat max (d ∷ s) acc n c h = elim (Option-cases (push_digit max acc d)) [
  | inl bad ↦ absurd (ground arith)
  | inr (v, e) ↦ ground (arith, parse_digits-concat max s v n c)
]

push_digit_lem : (max n : ℕ) → n ≤ max → push_digit max (n / 10) (48 + n % 10) ≡ some n
unfolding push_digit is_digit
push_digit_lem max n h = ground arith

parse_one_digit : (max n : ℕ) → n < 10 → n ≤ max → parse_digits max 0 ((48 + n % 10) ∷ []) ≡ some n
unfolding parse_digits push_digit is_digit
parse_one_digit max n lt k = ground arith

digits_of-parse : (max f n : ℕ) → n < f → n ≤ max → parse_digits max 0 (digits_of f n) ≡ some n
unfolding digits_of
digits_of-parse max zero n h k = elim h [ ]
digits_of-parse max (suc f) n h k = elim (Bool-cases (ltb n 10)) [
  | inl one ↦ rw one (parse_one_digit max n (ltb→lt n 10 one) k)
  | inr more ↦ rw more (
      parse_digits-concat max (digits_of f (n / 10)) 0 (n / 10) (48 + n % 10)
        (digits_of-parse max f (n / 10) (ground arith) (omega arith))
      ∙ push_digit_lem max n k)
]

to_decimal-parse : (max n : ℕ) → n ≤ max → parse_digits max 0 (to_decimal n) ≡ some n
unfolding to_decimal
to_decimal-parse max n h = digits_of-parse max (suc n) n (omega arith) h

last_digit : (n : ℕ) → all is_digit ((48 + n % 10) ∷ []) ≡ true
unfolding is_digit
last_digit n = ground arith

pub digits_of-all_digits : (f n : ℕ) → all is_digit (digits_of f n) ≡ true
unfolding digits_of
digits_of-all_digits zero n = refl
digits_of-all_digits (suc f) n = elim (Bool-cases (ltb n 10)) [
  | inl one ↦ rw one (last_digit n)
  | inr more ↦
      rw more (rw all-append (ground (arith, digits_of-all_digits f (n / 10), last_digit n)))
]

pub to_decimal-all_digits : (n : ℕ) → all is_digit (to_decimal n) ≡ true
unfolding to_decimal
to_decimal-all_digits n = digits_of-all_digits (suc n) n

parse_uint_digits :
    (max : ℕ) (s : Text) → s ≢ [] → all is_digit s ≡ true → parse_uint max s ≡ parse_digits max 0 s
unfolding parse_uint is_digit
parse_uint_digits max [] ne h = absurd (ne refl)
parse_uint_digits max (c ∷ []) ne h = ground arith
parse_uint_digits max (c ∷ d ∷ s) ne h = ground arith

concat-ne-nil : (s : Text) (c : ℕ) → s ++ (c ∷ []) ≢ []
concat-ne-nil [] c h = cc
concat-ne-nil (d ∷ s) c h = cc

pub to_decimal-ne-nil : (n : ℕ) → to_decimal n ≢ []
unfolding to_decimal
to_decimal-ne-nil n h = ground (arith, concat-ne-nil (digits_of n (n / 10)) (48 + n % 10))

pub parse_uint-to_decimal : (max n : ℕ) → n ≤ max → parse_uint max (to_decimal n) ≡ some n
parse_uint-to_decimal max n h =
    parse_uint_digits max (to_decimal n) (to_decimal-ne-nil n) (to_decimal-all_digits n)
    ∙ to_decimal-parse max n h

parse_digits-le :
    (max acc : ℕ) (s : Text) {n : ℕ} → acc ≤ max → parse_digits max acc s ≡ some n → n ≤ max
unfolding parse_digits push_digit
parse_digits-le max acc [] h e = ground arith
parse_digits-le max acc (c ∷ s) {n} h e =
    ground (arith, parse_digits-le max (acc * 10 + (c - 48)) s {n = n})

-- What is parsed at a machine type is in its range.
pub parse_uint-le : (max : ℕ) (s : Text) {n : ℕ} → parse_uint max s ≡ some n → n ≤ max
unfolding parse_uint
parse_uint-le max [] e = cc
parse_uint-le max (c ∷ []) {n} e =
    ground (arith, parse_digits-le max 0 (c ∷ []) {n = n} (omega arith))
parse_uint-le max (c ∷ d ∷ s) {n} e = ground (
  arith,
  parse_digits-le max 0 (d ∷ s) {n = n} (omega arith),
  parse_digits-le max 0 (c ∷ d ∷ s) {n = n} (omega arith),
)

true-ne-false : ◌≢◌ {A = Bool} true false
true-ne-false h = cc

free_digits : (c : ℕ) (s : Text) → is_digit c ≡ false → all is_digit s ≡ true → free c s ≡ true
free_digits c [] h a = refl
free_digits c (d ∷ s) h a = elim (Bool-cases (eqb d c)) [
  | inl same ↦ absurd (
      true-ne-false (
        sym ((and_true (is_digit d) (all is_digit s) a).0)
        ∙ ap is_digit ((eqb_iff d c).0 same)
        ∙ h))
  | inr differ ↦ ground (arith, free_digits c s)
]

-- A number holds no character but digits.
pub free-to_decimal : (c n : ℕ) → is_digit c ≡ false → free c (to_decimal n) ≡ true
free-to_decimal c n h = free_digits c (to_decimal n) h (to_decimal-all_digits n)
