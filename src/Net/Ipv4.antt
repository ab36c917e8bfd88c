-- ===== src/Net/Ipv4.antt =====
-- `Ipv4Addr`: `Display` and `FromStr`.
use dockerwall.Base.{
  ℕ, suc, zero, ◌^◌, ◌<◌, ◌≡◌, refl, ap, ◌∙◌, sym, Bool, true, false, Option, none, some, [], ◌∷◌,
  ◌++◌, arith, append-nil, append_assoc, eqb, if◌then◌else◌,
}
use dockerwall.Text.{Text, free}
use dockerwall.Text.Split.{free-append}
use dockerwall.Text.Decimal.{to_decimal, is_digit, free-to_decimal}
use dockerwall.Net.Number.{read_number, span_digits, EndsNumber, read_number-append, to_digit}
use dockerwall.Net.{octet0, octet1, octet2, octet3, ipv4}

unfoldable pub display_ipv4 : ℕ → Text
display_ipv4 a =
    to_decimal (octet0 a)
    ++ (b'.'
        ∷ (to_decimal (octet1 a)
            ++ (b'.' ∷ (to_decimal (octet2 a) ++ (b'.' ∷ to_decimal (octet3 a))))))

-- `Parser::read_given_char`
unfoldable pub read_char : ℕ → Text → Option Text
read_char c [] = none
read_char c (d ∷ s) = if eqb d c then some s else none

-- `Parser::read_ipv4_addr`: four octets between dots.
unfoldable pub read_octet : Text → Option (ℕ × Text)
read_octet = read_number 10 3 255 false

-- The octet behind a dot.
unfoldable pub read_dot_octet : Text → Option (ℕ × Text)
read_dot_octet s = elim (read_char b'.' s) [ none ↦ none | some rest ↦ read_octet rest ]

unfoldable pub read_ipv4 : Text → Option (ℕ × Text)
read_ipv4 s0 = elim (read_octet s0) [
  | none ↦ none
  | some (a, s1) ↦ elim (read_dot_octet s1) [
    | none ↦ none
    | some (b, s2) ↦ elim (read_dot_octet s2) [
      | none ↦ none
      | some (c, s3) ↦ elim (read_dot_octet s3) [
        | none ↦ none
        | some (d, s4) ↦ some (ipv4 a b c d, s4)
      ]
    ]
  ]
]

-- What a parser reads must be the whole text.
abbrev pub whole : Option (ℕ × Text) → Option ℕ
whole none = none
whole (some (a, [])) = some a
whole (some (a, c ∷ s)) = none

-- `Ipv4Addr::from_str`
unfoldable pub parse_ipv4 : Text → Option ℕ
parse_ipv4 s = whole (read_ipv4 s)

-- Every octet is read back; the values are few enough to try them all.
reads_as : ℕ → Option (ℕ × Text) → Bool
reads_as o none = false
reads_as o (some (v, [])) = eqb v o
reads_as o (some (v, c ∷ s)) = false

reads_as_lem : (o : ℕ) (r : Option (ℕ × Text)) → reads_as o r ≡ true → r ≡ some (o, [])
unfolding reads_as
reads_as_lem o none h = cc
reads_as_lem o (some (v, [])) h = ground arith
reads_as_lem o (some (v, c ∷ s)) h = cc

-- The octets below `count` are read back.
octets_read : ℕ → Bool
octets_read zero = true
octets_read (suc count) =
    let others = octets_read count in
    if reads_as count (read_octet (to_decimal count)) then others else false

octet_read :
    (count octet : ℕ)
    → octet < count
    → octets_read count ≡ true
    → reads_as octet (read_octet (to_decimal octet)) ≡ true
unfolding octets_read
octet_read (suc count) octet below table = ground (arith, octet_read count octet)
octet_read zero octet below table = absurd (omega arith)

octet_table : octets_read 256 ≡ true
unfolding octets_read reads_as read_octet read_number span_digits to_digit to_decimal
octet_table = refl

read_octet-to_decimal : (o : ℕ) → o < 256 → read_octet (to_decimal o) ≡ some (o, [])
read_octet-to_decimal o h = reads_as_lem o _ (octet_read 256 o h octet_table)

read_octet-append :
    (o : ℕ) (rest : Text)
    → o < 256
    → EndsNumber 10 rest
    → read_octet (to_decimal o ++ rest) ≡ some (o, rest)
unfolding read_octet
read_octet-append o rest h e =
    read_number-append 10 3 255 false (to_decimal o) rest e (read_octet-to_decimal o h)

read_dot_octet-append :
    (o : ℕ) (rest : Text)
    → o < 256
    → EndsNumber 10 rest
    → read_dot_octet (b'.' ∷ (to_decimal o ++ rest)) ≡ some (o, rest)
unfolding read_dot_octet read_char
read_dot_octet-append o rest h e = read_octet-append o rest h e

-- The number is the sum of its octets.
ipv4_octets : (a : ℕ) → a < 2 ^ 32 → ipv4 (octet0 a) (octet1 a) (octet2 a) (octet3 a) ≡ a
ipv4_octets a h = omega arith

dot_ends : (s : Text) → EndsNumber 10 (b'.' ∷ s)
unfolding to_digit
dot_ends s = refl

-- `Display` and `FromStr` are inverse: an address is read back from its text in front of anything
-- that does not go on with a digit.
pub read_ipv4-display_ipv4 :
    (a : ℕ) (rest : Text)
    → a < 2 ^ 32
    → EndsNumber 10 rest
    → read_ipv4 (display_ipv4 a ++ rest) ≡ some (a, rest)
unfolding read_ipv4 display_ipv4
read_ipv4-display_ipv4 a rest h e =
    let t3 : Text = b'.' ∷ (to_decimal (octet3 a) ++ rest) in
    let t2 : Text = b'.' ∷ (to_decimal (octet2 a) ++ t3) in
    let t1 : Text = b'.' ∷ (to_decimal (octet1 a) ++ t2) in
    let spread : display_ipv4 a ++ rest ≡ to_decimal (octet0 a) ++ t1 = simp append_assoc in
    ap read_ipv4 spread
    ∙ ground (
      arith,
      read_octet-append (octet0 a) t1 (omega arith) (dot_ends _),
      read_dot_octet-append (octet1 a) t2 (omega arith) (dot_ends _),
      read_dot_octet-append (octet2 a) t3 (omega arith) (dot_ends _),
      read_dot_octet-append (octet3 a) rest (omega arith) e,
      ipv4_octets a h,
    )

pub parse_ipv4-display_ipv4 : (a : ℕ) → a < 2 ^ 32 → parse_ipv4 (display_ipv4 a) ≡ some a
unfolding parse_ipv4
parse_ipv4-display_ipv4 a h =
    ap (λ s. whole (read_ipv4 s)) (sym (append-nil (display_ipv4 a)))
    ∙ ap whole (read_ipv4-display_ipv4 a [] h tt)

-- An address holds no character but digits and dots.
pub free-display_ipv4 :
    (c a : ℕ) → is_digit c ≡ false → eqb b'.' c ≡ false → free c (display_ipv4 a) ≡ true
unfolding display_ipv4
free-display_ipv4 c a h dot =
    let onto = λ (o : ℕ) (s : Text) (f : free c s ≡ true).
      free-append c (to_decimal o) (b'.' ∷ s) (free-to_decimal c o h) (ground arith) in
    onto (octet0 a) _ (onto (octet1 a) _ (onto (octet2 a) _ (free-to_decimal c (octet3 a) h)))
