-- ===== src/Net/Ipv6.antt =====
-- `Ipv6Addr`: `Display` and `FromStr`.
pub mod Width
use dockerwall.Base.{
  ℕ, suc, zero, ◌+◌, ◌/◌, ◌%◌, Bool, true, false, Option, none, some, List, [], ◌∷◌, ◌++◌, leb, ltb,
  eqb, if◌then◌else◌, length, ◌-◌,
}
use dockerwall.Text.{Text, codes, join}
use dockerwall.Net.Number.{read_number}
use dockerwall.Net.Ipv4.{read_ipv4, display_ipv4, whole, read_char}
use dockerwall.Net.{segments, of_segments, to_ipv4_mapped}
use mathlib.Core.List.{map}

abbrev hex_digit : ℕ → ℕ
hex_digit d = if ltb d 10 then 48 + d else 87 + d

hex_of : ℕ → ℕ → Text
hex_of zero n = []
hex_of (suc f) n =
    let front = hex_of f (n / 16) in
    let last : ℕ = hex_digit (n % 16) in if ltb n 16 then last ∷ [] else front ++ (last ∷ [])

-- `{:x}` of a segment.
unfoldable pub to_hex : ℕ → Text
unfolding hex_of
to_hex = hex_of 4

-- The first of the longest runs of zero segments.
pub record Span : Type 0 where
  pub start : ℕ
  pub len : ℕ

abbrev no_span : Span
no_span = record { start = 0; len = 0 }

abbrev extend_span : ℕ → Span → Span
extend_span i s = record { start = if eqb s.len 0 then i else s.start; len = s.len + 1 }

longest_from : ℕ → Span → Span → List ℕ → Span
longest_from i current longest [] = longest
longest_from i current longest (x ∷ xs) =
    let grown = extend_span i current in
    let current' = if eqb x 0 then grown else no_span in
    longest_from (i + 1) current' (if ltb longest.len current'.len then current' else longest) xs

unfoldable pub longest_zeros : List ℕ → Span
unfolding longest_from
longest_zeros = longest_from 0 no_span no_span

abbrev take : ℕ → List ℕ → List ℕ
take zero xs = []
take (suc n) [] = []
take (suc n) (x ∷ xs) = x ∷ take n xs

abbrev drop : ℕ → List ℕ → List ℕ
drop zero xs = xs
drop (suc n) [] = []
drop (suc n) (x ∷ xs) = drop n xs

-- `fmt_subslice`
unfoldable pub display_segments : List ℕ → Text
unfolding to_hex join
display_segments s = join (b':' ∷ []) (map to_hex s)

unfoldable pub display_ipv6 : ℕ → Text
unfolding longest_zeros display_segments segments to_ipv4_mapped
display_ipv6 a =
    let zeros = longest_zeros (segments a) in
    elim (to_ipv4_mapped a) [
      | some b ↦ codes "::ffff:" ++ display_ipv4 b
      | none ↦
          if ltb 1 zeros.len
          then display_segments (take zeros.start (segments a))
            ++ (codes "::" ++ display_segments (drop (zeros.start + zeros.len) (segments a)))
          else display_segments (segments a)
    ]

-- `Parser::read_separator`: a colon in front of every group but the first.
read_separator : Bool → Text → Option Text
read_separator true s = some s
read_separator false s = read_char b':' s

read_group : Bool → Text → Option (ℕ × Text)
unfolding read_separator
read_group first s = elim (read_separator first s) [
  | none ↦ none
  | some rest ↦ read_number 16 4 65535 true rest
]

read_embedded : Bool → Text → Option (ℕ × Text)
unfolding read_separator
read_embedded first s = elim (read_separator first s) [ none ↦ none | some rest ↦ read_ipv4 rest ]

-- The groups, whether they end in an IPv4 address, and what follows them.
pub record Groups : Type 0 where
  pub groups : List ℕ
  pub has_ipv4 : Bool
  pub rest : Text

abbrev cons_group : ℕ → Groups → Groups
cons_group x g = record g { groups = x ∷ g.groups }

-- `read_groups`, with room for `left` groups; an IPv4 address takes two.
unfoldable pub read_groups : ℕ → Bool → Text → Groups
unfolding read_group read_embedded
read_groups zero first s = record { groups = []; has_ipv4 = false; rest = s }
read_groups (suc left) first s = elim (if leb 1 left then read_embedded first s else none) [
  | some (a, rest) ↦ record {
    groups = a / 65536 % 65536 ∷ a % 65536 ∷ [];
    has_ipv4 = true;
    rest = rest;
  }
  | none ↦ elim (read_group first s) [
    | some (x, rest) ↦ cons_group x (read_groups left false rest)
    | none ↦ record { groups = []; has_ipv4 = false; rest = s }
  ]
]

abbrev zeros : ℕ → List ℕ
zeros zero = []
zeros (suc n) = 0 ∷ zeros n

read_gap : Text → Option Text
read_gap s = elim (read_char b':' s) [ none ↦ none | some rest ↦ read_char b':' rest ]

-- The groups before and behind `::`, with zeros between them.
read_tail : List ℕ → Text → Option (ℕ × Text)
unfolding read_gap read_groups of_segments
read_tail head s = elim (read_gap s) [
  | none ↦ none
  | some rest ↦
      let tail = read_groups (7 - length head) true rest in
      let gap = zeros (8 - length head - length tail.groups) in
      some (of_segments 0 (head ++ (gap ++ tail.groups)), tail.rest)
]

-- What follows the groups in front.
after_head : Groups → Option (ℕ × Text)
unfolding read_tail of_segments
after_head head =
    let later = read_tail head.groups head.rest in
    if eqb (length head.groups) 8
    then some (of_segments 0 head.groups, head.rest)
    else if head.has_ipv4
    then none
    else later

-- `Parser::read_ipv6_addr`
unfoldable pub read_ipv6 : Text → Option (ℕ × Text)
unfolding after_head read_groups
read_ipv6 s = after_head (read_groups 8 true s)

-- `Ipv6Addr::from_str`
unfoldable pub parse_ipv6 : Text → Option ℕ
unfolding read_ipv6
parse_ipv6 s = whole (read_ipv6 s)
