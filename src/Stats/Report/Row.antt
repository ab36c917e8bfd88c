-- ===== src/Stats/Report/Row.antt =====
-- What a row of the report shows: the columns, the verdict with its count, and the time.
use mathlib.Core.Path.{subst}
use dockerwall.Base.{
  ℕ, zero, suc, ◌+◌, ◌*◌, ◌<◌, ◌≤◌, ap, ◌∷◌, arith, ltb, ltb→lt, Bool-cases, ◌≡◌, inl, inr, refl,
  sym, ◌-◌, true, false, none, some, [], ◌++◌, list_eq, nat_eq, pair_eq, option_eq, length,
  Option-cases,
}
use dockerwall.Text.{Text, codes}
use dockerwall.Text.Decimal.{to_decimal}
use dockerwall.Net.{ip_eq}
use dockerwall.Stats.{StatEntry}
use dockerwall.Stats.Report.{pad_right, status_of, format_duration, blanks, nanos}
use dockerwall.Stats.Report.Duration.{IsUnit, format_duration_lem}

-- Blanks and nothing else.
abbrev pub IsBlank : Text → Type 0
IsBlank [] = Unit {0}
IsBlank (c ∷ s) = (c ≡ b' ') × IsBlank s

-- A word in a column of a width: the word, and as many blanks behind it as are missing.
pub record IsColumn (width : ℕ) (word column : Text) : Type 0 where
  pub gap : Text
  pub written : column ≡ word ++ gap
  pub blank : IsBlank gap
  pub fills : length gap ≡ width - length word

-- How long ago something was, in words: a whole number of the largest unit that it reaches.
pub record IsAgo (d : ℕ) (text : Text) : Type 0 where
  pub unit : ℕ
  pub letter : Text
  pub n : ℕ
  pub written : text ≡ to_decimal n ++ letter
  pub largest : IsUnit unit letter n
  pub reached : n * unit * nanos ≤ d
  pub rounded_down : d < (n + 1) * unit * nanos

-- The row of an entry: its domain, a status, and how long ago it was resolved last.
pub record IsRow (now : ℕ) (domain status : Text) (entry : StatEntry) (text : Text) : Type 0 where
  pub first : Text
  pub second : Text
  pub ago : Text
  pub written : text ≡ first ++ (codes " " ++ (second ++ (codes " " ++ (ago ++ codes "\n"))))
  pub has_domain : IsColumn 30 domain first
  pub has_status : IsColumn 10 status second
  pub has_ago : IsAgo (now - entry.last_seen) ago

-- The count of an entry with the sign of its verdict; nothing where it has no verdict or no count.
pub data IsVerdict (entry : StatEntry) : Text → Type 0 where
  allowed :
      entry.accepted ≡ some true
      → 0 < entry.count
      → IsVerdict entry (to_decimal entry.count ++ codes "✅ ")
  denied :
      entry.accepted ≡ some false
      → 0 < entry.count
      → IsVerdict entry (to_decimal entry.count ++ codes "❌ ")
  uncounted : entry.count ≡ 0 → IsVerdict entry []
  no_verdict : entry.accepted ≡ none → IsVerdict entry []

-- The row in the words of the code.
abbrev pub row : ℕ → Text → Text → StatEntry → Text
row now domain status entry =
    pad_right 30 domain
    ++ (codes " "
        ++ (pad_right 10 status
            ++ (codes " " ++ (format_duration (now - entry.last_seen) ++ codes "\n"))))

blanks-IsBlank : (n : ℕ) → IsBlank (blanks n)
unfolding blanks
blanks-IsBlank zero = tt
blanks-IsBlank (suc n) = (refl, blanks-IsBlank n)

length-blanks : (n : ℕ) → length (blanks n) ≡ n
unfolding blanks
length-blanks zero = refl
length-blanks (suc n) = ap suc (length-blanks n)

pad_right-IsColumn : (width : ℕ) (word : Text) → IsColumn width word (pad_right width word)
unfolding pad_right
pad_right-IsColumn width word = record {
  gap = blanks (width - length word);
  written = refl;
  blank = blanks-IsBlank (width - length word);
  fills = length-blanks (width - length word);
}

format_duration-IsAgo : (d : ℕ) → IsAgo d (format_duration d)
format_duration-IsAgo d =
    let (unit, letter, n, written, largest, reached, rounded_down) = format_duration_lem d in
    record {
      unit = unit;
      letter = letter;
      n = n;
      written = written;
      largest = largest;
      reached = reached;
      rounded_down = rounded_down;
    }

pub row-IsRow :
    (now : ℕ) (domain status : Text) (entry : StatEntry)
    → IsRow now domain status entry (row now domain status entry)
row-IsRow now domain status entry = record {
  first = pad_right 30 domain;
  second = pad_right 10 status;
  ago = format_duration (now - entry.last_seen);
  written = refl;
  has_domain = pad_right-IsColumn 30 domain;
  has_status = pad_right-IsColumn 10 status;
  has_ago = format_duration-IsAgo (now - entry.last_seen);
}

pub status_of-IsVerdict : (entry : StatEntry) → IsVerdict entry (status_of entry)
unfolding status_of
status_of-IsVerdict entry = elim (Option-cases entry.accepted) [
  | inl undecided ↦ shown (rw (undecided, status_of) refl) (no_verdict undecided)
  | inr (true, accepts) ↦ elim (Bool-cases (ltb 0 entry.count)) [
    | inl some_count ↦
        shown (rw (accepts, some_count, status_of) refl) (allowed accepts (ltb→lt _ _ some_count))
    | inr no_count ↦ shown (rw (accepts, no_count, status_of) refl) (uncounted (ground arith))
  ]
  | inr (false, refuses) ↦ elim (Bool-cases (ltb 0 entry.count)) [
    | inl some_count ↦
        shown (rw (refuses, some_count, status_of) refl) (denied refuses (ltb→lt _ _ some_count))
    | inr no_count ↦ shown (rw (refuses, no_count, status_of) refl) (uncounted (ground arith))
  ]
]
  where
    shown :
        {text : Text}
        → status_of entry ≡ text
        → IsVerdict entry text
        → IsVerdict entry (status_of entry)
    shown e v = subst (IsVerdict entry) (sym e) v
