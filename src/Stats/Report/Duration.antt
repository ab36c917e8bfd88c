-- ===== src/Stats/Report/Duration.antt =====
-- `format_duration`: in which unit a duration is shown.
use dockerwall.Base.{
  ℕ, ◌+◌, ◌*◌, ◌/◌, ◌<◌, ◌≤◌, ◌≡◌, inl, inr, ◌++◌, arith, ltb, list_eq, nat_eq, pair_eq, option_eq,
  Bool-cases, ltb→lt,
}
use dockerwall.Text.{Text, codes}
use dockerwall.Text.Decimal.{to_decimal}
use dockerwall.Stats.Report.{nanos, format_duration}

-- The unit that a duration is shown in: its seconds, its letter, and how many there are before the
-- next unit takes over, if one does.
pub data IsUnit : ℕ → Text → ℕ → Type 0 where
  seconds : (n : ℕ) → n < 60 → IsUnit 1 (codes "s ago") n
  minutes : (n : ℕ) → 1 ≤ n → n < 60 → IsUnit 60 (codes "m ago") n
  hours : (n : ℕ) → 1 ≤ n → n < 24 → IsUnit 3600 (codes "h ago") n
  days : (n : ℕ) → 1 ≤ n → IsUnit 86400 (codes "d ago") n

-- A duration is shown as a whole number of the largest unit that it reaches, rounded down.
pub format_duration_lem :
    (d : ℕ)
    → (unit : ℕ) × (letter : Text) × (n : ℕ) × (format_duration d ≡ to_decimal n ++ letter)
      × IsUnit unit letter n
      × (n * unit * nanos ≤ d)
      × (d < (n + 1) * unit * nanos)
unfolding format_duration
format_duration_lem d =
    let secs = d / nanos in
    elim (Bool-cases (ltb secs 60)) [
      | inl s ↦
          (1, codes "s ago", secs, rw s, seconds secs (ltb→lt _ _ s), omega arith, omega arith)
      | inr not_s ↦ elim (Bool-cases (ltb secs 3600)) [
        | inl m ↦ (
          60,
          codes "m ago",
          secs / 60,
          rw (not_s, m),
          minutes (secs / 60) (ground arith) (ground arith),
          omega arith,
          omega arith,
        )
        | inr not_m ↦ elim (Bool-cases (ltb secs 86400)) [
          | inl h ↦ (
            3600,
            codes "h ago",
            secs / 3600,
            rw (not_s, not_m, h),
            hours (secs / 3600) (ground arith) (ground arith),
            omega arith,
            omega arith,
          )
          | inr not_h ↦ (
            86400,
            codes "d ago",
            secs / 86400,
            rw (not_s, not_m, not_h),
            days (secs / 86400) (ground arith),
            omega arith,
            omega arith,
          )
        ]
      ]
    ]
