-- ===== src/Trust/Search.antt =====
-- Which binaries are trusted, and which one a search finds.
use Prim.Native.Nat.{bit_and}
use mathlib.Core.Option.{some-injective}
use mathlib.Core.Path.{subst}
use dockerwall.Base.{
  ℕ, ◌+◌, ◌*◌, ◌/◌, ◌%◌, ◌≡◌, ◌↔◌, refl, ap, ◌∙◌, true, false, Option, none, some, List, [], ◌∷◌,
  ◌++◌, arith, All, Bool-cases, inl, inr,
}
use dockerwall.Base.Bits.{and_digit, and-ones}
use dockerwall.Text.{Text}
use dockerwall.Host.{Metadata, Host}
use dockerwall.Trust.{is_trusted, is_trusted_binary, first_trusted}

-- The bits of the mask 0o022: a member of the group may write, and anybody may.
write_bits : (mode : ℕ) → bit_and mode 0o022 ≡ mode / 16 % 2 * 16 + mode / 2 % 2 * 2
write_bits mode =
    let s1 : bit_and mode 18 ≡ bit_and (mode / 2) 9 * 2 + 0 = and_digit mode 18 ∙ omega arith in
    let s2 : bit_and (mode / 2) 9 ≡ bit_and (mode / 2 / 2) 4 * 2 + mode / 2 % 2 =
      and_digit (mode / 2) 9 ∙ omega arith in
    let s3 : bit_and (mode / 2 / 2) 4 ≡ bit_and (mode / 2 / 2 / 2) 2 * 2 =
      and_digit (mode / 2 / 2) 4 ∙ omega arith in
    let s4 : bit_and (mode / 2 / 2 / 2) 2 ≡ bit_and (mode / 2 / 2 / 2 / 2) 1 * 2 =
      and_digit (mode / 2 / 2 / 2) 2 ∙ omega arith in
    let s5 : bit_and (mode / 2 / 2 / 2 / 2) 1 ≡ mode / 2 / 2 / 2 / 2 % 2 =
      and-ones 1 (mode / 2 / 2 / 2 / 2) in
    omega (arith, s1, s2, s3, s4, s5)

-- What `is_trusted_binary` promises: a file of root that neither its group nor anybody else may
-- write to.
pub record IsTrusted (m : Metadata) : Type 0 where
  pub file : m.is_file ≡ true
  pub owned_by_root : m.uid ≡ 0
  pub group_cannot_write : m.mode / 16 % 2 ≡ 0
  pub others_cannot_write : m.mode / 2 % 2 ≡ 0

-- A path is trusted exactly when there is something at it that is a regular file, belongs to root
-- and is writable by neither group nor others.
is_trusted_iff :
    (o : Option Metadata) → (is_trusted o ≡ true) ↔ ((m : Metadata) × (o ≡ some m) × IsTrusted m)
unfolding is_trusted
is_trusted_iff none = (λ h. cc, λ (m, e, t). cc)
is_trusted_iff (some m) =
    (λ h. (m, refl, ground (arith, write_bits m.mode)), λ (n, e, t). trusted_again n e t)
  where
    trusted_again : (n : Metadata) → some m ≡ some n → IsTrusted n → is_trusted (some m) ≡ true
    trusted_again n e t = ap is_trusted e ∙ ground (arith, write_bits n.mode)

module _ (H : Host) where
  -- What stands at a path is a file of root that nobody else may write to.
  abbrev pub HasTrusted : Text → H.World → Type 0
  HasTrusted path w = (m : Metadata) × (H.metadata path w ≡ some m) × IsTrusted m

  is_trusted_binary_iff :
      (path : Text) (w : H.World) → (is_trusted_binary H path w ≡ true) ↔ HasTrusted path w
  unfolding is_trusted_binary
  is_trusted_binary_iff path w = is_trusted_iff (H.metadata path w)

  -- A search that finds a candidate has found the first one of the list at which there is a regular
  -- file that belongs to root and that neither its group nor others may write to.
  pub first_trusted-some :
      (candidates : List Text) (w : H.World) {c : Text}
      → first_trusted H candidates w ≡ some c
      → (before : List Text) × (behind : List Text) × (candidates ≡ before ++ (c ∷ behind))
        × HasTrusted c w
        × All (λ b. ¬ HasTrusted b w) before
  unfolding first_trusted
  first_trusted-some [] w h = cc
  first_trusted-some (b ∷ candidates) w {c} h = elim (Bool-cases (is_trusted_binary H b w)) [
    | inl good ↦
        let same : some b ≡ some c = rw (good, first_trusted) at h in
        let here : b ≡ c = some-injective _ _ same in
        (
          [],
          candidates,
          ap (λ p. p ∷ candidates) here,
          subst (λ p. HasTrusted p w) here ((is_trusted_binary_iff b w).0 good),
          tt,
        )
    | inr bad ↦
        let (before, behind, e, good, all) =
          first_trusted-some candidates w {c = c} (ground arith) in
        (
          b ∷ before,
          behind,
          ap (◌∷◌ b) e,
          good,
          ((λ t. absurd (cc ((is_trusted_binary_iff b w).1 t, bad))), all),
        )
  ]

  pub first_trusted-none_iff :
      (candidates : List Text) (w : H.World)
      → (first_trusted H candidates w ≡ none)
        ↔ All (λ b. is_trusted_binary H b w ≡ false) candidates
  unfolding first_trusted
  first_trusted-none_iff [] w = (λ _. tt, λ _. refl)
  first_trusted-none_iff (b ∷ candidates) w = ground (arith, first_trusted-none_iff candidates w)
