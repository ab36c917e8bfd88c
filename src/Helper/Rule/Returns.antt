-- ===== src/Helper/Rule/Returns.antt =====
-- Why the removal of rules ends, and that what ensures them returns.
use dockerwall.Base.{
  ℕ, zero, suc, ◌<◌, ◌≡◌, refl, ◌∙◌, true, Option, some, List, [], ◌∷◌, All, Bool-cases, inl, inr,
  arith,
}
use dockerwall.Text.{Text}
use dockerwall.Host.{Host, Output}
use dockerwall.Result.{Result, ok, err, Loop, ◌>>?◌}
use dockerwall.Helper.Command.{run_command_allow_failure}
use dockerwall.Helper.Rule.{
  delete_args, remove_rule_all, insert_rule, ensure_rule_present, ensure_rules,
}
use dockerwall.Helper.Rule.Once.{remove_again, remove_ends, remove_fails}

-- A deletion that succeeds takes a rule away.
abbrev pub Shrinks : (H : Host) → (H.World → ℕ) → List Text → Type 0
Shrinks H rules rule =
    (binary : Text) (w w' : H.World) (output : Output)
    → run_command_allow_failure H binary (delete_args rule) w ≡ (ok output, w')
    → output.success ≡ true
    → rules w' < rules w

abbrev pub Returns : {W A : Type 0} → Option (Result A × W) → Type 0
Returns {W} {A} o = (r : Result A) × (w : W) × (o ≡ some (r, w))

pub >>?-Returns :
    {W A B : Type 0} (m : Loop W A) (f : A → Loop W B) (w : W)
    → Returns (m w)
    → ((a : A) (v : W) → Returns (f a v))
    → Returns ((m >>? f) w)
>>?-Returns m f w (err message, v, e) g = (err message, v, rw e refl)
>>?-Returns m f w (ok a, v, e) g = let (r, v', e') = g a v in (r, v', rw e e')

module _ (H : Host) (rules : H.World → ℕ) where
  after_run :
      (fuel : ℕ) (binary : Text) (args : List Text) (w : H.World) (t : Result Output × H.World)
      → run_command_allow_failure H binary args w ≡ t
      → ((v : H.World) (output : Output)
          → run_command_allow_failure H binary args w ≡ (ok output, v)
          → output.success ≡ true
          → Returns (remove_rule_all H fuel binary args v))
      → Returns (remove_rule_all H (suc fuel) binary args w)
  after_run fuel binary args w (err message, v) e rest =
      (err message, v, remove_fails H binary args fuel w v message e)
  after_run fuel binary args w (ok output, v) e rest = elim (Bool-cases output.success) [
    | inl deleted ↦
        let (r, v', done) = rest v output e deleted in
        (r, v', remove_again H binary args fuel w v output e deleted ∙ done)
    | inr absent ↦ (ok tt, v, remove_ends H binary args fuel w v output e absent)
  ]

  remove_rule_all-Returns :
      (fuel : ℕ) (binary : Text) (rule : List Text) (w : H.World)
      → Shrinks H rules rule
      → rules w < fuel
      → Returns (remove_rule_all H fuel binary (delete_args rule) w)
  remove_rule_all-Returns zero binary rule w s h = absurd (omega arith)
  remove_rule_all-Returns (suc fuel) binary rule w s h =
      after_run fuel binary (delete_args rule) w _ refl (λ v output e fine.
        remove_rule_all-Returns fuel binary rule v s (omega (arith, s binary w v output e fine)))

module _ (H : Host) (fuel : ℕ) (rules : H.World → ℕ)
    (bounded : (w : H.World) → rules w < fuel) where
  ensure_rule_present-Returns :
      (binary : Text) (rule : List Text) (w : H.World)
      → Shrinks H rules rule
      → Returns (ensure_rule_present H fuel binary rule w)
  unfolding ensure_rule_present
  ensure_rule_present-Returns binary rule w s =
      let (r, v, removed) = remove_rule_all-Returns H rules fuel binary rule w s (bounded w) in
      let inserted = insert_rule H binary rule (r, v) in
      (inserted.0, inserted.1, rw (removed, ensure_rule_present) refl)

  pub ensure_rules-Returns :
      (binary : Text) (chain : List (List Text)) (w : H.World)
      → All (Shrinks H rules) chain
      → Returns (ensure_rules H fuel binary chain w)
  unfolding ensure_rules
  ensure_rules-Returns binary [] w s = (ok tt, w, refl)
  ensure_rules-Returns binary (rule ∷ chain) w (s, ss) =
      >>?-Returns (ensure_rule_present H fuel binary rule) (λ _. ensure_rules H fuel binary chain) w
        (ensure_rule_present-Returns binary rule w s)
        (λ _ v. ensure_rules-Returns binary chain v ss)
