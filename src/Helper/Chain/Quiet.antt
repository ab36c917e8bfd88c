-- ===== src/Helper/Chain/Quiet.antt =====
-- What commands that succeed leave alone of a host.
use mathlib.Core.Option.{some-injective}
use dockerwall.Base.{
  ℕ, ◌≡◌, sym, ap, ◌∙◌, some, List, [], ◌∷◌, All, if◌then◌else◌, Bool-cases, inl, inr,
}
use dockerwall.Text.{Text, codes}
use dockerwall.Host.{Host, Output}
use dockerwall.Result.{ok, pure, ◌>>=◌, >>=-eq-ok, >>?-eq-ok}
use dockerwall.Helper.Command.{run_command_allow_failure, ensure_chain, check_chain, existing_chain}
use dockerwall.Helper.Rule.{delete_args, ensure_rule_present, ensure_rules}
use dockerwall.Helper.Chain.{Words}
use dockerwall.Helper.Chain.Ensure.{removal, ensured}

module _ (H : Host) (binary : Text) {T : Type 0} (view : H.World → T) (IsQuiet : Words → Type 0)
    (leaves : (args : Words) (w w' : H.World) (output : Output)
      → IsQuiet args
      → run_command_allow_failure H binary args w ≡ (ok output, w')
      → view w' ≡ view w) where
  -- A rule whose insertion and deletion leave it alone.
  ensured_quiet :
      (fuel : ℕ) (args : Words) (w w' : H.World)
      → IsQuiet args
      → IsQuiet (delete_args args)
      → ensure_rule_present H fuel binary args w ≡ some (ok tt, w')
      → view w' ≡ view w
  ensured_quiet fuel args w w' here there h =
      let (v, output, taken, fine, run) = ensured H fuel binary args w w' h in
      leaves args v w' output here run
      ∙ removal H binary (delete_args args) (λ v v'. view v' ≡ view v)
          (λ a b c output e deleted rest. rest ∙ leaves (delete_args args) a b output there e)
          (λ a b output e gone. leaves (delete_args args) a b output there e) fuel w v taken

  pub quiet_lem :
      (fuel : ℕ) (rules : List Words) (w w' : H.World)
      → All (λ args. IsQuiet args × IsQuiet (delete_args args)) rules
      → ensure_rules H fuel binary rules w ≡ some (ok tt, w')
      → view w' ≡ view w
  unfolding ensure_rules
  quiet_lem fuel [] w w' e h = ap view (sym (ap (λ t. t.1) (some-injective _ _ h)))
  quiet_lem fuel (rule ∷ rules) w w' ((here, there), e) h =
      let (_, v, one, rest) =
        >>?-eq-ok (ensure_rule_present H fuel binary rule) (λ _. ensure_rules H fuel binary rules) w
          h in
      quiet_lem fuel rules v w' e rest ∙ ensured_quiet fuel rule w v here there one

  same_world :
      (name : Text) (created exists : Output) (v w' : H.World)
      → existing_chain H name created exists v ≡ (ok tt, w')
      → v ≡ w'
  unfolding existing_chain
  same_world name created exists v w' h = elim (Bool-cases exists.success) [
    | inl fine ↦ ap (λ t. t.1) (rw fine at h)
    | inr failed ↦ ap (λ t. t.1) (rw failed at h)
  ]

  existing-view :
      (name : Text) (created : Output) (w w' : H.World)
      → IsQuiet (codes "-S" ∷ name ∷ [])
      → check_chain H binary name created w ≡ (ok tt, w')
      → view w' ≡ view w
  unfolding check_chain existing_chain
  existing-view name created w w' lists h = elim (Bool-cases created.success) [
    | inl fine ↦ ap view (sym (ap (λ t. t.1) (rw fine at h)))
    | inr failed ↦
        let (exists, v, run, rest) =
          >>=-eq-ok (run_command_allow_failure H binary (codes "-S" ∷ name ∷ []))
            (existing_chain H name created) w
            (sym (
                ap
                  (λ b.
                    (if b
                        then pure tt
                        else run_command_allow_failure H binary (codes "-S" ∷ name ∷ [])
                          >>= existing_chain H name created)
                      w)
                  failed)
              ∙ h) in
        ap view (sym (same_world name created exists v w' rest))
        ∙ leaves (codes "-S" ∷ name ∷ []) w v exists lists run
  ]

  pub ensure_chain-view :
      (name : Text) (w w' : H.World)
      → IsQuiet (codes "-N" ∷ name ∷ [])
      → IsQuiet (codes "-S" ∷ name ∷ [])
      → ensure_chain H binary name w ≡ (ok tt, w')
      → view w' ≡ view w
  unfolding ensure_chain
  ensure_chain-view name w w' creates lists h =
      let (created, v, run, rest) =
        >>=-eq-ok (run_command_allow_failure H binary (codes "-N" ∷ name ∷ []))
          (check_chain H binary name) w h in
      existing-view name created v w' lists rest
      ∙ leaves (codes "-N" ∷ name ∷ []) w v created creates run
