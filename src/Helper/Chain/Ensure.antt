-- ===== src/Helper/Chain/Ensure.antt =====
-- The chain behind `ensure_rule_present` and behind a list of rules that are ensured.
use dockerwall.Base.{
  ℕ, zero, suc, ◌≤◌, ◌≡◌, refl, sym, ap, ◌∙◌, true, false, Option, none, some, List, [], ◌∷◌, ◌++◌,
  length, contains, contains-append, ◌==◌, list_eq, nat_eq, Bool-cases, inl, inr,
}
use mathlib.Core.Option.{some-injective}
use mathlib.Core.Path.{subst}
use dockerwall.Text.{Text, codes}
use dockerwall.Text.Decimal.{to_decimal, u32_max, parse_uint-to_decimal}
use dockerwall.Host.{Host, Output}
use dockerwall.Result.{Result, ok, err}
use dockerwall.Helper.Command.{run_command_allow_failure}
use dockerwall.Helper.Rule.{
  delete_args, is_position, remove_rule_all, insert_rule, ensure_rule_present,
}
use dockerwall.Helper.Rule.Once.{
  delete_args-insert, remove_again, remove_ends, remove_fails, inserted,
}
use dockerwall.Helper.Chain.{
  Words, insertion, deletion, insert_at, remove_first, without, ChainLaws,
}

insert_at-append :
    (rule : Words) (front behind : List Words)
    → insert_at (length front) rule (front ++ behind) ≡ front ++ (rule ∷ behind)
insert_at-append rule [] behind = refl
insert_at-append rule (r ∷ front) behind = ap (λ t. r ∷ t) (insert_at-append rule front behind)

without-remove_first :
    (rule : Words) (rules : List Words)
    → without rule (remove_first rule rules) ≡ without rule rules
without-remove_first rule [] = refl
without-remove_first rule (r ∷ rules) = elim (Bool-cases (rule == r)) [
  | inl same ↦ rw same refl
  | inr differs ↦ rw (differs) (rw differs (ap (λ t. r ∷ t) (without-remove_first rule rules)))
]

without-absent :
    (rule : Words) (rules : List Words) → contains rules rule ≡ false → without rule rules ≡ rules
without-absent rule [] h = refl
without-absent rule (r ∷ rules) h = elim (Bool-cases (rule == r)) [
  | inl same ↦ absurd (cc (rw same at h))
  | inr differs ↦ rw differs (ap (λ t. r ∷ t) (without-absent rule rules (rw differs at h)))
]

remove_first-absent :
    (rule : Words) (rules : List Words)
    → contains rules rule ≡ false
    → remove_first rule rules ≡ without rule rules
remove_first-absent rule [] h = refl
remove_first-absent rule (r ∷ rules) h = elim (Bool-cases (rule == r)) [
  | inl same ↦ absurd (cc (rw same at h))
  | inr differs ↦ rw differs (ap (λ t. r ∷ t) (remove_first-absent rule rules (rw differs at h)))
]

remove_first-append :
    (rule : Words) (front behind : List Words)
    → contains front rule ≡ false
    → remove_first rule (front ++ behind) ≡ front ++ remove_first rule behind
remove_first-append rule [] behind h = refl
remove_first-append rule (r ∷ front) behind h = elim (Bool-cases (rule == r)) [
  | inl same ↦ absurd (cc (rw same at h))
  | inr differs ↦
      rw differs (ap (λ t. r ∷ t) (remove_first-append rule front behind (rw differs at h)))
]

delete_args-insertion :
    (chain : Text) (position : ℕ) (rule : Words)
    → suc position ≤ u32_max
    → delete_args (insertion chain position rule) ≡ deletion chain rule
unfolding list_eq nat_eq
delete_args-insertion chain position rule h =
    delete_args-insert [] (codes "-I") chain (to_decimal (suc position)) rule refl refl
    ∙ rw (is_position, parse_uint-to_decimal u32_max (suc position) h) refl

module _ (H : Host) (binary : Text) (args : Words) where
  -- Induction on the rounds of a removal that succeeds.
  module _ (P : H.World → H.World → Type 0)
      (again : (w v w' : H.World) (output : Output)
        → run_command_allow_failure H binary args w ≡ (ok output, v)
        → output.success ≡ true
        → P v w'
        → P w w')
      (ends : (w v : H.World) (output : Output)
        → run_command_allow_failure H binary args w ≡ (ok output, v)
        → output.success ≡ false
        → P w v) where
    round :
        (fuel : ℕ) (w w' : H.World) (t : Result Output × H.World)
        → run_command_allow_failure H binary args w ≡ t
        → ((v : H.World) → remove_rule_all H fuel binary args v ≡ some (ok tt, w') → P v w')
        → remove_rule_all H (suc fuel) binary args w ≡ some (ok tt, w')
        → P w w'
    round fuel w w' (err message, v) e rest done =
        absurd (cc (remove_fails H binary args fuel w v message e, done))
    round fuel w w' (ok output, v) e rest done = elim (Bool-cases output.success) [
      | inl deleted ↦
          again w v w' output e deleted
            (rest v (sym (remove_again H binary args fuel w v output e deleted) ∙ done))
      | inr gone ↦
          let same : v ≡ w' = cc (remove_ends H binary args fuel w v output e gone, done) in
          subst (λ u. P w u) same (ends w v output e gone)
    ]

    pub removal :
        (fuel : ℕ) (w w' : H.World)
        → remove_rule_all H fuel binary args w ≡ some (ok tt, w')
        → P w w'
    unfolding remove_rule_all
    removal zero w w' done = absurd (cc)
    removal (suc fuel) w w' done = round fuel w w' _ refl (λ v. removal fuel v w') done

module _ (H : Host) (fuel : ℕ) (binary : Text) (args : Words) where
  -- A rule that is ensured is removed, and then inserted by a command that succeeds.
  ensured_by :
      (w w' : H.World) (o : Option (Result (Unit {0}) × H.World))
      → remove_rule_all H fuel binary (delete_args args) w ≡ o
      → ensure_rule_present H fuel binary args w ≡ some (ok tt, w')
      → (v : H.World) × (remove_rule_all H fuel binary (delete_args args) w ≡ some (ok tt, v))
        × (insert_rule H binary args (ok tt, v) ≡ (ok tt, w'))
  unfolding ensure_rule_present insert_rule
  ensured_by w w' none e h = absurd (cc (rw (e, ensure_rule_present) at h))
  ensured_by w w' (some (err message, v)) e h = absurd (cc (rw (e, ensure_rule_present) at h))
  ensured_by w w' (some (ok _, v)) e h =
      (v, e, some-injective _ _ (rw (e, ensure_rule_present) at h))

  pub ensured :
      (w w' : H.World)
      → ensure_rule_present H fuel binary args w ≡ some (ok tt, w')
      → (v : H.World) × (output : Output) × (remove_rule_all H fuel binary (delete_args args) w
          ≡ some (ok tt, v))
        × (output.success ≡ true)
        × (run_command_allow_failure H binary args v ≡ (ok output, w'))
  ensured w w' h =
      let (v, taken, put) = ensured_by w w' _ refl h in
      let (output, fine, run) = inserted H binary args v _ refl (ap (λ t. t.0) put) in
      (v, output, taken, fine, run ∙ ap (λ t. (ok output, t.1)) put)

module _ (H : Host) (binary chain : Text) (table : H.World → List Words)
    (laws : ChainLaws H binary chain table) where
  -- Removing a rule that does not stand in the front of the chain.
  removed :
      (fuel : ℕ) (front : List Words) (rule : Words) (w w' : H.World)
      → contains front rule ≡ false
      → remove_rule_all H fuel binary (deletion chain rule) w ≡ some (ok tt, w')
      → (behind : List Words) → table w ≡ front ++ behind
      → table w' ≡ front ++ without rule behind
  removed fuel front rule w w' absent =
      removal H binary (deletion chain rule)
        (λ v v'.
          (behind : List Words)
          → table v ≡ front ++ behind
          → table v' ≡ front ++ without rule behind)
        (λ v u v' output e deleted rest behind split.
          rest (remove_first rule behind) (taken v u output e behind split)
          ∙ ap (λ t. front ++ t) (without-remove_first rule behind))
        (λ v u output e gone behind split.
          taken v u output e behind split
          ∙ ap (λ t. front ++ t)
              (remove_first-absent rule behind (none_behind v u output e gone behind split)))
        fuel w w'
    where
      taken :
          (v u : H.World) (output : Output)
          → run_command_allow_failure H binary (deletion chain rule) v ≡ (ok output, u)
          → (behind : List Words) → table v ≡ front ++ behind
          → table u ≡ front ++ remove_first rule behind
      taken v u output e behind split =
          (laws.deletes rule v u output e).1
          ∙ rw split (remove_first-append rule front behind absent)

      none_behind :
          (v u : H.World) (output : Output)
          → run_command_allow_failure H binary (deletion chain rule) v ≡ (ok output, u)
          → output.success ≡ false
          → (behind : List Words) → table v ≡ front ++ behind
          → contains behind rule ≡ false
      none_behind v u output e gone behind split =
          sym (contains-append front behind rule ∙ rw absent refl)
          ∙ ap (λ t. contains t rule) (sym split)
          ∙ sym (laws.deletes rule v u output e).0
          ∙ gone

  -- A rule that is ensured behind the front of a chain.
  pub ensured_front :
      (fuel : ℕ) (front behind : List Words) (rule : Words) (w w' : H.World)
      → suc (length front) ≤ u32_max
      → contains front rule ≡ false
      → table w ≡ front ++ behind
      → ensure_rule_present H fuel binary (insertion chain (length front) rule) w ≡ some (ok tt, w')
      → table w' ≡ front ++ (rule ∷ without rule behind)
  ensured_front fuel front behind rule w w' small absent split h =
      let (v, output, taken, fine, run) =
        ensured H fuel binary (insertion chain (length front) rule) w w' h in
      laws.inserts (length front) rule v w' output small run fine
      ∙ ap (insert_at (length front) rule) (
          removed fuel front rule w v absent
            (sym (
                ap (λ t. remove_rule_all H fuel binary t w)
                  (delete_args-insertion chain (length front) rule small))
              ∙ taken)
            behind split)
      ∙ insert_at-append rule front (without rule behind)
