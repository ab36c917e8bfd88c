-- ===== src/Helper/Rule/Once.antt =====
-- What deleting by arguments means, and how many copies of an ensured rule there are.
use dockerwall.Base.{
  ℕ, zero, suc, ◌<◌, ◌≡◌, refl, sym, ap, ◌≤◌, Option, none, ◌∙◌, Bool, true, false, ◌||◌, some,
  List, [], ◌∷◌, ◌++◌, any, if◌then◌else◌, ◌==◌, list_eq, nat_eq, arith, Bool-cases, inl, inr,
}
use dockerwall.Text.{Text, codes}
use dockerwall.Text.Decimal.{to_decimal, parse_uint, u32_max, parse_uint-to_decimal}
use dockerwall.Host.{Host, Output}
use dockerwall.Result.{Result, ok, err}
use dockerwall.Helper.Command.{run_command_allow_failure, run_command_checked, check_output}
use dockerwall.Helper.Rule.{
  operation_index, is_position, delete_args, remove_rule_all, insert_rule, ensure_rule_present,
}

abbrev pub is_operation : Text → Bool
is_operation arg = arg == codes "-I" || arg == codes "-A"

-- Where no operation stands in front of the insertion, the arguments in front of it stay, the
-- operation becomes `-D`, the chain stays, and a position behind the chain goes.
pub delete_args-insert :
    (pre : List Text) (operation chain next : Text) (rest : List Text)
    → any is_operation pre ≡ false
    → is_operation operation ≡ true
    → delete_args (pre ++ (operation ∷ chain ∷ next ∷ rest))
      ≡ pre ++ (codes "-D" ∷ chain ∷ (if is_position (some next) then rest else next ∷ rest))
unfolding delete_args operation_index
delete_args-insert [] operation chain next rest h o = ground arith
delete_args-insert (arg ∷ pre) operation chain next rest h o =
    ground (arith, delete_args-insert pre operation chain next rest)

-- What stands behind the chain in an insertion: a position, if one is given, and the rule.
abbrev pub placed : Option ℕ → List Text → List Text
placed none rule = rule
placed (some position) rule = to_decimal position ∷ rule

-- The arguments that insert a rule, as iptables documents them: an operation, a chain, perhaps a
-- position, and the rule, whose first word is no number. What is in front of the operation names a
-- table.
pub record IsInsertion (args pre : List Text) (chain : Text) (rule : List Text) : Type 0 where
  pub operation : Text
  pub position : Option ℕ
  pub word : Text
  pub rest : List Text
  pub written : args ≡ pre ++ (operation ∷ chain ∷ placed position rule)
  pub of_words : rule ≡ word ∷ rest
  pub no_number : parse_uint u32_max word ≡ none
  pub inserting : is_operation operation ≡ true
  pub first : any is_operation pre ≡ false
  pub in_range : (p : ℕ) → position ≡ some p → p ≤ u32_max

-- The arguments that delete the rule by its words.
abbrev pub deletion_of : List Text → Text → List Text → List Text
deletion_of pre chain rule = pre ++ (codes "-D" ∷ chain ∷ rule)

-- `delete_args` makes the deletion of the very rule that the arguments insert.
delete_args-IsInsertion :
    {args pre : List Text} {chain : Text} {rule : List Text}
    → IsInsertion args pre chain rule
    → delete_args args ≡ deletion_of pre chain rule
delete_args-IsInsertion {args} {pre} {chain} {rule} a =
    ap delete_args a.written ∙ by_position a.position a.in_range
  where
    by_position :
        (position : Option ℕ)
        → ((p : ℕ) → position ≡ some p → p ≤ u32_max)
        → delete_args (pre ++ (a.operation ∷ chain ∷ placed position rule))
          ≡ deletion_of pre chain rule
    by_position none range =
        ap (λ r. delete_args (pre ++ (a.operation ∷ chain ∷ r))) a.of_words
        ∙ delete_args-insert pre a.operation chain a.word a.rest a.first a.inserting
        ∙ ap (λ r. pre ++ (codes "-D" ∷ chain ∷ r)) (rw (is_position, a.no_number) (sym a.of_words))
    by_position (some p) range =
        delete_args-insert pre a.operation chain (to_decimal p) rule a.first a.inserting
        ∙ rw (is_position, parse_uint-to_decimal u32_max p (range p refl)) refl

-- The documented behaviour of `-D` and `-I` on one rule, by the number of its copies: a deletion by
-- the rule's words always runs, takes one copy away, and fails where there is none; an insertion
-- that succeeds adds one.
pub record RuleLaws (H : Host) (binary : Text) (args pre : List Text) (chain : Text)
    (rule : List Text) (copies : H.World → ℕ) : Type 0 where
  pub deletes :
      (w : H.World)
      → (output : Output) × (w' : H.World) × (run_command_allow_failure H binary
            (deletion_of pre chain rule)
            w
          ≡ (ok output, w'))
        × (copies w ≡ (if output.success then suc (copies w') else 0))
        × (output.success ≡ false → copies w' ≡ 0)
  pub inserts :
      (w w' : H.World) (output : Output)
      → run_command_allow_failure H binary args w ≡ (ok output, w')
      → output.success ≡ true
      → copies w' ≡ suc (copies w)

module _ (H : Host) (binary : Text) (args : List Text) where
  pub remove_again :
      (fuel : ℕ) (w w1 : H.World) (output : Output)
      → run_command_allow_failure H binary args w ≡ (ok output, w1)
      → output.success ≡ true
      → remove_rule_all H (suc fuel) binary args w ≡ remove_rule_all H fuel binary args w1
  unfolding remove_rule_all
  remove_again fuel w w1 output e deleted =
      rw (e, deleted, remove_rule_all) (ap (λ t. remove_rule_all H fuel binary args t.1) e)

  pub remove_ends :
      (fuel : ℕ) (w w1 : H.World) (output : Output)
      → run_command_allow_failure H binary args w ≡ (ok output, w1)
      → output.success ≡ false
      → remove_rule_all H (suc fuel) binary args w ≡ some (ok tt, w1)
  unfolding remove_rule_all
  remove_ends fuel w w1 output e absent =
      rw (e, absent, remove_rule_all) (ap (λ t. some (ok tt, t.1)) e)

  pub remove_fails :
      (fuel : ℕ) (w w1 : H.World) (message : Text)
      → run_command_allow_failure H binary args w ≡ (err message, w1)
      → remove_rule_all H (suc fuel) binary args w ≡ some (err message, w1)
  unfolding remove_rule_all
  remove_fails fuel w w1 message e = rw (e, remove_rule_all) (ap (λ t. some (err message, t.1)) e)

  pub inserted :
      (w : H.World) (t : Result Output × H.World)
      → run_command_allow_failure H binary args w ≡ t
      → (insert_rule H binary args (ok tt, w)).0 ≡ ok tt
      → (output : Output) × (output.success ≡ true)
        × (run_command_allow_failure H binary args w
            ≡ (ok output, (insert_rule H binary args (ok tt, w)).1))
  unfolding insert_rule run_command_checked check_output
  inserted w (err message, w1) e h = absurd (cc (rw e at h))
  inserted w (ok output, w1) e h = elim (Bool-cases output.success) [
    | inl fine ↦ (output, fine, e ∙ rw e (rw fine refl))
    | inr failed ↦ absurd (cc (rw failed at (rw e at h)))
  ]

module _ (H : Host) (binary : Text) (args pre : List Text) (chain : Text) (rule : List Text)
    (is_insertion : IsInsertion args pre chain rule) (copies : H.World → ℕ)
    (laws : RuleLaws H binary args pre chain rule copies) where
  remove_rule_all_lem :
      (fuel : ℕ) (w : H.World)
      → copies w < fuel
      → (w' : H.World) × (remove_rule_all H fuel binary (delete_args args) w ≡ some (ok tt, w'))
        × (copies w' ≡ 0)
  remove_rule_all_lem zero w h = absurd (omega arith)
  remove_rule_all_lem (suc fuel) w h =
      let (output, w1, run, before, after) = laws.deletes w in
      let e : run_command_allow_failure H binary (delete_args args) w ≡ (ok output, w1) =
        ap (λ words. run_command_allow_failure H binary words w)
          (delete_args-IsInsertion is_insertion)
        ∙ run in
      elim (Bool-cases output.success) [
        | inl deleted ↦
            let (w', done, zero_left) = remove_rule_all_lem fuel w1 (ground arith) in
            (
              w',
              remove_again H binary (delete_args args) fuel w w1 output e deleted ∙ done,
              zero_left,
            )
        | inr absent ↦
            (w1, remove_ends H binary (delete_args args) fuel w w1 output e absent, after absent)
      ]

  -- Where the arguments have the form of an insertion, that is an operation `-I` or `-A` with no
  -- other one in front of it, a chain, perhaps a position, and a rule whose first word is no
  -- number, and iptables obeys the laws of this insertion and of the deletion of this rule by its
  -- words: with more rounds than there are copies the loop ends, and if the insertion succeeds, the
  -- rule stands exactly once, however many copies there were.
  pub ensure_rule_present_once :
      (fuel : ℕ) (w : H.World)
      → copies w < fuel
      → (result : Result (Unit {0})) × (w' : H.World) × (ensure_rule_present H fuel binary args w
          ≡ some (result, w'))
        × (result ≡ ok tt → copies w' ≡ 1)
  unfolding ensure_rule_present
  ensure_rule_present_once fuel w h =
      let (w1, removed, zero_left) = remove_rule_all_lem fuel w h in
      (
        (insert_rule H binary args (ok tt, w1)).0,
        (insert_rule H binary args (ok tt, w1)).1,
        rw (removed, ensure_rule_present) refl,
        λ e.
            let (output, fine, run) = inserted H binary args w1 _ refl e in
            laws.inserts w1 _ output run fine ∙ ap suc zero_left,
      )
