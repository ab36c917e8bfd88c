-- ===== src/Helper/Rule.antt =====
-- `delete_args`, `remove_rule_all` and `ensure_rule_present`: inserting a rule of iptables.
pub mod Once
pub mod Returns
use dockerwall.Base.{
  ℕ, zero, suc, ◌+◌, ◌≡◌, Bool, true, false, ◌||◌, Option, none, some, List, [], ◌∷◌, ◌++◌,
  get_elem?, if◌then◌else◌, ◌==◌, list_eq, nat_eq,
}
use dockerwall.Text.{Text, codes}
use dockerwall.Text.Decimal.{parse_uint, u32_max}
use dockerwall.Host.{Host, Output}
use dockerwall.Result.{Result, ok, err, Prog, pure, fail, ◌>>=◌, ◌>>◌, Loop, once, ◌>>?◌}
use dockerwall.Helper.Command.{run_command_allow_failure, run_command_checked}

-- `args.iter().position(...)`
unfoldable pub operation_index : List Text → Option ℕ
operation_index [] = none
operation_index (arg ∷ args) =
    let rest = operation_index args in
    if arg == codes "-I" || arg == codes "-A"
    then some 0
    else elim rest [ none ↦ none | some i ↦ some (suc i) ]

-- `args[i] = arg`, where `i` is in range.
abbrev pub set_at : ℕ → Text → List Text → List Text
set_at i arg [] = []
set_at zero arg (x ∷ xs) = arg ∷ xs
set_at (suc i) arg (x ∷ xs) = x ∷ set_at i arg xs

-- `Vec::remove`, where `i` is in range.
abbrev pub remove_at : ℕ → List Text → List Text
remove_at i [] = []
remove_at zero (x ∷ xs) = xs
remove_at (suc i) (x ∷ xs) = x ∷ remove_at i xs

abbrev pub is_position : Option Text → Bool
is_position none = false
is_position (some arg) = elim (parse_uint u32_max arg) [ none ↦ false | some n ↦ true ]

unfoldable pub delete_args : List Text → List Text
delete_args insert_args = elim (operation_index insert_args) [
  | none ↦ insert_args
  | some i ↦
      (let args = set_at i (codes "-D") insert_args in
        if is_position (get_elem? args (i + 2)) then remove_at (i + 2) args else args)
]

module _ (H : Host) where
  -- The loop, up to a bound on its rounds; none where the bound is not enough.
  unfoldable pub remove_rule_all :
      ℕ → Text → List Text → H.World → Option (Result (Unit {0}) × H.World)
  remove_rule_all zero binary args w = none
  remove_rule_all (suc fuel) binary args w =
      let (result, w') = run_command_allow_failure H binary args w in
      elim result [
        | err message ↦ some (err message, w')
        | ok output ↦
            (let rest = remove_rule_all fuel binary args w' in
              if output.success then rest else some (ok tt, w'))
      ]

  -- The rest of `ensure_rule_present`.
  unfoldable pub insert_rule :
      Text → List Text → Result (Unit {0}) × H.World → Result (Unit {0}) × H.World
  insert_rule binary args (err message, w) = (err message, w)
  insert_rule binary args (ok _, w) = (run_command_checked H binary args >>= λ _. pure tt) w

  unfoldable pub ensure_rule_present :
      ℕ → Text → List Text → H.World → Option (Result (Unit {0}) × H.World)
  ensure_rule_present fuel binary args w = elim (remove_rule_all fuel binary (delete_args args) w) [
    | none ↦ none
    | some removed ↦ some (insert_rule binary args removed)
  ]

  -- Calls of `ensure_rule_present`, one behind the other.
  unfoldable pub ensure_rules : ℕ → Text → List (List Text) → Loop H.World (Unit {0})
  ensure_rules fuel binary [] = once (pure tt)
  ensure_rules fuel binary (rule ∷ rules) =
      ensure_rule_present fuel binary rule >>? λ _. ensure_rules fuel binary rules
