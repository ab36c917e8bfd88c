-- ===== src/Helper/Chain.antt =====
-- What the rules that `ensure_rule_present` inserts make of one chain of iptables. The chain is a
-- list of rules, and a rule is the list of its words.
pub mod Ensure
pub mod Quiet
pub mod Front
pub mod Verdict
use dockerwall.Base.{
  ℕ, zero, suc, ◌+◌, ◌≤◌, ◌≡◌, Bool, true, false, not, ◌&&◌, ◌||◌, List, [], ◌∷◌, ◌++◌, contains,
  ◌==◌, list_eq, nat_eq, if◌then◌else◌,
}
use dockerwall.Text.{Text, codes}
use dockerwall.Text.Decimal.{to_decimal, u32_max}
use dockerwall.Host.{Host, Output}
use dockerwall.Result.{ok}
use dockerwall.Helper.Command.{run_command_allow_failure}

abbrev pub Words : Type 0
Words = List Text

-- `-I chain position`, where the first position of the chain is 1.
abbrev pub insertion : Text → ℕ → Words → Words
insertion chain position rule = codes "-I" ∷ chain ∷ to_decimal (suc position) ∷ rule

abbrev pub deletion : Text → Words → Words
deletion chain rule = codes "-D" ∷ chain ∷ rule

-- The insertions of rules one behind the other.
abbrev pub insertions : Text → ℕ → List Words → List Words
insertions chain position [] = []
insertions chain position (rule ∷ rules) =
    insertion chain position rule ∷ insertions chain (suc position) rules

abbrev pub insert_at : ℕ → Words → List Words → List Words
insert_at zero rule rules = rule ∷ rules
insert_at (suc position) rule [] = rule ∷ []
insert_at (suc position) rule (r ∷ rules) = r ∷ insert_at position rule rules

abbrev pub remove_first : Words → List Words → List Words
remove_first rule [] = []
remove_first rule (r ∷ rules) = if rule == r then rules else r ∷ remove_first rule rules

-- The chain without the copies of a rule, and without those of several.
abbrev pub without : Words → List Words → List Words
without rule [] = []
without rule (r ∷ rules) = if rule == r then without rule rules else r ∷ without rule rules

abbrev pub without_all : List Words → List Words → List Words
without_all [] rules = rules
without_all (s ∷ specs) rules = without_all specs (without s rules)

-- Commands that leave the chain alone: those of the table `nat`, those that insert into or delete
-- from another chain, the creation of a chain and a listing.
abbrev pub is_elsewhere : Text → Words → Bool
is_elsewhere chain [] = false
is_elsewhere chain (operation ∷ []) = false
is_elsewhere chain (operation ∷ place ∷ rest) =
    (operation == codes "-t" && place == codes "nat")
    || ((operation == codes "-I" || operation == codes "-D") && not (place == chain))
    || operation == codes "-N"
    || operation == codes "-S"

-- The documented behaviour of iptables on one chain of the table `filter`. A chain that does not
-- exist has no rules.
pub record ChainLaws (H : Host) (binary chain : Text) (table : H.World → List Words) : Type 0 where
  -- An insertion that succeeds puts the rule at its position.
  pub inserts :
      (position : ℕ) (rule : Words) (w w' : H.World) (output : Output)
      → suc position ≤ u32_max
      → run_command_allow_failure H binary (insertion chain position rule) w ≡ (ok output, w')
      → output.success ≡ true
      → table w' ≡ insert_at position rule (table w)
  -- A deletion succeeds if the rule is there, and takes its first copy away.
  pub deletes :
      (rule : Words) (w w' : H.World) (output : Output)
      → run_command_allow_failure H binary (deletion chain rule) w ≡ (ok output, w')
      → (output.success ≡ contains (table w) rule) × (table w' ≡ remove_first rule (table w))
  pub leaves :
      (args : Words) (w w' : H.World) (output : Output)
      → is_elsewhere chain args ≡ true
      → run_command_allow_failure H binary args w ≡ (ok output, w')
      → table w' ≡ table w
