-- ===== src/Trust.antt =====
-- src/trust.rs, and the two searches for a trusted binary in src/ipset.rs and src/helper.rs.
pub mod Search
use Prim.Native.Nat.{bit_and}
use dockerwall.Base.{
  ℕ, ◌+◌, ◌*◌, ◌/◌, ◌%◌, ◌≡◌, ◌↔◌, refl, sym, ap, ◌∙◌, Bool, true, false, not, ◌&&◌, Option, none,
  some, List, [], ◌∷◌, arith, eqb, eqb_iff, if◌then◌else◌,
}
use dockerwall.Text.{Text, codes}
use dockerwall.Host.{Metadata, Host}
use dockerwall.Result.{Prog, pure, fail}

-- `is_trusted_binary`, on what `metadata` gives. It never fails.
unfoldable pub is_trusted : Option Metadata → Bool
is_trusted none = false
is_trusted (some m) =
    if not m.is_file
    then false
    else if not (eqb m.uid 0)
    then false
    else if not (eqb (bit_and m.mode 0o022) 0)
    then false
    else true

module _ (H : Host) where
  unfoldable pub is_trusted_binary : Text → H.World → Bool
  is_trusted_binary path w = is_trusted (H.metadata path w)

  -- The first trusted candidate.
  unfoldable pub first_trusted : List Text → H.World → Option Text
  first_trusted [] w = none
  first_trusted (c ∷ candidates) w =
      let rest = first_trusted candidates w in if is_trusted_binary c w then some c else rest

  abbrev or_message : Text → Option Text → Prog H.World Text
  or_message message none = fail message
  or_message message (some c) = pure c

  -- `resolve_binary` of src/helper.rs
  unfoldable pub resolve_binary : List Text → Prog H.World Text
  resolve_binary candidates w =
      or_message (codes "trusted binary not found") (first_trusted candidates w) w
