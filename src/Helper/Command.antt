-- ===== src/Helper/Command.antt =====
-- The commands that the helper runs, and what it does with their results.
use dockerwall.Base.{
  ℕ, Bool, not, ◌&&◌, ◌||◌, Option, none, some, List, [], ◌∷◌, ◌++◌, all, leb, eqb, ltb,
  if◌then◌else◌, is_empty, length, ◌==◌, list_eq, nat_eq,
}
use dockerwall.Text.{Text, codes, trim, utf8, split_ascii_whitespace, strip_suffix}
use dockerwall.Net.Ipv4.{parse_ipv4}
use dockerwall.Net.Ipv6.{parse_ipv6}
use dockerwall.Host.{Host, Output}
use dockerwall.Result.{Result, ok, err, Prog, pure, fail, ignore_result, ◌>>=◌, ◌>>◌}
use dockerwall.Ipset.{ipv6_ipset_name}

unfoldable pub command_failure_message : Output → Text
command_failure_message output =
    let stderr = trim output.stderr in
    let stdout = trim output.stdout in
    if is_empty stderr && is_empty stdout
    then codes "command failed"
    else if is_empty stdout
    then codes "command failed: " ++ stderr
    else if is_empty stderr
    then codes "command failed: stdout: " ++ stdout
    else codes "command failed: " ++ (stderr ++ (codes "; stdout: " ++ stdout))

module _ (H : Host) where
  unfoldable pub run_command_allow_failure : Text → List Text → Prog H.World Output
  run_command_allow_failure binary args = H.run binary args []

  unfoldable pub check_output : Output → Prog H.World Output
  check_output output =
      if output.success then pure output else fail (command_failure_message output)

  unfoldable pub run_command_checked : Text → List Text → Prog H.World Output
  run_command_checked binary args = do
    output ← run_command_allow_failure binary args
    check_output output

  unfoldable pub destroy_ipsets : Text → Text → Prog H.World (Unit {0})
  destroy_ipsets binary name = do
    ignore_result (run_command_allow_failure binary (codes "destroy" ∷ name ∷ []))
    ignore_result (run_command_allow_failure binary (codes "destroy" ∷ ipv6_ipset_name name ∷ []))

  abbrev create_args : Text → Text → List Text
  create_args name family =
      codes "create"
      ∷ name
      ∷ codes "hash:ip"
      ∷ codes "family"
      ∷ family
      ∷ codes "maxelem"
      ∷ codes "1000000000"
      ∷ []

  -- The end of `create_ipset`, when the temporary set stands.
  unfoldable pub replace_ipset : Text → Text → Text → Output → Prog H.World Output
  replace_ipset binary name tmp_name swap_result =
      if swap_result.success
      then run_command_checked binary (codes "destroy" ∷ tmp_name ∷ [])
      else run_command_checked binary (codes "rename" ∷ tmp_name ∷ name ∷ [])

  unfoldable pub recreate_ipset : Text → Text → Text → Prog H.World (Unit {0})
  recreate_ipset binary name family = do
    let tmp_name = name ++ codes "-tmp"
    ignore_result (run_command_allow_failure binary (codes "destroy" ∷ tmp_name ∷ []))
    _ ← run_command_checked binary (create_args tmp_name family)
    swap_result ← run_command_allow_failure binary (codes "swap" ∷ name ∷ tmp_name ∷ [])
    _ ← replace_ipset binary name tmp_name swap_result
    pure tt

  unfoldable pub create_ipset : Text → Text → Text → Prog H.World (Unit {0})
  create_ipset binary name family = do
    result ← run_command_allow_failure binary (create_args name family ++ (codes "-exist" ∷ []))
    if result.success then pure tt else recreate_ipset binary name family

  unfoldable pub create_ipsets : Text → Text → Prog H.World (Unit {0})
  create_ipsets binary name = do
    create_ipset binary name (codes "inet")
    create_ipset binary (ipv6_ipset_name name) (codes "inet6")

  unfoldable pub existing_chain : Text → Output → Output → Prog H.World (Unit {0})
  existing_chain name create_result exists_result =
      if exists_result.success
      then pure tt
      else fail (
          codes "failed to create iptables chain "
          ++ (name ++ (codes ": " ++ command_failure_message create_result)))

  unfoldable pub check_chain : Text → Text → Output → Prog H.World (Unit {0})
  check_chain binary name create_result =
      if create_result.success
      then pure tt
      else run_command_allow_failure binary (codes "-S" ∷ name ∷ [])
        >>= existing_chain name create_result

  unfoldable pub ensure_chain : Text → Text → Prog H.World (Unit {0})
  ensure_chain binary name = do
    create_result ← run_command_allow_failure binary (codes "-N" ∷ name ∷ [])
    check_chain binary name create_result

-- `interface.bytes().all(...)`
unfoldable pub is_interface_byte : ℕ → Bool
is_interface_byte byte =
    (leb 48 byte && leb byte 57)
    || (leb 65 byte && leb byte 90)
    || (leb 97 byte && leb byte 122)
    || eqb byte b'.'
    || eqb byte b'_'
    || eqb byte b'-'

unfoldable pub validate_interface_name : Text → Result Text
validate_interface_name interface =
    if is_empty interface
      || (ltb 15 (length (utf8 interface)) || not (all is_interface_byte (utf8 interface)))
    then err (codes "interface name must be 1-15 ASCII alphanumeric, '.', '_', or '-' characters")
    else ok interface

-- The field behind the first `-s`.
unfoldable pub source_field : List Text → Option Text
source_field [] = none
source_field (field ∷ []) = none
source_field (field ∷ next ∷ fields) =
    let rest = source_field (next ∷ fields) in if field == codes "-s" then some next else rest

unfoldable pub output_rule_source_ip : Text → Option ℕ
output_rule_source_ip rule = elim (source_field (split_ascii_whitespace rule)) [
  | none ↦ none
  | some cidr ↦ elim (strip_suffix cidr (codes "/32")) [ none ↦ none | some ip ↦ parse_ipv4 ip ]
]

unfoldable pub output_rule_source_ipv6 : Text → Option ℕ
output_rule_source_ipv6 rule = elim (source_field (split_ascii_whitespace rule)) [
  | none ↦ none
  | some cidr ↦ elim (strip_suffix cidr (codes "/128")) [ none ↦ none | some ip ↦ parse_ipv6 ip ]
]
