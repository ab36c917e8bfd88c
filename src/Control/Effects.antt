-- ===== src/Control/Effects.antt =====
-- What each command may change, and the other exchanges of the protocol.
use dockerwall.Base.{
  ℕ, ◌<◌, ◌^◌, ◌≡◌, ◌⊎◌, inl, inr, refl, sym, ap, ◌∙◌, Bool, true, false, none, List, [], ◌∷◌, ◌++◌,
  arith, eqb, if◌then◌else◌, ◌==◌, list_eq, nat_eq, is_empty, all, Bool-cases, Option-cases,
}
use dockerwall.Base.Assoc.{lookup, remove, lookup-remove}
use dockerwall.Text.{
  Text, codes, trim, trim_end, trim_end_matches, strip_prefix, splitn, is_whitespace,
}
use dockerwall.Text.Affix.{strip_prefix-append}
use dockerwall.Text.Trim.{trim_end_matches-concat, trim_end_matches_clean, none_of}
use dockerwall.Text.Decimal.{
  to_decimal, u16_max, parse_uint-to_decimal, is_digit, to_decimal-all_digits,
}
use dockerwall.Result.{ok}
use dockerwall.Stats.Report.{get_stats_report}
use dockerwall.Control.{
  Daemon, Reply, create, handle_create, handle_remove, handle_change, handle_command, read_dns_port,
}
use dockerwall.Control.Protocol.{IsWord, chomp, handle_command_change}
use dockerwall.Manage.{remove_payload}

-- The reply changes nothing, or reports a creation or a removal.
abbrev pub Reports : Daemon → Reply → Type 0
Reports d (r, d') = (d' ≡ d) ⊎ (r ≡ ok (codes "OK\tcreated\n")) ⊎ (r ≡ ok (codes "OK\tremoved\n"))

create-Reports : (name subnet raw : Text) (d : Daemon) → Reports d (create name subnet raw d)
unfolding create
create-Reports name subnet raw d = elim (Bool-cases (is_empty name)) [
  | inl empty ↦ inl (rw empty)
  | inr full ↦ inr (inl (rw full))
]

handle_create-Reports : (parts : List Text) (d : Daemon) → Reports d (handle_create parts d)
unfolding handle_create
handle_create-Reports [] d = inl refl
handle_create-Reports (name ∷ []) d = inl refl
handle_create-Reports (name ∷ subnet ∷ []) d = inl refl
handle_create-Reports (name ∷ subnet ∷ raw ∷ _) d = create-Reports (trim name) (trim subnet) raw d

handle_remove-Reports : (name : Text) (d : Daemon) → Reports d (handle_remove name d)
unfolding handle_remove
handle_remove-Reports name d = elim (Bool-cases (is_empty name)) [
  | inl empty ↦ inl (rw empty)
  | inr full ↦ inr (inr (rw full))
]

handle_change-Reports : (command : Text) (d : Daemon) → Reports d (handle_change command d)
unfolding handle_change
handle_change-Reports command d = elim (Option-cases (strip_prefix command (codes "CREATE\t"))) [
  | inr (rest, e) ↦ rw (e, handle_change) (handle_create-Reports (splitn 3 b'\t' rest) d)
  | inl other ↦ elim (Option-cases (strip_prefix command (codes "REMOVE\t"))) [
    | inr (name, e) ↦ rw (other, e, handle_change) (handle_remove-Reports (trim name) d)
    | inl unknown ↦ rw (other, unknown, handle_change) (inl refl)
  ]
]

answers-Reports :
    (stats info : Bool) (report port : Text) (rest : Reply) (d : Daemon)
    → Reports d rest
    → Reports d (if stats then (ok report, d) else if info then (ok port, d) else rest)
answers-Reports true info report port rest d h = inl refl
answers-Reports false true report port rest d h = inl refl
answers-Reports false false report port rest d h = h

-- A command that answers anything but a creation or a removal, errors included, leaves the daemon as
-- it was.
pub handle_command-Reports :
    (dns_port now : ℕ) (line : Text) (d : Daemon) → Reports d (handle_command dns_port now line d)
unfolding handle_command
handle_command-Reports dns_port now line d =
    let command = trim_end_matches (λ c. eqb c b'\n') line in
    answers-Reports (command == codes "STATS") (command == codes "INFO")
      (get_stats_report now d.networks d.stats) _ _ d (handle_change-Reports command d)

remove_chomp :
    (name : Text)
    → IsWord name
    → trim_end_matches (λ c. eqb c b'\n') (remove_payload name) ≡ codes "REMOVE\t" ++ name
unfolding remove_payload
remove_chomp name n = chomp (codes "REMOVE\t" ++ name) (ground (arith, n.no_line))

handle_change-remove :
    (name : Text) (d : Daemon)
    → IsWord name
    → handle_change (codes "REMOVE\t" ++ name) d
      ≡ (ok (codes "OK\tremoved\n"), record d { state = remove name d.state })
unfolding handle_change handle_remove strip_prefix
handle_change-remove name d n = rw (n.trimmed, n.nonempty)

pub handle_command_removed :
    (dns_port now : ℕ) (name : Text) (d : Daemon)
    → IsWord name
    → handle_command dns_port now (remove_payload name) d
      ≡ (ok (codes "OK\tremoved\n"), record d { state = remove name d.state })
handle_command_removed dns_port now name d n =
    handle_command_change dns_port now _ _ b'R' d (remove_chomp name n) (omega arith) (omega arith)
    ∙ handle_change-remove name d n

-- After `send_remove` of a name that is not empty, has no blanks around it and no tab or newline,
-- the daemon's set of this name is gone and every other set is what it was.
pub handle_command-remove_payload :
    (dns_port now : ℕ) (name other : Text) (d : Daemon)
    → IsWord name
    → ((handle_command dns_port now (remove_payload name) d).0 ≡ ok (codes "OK\tremoved\n"))
      × (lookup other (handle_command dns_port now (remove_payload name) d).1.state
          ≡ (if other == name then none else lookup other d.state))
handle_command-remove_payload dns_port now name other d n =
    let done = handle_command_removed dns_port now name d n in
    (ap (λ r. r.0) done, ap (λ r. lookup other r.1.state) done ∙ lookup-remove other name d.state)

handle_info :
    (dns_port now : ℕ) (d : Daemon)
    → handle_command dns_port now (codes "INFO\n") d
      ≡ (ok (codes "OK\t" ++ (to_decimal dns_port ++ codes "\n")), d)
unfolding handle_command trim_end_matches list_eq nat_eq
handle_info dns_port now d = refl

digits_none_of : (s : Text) → all is_digit s ≡ true → none_of is_whitespace s ≡ true
unfolding is_digit is_whitespace
digits_none_of [] h = refl
digits_none_of (c ∷ s) h = ground (arith, digits_none_of s)

trim_end-to_decimal : (n : ℕ) → trim_end (to_decimal n ++ codes "\n") ≡ to_decimal n
unfolding trim_end
trim_end-to_decimal n =
    trim_end_matches-concat is_whitespace (to_decimal n) b'\n' newline_blank
    ∙ trim_end_matches_clean is_whitespace (to_decimal n)
        (digits_none_of (to_decimal n) (to_decimal-all_digits n))
  where
    newline_blank : is_whitespace b'\n' ≡ true
    newline_blank = unfold is_whitespace in refl

read_info :
    (n : ℕ) → n < 2 ^ 16 → read_dns_port (codes "OK\t" ++ (to_decimal n ++ codes "\n")) ≡ ok n
unfolding read_dns_port
read_info n h = ground (
  arith,
  strip_prefix-append (codes "OK\t") (to_decimal n ++ codes "\n"),
  trim_end-to_decimal n,
  parse_uint-to_decimal u16_max n (omega arith),
)

-- A client that asks for the port of the proxy, a number of 16 bits, reads that port from the
-- answer.
read_dns_port-handle_command :
    (dns_port now : ℕ) (d : Daemon) {response : Text} {d' : Daemon}
    → dns_port < 2 ^ 16
    → handle_command dns_port now (codes "INFO\n") d ≡ (ok response, d')
    → read_dns_port response ≡ ok dns_port
read_dns_port-handle_command dns_port now d {response} h e =
    let same : ok (codes "OK\t" ++ (to_decimal dns_port ++ codes "\n")) ≡ ok response =
      ap (λ r. r.0) (sym (handle_info dns_port now d) ∙ e) in
    let text : codes "OK\t" ++ (to_decimal dns_port ++ codes "\n") ≡ response = cc same in
    ap read_dns_port (sym text) ∙ read_info dns_port h
