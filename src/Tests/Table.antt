-- ===== src/Tests/Table.antt =====
-- A host with one chain of iptables that has room for a few rules, its laws, and a matcher of packets.
use dockerwall.Base.{
  ℕ, zero, suc, ◌<◌, ◌≤◌, ◌≡◌, refl, sym, ap, ◌∙◌, Bool, true, false, not, ◌&&◌, ◌||◌, none, some,
  Option, List, [], ◌∷◌, if◌then◌else◌, ◌==◌, ==_iff, ==_refl, ◌⊎◌, list_eq, nat_eq, option_eq,
  contains, length, get_elem?, ltb, ltb→lt, Bool-cases, inl, inr, arith,
}
use dockerwall.Text.{Text, codes}
use dockerwall.Text.Decimal.{to_decimal, parse_uint, u32_max, parse_uint-to_decimal}
use dockerwall.Result.{Result, ok}
use dockerwall.Host.{Host, Output}
use dockerwall.Helper.Rule.{delete_args}
use dockerwall.Helper.Rule.Returns.{Shrinks}
use dockerwall.Helper.Chain.Verdict.{Packet, MatchLaws}
use dockerwall.Helper.Command.{run_command_allow_failure}
use dockerwall.Helper.Chain.{
  Words, insertion, deletion, insert_at, remove_first, is_elsewhere, ChainLaws,
}

abbrev pub done : Output
done = record { success = true; stdout = []; stderr = [] }

abbrev pub denied : Output
denied = record { success = false; stdout = []; stderr = [] }

abbrev pub output_of : Bool → Output
output_of success = record { success = success; stdout = []; stderr = [] }

abbrev pub Table : Type 0
Table = (rules : List Words) × (length rules < 20)

pub length-insert_at :
    (i : ℕ) (rule : Words) (rules : List Words)
    → length (insert_at i rule rules) ≡ suc (length rules)
length-insert_at zero rule rules = refl
length-insert_at (suc i) rule [] = refl
length-insert_at (suc i) rule (r ∷ rules) = ap suc (length-insert_at i rule rules)

length-remove_first :
    (rule : Words) (rules : List Words)
    → length rules ≡ (
        if contains rules rule
        then suc (length (remove_first rule rules))
        else length (remove_first rule rules))
length-remove_first rule [] = refl
length-remove_first rule (r ∷ rules) = elim (Bool-cases (rule == r)) [
  | inl same ↦ rw same refl
  | inr differs ↦ rw differs (ground (arith, length-remove_first rule rules))
]

pub still_small :
    (rule : Words) (rules : List Words) → length rules < 20 → length (remove_first rule rules) < 20
still_small rule rules h = ground (arith, length-remove_first rule rules)

unfoldable pub put_into :
    ℕ
    → Words
    → (t : Table) → (ltb (length t.0) 19 ≡ true) ⊎ (ltb (length t.0) 19 ≡ false)
    → Result Output × Table
put_into i rule (rules, small) (inl room) = (
  ok done,
  (
    insert_at i rule rules,
    omega (arith, length-insert_at i rule rules, ltb→lt (length rules) 19 room),
  ),
)
put_into i rule (rules, small) (inr full) = (ok denied, (rules, small))

abbrev pub room_or_full : (b : Bool) → (b ≡ true) ⊎ (b ≡ false)
room_or_full true = inl refl
room_or_full false = inr refl

unfoldable pub put : ℕ → Words → Table → Result Output × Table
put i rule t = put_into i rule t (room_or_full (ltb (length t.0) 19))

unfoldable pub put_at : Option ℕ → Words → Table → Result Output × Table
put_at none rule t = (ok denied, t)
put_at (some zero) rule t = (ok denied, t)
put_at (some (suc i)) rule t = put i rule t

unfoldable pub insert_words : Words → Table → Result Output × Table
insert_words [] t = (ok denied, t)
insert_words (position ∷ rule) t = put_at (parse_uint u32_max position) rule t

unfoldable pub take_away : Words → Table → Result Output × Table
take_away rule (rules, small) =
    (ok (output_of (contains rules rule)), (remove_first rule rules, still_small rule rules small))

abbrev pub is_delete : Words → Bool
is_delete args = get_elem? args 0 == some (codes "-D") || get_elem? args 2 == some (codes "-D")

-- One command on the chain; other chains have no rules, and other commands succeed.
unfoldable pub execute : Text → Words → Table → Result Output × Table
execute chain [] t = (ok done, t)
execute chain (operation ∷ []) t = (ok done, t)
execute chain (operation ∷ place ∷ rest) t =
    if place == chain && operation == codes "-I"
    then insert_words rest t
    else if place == chain && operation == codes "-D"
    then take_away rest t
    else (ok (output_of (not (is_delete (operation ∷ place ∷ rest)))), t)

-- The chain belongs to every tool but `other`, whose deletions fail.
abbrev pub table_host : Text → Text → Host
table_host other chain = record {
  World = Table;
  metadata = λ path w. some (record { is_file = true; uid = 0; mode = 0o755 });
  run = λ binary args input w.
      if binary == other then (ok (output_of (not (is_delete args))), w) else execute chain args w;
  read_file = λ path w. none;
  request = λ payload w. (ok (codes "OK\t5353\n"), w);
  spawn_daemon = λ w. (ok tt, w);
  sleep = λ n w. w;
}

put_lem :
    (i : ℕ) (rule : Words) (t t' : Table) (output : Output)
    (c : (ltb (length t.0) 19 ≡ true) ⊎ (ltb (length t.0) 19 ≡ false))
    → put_into i rule t c ≡ (ok output, t')
    → output.success ≡ true
    → t'.0 ≡ insert_at i rule t.0
unfolding put_into
put_lem i rule (rules, small) t' output (inl room) e fine = sym (ap (λ r. r.1.0) e)
put_lem i rule (rules, small) t' output (inr full) e fine =
    let same : ok denied ≡ ok output = ap (λ r. r.0) e in
    let failed : denied ≡ output = cc same in absurd (cc (ap (λ o. o.success) failed, fine))

insert_words_lem :
    (position : ℕ) (rule : Words) (t : Table)
    → suc position ≤ u32_max
    → insert_words (to_decimal (suc position) ∷ rule) t ≡ put position rule t
unfolding insert_words put_at
insert_words_lem position rule t small =
    rw (parse_uint-to_decimal u32_max (suc position) small) refl

execute-insertion :
    (chain : Text) (position : ℕ) (rule : Words) (t : Table)
    → suc position ≤ u32_max
    → execute chain (insertion chain position rule) t ≡ put position rule t
unfolding execute list_eq nat_eq
execute-insertion chain position rule t small =
    rw (==_refl chain) (insert_words_lem position rule t small)

execute-deletion :
    (chain : Text) (rule : Words) (t : Table)
    → execute chain (deletion chain rule) t ≡ take_away rule t
unfolding execute list_eq nat_eq
execute-deletion chain rule t = rw (==_refl chain) refl

take_away_lem :
    (rule : Words) (t t' : Table) (output : Output)
    → take_away rule t ≡ (ok output, t')
    → (output.success ≡ contains t.0 rule) × (t'.0 ≡ remove_first rule t.0)
unfolding take_away
take_away_lem rule (rules, small) t' output e =
    let same : ok (output_of (contains rules rule)) ≡ ok output = ap (λ r. r.0) e in
    let one : output_of (contains rules rule) ≡ output = cc same in
    (sym (ap (λ o. o.success) one), sym (ap (λ r. r.1.0) e))

here_inserts :
    (chain place : Text) (rest : Words)
    → (place == chain) ≡ true
    → is_elsewhere chain (codes "-I" ∷ place ∷ rest) ≡ false
unfolding list_eq nat_eq
here_inserts chain place rest h = rw h refl

here_deletes :
    (chain place : Text) (rest : Words)
    → (place == chain) ≡ true
    → is_elsewhere chain (codes "-D" ∷ place ∷ rest) ≡ false
unfolding list_eq nat_eq
here_deletes chain place rest h = rw h refl

is_no :
    (chain place : Text) (rest : Words) (operation other : Text)
    → is_elsewhere chain (operation ∷ place ∷ rest) ≡ true
    → is_elsewhere chain (other ∷ place ∷ rest) ≡ false
    → (operation == other) ≡ false
is_no chain place rest operation other h never = elim (Bool-cases (operation == other)) [
  | inl same ↦
      let equal : operation ≡ other = (==_iff operation other).0 same in
      absurd (cc (ap (λ o. is_elsewhere chain (o ∷ place ∷ rest)) equal, h, never))
  | inr differs ↦ differs
]

execute_elsewhere :
    (chain : Text) (args : Words) (t : Table)
    → is_elsewhere chain args ≡ true
    → (execute chain args t).1 ≡ t
unfolding execute
execute_elsewhere chain [] t h = absurd (cc)
execute_elsewhere chain (operation ∷ []) t h = absurd (cc)
execute_elsewhere chain (operation ∷ place ∷ rest) t h = elim (Bool-cases (place == chain)) [
  | inl here ↦
      rw
        (
          here,
          is_no chain place rest operation (codes "-I") h (here_inserts chain place rest here),
          is_no chain place rest operation (codes "-D") h (here_deletes chain place rest here),
        )
        refl
  | inr there ↦ rw there refl
]

module _ (other binary chain : Text) (apart : (binary == other) ≡ false) where
  runs :
      (args : Words) (w : Table)
      → run_command_allow_failure (table_host other chain) binary args w ≡ execute chain args w
  unfolding run_command_allow_failure
  runs args w = rw apart refl

  pub table_host_laws : ChainLaws (table_host other chain) binary chain (λ t. t.0)
  unfolding put
  table_host_laws = record {
    inserts = λ position rule w w' output small e fine.
        put_lem position rule w w' output _
          (sym (execute-insertion chain position rule w small)
            ∙ sym (runs (insertion chain position rule) w)
            ∙ e)
          fine;
    deletes = λ rule w w' output e.
        take_away_lem rule w w' output
          (sym (execute-deletion chain rule w) ∙ sym (runs (deletion chain rule) w) ∙ e);
    leaves = λ args w w' output here e.
        ap (λ t. t.0)
          (sym (ap (λ r. r.1) (sym (runs args w) ∙ e)) ∙ execute_elsewhere chain args w here);
  }

never_deletes :
    (w w' : Table) (output : Output)
    → ◌≡◌ {A = Result Output × Table} (ok denied, w) (ok output, w')
    → output.success ≡ true
    → length w'.0 < length w.0
never_deletes w w' output e fine =
    let same : ok denied ≡ ok output = ap (λ r. r.0) e in
    let failed : denied ≡ output = cc same in absurd (cc (ap (λ o. o.success) failed, fine))

shrinks_away :
    (chain : Text) (rule : Words) (w w' : Table) (output : Output)
    → execute chain (deletion chain rule) w ≡ (ok output, w')
    → output.success ≡ true
    → length w'.0 < length w.0
shrinks_away chain rule w w' output e fine =
    let (found, left) = take_away_lem rule w w' output (sym (execute-deletion chain rule w) ∙ e) in
    ground (arith, length-remove_first rule w.0, ap length left)

-- A deletion from the chain, and one from elsewhere, on whichever tool.
pub shrinks_deletion :
    (other chain : Text) (rule : Words) (binary : Text) (w w' : Table) (output : Output)
    → run_command_allow_failure (table_host other chain) binary (deletion chain rule) w
      ≡ (ok output, w')
    → output.success ≡ true
    → length w'.0 < length w.0
unfolding run_command_allow_failure list_eq nat_eq option_eq
shrinks_deletion other chain rule binary w w' output e fine = elim (Bool-cases (binary == other)) [
  | inl same ↦ never_deletes w w' output (rw same at e) fine
  | inr differs ↦ shrinks_away chain rule w w' output (rw differs at e) fine
]

denied_deletion :
    (other chain : Text) (args : Words)
    → is_delete args ≡ true
    → ((w : Table) → execute chain args w ≡ (ok denied, w))
    → (binary : Text) (w w' : Table) (output : Output)
    → run_command_allow_failure (table_host other chain) binary args w ≡ (ok output, w')
    → output.success ≡ true
    → length w'.0 < length w.0
unfolding run_command_allow_failure
denied_deletion other chain args d x binary w w' output e fine =
    elim (Bool-cases (binary == other)) [
      | inl same ↦
          let apart : (ok (output_of (not (is_delete args))), w) ≡ (ok output, w') = rw same at e in
          never_deletes w w' output (sym (ap (λ b. (ok (output_of (not b)), w)) d) ∙ apart) fine
      | inr differs ↦ never_deletes w w' output (sym (x w) ∙ (rw differs at e)) fine
    ]

-- A rule of another chain.
pub other_rule :
    (other chain : Text) (rule : Words)
    → is_delete (delete_args rule) ≡ true
    → ((w : Table) → execute chain (delete_args rule) w ≡ (ok denied, w))
    → Shrinks (table_host other chain) (λ t. length t.0) rule
other_rule other chain rule = denied_deletion other chain (delete_args rule)

-- A test of iptables with one argument.
unfoldable pub passes : Packet → Text → Text → Bool
passes p test argument =
    if test == codes "-m" || test == codes "--comment"
    then true
    else if test == codes "--ctstate"
    then p.state argument
    else if test == codes "-s"
    then p.source argument
    else if test == codes "-d"
    then p.destination argument
    else if test == codes "-p"
    then p.protocol argument
    else if test == codes "--dport"
    then p.port argument
    else if test == codes "--icmpv6-type"
    then p.icmp_type argument
    else false

unfoldable pub hits : Packet → Words → Bool
hits p [] = true
hits p (test ∷ []) = test == codes "-j"
hits p (test ∷ argument ∷ []) = if test == codes "-j" then true else passes p test argument && true
hits p (test ∷ argument ∷ next ∷ rest) =
    let behind2 = hits p (next ∷ rest) in
    let behind3 = hits p rest in
    if test == codes "-j"
    then true
    else if test == codes "--match-set"
    then p.member argument && behind3
    else passes p test argument && behind2

hits_test :
    (p : Packet) (test argument : Text) (rest : Words)
    → (test == codes "-j") ≡ false
    → (test == codes "--match-set") ≡ false
    → hits p (test ∷ argument ∷ rest) ≡ (passes p test argument && hits p rest)
unfolding hits
hits_test p test argument [] h k = rw h refl
hits_test p test argument (next ∷ rest) h k = rw (h, k) refl

hits_target : (p : Packet) (rest : Words) → hits p (codes "-j" ∷ rest) ≡ true
unfolding hits list_eq nat_eq
hits_target p [] = refl
hits_target p (name ∷ []) = refl
hits_target p (name ∷ next ∷ rest) = refl

pub hits_laws : (p : Packet) → MatchLaws p (hits p)
unfolding hits passes list_eq nat_eq
hits_laws p = record {
  loads = λ name rest. hits_test p (codes "-m") name rest refl refl;
  comments = λ text rest. hits_test p (codes "--comment") text rest refl refl;
  states = λ state rest. hits_test p (codes "--ctstate") state rest refl refl;
  sources = λ cidr rest. hits_test p (codes "-s") cidr rest refl refl;
  destinations = λ cidr rest. hits_test p (codes "-d") cidr rest refl refl;
  protocols = λ protocol rest. hits_test p (codes "-p") protocol rest refl refl;
  ports = λ port rest. hits_test p (codes "--dport") port rest refl refl;
  icmp_types = λ icmp_type rest. hits_test p (codes "--icmpv6-type") icmp_type rest refl refl;
  members = λ name rest. refl;
  targets = hits_target p;
}
