-- ===== src/Control/Protocol.antt =====
-- The payloads of src/manage.rs, read by `handle_control_connection` of src/control.rs.
use dockerwall.Base.{
  ℕ, ◌≡◌, ◌≢◌, refl, ap, ◌∙◌, true, false, some, List, [], ◌∷◌, ◌++◌, arith, eqb, if◌then◌else◌,
  ◌==◌, list_eq, nat_eq, is_empty, all, append_assoc,
}
use dockerwall.Base.Assoc.{insert}
use dockerwall.Text.{Text, codes, free, join, trim, trim_end_matches, trim_start_matches, split}
use dockerwall.Text.Affix.{strip_prefix-append}
use dockerwall.Text.Split.{split-join, splitn_three, free-append}
use dockerwall.Text.Trim.{trim_end_matches-concat, trim_end_matches_clean, none_of}
use dockerwall.Result.{ok}
use dockerwall.Stats.{register_network}
use dockerwall.Control.{
  Daemon, trimmed_pieces, parse_domains, create, handle_create, handle_change, handle_command,
}
use dockerwall.Manage.{create_payload}

-- A word that goes through the protocol unchanged: no blanks around it, not empty, and free of the
-- characters that separate words and lines.
pub record IsWord (s : Text) : Type 0 where
  pub trimmed : trim s ≡ s
  pub nonempty : is_empty s ≡ false
  pub no_tab : free b'\t' s ≡ true
  pub no_line : free b'\n' s ≡ true

-- Words that a list separated by commas can hold.
abbrev pub AllWords : List Text → Type 0
AllWords [] = Unit {0}
AllWords (w ∷ ws) = IsWord w × (free b',' w ≡ true) × AllWords ws

trimmed_pieces_words : (ws : List Text) → AllWords ws → trimmed_pieces ws ≡ ws
unfolding trimmed_pieces
trimmed_pieces_words [] h = refl
trimmed_pieces_words (w ∷ ws) (h, c, hs) =
    rw (h.trimmed, h.nonempty) (ap (◌∷◌ w) (trimmed_pieces_words ws hs))

words_no_comma : (ws : List Text) → AllWords ws → all (free b',') ws ≡ true
words_no_comma [] h = refl
words_no_comma (w ∷ ws) (h, c, hs) = ground (arith, words_no_comma ws hs)

no_domains : parse_domains [] ≡ []
unfolding parse_domains split trimmed_pieces trim trim_start_matches trim_end_matches
no_domains = refl

join_none : join (b',' ∷ []) [] ≡ []
unfolding join
join_none = refl

-- The daemon reads the list of domains that the client has written.
pub parse_domains-join :
    (domains : List Text) → AllWords domains → parse_domains (join (b',' ∷ []) domains) ≡ domains
unfolding parse_domains
parse_domains-join [] h = ap parse_domains join_none ∙ no_domains
parse_domains-join (w ∷ ws) h =
    ap trimmed_pieces (split-join b',' w ws (words_no_comma (w ∷ ws) h))
    ∙ trimmed_pieces_words (w ∷ ws) h

join_no_line : (ws : List Text) → AllWords ws → free b'\n' (join (b',' ∷ []) ws) ≡ true
unfolding join
join_no_line [] h = refl
join_no_line (w ∷ []) (h, c, hs) = h.no_line
join_no_line (w ∷ v ∷ ws) (h, c, hs) =
    free-append b'\n' w (b',' ∷ join (b',' ∷ []) (v ∷ ws)) h.no_line (join_no_line (v ∷ ws) hs)

free-none_of : (c : ℕ) (s : Text) → free c s ≡ true → none_of (λ d. eqb d c) s ≡ true
free-none_of c [] h = refl
free-none_of c (d ∷ s) h = ground (arith, free-none_of c s)

-- The newline behind a line goes, and nothing else.
pub chomp :
    (s : Text) → free b'\n' s ≡ true → trim_end_matches (λ c. eqb c b'\n') (s ++ (b'\n' ∷ [])) ≡ s
chomp s h =
    trim_end_matches-concat (λ c. eqb c b'\n') s b'\n' refl
    ∙ trim_end_matches_clean (λ c. eqb c b'\n') s (free-none_of b'\n' s h)

module _ (name subnet : Text) (domains : List Text) where
  -- The payload of `send_create` without its newline.
  pub create_line : Text
  create_line =
      codes "CREATE\t" ++ (name ++ (b'\t' ∷ (subnet ++ (b'\t' ∷ join (b',' ∷ []) domains))))

  pub create_payload_line : create_payload name (some subnet) domains ≡ create_line ++ (b'\n' ∷ [])
  unfolding create_payload create_line
  create_payload_line = simp append_assoc

  pub create_line-free :
      IsWord name → free b'\n' subnet ≡ true → AllWords domains → free b'\n' create_line ≡ true
  unfolding create_line
  create_line-free n s ds =
      free-append b'\n' name _ n.no_line (free-append b'\n' subnet _ s (join_no_line domains ds))

not_stats_info :
    (s : Text) (c : ℕ)
    → c ≢ b'S'
    → c ≢ b'I'
    → (((c ∷ s) == codes "STATS") ≡ false) × (((c ∷ s) == codes "INFO") ≡ false)
not_stats_info s c hs hi = (ground arith, ground arith)

-- A command that begins with another letter than `STATS` and `INFO` is a change.
pub handle_command_change :
    (dns_port now : ℕ) (line s : Text) (c : ℕ) (d : Daemon)
    → trim_end_matches (λ c. eqb c b'\n') line ≡ c ∷ s
    → c ≢ b'S'
    → c ≢ b'I'
    → handle_command dns_port now line d ≡ handle_change (c ∷ s) d
unfolding handle_command
handle_command_change dns_port now line s c d e hs hi =
    let (not_stats, not_info) = not_stats_info s c hs hi in rw (e, not_stats, not_info)

module _ (name subnet : Text) (domains : List Text) where
  -- What follows the command word.
  abbrev create_rest : Text
  create_rest = name ++ (b'\t' ∷ (subnet ++ (b'\t' ∷ join (b',' ∷ []) domains)))

  create_chomp :
      IsWord name
      → free b'\n' subnet ≡ true
      → AllWords domains
      → trim_end_matches (λ c. eqb c b'\n') (create_payload name (some subnet) domains)
        ≡ codes "CREATE\t" ++ create_rest
  unfolding create_line
  create_chomp n s ds =
      ap (trim_end_matches (λ c. eqb c b'\n')) (create_payload_line name subnet domains)
      ∙ chomp (create_line name subnet domains) (create_line-free name subnet domains n s ds)

  handle_change-create_line :
      (d : Daemon)
      → IsWord name
      → free b'\t' subnet ≡ true
      → handle_change (codes "CREATE\t" ++ create_rest) d
        ≡ create (trim name) (trim subnet) (join (b',' ∷ []) domains) d
  unfolding handle_change handle_create
  handle_change-create_line d n no_tab = ground (
    arith,
    strip_prefix-append (codes "CREATE\t") create_rest,
    splitn_three b'\t' name subnet (join (b',' ∷ []) domains) n.no_tab no_tab,
  )

  create_words :
      (d : Daemon)
      → IsWord name
      → trim subnet ≡ subnet
      → AllWords domains
      → create (trim name) (trim subnet) (join (b',' ∷ []) domains) d ≡ (
        ok (codes "OK\tcreated\n"),
        record d {
          networks =
              if is_empty subnet then d.networks else register_network name subnet d.networks;
          state = insert name (record { allowed_domain_patterns = domains; ips = [] }) d.state;
        },
      )
  unfolding create
  create_words d n trimmed ds = rw (n.trimmed, trimmed, n.nonempty, parse_domains-join domains ds)

-- What the client asks for with `send_create` is what the daemon does: the set gets exactly the
-- given patterns and no address, and a subnet that is given is registered. The name and the
-- patterns are not empty, have no blanks around them and no tab or newline, nor has the subnet, and
-- no pattern has a comma.
pub handle_command-create_payload :
    (dns_port now : ℕ) (name subnet : Text) (domains : List Text) (d : Daemon)
    → IsWord name
    → trim subnet ≡ subnet
    → free b'\t' subnet ≡ true
    → free b'\n' subnet ≡ true
    → AllWords domains
    → handle_command dns_port now (create_payload name (some subnet) domains) d ≡ (
      ok (codes "OK\tcreated\n"),
      record d {
        networks = if is_empty subnet then d.networks else register_network name subnet d.networks;
        state = insert name (record { allowed_domain_patterns = domains; ips = [] }) d.state;
      },
    )
handle_command-create_payload dns_port now name subnet domains d n trimmed no_tab no_line ds =
    handle_command_change dns_port now _ _ b'C' d (create_chomp name subnet domains n no_line ds)
      (omega arith) (omega arith)
    ∙ handle_change-create_line name subnet domains d n no_tab
    ∙ create_words name subnet domains d n trimmed ds
