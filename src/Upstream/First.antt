-- ===== src/Upstream/First.antt =====
-- Which line of the file gives the DNS server, and what a comment changes.
use mathlib.Core.Path.{subst}
use dockerwall.Net.Ipv4.{display_ipv4}
use dockerwall.Net.Ipv6.{display_ipv6}
use dockerwall.Base.{
  ℕ, sym, ==_refl, ◌≡◌, refl, ap, ◌∙◌, true, some, List, [], ◌∷◌, ◌++◌, ◌==◌, ==_iff, list_eq,
  nat_eq, is_empty, All, Bool-cases, Option-cases, inl, inr,
}
use dockerwall.Text.{Text, codes, free, trim, split, split_whitespace, split_by, nonempty}
use dockerwall.Text.Split.{split-append, split-free}
use dockerwall.Net.{IpAddr, v4, v6}
use dockerwall.Net.Display.{parse_ip}
use dockerwall.Stats.Subnet.{piece}
use dockerwall.Upstream.{upstream_text, nameserver_of, resolve_line, resolve_lines}

-- In front of a comment the line has the word `nameserver`, and an address behind it.
pub record IsNameserver (raw_line : Text) (ip : IpAddr) : Type 0 where
  pub word : Text
  pub rest : List Text
  pub words :
      split_whitespace (trim (piece 0 (split b'#' raw_line))) ≡ codes "nameserver" ∷ word ∷ rest
  pub read : parse_ip word ≡ some ip

-- The text of the address of a DNS server, at its port.
pub data IsServerText : IpAddr → Text → Type 0 where
  of_v4 : (a : ℕ) → IsServerText (v4 a) (display_ipv4 a ++ codes ":53")
  of_v6 : (a : ℕ) → IsServerText (v6 a) (codes "[" ++ (display_ipv6 a ++ codes "]:53"))

upstream_text-IsServerText : (ip : IpAddr) → IsServerText ip (upstream_text ip)
unfolding upstream_text
upstream_text-IsServerText (v4 a) = of_v4 a
upstream_text-IsServerText (v6 a) = of_v6 a

nameserver_of-some :
    (ws : List Text) {addr : Text}
    → nameserver_of ws ≡ some addr
    → (ip : IpAddr) × (word : Text) × (rest : List Text) × (ws ≡ codes "nameserver" ∷ word ∷ rest)
      × (parse_ip word ≡ some ip)
      × (addr ≡ upstream_text ip)
unfolding nameserver_of
nameserver_of-some [] h = cc
nameserver_of-some (first ∷ []) h = cc
nameserver_of-some (first ∷ word ∷ rest) {addr} h =
    elim (Bool-cases (first == codes "nameserver")) [
      | inr other ↦ absurd (cc (rw (other, nameserver_of) at h))
      | inl same ↦ elim (Option-cases (parse_ip word)) [
        | inl bad ↦ absurd (cc (rw (same, bad, nameserver_of) at h))
        | inr (ip, read) ↦
            let shown : some (upstream_text ip) ≡ some addr = rw (same, read, nameserver_of) at h in
            (
              ip,
              word,
              rest,
              ap (λ t. t ∷ word ∷ rest) ((==_iff first (codes "nameserver")).0 same),
              read,
              cc shown,
            )
      ]
    ]

resolve_line-some :
    (raw_line : Text) {addr : Text}
    → resolve_line raw_line ≡ some addr
    → (ip : IpAddr) × IsNameserver raw_line ip × (addr ≡ upstream_text ip)
unfolding resolve_line
resolve_line-some raw_line h = elim (Bool-cases (is_empty (trim (piece 0 (split b'#' raw_line))))) [
  | inl blank ↦ absurd (cc (rw (blank, resolve_line) at h))
  | inr full ↦
      let (ip, word, rest, words, read, e) = nameserver_of-some _ (rw (full, resolve_line) at h) in
      (ip, record { word = word; rest = rest; words = words; read = read }, e)
]

no_words : (t : Text) → is_empty t ≡ true → split_whitespace t ≡ []
unfolding split_whitespace split_by nonempty
no_words [] h = refl
no_words (c ∷ t) h = absurd (cc)

-- A line that names a server is not passed over.
resolve_line-IsNameserver :
    (raw_line : Text) (ip : IpAddr)
    → IsNameserver raw_line ip
    → resolve_line raw_line ≡ some (upstream_text ip)
unfolding resolve_line nameserver_of
resolve_line-IsNameserver raw_line ip s =
    let line = trim (piece 0 (split b'#' raw_line)) in
    elim (Bool-cases (is_empty line)) [
      | inl blank ↦ absurd (cc (s.words, no_words line blank))
      | inr full ↦
          rw (full, s.words, ==_refl (codes "nameserver"), s.read, resolve_line, nameserver_of) refl
    ]

-- The DNS server is that of the first line that names one: in front of any comment it has the word
-- `nameserver` and a valid address behind it, whatever follows, and no line before it does. The
-- text is the address, in brackets if it is one of IPv6, and the port 53.
pub resolve_lines-some :
    (ls : List Text) {addr : Text}
    → resolve_lines ls ≡ some addr
    → (before : List Text) × (line : Text) × (behind : List Text) × (ip : IpAddr) × (ls
        ≡ before ++ (line ∷ behind))
      × All (λ l. (other : IpAddr) → ¬ IsNameserver l other) before
      × IsNameserver line ip
      × IsServerText ip addr
unfolding resolve_lines
resolve_lines-some [] h = cc
resolve_lines-some (line ∷ ls) {addr} h = elim (Option-cases (resolve_line line)) [
  | inr (found, e) ↦
      let same : some found ≡ some addr = rw (e, resolve_lines) at h in
      let (ip, server, text) = resolve_line-some line (e ∙ same) in
      (
        [],
        line,
        ls,
        ip,
        refl,
        tt,
        server,
        subst (IsServerText ip) (sym text) (upstream_text-IsServerText ip),
      )
  | inl skip ↦
      let (before, l, behind, ip, split_at, skipped, server, text) =
        resolve_lines-some ls {addr = addr} (rw (skip, resolve_lines) at h) in
      (
        line ∷ before,
        l,
        behind,
        ip,
        ap (◌∷◌ line) split_at,
        ((λ other s. cc (skip, resolve_line-IsNameserver line other s)), skipped),
        server,
        text,
      )
]

-- A comment behind a line that has no `#` changes nothing.
resolve_line-comment :
    (raw_line comment : Text)
    → free b'#' raw_line ≡ true
    → resolve_line (raw_line ++ (b'#' ∷ comment)) ≡ resolve_line raw_line
unfolding resolve_line
resolve_line-comment raw_line comment h =
    rw (split-append b'#' raw_line comment h, split-free b'#' raw_line h) refl
