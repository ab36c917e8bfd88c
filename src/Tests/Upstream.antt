-- ===== src/Tests/Upstream.antt =====
-- The DNS server of a resolv.conf with a comment and a search line.
use dockerwall.Base.{◌≡◌, refl, some, List, [], ◌∷◌, ◌++◌, All, list_eq, nat_eq}
use dockerwall.Text.{
  Text, codes, trim, trim_end_matches, trim_start_matches, is_whitespace, split, split_whitespace,
  split_by, nonempty,
}
use dockerwall.Text.Decimal.{to_decimal}
use dockerwall.Net.{IpAddr}
use dockerwall.Net.Number.{read_number, span_digits, to_digit}
use dockerwall.Net.Ipv4.{display_ipv4, read_ipv4, read_octet, read_dot_octet, read_char, parse_ipv4}
use dockerwall.Net.Display.{parse_ip}
use dockerwall.Upstream.{upstream_text, nameserver_of, resolve_line, resolve_lines}
use dockerwall.Upstream.First.{IsNameserver, IsServerText, resolve_lines-some}

abbrev resolv_lines : List Text
resolv_lines = codes "search lan # nameserver 1.1.1.1" ∷ codes "  nameserver 9.9.9.9 # dns" ∷ []

quad9 : resolve_lines resolv_lines ≡ some (codes "9.9.9.9:53")
unfolding trim trim_end_matches trim_start_matches is_whitespace split split_whitespace split_by
    nonempty to_decimal read_number span_digits to_digit display_ipv4 read_ipv4 read_octet
    read_dot_octet read_char parse_ipv4 parse_ip upstream_text nameserver_of resolve_line
    resolve_lines list_eq nat_eq
quad9 = refl

resolve_lines-some_example :
    (before : List Text) × (line : Text) × (behind : List Text) × (ip : IpAddr) × (resolv_lines
      ≡ before ++ (line ∷ behind))
    × All (λ l. (other : IpAddr) → ¬ IsNameserver l other) before
    × IsNameserver line ip
    × IsServerText ip (codes "9.9.9.9:53")
resolve_lines-some_example = resolve_lines-some resolv_lines quad9
