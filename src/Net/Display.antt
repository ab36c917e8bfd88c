-- ===== src/Net/Display.antt =====
-- `IpAddr`: `Display` and `FromStr`.
use dockerwall.Base.{ℕ, ◌≡◌, ◌<◌, ◌^◌, Option, none, some}
use dockerwall.Text.{Text}
use dockerwall.Net.{IpAddr, v4, v6}
use dockerwall.Net.Ipv4.{display_ipv4, parse_ipv4, parse_ipv4-display_ipv4}
use dockerwall.Net.Ipv6.{display_ipv6, parse_ipv6}

unfoldable pub display_ip : IpAddr → Text
unfolding display_ipv6
display_ip (v4 a) = display_ipv4 a
display_ip (v6 a) = display_ipv6 a

-- An IPv4 address, or else an IPv6 address.
unfoldable pub parse_ip : Text → Option IpAddr
unfolding parse_ipv6
parse_ip s = elim (parse_ipv4 s) [
  | some a ↦ some (v4 a)
  | none ↦ elim (parse_ipv6 s) [ some a ↦ some (v6 a) | none ↦ none ]
]

pub parse_ip-display_ipv4 : (a : ℕ) → a < 2 ^ 32 → parse_ip (display_ipv4 a) ≡ some (v4 a)
unfolding parse_ip
parse_ip-display_ipv4 a h = rw (parse_ipv4-display_ipv4 a h, parse_ip)
