-- ===== src/Tests.antt =====
-- Runs at concrete inputs, and the theorems at inputs that meet their hypotheses.
mod Parts
mod Daemon
mod Whitelist
mod Kernel
mod Upstream
mod Docker
mod Table
mod Filter
mod Deny
mod Rootless
mod Mirror
mod Policy
mod Serve
mod Session
mod Report
mod Answer
use Prim.Native.String.{String}
use dockerwall.Base.{ℕ, ◌≡◌, refl, Option, none, some, ◌*◌, ◌^◌, ◌+◌}
use dockerwall.Text.{Text, codes, starts_with, join}
use dockerwall.Text.Decimal.{to_decimal}
use dockerwall.Net.{segments, of_segments, to_ipv4_mapped}
use dockerwall.Net.Number.{read_number, span_digits, to_digit}
use dockerwall.Net.Ipv4.{display_ipv4, read_ipv4, read_octet, read_dot_octet, read_char, parse_ipv4}
use dockerwall.Net.Ipv6.{display_ipv6, parse_ipv6}

ipv6_reads : parse_ipv6 (codes "2001:db8::1") ≡ some (0x20010db8 * 2 ^ 96 + 1)
unfolding parse_ipv6 read_number span_digits to_digit read_ipv4 read_octet read_dot_octet read_char
ipv6_reads = refl

ipv6_shows : display_ipv6 (0x20010db8 * 2 ^ 96 + 1) ≡ codes "2001:db8::1"
unfolding display_ipv6
ipv6_shows = refl

ipv6_mapped : parse_ipv6 (codes "::ffff:1.2.3.4") ≡ some (0xffff * 2 ^ 32 + 0x01020304)
unfolding parse_ipv6 read_number span_digits to_digit read_ipv4 read_octet read_dot_octet read_char
ipv6_mapped = refl
