-- ===== src/Upstream.antt =====
-- src/main.rs: `resolve_upstream_from_resolv_conf`, the DNS server that the proxy asks where no
-- other is given.
pub mod First
use dockerwall.Base.{
  Bool, true, false, Option, none, some, List, [], ◌∷◌, ◌++◌, if◌then◌else◌, ◌==◌, list_eq, nat_eq,
  is_empty,
}
use dockerwall.Text.{Text, codes, trim, split, split_whitespace, lines}
use dockerwall.Net.{IpAddr, v4, v6}
use dockerwall.Net.Ipv4.{display_ipv4}
use dockerwall.Net.Ipv6.{display_ipv6}
use dockerwall.Net.Display.{parse_ip}
use dockerwall.Stats.Subnet.{piece}
use dockerwall.Host.{Host}

unfoldable pub upstream_text : IpAddr → Text
upstream_text (v4 addr) = display_ipv4 addr ++ codes ":53"
upstream_text (v6 addr) = codes "[" ++ (display_ipv6 addr ++ codes "]:53")

-- The words of a line, behind the first two tests of the loop.
unfoldable pub nameserver_of : List Text → Option Text
nameserver_of [] = none
nameserver_of (first ∷ []) = none
nameserver_of (first ∷ ip_text ∷ _) =
    if first == codes "nameserver"
    then elim (parse_ip ip_text) [ none ↦ none | some ip ↦ some (upstream_text ip) ]
    else none

-- One round of the loop; none where the code goes on.
unfoldable pub resolve_line : Text → Option Text
resolve_line raw_line =
    let line = trim (piece 0 (split b'#' raw_line)) in
    if is_empty line then none else nameserver_of (split_whitespace line)

unfoldable pub resolve_lines : List Text → Option Text
resolve_lines [] = none
resolve_lines (raw_line ∷ rest) =
    let later = resolve_lines rest in
    elim (resolve_line raw_line) [ none ↦ later | some addr ↦ some addr ]

-- `None` where the file cannot be read.
unfoldable pub resolve_upstream : Option Text → Option Text
resolve_upstream none = none
resolve_upstream (some contents) = resolve_lines (lines contents)

module _ (H : Host) where
  unfoldable pub resolve_upstream_from_resolv_conf : H.World → Option Text
  resolve_upstream_from_resolv_conf w = resolve_upstream (H.read_file (codes "/etc/resolv.conf") w)

  -- `dns_upstream_addr` of the daemon.
  unfoldable pub upstream_or_default : Option Text → H.World → Text
  upstream_or_default (some addr) w = addr
  upstream_or_default none w = elim (resolve_upstream_from_resolv_conf w) [
    | some addr ↦ addr
    | none ↦ codes "1.1.1.1:53"
  ]
