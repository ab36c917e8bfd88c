-- ===== src/Tests/Whitelist.antt =====
-- One run of the daemon: a network is created, a container resolves a name, and the address is pushed.
use dockerwall.Base.{
  ◌≡◌, ◌⊎◌, refl, true, false, ◌&&◌, List, [], ◌∷◌, if◌then◌else◌, ◌==◌, list_eq, nat_eq,
}
use dockerwall.Base.Assoc.{insert}
use dockerwall.Text.{
  Text, codes, strip_prefix, ends_with, trim, trim_end_matches, trim_start_matches, is_whitespace,
  split, splitn, to_lower, to_ascii_lowercase,
}
use dockerwall.Net.{IpAddr, v4, ip_eq}
use dockerwall.State.{
  normalize_domain, domain_matches_pattern, any_pattern, matches_ipset, insert_ip, extend_ips,
  apply_to_set, apply_loop, apply_resolved_ips,
}
use dockerwall.Ipset.{set_for, add_commands, update_commands, ipv6_ipset_name}
use dockerwall.Ipset.Members.{exec_all}
use dockerwall.Control.{
  Daemon, trimmed_pieces, parse_domains, create, handle_create, handle_change, handle_command,
}
use dockerwall.Proxy.{
  Message, a, collect_resolved_ips, query_domain, query_domains, inspect_message,
}
use dockerwall.System.{System, fresh_daemon, here, History, Run, boot, command, response, push}
use dockerwall.System.Allowed.{WasAllowed}
use dockerwall.System.Safety.{kernel_allowed}
use dockerwall.Tests.Kernel.{Sets, exec_sets, in_set, no_sets, exec_sets_laws}

abbrev line : Text
line = codes "CREATE\tnet\t\t*.example.com\n"

abbrev answer : Message
answer = record { queries = codes "www.example.com." ∷ []; answers = a 0x01020304 ∷ [] }

abbrev made : Daemon
unfolding handle_command
made = (handle_command 53 0 line fresh_daemon).1

abbrev ips : List IpAddr
ips = v4 0x01020304 ∷ []

abbrev pushed : Sets
pushed n ip =
    if n == codes "net" && ip == v4 0x01020304
    then true
    else if n == ipv6_ipset_name (codes "net")
    then false
    else if n == codes "net"
    then false
    else false

abbrev history : History
history = (answer, (handle_command 53 0 line fresh_daemon).1.state) ∷ []

abbrev final : System Sets
final = record {
  daemon =
      (inspect_message answer (v4 0x0a000001) 0 60 (handle_command 53 0 line fresh_daemon).1).1;
  pending = [];
  kernel = pushed;
}

one-Run : Run exec_sets no_sets history final
unfolding handle_command handle_change handle_create create parse_domains trimmed_pieces
    strip_prefix trim trim_end_matches trim_start_matches is_whitespace split splitn list_eq nat_eq
    ip_eq insert inspect_message collect_resolved_ips query_domains query_domain to_ascii_lowercase
    to_lower apply_resolved_ips apply_loop apply_to_set matches_ipset any_pattern
    domain_matches_pattern normalize_domain ends_with insert_ip extend_ips exec_all update_commands
    add_commands set_for
one-Run =
    push (codes "net") ips [] (update_commands (codes "net") ips) [] pushed
      (response answer (v4 0x0a000001) 0 60 (command 53 0 line boot)) here refl refl

kernel_allowed_example :
    (no_sets (codes "net") (v4 0x01020304) ≡ true)
    ⊎ ((name : Text) × (codes "net" ≡ set_for name (v4 0x01020304))
        × WasAllowed history name (v4 0x01020304))
kernel_allowed_example =
    kernel_allowed exec_sets in_set exec_sets_laws no_sets (codes "net") (v4 0x01020304) one-Run
      held
  where
    held : pushed (codes "net") (v4 0x01020304) ≡ true
    held = unfold list_eq in unfold nat_eq in unfold ip_eq in refl
