-- ===== src/Tests/Answer.antt =====
-- A request for a domain that a set admits, on a host with the kernel's sets and the sockets.
use mathlib.Core.Path.{subst}
use dockerwall.Base.{
  ◌≡◌, refl, sym, ap, true, false, ◌&&◌, ◌∙◌, Option, some, none, [], ◌∷◌, contains, if◌then◌else◌,
  ◌==◌, ==_refl, list_eq, nat_eq,
}
use dockerwall.Base.Assoc.{lookup, lookup-nil}
use dockerwall.Text.{
  Text, codes, strip_prefix, ends_with, trim_end_matches, to_lower, to_ascii_lowercase,
}
use dockerwall.Net.{IpAddr, v4, ip_eq}
use dockerwall.Text.Decimal.{to_decimal}
use dockerwall.Net.Ipv4.{display_ipv4}
use dockerwall.Host.{Host, Output}
use dockerwall.Result.{Result, ok, err, pure}
use dockerwall.State.{
  ManagedIpset, normalize_domain, domain_matches_pattern, any_pattern, matches_ipset, insert_ip,
  extend_ips, apply_to_set, apply_loop, apply_resolved_ips,
}
use dockerwall.State.Growth.{IsAdmitted}
use dockerwall.Ipset.{
  update_commands, render_all, set_for, update_ipset, ipv6_ipset_name, add_commands,
  resolve_ipset_binary, check_restore,
}
use dockerwall.Trust.{first_trusted, is_trusted_binary, is_trusted}
use dockerwall.Ipset.Members.{exec_all}
use dockerwall.Ipset.Restored.{IsRestoring}
use dockerwall.Control.{Daemon}
use dockerwall.Proxy.{Message, collect_resolved_ips, query_domain, query_domains, inspect_message}
use dockerwall.Proxy.Serve.{
  Bytes, SocketAddr, Sockets, Request, forward_dns_query, send_dns_response, serve_request,
}
use dockerwall.System.Refinement.{Mirrors}
use dockerwall.System.Answer.{AllPushed, AllRestoring, serve_request-reachable}
use dockerwall.Tests.Kernel.{Sets, exec_sets, in_set, exec_sets_laws}
use dockerwall.Tests.Mirror.{web_state, web_daemon, web_answer, web_sets, web-Mirrors, web-IsApart}

abbrev push_text : Text
push_text = render_all (update_commands (codes "web") (v4 7 ∷ v4 1 ∷ []))

abbrev fine : Output
fine = record { success = true; stdout = []; stderr = [] }

-- Behind the one push, on every set.
abbrev pushed : Sets → Sets
pushed k n ip =
    if n == codes "web" && ip == v4 1
    then true
    else if n == codes "web" && ip == v4 7
    then true
    else if n == ipv6_ipset_name (codes "web")
    then false
    else if n == codes "web"
    then false
    else k n ip

abbrev sets_host : Host
sets_host = record {
  World = Sets;
  metadata = λ path w. some (record { is_file = true; uid = 0; mode = 0o755 });
  run = λ program args input w.
      if input == push_text then (ok fine, pushed w) else (err (codes "no such command"), w);
  read_file = λ path w. none;
  request = λ payload w. (err [], w);
  spawn_daemon = λ w. (err [], w);
  sleep = λ time w. w;
}

abbrev client : SocketAddr
client = record { ip = v4 2; port = 40000 }

abbrev upstream : SocketAddr
upstream = record { ip = v4 16843009; port = 53 }

abbrev net_sockets : Sockets Sets
net_sockets = record {
  recv_from = pure (7 ∷ [], client);
  recvmsg = λ w. (err [], w);
  send_to = λ bytes client_addr. pure tt;
  sendmsg = λ bytes source client_addr. pure tt;
  bind_upstream = pure tt;
  upstream_send_to = λ bytes upstream_addr. pure tt;
  upstream_recv_from = pure (some (9 ∷ []));
}

abbrev decode : Bytes → Option Message
decode bytes = some web_answer

abbrev query : Request
query = record { query = 7 ∷ []; client_addr = client; reply_source = none }

carried :
    (w : Sets)
    → exec_all exec_sets (update_commands (codes "web") (v4 7 ∷ v4 1 ∷ [])) w ≡ some (pushed w)
unfolding exec_all update_commands add_commands set_for ip_eq
carried w = refl

web-IsRestoring : IsRestoring sets_host exec_sets (λ k. k) (codes "web") (v4 7 ∷ v4 1 ∷ [])
web-IsRestoring binary w w' output h success =
    let ran : ◌≡◌ {A = Result Output × Sets} (ok fine, pushed w) (ok output, w') =
      rw (==_refl push_text) at h in
    carried w ∙ ap (λ r. some (r.1)) ran

web_changed :
    (inspect_message web_answer (v4 2) 0 60 web_daemon).0 ≡ (codes "web", v4 7 ∷ v4 1 ∷ []) ∷ []
unfolding strip_prefix trim_end_matches list_eq nat_eq ip_eq inspect_message collect_resolved_ips
    query_domains query_domain to_ascii_lowercase to_lower apply_resolved_ips apply_loop
    apply_to_set matches_ipset any_pattern domain_matches_pattern normalize_domain ends_with
    insert_ip extend_ips
web_changed = refl

web_updates : AllPushed sets_host ((codes "web", v4 7 ∷ v4 1 ∷ []) ∷ []) web_sets
unfolding update_ipset resolve_ipset_binary check_restore first_trusted is_trusted_binary is_trusted
    list_eq nat_eq ipv6_ipset_name add_commands set_for display_ipv4 to_decimal
web_updates = (refl, tt)

serve_request-reachable_example :
    (d' : Daemon) × (u : Sets) × (serve_request sets_host net_sockets decode upstream 60 query 0
        (web_daemon, web_sets)
      ≡ (d', (send_dns_response net_sockets (9 ∷ []) client none u).1))
    × Mirrors in_set d'.state u
    × ((name : Text) (m : ManagedIpset) (ip : IpAddr)
        → lookup name web_state ≡ some m
        → IsAdmitted (query_domains web_answer.queries) m
        → contains (collect_resolved_ips web_answer.answers) ip ≡ true
        → u (set_for name ip) ip ≡ true)
unfolding forward_dns_query
serve_request-reachable_example =
    serve_request-reachable sets_host exec_sets (λ k. k) in_set exec_sets_laws net_sockets decode
      upstream 60 0 query web_daemon web_sets web_sets (9 ∷ []) web_answer refl refl
      (lookup-nil (codes "web"), tt) web-IsApart web-Mirrors
      (subst (AllRestoring sets_host exec_sets (λ k. k)) (sym web_changed) (web-IsRestoring, tt))
      (subst (λ c. AllPushed sets_host c web_sets) (sym web_changed) web_updates)
