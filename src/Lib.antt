-- ===== src/Lib.antt =====
-- Dockerwall: an outbound firewall for containers. A daemon (src/daemon.rs) runs a DNS proxy and a
-- control socket. Each managed set has patterns of allowed domains. When a response of the DNS
-- server answers a query for an allowed domain, its addresses are added to the set and pushed to the
-- kernel's ipsets, which the firewall rules of the network let through. A helper prepares networks.
--
-- The parts, and the file that models each:
--   Text, Net       what the program uses of the standard library: strings as lists of code points,
--                   IP addresses as numbers, their text and its parsers.
--   Result, Host    fallible code (`Result<T, Box<dyn Error>>`) and programs over a host. The host,
--                   that is the file system, child processes and sockets, is a parameter.
--   State           src/state.rs: `STATE`, `apply_resolved_ips`, `domain_matches_pattern`.
--   Ipset           src/ipset.rs: the commands of `update_ipset`. Ipset/Members states what they do to
--                   the kernel's sets, from the documented behaviour of `flush` and `add -exist`.
--   Trust           src/trust.rs: `is_trusted_binary`, and the two `resolve` functions that use it.
--   Stats           src/stats.rs: `register_network`, `record_resolve`, `ip_in_subnet`, and
--                   `get_stats_report` in Stats/Report.
--   Control         src/control.rs: `handle_control_connection` on the line that it has read, and the
--                   readers of responses. Manage: the requests of src/manage.rs.
--   Proxy           src/proxy.rs: `is_local_ip`, `inspect_and_update_state`; Proxy/Admission is the
--                   loop of `run_dns_proxy` with its two semaphores as a step relation, and Proxy/Serve
--                   one of its tasks: `receive_dns_request`, `forward_dns_query` and
--                   `send_dns_response` over the calls on the sockets, which are a parameter.
--   Cli             src/cli.rs and `main` of src/main.rs: the commands and the exit code, and
--                   `send_stats`. Upstream: `resolve_upstream_from_resolv_conf`.
--   Helper          src/helper.rs: the subnet of a Docker network, the source addresses of a rootless
--                   one, the commands that create sets and chains, the insertion of rules,
--                   the preparation of a Docker network with its retries, and that of a rootless one.
--                   Helper/Chain says what the rules make of a chain of iptables, and what the chain
--                   decides on a packet; what iptables does is a parameter with the documented laws.
--   System          the daemon as a whole: commands, responses and pushes in any order, and the
--                   responses whose pushes are not overtaken. System/Policy puts the rules of a network,
--                   the kernel's sets and the responses together, System/Answer a request and the
--                   pushes to the kernel that come before its answer.
--
-- A `HashMap` is an association list without duplicate keys and a `HashSet` a list without
-- duplicates; their order stands for the order of iteration, so what holds for every list holds for
-- every order. Machine integers are natural numbers with the wrap-around written out where an
-- operation may reach it. A time is a number of nanoseconds, so that a difference that would be
-- negative is zero, as the code makes it.
--
-- The one loop that need not end by itself is `remove_rule_all`; it is on fuel, and more fuel than
-- there are copies of the rule is enough. All other loops are structural; that of
-- `prepare_docker_network` makes 50 attempts.
--
-- Not modelled: `run_daemon`, which starts the two servers, the start of each of them and the accept
-- loop of `run_control_server`, which are I/O, what the helper prints, the decoding of DNS messages (a
-- parameter) and argument parsing, which is that of clap.
mod Base
pub mod Text
pub mod Net
pub mod Result
pub mod Host
pub mod Trust
pub mod Ipset
pub mod State
pub mod Stats
pub mod Cli
pub mod Control
pub mod Manage
pub mod Proxy
pub mod Upstream
pub mod Helper
pub mod System
mod Tests
