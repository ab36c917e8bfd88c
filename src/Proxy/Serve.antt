-- ===== src/Proxy/Serve.antt =====
-- A request from its receipt to its response: `receive_dns_request`, `forward_dns_query` and
-- `send_dns_response`, and the task of `run_dns_proxy` that joins them. The sockets are a parameter.
pub mod Reply
use dockerwall.Base.{ℕ, Bool, ◌||◌, Option, none, some, List, [], ◌∷◌, if◌then◌else◌}
use dockerwall.Text.{Text, codes}
use dockerwall.Net.{IpAddr, v4, v6}
use dockerwall.Host.{Host}
use dockerwall.Result.{Result, ok, err, Prog, pure, fail, ◌>>=◌, ◌>>◌}
use dockerwall.Control.{Daemon}
use dockerwall.Proxy.{Message, inspect_and_update_state}

abbrev pub Bytes : Type 0
Bytes = List ℕ

-- `std::net::SocketAddr`
pub record SocketAddr : Type 0 where
  pub ip : IpAddr
  pub port : ℕ

-- `nix::sys::socket::ControlMessageOwned`, as far as the proxy tells them apart. Of the packet
-- information it reads `ipi_spec_dst`.
pub data ControlMessage : Type 0 where
  ipv4_packet_info : ℕ → ControlMessage
  other_control : ControlMessage

-- What `recvmsg` gives: the bytes in the buffer, the flags and the control messages.
pub record Received : Type 0 where
  pub bytes : Bytes
  pub address : Option SocketAddr
  pub msg_trunc : Bool
  pub msg_ctrunc : Bool
  pub cmsgs : Result (List ControlMessage)

-- The calls on the listener and on a socket for the DNS server. `sendmsg` takes `ipi_spec_dst`, the
-- other fields of its packet information being zero; the receipt of a response within five seconds
-- is none when the time is over.
pub record Sockets (W : Type 0) : Type 0 where
  pub recv_from : Prog W (Bytes × SocketAddr)
  pub recvmsg : Prog W Received
  pub send_to : Bytes → SocketAddr → Prog W (Unit {0})
  pub sendmsg : Bytes → ℕ → SocketAddr → Prog W (Unit {0})
  pub bind_upstream : Prog W (Unit {0})
  pub upstream_send_to : Bytes → SocketAddr → Prog W (Unit {0})
  pub upstream_recv_from : Prog W (Option Bytes)

-- The three results of `receive_dns_request`.
pub record Request : Type 0 where
  pub query : Bytes
  pub client_addr : SocketAddr
  pub reply_source : Option ℕ

-- `cmsgs().find_map(...)`
unfoldable pub packet_info : List ControlMessage → Option ℕ
packet_info [] = none
packet_info (ipv4_packet_info source ∷ messages) = some source
packet_info (other_control ∷ messages) = packet_info messages

unfoldable pub with_source : Bytes → SocketAddr → Result (List ControlMessage) → Result Request
with_source bytes client_addr (err message) = err message
with_source bytes client_addr (ok messages) = elim (packet_info messages) [
  | none ↦ err (codes "DNS packet has no destination address")
  | some source ↦
      ok (record { query = bytes; client_addr = client_addr; reply_source = some source })
]

unfoldable pub request_of : Received → Result Request
request_of message =
    if message.msg_trunc || message.msg_ctrunc
    then err (codes "truncated DNS packet")
    else elim message.address [
      | none ↦ err (codes "DNS packet has no source address")
      | some client_addr ↦ with_source message.bytes client_addr message.cmsgs
    ]

module _ {W : Type 0} (S : Sockets W) where
  unfoldable pub receive_dns_request : Bool → Prog W Request
  receive_dns_request receive_packet_info =
      if receive_packet_info
      then S.recvmsg >>= (λ message w. (request_of message, w))
      else S.recv_from >>= (λ packet.
        pure (record { query = packet.0; client_addr = packet.1; reply_source = none }))

  abbrev reply_from : Bytes → ℕ → SocketAddr → IpAddr → Prog W (Unit {0})
  reply_from response source client_addr (v4 ip) = S.sendmsg response source client_addr
  reply_from response source client_addr (v6 ip) =
      fail (codes "IPv4 packet information with an IPv6 client")

  unfoldable pub send_dns_response : Bytes → SocketAddr → Option ℕ → Prog W (Unit {0})
  send_dns_response response client_addr none = S.send_to response client_addr
  send_dns_response response client_addr (some source) =
      reply_from response source client_addr client_addr.ip

  abbrev response_in_time : Option Bytes → Prog W Bytes
  response_in_time none = fail (codes "upstream dns timeout")
  response_in_time (some response) = pure response

  unfoldable pub forward_dns_query : Bytes → SocketAddr → Prog W Bytes
  forward_dns_query query upstream_addr = do
    S.bind_upstream
    S.upstream_send_to query upstream_addr
    received ← S.upstream_recv_from
    response_in_time received

module _ (H : Host) (S : Sockets H.World) (decode : Bytes → Option Message)
    (upstream_addr : SocketAddr) (stats_ttl : ℕ) where
  -- The task behind its two permits, at the time `now`, on what the DNS server has answered. The
  -- errors of the last two steps are printed.
  unfoldable pub answer_request : Request → ℕ → Daemon → Result Bytes × H.World → Daemon × H.World
  answer_request request now d (err message, w) = (d, w)
  answer_request request now d (ok response, w) =
      let (d', w') =
        inspect_and_update_state H decode response request.client_addr.ip now stats_ttl (d, w) in
      (d', (send_dns_response S response request.client_addr request.reply_source w').1)

  unfoldable pub serve_request : Request → ℕ → Daemon × H.World → Daemon × H.World
  serve_request request now (d, w) =
      answer_request request now d (forward_dns_query S request.query upstream_addr w)
