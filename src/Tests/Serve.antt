-- ===== src/Tests/Serve.antt =====
-- A socket with one packet from a container, as the proxy on a wildcard address sees it.
use dockerwall.Base.{ℕ, ◌≡◌, refl, sym, ap, false, some, List, [], ◌∷◌}
use dockerwall.Net.{v4}
use dockerwall.Result.{ok, pure}
use dockerwall.Proxy.Serve.{
  Bytes, SocketAddr, ipv4_packet_info, other_control, Received, Sockets, Request, packet_info,
  with_source, request_of, receive_dns_request, send_dns_response,
}
use dockerwall.Proxy.Serve.Reply.{IsRequestOf, IsIpv4Only, reply_address}

-- What was sent so far: the bytes, the source address and the destination.
abbrev Sent : Type 0
Sent = List (Bytes × ℕ × SocketAddr)

abbrev container : SocketAddr
container = record { ip = v4 2885681154; port = 40000 }

abbrev packet : Received
packet = record {
  bytes = 7 ∷ 1 ∷ [];
  address = some container;
  msg_trunc = false;
  msg_ctrunc = false;
  cmsgs = ok (other_control ∷ ipv4_packet_info 2130706433 ∷ []);
}

abbrev sockets : Sockets Sent
sockets = record {
  recv_from = pure (7 ∷ 1 ∷ [], container);
  recvmsg = pure packet;
  send_to = λ bytes client_addr. pure tt;
  sendmsg = λ bytes source client_addr sent. (ok tt, (bytes, source, client_addr) ∷ sent);
  bind_upstream = pure tt;
  upstream_send_to = λ bytes upstream_addr. pure tt;
  upstream_recv_from = pure (some (9 ∷ []));
}

abbrev request : Request
request = record { query = 7 ∷ 1 ∷ []; client_addr = container; reply_source = some 2130706433 }

sockets-IsIpv4Only : IsIpv4Only sockets
sockets-IsIpv4Only w w' message client_addr received address =
    let same : Received.address packet ≡ message.address = cc in
    let client : container ≡ client_addr = cc in (2885681154, ap (λ c. c.ip) (sym client))

reply_address_example :
    (message : Received) × (source : ℕ) × (sockets.recvmsg [] ≡ (ok message, []))
    × IsRequestOf request message source
    × ((response : Bytes) (v : Sent)
        → send_dns_response sockets response request.client_addr request.reply_source v
          ≡ sockets.sendmsg response source request.client_addr v)
unfolding receive_dns_request request_of with_source packet_info
reply_address_example = reply_address sockets sockets-IsIpv4Only [] [] request refl
