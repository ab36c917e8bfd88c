-- ===== src/Proxy/Serve/Reply.antt =====
-- From which address a response goes out, and to which.
use mathlib.Core.Option.{some-injective}
use dockerwall.Base.{
  [], ◌∷◌, ◌++◌, All, ℕ, ◌≡◌, refl, ap, sym, ◌∙◌, true, false, ◌||◌, Option, some, List, Bool-cases,
  Option-cases, inl, inr,
}
use dockerwall.Text.{codes}
use dockerwall.Net.{v4}
use dockerwall.Result.{Result, ok, err, >>=-eq-ok}
use dockerwall.Proxy.Serve.{
  Bytes, SocketAddr, ControlMessage, ipv4_packet_info, other_control, Received, Sockets, Request,
  packet_info, with_source, request_of, receive_dns_request, send_dns_response,
}

-- The documented type of `recvmsg::<SockaddrIn>`: the address is one of IPv4.
abbrev pub IsIpv4Only : {W : Type 0} → Sockets W → Type 0
IsIpv4Only {W} S =
    (w w' : W) (message : Received) (client_addr : SocketAddr)
    → S.recvmsg w ≡ (ok message, w')
    → message.address ≡ some client_addr
    → (ip : ℕ) × (client_addr.ip ≡ v4 ip)

-- What a request says of the packet that it comes from.
pub record IsRequestOf (request : Request) (message : Received) (source : ℕ) : Type 0 where
  pub whole : (message.msg_trunc || message.msg_ctrunc) ≡ false
  pub query : request.query ≡ message.bytes
  pub client : message.address ≡ some request.client_addr
  pub reply_source : request.reply_source ≡ some source
  pub messages : List ControlMessage
  pub controls : message.cmsgs ≡ ok messages
  pub before : List ControlMessage
  pub behind : List ControlMessage
  pub split : messages ≡ before ++ (ipv4_packet_info source ∷ behind)
  pub first : All (λ m. m ≡ other_control) before

packet_info-some :
    (messages : List ControlMessage) {source : ℕ}
    → packet_info messages ≡ some source
    → (before : List ControlMessage) × (behind : List ControlMessage) × (messages
        ≡ before ++ (ipv4_packet_info source ∷ behind))
      × All (λ m. m ≡ other_control) before
unfolding packet_info
packet_info-some [] h = absurd (cc)
packet_info-some (ipv4_packet_info found ∷ messages) h =
    ([], messages, ap (λ s. ipv4_packet_info s ∷ messages) (some-injective _ _ h), tt)
packet_info-some (other_control ∷ messages) {source} h =
    let (before, behind, e, first) = packet_info-some messages {source = source} h in
    (other_control ∷ before, behind, ap (λ ms. other_control ∷ ms) e, (refl, first))

with_source-ok :
    (bytes : Bytes) (client_addr : SocketAddr) (cmsgs : Result (List ControlMessage))
    {request : Request}
    → with_source bytes client_addr cmsgs ≡ ok request
    → (source : ℕ) × (messages : List ControlMessage) × (cmsgs ≡ ok messages)
      × (packet_info messages ≡ some source)
      × (record { query = bytes; client_addr = client_addr; reply_source = some source } ≡ request)
unfolding with_source
with_source-ok bytes client_addr (err message) h = absurd (cc)
with_source-ok bytes client_addr (ok messages) {request} h =
    elim (Option-cases (packet_info messages)) [
      | inl e ↦
          (let h' : err (codes "DNS packet has no destination address") ≡ ok request =
              rw (e, with_source) at h in
            absurd (cc))
      | inr (source, e) ↦
          (let h' : Result.ok
                  (record { query = bytes; client_addr = client_addr; reply_source = some source })
                ≡ ok request =
              rw (e, with_source) at h in
            (source, messages, refl, e, cc))
    ]

request_of-ok :
    (message : Received) {request : Request}
    → request_of message ≡ ok request
    → (source : ℕ) × IsRequestOf request message source
unfolding request_of
request_of-ok message {request} h = elim (Bool-cases (message.msg_trunc || message.msg_ctrunc)) [
  | inl e ↦ (let h' : err (codes "truncated DNS packet") ≡ ok request = rw e at h in absurd (cc))
  | inr e ↦ elim (Option-cases message.address) [
    | inl a ↦
        (let h' : err (codes "DNS packet has no source address") ≡ ok request = rw (e, a) at h in
          absurd (cc))
    | inr (client_addr, a) ↦
        (let h' : with_source message.bytes client_addr message.cmsgs ≡ ok request =
            rw (e, a) at h in
          let (source, messages, controls, found, fields) =
            with_source-ok message.bytes client_addr message.cmsgs h' in
          let (before, behind, split, first) = packet_info-some messages found in
          (
            source,
            record {
              whole = e;
              query = ap (λ r. r.query) (sym fields);
              client = a ∙ ap (λ r. some r.client_addr) fields;
              reply_source = ap (λ r. r.reply_source) (sym fields);
              messages = messages;
              controls = controls;
              before = before;
              behind = behind;
              split = split;
              first = first;
            },
          ))
  ]
]

send_dns_response-sendmsg :
    {W : Type 0} (S : Sockets W) (response : Bytes) (client_addr : SocketAddr) (source ip : ℕ)
    (v : W) {reply_source : Option ℕ}
    → reply_source ≡ some source
    → client_addr.ip ≡ v4 ip
    → send_dns_response S response client_addr reply_source v
      ≡ S.sendmsg response source client_addr v
unfolding send_dns_response
send_dns_response-sendmsg S response client_addr source ip v e h = rw (e, h) refl

-- Where the address that `recvmsg` gives is one of IPv4: a request received with packet information
-- is that of one whole packet, with its bytes, its sender and the destination address of the first
-- packet information among its control messages, no other one standing in front of it; and whatever
-- the response, it is sent with this address as its source to that sender, and never refused for
-- its family.
pub reply_address :
    {W : Type 0} (S : Sockets W) (ipv4_only : IsIpv4Only S) (w w' : W) (request : Request)
    → receive_dns_request S true w ≡ (ok request, w')
    → (message : Received) × (source : ℕ) × (S.recvmsg w ≡ (ok message, w'))
      × IsRequestOf request message source
      × ((response : Bytes) (v : W)
          → send_dns_response S response request.client_addr request.reply_source v
            ≡ S.sendmsg response source request.client_addr v)
unfolding receive_dns_request
reply_address {W} S ipv4_only w w' request h =
    let (message, v, received, rest) =
      >>=-eq-ok S.recvmsg (λ message w. (request_of message, w)) w h in
    let (source, facts) = request_of-ok message (ap (λ t. t.0) rest) in
    let (ip, v4_client) = ipv4_only w v message request.client_addr received facts.client in
    (
      message,
      source,
      received ∙ ap (λ u. (Result.ok message, u)) (ap (λ t. t.1) rest),
      facts,
      λ response u.
          send_dns_response-sendmsg S response request.client_addr source ip u facts.reply_source
            v4_client,
    )
