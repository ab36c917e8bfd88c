-- ===== src/System/Answer.antt =====
-- When a client gets its answer: `serve_request` on a host whose `ipset restore` changes the
-- kernel's sets.
use dockerwall.Base.{
  ℕ, ◌≡◌, refl, ap, ◌∙◌, inr, Bool, true, Option, some, List, [], ◌∷◌, contains, list_eq, nat_eq,
}
use dockerwall.Base.Assoc.{lookup, NodupKeys}
use dockerwall.Text.{Text}
use dockerwall.Net.{IpAddr, v4, v6, ip_eq}
use dockerwall.Host.{Host}
use dockerwall.Result.{ok}
use dockerwall.State.{Changed, ManagedIpset}
use dockerwall.State.Growth.{IsAdmitted, apply_resolved_ips_grows}
use dockerwall.Ipset.{Command, update_ipset, set_for}
use dockerwall.Ipset.Members.{RestoreLaws}
use dockerwall.Ipset.Restored.{IsRestoring, update_ipset-exec_all}
use dockerwall.Control.{Daemon}
use dockerwall.Proxy.{
  Message, collect_resolved_ips, query_domains, inspect_message, push_sets,
  inspect_and_update_state,
}
use dockerwall.Proxy.Serve.{
  Bytes, SocketAddr, Sockets, Request, forward_dns_query, send_dns_response, answer_request,
  serve_request,
}
use dockerwall.System.Mirror.{IsApart, push_all, Holds}
use dockerwall.System.Refinement.{Mirrors, inspect_message-sets, inspect_message-Mirrors}

-- Every push of a response succeeds.
abbrev pub AllPushed : (H : Host) → Changed → H.World → Type 0
AllPushed H [] w = Unit {0}
AllPushed H ((name, ips) ∷ changed) w =
    ((update_ipset H name ips w).0 ≡ ok tt) × AllPushed H changed (update_ipset H name ips w).1

-- `ipset restore` behaves as documented on the pushes of a response.
abbrev pub AllRestoring :
    {K : Type 0} (H : Host) → (Command → K → Option K) → (H.World → K) → Changed → Type 0
AllRestoring H exec kernel [] = Unit {0}
AllRestoring H exec kernel ((name, ips) ∷ changed) =
    IsRestoring H exec kernel name ips × AllRestoring H exec kernel changed

-- An address that the daemon's set holds is in the kernel's set for its version.
Holds-contains :
    {K : Type 0} (member : K → Text → IpAddr → Bool) (k : K) (name : Text) (ips : List IpAddr)
    (a : IpAddr)
    → Holds member k name ips
    → contains ips a ≡ true
    → member k (set_for name a) a ≡ true
unfolding set_for
Holds-contains member k name ips (v4 a) held h = (held (v4 a)).0 ∙ h
Holds-contains member k name ips (v6 a) held h = (held (v6 a)).1 ∙ h

module _ (H : Host) {K : Type 0} (exec : Command → K → Option K) (kernel : H.World → K) where
  push_sets-push_all :
      (changed : Changed) (w : H.World)
      → AllRestoring H exec kernel changed
      → AllPushed H changed w
      → push_all exec changed (kernel w) ≡ some (kernel (push_sets H changed w))
  unfolding push_all push_sets
  push_sets-push_all [] w restoring h = refl
  push_sets-push_all ((name, ips) ∷ changed) w (restoring, others) (fine, rest) =
      let first =
        update_ipset-exec_all H exec kernel name ips w (update_ipset H name ips w).1 restoring
          (ap (λ r. (r, (update_ipset H name ips w).1)) fine) in
      rw (first, push_all) (push_sets-push_all changed (update_ipset H name ips w).1 others rest)

  module _ (member : K → Text → IpAddr → Bool) (laws : RestoreLaws exec member)
      (S : Sockets H.World) (decode : Bytes → Option Message) (upstream_addr : SocketAddr) where
    -- Where ipset obeys its documented laws, on the input of the pushes too, each name stands once
    -- and no name is that of another one's IPv6 set: if the DNS server has answered a request with
    -- a message that decodes, the kernel holds the daemon's addresses at that time and the pushes
    -- that the message asks for succeed, then the answer is sent to the client that asked, and when
    -- it is sent, the kernel's sets hold the addresses of the daemon's new state, with every
    -- address of the message in every set that admits a queried domain.
    pub serve_request-reachable :
        (stats_ttl now : ℕ) (request : Request) (d : Daemon) (w v : H.World) (response : Bytes)
        (message : Message)
        → forward_dns_query S request.query upstream_addr w ≡ (ok response, v)
        → decode response ≡ some message
        → NodupKeys d.state
        → ((name : Text) (m : ManagedIpset) → lookup name d.state ≡ some m → IsApart name d.state)
        → Mirrors member d.state (kernel v)
        → AllRestoring H exec kernel
            (inspect_message message request.client_addr.ip now stats_ttl d).0
        → AllPushed H (inspect_message message request.client_addr.ip now stats_ttl d).0 v
        → (d' : Daemon) × (u : H.World) × (serve_request H S decode upstream_addr stats_ttl request
              now
              (d, w)
            ≡ (d', (send_dns_response S response request.client_addr request.reply_source u).1))
          × Mirrors member d'.state (kernel u)
          × ((name : Text) (m : ManagedIpset) (a : IpAddr)
              → lookup name d.state ≡ some m
              → IsAdmitted (query_domains message.queries) m
              → contains (collect_resolved_ips message.answers) a ≡ true
              → member (kernel u) (set_for name a) a ≡ true)
    unfolding serve_request answer_request inspect_and_update_state
    serve_request-reachable stats_ttl now request d w v response message answered decoded u apart
          mirror restoring pushed =
        let inspected = inspect_message message request.client_addr.ip now stats_ttl d in
        let done = push_sets-push_all inspected.0 v restoring pushed in
        let after =
          inspect_message-Mirrors exec member laws message request.client_addr.ip now stats_ttl d
            (kernel v) (kernel (push_sets H inspected.0 v)) u apart mirror done in
        (
          inspected.1,
          push_sets H inspected.0 v,
          ap (answer_request H S decode upstream_addr stats_ttl request now d) answered
              ∙ rw (decoded, inspect_and_update_state) refl,
          after,
          λ name m a found admits resolved.
              let (m', found', patterns, grows) =
                apply_resolved_ips_grows (query_domains message.queries)
                  (collect_resolved_ips message.answers) d.state name found in
              let here : lookup name inspected.1.state ≡ some m' =
                ap (lookup name)
                  (inspect_message-sets message request.client_addr.ip now stats_ttl d).1
                ∙ found' in
              Holds-contains member (kernel (push_sets H inspected.0 v)) name m'.ips a
                (after name m' here) ((grows a).1 (inr (admits, resolved))),
        )
