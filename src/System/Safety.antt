-- ===== src/System/Safety.antt =====
-- Where the addresses come from that the kernel lets through.
use dockerwall.Base.{
  ℕ, ◌≡◌, ◌⊎◌, inl, inr, sym, ap, ◌∙◌, Bool, true, false, ◌&&◌, ◌||◌, Option, some, List, [], ◌∷◌,
  ◌++◌, ◌==◌, ==_iff, list_eq, nat_eq, contains, any, any-append, All, Option-cases, or_true,
  and_true, arith,
}
use dockerwall.Text.{Text}
use dockerwall.Net.{IpAddr, ip_eq}
use dockerwall.State.{State, Changed}
use dockerwall.Ipset.{Command, flush, add, set_for, add_commands, update_commands}
use dockerwall.Ipset.Members.{RestoreLaws, exec_all}
use dockerwall.Proxy.{Message, inspect_message}
use dockerwall.System.{System, Takes, History, Run, boot, command, response, push}
use dockerwall.System.Steps.{handle_command-Edits, All-Edits}
use dockerwall.System.Allowed.{
  WasAllowed, AllAllowed, SetAllowed, All-weaken, All-append, All-Takes, inspect_message-allowed,
}

module _ {K : Type 0} (exec : Command → K → Option K) (member : K → Text → IpAddr → Bool)
    (laws : RestoreLaws exec member) where
  abbrev adds : Text → IpAddr → Command → Bool
  adds n a (flush name) = false
  adds n a (add name ip) = n == name && a == ip

  -- Commands only let through what they add.
  exec_all-adds :
      (cs : List Command) (k k' : K) (n : Text) (a : IpAddr)
      → exec_all exec cs k ≡ some k'
      → member k' n a ≡ true
      → (member k n a || any (adds n a) cs) ≡ true
  unfolding exec_all
  exec_all-adds [] k k' n a e m = ground arith
  exec_all-adds (flush name ∷ cs) k k' n a e m = elim (Option-cases (exec (flush name) k)) [
    | inl stop ↦ absurd (ground arith)
    | inr (k1, one) ↦
        ground (arith, laws.flush_members name k k1 n a one, exec_all-adds cs k1 k' n a)
  ]
  exec_all-adds (add name ip ∷ cs) k k' n a e m = elim (Option-cases (exec (add name ip) k)) [
    | inl stop ↦ absurd (ground arith)
    | inr (k1, one) ↦
        ground (arith, laws.add_members name ip k k1 n a one, exec_all-adds cs k1 k' n a)
  ]

  adds-add_commands :
      (name : Text) (ips : List IpAddr) (n : Text) (a : IpAddr)
      → any (adds n a) (add_commands name ips) ≡ true
      → (n ≡ set_for name a) × (contains ips a ≡ true)
  unfolding add_commands
  adds-add_commands name [] n a h = cc
  adds-add_commands name (ip ∷ ips) n a h = elim (or_true (n == set_for name ip && a == ip) _ h) [
    | inl now ↦
        let (p, q) = and_true (n == set_for name ip) _ now in
        (
          (==_iff n (set_for name ip)).0 p ∙ ap (set_for name) (sym ((==_iff a ip).0 q)),
          ground arith,
        )
    | inr behind_it ↦ let (p, q) = adds-add_commands name ips n a behind_it in (p, ground arith)
  ]

  -- The part of a push that is done only lets through addresses of the push.
  push_members :
      (name : Text) (ips : List IpAddr) (done left : List Command) (k k' : K) (n : Text)
      (a : IpAddr)
      → done ++ left ≡ update_commands name ips
      → exec_all exec done k ≡ some k'
      → member k' n a ≡ true
      → (member k n a ≡ true) ⊎ ((n ≡ set_for name a) × (contains ips a ≡ true))
  unfolding update_commands
  push_members name ips done left k k' n a whole e m =
      elim (or_true (member k n a) _ (exec_all-adds done k k' n a e m)) [
        | inl held ↦ inl held
        | inr new ↦ inr (
            adds-add_commands name ips n a
              (ap (any (adds n a)) (sym whole) ∙ any-append (adds n a) done left ∙ ground arith))
      ]

  module _ (k0 : K) where
    record IsSound (h : History) (s : System K) : Type 0 where
      pub sets : All (SetAllowed h) s.daemon.state
      pub pushes : All (AllAllowed h) s.pending
      pub members :
          (n : Text) (a : IpAddr)
          → member s.kernel n a ≡ true
          → (member k0 n a ≡ true) ⊎ ((name : Text) × (n ≡ set_for name a) × WasAllowed h name a)

    response-IsSound :
        (message : Message) (origin : IpAddr) (now ttl : ℕ) (h : History) (s : System K)
        → IsSound h s
        → IsSound ((message, s.daemon.state) ∷ h) (record s {
          daemon = (inspect_message message origin now ttl s.daemon).1;
          pending = (inspect_message message origin now ttl s.daemon).0 ++ s.pending;
        })
    response-IsSound message origin now ttl h s i =
        let r : Message × State = (message, s.daemon.state) in
        let (pushes, sets) = inspect_message-allowed message origin now ttl h s.daemon i.sets in
        record {
          sets = sets;
          pushes =
              All-append (AllAllowed (r ∷ h)) _ s.pending pushes
                (All-weaken r h s.pending i.pushes);
          members = λ n a m. elim (i.members n a m) [
            | inl held ↦ inl held
            | inr (name, e, w) ↦ inr (name, e, inr w)
          ];
        }

    push-IsSound :
        (name : Text) (ips : List IpAddr) (rest : Changed) (done left : List Command) (k : K)
        (h : History) (s : System K)
        → IsSound h s
        → Takes (name, ips) s.pending rest
        → done ++ left ≡ update_commands name ips
        → exec_all exec done s.kernel ≡ some k
        → IsSound h (record s { pending = rest; kernel = k })
    push-IsSound name ips rest done left k h s i t whole e =
        let (one, others) = All-Takes (AllAllowed h) t i.pushes in
        record {
          sets = i.sets;
          pushes = others;
          members = λ n a m. elim (push_members name ips done left s.kernel k n a whole e m) [
            | inl held ↦ i.members n a held
            | inr (p, c) ↦ inr (name, p, one a c)
          ];
        }

    Run-IsSound : {h : History} {s : System K} → Run exec k0 h s → IsSound h s
    Run-IsSound boot = record { sets = tt; pushes = tt; members = λ n a m. inl m }
    Run-IsSound (command {h} {s} dns_port now line r) =
        let i = Run-IsSound r in
        record {
          sets =
              All-Edits (SetAllowed h) (λ name patterns ip m. cc)
                (handle_command-Edits dns_port now line s.daemon) i.sets;
          pushes = i.pushes;
          members = i.members;
        }
    Run-IsSound (response {h} {s} message origin now ttl r) =
        response-IsSound message origin now ttl h s (Run-IsSound r)
    Run-IsSound (push {h} {s} name ips rest done left k r t whole e) =
        push-IsSound name ips rest done left k h s (Run-IsSound r) t whole e

    -- Where the kernel obeys the laws of `flush` and `add -exist`, in every order of commands,
    -- responses and pushes, and also when pushes fail half-way: an address that the kernel's set
    -- `n` holds was there at the start, or it goes to `n` for some managed set, and a response
    -- resolved it that answered a query for a domain which one of the patterns matches that the set
    -- of this name had at that time.
    pub kernel_allowed :
        {h : History} {s : System K} (n : Text) (a : IpAddr)
        → Run exec k0 h s
        → member s.kernel n a ≡ true
        → (member k0 n a ≡ true) ⊎ ((name : Text) × (n ≡ set_for name a) × WasAllowed h name a)
    kernel_allowed n a r m = (Run-IsSound r).members n a m
