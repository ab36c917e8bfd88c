-- ===== src/System.antt =====
-- src/daemon.rs, and how the parts of the daemon act on each other: commands on the control socket,
-- responses of the proxy and pushes to the kernel's sets, in any order. A response changes the
-- state under its lock, and the pushes that it asks for follow when the lock is free again.
pub mod Steps
pub mod Allowed
pub mod Safety
pub mod Mirror
pub mod Refinement
pub mod Policy
pub mod Answer
use dockerwall.Base.{ℕ, ◌≡◌, Option, none, some, List, [], ◌∷◌, ◌++◌}
use dockerwall.Text.{Text}
use dockerwall.Net.{IpAddr}
use dockerwall.State.{State, Changed}
use dockerwall.Stats.{no_networks}
use dockerwall.Ipset.{Command, update_commands}
use dockerwall.Ipset.Members.{exec_all}
use dockerwall.Control.{Daemon, handle_command}
use dockerwall.Proxy.{Message, inspect_message}

-- The daemon when it starts.
abbrev pub fresh_daemon : Daemon
fresh_daemon = record { state = []; networks = no_networks; stats = [] }

-- The daemon, the pushes that are under way, and the kernel's sets.
pub record System (K : Type 0) : Type 0 where
  pub daemon : Daemon
  pub pending : Changed
  pub kernel : K

-- One push, taken from any place of those that are under way.
pub data Takes : Text × List IpAddr → Changed → Changed → Type 0 where
  here : {p : Text × List IpAddr} {ps : Changed} → Takes p (p ∷ ps) ps
  later :
      {p q : Text × List IpAddr} {ps rest : Changed} → Takes p ps rest → Takes p (q ∷ ps) (q ∷ rest)

-- The responses so far, the last one first, each with the state of the sets that it met.
abbrev pub History : Type 0
History = List (Message × State)

-- The systems that can be reached from the sets `k0` of the kernel.
pub data Run {K : Type 0} (exec : Command → K → Option K) (k0 : K)
    : History → System K → Type 0 where
  boot : Run exec k0 [] (record { daemon = fresh_daemon; pending = []; kernel = k0 })
  -- A connection on the control socket.
  command :
      {h : History} {s : System K} (dns_port now : ℕ) (line : Text)
      → Run exec k0 h s
      → Run exec k0 h (record s { daemon = (handle_command dns_port now line s.daemon).1 })
  -- A response that a task of the proxy inspects.
  response :
      {h : History} {s : System K} (message : Message) (origin : IpAddr) (now ttl : ℕ)
      → Run exec k0 h s
      → Run exec k0 ((message, s.daemon.state) ∷ h) (record s {
        daemon = (inspect_message message origin now ttl s.daemon).1;
        pending = (inspect_message message origin now ttl s.daemon).0 ++ s.pending;
      })
  -- A push. One that fails has done the commands in front of the one that is refused.
  push :
      {h : History} {s : System K} (name : Text) (ips : List IpAddr) (rest : Changed)
      (done left : List Command) (k : K)
      → Run exec k0 h s
      → Takes (name, ips) s.pending rest
      → done ++ left ≡ update_commands name ips
      → exec_all exec done s.kernel ≡ some k
      → Run exec k0 h (record s { pending = rest; kernel = k })
