-- ===== src/Proxy/Admission.antt =====
-- The loop of `run_dns_proxy`: which requests get a task, and the limits on tasks. A semaphore is
-- the number of its free permits; a task waits for the permit of its client, then it forwards.
use dockerwall.Base.{
  ℕ, zero, suc, ◌+◌, ◌-◌, Bool, true, false, not, Option, none, some, List, [], ◌∷◌, eqb,
  if◌then◌else◌, ◌==◌, list_eq, nat_eq,
}
use dockerwall.Base.Assoc.{Dict, lookup, insert}
use dockerwall.Net.{IpAddr, ip_eq}
use dockerwall.Proxy.{is_local_ip}

abbrev pub max_concurrent_per_ip : ℕ
max_concurrent_per_ip = 32

abbrev pub max_concurrent_global : ℕ
max_concurrent_global = 10000

-- A task that was spawned: for whom, and whether it has the permit of its client.
pub record Task : Type 0 where
  pub client : IpAddr
  pub forwards : Bool

-- The free permits of `global_semaphore`, those of `PER_IP_LIMITS`, and the tasks.
pub record Load : Type 0 where
  pub global : ℕ
  pub limits : Dict IpAddr ℕ
  pub tasks : List Task

abbrev pub idle : Load
idle = record { global = max_concurrent_global; limits = []; tasks = [] }

-- `limits.entry(ip).or_insert_with(...)`
unfoldable pub limit_of : IpAddr → Load → ℕ
limit_of ip l = elim (lookup ip l.limits) [ none ↦ max_concurrent_per_ip | some free ↦ free ]

-- One round of the loop: the request is dropped, or it gets a task.
unfoldable pub receive : IpAddr → Load → Load
receive ip l = if not (is_local_ip ip) then l else if eqb l.global 0 then l else record {
  global = l.global - 1;
  limits = insert ip (limit_of ip l) l.limits;
  tasks = record { client = ip; forwards = false } ∷ l.tasks;
}

-- `ip_semaphore.acquire()` of the task in this place: nothing happens while there is no permit.
unfoldable pub start_task : ℕ → List Task → Option (IpAddr × List Task)
start_task i [] = none
start_task zero (t ∷ ts) =
    if t.forwards then none else some (t.client, record t { forwards = true } ∷ ts)
start_task (suc i) (t ∷ ts) = elim (start_task i ts) [
  | none ↦ none
  | some (ip, rest) ↦ some (ip, t ∷ rest)
]

unfoldable pub acquire : ℕ → Load → Load
acquire i l = elim (start_task i l.tasks) [
  | none ↦ l
  | some (ip, tasks) ↦
      if eqb (limit_of ip l) 0
      then l
      else record l { limits = insert ip (limit_of ip l - 1) l.limits; tasks = tasks }
]

-- The end of a task that forwards, with a response or an error: its two permits are free again.
unfoldable pub end_task : ℕ → List Task → Option (IpAddr × List Task)
end_task i [] = none
end_task zero (t ∷ ts) = if t.forwards then some (t.client, ts) else none
end_task (suc i) (t ∷ ts) = elim (end_task i ts) [
  | none ↦ none
  | some (ip, rest) ↦ some (ip, t ∷ rest)
]

unfoldable pub release : ℕ → Load → Load
release i l = elim (end_task i l.tasks) [
  | none ↦ l
  | some (ip, tasks) ↦ record {
    global = l.global + 1;
    limits = insert ip (limit_of ip l + 1) l.limits;
    tasks = tasks;
  }
]

-- What can happen, in any order.
pub data Reachable : Load → Type 0 where
  start : Reachable idle
  received : {l : Load} (ip : IpAddr) → Reachable l → Reachable (receive ip l)
  acquired : {l : Load} (i : ℕ) → Reachable l → Reachable (acquire i l)
  released : {l : Load} (i : ℕ) → Reachable l → Reachable (release i l)

-- The tasks of a client that forward.
unfoldable pub forwarding : IpAddr → List Task → ℕ
forwarding ip [] = 0
forwarding ip (t ∷ ts) =
    let rest = forwarding ip ts in
    if t.client == ip then (if t.forwards then suc rest else rest) else rest
