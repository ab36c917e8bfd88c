-- ===== src/Proxy/Limits.antt =====
-- The limits on concurrent requests, in every interleaving of the tasks.
use dockerwall.Base.{
  ℕ, zero, suc, ◌+◌, ◌-◌, ◌≤◌, ◌≡◌, refl, sym, ap, ◌∙◌, true, false, some, List, [], ◌∷◌, eqb,
  if◌then◌else◌, ◌==◌, list_eq, nat_eq, length, Bool-cases, Option-cases, inl, inr, arith,
}
use dockerwall.Base.Assoc.{lookup-insert, lookup-nil}
use dockerwall.Net.{IpAddr, ip_eq}
use dockerwall.Proxy.{is_local_ip}
use dockerwall.Proxy.Admission.{
  Task, Load, idle, limit_of, receive, start_task, acquire, end_task, release, Reachable, start,
  received, acquired, released, forwarding, max_concurrent_global, max_concurrent_per_ip,
}

-- Every permit is free or held by a task.
pub record IsBalanced (l : Load) : Type 0 where
  pub global_permits : l.global + length l.tasks ≡ max_concurrent_global
  pub client_permits : (ip : IpAddr) → limit_of ip l + forwarding ip l.tasks ≡ max_concurrent_per_ip

idle-IsBalanced : IsBalanced idle
unfolding limit_of forwarding
idle-IsBalanced = record {
  global_permits = refl;
  client_permits = λ ip. ground (arith, lookup-nil {V = ℕ} ip);
}

receive-IsBalanced : (ip : IpAddr) (l : Load) → IsBalanced l → IsBalanced (receive ip l)
unfolding receive limit_of forwarding
receive-IsBalanced ip l b = elim (Bool-cases (is_local_ip ip)) [
  | inr remote ↦ rw (remote, receive) b
  | inl near ↦ elim (Bool-cases (eqb l.global 0)) [
    | inl full ↦ rw (near, full, receive) b
    | inr free ↦
        rw (near, free, receive)
          (record {
            global_permits = ground (arith, b.global_permits);
            client_permits = λ other.
                ground
                  (arith, b.client_permits other, lookup-insert other ip (limit_of ip l) l.limits);
          })
  ]
]

start_first :
    (t : Task) (ts : List Task) (other : IpAddr)
    → t.forwards ≡ false
    → forwarding other (record t { forwards = true } ∷ ts)
      ≡ (if t.client == other then suc (forwarding other (t ∷ ts)) else forwarding other (t ∷ ts))
unfolding forwarding
start_first t ts other waits = ground arith

start_behind :
    (t : Task) (ts rest : List Task) (ip other : IpAddr)
    → forwarding other rest
      ≡ (if ip == other then suc (forwarding other ts) else forwarding other ts)
    → forwarding other (t ∷ rest)
      ≡ (if ip == other then suc (forwarding other (t ∷ ts)) else forwarding other (t ∷ ts))
unfolding forwarding
start_behind t ts rest ip other h = ground arith

-- The task that starts is one more that forwards, for its client alone.
start_task_lem :
    (i : ℕ) (ts : List Task) {ip : IpAddr} {ts' : List Task}
    → start_task i ts ≡ some (ip, ts')
    → (length ts' ≡ length ts)
      × ((other : IpAddr)
          → forwarding other ts'
            ≡ (if ip == other then suc (forwarding other ts) else forwarding other ts))
unfolding start_task
start_task_lem zero [] h = cc
start_task_lem (suc i) [] h = cc
start_task_lem zero (t ∷ ts) {ip} {ts'} h = elim (Bool-cases t.forwards) [
  | inl busy ↦ absurd (ground arith)
  | inr waits ↦
      let started : some (t.client, record t { forwards = true } ∷ ts) ≡ some (ip, ts') =
        rw waits at h in
      let client : t.client ≡ ip = cc started in
      let tasks : record t { forwards = true } ∷ ts ≡ ts' = cc started in
      (
        ap (λ l. length l) (sym tasks),
        λ other.
            ap (forwarding other) (sym tasks)
            ∙ start_first t ts other waits
            ∙ ap
                (λ c.
                  if c == other then suc (forwarding other (t ∷ ts)) else forwarding other (t ∷ ts))
                client,
      )
]
start_task_lem (suc i) (t ∷ ts) {ip} {ts'} h = elim (Option-cases (start_task i ts)) [
  | inl none_here ↦ absurd (ground arith)
  | inr ((ip', rest), e) ↦
      let (same, counts) = start_task_lem i ts e in
      let (client, tasks) = start_later (ip', rest) e in
      (
        ap (λ l. length l) (sym tasks) ∙ ap suc same,
        λ other.
            ap (forwarding other) (sym tasks)
            ∙ start_behind t ts rest ip' other (counts other)
            ∙ ap
                (λ c.
                  if c == other then suc (forwarding other (t ∷ ts)) else forwarding other (t ∷ ts))
                client,
      )
]
  where
    start_later :
        (found : IpAddr × List Task)
        → start_task i ts ≡ some found
        → (found.0 ≡ ip) × (t ∷ found.1 ≡ ts')
    start_later (c, rest) e =
        let started : some (c, t ∷ rest) ≡ some (ip, ts') = rw e at h in (cc started, cc started)

end_task_lem :
    (i : ℕ) (ts : List Task) {ip : IpAddr} {ts' : List Task}
    → end_task i ts ≡ some (ip, ts')
    → (length ts ≡ suc (length ts'))
      × ((other : IpAddr)
          → forwarding other ts
            ≡ (if ip == other then suc (forwarding other ts') else forwarding other ts'))
unfolding end_task forwarding
end_task_lem zero [] h = cc
end_task_lem (suc i) [] h = cc
end_task_lem zero (t ∷ ts) h = elim (Bool-cases t.forwards) [
  | inl busy ↦ (ground arith, λ other. ground arith)
  | inr waits ↦ absurd (ground arith)
]
end_task_lem (suc i) (t ∷ ts) h = elim (Option-cases (end_task i ts)) [
  | inl none_here ↦ absurd (ground arith)
  | inr ((ip', rest), e) ↦
      let (same, counts) = end_task_lem i ts e in
      (ground arith, λ other. ground (arith, counts other))
]

acquire-IsBalanced : (i : ℕ) (l : Load) → IsBalanced l → IsBalanced (acquire i l)
unfolding acquire limit_of
acquire-IsBalanced i l b = elim (Option-cases (start_task i l.tasks)) [
  | inl nothing ↦ rw (nothing, acquire) b
  | inr ((ip, ts), e) ↦ elim (Bool-cases (eqb (limit_of ip l) 0)) [
    | inl full ↦ rw (e, full, acquire) b
    | inr free ↦
        let (same, counts) = start_task_lem i l.tasks e in
        rw (e, free, acquire)
          (record {
            global_permits = ground (arith, b.global_permits);
            client_permits = λ other. ground (
              arith,
              b.client_permits other,
              counts other,
              lookup-insert other ip (limit_of ip l - 1) l.limits,
            );
          })
  ]
]

release-IsBalanced : (i : ℕ) (l : Load) → IsBalanced l → IsBalanced (release i l)
unfolding release limit_of
release-IsBalanced i l b = elim (Option-cases (end_task i l.tasks)) [
  | inl nothing ↦ rw (nothing, release) b
  | inr ((ip, ts), e) ↦
      let (same, counts) = end_task_lem i l.tasks e in
      rw (e, release)
        (record {
          global_permits = ground (arith, b.global_permits);
          client_permits = λ other. ground (
            arith,
            b.client_permits other,
            counts other,
            lookup-insert other ip (limit_of ip l + 1) l.limits,
          );
        })
]

Reachable-IsBalanced : {l : Load} → Reachable l → IsBalanced l
Reachable-IsBalanced start = idle-IsBalanced
Reachable-IsBalanced (received {l} ip r) = receive-IsBalanced ip l (Reachable-IsBalanced r)
Reachable-IsBalanced (acquired {l} i r) = acquire-IsBalanced i l (Reachable-IsBalanced r)
Reachable-IsBalanced (released {l} i r) = release-IsBalanced i l (Reachable-IsBalanced r)

-- In every interleaving of requests and tasks there are at most 10000 tasks, at most 32 of them
-- forward for one client, and every permit is either free or held by a task.
pub Reachable-limits :
    {l : Load} (ip : IpAddr)
    → Reachable l
    → (length l.tasks ≤ max_concurrent_global)
      × (forwarding ip l.tasks ≤ max_concurrent_per_ip)
      × (l.global ≡ max_concurrent_global - length l.tasks)
      × (limit_of ip l ≡ max_concurrent_per_ip - forwarding ip l.tasks)
Reachable-limits {l} ip r =
    let b = Reachable-IsBalanced r in
    let g = b.global_permits in
    let c = b.client_permits ip in (omega arith, omega arith, omega arith, omega arith)

-- A client that sends `n` requests, none of which is answered yet.
unfoldable pub flood : ℕ → IpAddr → Load → Load
flood zero ip l = l
flood (suc n) ip l = flood n ip (receive ip l)

flood-global :
    (n : ℕ) (ip : IpAddr) (l : Load) → is_local_ip ip ≡ true → (flood n ip l).global ≡ l.global - n
unfolding flood receive
flood-global zero ip l h = omega arith
flood-global (suc n) ip l h = flood-global n ip (receive ip l) h ∙ ground arith

-- The global permit is taken before the wait for the client's one, so a single local client that
-- sends 10000 requests, none of which is answered yet, leaves none: the next request of any other
-- client is dropped.
pub flood_starves :
    (ip other : IpAddr)
    → is_local_ip ip ≡ true
    → receive other (flood max_concurrent_global ip idle) ≡ flood max_concurrent_global ip idle
unfolding receive
flood_starves ip other h =
    dropped (flood max_concurrent_global ip idle) (flood-global max_concurrent_global ip idle h)
  where
    dropped : (l : Load) → l.global ≡ 0 → receive other l ≡ l
    dropped l e = ground arith
