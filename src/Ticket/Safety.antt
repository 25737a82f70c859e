-- ===== src/Ticket/Safety.antt =====
-- What the ticket lock of simple-ticket-lock-base.h promises its callers, and the kernel.
use mathlib.Core.Path.{subst}
use autolock.Base.{
  ℕ, ◌+◌, ◌-◌, ◌%◌, ◌^◌, ◌≤◌, ◌<◌, ◌≡◌, ◌≢◌, refl, ap, ◌∙◌, ◌⊎◌, inl, inr, Bool, true, false, not,
  sum_over-le, Option, some, arith, sum_over, ◌==◌, ltb, if◌then◌else◌,
}
use autolock.Kernel.{KernelAutolock, dont_sched, i_success}
use autolock.Spin.Invariant.{IsQuiet}
use autolock.Ticket.{
  TicketLock, Thread, Env, Pc, idle, try_load, spin_load, waiting, critical, unlock_store, dispatch,
  step, System, Reach, pauses, yields, wait_of,
}
use autolock.Ticket.Invariant.{
  Inv, Reach-Inv, ticket_unique, uses, uses_ticket, behind, IsLocal, Watches, uses-le_one,
}

-- Between the return of `lock` and the store of `unlock`.
abbrev pub in_lock : Pc → Bool
in_lock critical = true
in_lock unlock_store = true
in_lock p = false

in_lock-ticket :
    (a : Bool) (l : TicketLock) (p : Pc) (t : Thread)
    → in_lock p ≡ true
    → IsLocal a l p t
    → t.ticket_num ≡ l.cur_count
in_lock-ticket a l idle t h q = absurd (ground arith)
in_lock-ticket a l p t h q = ground arith

in_lock-uses :
    (p : Pc) (t : Thread) (k : ℕ)
    → t.pc ≡ p
    → in_lock p ≡ true
    → t.ticket_num ≡ k
    → uses_ticket k t ≡ 1
in_lock-uses idle t k e h q = absurd (ground arith)
in_lock-uses p t k e h q = ground arith

-- In every reachable state of fewer than 2^32 threads that call `lock` and `unlock`, whatever the
-- counters were at the start and however often they have wrapped around, two threads that have the
-- lock are one thread, and its ticket is `cur_count`.
pub ticket_mutual_exclusion :
    {a : Bool} {n : ℕ} {s : System}
    → n < 2 ^ 32
    → Reach a n s
    → (i j : ℕ) → i < n
    → j < n
    → in_lock (s.threads i).pc ≡ true
    → in_lock (s.threads j).pc ≡ true
    → (i ≡ j) × ((s.threads i).ticket_num ≡ s.lock.cur_count)
ticket_mutual_exclusion {a} {n} {s} few r i j hi hj pi pj =
    (ticket_unique inv s.lock.cur_count inv.word i j hi hj (has i hi pi) (has j hj pj), own i hi pi)
  where
    inv : Inv a n s
    inv = Reach-Inv few r

    own :
        (x : ℕ)
        → x < n
        → in_lock (s.threads x).pc ≡ true
        → (s.threads x).ticket_num ≡ s.lock.cur_count
    own x hx px = in_lock-ticket a s.lock (s.threads x).pc (s.threads x) px (inv.locals x hx)

    has :
        (x : ℕ)
        → x < n
        → in_lock (s.threads x).pc ≡ true
        → uses_ticket s.lock.cur_count (s.threads x) ≡ 1
    has x hx px = in_lock-uses (s.threads x).pc (s.threads x) s.lock.cur_count refl px (own x hx px)

-- The queue: in every reachable state of fewer than 2^32 threads that call `lock` and `unlock`, and not
-- `trylock`, as many threads are inside `lock`
-- or have the lock as `next_count` is ahead of `cur_count`; each ticket from `cur_count` up to
-- `next_count` is in the hands of exactly one of them, and no other ticket is in use.
pub tickets_in_order :
    {a : Bool} {n : ℕ} {s : System}
    → n < 2 ^ 32
    → Reach a n s
    → (k : ℕ) → k < 2 ^ 32
    → (sum_over uses n s.threads ≡ behind s.lock.cur_count s.lock.next_count)
      × (sum_over (uses_ticket k) n s.threads ≡ (
          if ltb (behind s.lock.cur_count k) (behind s.lock.cur_count s.lock.next_count)
          then 1
          else 0))
tickets_in_order {a} {n} {s} few r k w = (
  inv.total ∙ queue,
  inv.each k w ∙ ap (λ q. if ltb (behind s.lock.cur_count k) q then 1 else 0) queue,
)
  where
    inv : Inv a n s
    inv = Reach-Inv few r

    queue : inv.q ≡ behind s.lock.cur_count s.lock.next_count
    queue = omega (arith, inv.next, inv.word, inv.total, sum_over-le uses 1 uses-le_one n s.threads)

-- A page that waits for a ticket makes the kernel pass the thread over exactly until its turn.
Watches-dont_sched :
    (l : TicketLock) (k : ℕ) (p : KernelAutolock) (read : ℕ → Option ℕ)
    → read l.addr ≡ some l.cur_count
    → Watches l.addr k (some p)
    → p.watch_mem ≡ some l.addr
    → dont_sched read (some p) ≡ not (k == l.cur_count)
unfolding dont_sched
Watches-dont_sched l k p read h w m = ground arith

-- In every reachable state of fewer than 2^32 threads with autolock, where the kernel reads
-- `cur_count`, a thread in the loop of `lock` whose page is armed is passed over exactly while its
-- ticket is not `cur_count`.
pub parked_until_turn :
    {n : ℕ} {s : System}
    → n < 2 ^ 32
    → Reach true n s
    → (read : ℕ → Option ℕ) → read s.lock.addr ≡ some s.lock.cur_count
    → (i : ℕ) (p : KernelAutolock) → i < n
    → ((s.threads i).pc ≡ spin_load) ⊎ ((s.threads i).pc ≡ waiting)
    → (s.threads i).kernel ≡ some p
    → p.watch_mem ≡ some s.lock.addr
    → dont_sched read (s.threads i).kernel ≡ not ((s.threads i).ticket_num == s.lock.cur_count)
parked_until_turn {n} {s} few r read h i p lt pc k m =
    ap (dont_sched read) k ∙ Watches-dont_sched s.lock (s.threads i).ticket_num p read h (slow pc) m
  where
    at : (q : Pc) → (s.threads i).pc ≡ q → IsLocal true s.lock q (s.threads i)
    at q e = subst (λ x. IsLocal true s.lock x (s.threads i)) e ((Reach-Inv few r).locals i lt)

    slow :
        ((s.threads i).pc ≡ spin_load) ⊎ ((s.threads i).pc ≡ waiting)
        → Watches s.lock.addr (s.threads i).ticket_num (some p)
    slow (inl e) = subst (Watches s.lock.addr (s.threads i).ticket_num) k (at spin_load e).1
    slow (inr e) = subst (Watches s.lock.addr (s.threads i).ticket_num) k (at waiting e).1

-- A waiting thread's way to wait depends only on whether it is the next one: then it pauses three
-- times, and else, up to 2^31 places behind, it yields.
wait_of-position :
    (c k : ℕ)
    → c < 2 ^ 32
    → k < 2 ^ 32
    → 0 < behind c k
    → behind c k ≤ 2 ^ 31
    → wait_of ((c + 2 ^ 32 - k) % 2 ^ 32) ≡ (if behind c k == 1 then pauses 3 else yields)
wait_of-position c k wc wk pos far = ground arith

-- `trylock` never waits and takes no ticket that it does not get: whatever other threads do in
-- between, it is back after two steps of its own; it writes to the lock only if it succeeds, when
-- `next_count` still was the ticket that it had read.
pub ticket_trylock :
    (a : Bool) (e e' : Env) (l l' : TicketLock) (t : Thread)
    → t.pc ≡ try_load
    → let (l1, t1) = step a e l t in
      let (l2, t2) = step a e' l' t1 in
      (l1 ≡ l)
      × (((t1.pc ≡ idle) × (t1.ret ≡ 1) × (t.ticket_num ≢ l.cur_count))
          ⊎ ((t2.pc ≡ idle) × (t2.ret ≡ 1) × (l2 ≡ l'))
          ⊎ ((t2.pc ≡ critical)
              × (t2.ret ≡ 0)
              × (t.ticket_num ≡ l.cur_count)
              × (t.ticket_num ≡ l'.next_count)
              × (l2 ≡ record l' { next_count = (l'.next_count + 1) % 2 ^ 32 })))
unfolding step dispatch
ticket_trylock a e e' l l' t p = rw p (ground arith)

-- The page after an acquisition in the loop: not armed, and without autolock as it was.
abbrev pub Released : Bool → Thread → Thread → Type 0
Released true t t' = IsQuiet t'.kernel
Released false t t' = t'.kernel ≡ t.kernel

-- A thread in the loop of `lock` whose turn it is has the lock after two steps of its own, with its
-- page disarmed, whatever the other threads do to `next_count` meanwhile; `lock` returns success.
pub turn-acquired :
    (a : Bool) (e e' : Env) (l l' : TicketLock) (t : Thread)
    → t.pc ≡ spin_load
    → t.ticket_num < 2 ^ 32
    → t.ticket_num ≡ l.cur_count
    → let (l1, t1) = step a e l t in
      let (l2, t2) = step a e' l' t1 in
      (l1 ≡ l) × (l2 ≡ l') × (t2.pc ≡ critical) × (t2.ret ≡ i_success) × Released a t t2
unfolding step dispatch
turn-acquired a e e' l l' t p w turn = rw p (ground arith)
