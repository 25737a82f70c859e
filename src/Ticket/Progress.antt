-- ===== src/Ticket/Progress.antt =====
-- The ticket lock does not come to a stop: the thread whose turn it is can go on.
use mathlib.Core.Path.{subst}
use autolock.Base.{
  ℕ, zero, suc, ◌^◌, ◌≤◌, ◌<◌, ◌≡◌, ◌≢◌, refl, sym, ap, ◌∙◌, ◌⊎◌, inl, inr, Bool, true, none, some,
  arith, sum_over, sum_over-pos, ltb, if◌then◌else◌,
}
use autolock.Kernel.{autolock_init_kernel_state, map_failed}
use autolock.Ticket.{
  TicketLock, Thread, Env, Pc, first_load, init_page, set_mem, set_for, set_neq, spin_load, waiting,
  disarm, critical, unlock_store, fault, dispatch, step, System, Reach, prepare,
}
use autolock.Ticket.Invariant.{Reach-Inv, has_ticket, uses, uses_ticket, behind}
use autolock.Ticket.Safety.{in_lock, tickets_in_order}

-- The system calls for the page succeed.
pub record GivesPage (e : Env) : Type 0 where
  pub fd : e.sys.fd < 2 ^ 31
  pub map : e.sys.map ≢ map_failed

module _ (a : Bool) (e : Env) where
  -- the thread alone, for `k` steps
  unfoldable pub alone : ℕ → TicketLock × Thread → TicketLock × Thread
  alone zero s = s
  alone (suc k) s = let (l, t) = s in alone k (step a e l t)

  from_set_mem :
      (l : TicketLock) (t : Thread)
      → t.pc ≡ set_mem
      → t.ticket_num ≡ l.cur_count
      → l.cur_count < 2 ^ 32
      → in_lock (alone 5 (l, t)).1.pc ≡ true
  unfolding alone step dispatch
  from_set_mem l t q turn w = rw q (ground (arith, turn, w))

  prepared :
      (t : Thread)
      → GivesPage e
      → ((prepare e t).pc ≡ set_mem) × ((prepare e t).ticket_num ≡ t.ticket_num)
  unfolding prepare autolock_init_kernel_state
  prepared t g =
      elim t.kernel
        as (λ k.
          (prepare e (record t { kernel = k })).pc ≡ set_mem
          × (prepare e (record t { kernel = k })).ticket_num ≡ t.ticket_num) [
            | none ↦ ground (arith, g.fd, g.map)
            | some k ↦ (refl, refl)
          ]

  from_init_page :
      (l : TicketLock) (t : Thread)
      → t.pc ≡ init_page
      → t.ticket_num ≡ l.cur_count
      → l.cur_count < 2 ^ 32
      → GivesPage e
      → in_lock (alone 6 (l, t)).1.pc ≡ true
  unfolding alone step dispatch
  from_init_page l t q turn w g =
      let (m, same) = prepared t g in
      subst (λ x. in_lock (alone 5 x).1.pc ≡ true) (sym (ap (λ p. dispatch a e p l t) q))
        (from_set_mem l (prepare e t) m (same ∙ turn) w)

  enters :
      (p : Pc) (l : TicketLock) (t : Thread)
      → t.pc ≡ p
      → t.ticket_num ≡ l.cur_count
      → l.cur_count < 2 ^ 32
      → GivesPage e
      → has_ticket p ≡ true
      → (p ≡ fault) ⊎ ((k : ℕ) × (k ≤ 6) × (in_lock (alone k (l, t)).1.pc ≡ true))
  unfolding alone step dispatch
  enters critical l t q turn w g h = inr (0, omega arith, rw q refl)
  enters unlock_store l t q turn w g h = inr (0, omega arith, rw q refl)
  enters fault l t q turn w g h = inl refl
  enters first_load l t q turn w g h = inr (1, omega arith, rw q (ground (arith, turn)))
  enters disarm l t q turn w g h = inr (1, omega arith, rw q refl)
  enters spin_load l t q turn w g h = inr (2, omega arith, rw q (ground (arith, turn, w)))
  enters waiting l t q turn w g h = inr (3, omega arith, rw q (ground (arith, turn, w)))
  enters set_neq l t q turn w g h = inr (3, omega arith, rw q (ground (arith, turn, w)))
  enters set_for l t q turn w g h = inr (4, omega arith, rw q (ground (arith, turn, w)))
  enters set_mem l t q turn w g h = inr (5, omega arith, from_set_mem l t q turn w)
  enters init_page l t q turn w g h = inr (6, omega arith, from_init_page l t q turn w g)
  enters p l t q turn w g h = absurd (ground (arith, h))

-- In every reachable state of fewer than 2^32 threads that call `lock` and `unlock`, with and without
-- autolock, also where the counters have wrapped around: while some thread is inside `lock` or has
-- the lock, one of them has the ticket `cur_count`, and that one has the lock, or has it after at most
-- six steps of its own, if the system calls for its page succeed; or it has faulted on its page.
pub ticket_progress :
    {a : Bool} {n : ℕ} {s : System} (e : Env)
    → n < 2 ^ 32
    → Reach a n s
    → GivesPage e
    → 0 < sum_over uses n s.threads
    → (i : ℕ) × (i < n)
      × ((s.threads i).ticket_num ≡ s.lock.cur_count)
      × (((s.threads i).pc ≡ fault)
          ⊎ ((k : ℕ) × (k ≤ 6) × (in_lock (alone a e k (s.lock, s.threads i)).1.pc ≡ true)))
ticket_progress {a} {n} {s} e few r g busy =
    let inv = Reach-Inv few r in
    let (queue, each) = tickets_in_order few r s.lock.cur_count inv.word in
    let (i, lt, pos) =
      sum_over-pos (uses_ticket s.lock.cur_count) n s.threads
        (served s.lock.cur_count inv.word queue busy each) in
    let (turn, has) = holder (s.threads i) s.lock.cur_count pos in
    (i, lt, turn, enters a e (s.threads i).pc s.lock (s.threads i) refl turn inv.word g has)
  where
    served :
        (c : ℕ) {b m q : ℕ}
        → c < 2 ^ 32
        → b ≡ q
        → 0 < b
        → m ≡ (if ltb (behind c c) q then 1 else 0)
        → 0 < m
    served c w e h z = ground (arith, w, e, h, z)

    holder :
        (t : Thread) (c : ℕ) → 0 < uses_ticket c t → (t.ticket_num ≡ c) × (has_ticket t.pc ≡ true)
    holder t c h = ground (arith, h)
