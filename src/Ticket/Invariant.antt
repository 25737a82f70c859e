-- ===== src/Ticket/Invariant.antt =====
-- The invariant of n threads on one ticket lock holds in every reachable state.
mod Local
mod Moves
pub use Local.*
pub use Moves.*
use autolock.Base.{
  ℕ, zero, suc, ◌+◌, ◌-◌, ◌*◌, ◌%◌, ◌^◌, ◌≤◌, ◌<◌, ◌≡◌, refl, sym, ap, ◌∙◌, ◌⊎◌, inl, inr, Bool,
  true, false, Option, none, some, arith, update, sum_over, sum_over-update, sum_over-le,
  le-sum_over, add-le-sum_over, dec_lt, sum_over-eq-zero, ◌==◌, leb, ltb, Bool-cases, if◌then◌else◌,
}
use mathlib.Core.Path.{subst}
use autolock.Kernel.{KernelAutolock, sched, init_kernel_state-cases, autolock_init_kernel_state}
use autolock.Spin.Invariant.{IsQuiet, IsQuiet-of_sched}
use autolock.Ticket.{
  TicketLock, Thread, Env, Pc, idle, try_load, try_cas, first_load, init_page, set_mem, set_for,
  set_neq, spin_load, waiting, disarm, critical, unlock_store, fault, dispatch, step, System,
  prepare, advance, schedule, Step, act, resched, Start, Reach, start, later,
}

Pc-cases : (p : Pc) → (p ≡ idle) ⊎ ((p ≡ unlock_store) ⊎ (moves_counter p ≡ false))
Pc-cases idle = inl refl
Pc-cases unlock_store = inr (inl refl)
Pc-cases p = inr (inr (ground arith))

-- Every step of a thread keeps the invariant: it takes a ticket, serves one, or does neither.
act-Inv :
    {a : Bool} {n : ℕ} {s : System}
    → n < 2 ^ 32
    → (inv : Inv a n s) (i : ℕ) (e : Env) → i < n
    → e.blocking ≡ true
    → e.sys.page.watch_mem ≡ none
    → Inv a n (advance a e s i)
unfolding step
act-Inv {a} {n} {s} few inv i e lt bl b =
    elim (Pc-cases (s.threads i).pc) as (λ _. Inv a n (advance a e s i)) [
      | inl p ↦ at _ p _ (takes bl) (issue-Inv few inv i lt p)
      | inr (inl p) ↦ at _ p _ serves (serve-Inv few inv i lt p)
      | inr (inr m) ↦
          let t' = (dispatch a e (s.threads i).pc s.lock (s.threads i)).1 in
          let (same, had, has, ticket) =
            dispatch-stays a e (s.threads i).pc s.lock (s.threads i) m (inv.locals i lt) in
          subst (λ l. Inv a n (after (l, t'))) (sym same)
            (same-Inv few inv i lt t' (has ∙ sym had) ticket (
              subst (λ l. IsLocal a l t'.pc t') same
                (dispatch-IsLocal a e (s.threads i).pc s.lock (s.threads i) bl b inv.word
                  (omega (arith, inv.next)) (inv.locals i lt))))
    ]
  where
    after : TicketLock × Thread → System
    after x = record { lock = x.0; threads = update s.threads i x.1 }

    at :
        (p : Pc)
        → (s.threads i).pc ≡ p
        → (x : TicketLock × Thread) → dispatch a e p s.lock (s.threads i) ≡ x
        → Inv a n (after x)
        → Inv a n (after (dispatch a e (s.threads i).pc s.lock (s.threads i)))
    at p h x d v =
        subst (λ y. Inv a n (after y)) (sym (ap (λ q. dispatch a e q s.lock (s.threads i)) h ∙ d)) v

    takes :
        e.blocking ≡ true
        → dispatch a e idle s.lock (s.threads i) ≡ (
          record s.lock { next_count = (s.lock.next_count + 1) % 2 ^ 32 },
          record (s.threads i) { ticket_num = s.lock.next_count; pc = first_load },
        )
    takes h = rw h

    serves : dispatch a e unlock_store s.lock (s.threads i) ≡ (
      record s.lock { cur_count = ((s.threads i).cur_num + 1) % 2 ^ 32 },
      record (s.threads i) { ret = 0; pc = idle },
    )
    serves = refl

pub Reach-Inv : {a : Bool} {n : ℕ} {s : System} → n < 2 ^ 32 → Reach a n s → Inv a n s
Reach-Inv {a} {n} {s} few (start st) = record {
  q = 0;
  word = st.word;
  next = ground (arith, st.equal, st.word);
  total = sum_over-eq-zero uses n s.threads (λ i. rw (st.pc i));
  each = λ k w. sum_over-eq-zero (uses_ticket k) n s.threads (λ i. rw (st.pc i)) ∙ ground arith;
  locals = λ i lt. rw (st.pc i) (IsQuiet-of_sched (s.threads i).kernel (st.kernel i));
}
Reach-Inv few (later r (act i e lt bl b)) = act-Inv few (Reach-Inv few r) i e lt bl b
Reach-Inv {a} few (later {s} r (resched i lt)) =
    let inv = Reach-Inv few r in
    same-Inv few inv i lt (record (s.threads i) { kernel = sched (s.threads i).kernel }) refl refl
      (sched-IsLocal a s.lock (s.threads i).pc (s.threads i) (inv.locals i lt))
