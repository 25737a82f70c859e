-- ===== src/Spin/Invariant.antt =====
-- The invariant of n threads on one lock of lock-base.h: the word of the lock counts the holder,
-- `waiters` counts the threads round `futex_wait`, and each thread's kernel page suits its place.
mod Local
mod Count
pub use Local.*
pub use Count.*
use autolock.Base.{
  ℕ, ◌+◌, ◌*◌, ◌^◌, ◌≤◌, ◌<◌, ◌≡◌, refl, ◌⊎◌, inl, inr, Option, none, some, arith, update, sum_over,
  sum_over-update, sum_over-le, le-sum_over, sum_over-eq-zero, ◌==◌, Bool-cases,
}
use autolock.Kernel.{KernelAutolock, sched}
use autolock.Spin.{
  Config, UserLock, Thread, Env, Pc, idle, futex_waiting, System, Step, act, resched, Start, Reach,
  start, later, step, dispatch, locked, unlocked, advance, schedule, goto,
}

abbrev pub holders : ℕ → (ℕ → Thread) → ℕ
holders n f = sum_over (λ t. holds t.pc) n f

abbrev pub waiting : ℕ → (ℕ → Thread) → ℕ
waiting n f = sum_over (λ t. waits t.pc) n f

pub record Inv (c : Config) (n : ℕ) (s : System) : Type 0 where
  pub word : IsWord c s.lock
  pub held : holders n s.threads + free c s.lock ≡ 1
  pub counted : s.lock.waiters ≡ waiting n s.threads
  pub locals : (i : ℕ) → IsLocal c s.lock.addr (s.threads i).pc (s.threads i).kernel

sched-IsLocal :
    (c : Config) (a : ℕ) (p : Pc) (k : Option KernelAutolock)
    → IsLocal c a p k
    → IsLocal c a p (sched k)
unfolding sched
sched-IsLocal c a idle k h = ground arith
sched-IsLocal c a p k h = ground arith

waits-le-one : (t : Thread) → waits t.pc ≤ 1
waits-le-one t = ground arith

module _ {c : Config} {n : ℕ} (few : n < 2 ^ 32) {s : System} (inv : Inv c n s) (i : ℕ)
    (lt : i < n) where
  abbrev mover : Thread
  mover = s.threads i

  moved :
      (t' : Thread)
      → holders n (update s.threads i t') + holds mover.pc ≡ holders n s.threads + holds t'.pc
  moved t' = sum_over-update (λ t. holds t.pc) n s.threads i t' lt

  moved_waits :
      (t' : Thread)
      → waiting n (update s.threads i t') + waits mover.pc ≡ waiting n s.threads + waits t'.pc
  moved_waits t' = sum_over-update (λ t. waits t.pc) n s.threads i t' lt

  hold :
      (e : Env)
      → let (l', t') = dispatch c e mover.pc s.lock mover in
        IsWord c l' × (holds t'.pc + free c l' ≡ holds mover.pc + free c s.lock)
  hold e =
      dispatch-holds c e mover.pc s.lock mover inv.word
        (omega (arith, inv.held, le-sum_over (λ t. holds t.pc) n s.threads i lt))

  count :
      (e : Env)
      → let (l', t') = dispatch c e mover.pc s.lock mover in
        l'.waiters + waits mover.pc ≡ s.lock.waiters + waits t'.pc
  count e =
      dispatch-waits c e mover.pc s.lock mover
        (omega (arith, inv.counted, le-sum_over (λ t. waits t.pc) n s.threads i lt))
        (omega (
          arith,
          inv.counted,
          moved_waits (goto mover futex_waiting),
          at_most (goto mover futex_waiting),
        ))
    where
      at_most : (t' : Thread) → waiting n (update s.threads i t') ≤ n * 1
      at_most t' = sum_over-le (λ t. waits t.pc) 1 waits-le-one n (update s.threads i t')

  act-Inv : (e : Env) → e.sys.page.watch_mem ≡ none → Inv c n (advance c e s i)
  unfolding step
  act-Inv e b = record {
    word = (hold e).0;
    held = omega (arith, inv.held, (hold e).1, moved after);
    counted = omega (arith, inv.counted, count e, moved_waits after);
    locals = locals';
  }
    where
      after : Thread
      after = (dispatch c e mover.pc s.lock mover).1

      locals' :
          (j : ℕ)
          → IsLocal c
              (dispatch c e mover.pc s.lock mover).0.addr
              (update s.threads i after j).pc
              (update s.threads i after j).kernel
      locals' j = elim (Bool-cases (i == j)) [
        | inl q ↦ rw q (dispatch-IsLocal c e mover.pc s.lock mover b (inv.locals i))
        | inr q ↦ rw (q, dispatch-addr c e mover.pc s.lock mover) (inv.locals j)
      ]

  schedule-Inv : Inv c n (schedule s i)
  schedule-Inv = record {
    word = inv.word;
    held = omega (arith, inv.held, moved after);
    counted = omega (arith, inv.counted, moved_waits after);
    locals = locals';
  }
    where
      after : Thread
      after = record mover { kernel = sched mover.kernel }

      locals' :
          (j : ℕ)
          → IsLocal c s.lock.addr
              (update s.threads i after j).pc
              (update s.threads i after j).kernel
      locals' j = elim (Bool-cases (i == j)) [
        | inl q ↦ rw q (sched-IsLocal c s.lock.addr mover.pc mover.kernel (inv.locals i))
        | inr q ↦ rw q (inv.locals j)
      ]

-- Every step of the system keeps the invariant.
pub Step-Inv :
    {c : Config} {n : ℕ} {s t : System} → n < 2 ^ 32 → Step c n s t → Inv c n s → Inv c n t
Step-Inv few (act i e lt b) inv = act-Inv few inv i lt e b
Step-Inv few (resched i lt) inv = schedule-Inv few inv i lt

pub IsQuiet-of_sched : (k : Option KernelAutolock) → sched k ≡ k → IsQuiet k
unfolding sched
IsQuiet-of_sched none h = tt
IsQuiet-of_sched (some k) h = ground arith

free-unlocked : (c : Config) (l : UserLock) → l.mem ≡ unlocked c → free c l ≡ 1
free-unlocked c l h = ground arith

Start-Inv : {c : Config} {s : System} (n : ℕ) → Start c s → Inv c n s
Start-Inv {c} {s} n st = record {
  word = inr st.mem;
  held = omega (
    arith,
    free-unlocked c s.lock st.mem,
    sum_over-eq-zero (λ t. holds t.pc) n s.threads (λ i. rw (st.pc i)),
  );
  counted =
      omega (arith, st.waiters, sum_over-eq-zero (λ t. waits t.pc) n s.threads (λ i. rw (st.pc i)));
  locals = λ i. rw (st.pc i) (IsQuiet-of_sched (s.threads i).kernel (st.kernel i));
}

pub Reach-Inv : {c : Config} {n : ℕ} {s : System} → n < 2 ^ 32 → Reach c n s → Inv c n s
Reach-Inv {n} few (start st) = Start-Inv n st
Reach-Inv few (later r st) = Step-Inv few st (Reach-Inv few r)
