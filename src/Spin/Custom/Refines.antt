-- ===== src/Spin/Custom/Refines.antt =====
-- The locks of custom-spin-autolock.h and custom-backoff-autolock.h are lock-base.h with autolock,
-- with or without backoff, and with neither yield nor futex.
use autolock.Base.{
  ◌≤◌, dec_lt, ◌≢◌, ◌⊎◌, inl, inr, ℕ, ◌^◌, ◌<◌, ◌≡◌, refl, sym, ap, ◌∙◌, true, false, Option, some,
  arith, update,
}
use mathlib.Core.Path.{subst, fun_ext}
use autolock.Kernel.{KernelAutolock, Syscalls, dont_sched, sched}
use autolock.Spin
use autolock.Spin.Safety.{mutual_exclusion, parked_has_runner}
use autolock.Spin.Custom.{
  Variant, UserAutolock, Thread, Pc, idle, try_load, try_xchg, failed, sched_load, sched_disarm,
  sched_xchg, sched_arm, pausing, critical, fault, dispatch, step, init, System, advance, schedule,
  act, resched, Reach, start, later,
}

abbrev pub config : Variant → Spin.Config
config v = record {
  with_autolock = true;
  with_yield = false;
  with_backoff = v.backoff;
  with_futex = false;
  interpose = v.interpose;
}

abbrev pub spin_lock : UserAutolock → Spin.UserLock
spin_lock l = record { addr = l.addr; mem = l.mem; waiters = 0 }

abbrev pub spin_pc : Pc → Spin.Pc
spin_pc idle = Spin.idle
spin_pc (try_load b) = Spin.try_load b
spin_pc (try_xchg b) = Spin.try_xchg b
spin_pc failed = Spin.failed
spin_pc sched_load = Spin.sched_load Spin.spinning
spin_pc sched_disarm = Spin.sched_disarm Spin.spinning
spin_pc sched_xchg = Spin.sched_xchg Spin.spinning
spin_pc sched_arm = Spin.sched_arm Spin.spinning
spin_pc pausing = Spin.sched_failed Spin.spinning
spin_pc critical = Spin.critical
spin_pc fault = Spin.fault

abbrev pub spin_thread : Thread → Spin.Thread
spin_thread t = record {
  pc = spin_pc t.pc;
  kernel = t.kernel;
  backoff = t.backoff_iter;
  tries = 0;
  ret = t.ret;
}

abbrev pub spin_pair : UserAutolock × Thread → Spin.UserLock × Spin.Thread
spin_pair (l, t) = (spin_lock l, spin_thread t)

dispatch-refines :
    (v : Variant) (e : Spin.Env) (p : Pc) (l : UserAutolock) (t : Thread)
    → t.pc ≡ p
    → spin_pair (dispatch v e p l t)
      ≡ Spin.dispatch (config v) e (spin_pc p) (spin_lock l) (spin_thread t)
unfolding dispatch Spin.dispatch
dispatch-refines v e idle l t h = refl
dispatch-refines v e p l t h = ground arith

-- Every step of the custom spin lock, and of the custom backoff lock, is the step of lock-base.h
-- at the configuration with autolock, with backoff for the latter, and with neither yield nor
-- futex; the two initialisations write the same word and page and return the same result.
pub custom_is_spin :
    (v : Variant) (e : Spin.Env) (l : UserAutolock) (t : Thread)
    → (spin_pair (step v e l t) ≡ Spin.step (config v) e (spin_lock l) (spin_thread t))
      × ((sys : Syscalls) (k : Option KernelAutolock)
          → let (l1, k1, r1) = init v sys k l in
            (spin_lock l1, k1, r1) ≡ Spin.init (config v) sys k (spin_lock l))
unfolding step Spin.step init Spin.init
custom_is_spin v e l t = (dispatch-refines v e t.pc l t refl, same_init)
  where
    same_init :
        (sys : Syscalls) (k : Option KernelAutolock)
        → let (l1, k1, r1) = init v sys k l in
          (spin_lock l1, k1, r1) ≡ Spin.init (config v) sys k (spin_lock l)
    same_init sys k = ground arith

abbrev pub spin_system : System → Spin.System
spin_system s = record { lock = spin_lock s.lock; threads = λ i. spin_thread (s.threads i) }

update-spin :
    (f : ℕ → Thread) (i : ℕ) (t : Thread) (j : ℕ)
    → spin_thread (update f i t j) ≡ update (λ k. spin_thread (f k)) i (spin_thread t) j
update-spin f i t j = ground arith

same_threads :
    (l : Spin.UserLock) (f g : ℕ → Spin.Thread)
    → ((j : ℕ) → f j ≡ g j)
    → ◌≡◌ {A = Spin.System} (record { lock = l; threads = f }) (record { lock = l; threads = g })
same_threads l f g h =
    ap {A = ℕ → Spin.Thread} {B = Spin.System} (λ t. record { lock = l; threads = t }) (fun_ext h)

advance-spin :
    (v : Variant) (e : Spin.Env) (s : System) (i : ℕ)
    → spin_system (advance v e s i) ≡ Spin.advance (config v) e (spin_system s) i
advance-spin v e s i =
    same_threads (spin_lock (step v e s.lock (s.threads i)).0) _ _
      (update-spin s.threads i (step v e s.lock (s.threads i)).1)
    ∙ ap (λ p. moved p.0 p.1) (custom_is_spin v e s.lock (s.threads i)).0
  where
    moved : Spin.UserLock → Spin.Thread → Spin.System
    moved l t = record { lock = l; threads = update (λ k. spin_thread (s.threads k)) i t }

schedule-spin : (s : System) (i : ℕ) → spin_system (schedule s i) ≡ Spin.schedule (spin_system s) i
schedule-spin s i =
    same_threads (spin_lock s.lock) _ _
      (update-spin s.threads i (record (s.threads i) { kernel = sched (s.threads i).kernel }))

Reach-spin :
    {v : Variant} {n : ℕ} {s : System} → Reach v n s → Spin.Reach (config v) n (spin_system s)
Reach-spin {v} (start b) =
    Spin.start
      (record { mem = b.mem; waiters = refl; pc = λ i. ap spin_pc (b.pc i); kernel = b.kernel })
Reach-spin {v} {n} (later {s} r (act i e lt page)) =
    subst (Spin.Reach (config v) n) (sym (advance-spin v e s i))
      (Spin.later (Reach-spin r) (Spin.act i e lt page))
Reach-spin {v} {n} (later {s} r (resched i lt)) =
    subst (Spin.Reach (config v) n) (sym (schedule-spin s i))
      (Spin.later (Reach-spin r) (Spin.resched i lt))

custom_mutual_exclusion :
    {v : Variant} {n : ℕ} {s : System}
    → n < 2 ^ 32
    → Reach v n s
    → (i j : ℕ) → i < n
    → j < n
    → (s.threads i).pc ≡ critical
    → (s.threads j).pc ≡ critical
    → i ≡ j
custom_mutual_exclusion few r i j hi hj pi pj =
    mutual_exclusion few (Reach-spin r) i j hi hj (ap spin_pc pi) (ap spin_pc pj)

spin_pc-critical : (p : Pc) → spin_pc p ≡ Spin.critical → p ≡ critical
spin_pc-critical critical h = refl
spin_pc-critical p h = absurd (ground arith)

critical-cases : (p : Pc) → (p ≢ critical) ⊎ (p ≡ critical)
critical-cases critical = inr refl
critical-cases p = inl (λ z. absurd (ground (arith, z)))

-- In every reachable state of fewer than 2^32 threads on a custom spin or backoff lock, where the
-- kernel reads the word of the lock and passes a thread over, some thread has the lock, and that one
-- is not passed over; and no other thread has the lock.
pub custom_parked_has_runner :
    {v : Variant} {n : ℕ} {s : System}
    → n < 2 ^ 32
    → Reach v n s
    → (read : ℕ → Option ℕ) → read s.lock.addr ≡ some s.lock.mem
    → (i : ℕ) → i < n
    → dont_sched read (s.threads i).kernel ≡ true
    → (j : ℕ) × (j < n)
      × ((s.threads j).pc ≡ critical)
      × (dont_sched read (s.threads j).kernel ≡ false)
      × ((k : ℕ) → (n ≤ k) ⊎ ((s.threads k).pc ≢ critical) ⊎ (k ≡ j))
custom_parked_has_runner {n = n} {s = s} few r read h i lt d =
    let (j, in_n, p, runs) = parked_has_runner few (Reach-spin r) read h i lt d in
    let has = spin_pc-critical (s.threads j).pc p in
    (
      j,
      in_n,
      has,
      runs,
      λ k. elim (dec_lt k n) [
        | no out ↦ inl (omega (arith, out))
        | yes lt_k ↦ elim (critical-cases (s.threads k).pc) [
          | inl other ↦ inr (inl other)
          | inr q ↦ inr (inr (custom_mutual_exclusion few r k j lt_k in_n q has))
        ]
      ],
    )
