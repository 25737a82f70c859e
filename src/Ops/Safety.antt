-- ===== src/Ops/Safety.antt =====
-- What holds in every reachable state of the locks of lock_ops.
use autolock.Base.{
  ℕ, ◌+◌, ◌^◌, ◌<◌, ◌≡◌, refl, ap, ◌⊎◌, inl, inr, arith, true, false, ◌==◌, ==_iff, Bool-cases,
  one_if, not, sum_over-eq-zero, sum_over-pos, add-le-sum_over_ne,
}
use autolock.Ops.{Config, sleeping, critical, System, locked, Reach, start, later}
use autolock.Ops.Invariant.{holds, counted, in_futex, sleeps, awake, is_free, total, Inv, le-total}
use autolock.Ops.Steps.{step-Inv}

Reach-Inv : {c : Config} {n : ℕ} {s : System} → n + 1 < 2 ^ 32 → Reach c n s → Inv c.with_futex n s
Reach-Inv {c} {n} {s} few (start st) = record {
  held = omega (
    arith,
    sum_over-eq-zero (λ t. holds t.pc) n s.threads (λ i. ap holds (st.pc i)),
    ap (λ m. one_if (not (m == locked))) st.mem,
  );
  waiters = omega (
    arith,
    st.waiters,
    sum_over-eq-zero (λ t. counted t.pc) n s.threads (λ i. ap counted (st.pc i)),
  );
  woken = inl (sum_over-eq-zero (λ t. sleeps t.pc) n s.threads (λ i. ap sleeps (st.pc i)));
  spins = λ _. sum_over-eq-zero (λ t. in_futex t.pc) n s.threads (λ i. ap in_futex (st.pc i));
}
Reach-Inv {c} {n} few (later {s} i e lt h r) =
    step-Inv c n few s i lt (Reach-Inv few r) e h (s.threads i).pc refl

-- In every reachable state of n threads, n + 1 < 2^32, in every configuration of lock_ops and every
-- interleaving: two threads that have the lock are one thread, the word says that the lock is locked,
-- and `waiters` is the number of threads from the increment to the decrement around futex_wait.
pub ops_mutual_exclusion :
    {c : Config} {n : ℕ} {s : System} (i j : ℕ)
    → n + 1 < 2 ^ 32
    → Reach c n s
    → i < n
    → j < n
    → (s.threads i).pc ≡ critical
    → (s.threads j).pc ≡ critical
    → (i ≡ j) × (s.lock.mem ≡ locked) × (s.lock.waiters ≡ total counted n s.threads)
ops_mutual_exclusion {c} {n} {s} i j few r lt_i lt_j p q =
    let inv = Reach-Inv few r in
    (
      elim (Bool-cases (i == j)) [
        | inl e ↦ (==_iff i j).0 e
        | inr e ↦ absurd (
            omega (
              arith,
              inv.held,
              ap holds p,
              ap holds q,
              add-le-sum_over_ne (λ t. holds t.pc) n s.threads i j e lt_i lt_j,
            ))
      ],
      taken (omega (arith, inv.held, le-total n s.threads holds i lt_i, ap holds p))
          (Bool-cases (s.lock.mem == locked)),
      inv.waiters,
    )
  where
    taken :
        is_free s.lock ≡ 0
        → ((s.lock.mem == locked) ≡ true) ⊎ ((s.lock.mem == locked) ≡ false)
        → s.lock.mem ≡ locked
    taken f (inl e) = (==_iff s.lock.mem locked).0 e
    taken f (inr e) = absurd (omega (arith, f, ap (λ b. one_if (not b)) e))

-- No wake-up is lost: in every reachable state of n threads, n + 1 < 2^32, in every configuration and
-- every interleaving, where a thread sleeps in futex_wait some other thread is awake in `lock`, has
-- the lock, or is in `unlock`.
pub sleeper_has_waker :
    {c : Config} {n : ℕ} {s : System} (i : ℕ)
    → n + 1 < 2 ^ 32
    → Reach c n s
    → i < n
    → (s.threads i).pc ≡ sleeping
    → (j : ℕ) × (j < n) × (0 < awake (s.threads j).pc)
sleeper_has_waker {c} {n} {s} i few r lt p = elim (Reach-Inv few r).woken [
  | inl nobody ↦ absurd (omega (arith, nobody, le-total n s.threads sleeps i lt, ap sleeps p))
  | inr some_awake ↦ sum_over-pos (λ t. awake t.pc) n s.threads some_awake
]
