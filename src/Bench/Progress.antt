-- ===== src/Bench/Progress.antt =====
-- The loop I_bench_per_thread_work of lock-bench.h can always be brought to its end.
use autolock.Base.{
  ℕ, zero, suc, ◌+◌, ◌-◌, ◌*◌, ◌≤◌, ◌<◌, ◌≡◌, refl, inl, inr, false, arith, sum_over,
  sum_over-update, le-sum_over, sum_over-pos, Bool-cases, dec_lt, ◌==◌,
}
use autolock.Bench.{
  per_thread_work, RunParams, Pc, locking, checking, working, storing, unlocking, leaving, finished,
  Thread, Shared, dispatch, step, System, advance, Reach,
}
use autolock.Bench.Counts.{
  in_lock, rounds, rounds-pred, rounds-zero, IsLocal, Inv, advance-Inv, Reach-Inv,
}

-- A run goes on from one state to another.
pub data Continues (p : RunParams) (n : ℕ) : System → System → Type 0 where
  end : {s : System} → Continues p n s s
  next : {s t : System} (i : ℕ) → i < n → Continues p n (advance p s i) t → Continues p n s t

-- The steps that a thread needs when it has the lock whenever it asks for it.
abbrev steps_at : ℕ → Pc → Thread → ℕ
steps_at cs finished t = 0
steps_at cs leaving t = 0
steps_at cs checking t = 0
steps_at cs locking t = rounds (2 * cs + 3) t.outer
steps_at cs unlocking t = rounds (2 * cs + 3) (t.outer - 1) + 1
steps_at cs working t = rounds (2 * cs + 3) (t.outer - 1) + 2 * t.i + 2
steps_at cs (storing v) t = rounds (2 * cs + 3) (t.outer - 1) + 2 * t.i + 1

abbrev steps : ℕ → Thread → ℕ
steps cs t = steps_at cs t.pc t

-- A thread that need not wait gets nearer to its end.
dispatch-steps :
    (p : RunParams) (q : Pc) (s : Shared) (t : Thread)
    → p.bench_type ≡ per_thread_work
    → IsLocal s.global_state q t
    → 0 < steps_at p.cs_iter q t
    → (in_lock q ≡ 0 → s.held ≡ false)
    → steps p.cs_iter (dispatch p q s t).1 < steps_at p.cs_iter q t
unfolding dispatch
dispatch-steps p finished s t b h pos f = absurd (omega arith)
dispatch-steps p unlocking s t b h pos f = elim (Bool-cases (t.outer - 1 == 0)) [
  | inl z ↦ ground (arith, rounds-zero (2 * p.cs_iter + 3) (t.outer - 1))
  | inr z ↦ ground arith
]
dispatch-steps p q s t b h pos f = ground (arith, rounds-pred (2 * p.cs_iter + 3) t.outer)

steps-finished :
    (cs g : ℕ) (q : Pc) (t : Thread) → IsLocal g q t → steps_at cs q t ≡ 0 → q ≡ finished
steps-finished cs g finished t h z = refl
steps-finished cs g q t h z = absurd (ground (arith, rounds-pred (2 * cs + 3) t.outer))

in_lock-steps :
    (cs : ℕ) (g : ℕ) (q : Pc) (t : Thread) → IsLocal g q t → 0 < in_lock q → 0 < steps_at cs q t
in_lock-steps cs g finished t h z = absurd (omega arith)
in_lock-steps cs g q t h z = ground arith

abbrev to_do : RunParams → ℕ → System → ℕ
to_do p n s = sum_over (steps p.cs_iter) n s.threads

module _ {p : RunParams} {n : ℕ} (b : p.bench_type ≡ per_thread_work) where
  -- While there is something to do, some thread can get nearer to its end.
  progress :
      (s : System)
      → Inv p n s
      → 0 < to_do p n s
      → (i : ℕ) × (i < n) × (to_do p n (advance p s i) < to_do p n s)
  unfolding step
  progress s inv pos = elim (Bool-cases s.shared.held) [
    | inl held ↦
        let (i, lt, at) = sum_over-pos (λ t. in_lock t.pc) n s.threads (ground (arith, inv.held)) in
        (
          i,
          lt,
          less i lt (in_lock-steps p.cs_iter _ (s.threads i).pc (s.threads i) (inv.locals i lt) at)
              (λ z. absurd (omega (arith, at, z))),
        )
    | inr unheld ↦
        let (i, lt, at) = sum_over-pos (steps p.cs_iter) n s.threads pos in
        (i, lt, less i lt at (λ _. unheld))
  ]
    where
      less :
          (i : ℕ)
          → i < n
          → 0 < steps p.cs_iter (s.threads i)
          → (in_lock (s.threads i).pc ≡ 0 → s.shared.held ≡ false)
          → to_do p n (advance p s i) < to_do p n s
      less i lt at f = omega (
        arith,
        dispatch-steps p (s.threads i).pc s.shared (s.threads i) b (inv.locals i lt) at f,
        sum_over-update (steps p.cs_iter) n s.threads i (step p s.shared (s.threads i)).1 lt,
      )

  finishes_within :
      (k : ℕ) (s : System)
      → Inv p n s
      → to_do p n s ≤ k
      → (t : System) × Continues p n s t × ((i : ℕ) → i < n → (t.threads i).pc ≡ finished)
  finishes_within zero s inv le = (
    s,
    end,
    λ i lt.
        steps-finished p.cs_iter s.shared.global_state (s.threads i).pc (s.threads i)
          (inv.locals i lt) (omega (arith, le-sum_over (steps p.cs_iter) n s.threads i lt)),
  )
  finishes_within (suc k) s inv le = elim (dec_lt 0 (to_do p n s)) [
    | no z ↦ finishes_within k s inv (omega arith)
    | yes pos ↦
        let (i, lt, less) = progress s inv pos in
        let (t, run, all) =
          finishes_within k (advance p s i) (advance-Inv p n s i b lt inv) (omega (arith, less)) in
        (t, next i lt run, all)
  ]

-- With BENCH_PER_THREAD_WORK no thread is ever stuck behind the others: from every reachable state,
-- also with a thread inside the lock, the run can go on to a state where all threads are finished.
pub per_thread-finishes :
    {p : RunParams} {n : ℕ} {s : System}
    → p.bench_type ≡ per_thread_work
    → Reach p n s
    → (t : System) × Continues p n s t × ((i : ℕ) → i < n → (t.threads i).pc ≡ finished)
per_thread-finishes {p} {n} {s} b r =
    finishes_within b (to_do p n s) s (Reach-Inv b r) (omega arith)
