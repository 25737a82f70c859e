-- ===== src/Bench/Counts.antt =====
-- The counter of lock-bench.h when the threads are done: no increment is lost.
use autolock.Base.{
  ℕ, zero, suc, ◌+◌, ◌-◌, ◌*◌, ◌%◌, ◌^◌, ◌≤◌, ◌<◌, ◌≡◌, refl, sym, ap, ◌∙◌, inl, inr, false, arith,
  update, sum_over, sum_over-update, le-sum_over, add-le-sum_over_ne, sum_over-eq-zero,
  sum_over-const, sum_over-eq-zero_below, Bool-cases, ◌==◌, if◌then◌else◌,
}
use autolock.Bench.{
  per_thread_work, RunParams, Pc, locking, checking, working, storing, unlocking, leaving, finished,
  Thread, Shared, dispatch, step, begin, System, advance, reset, Reach, start, later,
  get_expected_count,
}

abbrev pub in_lock : Pc → ℕ
in_lock locking = 0
in_lock finished = 0
in_lock p = 1

abbrev pub free : Shared → ℕ
free s = if s.held then 0 else 1

unfoldable pub rounds : ℕ → ℕ → ℕ
rounds cs zero = 0
rounds cs (suc k) = rounds cs k + cs

pub rounds-mul : (cs k : ℕ) → rounds cs k ≡ k * cs
unfolding rounds
rounds-mul cs zero = omega arith
rounds-mul cs (suc k) = grind (arith, rounds-mul cs k)

pub rounds-pred : (cs k : ℕ) → 0 < k → rounds cs k ≡ rounds cs (k - 1) + cs
unfolding rounds
rounds-pred cs zero h = absurd (omega arith)
rounds-pred cs (suc k) h = ap (λ j. rounds cs j + cs) (omega arith)

pub rounds-zero : (cs k : ℕ) → k ≡ 0 → rounds cs k ≡ 0
unfolding rounds
rounds-zero cs zero h = refl
rounds-zero cs (suc k) h = absurd (omega arith)

-- The increments that a thread of I_bench_per_thread_work has still to do.
abbrev pub left_at : ℕ → Pc → Thread → ℕ
left_at cs finished t = 0
left_at cs leaving t = 0
left_at cs locking t = rounds cs t.outer
left_at cs checking t = rounds cs t.outer
left_at cs unlocking t = rounds cs (t.outer - 1)
left_at cs p t = rounds cs (t.outer - 1) + t.i

abbrev pub work_left : ℕ → Thread → ℕ
work_left cs t = left_at cs t.pc t

-- What a thread's place says of it in I_bench_per_thread_work.
abbrev pub IsLocal : ℕ → Pc → Thread → Type 0
IsLocal g finished t = Unit
IsLocal g checking t = ⊥
IsLocal g leaving t = ⊥
IsLocal g (storing v) t = (0 < t.outer) × (0 < t.i) × (v ≡ g)
IsLocal g unlocking t = 0 < t.outer
IsLocal g locking t = 0 < t.outer
IsLocal g working t = 0 < t.outer

abbrev gain : Pc → ℕ
gain (storing v) = 1
gain p = 0

pub dispatch-holds :
    (p : RunParams) (s : Shared) (t : Thread)
    → in_lock t.pc + free s ≤ 1
    → let (s', t') = step p s t in in_lock t'.pc + free s' ≡ in_lock t.pc + free s
unfolding step dispatch
dispatch-holds p s t h = ground arith

dispatch-work :
    (p : RunParams) (q : Pc) (s : Shared) (t : Thread) (m : ℕ)
    → t.pc ≡ q
    → p.bench_type ≡ per_thread_work
    → s.global_state ≡ m % 2 ^ 64
    → IsLocal s.global_state q t
    → let (s', t') = dispatch p q s t in
      IsLocal s'.global_state t'.pc t'
      × (s'.global_state ≡ (m + gain q) % 2 ^ 64)
      × (m + gain q + work_left p.cs_iter t' ≡ m + left_at p.cs_iter q t)
unfolding dispatch
dispatch-work p finished s t m e b g h = (rw e tt, ground arith, rw e (omega arith))
dispatch-work p unlocking s t m e b g h = elim (Bool-cases (t.outer - 1 == 0)) [
  | inl z ↦ ground (arith, rounds-zero p.cs_iter (t.outer - 1))
  | inr z ↦ ground arith
]
dispatch-work p q s t m e b g h = ground (arith, rounds-pred p.cs_iter t.outer)

-- A thread that does not hold the lock does not care for the counter.
IsLocal-other :
    (g g' : ℕ) (q : Pc) (t : Thread) → (in_lock q ≡ 1 → g' ≡ g) → IsLocal g q t → IsLocal g' q t
IsLocal-other g g' finished t e h = tt
IsLocal-other g g' q t e h = ground arith

-- A thread that changes the counter holds the lock.
dispatch-global :
    (p : RunParams) (q : Pc) (s : Shared) (t : Thread)
    → in_lock q ≡ 0
    → (dispatch p q s t).0.global_state ≡ s.global_state
unfolding dispatch
dispatch-global p finished s t e = refl
dispatch-global p q s t e = ground arith

abbrev pub holders : ℕ → (ℕ → Thread) → ℕ
holders n f = sum_over (λ t. in_lock t.pc) n f

pub record Inv (p : RunParams) (n : ℕ) (s : System) : Type 0 where
  pub done : ℕ
  pub held : holders n s.threads + free s.shared ≡ 1
  pub count : s.shared.global_state ≡ done % 2 ^ 64
  pub left : done + sum_over (work_left p.cs_iter) n s.threads ≡ n * rounds p.cs_iter p.outer_iter
  pub locals : (i : ℕ) → i < n → IsLocal s.shared.global_state (s.threads i).pc (s.threads i)

begin-facts :
    (p : RunParams)
    → p.bench_type ≡ per_thread_work
    → (in_lock (begin p).pc ≡ 0)
      × (work_left p.cs_iter (begin p) ≡ rounds p.cs_iter p.outer_iter)
      × IsLocal 0 (begin p).pc (begin p)
unfolding begin
begin-facts p b = elim (Bool-cases (p.outer_iter == 0)) [
  | inl z ↦ ground (arith, rounds-zero p.cs_iter p.outer_iter)
  | inr z ↦ ground arith
]

reset-Inv : (p : RunParams) (n : ℕ) → p.bench_type ≡ per_thread_work → Inv p n (reset p)
reset-Inv p n b = record {
  done = 0;
  held =
      omega
        (arith, sum_over-eq-zero (λ t. in_lock t.pc) n (λ _. begin p) (λ i. (begin-facts p b).0));
  count = refl;
  left = omega (
    arith,
    sum_over-const (work_left p.cs_iter) n (begin p),
    ap (λ w. n * w) (begin-facts p b).1,
  );
  locals = λ i lt. (begin-facts p b).2;
}

pub advance-Inv :
    (p : RunParams) (n : ℕ) (s : System) (i : ℕ)
    → p.bench_type ≡ per_thread_work
    → i < n
    → Inv p n s
    → Inv p n (advance p s i)
unfolding step
advance-Inv p n s i b lt inv = record {
  done = inv.done + gain (s.threads i).pc;
  held = omega (arith, inv.held, hold, sum_over-update (λ t. in_lock t.pc) n s.threads i after lt);
  count = own.1;
  left =
      omega (arith, inv.left, own.2, sum_over-update (work_left p.cs_iter) n s.threads i after lt);
  locals = locals';
}
  where
    after : Thread
    after = (dispatch p (s.threads i).pc s.shared (s.threads i)).1

    hold :
        in_lock after.pc + free (dispatch p (s.threads i).pc s.shared (s.threads i)).0
        ≡ in_lock (s.threads i).pc + free s.shared
    hold =
        dispatch-holds p s.shared (s.threads i)
          (omega (arith, inv.held, le-sum_over (λ t. in_lock t.pc) n s.threads i lt))

    own :
        let (s', t') = dispatch p (s.threads i).pc s.shared (s.threads i) in
        IsLocal s'.global_state t'.pc t'
        × (s'.global_state ≡ (inv.done + gain (s.threads i).pc) % 2 ^ 64)
        × (inv.done + gain (s.threads i).pc + work_left p.cs_iter t'
            ≡ inv.done + left_at p.cs_iter (s.threads i).pc (s.threads i))
    own =
        dispatch-work p (s.threads i).pc s.shared (s.threads i) inv.done refl b inv.count
          (inv.locals i lt)

    same_global :
        (j : ℕ)
        → j < n
        → (i == j) ≡ false
        → in_lock (s.threads j).pc ≡ 1
        → (dispatch p (s.threads i).pc s.shared (s.threads i)).0.global_state
          ≡ s.shared.global_state
    same_global j hj ne held = dispatch-global p (s.threads i).pc s.shared (s.threads i) (
        omega
          (arith, inv.held, held, add-le-sum_over_ne (λ t. in_lock t.pc) n s.threads i j ne lt hj))

    locals' :
        (j : ℕ)
        → j < n
        → IsLocal
            (dispatch p (s.threads i).pc s.shared (s.threads i)).0.global_state
            (update s.threads i after j).pc
            (update s.threads i after j)
    locals' j hj = elim (Bool-cases (i == j)) [
      | inl e ↦ rw e own.0
      | inr e ↦
          rw e (
            IsLocal-other _ _ (s.threads j).pc (s.threads j) (same_global j hj e) (inv.locals j hj))
    ]

pub Reach-Inv :
    {p : RunParams} {n : ℕ} {s : System} → p.bench_type ≡ per_thread_work → Reach p n s → Inv p n s
Reach-Inv {p} {n} b start = reset-Inv p n b
Reach-Inv {p} {n} b (later {s} i lt r) = advance-Inv p n s i b lt (Reach-Inv b r)

mul_suc : (x c : ℕ) → x * suc c ≡ x * c + x
mul_suc x c = grind arith

mod_factor : (x c : ℕ) → x % 2 ^ 64 * c % 2 ^ 64 ≡ x * c % 2 ^ 64
mod_factor x zero = omega arith
mod_factor x (suc c) = omega (arith, mod_factor x c, mul_suc x c, mul_suc (x % 2 ^ 64) c)

mod_product : (n o c : ℕ) → n * o % 2 ^ 64 * c % 2 ^ 64 ≡ n * (o * c) % 2 ^ 64
mod_product n o c = mod_factor (n * o) c ∙ ap (λ m. m % 2 ^ 64) (grind arith)

-- With BENCH_PER_THREAD_WORK, whatever the order in which the threads ran, when all are finished
-- the counter is the one that the runner expects: no increment is lost.
pub per_thread-count :
    {p : RunParams} {n : ℕ} {s : System}
    → p.bench_type ≡ per_thread_work
    → Reach p n s
    → ((i : ℕ) → i < n → (s.threads i).pc ≡ finished)
    → s.shared.global_state ≡ get_expected_count n p
unfolding get_expected_count
per_thread-count {p} {n} {s} b r end =
    inv.count
    ∙ ap (λ m. m % 2 ^ 64) all_done
    ∙ sym (mod_product n p.outer_iter p.cs_iter)
    ∙ rw b refl
  where
    inv : Inv p n s
    inv = Reach-Inv b r

    all_done : inv.done ≡ n * (p.outer_iter * p.cs_iter)
    all_done =
        omega (
          arith,
          inv.left,
          sum_over-eq-zero_below (work_left p.cs_iter) n s.threads (λ i lt. rw (end i lt)),
        )
        ∙ ap (λ k. n * k) (rounds-mul p.cs_iter p.outer_iter)
