-- ===== src/Bench/Total.antt =====
-- The counter of lock-bench.h in I_bench_total_work: it stops at the total, and not beyond it.
use autolock.Base.{
  ℕ, zero, suc, ◌+◌, ◌-◌, ◌*◌, ◌%◌, ◌^◌, ◌≤◌, ◌<◌, ◌≡◌, ◌≢◌, refl, sym, ap, ◌∙◌, ◌⊎◌, inl, inr,
  true, false, arith, update, sum_over-update, le-sum_over, add-le-sum_over_ne, sum_over-eq-zero,
  sum_over-pos, Bool-cases, dec_lt, ◌==◌, ==_iff,
}
use mathlib.Core.Path.{subst}
use autolock.Bench.{
  total_work, RunParams, Pc, locking, checking, working, storing, unlocking, leaving, finished,
  Thread, Shared, dispatch, step, begin, System, advance, Reach, start, later, get_expected_count,
}
use autolock.Bench.Counts.{in_lock, free, holders, rounds, rounds-mul, dispatch-holds}

rounds-le : (cs k d : ℕ) → rounds cs k ≤ rounds cs (d + k)
unfolding rounds
rounds-le cs k zero = omega (arith, ap (rounds cs) (zero_add k))
  where
    zero_add : (j : ℕ) → 0 + j ≡ j
    zero_add j = omega arith
rounds-le cs k (suc d) = omega (arith, rounds-le cs k d, ap (rounds cs) (suc_add d k))
  where
    suc_add : (i j : ℕ) → suc i + j ≡ suc (i + j)
    suc_add i j = omega arith

-- A multiple of `cs`, up to the `m`-th.
abbrev Multiple : ℕ → ℕ → ℕ → Type 0
Multiple cs m g = (k : ℕ) × (k ≤ m) × (g ≡ rounds cs k)

Multiple-le : (cs m g : ℕ) → Multiple cs m g → g ≤ rounds cs m
Multiple-le cs m g (k, h, e) =
    rw e (subst (λ j. rounds cs k ≤ rounds cs j) (omega arith) (rounds-le cs k (m - k)))

-- The next multiple, in front of the last one.
Multiple-next : (cs m g : ℕ) → Multiple cs m g → g ≢ rounds cs m → Multiple cs m (g + cs)
unfolding rounds
Multiple-next cs m g (k, h, e) ne = (suc k, below, ap (λ x. x + cs) e)
  where
    below : suc k ≤ m
    below = elim (dec_lt k m) [
      | yes lt ↦ omega arith
      | no ge ↦ absurd (ne (e ∙ ap (rounds cs) (omega arith)))
    ]

-- Only a store moves the counter.
Pc-cases :
    (p : RunParams) (q : Pc)
    → ((v : ℕ) × (q ≡ storing v))
      ⊎ ((s : Shared) (t : Thread) → (dispatch p q s t).0.global_state ≡ s.global_state)
unfolding dispatch
Pc-cases p (storing v) = inl (v, refl)
Pc-cases p finished = inr (λ s t. refl)
Pc-cases p q = inr (λ s t. ground arith)

module _ (p : RunParams) (m : ℕ) where
  -- What a thread's place says of it, and of the counter `g`.
  abbrev IsLocal : ℕ → Pc → Thread → Type 0
  IsLocal g locking t = Unit
  IsLocal g checking t = Multiple p.cs_iter m g
  IsLocal g working t = Multiple p.cs_iter m (g + t.i)
  IsLocal g (storing v) t = (v ≡ g) × (0 < t.i) × Multiple p.cs_iter m (g + t.i)
  IsLocal g unlocking t = Multiple p.cs_iter m g
  IsLocal g leaving t = (g ≡ rounds p.cs_iter m) × Multiple p.cs_iter m g
  IsLocal g finished t = g ≡ rounds p.cs_iter m

  abbrev IsRest : Shared → Type 0
  IsRest s = s.held ≡ false → Multiple p.cs_iter m s.global_state

  taken : (s : Shared) → s.held ≡ true → IsRest s
  taken s h f = absurd (ground arith)

  -- Without other work to do, the counter does not wrap around.
  stored :
      (g i : ℕ)
      → rounds p.cs_iter m < 2 ^ 64
      → 0 < i
      → Multiple p.cs_iter m (g + i)
      → Multiple p.cs_iter m ((g + 1) % 2 ^ 64 + (i - 1))
  stored g i small pos d =
      subst (Multiple p.cs_iter m) (omega (arith, Multiple-le p.cs_iter m (g + i) d)) d

  module _ (b : p.bench_type ≡ total_work) (total : p.outer_iter ≡ rounds p.cs_iter m)
      (small : rounds p.cs_iter m < 2 ^ 64) where
    dispatch-IsLocal :
        (q : Pc) (s : Shared) (t : Thread)
        → t.pc ≡ q
        → (in_lock q ≡ 1 → s.held ≡ true)
        → IsRest s
        → IsLocal s.global_state q t
        → let (s', t') = dispatch p q s t in IsLocal s'.global_state t'.pc t' × IsRest s'
    unfolding dispatch
    dispatch-IsLocal locking s t e hl r h = elim (Bool-cases s.held) [
      | inl f ↦ rw (f, e) (tt, λ z. absurd (ground arith))
      | inr f ↦ rw (f, b) (r f, λ z. absurd (ground arith))
    ]
    dispatch-IsLocal checking s t e hl r h = elim (Bool-cases (p.outer_iter == s.global_state)) [
      | inl f ↦ rw f ((sym ((==_iff _ _).0 f) ∙ total, h), r)
      | inr f ↦ rw f (Multiple-next p.cs_iter m s.global_state h (λ n. absurd (ground arith)), r)
    ]
    dispatch-IsLocal working s t e hl r h = elim (Bool-cases (t.i == 0)) [
      | inl f ↦ rw f (subst (Multiple p.cs_iter m) (ground arith) h, r)
      | inr f ↦ rw f ((refl, ground arith, h), r)
    ]
    dispatch-IsLocal (storing v) s t e hl r h = (
      subst (λ g. Multiple p.cs_iter m ((g + 1) % 2 ^ 64 + (t.i - 1))) (sym h.0)
          (stored s.global_state t.i small h.1 h.2),
      taken (record s { global_state = (v + 1) % 2 ^ 64 }) (hl refl),
    )
    dispatch-IsLocal unlocking s t e hl r h = rw b (tt, λ _. h)
    dispatch-IsLocal leaving s t e hl r h = (h.0, λ _. h.1)
    dispatch-IsLocal finished s t e hl r h = (rw e h, r)

    -- While a thread works, the total is not reached, and no other thread is in the lock.
    working-IsLocal :
        (g g' v : ℕ) (t : Thread) (q : Pc) (u : Thread)
        → in_lock q ≡ 0
        → IsLocal g (storing v) t
        → IsLocal g q u
        → IsLocal g' q u
    working-IsLocal g g' v t locking u o h k = tt
    working-IsLocal g g' v t finished u o h k =
        absurd (omega (arith, h.1, k, Multiple-le p.cs_iter m (g + t.i) h.2))
    working-IsLocal g g' v t q u o h k = absurd (ground arith)

    IsLocal-other :
        (s : Shared) (t : Thread) (q : Pc) (u : Thread)
        → in_lock q + in_lock t.pc ≤ 1
        → IsLocal s.global_state t.pc t
        → IsLocal s.global_state q u
        → IsLocal (dispatch p t.pc s t).0.global_state q u
    IsLocal-other s t q u one h k = elim (Pc-cases p t.pc) [
      | inr same ↦ subst (λ g. IsLocal g q u) (sym (same s t)) k
      | inl (v, e) ↦
          working-IsLocal s.global_state (dispatch p t.pc s t).0.global_state v t q u
            (omega (arith, one, ap in_lock e)) (subst (λ x. IsLocal s.global_state x t) e h) k
    ]

  record Inv (n : ℕ) (s : System) : Type 0 where
    held : holders n s.threads + free s.shared ≡ 1
    rest : IsRest s.shared
    locals : (i : ℕ) → i < n → IsLocal s.shared.global_state (s.threads i).pc (s.threads i)

  module _ (b : p.bench_type ≡ total_work) (total : p.outer_iter ≡ rounds p.cs_iter m)
      (small : rounds p.cs_iter m < 2 ^ 64) where
    advance-Inv : (n : ℕ) (s : System) (i : ℕ) → i < n → Inv n s → Inv n (advance p s i)
    unfolding step
    advance-Inv n s i lt inv = record {
      held =
          omega (arith, inv.held, hold, sum_over-update (λ t. in_lock t.pc) n s.threads i after lt);
      rest = own.1;
      locals = locals';
    }
      where
        after : Thread
        after = (dispatch p (s.threads i).pc s.shared (s.threads i)).1

        hold :
            in_lock after.pc + free (dispatch p (s.threads i).pc s.shared (s.threads i)).0
            ≡ in_lock (s.threads i).pc + free s.shared
        hold =
            dispatch-holds p s.shared (s.threads i)
              (omega (arith, inv.held, le-sum_over (λ t. in_lock t.pc) n s.threads i lt))

        has : in_lock (s.threads i).pc ≡ 1 → s.shared.held ≡ true
        has h = ground (arith, inv.held, le-sum_over (λ t. in_lock t.pc) n s.threads i lt)

        own :
            let (s', t') = dispatch p (s.threads i).pc s.shared (s.threads i) in
            IsLocal s'.global_state t'.pc t' × IsRest s'
        own =
            dispatch-IsLocal b total small (s.threads i).pc s.shared (s.threads i) refl has inv.rest
              (inv.locals i lt)

        locals' :
            (j : ℕ)
            → j < n
            → IsLocal
                (dispatch p (s.threads i).pc s.shared (s.threads i)).0.global_state
                (update s.threads i after j).pc
                (update s.threads i after j)
        locals' j hj = elim (Bool-cases (i == j)) [
          | inl e ↦ rw e own.0
          | inr e ↦ rw e (
              IsLocal-other b total small s.shared (s.threads i) (s.threads j).pc (s.threads j)
                (omega
                  (arith, inv.held, add-le-sum_over_ne (λ t. in_lock t.pc) n s.threads i j e lt hj))
                (inv.locals i lt) (inv.locals j hj))
        ]

    begin-locking : (begin p).pc ≡ locking
    unfolding begin
    begin-locking = rw b refl

    Reach-Inv : {n : ℕ} {s : System} → Reach p n s → Inv n s
    unfolding rounds
    Reach-Inv {n} start = record {
      held =
          omega
            (arith, sum_over-eq-zero (λ t. in_lock t.pc) n (λ _. begin p) (λ i. rw begin-locking));
      rest = λ _. (0, omega arith, refl);
      locals = λ i lt. rw begin-locking tt;
    }
    Reach-Inv {n} (later {s} i lt r) = advance-Inv n s i lt (Reach-Inv r)

  IsLocal-le :
      (g : ℕ) (q : Pc) (t : Thread) → 0 < in_lock q → IsLocal g q t → g ≤ rounds p.cs_iter m
  IsLocal-le g locking t h k = absurd (omega arith)
  IsLocal-le g finished t h k = absurd (omega arith)
  IsLocal-le g checking t h k = Multiple-le p.cs_iter m g k
  IsLocal-le g working t h k = omega (arith, Multiple-le p.cs_iter m (g + t.i) k)
  IsLocal-le g (storing v) t h k = omega (arith, Multiple-le p.cs_iter m (g + t.i) k.2)
  IsLocal-le g unlocking t h k = Multiple-le p.cs_iter m g k
  IsLocal-le g leaving t h k = Multiple-le p.cs_iter m g k.1

  Inv-le : {n : ℕ} {s : System} → Inv n s → s.shared.global_state ≤ rounds p.cs_iter m
  Inv-le {n} {s} inv = elim (Bool-cases s.shared.held) [
    | inr f ↦ Multiple-le p.cs_iter m s.shared.global_state (inv.rest f)
    | inl f ↦
        let (i, lt, pos) =
          sum_over-pos (λ t. in_lock t.pc) n s.threads (ground (arith, inv.held)) in
        IsLocal-le s.shared.global_state (s.threads i).pc (s.threads i) pos (inv.locals i lt)
  ]

module _ {p : RunParams} {n : ℕ} {s : System} (m : ℕ) (b : p.bench_type ≡ total_work)
    (total : p.outer_iter ≡ m * p.cs_iter) (small : p.outer_iter < 2 ^ 32) (r : Reach p n s) where
  whole : p.outer_iter ≡ rounds p.cs_iter m
  whole = total ∙ sym (rounds-mul p.cs_iter m)

  invariant : Inv p m n s
  invariant = Reach-Inv p m b whole (omega (arith, small, whole)) r

  finished-cases : (q : Pc) → (q ≢ finished) ⊎ (q ≡ finished)
  finished-cases finished = inr refl
  finished-cases q = inl (λ z. absurd (ground (arith, z)))

  -- With BENCH_TOTAL_WORK and a total below 2^32 that is a multiple of `cs_iter`, the counter never
  -- passes the total, in whatever order the threads ran, and it is the expected count as soon as one
  -- thread has finished.
  pub total-count :
      (i : ℕ)
      → i < n
      → (s.shared.global_state ≤ p.outer_iter)
        × (((s.threads i).pc ≢ finished) ⊎ (s.shared.global_state ≡ get_expected_count n p))
  unfolding get_expected_count
  total-count i lt = (
    omega (arith, Inv-le p m invariant, whole),
    elim (finished-cases (s.threads i).pc) [
      | inl other ↦ inl other
      | inr e ↦ inr (
          subst (λ q. IsLocal p m s.shared.global_state q (s.threads i)) e (invariant.locals i lt)
          ∙ sym whole
          ∙ rw b refl)
    ],
  )
