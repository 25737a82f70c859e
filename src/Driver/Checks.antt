-- ===== src/Driver/Checks.antt =====
-- Which options the driver accepts, and what it does with them.
use autolock.Base.{
  sym, ◌∙◌, ℕ, ◌+◌, ◌-◌, ◌%◌, ◌^◌, ◌<◌, ◌≡◌, refl, ◌⊎◌, inl, inr, Bool, true, false, not, ◌&&◌,
  List, ◌==◌, ==_iff, ltb, Bool-cases, if◌then◌else◌, arith,
}
use autolock.Arg.{Text}
use autolock.Bench.{total_work}
use autolock.Decls.{run_decls}
use autolock.Driver.{
  Options, Check, one_mode, some_threads, some_trials, some_iter, total_work_set, one_benchmark,
  power_of_two, Outcome, dies, listed, ran, is_power, names, only_lists, run_locks, main,
}

-- A variable that a `Set` option has set or not.
abbrev pub IsFlag : ℕ → Type 0
IsFlag n = (n ≡ 0) ⊎ (n ≡ 1)

pub record Flags (o : Options) : Type 0 where
  pub do_list : IsFlag o.do_list
  pub do_test : IsFlag o.do_test
  pub do_bench : IsFlag o.do_bench
  pub bench_per_thread_work : IsFlag o.bench_per_thread_work
  pub bench_total_work : IsFlag o.bench_total_work

-- Exactly one mode, some threads, trials and iterations, a contention of 0 or a power of two, and
-- --bench-total-work without --bench-per-thread-work.
pub record Accepts (o : Options) : Type 0 where
  pub mode : o.do_bench + o.do_test + o.do_list ≡ 1
  pub threads : 0 < o.num_threads
  pub threads_signed : o.num_threads < 2 ^ 31
  pub trials : 0 < o.num_trials
  pub iter : 0 < o.outer_iter
  pub total : o.bench_total_work ≡ 1
  pub per_thread : o.bench_per_thread_work ≡ 0
  pub contention : is_power o.contention ≡ true

-- What the driver then does: the locks that the names choose are listed, or run with the total work.
abbrev pub accepted : (Text → Bool) → (Text → Text → Bool) → List Text → Options → Outcome
accepted re_compile re_exec lock_list o =
    let chosen = run_decls re_compile re_exec lock_list (names o) in
    if only_lists o
    then listed chosen
    else ran
        (record {
          with_sched_stats = o.with_sched_stats;
          outer_iter = o.outer_iter;
          cs_iter = o.cs_iter;
          extra_iter = o.extra_iter;
          contention_mask = if o.contention == 0 then 0 else o.contention - 1;
          bench_type = total_work;
          num_trials = o.num_trials;
          num_threads = o.num_threads;
          cpu_list = o.cpu_list;
          num_cpus = o.num_cpus;
          pin_cpus = o.pin_cpus;
          prefer_hyper_threads = o.prefer_hyper_threads;
        })
        (not (o.do_bench == 0)) chosen

module _ (re_compile : Text → Bool) (re_exec : Text → Text → Bool) (lock_list : List Text)
    (o : Options) (f : Flags o) where
  main-accepted :
      Accepts o → main re_compile re_exec lock_list o ≡ accepted re_compile re_exec lock_list o
  unfolding main run_locks
  main-accepted a = ground (arith, a.mode, a.contention)

  flag-one : {n : ℕ} → IsFlag n → (n == 0) ≡ false → n ≡ 1
  flag-one (inl z) h = absurd (ground (arith, z, h))
  flag-one (inr z) h = z

  -- The assertions on the benchmark, behind those on the mode and the numbers.
  late :
      ((o.do_bench + o.do_test + o.do_list) % 2 ^ 32 == 1) ≡ true
      → (ltb 0 o.num_threads && ltb o.num_threads (2 ^ 31)) ≡ true
      → ltb 0 o.num_trials ≡ true
      → ltb 0 o.outer_iter ≡ true
      → Accepts o ⊎ ((c : Check) × (main re_compile re_exec lock_list o ≡ dies c))
  unfolding main
  late m th tr it = elim (Bool-cases (o.bench_total_work == 0)) [
    | inl z ↦ inr (total_work_set, rw (m, th, tr, it, z) refl)
    | inr nz ↦ elim (Bool-cases (o.bench_per_thread_work == 0)) [
      | inr both ↦ inr (
        one_benchmark,
        rw
            (
              m,
              th,
              tr,
              it,
              nz,
              both,
              two (flag-one f.bench_per_thread_work both) (flag-one f.bench_total_work nz),
            )
            refl,
      )
      | inl per ↦ elim (Bool-cases (is_power o.contention)) [
        | inr p ↦ inr (
          power_of_two,
          rw
              (
                m,
                th,
                tr,
                it,
                nz,
                per,
                one ((==_iff o.bench_per_thread_work 0).0 per) (flag-one f.bench_total_work nz),
                per,
                p,
              )
              refl,
        )
        | inl p ↦ inl (record {
          mode = sum f.do_bench f.do_test f.do_list m;
          threads = ground (arith, th);
          threads_signed = ground (arith, th);
          trials = ground (arith, tr);
          iter = ground (arith, it);
          total = flag-one f.bench_total_work nz;
          per_thread = (==_iff o.bench_per_thread_work 0).0 per;
          contention = p;
        })
      ]
    ]
  ]
    where
      two : {a b : ℕ} → a ≡ 1 → b ≡ 1 → ((a + b) % 2 ^ 32 == 1) ≡ false
      two p q = ground (arith, p, q)

      one : {a b : ℕ} → a ≡ 0 → b ≡ 1 → ((a + b) % 2 ^ 32 == 1) ≡ true
      one p q = ground (arith, p, q)

      sum :
          {a b c : ℕ}
          → IsFlag a
          → IsFlag b
          → IsFlag c
          → ((a + b + c) % 2 ^ 32 == 1) ≡ true
          → a + b + c ≡ 1
      sum x y z t = ground (arith, x, y, z, t)

  decided : Accepts o ⊎ ((c : Check) × (main re_compile re_exec lock_list o ≡ dies c))
  unfolding main
  decided = elim (Bool-cases ((o.do_bench + o.do_test + o.do_list) % 2 ^ 32 == 1)) [
    | inr x ↦ inr (one_mode, rw x refl)
    | inl m ↦ elim (Bool-cases (ltb 0 o.num_threads && ltb o.num_threads (2 ^ 31))) [
      | inr x ↦ inr (some_threads, rw (m, x) refl)
      | inl th ↦ elim (Bool-cases (ltb 0 o.num_trials)) [
        | inr x ↦ inr (some_trials, rw (m, th, x) refl)
        | inl tr ↦ elim (Bool-cases (ltb 0 o.outer_iter)) [
          | inr x ↦ inr (some_iter, rw (m, th, tr, x) refl)
          | inl it ↦ late m th tr it
        ]
      ]
    ]
  ]

  -- Where the options for the mode and the benchmark are set or not: either main accepts them, and
  -- lists the locks that the names choose or runs these, with the total work; or it does not, and
  -- ends at an assertion. So it never runs with the work of each thread, which is the default.
  pub main-decides :
      (Accepts o × (main re_compile re_exec lock_list o ≡ accepted re_compile re_exec lock_list o))
      ⊎ ((Accepts o → ⊥) × ((c : Check) × (main re_compile re_exec lock_list o ≡ dies c)))
  main-decides = elim decided [
    | inl a ↦ inl (a, main-accepted a)
    | inr (c, e) ↦ inr ((λ a. runs (sym e ∙ main-accepted a) (Bool-cases (only_lists o))), (c, e))
  ]
    where
      runs :
          {c : Check}
          → dies c ≡ accepted re_compile re_exec lock_list o
          → (only_lists o ≡ true) ⊎ (only_lists o ≡ false)
          → ⊥
      runs z (inl x) = ground (arith, z, x)
      runs z (inr x) = ground (arith, z, x)
