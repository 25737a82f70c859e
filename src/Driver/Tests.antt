-- ===== src/Driver/Tests.antt =====
-- Runs of main on a few options, and its theorem on them.
use autolock.Base.{ℕ, ◌≡◌, refl, Bool, true, ◌⊎◌, inl, inr, Option, none, some, List, [], ◌∷◌}
use autolock.Base.Exec.{value}
use autolock.Arg.{Text, str_eq}
use autolock.Decls.{run_decls}
use autolock.Driver.{
  Options, Check, total_work_set, one_benchmark, power_of_two, dies, is_power, run_locks,
  run_params_init, main, Outcome, listed, ran,
}
use autolock.Driver.Checks.{Flags, Accepts, accepted, main-decides}

-- The defaults, with --bench and --all.
abbrev defaults : Options
defaults = record {
  do_list = 0;
  do_test = 0;
  do_bench = 1;
  with_sched_stats = 0;
  contention = 0;
  outer_iter = 1000000;
  cs_iter = 1;
  extra_iter = 0;
  bench_per_thread_work = 0;
  bench_total_work = 0;
  num_trials = 1;
  num_threads = 1;
  cpu_list = none;
  num_cpus = 4294967295;
  pin_cpus = 0;
  prefer_hyper_threads = 0;
  run_all = 1;
  lock_names = [];
}

-- With --bench-total-work and a contention of 4.
abbrev with_total : Options
with_total = record defaults { bench_total_work = 1; contention = 4 }

-- `regcomp` accepts every name here.
abbrev every : Text → Bool
every n = true

abbrev decls : List Text
decls = (b'a' ∷ b'b' ∷ []) ∷ (b'c' ∷ []) ∷ []

defaults_die : main every str_eq decls defaults ≡ dies total_work_set
unfolding main
defaults_die = refl

both_die :
    main every str_eq decls (record with_total { bench_per_thread_work = 1 }) ≡ dies one_benchmark
unfolding main
both_die = refl

contention_dies : main every str_eq decls (record with_total { contention = 6 }) ≡ dies power_of_two
unfolding main is_power
contention_dies = refl

-- The locks that are run, and their contention_mask.
abbrev runs_of : Outcome → Option (ℕ × List Text)
runs_of (dies c) = none
runs_of (listed r) = none
runs_of (ran p b (value r)) = some (p.contention_mask, r.0)
runs_of (ran p b r) = none

all_run : runs_of (main every str_eq decls with_total) ≡ some (3, decls)
unfolding main is_power run_locks run_params_init run_decls
all_run = refl

-- Without names every lock is listed.
all_listed :
    main every str_eq decls (record with_total { run_all = 0; do_bench = 0; do_list = 1 })
    ≡ listed (value (decls, []))
unfolding main is_power run_locks run_decls
all_listed = refl

with_total-Flags : Flags with_total
with_total-Flags = record {
  do_list = inl refl;
  do_test = inl refl;
  do_bench = inr refl;
  bench_per_thread_work = inl refl;
  bench_total_work = inr refl;
}

main-decides_example :
    (Accepts with_total
      × (main every str_eq decls with_total ≡ accepted every str_eq decls with_total))
    ⊎ ((Accepts with_total → ⊥) × ((c : Check) × (main every str_eq decls with_total ≡ dies c)))
main-decides_example = main-decides every str_eq decls with_total with_total-Flags
