-- ===== src/Driver.antt =====
-- The driver, user-dev/src/driver.c: the checks on its options, the list of locks or the run, and
-- what it hands to them; with run_params_init of user-dev/src/locks/lock-run-params.h.
use Prim.Native.Nat.{bit_and}
use autolock.Base.{
  ℕ, ◌+◌, ◌-◌, ◌%◌, ◌^◌, ◌<◌, ◌≡◌, ◌⊎◌, Bool, true, false, not, ◌&&◌, ◌||◌, Option, none, some,
  List, [], ◌∷◌, ◌==◌, ltb, if◌then◌else◌,
}
use autolock.Base.Exec.{Exec}
use autolock.Arg.{Text}
use autolock.Bench.{BenchType, total_work, per_thread_work}
use autolock.Decls.{run_decls}
mod Checks
mod Tests

-- The variables that the options set, as bits; no `cpu_list` is `none`.
pub record Options : Type 0 where
  pub do_list : ℕ
  pub do_test : ℕ
  pub do_bench : ℕ
  pub with_sched_stats : ℕ
  pub contention : ℕ
  pub outer_iter : ℕ
  pub cs_iter : ℕ
  pub extra_iter : ℕ
  pub bench_per_thread_work : ℕ
  pub bench_total_work : ℕ
  pub num_trials : ℕ
  pub num_threads : ℕ
  pub cpu_list : Option Text
  pub num_cpus : ℕ
  pub pin_cpus : ℕ
  pub prefer_hyper_threads : ℕ
  pub run_all : ℕ
  pub lock_names : List Text

-- What run_params_init writes of `run_params_t`.
pub record Params : Type 0 where
  pub with_sched_stats : ℕ
  pub outer_iter : ℕ
  pub cs_iter : ℕ
  pub extra_iter : ℕ
  pub contention_mask : ℕ
  pub bench_type : BenchType
  pub num_trials : ℕ
  pub num_threads : ℕ
  pub cpu_list : Option Text
  pub num_cpus : ℕ
  pub pin_cpus : ℕ
  pub prefer_hyper_threads : ℕ

-- The assertions, in their order.
pub data Check : Type 0 where
  one_mode some_threads some_trials some_iter total_work_set one_benchmark : Check
  contention_per_thread power_of_two contention_of_params : Check

-- How main ends: at an assertion; with the locks that it has listed, and the names not found; or with
-- those that it has run, for benchmarks or only to test them. In the two last cases run_decls may end
-- the program, at a name that is no expression.
pub data Outcome : Type 0 where
  dies : Check → Outcome
  listed : Exec (List Text × List Text) → Outcome
  ran : Params → Bool → Exec (List Text × List Text) → Outcome

abbrev pub die_assert : Bool → Check → Outcome → Outcome
die_assert true c rest = rest
die_assert false c rest = dies c

-- !(contention & (contention - 1))
pub is_power : ℕ → Bool
is_power contention = bit_and contention ((contention + 2 ^ 32 - 1) % 2 ^ 32) == 0

-- `run_params_init`, in front of what runs with the parameters.
pub run_params_init : Options → BenchType → (Params → Outcome) → Outcome
unfolding is_power
run_params_init o bench_type rest = die_assert (is_power o.contention) contention_of_params (
    rest (record {
      with_sched_stats = o.with_sched_stats;
      outer_iter = o.outer_iter;
      cs_iter = o.cs_iter;
      extra_iter = o.extra_iter;
      contention_mask = if o.contention == 0 then 0 else o.contention - 1;
      bench_type = bench_type;
      num_trials = o.num_trials;
      num_threads = o.num_threads;
      cpu_list = o.cpu_list;
      num_cpus = o.num_cpus;
      pin_cpus = o.pin_cpus;
      prefer_hyper_threads = o.prefer_hyper_threads;
    }))

abbrev no_names : List Text → Bool
no_names [] = true
no_names (n ∷ ns) = false

-- The names for run_decls: NULL with --all, and where there are none, as `ptrs` then stands as it was
-- initialised.
abbrev pub names : Options → Option (List Text)
names o = if o.run_all == 0 && not (no_names o.lock_names) then some o.lock_names else none

-- Whether main lists the locks.
abbrev pub only_lists : Options → Bool
only_lists o = not (o.do_list == 0) || (o.run_all == 0 && no_names o.lock_names)

-- Behind the checks, with the default for the benchmark.
pub run_locks : (Text → Bool) → (Text → Text → Bool) → List Text → Options → Outcome
unfolding run_params_init
run_locks re_compile re_exec lock_list o =
    if only_lists o
    then listed (run_decls re_compile re_exec lock_list (names o))
    else run_params_init o (if o.bench_total_work == 0 then per_thread_work else total_work)
        (λ p. ran p (not (o.do_bench == 0)) (run_decls re_compile re_exec lock_list (names o)))

abbrev pub default_benchmark : Options → Options
default_benchmark o =
    if o.bench_per_thread_work == 0 && o.bench_total_work == 0
    then record o { bench_per_thread_work = 1 }
    else o

-- main, behind the parsing of the options.
pub main : (Text → Bool) → (Text → Text → Bool) → List Text → Options → Outcome
unfolding is_power run_locks
main re_compile re_exec lock_list o =
    let b = default_benchmark o in
    die_assert ((o.do_bench + o.do_test + o.do_list) % 2 ^ 32 == 1) one_mode (
      die_assert (ltb 0 o.num_threads && ltb o.num_threads (2 ^ 31)) some_threads (
        die_assert (ltb 0 o.num_trials) some_trials (
          die_assert (ltb 0 o.outer_iter) some_iter (
            die_assert (not (o.bench_total_work == 0)) total_work_set (
              die_assert ((b.bench_per_thread_work + b.bench_total_work) % 2 ^ 32 == 1)
                one_benchmark
                (die_assert (b.bench_per_thread_work == 0 || b.contention == 0)
                  contention_per_thread
                  (die_assert (is_power b.contention) power_of_two
                    (run_locks re_compile re_exec lock_list b))))))))
