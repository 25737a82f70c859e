-- ===== src/Bench/Tests.antt =====
-- Runs of the benchmark loops of lock-bench.h on two threads, and the theorems at their states.
use autolock.Base.{◌≢◌, ◌⊎◌, ℕ, zero, suc, ◌≤◌, ◌<◌, ◌≡◌, refl, arith, dec_lt, List, [], ◌∷◌}
use autolock.Bench.{
  total_work, per_thread_work, RunParams, finished, System, Reach, start, later, step, begin, reset,
  get_expected_count,
}
use autolock.Bench.Counts.{per_thread-count}
use autolock.Bench.Total.{total-count}
use autolock.Bench.Progress.{Continues, per_thread-finishes}

-- Two rounds of one increment for each thread; four increments in all, two at a time.
abbrev each : RunParams
each = record { bench_type = per_thread_work; outer_iter = 1; cs_iter = 2; extra_iter = 3 }

abbrev all : RunParams
all = record { bench_type = total_work; outer_iter = 4; cs_iter = 2; extra_iter = 3 }

record Run (p : RunParams) (n : ℕ) : Type 0 where
  last : System
  reach : Reach p n last

turn : {p : RunParams} {n : ℕ} → Run p n → ℕ → Run p n
unfolding dec_lt
turn {p} {n} r i = elim (dec_lt i n) [
  | yes lt ↦ record { last = _; reach = later i lt r.reach }
  | no _ ↦ r
]

run : {p : RunParams} {n : ℕ} → Run p n → List ℕ → Run p n
unfolding turn
run r [] = r
run r (i ∷ is) = run (turn r i) is

repeat : ℕ → ℕ → List ℕ → List ℕ
repeat zero i is = is
repeat (suc k) i is = i ∷ repeat k i is

-- Thread 1 tries while thread 0 has the lock, and works when that one is done.
abbrev each_done : Run each 2
each_done =
    run (record { last = reset each; reach = start }) (repeat 3 0 (1 ∷ repeat 6 0 (repeat 9 1 [])))

abbrev all_done : Run all 2
all_done = run (record { last = reset all; reach = start }) (repeat 30 0 (repeat 6 1 []))

each_finished : (i : ℕ) → i < 2 → (each_done.last.threads i).pc ≡ finished
unfolding run repeat step begin
each_finished zero lt = refl
each_finished (suc zero) lt = refl
each_finished (suc (suc i)) lt = absurd (omega arith)

per_thread-count_example : each_done.last.shared.global_state ≡ get_expected_count 2 each
per_thread-count_example = per_thread-count refl each_done.reach each_finished

all_values :
    (all_done.last.shared.global_state ≡ 4)
    × ((all_done.last.threads 0).pc ≡ finished)
    × ((all_done.last.threads 1).pc ≡ finished)
unfolding run repeat step begin
all_values = (refl, refl, refl)

total-count_example :
    (all_done.last.shared.global_state ≤ 4)
    × (((all_done.last.threads 0).pc ≢ finished)
        ⊎ (all_done.last.shared.global_state ≡ get_expected_count 2 all))
total-count_example = total-count 2 refl (omega arith) (omega arith) all_done.reach 0 (omega arith)

-- Thread 0 has the lock.
abbrev each_begun : Run each 2
each_begun = run (record { last = reset each; reach = start }) (0 ∷ 0 ∷ [])

per_thread-finishes_example :
    (t : System) × Continues each 2 each_begun.last t
    × ((i : ℕ) → i < 2 → (t.threads i).pc ≡ finished)
per_thread-finishes_example = per_thread-finishes refl each_begun.reach
