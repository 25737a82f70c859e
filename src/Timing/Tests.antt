-- ===== src/Timing/Tests.antt =====
-- Runs of the timing: two threads put their statistics into the list, and the destructor prints them.
use autolock.Base.{ℕ, zero, suc, none, some, ◌≤◌, ◌≡◌, refl, true, one_if}
use autolock.Timing.{
  lock, unlock, trylock, ThreadStats, cleared, no_times, values, thread_stats_out, record_call,
  null, fault, walking, System, Env, dispatch, destroy, begin, Reach, start, later, destroyed,
}
use autolock.Timing.Nodes.{visits, called_visits, prints}
use autolock.Timing.Printed.{run_destroy, destroy-prints}

record Run : Type 0 where
  last : System
  reach : Reach last

abbrev env : Env
env = record { func = lock; start = 5; stop = 7 }

-- A step of a thread, and one of the destructor.
abbrev move : ℕ → Run → Run
move i r = record {
  last = dispatch env (r.last.threads i).pc r.last i;
  reach = later i env r.reach;
}

abbrev leave : Run → Run
leave r = record { last = destroy r.last.walker r.last; reach = destroyed r.reach }

-- Thread 0 reads the head, thread 1 is faster, and thread 0 tries again.
abbrev two_listed : Run
two_listed = move 0 (
    move 0 (
      move 0 (move 1 (move 1 (move 1 (move 0 (move 0 (record { last = begin; reach = start }))))))))

abbrev all_printed : Run
all_printed = leave (leave (leave two_listed))

-- Thread 0 counts a call behind its warm-up, and thread 1 does not.
abbrev many : ℕ → Run → Run
many zero r = r
many (suc n) r = many n (move 0 r)

abbrev calls_printed : Run
calls_printed = leave (leave (leave (many 64 two_listed)))

call_printed_values :
    (calls_printed.last.walker ≡ walking null)
    × (prints 0 calls_printed.last.output ≡ 1)
    × (prints 1 calls_printed.last.output ≡ 0)
unfolding dispatch destroy record_call thread_stats_out
call_printed_values = (refl, refl, refl)

listed_values :
    ((two_listed.last.threads 0).has_stats ≡ true)
    × ((two_listed.last.threads 1).has_stats ≡ true)
    × ((two_listed.last.threads 1).warmup_count ≡ 63)
unfolding dispatch
listed_values = (refl, refl, refl)

printed_values :
    (all_printed.last.walker ≡ walking null)
    × (visits 0 all_printed.last.visited ≡ 1)
    × (visits 1 all_printed.last.visited ≡ 1)
    × (prints 0 all_printed.last.output ≡ 0)
unfolding dispatch destroy
printed_values = (refl, refl, refl, refl)

-- A thread whose first timed call ends behind the destructor writes through NULL.
late_faults : ((move 2 (move 2 all_printed)).last.threads 2).pc ≡ fault
unfolding dispatch destroy
late_faults = refl

destroy-prints_example :
    ((j : ℕ)
      → visits j calls_printed.last.visited ≤ one_if (calls_printed.last.threads j).has_stats)
    × (calls_printed.last.walker ≡ walking null
        → (j : ℕ)
        → visits j calls_printed.last.visited ≡ one_if (calls_printed.last.threads j).has_stats)
    × ((j : ℕ) → prints j calls_printed.last.output ≡ called_visits j calls_printed.last.visited)
    × ((j : ℕ)
        → prints j calls_printed.last.output ≤ one_if (calls_printed.last.threads j).has_stats)
    × ((k : ℕ) × ((run_destroy k calls_printed.last).walker ≡ walking null))
destroy-prints_example = destroy-prints calls_printed.reach

-- One call of each function behind the warm-up, from 10 on.
abbrev called : ThreadStats
called =
    record_call unlock 40 45
      (record_call lock 20 30 (record_call trylock 12 15 (record cleared { time_start = 10 })))

called_report :
    thread_stats_out called
    ≡ some (
        values (record {
          calls_trylock = 1;
          calls_lock = 1;
          calls_unlock = 1;
          time_total = 35;
          time_trylock = 3;
          time_lock = 10;
          time_unlock = 5;
        }))
unfolding thread_stats_out record_call
called_report = refl

-- Nothing without a call, and no times without a call of unlock.
other_reports :
    (thread_stats_out cleared ≡ none)
    × (thread_stats_out (record_call lock 20 30 cleared) ≡ some no_times)
unfolding thread_stats_out record_call
other_reports = (refl, refl)
