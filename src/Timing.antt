-- ===== src/Timing.antt =====
-- The timing of the interposed locks, user-dev/src/interpose/interpose-timing.h: what a thread
-- measures, the list of the threads' statistics, and the destructor that prints it. The loads and
-- exchanges of the head of the list are steps; a thread's writes to its own statistics are one step
-- with what stands in front of them.
use autolock.Base.{
  ℕ, ◌+◌, ◌-◌, ◌%◌, ◌^◌, ◌<◌, ◌≡◌, Bool, true, false, not, ◌&&◌, Option, none, some, List, [], ◌∷◌,
  ◌==◌, leb, update, if◌then◌else◌,
}
mod Nodes
mod Visits
mod Printed
mod Tests

abbrev pub warmup_calls : ℕ
warmup_calls = 64

abbrev pub cooldown_calls : ℕ
cooldown_calls = 64

pub data Func : Type 0 where
  trylock lock unlock : Func

pub record ThreadStats : Type 0 where
  pub time_start : ℕ
  pub time_history : ℕ → ℕ
  pub time_trylock : ℕ
  pub time_lock : ℕ
  pub time_unlock : ℕ
  pub num_calls_trylock : ℕ
  pub num_calls_lock : ℕ
  pub num_calls_unlock : ℕ
  pub history_idx : ℕ

-- What `calloc` gives.
abbrev pub cleared : ThreadStats
cleared = record {
  time_start = 0;
  time_history = λ k. 0;
  time_trylock = 0;
  time_lock = 0;
  time_unlock = 0;
  num_calls_trylock = 0;
  num_calls_lock = 0;
  num_calls_unlock = 0;
  history_idx = 0;
}

-- The values of a line of the table.
pub record Line : Type 0 where
  pub calls_trylock : ℕ
  pub calls_lock : ℕ
  pub calls_unlock : ℕ
  pub time_total : ℕ
  pub time_trylock : ℕ
  pub time_lock : ℕ
  pub time_unlock : ℕ

-- What is printed for a thread: that the end is before the begin, or a line of the table.
pub data Report : Type 0 where
  no_times : Report
  values : Line → Report

-- What I_thread_stats_out prints, `none` where it prints nothing.
unfoldable pub thread_stats_out : ThreadStats → Option Report
thread_stats_out s =
    let time_end = s.time_history ((s.history_idx + 2 ^ 32 - 1) % 2 ^ 32 % cooldown_calls) in
    if s.num_calls_trylock == 0 && s.num_calls_lock == 0 && s.num_calls_unlock == 0
    then none
    else if leb time_end s.time_start
    then some no_times
    else some (
        values (record {
          calls_trylock = s.num_calls_trylock;
          calls_lock = s.num_calls_lock;
          calls_unlock = s.num_calls_unlock;
          time_total = time_end - s.time_start;
          time_trylock = s.time_trylock;
          time_lock = s.time_lock;
          time_unlock = s.time_unlock;
        }))

-- The uint64_t sum of the times.
abbrev lasted : ℕ → ℕ → ℕ → ℕ
lasted sum start stop = (sum + (stop + 2 ^ 64 - start)) % 2 ^ 64

abbrev counted : ℕ → ℕ
counted n = (n + 1) % 2 ^ 32

-- `timing_end` and `timing_end_unlock` behind the warm-up.
unfoldable pub record_call : Func → ℕ → ℕ → ThreadStats → ThreadStats
record_call trylock start stop s = record s {
  num_calls_trylock = counted s.num_calls_trylock;
  time_trylock = lasted s.time_trylock start stop;
}
record_call lock start stop s = record s {
  num_calls_lock = counted s.num_calls_lock;
  time_lock = lasted s.time_lock start stop;
}
record_call unlock start stop s = record s {
  num_calls_unlock = counted s.num_calls_unlock;
  time_unlock = lasted s.time_unlock start stop;
  time_history = update s.time_history (s.history_idx % cooldown_calls) stop;
  history_idx = counted s.history_idx;
}

-- NULL, I_THREAD_STATS_END, or the statistics of a thread.
pub data Pointer : Type 0 where
  null end_list : Pointer
  node : ℕ → Pointer

abbrev pub is_same : Pointer → Pointer → Bool
is_same null null = true
is_same end_list end_list = true
is_same (node i) (node j) = i == j
is_same p q = false

-- Where a thread is: outside timing_end, in the loop of I_thread_stats_add in front of the load and
-- of the exchange, or at the write through NULL.
pub data Pc : Type 0 where
  outside adding fault : Pc
  trying : Pointer → Pc

-- `has_stats`: I_thread_stats is not NULL, and then its own node. `start` is a local of the call.
pub record Thread : Type 0 where
  pub warmup_count : ℕ
  pub has_stats : Bool
  pub start : ℕ
  pub pc : Pc

-- What the loop of the destructor has to print next, if it has begun.
pub data Walker : Type 0 where
  waiting : Walker
  walking : Pointer → Walker

pub record System : Type 0 where
  pub head : Pointer
  pub next : ℕ → Pointer
  pub stats : ℕ → ThreadStats
  pub threads : ℕ → Thread
  pub walker : Walker
  -- The nodes that the destructor has gone through, each with its statistics at that time, and what
  -- was printed, each with the thread whose statistics it shows, the last one first.
  pub visited : List (ℕ × ThreadStats)
  pub output : List (ℕ × Report)

-- The timed call that a thread makes next.
pub record Env : Type 0 where
  pub func : Func
  pub start : ℕ
  pub stop : ℕ

abbrev pub goto : System → ℕ → Pc → System
goto s i p = record s { threads = update s.threads i (record (s.threads i) { pc = p }) }

-- The output with what is printed for thread i.
abbrev pub put_out : ℕ → Option Report → List (ℕ × Report) → List (ℕ × Report)
put_out i none out = out
put_out i (some r) out = (i, r) ∷ out

-- The end of a call in the warm-up.
abbrev pub warmed : Thread → Thread
warmed t = record t { warmup_count = t.warmup_count - 1; has_stats = true; pc = outside }

-- One step of thread i. Where the list is at its end, what I_thread_stats_add prints for the cleared
-- statistics is put out too, and the write to `time_start` goes through NULL.
unfoldable pub dispatch : Env → Pc → System → ℕ → System
unfolding thread_stats_out record_call
dispatch e outside s i =
    let t = s.threads i in
    if t.warmup_count == 0
    then record s { stats = update s.stats i (record_call e.func e.start e.stop (s.stats i)) }
    else if t.has_stats
    then record s {
      threads = update s.threads i (record t { warmup_count = t.warmup_count - 1 });
      stats = update s.stats i (record (s.stats i) { time_start = e.start });
    }
    else record s {
      threads = update s.threads i (record t { start = e.start; pc = adding });
      stats = update s.stats i cleared;
    }
dispatch e adding s i =
    if is_same s.head end_list
    then record (goto s i fault) { output = put_out i (thread_stats_out (s.stats i)) s.output }
    else record (goto s i (trying s.head)) { next = update s.next i s.head }
dispatch e (trying p) s i =
    let t = s.threads i in
    if is_same s.head p
    then record s {
      head = node i;
      threads = update s.threads i (warmed t);
      stats = update s.stats i (record (s.stats i) { time_start = t.start });
    }
    else goto s i adding
dispatch e fault s i = s

-- One step of I_destroy_timing: the exchange, then a node at a time.
unfoldable pub destroy : Walker → System → System
unfolding thread_stats_out
destroy waiting s = record s { head = end_list; walker = walking s.head }
destroy (walking (node i)) s = record s {
  walker = walking (s.next i);
  visited = (i, s.stats i) ∷ s.visited;
  output = put_out i (thread_stats_out (s.stats i)) s.output;
}
destroy (walking p) s = s

abbrev pub fresh : Thread
fresh = record { warmup_count = warmup_calls; has_stats = false; start = 0; pc = outside }

abbrev pub begin : System
begin = record {
  head = null;
  next = λ i. null;
  stats = λ i. cleared;
  threads = λ i. fresh;
  walker = waiting;
  visited = [];
  output = [];
}

-- The reachable states: any thread, or the destructor, makes the next step.
pub data Reach : System → Type 0 where
  start : Reach begin
  later : {s : System} (i : ℕ) (e : Env) → Reach s → Reach (dispatch e (s.threads i).pc s i)
  destroyed : {s : System} → Reach s → Reach (destroy s.walker s)
