-- ===== src/Ticket/Tests.antt =====
-- Runs of simple-ticket-lock-base.h on two threads, and the theorems at concrete states.
use autolock.Base.{
  ℕ, ◌-◌, ◌^◌, ◌≤◌, ◌<◌, ◌≡◌, refl, ◌⊎◌, inr, Option, none, some, arith, true, false, not, dec_lt,
  ◌==◌, ltb, if◌then◌else◌, List, [], ◌∷◌, sum_over, Bool,
}
use autolock.Kernel.{
  KernelAutolock, check_mem, dont_sched, sched, i_success, autolock_init_kernel_state,
}
use autolock.Ticket.{
  TicketLock, Thread, Env, idle, set_for, fault, System, act, Start, Reach, start, later, step,
  init,
}
use autolock.Ticket.Invariant.{uses, uses_ticket, behind}
use autolock.Ticket.Safety.{ticket_mutual_exclusion, tickets_in_order, parked_until_turn, in_lock}
use autolock.Ticket.Progress.{GivesPage, alone, ticket_progress}

abbrev blank : KernelAutolock
blank = record { watch_mem = none; watch_for = 0; watch_neq = 0 }

abbrev env : Env
env = record {
  blocking = true;
  spurious = false;
  sys = record { fd = 3; map = 4096; page = blank };
}

abbrev fresh : Thread
fresh = record { pc = idle; kernel = none; ticket_num = 0; cur_num = 0; ret = 0 }

-- Both counters are about to wrap around.
abbrev free_lock : TicketLock
free_lock = record { addr = 640; cur_count = 2 ^ 32 - 1; next_count = 2 ^ 32 - 1 }

abbrev fresh_system : System
fresh_system = record { lock = free_lock; threads = λ _. fresh }

first : Start fresh_system
unfolding sched
first = record { equal = refl; word = omega arith; pc = λ i. refl; kernel = λ i. refl }

record Run (a : Bool) (n : ℕ) : Type 0 where
  last : System
  reach : Reach a n last

turn : {a : Bool} {n : ℕ} → Run a n → ℕ → Run a n
unfolding dec_lt
turn {a} {n} r i = elim (dec_lt i n) [
  | yes lt ↦ record { last = _; reach = later r.reach (act i env lt refl refl) }
  | no _ ↦ r
]

run : {a : Bool} {n : ℕ} → Run a n → List ℕ → Run a n
unfolding turn
run r [] = r
run r (i ∷ is) = run (turn r i) is

abbrev begin : Run true 2
begin = record { last = fresh_system; reach = start first }

-- Thread 0 has the last ticket before the wrap-around and the lock; thread 1 waits for ticket 0.
abbrev queued : Run true 2
queued = run begin (0 ∷ 0 ∷ 1 ∷ 1 ∷ 1 ∷ 1 ∷ 1 ∷ 1 ∷ 1 ∷ [])

abbrev read : ℕ → ℕ → Option ℕ
read v a = if a == 640 then some v else none

-- A lock whose `cur_count` is 0, with a thread that has ticket 1 and has armed its page before it
-- writes `watch_for`: when the holder leaves, the kernel passes over the thread whose turn it is.
abbrev small : Run true 2
small = record {
  last = record fresh_system { lock = record free_lock { cur_count = 0; next_count = 0 } };
  reach =
      start (record { equal = refl; word = omega arith; pc = λ i. refl; kernel = first.kernel });
}

abbrev stale : Run true 2
stale = run small (0 ∷ 0 ∷ 1 ∷ 1 ∷ 1 ∷ 1 ∷ 0 ∷ 0 ∷ [])

stale_watch :
    ((stale.last.threads 1).pc ≡ set_for)
    × ((stale.last.threads 1).ticket_num ≡ stale.last.lock.cur_count)
    × (dont_sched (read stale.last.lock.cur_count) (stale.last.threads 1).kernel ≡ true)
unfolding run step dont_sched check_mem autolock_init_kernel_state
stale_watch = (refl, refl, refl)

init_zeroes :
    init true env.sys none free_lock
    ≡ (record free_lock { cur_count = 0; next_count = 0 }, some blank, i_success)
unfolding init
init_zeroes = refl

ticket_mutual_exclusion_example :
    (◌≡◌ {A = ℕ} 0 0) × ((queued.last.threads 0).ticket_num ≡ queued.last.lock.cur_count)
unfolding run step
ticket_mutual_exclusion_example =
    ticket_mutual_exclusion (omega arith) queued.reach 0 0 (omega arith) (omega arith) refl refl

tickets_in_order_example :
    (sum_over uses 2 queued.last.threads
      ≡ behind queued.last.lock.cur_count queued.last.lock.next_count)
    × (sum_over (uses_ticket 0) 2 queued.last.threads ≡ (
        if ltb
          (behind queued.last.lock.cur_count 0)
          (behind queued.last.lock.cur_count queued.last.lock.next_count)
        then 1
        else 0))
tickets_in_order_example = tickets_in_order (omega arith) queued.reach 0 (omega arith)

parked_until_turn_example :
    dont_sched (read (2 ^ 32 - 1)) (queued.last.threads 1).kernel
    ≡ not ((queued.last.threads 1).ticket_num == queued.last.lock.cur_count)
unfolding run step autolock_init_kernel_state
parked_until_turn_example =
    parked_until_turn (omega arith) queued.reach (read (2 ^ 32 - 1)) refl 1
      (record { watch_mem = some 640; watch_for = 0; watch_neq = 0 }) (omega arith) (inr refl) refl
      refl

queued-uses : 0 < sum_over uses 2 queued.last.threads
unfolding run step autolock_init_kernel_state sum_over
queued-uses = omega arith

env-GivesPage : GivesPage env
env-GivesPage = record { fd = omega arith; map = omega arith }

ticket_progress_example :
    (i : ℕ) × (i < 2)
    × ((queued.last.threads i).ticket_num ≡ queued.last.lock.cur_count)
    × (((queued.last.threads i).pc ≡ fault)
        ⊎ ((k : ℕ) × (k ≤ 6)
            × (in_lock (alone true env k (queued.last.lock, queued.last.threads i)).1.pc ≡ true)))
ticket_progress_example = ticket_progress env (omega arith) queued.reach env-GivesPage queued-uses
