-- ===== src/Cpu/Rotation.antt =====
-- How I_run of user-dev/src/locks/lock-runner.c gives each thread its cpu, if threads are pinned.
use autolock.Base.{ℕ, zero, suc, not, List, [], ◌∷◌, if◌then◌else◌}
use autolock.Base.Exec.{Exec, value, die_assert, ◌>>=◌}
use autolock.Cpu.{Cset, Topology, cset_zero, cset_empty, cset_copy_first, cset_clr_first}

module _ (top : Topology) where
  -- The set of a thread, and what is left of a set that has cpus.
  abbrev pub take_first : Cset → Exec (Cset × Cset)
  take_first cur = cset_copy_first top cur >>= λ cset.
      die_assert (not (cset_empty cset)) (cset_clr_first top cur >>= λ rest. value (cset, rest))

  -- One thread: its set, and what is left of `cur_cset`.
  abbrev pub next_cset : Cset → Cset → Exec (Cset × Cset)
  next_cset allowable cur = take_first (if cset_empty cur then allowable else cur)

  -- `n` threads, over all trials; the set of each, the last one first.
  unfoldable pub pin_threads : ℕ → Cset → Exec (List Cset × Cset)
  pin_threads zero allowable = value ([], cset_zero)
  pin_threads (suc n) allowable = pin_threads n allowable >>= λ (csets, cur).
      next_cset allowable cur >>= λ (cset, cur'). value (cset ∷ csets, cur')
