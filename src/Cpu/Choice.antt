-- ===== src/Cpu/Choice.antt =====
-- set_allowable_cset of user-dev/src/locks/lock-runner.c: the cpus that the threads of a benchmark
-- may run on.
use autolock.Base.{
  ℕ, zero, suc, ◌-◌, ◌==◌, leb, Bool, true, false, not, ◌||◌, ℤ, pos, negsuc, Option, none, some,
  if◌then◌else◌,
}
use autolock.Base.Exec.{Exec, value, running, die_assert, ◌>>=◌}
use autolock.Arg.{Text}
use autolock.Cpu.{
  Cset, Topology, cset_zero, cset_set, cset_clr, cset_isset, cset_count, cset_test, cset_or_eq,
  cset_all, get_phys_cpu_id, get_logical_cpu_ids,
}
use autolock.Cpu.Parsing.{cpu_list_to_cpuset}

abbrev pub is_positive : ℤ → Bool
is_positive (pos (suc n)) = true
is_positive z = false

abbrev pub is_some : Option Text → Bool
is_some none = false
is_some (some text) = true

abbrev pub should_pin_cpus : Option Text → ℤ → Bool → Bool
should_pin_cpus cpu_list num_cpus pin_cpus = is_some cpu_list || is_positive num_cpus || pin_cpus

module _ (top : Topology) where
  -- One pass over the `n` cpus from `i` on, with `num_cpus` still to set: the set, and how many are
  -- still to set, 0 for `goto done`.
  abbrev pub phys_pass : Bool → ℕ → ℕ → ℕ → Cset → Exec (ℕ × Cset)
  phys_pass again i zero num_cpus s = value (num_cpus, s)
  phys_pass again i (suc n) num_cpus s =
      if cset_isset i s
      then phys_pass again (suc i) n num_cpus s
      else (get_phys_cpu_id top i >>= λ phys_id.
          if (i == phys_id) || again
          then (if num_cpus - 1 == 0
              then value (0, cset_set i s)
              else phys_pass again (suc i) n (num_cpus - 1) (cset_set i s))
          else phys_pass again (suc i) n num_cpus s)

  -- The loop around the passes, on fuel.
  abbrev pub phys_passes : ℕ → Bool → ℕ → Cset → Exec Cset
  phys_passes zero again num_cpus s = running
  phys_passes (suc k) again num_cpus s = phys_pass again 0 top.num_cpus num_cpus s >>= λ (rest, s').
      elim rest [ zero ↦ value s' | suc r ↦ phys_passes k true (suc r) s' ]

  -- Not grouping by hyper-threads. There are at most two passes.
  unfoldable pub choose_physical : ℕ → Exec Cset
  choose_physical num_cpus = phys_passes 2 false num_cpus cset_zero

  -- The loop over the siblings: how many are still to set, the set, the last siblings and their
  -- number.
  abbrev pub add_siblings : ℕ → ℕ → ℕ → Cset → Cset → ℕ → Exec (ℕ × Cset × Cset × ℕ)
  add_siblings i zero num_cpus s siblings num_set = value (num_cpus, s, siblings, num_set)
  add_siblings i (suc n) num_cpus s siblings num_set =
      if cset_isset i s
      then add_siblings (suc i) n num_cpus s siblings num_set
      else (get_logical_cpu_ids top i >>= λ group.
          if leb num_cpus (cset_count group)
          then value (num_cpus, s, group, cset_count group)
          else die_assert (not (cset_test group s)) (
              add_siblings (suc i) n (num_cpus - cset_count group) (cset_or_eq s group) group
                (cset_count group)))

  -- The loop that takes `num_set` cpus off the last siblings.
  abbrev pub unset_siblings : ℕ → ℕ → ℕ → Cset → Cset
  unset_siblings i zero num_set siblings = siblings
  unset_siblings i (suc n) num_set siblings =
      if num_set == 0
      then siblings
      else if cset_isset i siblings
      then unset_siblings (suc i) n (num_set - 1) (cset_clr i siblings)
      else unset_siblings (suc i) n num_set siblings

  -- How many to take off. A negative number takes off all, as no count of cpus brings it to 0.
  abbrev pub excess : ℕ → ℕ → ℕ
  excess num_set rest = if leb rest num_set then num_set - rest else top.num_cpus

  unfoldable pub choose_siblings : ℕ → Exec Cset
  choose_siblings num_cpus =
      add_siblings 0 top.num_cpus num_cpus cset_zero cset_zero num_cpus
      >>= λ (rest, s, siblings, num_set).
          die_assert (not (cset_test siblings s))
            (value (cset_or_eq s (unset_siblings 0 top.num_cpus (excess num_set rest) siblings)))

  -- Whether the threads are pinned, and to which cpus.
  unfoldable pub set_allowable_cset : Option Text → ℤ → Bool → Bool → Exec (Bool × Cset)
  set_allowable_cset cpu_list num_cpus pin_cpus prefer_hyper_threads =
      if not (should_pin_cpus cpu_list num_cpus pin_cpus)
      then value (false, cset_zero)
      else if is_some cpu_list
      then (cpu_list_to_cpuset top cpu_list >>= λ s. value (true, s))
      else elim num_cpus [
        | negsuc n ↦ value (true, cset_all top)
        | pos n ↦
            if (n == 0) || leb top.num_cpus n
            then value (true, cset_all top)
            else ((if prefer_hyper_threads then choose_siblings n else choose_physical n) >>= λ s.
                value (true, s))
      ]
