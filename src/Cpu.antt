-- ===== src/Cpu.antt =====
-- Sets of cpus, user-dev/src/thread/cpuset.h as it is compiled, over cpu_set_t of the C library, and
-- what user-dev/src/util/cpu-info.h knows of the machine.
use autolock.Base.{
  ℕ, zero, suc, ◌+◌, ◌*◌, ◌/◌, ◌%◌, ◌^◌, ◌==◌, ltb, Bool, true, false, not, ◌&&◌, ◌||◌, update,
  sum_over, List, [], ◌∷◌, if◌then◌else◌, get_or,
}
use autolock.Base.Exec.{Exec, value, died, running, die_assert, ◌>>=◌}
mod Machines
mod Parsing
mod Choice
mod Rotation
mod Printing
mod Sets
mod Pass
mod Physical
mod Fair
mod Tests

-- CPU_SETSIZE of the C library.
abbrev pub setsize : ℕ
setsize = 1024

-- Which cpus below `setsize` a set has.
abbrev pub Cset : Type 0
Cset = ℕ → Bool

-- A cpu_set_t with its words, of 64 bits each, as an initializer gives them.
abbrev pub of_words : List ℕ → Cset
of_words words i = (get_or words (i / 64) 0 / 2 ^ (i % 64)) % 2 == 1

-- The cpus of the machine, the physical core of each, and the cpus that share its core.
pub record Topology : Type 0 where
  pub num_cpus : ℕ
  pub phys_core : ℕ → ℕ
  pub smt_map : ℕ → Cset

abbrev pub weight : Bool → ℕ
weight true = 1
weight false = 0

abbrev pub cset_zero : Cset
cset_zero i = false

-- CPU_SET and CPU_CLR, which do nothing outside the set.
abbrev pub cset_set : ℕ → Cset → Cset
cset_set cpu s = if ltb cpu setsize then update s cpu true else s

abbrev pub cset_clr : ℕ → Cset → Cset
cset_clr cpu s = if ltb cpu setsize then update s cpu false else s

abbrev pub cset_isset : ℕ → Cset → Bool
cset_isset cpu s = ltb cpu setsize && s cpu

abbrev pub cset_count : Cset → ℕ
cset_count s = sum_over weight setsize s

unfoldable pub any_below : ℕ → Cset → Bool
any_below zero s = false
any_below (suc n) s = s n || any_below n s

-- CPU_EQUAL with the empty set.
abbrev pub cset_empty : Cset → Bool
cset_empty s = not (any_below setsize s)

abbrev pub cset_or_eq : Cset → Cset → Cset
cset_or_eq dst src i = dst i || src i

abbrev pub cset_test : Cset → Cset → Bool
cset_test a b = not (cset_empty (λ i. a i && b i))

-- The loop of cset_first, with `n` cpus to go from `i` on.
abbrev pub first_from : ℕ → ℕ → Cset → Exec ℕ
first_from i zero s = died
first_from i (suc n) s = if cset_isset i s then value i else first_from (suc i) n s

-- Whole bytes by a memset, the others by one bit each.
abbrev pub set_range : ℕ → ℕ → Cset → Cset
set_range i zero s = s
set_range i (suc n) s = set_range (suc i) n (cset_set i s)

module _ (top : Topology) where
  abbrev pub get_phys_cpu_id : ℕ → Exec ℕ
  get_phys_cpu_id cpu = die_assert (ltb cpu top.num_cpus) (value (top.phys_core cpu))

  abbrev pub get_logical_cpu_ids : ℕ → Exec Cset
  get_logical_cpu_ids cpu = die_assert (ltb cpu top.num_cpus) (value (top.smt_map cpu))

  -- The end of the loop without a cpu is -1, on which every caller ends the program.
  unfoldable pub cset_first : Cset → Exec ℕ
  cset_first s = die_assert (not (cset_empty s)) (first_from 0 top.num_cpus s)

  abbrev pub cset_copy_first : Cset → Exec Cset
  cset_copy_first s = cset_first s >>= λ cpu. value (cset_set cpu cset_zero)

  abbrev pub cset_clr_first : Cset → Exec Cset
  cset_clr_first s = cset_first s >>= λ cpu. value (cset_clr cpu s)

  abbrev pub cset_all : Cset
  cset_all =
      let whole = top.num_cpus / 8 in
      set_range (whole * 8) (top.num_cpus % 8) (λ i. ltb i (8 * whole))
