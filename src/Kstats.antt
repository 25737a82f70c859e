-- ===== src/Kstats.antt =====
-- The statistics that the kernel collects on autolock,
-- user-dev/src/autolock-impls/stats/autolock-stats.c: sizes, the entries of a buffer, their order.
mod Entries
mod Tests
use autolock.Base.{
  ℕ, zero, suc, ◌+◌, ◌-◌, ◌*◌, ◌/◌, ◌%◌, ◌^◌, ◌==◌, ltb, leb, Bool, true, false, not, Option, none,
  some, List, [], ◌∷◌, ℤ, pos, negsuc, if◌then◌else◌, length,
}
use autolock.Base.Exec.{Exec, value, died, running, die_assert, ◌>>=◌}

-- sizeof(kernel_autolock_stats_entry_t) and sizeof(kernel_autolock_stats_task_entry_t).
abbrev pub entry_size : ℕ
entry_size = 24

abbrev pub task_entry_size : ℕ
task_entry_size = 4

-- The field of `n` bytes at an address, the least significant byte first.
abbrev load_bytes : (ℕ → ℕ) → ℕ → ℕ → ℕ
load_bytes mem addr zero = 0
load_bytes mem addr (suc n) = mem addr + 256 * load_bytes mem (suc addr) n

-- An entry is its address in the memory `mem`: the time in two words of 8 bytes, the cpu, and the
-- number of tasks.
module _ (mem : ℕ → ℕ) where
  abbrev pub get_nentries : ℕ → ℕ
  get_nentries entry = load_bytes mem (entry + 20) 4

  abbrev pub entry_get_size : ℕ → ℕ
  entry_get_size entry = entry_size + get_nentries entry * task_entry_size

  -- to_ns of the entry's time.
  abbrev pub get_ns : ℕ → ℕ
  get_ns entry =
      (1000 * 1000 * 1000 * load_bytes mem entry 8 + load_bytes mem (entry + 8) 8) % 2 ^ 64

  -- The loop, on fuel; each turn takes at least the 24 bytes of an entry.
  abbrev pub parse_from : ℕ → ℕ → ℕ → Exec (List ℕ)
  parse_from zero base_ptr expec_bytes = running
  parse_from (suc k) base_ptr expec_bytes = elim (expec_bytes == 0) [
    | true ↦ value []
    | false ↦
        let cur_sz = entry_get_size base_ptr in
        die_assert (leb cur_sz expec_bytes) (
          parse_from k (base_ptr + cur_sz) (expec_bytes - cur_sz) >>= λ entries.
          value (base_ptr ∷ entries))
  ]

  unfoldable pub parse_stats : ℕ → ℕ → Exec (List ℕ)
  parse_stats base_ptr expec_bytes = parse_from (suc expec_bytes) base_ptr expec_bytes

  -- What the comparison gives for two entries. (qsort hands it the places of two pointers to them.)
  abbrev pub stats_entry_cmp : ℕ → ℕ → ℤ
  stats_entry_cmp a b =
      if ltb (get_ns a) (get_ns b)
      then negsuc 0
      else if ltb (get_ns b) (get_ns a)
      then pos 1
      else pos 0

module _ (num_cpus : ℕ) where
  abbrev pub get_buf_size : ℕ
  get_buf_size = 2 ^ 19 * num_cpus % 2 ^ 32

  abbrev pub get_max_entries : ℕ
  get_max_entries = get_buf_size / (entry_size + task_entry_size)

  abbrev pub get_alloc_size : ℕ
  get_alloc_size = get_buf_size + get_max_entries * 8

-- `auto_lock_stats_t`.
pub record AutoLockStats : Type 0 where
  pub entries : List ℕ
  pub base_ptr : Option ℕ

abbrev pub free_stats : AutoLockStats → AutoLockStats
free_stats stats = record { entries = []; base_ptr = none }

-- autolock_start_stats, with the result of the system call.
abbrev pub start_stats : ℤ → Exec (Unit {0})
start_stats (pos zero) = value tt
start_stats z = died

-- autolock_get_stats: the buffer stands at `base_ptr`, `mem` is the memory after the system call, and
-- `nbytes` what that returned.
unfoldable pub get_stats : (ℕ → ℕ) → ℕ → ℤ → Exec AutoLockStats
get_stats mem base_ptr (negsuc e) = died
get_stats mem base_ptr (pos nbytes) = parse_stats mem base_ptr nbytes >>= λ entries.
    value (record { entries = entries; base_ptr = some base_ptr })
