-- ===== src/Cpu/Tests.antt =====
-- Choices of cpus on the machines of 8-conf.h and 96-conf.h, and the theorems at them.
use autolock.Base.{
  ℕ, zero, suc, ◌+◌, ◌≤◌, ◌<◌, ◌==◌, ◌≡◌, refl, arith, Bool, true, false, ◌||◌, sum_over, pos,
  negsuc, Option, none, some, List, [], ◌∷◌, length, if◌then◌else◌,
}
use autolock.Base.Exec.{Exec, value, died}
use autolock.Cpu.{Cset, weight, any_below, cset_first}
use autolock.Cpu.Machines.{topology_8, topology_96}
use autolock.Cpu.Parsing.{strtol, cpu_list_to_cpuset}
use autolock.Arg.Number.{strtoll}
use autolock.Cpu.Choice.{choose_physical, choose_siblings, set_allowable_cset}
use autolock.Cpu.Rotation.{pin_threads}
use autolock.Cpu.Printing.{cset_to_str}
use autolock.Cpu.Physical.{PhysicalFirst, IsBelow, choose_physical-first}
use autolock.Cpu.Fair.{used, AreSingle, pin_threads-fair}

-- The cpus of a set, of the `n` from `i` on.
abbrev members : ℕ → ℕ → Cset → List ℕ
members i zero s = []
members i (suc n) s = let rest = members (suc i) n s in if s i then i ∷ rest else rest

abbrev show : ℕ → Exec Cset → Option (List ℕ)
show n (value s) = some (members 0 n s)
show n x = none

abbrev show_pinned : ℕ → Exec (Bool × Cset) → Option (Bool × List ℕ)
show_pinned n (value (b, s)) = some (b, members 0 n s)
show_pinned n x = none

-- The cores first, and then hyper-threads.
physical_values :
    (show 16 (choose_physical topology_8 3) ≡ some (0 ∷ 1 ∷ 2 ∷ []))
    × (show 16 (choose_physical topology_8 6) ≡ some (0 ∷ 1 ∷ 2 ∷ 3 ∷ 4 ∷ 5 ∷ []))
unfolding choose_physical
physical_values = (refl, refl)

-- A core with its two cpus, and one cpu of the next core.
siblings_values : show 16 (choose_siblings topology_8 3) ≡ some (0 ∷ 4 ∷ 5 ∷ [])
unfolding choose_siblings sum_over any_below
siblings_values = refl

-- The tables of 96-conf.h write a byte where cpu_set_t has a word, so that the sibling of cpu 0 is
-- not 48, but 384, which the machine has not.
siblings_96_values : (topology_96.smt_map 0 384 ≡ true) × (topology_96.smt_map 0 48 ≡ false)
siblings_96_values = (refl, refl)

allowable_values :
    (show_pinned 16 (set_allowable_cset topology_8 none (pos 0) false true) ≡ some (false, []))
    × (show_pinned 16 (set_allowable_cset topology_8 none (negsuc 0) true false)
        ≡ some (true, 0 ∷ 1 ∷ 2 ∷ 3 ∷ 4 ∷ 5 ∷ 6 ∷ 7 ∷ []))
    × (show_pinned 16 (
          set_allowable_cset topology_8
            (some (b'3' ∷ b',' ∷ b'1' ∷ b',' ∷ b'9' ∷ []))
            (pos 2)
            true
            false)
        ≡ some (true, 1 ∷ 3 ∷ []))
    × (show_pinned 16 (set_allowable_cset topology_8 (some (b'x' ∷ [])) (pos 2) true false) ≡ none)
unfolding set_allowable_cset cpu_list_to_cpuset strtol strtoll any_below choose_physical
    choose_siblings
allowable_values = (refl, refl, refl, refl)

-- A text of five bytes needs a sixth for its end; a number is one digit here.
to_str_values :
    (cset_to_str topology_8 (λ n. (b'0' + n) ∷ []) 6 (λ i. (i == 1) || (i == 5))
      ≡ value (b'[' ∷ b'1' ∷ b',' ∷ b'5' ∷ b']' ∷ []))
    × (cset_to_str topology_8 (λ n. (b'0' + n) ∷ []) 5 (λ i. (i == 1) || (i == 5)) ≡ died)
unfolding cset_to_str cset_first any_below
to_str_values = (refl, refl)

-- Cpus 1 and 5 are allowed.
abbrev two_cpus : Cset
two_cpus i = (i == 1) || (i == 5)

two_cpus-below : (i : ℕ) → two_cpus i ≡ true → i < 8
two_cpus-below i h = ground (arith, h)

choose_physical-first_example :
    (s : Cset) × (choose_physical topology_8 6 ≡ value s)
    × (sum_over weight 8 s ≡ 6)
    × IsBelow topology_8 s
    × PhysicalFirst topology_8 s
choose_physical-first_example =
    choose_physical-first topology_8 (omega arith) 6 (omega arith) (omega arith)

pin_threads-fair_example :
    (csets : List Cset) × (cur : Cset) × (pin_threads topology_8 3 two_cpus ≡ value (csets, cur))
    × (length csets ≡ 3)
    × AreSingle two_cpus csets
    × (used 1 csets ≤ used 5 csets + 1)
pin_threads-fair_example =
    pin_threads-fair topology_8 two_cpus (omega arith) two_cpus-below 5 refl 3 1 5 refl refl
