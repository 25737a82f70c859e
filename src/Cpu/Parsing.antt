-- ===== src/Cpu/Parsing.antt =====
-- cpu_list_to_cpuset of user-dev/src/locks/lock-runner.c: a list of numbers with one character of
-- any kind between them.
use autolock.Base.{
  ℕ, zero, suc, ◌%◌, ◌^◌, ◌==◌, ltb, not, ◌||◌, Option, none, some, [], ◌∷◌, if◌then◌else◌, length,
}
use autolock.Base.Exec.{Exec, value, died, running, die_assert, ◌>>=◌}
use autolock.Arg.{Text}
use autolock.Arg.Number.{skip_spaces, digit_value, strtoll}
use autolock.Cpu.{Cset, Topology, cset_zero, cset_set, cset_empty}

abbrev skip_digits : Text → Text
skip_digits [] = []
skip_digits (c ∷ cs) = if ltb (digit_value c) 10 then skip_digits cs else c ∷ cs

abbrev skip_sign : Text → Text
skip_sign [] = []
skip_sign (c ∷ cs) = if c == b'-' || c == b'+' then cs else c ∷ cs

-- strtol in base 10, and the text behind the number.
unfoldable pub strtol : Text → Option (ℕ × Text)
strtol text = elim (strtoll 10 text) [
  | none ↦ none
  | some v ↦ some (v, skip_digits (skip_sign (skip_spaces text)))
]

module _ (top : Topology) where
  -- The loop, on fuel; each turn but the last takes a character off the text.
  abbrev pub add_cpus : ℕ → Text → Cset → Exec Cset
  add_cpus zero text s = running
  add_cpus (suc k) text s = elim (strtol text) [
    | none ↦ value s
    | some (v, rest) ↦
        let s' = if ltb (v % 2 ^ 32) top.num_cpus then cset_set (v % 2 ^ 32) s else s in
        elim rest [ [] ↦ value s' | c ∷ text' ↦ add_cpus k text' s' ]
  ]

  unfoldable pub cpu_list_to_cpuset : Option Text → Exec Cset
  cpu_list_to_cpuset none = died
  cpu_list_to_cpuset (some text) =
      add_cpus (suc (length text)) text cset_zero >>= λ s. die_assert (not (cset_empty s)) (value s)
