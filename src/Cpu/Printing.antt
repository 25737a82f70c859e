-- ===== src/Cpu/Printing.antt =====
-- cset_to_str of user-dev/src/thread/cpuset.c.
use autolock.Base.{
  ℕ, zero, suc, leb, ltb, ◌==◌, not, true, false, [], ◌∷◌, ◌++◌, length, if◌then◌else◌,
}
use autolock.Base.Exec.{Exec, value, running, die_assert, ◌>>=◌}
use autolock.Arg.{Text}
use autolock.Cpu.{Cset, Topology, setsize, cset_empty, cset_first, cset_clr}

-- `pad` is the format %4d. The text is what snprintf would write with room for all of it; its length
-- is `nwritten`.
module _ (top : Topology) (pad : ℕ → Text) (buflen : ℕ) where
  -- The loop, on fuel; each turn takes a cpu out of the set.
  abbrev pub add_numbers : ℕ → Cset → Text → Exec Text
  add_numbers zero s text = running
  add_numbers (suc k) s text = elim (cset_empty s) [
    | true ↦ value text
    | false ↦ cset_first top s >>= λ cpu. die_assert (ltb (length text) buflen) (
        add_numbers k (cset_clr cpu s)
          (text ++ (if leb (length text) 1 then [] else (b',' ∷ [])) ++ pad cpu))
  ]

  -- There are at most `setsize` turns.
  unfoldable pub cset_to_str : Cset → Exec Text
  cset_to_str s = die_assert (not (buflen == 0)) (
      add_numbers (suc setsize) s (b'[' ∷ []) >>= λ text.
      die_assert (ltb (length text) buflen)
        (die_assert (ltb (length (text ++ (b']' ∷ []))) buflen) (value (text ++ (b']' ∷ [])))))
