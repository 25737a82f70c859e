-- ===== src/Stats/Convert.antt =====
-- cvt_to_dbl of user-dev/src/lib/stats/stats.c: an element of an array of any numeric type as a
-- double.
use autolock.Base.{
  ℕ, zero, suc, ◌+◌, ◌-◌, ◌*◌, ◌^◌, ◌==◌, ltb, Bool, not, ℤ, pos, negsuc, if◌then◌else◌, List, [],
  ◌∷◌, Option,
}
use autolock.Stats.{Exec, value, died, element, die_assert, ◌>>=◌}
use autolock.Stats.Floats.{Floats}

-- The memory: the byte at an address, or that the address is outside what the caller gave.
abbrev pub Memory : Type 0
Memory = ℕ → Option ℕ

-- The `n` bytes from an address on, the least significant one first.
abbrev pub read_bytes : Memory → ℕ → ℕ → Exec ℕ
read_bytes mem addr zero = value 0
read_bytes mem addr (suc n) =
    element (mem addr) >>= λ b. read_bytes mem (suc addr) n >>= λ v. value (b + 256 * v)

-- The signed number of `bits` bits that is stored as `v`.
abbrev pub signed : ℕ → ℕ → ℤ
signed bits v = if ltb v (2 ^ (bits - 1)) then pos v else negsuc (2 ^ bits - 1 - v)

module _ {D : Type 0} (fl : Floats D) where
  abbrev pub cvt_to_dbl : Memory → ℕ → ℕ → Bool → Bool → Exec D
  cvt_to_dbl mem addr elem_sz is_unsigned is_fp_based =
      if elem_sz == 1
      then die_assert (not is_fp_based) (
          read_bytes mem addr 1 >>= λ v.
          value (if is_unsigned then fl.of_nat v else fl.of_int (signed 8 v)))
      else if elem_sz == 2
      then die_assert (not is_fp_based) (
          read_bytes mem addr 2 >>= λ v.
          value (if is_unsigned then fl.of_nat v else fl.of_int (signed 16 v)))
      else if elem_sz == 4
      then (if is_unsigned
          then die_assert (not is_fp_based) (read_bytes mem addr 4 >>= λ v. value (fl.of_nat v))
          else read_bytes mem addr 4 >>= λ v.
              value (if is_fp_based then fl.of_float_bits v else fl.of_int (signed 32 v)))
      else if elem_sz == 8
      then (if is_unsigned
          then die_assert (not is_fp_based) (read_bytes mem addr 8 >>= λ v. value (fl.of_nat v))
          else read_bytes mem addr 8 >>= λ v.
              value (if is_fp_based then fl.of_double_bits v else fl.of_int (signed 64 v)))
      else died

  -- The loop of I_gen_stats over `nelem` elements.
  abbrev pub cvt_all : Memory → ℕ → ℕ → ℕ → Bool → Bool → Exec (List D)
  cvt_all mem addr zero elem_sz is_unsigned is_fp_based = value []
  cvt_all mem addr (suc n) elem_sz is_unsigned is_fp_based =
      cvt_to_dbl mem addr elem_sz is_unsigned is_fp_based >>= λ x.
      cvt_all mem (addr + elem_sz) n elem_sz is_unsigned is_fp_based >>= λ xs. value (x ∷ xs)
