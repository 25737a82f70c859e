-- ===== src/File/Writing.antt =====
-- I_ensure_write of file-util.c: what it reports, and what is written.
use autolock.Base.{
  ℕ, ℤ, pos, negsuc, zero, suc, ◌+◌, ◌^◌, ◌==◌, ◌<◌, ◌≤◌, ◌≡◌, ◌≢◌, refl, sym, ap, ◌∙◌, arith,
  Bool-cases, append_nil, List, ◌++◌, ==_iff, ◌⊎◌, inl, inr,
}
use autolock.File.Ending.{Ending, returned, died, failed, running, Os, eagain, err_assert, ◌>>=◌}
use autolock.File.Cases.{checked-cases, assert-cases}
use autolock.File.Loops.{remaining, ensure_write}
use autolock.File.Reading.{load, remaining_lem}

-- What write(2) promises of a descriptor: some of the bytes that it is given, the first ones, are
-- put after those that are written already. `again` bounds how often it would still block.
pub record IsWriter (W : Type 0) (os : Os W) (fd : ℕ) : Type 0 where
  pub written : W → List ℕ
  pub byte : W → ℕ → ℕ
  pub again : W → ℕ
  pub write-moves :
      (buf count n : ℕ) (w : W)
      → (os.write fd buf count w).0 ≡ pos n
      → (n ≤ count) × (written (os.write fd buf count w).1 ≡ written w ++ load (byte w) buf n)
  pub write-blocks :
      (buf count n : ℕ) (w : W)
      → (os.write fd buf count w).0 ≡ negsuc n
      → os.errno (os.write fd buf count w).1 ≡ eagain
      → let w' = (os.write fd buf count w).1 in
        (again w' < again w) × (written w' ≡ written w) × (byte w' ≡ byte w)

module _ {W : Type 0} (os : Os W) (fd : ℕ) (r : IsWriter W os fd) where
  -- How a write of `count` bytes from `buf` ends that starts in the world `w`: the first `m` bytes
  -- are written, and it reports `count` if it wrote any, and 0 if it wrote none.
  unfoldable pub IsWritten : ℕ → ℕ → W → Ending W ℕ → Type 0
  IsWritten buf count w (returned n v) =
      (m : ℕ) × (m ≤ count)
      × (r.written v ≡ r.written w ++ load (r.byte w) buf m)
      × (((m ≡ 0) × (n ≡ 0)) ⊎ ((0 < m) × (n ≡ count)))
  IsWritten buf count w (died e v) = e ≢ eagain
  IsWritten buf count w (failed e v) = ⊥
  IsWritten buf count w (running v) = ⊥

  -- I_ensure_write, with fuel for one write and every time that the call may block, does not run
  -- out of it. Where it returns, the first bytes of the buffer are written, and it reports that
  -- none are if there are none, and that all `count` are otherwise, also where they are fewer; where
  -- it ends the program, errno is not EAGAIN.
  pub ensure_write-IsWritten :
      (buf count k : ℕ) (w : W)
      → count < 2 ^ 64
      → suc (r.again w) < k
      → IsWritten buf count w (ensure_write os fd buf count k 0 w)
  unfolding ensure_write IsWritten load
  ensure_write-IsWritten buf count zero w big fuel = absurd (omega arith)
  ensure_write-IsWritten buf count (suc k) w big fuel = elim (Bool-cases (0 == count)) [
    | inl e ↦
        rw (e, ensure_write) (0, omega arith, sym (append_nil (r.written w)), inl (refl, refl))
    | inr e ↦
        rw (e, ensure_write)
          (checked-cases os (IsWritten buf count w) (os.write fd (buf + 0) (remaining count 0)) _ w
            ended (moved k fuel) (blocked (λ v. ensure_write-IsWritten buf count k v big))
            (λ d v ne. ne))
  ]
    where
      after : ℤ × W
      after = os.write fd (buf + 0) (remaining count 0) w

      ended : after.0 ≡ pos 0 → IsWritten buf count w (returned 0 after.1)
      ended q = (
        0,
        omega arith,
        (r.write-moves _ _ _ w q).1 ∙ append_nil (r.written w) ∙ sym (append_nil (r.written w)),
        inl (refl, refl),
      )

      moved :
          (k : ℕ)
          → suc (r.again w) < suc k
          → (n : ℕ) → after.0 ≡ pos (suc n)
          → IsWritten buf count w (ensure_write os fd buf count k (0 + count) after.1)
      moved zero fl n q = absurd (omega arith)
      moved (suc k) fl n q =
          let (le, s) = r.write-moves _ _ _ w q in
          rw ((==_iff (0 + count) count).1 (omega arith), ensure_write)
            (
              suc n,
              omega (arith, le, remaining_lem count 0 (omega arith) big),
              s ∙ ap (λ a. r.written w ++ load (r.byte w) a (suc n)) (omega arith),
              inr (omega arith, omega arith),
            )

      blocked :
          ((v : W)
            → suc (r.again v) < k
            → IsWritten buf count v (ensure_write os fd buf count k 0 v))
          → (n : ℕ) → after.0 ≡ negsuc n
          → os.errno after.1 ≡ eagain
          → IsWritten buf count w (
              (err_assert os (os.errno after.1 == eagain) >>= λ _. ensure_write os fd buf count k 0)
                after.1)
      blocked ih n q eq =
          let (ag, s, b) = r.write-blocks _ _ _ w q eq in
          assert-cases os (IsWritten buf count w) _ after.1 eq
            (same s b _ (ih after.1 (omega (arith, ag))))
        where
          same :
              {v : W}
              → r.written v ≡ r.written w
              → r.byte v ≡ r.byte w
              → (o : Ending W ℕ) → IsWritten buf count v o
              → IsWritten buf count w o
          same s b (returned n v) (m, le, h, d) = (m, le, h ∙ (λ i. s i ++ load (b i) buf m), d)
          same s b (died e v) h = h
          same s b (failed e v) h = h
          same s b (running v) h = h
