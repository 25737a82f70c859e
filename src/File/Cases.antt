-- ===== src/File/Cases.antt =====
-- To prove something of a call of file-util.c and what follows it, by what the system answered.
use autolock.Base.{
  ℕ, ℤ, pos, negsuc, zero, suc, ◌==◌, ◌≡◌, ◌≢◌, refl, ap, ◌∙◌, arith, Bool-cases, inl, inr,
  is_negative, ==_iff,
}
use mathlib.Core.Path.{subst}
use autolock.File.Ending.{Ending, died, Os, eagain, err_assert, ◌>>=◌}
use autolock.File.Calls.{checked}

module _ {W B : Type 0} (os : Os W) (P : Ending W B → Type 0) where
  pub assert-cases :
      (g : Unit → W → Ending W B) (w : W)
      → os.errno w ≡ eagain
      → P (g tt w)
      → P ((err_assert os (os.errno w == eagain) >>= g) w)
  assert-cases g w e h = rw ((==_iff (os.errno w) eagain).1 e) h

  pub checked-cases :
      (call : W → ℤ × W) (f : ℤ → W → Ending W B) (w : W)
      → ((call w).0 ≡ pos 0 → P (f (pos 0) (call w).1))
      → ((n : ℕ) → (call w).0 ≡ pos (suc n) → P (f (pos (suc n)) (call w).1))
      → ((n : ℕ)
          → (call w).0 ≡ negsuc n
          → os.errno (call w).1 ≡ eagain
          → P (f (negsuc n) (call w).1))
      → ((e : ℕ) (v : W) → e ≢ eagain → P (died e v))
      → P ((checked os is_negative call >>= f) w)
  checked-cases call f w ended moved blocked failed = go (call w) refl
    where
      go : (a : ℤ × W) → call w ≡ a → P ((checked os is_negative (λ _. a) >>= f) w)
      go (pos zero, v) q = subst (λ x. P (f (pos 0) x)) (ap (λ x. x.1) q) (ended (ap (λ x. x.0) q))
      go (pos (suc n), v) q =
          subst (λ x. P (f (pos (suc n)) x)) (ap (λ x. x.1) q) (moved n (ap (λ x. x.0) q))
      go (negsuc n, v) q = elim (Bool-cases (os.errno v == eagain)) [
        | inl e ↦
            rw (e, checked)
              (subst (λ x. P (f (negsuc n) x)) (ap (λ x. x.1) q)
                (blocked n (ap (λ x. x.0) q)
                  (ap (λ x. os.errno x.1) q ∙ (==_iff (os.errno v) eagain).0 e)))
        | inr e ↦ rw (e, checked) (failed (os.errno v) v (λ h. absurd (ground (arith, e, h))))
      ]
