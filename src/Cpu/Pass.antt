-- ===== src/Cpu/Pass.antt =====
-- A pass over the cpus in set_allowable_cset of lock-runner.c, without grouping hyper-threads.
use autolock.Base.{
  ℕ, zero, suc, ◌+◌, ◌-◌, ◌≤◌, ◌<◌, ◌==◌, ltb, ◌≡◌, refl, arith, Bool, true, false, ◌||◌, sum_over,
  Bool-cases, dec_lt, inl, inr, ◌⊎◌,
}
use mathlib.Core.Path.{subst}
use autolock.Base.Exec.{Exec, value}
use autolock.Cpu.{Cset, Topology, setsize, weight, cset_set}
use autolock.Cpu.Choice.{phys_pass}
use autolock.Cpu.Sets.{set-same, set-keeps, set-cases, sum_over-cset_set}

module _ (top : Topology) (small : top.num_cpus ≤ setsize) (again : Bool) where
  -- Whether the pass may take a cpu.
  abbrev pub fits : ℕ → Bool
  fits j = (j == top.phys_core j) || again

  -- What a pass over the `n` cpus from `i` on does to the set `s`, with `num` to set: `rest` are
  -- still to set, in the set `t`.
  pub record Passed (i n num : ℕ) (s : Cset) (rest : ℕ) (t : Cset) : Type 0 where
    pub count : sum_over weight top.num_cpus t + rest ≡ sum_over weight top.num_cpus s + num
    pub full : 0 < rest → (j : ℕ) → i ≤ j → j < i + n → fits j ≡ true → t j ≡ true
    pub grows : (j : ℕ) → s j ≡ true → t j ≡ true
    pub source : (j : ℕ) → t j ≡ true → (s j ≡ true) ⊎ ((j < top.num_cpus) × (fits j ≡ true))

  unfoldable pub Pass : ℕ → ℕ → ℕ → Cset → Exec (ℕ × Cset) → Type 0
  Pass i n num s x = (rest : ℕ) × (t : Cset) × (x ≡ value (rest, t)) × Passed i n num s rest t

  clash : {b : Bool} → b ≡ true → b ≡ false → ⊥
  clash {b} p q = ground (arith, p, q)

  passed :
      (i n num : ℕ) (s : Cset) (rest : ℕ) (t : Cset)
      → s i ≡ true ⊎ fits i ≡ false
      → Passed (suc i) n num s rest t
      → Passed i (suc n) num s rest t
  passed i n num s rest t h p = record {
    count = p.count;
    full = λ some_rest j le lt f. all some_rest j le lt f (dec_lt i j) h;
    grows = p.grows;
    source = p.source;
  }
    where
      all :
          0 < rest
          → (j : ℕ) → i ≤ j
          → j < i + suc n
          → fits j ≡ true
          → Dec (i < j)
          → s i ≡ true ⊎ fits i ≡ false
          → t j ≡ true
      all r j le lt f (yes l) o = p.full r j (omega arith) (omega arith) f
      all r j le lt f (no g) (inl q) = p.grows j (subst (λ x. s x ≡ true) (omega arith) q)
      all r j le lt f (no g) (inr q) = absurd (clash (subst (λ x. fits x ≡ true) (omega arith) f) q)

  took :
      (i n num : ℕ) (s : Cset) (rest : ℕ) (t : Cset)
      → i < top.num_cpus
      → s i ≡ false
      → fits i ≡ true
      → 0 < num
      → Passed (suc i) n (num - 1) (cset_set i s) rest t
      → Passed i (suc n) num s rest t
  took i n num s rest t lt out fit pos p = record {
    count = omega (arith, p.count, sum_over-cset_set top.num_cpus i s lt small out);
    full = λ some_rest j le below f. all some_rest j le below f (dec_lt i j);
    grows = λ j h. p.grows j (set-keeps i j s (omega (arith, small)) h);
    source = λ j h. from j (p.source j h);
  }
    where
      all : 0 < rest → (j : ℕ) → i ≤ j → j < i + suc n → fits j ≡ true → Dec (i < j) → t j ≡ true
      all r j le below f (yes l) = p.full r j (omega arith) (omega arith) f
      all r j le below f (no g) =
          p.grows j
            (subst (λ x. cset_set i s x ≡ true) (omega arith) (set-same i s (omega (arith, small))))

      from :
          (j : ℕ)
          → (cset_set i s j ≡ true) ⊎ ((j < top.num_cpus) × (fits j ≡ true))
          → (s j ≡ true) ⊎ ((j < top.num_cpus) × (fits j ≡ true))
      from j (inr o) = inr o
      from j (inl h) = elim (set-cases i j s (omega (arith, small)) h) [
        | inl e ↦ inr (subst (λ x. (x < top.num_cpus) × (fits x ≡ true)) e (lt, fit))
        | inr o ↦ inl o
      ]

  pub phys_pass-Pass :
      (i n num : ℕ) (s : Cset)
      → i + n ≡ top.num_cpus
      → 0 < num
      → Pass i n num s (phys_pass top again i n num s)
  unfolding Pass
  phys_pass-Pass i zero num s e pos = (
    num,
    s,
    refl,
    record {
      count = refl;
      full = λ h j le lt. absurd (omega arith);
      grows = λ j h. h;
      source = λ j h. inl h;
    },
  )
  phys_pass-Pass i (suc n) num s e pos = elim (Bool-cases (s i)) [
    | inl q ↦
        let (rest, t, eq, p) = phys_pass-Pass (suc i) n num s (omega (arith, e)) pos in
        (rest, t, rw (inside, q) eq, passed i n num s rest t (inl q) p)
    | inr q ↦ elim (Bool-cases (fits i)) [
      | inr f ↦
          let (rest, t, eq, p) = phys_pass-Pass (suc i) n num s (omega (arith, e)) pos in
          (rest, t, rw (inside, q, known, f) eq, passed i n num s rest t (inr f) p)
      | inl f ↦ elim (Bool-cases (num - 1 == 0)) [
        | inl z ↦ (
          0,
          cset_set i s,
          rw (inside, q, known, f, z) refl,
          took i n num s 0 (cset_set i s) below q f pos (last z),
        )
        | inr z ↦
            let (rest, t, eq, p) =
              phys_pass-Pass (suc i) n (num - 1) (cset_set i s) (omega (arith, e)) (more z) in
            (
              rest,
              t,
              rw (inside, q, known, f, z) (rw inside at eq),
              took i n num s rest t below q f pos p,
            )
      ]
    ]
  ]
    where
      below : i < top.num_cpus
      below = omega (arith, e)

      inside : ltb i setsize ≡ true
      inside = ground (arith, below, small)

      known : ltb i top.num_cpus ≡ true
      known = ground (arith, below)

      more : (num - 1 == 0) ≡ false → 0 < num - 1
      more z = ground (arith, z)

      last : (num - 1 == 0) ≡ true → Passed (suc i) n (num - 1) (cset_set i s) 0 (cset_set i s)
      last z = record {
        count = ground (arith, z);
        full = λ h j le lt. absurd (omega arith);
        grows = λ j h. h;
        source = λ j h. inl h;
      }
