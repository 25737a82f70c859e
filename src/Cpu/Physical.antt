-- ===== src/Cpu/Physical.antt =====
-- The choice of cpus that does not group hyper-threads, in set_allowable_cset of lock-runner.c.
use autolock.Base.{
  ℕ, zero, suc, ◌≤◌, ◌<◌, ◌==◌, ltb, ◌≡◌, refl, arith, Bool, true, false, not, ◌&&◌, sum_over,
  sum_over-eq-zero, Bool-cases, dec_lt, inl, inr, ◌⊎◌,
}
use autolock.Base.Exec.{value}
use autolock.Cpu.{Cset, Topology, setsize, weight, cset_zero}
use autolock.Cpu.Choice.{phys_pass, phys_passes, choose_physical}
use autolock.Cpu.Pass.{Passed, Pass, phys_pass-Pass}
use autolock.Cpu.Sets.{sum_over-full}

module _ (top : Topology) where
  -- A hyper-thread, which is not the first cpu of its core, is only chosen where every core is.
  abbrev pub PhysicalFirst : Cset → Type 0
  PhysicalFirst s =
      (i j : ℕ)
      → (s i && not (i == top.phys_core i))
          && (ltb j top.num_cpus && ((j == top.phys_core j) && not (s j)))
        ≡ false

  abbrev pub IsBelow : Cset → Type 0
  IsBelow s = (i : ℕ) → s i && not (ltb i top.num_cpus) ≡ false

  module _ (small : top.num_cpus ≤ setsize) where
    no_cpus : sum_over weight top.num_cpus cset_zero ≡ 0
    no_cpus = sum_over-eq-zero weight top.num_cpus cset_zero (λ i. refl)

    below : (i : ℕ) (b : Bool) → i < top.num_cpus → b && not (ltb i top.num_cpus) ≡ false
    below i b lt = ground (arith, lt)

    -- The first pass is enough: there are as many physical cores.
    one_pass :
        (num : ℕ) (t : Cset)
        → Passed top small false 0 top.num_cpus num cset_zero 0 t
        → (sum_over weight top.num_cpus t ≡ num) × IsBelow t × PhysicalFirst t
    one_pass num t p = (
      omega (arith, p.count, no_cpus),
      λ i. inside i (Bool-cases (t i)),
      λ i j. first i j (Bool-cases (t i)),
    )
      where
        inside : (i : ℕ) → (t i ≡ true) ⊎ (t i ≡ false) → t i && not (ltb i top.num_cpus) ≡ false
        inside i (inr q) = rw q refl
        inside i (inl q) = elim (p.source i q) [
          | inl z ↦ absurd (ground (arith, z))
          | inr (lt, f) ↦ below i (t i) lt
        ]

        first :
            (i j : ℕ)
            → (t i ≡ true) ⊎ (t i ≡ false)
            → (t i && not (i == top.phys_core i))
                && (ltb j top.num_cpus && ((j == top.phys_core j) && not (t j)))
              ≡ false
        first i j (inr q) = rw q refl
        first i j (inl q) = elim (p.source i q) [
          | inl z ↦ absurd (ground (arith, z))
          | inr (lt, f) ↦ ground (arith, q, f)
        ]

    -- The second pass always completes the set, and all physical cores are in it.
    two_passes :
        (num r rest : ℕ) (t u : Cset)
        → num < top.num_cpus
        → Passed top small false 0 top.num_cpus num cset_zero (suc r) t
        → Passed top small true 0 top.num_cpus (suc r) t rest u
        → (rest ≡ 0) × (sum_over weight top.num_cpus u ≡ num) × IsBelow u × PhysicalFirst u
    two_passes num r rest t u less p p' = done rest p'
      where
        physical : (j : ℕ) → j < top.num_cpus → (j == top.phys_core j) ≡ true → u j ≡ true
        physical j lt f =
            p'.grows j (p.full (omega arith) j (omega arith) (omega arith) (ground (arith, f)))

        inside_one : (i : ℕ) → t i ≡ true → i < top.num_cpus
        inside_one i h = elim (p.source i h) [
          | inl z ↦ absurd (ground (arith, z))
          | inr (lt, f) ↦ lt
        ]

        inside : (i : ℕ) → (u i ≡ true) ⊎ (u i ≡ false) → u i && not (ltb i top.num_cpus) ≡ false
        inside i (inr q) = rw q refl
        inside i (inl q) = elim (p'.source i q) [
          | inl h ↦ below i (u i) (inside_one i h)
          | inr (lt, f) ↦ below i (u i) lt
        ]

        first :
            (i j : ℕ)
            → (u i && not (i == top.phys_core i))
                && (ltb j top.num_cpus && ((j == top.phys_core j) && not (u j)))
              ≡ false
        first i j = elim (dec_lt j top.num_cpus) [
          | yes lt ↦ elim (Bool-cases (j == top.phys_core j)) [
            | inl f ↦ ground (arith, physical j lt f)
            | inr f ↦ ground (arith, f)
          ]
          | no ge ↦ ground (arith, ge)
        ]

        done :
            (rest : ℕ)
            → Passed top small true 0 top.num_cpus (suc r) t rest u
            → (rest ≡ 0) × (sum_over weight top.num_cpus u ≡ num) × IsBelow u × PhysicalFirst u
        done zero p' = (
          refl,
          omega (arith, p.count, p'.count, no_cpus),
          (λ i. inside i (Bool-cases (u i))),
          first,
        )
        done (suc k) p' = absurd (
            omega (
              arith,
              p.count,
              p'.count,
              no_cpus,
              less,
              sum_over-full top.num_cpus u
                  (λ j lt. p'.full (omega arith) j (omega arith) (omega arith) (ground arith)),
            ))

    -- For a number of cpus that is not 0 and less than the machine has, the choice without grouping
    -- hyper-threads ends; it chooses exactly that many cpus, all of the machine, and a hyper-thread
    -- that is not the first of its core only if the first cpus of all cores are chosen.
    pub choose_physical-first :
        (num : ℕ)
        → 0 < num
        → num < top.num_cpus
        → (s : Cset) × (choose_physical top num ≡ value s)
          × (sum_over weight top.num_cpus s ≡ num)
          × IsBelow s
          × PhysicalFirst s
    unfolding choose_physical Pass
    choose_physical-first num pos less =
        let (rest, t, e, p) =
          phys_pass-Pass top small false 0 top.num_cpus num cset_zero (omega arith) pos in
        again rest t e p
      where
        again :
            (rest : ℕ) (t : Cset)
            → phys_pass top false 0 top.num_cpus num cset_zero ≡ value (rest, t)
            → Passed top small false 0 top.num_cpus num cset_zero rest t
            → (s : Cset) × (phys_passes top 2 false num cset_zero ≡ value s)
              × (sum_over weight top.num_cpus s ≡ num)
              × IsBelow s
              × PhysicalFirst s
        again zero t e p = let (c, b, f) = one_pass num t p in (t, rw e refl, c, b, f)
        again (suc r) t e p =
            let (rest, u, e', p') =
              phys_pass-Pass top small true 0 top.num_cpus (suc r) t (omega arith) (omega arith) in
            let (z, c, b, f) = two_passes num r rest t u less p p' in
            (u, rw (e, e', z) refl, c, b, f)
