-- ===== src/Cpu/Fair.antt =====
-- The threads of a benchmark share the cpus that are allowed evenly.
use autolock.Base.{
  ℕ, zero, suc, ◌+◌, ◌≤◌, ◌<◌, ◌==◌, ◌≡◌, refl, ap, ◌∙◌, arith, Bool, true, false, Bool-cases, inl,
  inr, ◌⊎◌, List, [], ◌∷◌, length, ==_iff,
}
use mathlib.Core.Path.{subst}
use autolock.Base.Exec.{Exec, value, ◌>>=◌}
use autolock.Cpu.{
  Cset, Topology, setsize, weight, any_below, cset_zero, cset_set, cset_clr, cset_empty, cset_first,
}
use autolock.Cpu.Rotation.{take_first, next_cset, pin_threads}
use autolock.Cpu.Sets.{any-true, any-false, any-witness, cset_first-value, set-zero, clr-at}

-- On how many of the threads' sets the cpu is.
unfoldable pub used : ℕ → List Cset → ℕ
used c [] = 0
used c (s ∷ ss) = weight (s c) + used c ss

-- Each set has one cpu, an allowed one.
unfoldable pub AreSingle : Cset → List Cset → Type 0
AreSingle allowable [] = Unit
AreSingle allowable (s ∷ ss) =
    ((c : ℕ) × (allowable c ≡ true) × (s ≡ cset_set c cset_zero)) × AreSingle allowable ss

module _ (top : Topology) (allowable : Cset) (small : top.num_cpus ≤ setsize)
    (below : (i : ℕ) → allowable i ≡ true → i < top.num_cpus) where
  -- What `cur_cset` has is allowed, and it lacks the cpus that are used once more than the others.
  record Inv (csets : List Cset) (cur : Cset) : Type 0 where
    single : AreSingle allowable csets
    allowed : (c : ℕ) → cur c ≡ true → allowable c ≡ true
    round : ℕ
    even : (c : ℕ) → allowable c ≡ true → used c csets + weight (cur c) ≡ round
    unused : (c : ℕ) → allowable c ≡ false → used c csets ≡ 0

  -- A thread takes the first cpu `c` of a set that is not empty.
  take :
      (csets : List Cset) (cur : Cset) (c : ℕ)
      → Inv csets cur
      → c < top.num_cpus
      → cur c ≡ true
      → Inv (cset_set c cset_zero ∷ csets) (cset_clr c cur)
  unfolding used AreSingle
  take csets cur c inv lt h = record {
    single = ((c, inv.allowed c h, refl), inv.single);
    allowed = λ d q. inv.allowed d (kept d q);
    round = inv.round;
    even = λ d q. taken d q (Bool-cases (c == d));
    unused = λ d q. rest d q (Bool-cases (c == d));
  }
    where
      kept : (d : ℕ) → cset_clr c cur d ≡ true → cur d ≡ true
      kept d q = ground (arith, clr-at c d cur (omega arith), q)

      same : (d : ℕ) → (c == d) ≡ true → cur d ≡ true
      same d e = subst (λ x. cur x ≡ true) ((==_iff c d).0 e) h

      taken :
          (d : ℕ)
          → allowable d ≡ true
          → ((c == d) ≡ true) ⊎ ((c == d) ≡ false)
          → weight (cset_set c cset_zero d) + used d csets + weight (cset_clr c cur d) ≡ inv.round
      taken d q (inl e) =
          rw (set-zero c d (omega arith), clr-at c d cur (omega arith), e)
            (ground (arith, inv.even d q, same d e))
      taken d q (inr e) =
          rw (set-zero c d (omega arith), clr-at c d cur (omega arith), e)
            (ground (arith, inv.even d q))

      rest :
          (d : ℕ)
          → allowable d ≡ false
          → ((c == d) ≡ true) ⊎ ((c == d) ≡ false)
          → weight (cset_set c cset_zero d) + used d csets ≡ 0
      rest d q (inl e) = absurd (ground (arith, inv.allowed d (same d e), q))
      rest d q (inr e) = rw (set-zero c d (omega arith), e) (ground (arith, inv.unused d q))

  single : (c : ℕ) → c < top.num_cpus → cset_empty (cset_set c cset_zero) ≡ false
  single c lt =
      rw
        (any-true setsize c (cset_set c cset_zero) (omega arith)
          (ground (arith, set-zero c c (omega arith))))
        refl

  take_first-Inv :
      (csets : List Cset) (cur : Cset)
      → Inv csets cur
      → (j : ℕ) → cur j ≡ true
      → (cset : Cset) × (rest : Cset) × (take_first top cur ≡ value (cset, rest))
        × Inv (cset ∷ csets) rest
  take_first-Inv csets cur inv j h =
      let (c, e, lc, hc) = cset_first-value top j cur small (below j (inv.allowed j h)) h in
      (cset_set c cset_zero, cset_clr c cur, took c e lc, take csets cur c inv lc hc)
    where
      took :
          (c : ℕ)
          → cset_first top cur ≡ value c
          → c < top.num_cpus
          → take_first top cur ≡ value (cset_set c cset_zero, cset_clr c cur)
      took c e lc = rw (e, single c lc) refl

  -- `cur_cset` is filled again where it is empty.
  refill :
      (csets : List Cset) (cur : Cset)
      → Inv csets cur
      → any_below setsize cur ≡ false
      → Inv csets allowable
  refill csets cur inv none_left = record {
    single = inv.single;
    allowed = λ c q. q;
    round = suc inv.round;
    even = λ c q.
        ground
          (arith, inv.even c q, q, any-false setsize c cur none_left (omega (arith, below c q)));
    unused = inv.unused;
  }

  module _ (j : ℕ) (some_cpu : allowable j ≡ true) where
    next-Inv :
        (csets : List Cset) (cur : Cset)
        → Inv csets cur
        → (cset : Cset) × (rest : Cset) × (next_cset top allowable cur ≡ value (cset, rest))
          × Inv (cset ∷ csets) rest
    next-Inv csets cur inv = elim (Bool-cases (any_below setsize cur)) [
      | inl q ↦
          let (i, lt, h) = any-witness setsize cur q in rw q (take_first-Inv csets cur inv i h)
      | inr q ↦ rw q (take_first-Inv csets allowable (refill csets cur inv q) j some_cpu)
    ]

    pin_threads-Inv :
        (n : ℕ)
        → (csets : List Cset) × (cur : Cset) × (pin_threads top n allowable ≡ value (csets, cur))
          × (length csets ≡ n)
          × Inv csets cur
    unfolding pin_threads used AreSingle
    pin_threads-Inv zero = (
      [],
      cset_zero,
      refl,
      refl,
      record {
        single = tt;
        allowed = λ c q. absurd (ground arith);
        round = 0;
        even = λ c q. refl;
        unused = λ c q. refl;
      },
    )
    pin_threads-Inv (suc n) =
        let (csets, cur, e, l, inv) = pin_threads-Inv n in
        let (cset, rest, g, inv') = next-Inv csets cur inv in
        (cset ∷ csets, rest, ap (λ m. m >>= after) e ∙ ap (λ m. m >>= put csets) g, ap suc l, inv')
      where
        put : List Cset → Cset × Cset → Exec (List Cset × Cset)
        put csets (cset, rest) = value (cset ∷ csets, rest)

        after : List Cset × Cset → Exec (List Cset × Cset)
        after (csets, cur) = next_cset top allowable cur >>= put csets

    -- For any number of threads, over all trials, I_run finds a cpu for each without ending the
    -- program, if some cpu is allowed and the allowed ones are cpus of the machine. Each thread is
    -- pinned to one allowed cpu, and of two allowed cpus neither has two threads more than the other.
    pub pin_threads-fair :
        (n c d : ℕ)
        → allowable c ≡ true
        → allowable d ≡ true
        → (csets : List Cset) × (cur : Cset) × (pin_threads top n allowable ≡ value (csets, cur))
          × (length csets ≡ n)
          × AreSingle allowable csets
          × (used c csets ≤ used d csets + 1)
    pin_threads-fair n c d hc hd =
        let (csets, cur, e, l, inv) = pin_threads-Inv n in
        (csets, cur, e, l, inv.single, near _ _ _ (cur c) (cur d) (inv.even c hc) (inv.even d hd))
      where
        near : (x y r : ℕ) (b b' : Bool) → x + weight b ≡ r → y + weight b' ≡ r → x ≤ y + 1
        near x y r b b' p q = ground (arith, p, q)
