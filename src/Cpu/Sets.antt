-- ===== src/Cpu/Sets.antt =====
-- Lemmas on the sets of cpuset.h: membership after a change, how many cpus there are, and the first.
use autolock.Base.{
  ℕ, zero, suc, ◌+◌, ◌≤◌, ◌<◌, ◌==◌, ltb, ◌≡◌, refl, sym, ap, ◌∙◌, arith, true, false, update,
  sum_over, sum_over-update, Bool-cases, dec_lt, inl, inr, if◌then◌else◌, ◌⊎◌, ==_iff,
}
use autolock.Base.Exec.{value}
use autolock.Cpu.{
  Cset, Topology, setsize, weight, any_below, cset_zero, cset_set, cset_clr, cset_isset, first_from,
  cset_first,
}

pub any-true : (n i : ℕ) (s : Cset) → i < n → s i ≡ true → any_below n s ≡ true
unfolding any_below
any-true zero i s lt h = absurd (omega arith)
any-true (suc n) i s lt h = ground (arith, any-true n i s)

pub any-false : (n i : ℕ) (s : Cset) → any_below n s ≡ false → i < n → s i ≡ false
unfolding any_below
any-false zero i s h lt = absurd (omega arith)
any-false (suc n) i s h lt = ground (arith, any-false n i s)

-- A set that is not empty has a cpu.
pub any-witness : (n : ℕ) (s : Cset) → any_below n s ≡ true → (i : ℕ) × (i < n) × (s i ≡ true)
unfolding any_below
any-witness zero s h = absurd (ground arith)
any-witness (suc n) s h = elim (Bool-cases (s n)) [
  | inl q ↦ (n, omega arith, q)
  | inr q ↦ let (i, lt, e) = any-witness n s (ground (arith, h, q)) in (i, omega arith, e)
]

pub sum_over-set :
    (n i : ℕ) (s : Cset)
    → i < n
    → s i ≡ false
    → sum_over weight n (update s i true) ≡ suc (sum_over weight n s)
sum_over-set n i s lt h = ground (arith, sum_over-update weight n s i true lt, h)

pub sum_over-full : (n : ℕ) (s : Cset) → ((i : ℕ) → i < n → s i ≡ true) → sum_over weight n s ≡ n
unfolding sum_over
sum_over-full zero s h = refl
sum_over-full (suc n) s h =
    ground (arith, h n (omega arith), sum_over-full n s (λ i lt. h i (omega arith)))

pub isset-within : (i : ℕ) (s : Cset) → i < setsize → cset_isset i s ≡ s i
isset-within i s lt = ground arith

-- The first cpu of a set that has one is found.
pub first_from-value :
    (i n j : ℕ) (s : Cset)
    → i + n ≤ setsize
    → i ≤ j
    → j < i + n
    → s j ≡ true
    → (c : ℕ) × (first_from i n s ≡ value c) × (c < i + n) × (s c ≡ true)
first_from-value i zero j s big le lt h = absurd (omega arith)
first_from-value i (suc n) j s big le lt h = elim (Bool-cases (s i)) [
  | inl q ↦ (i, rw (isset-within i s (omega (arith, big)), q) refl, omega arith, q)
  | inr q ↦
      let (c, e, lc, hc) =
        first_from-value (suc i) n j s (omega (arith, big)) (above q (dec_lt i j))
          (omega (arith, lt)) h in
      (c, rw (isset-within i s (omega (arith, big)), q) e, omega (arith, lc), hc)
]
  where
    above : s i ≡ false → Dec (i < j) → suc i ≤ j
    above q (yes l) = l
    above q (no g) = absurd (clash (sym h ∙ ap s (same g) ∙ q))
      where
        same : (i < j → ⊥) → j ≡ i
        same g = omega arith

        clash : true ≡ false → ⊥
        clash e = ground arith

pub cset_first-value :
    (top : Topology) (j : ℕ) (s : Cset)
    → top.num_cpus ≤ setsize
    → j < top.num_cpus
    → s j ≡ true
    → (c : ℕ) × (cset_first top s ≡ value c) × (c < top.num_cpus) × (s c ≡ true)
unfolding cset_first
cset_first-value top j s big lt h =
    let (c, e, lc, hc) =
      first_from-value 0 top.num_cpus j s (omega arith) (omega arith) (omega arith) h in
    (c, rw (any-true setsize j s (omega arith) h) e, omega arith, hc)

pub set-zero : (c d : ℕ) → c < setsize → cset_set c cset_zero d ≡ (if c == d then true else false)
set-zero c d lt = ground arith

pub clr-at : (c d : ℕ) (s : Cset) → c < setsize → cset_clr c s d ≡ (if c == d then false else s d)
clr-at c d s lt = ground arith

pub set-at : (c d : ℕ) (s : Cset) → c < setsize → cset_set c s d ≡ (if c == d then true else s d)
set-at c d s lt = ground arith

-- An added cpu is in the set, and so is what was there; nothing else is.
pub set-same : (c : ℕ) (s : Cset) → c < setsize → cset_set c s c ≡ true
set-same c s lt = ground (arith, set-at c c s lt)

pub set-keeps : (c d : ℕ) (s : Cset) → c < setsize → s d ≡ true → cset_set c s d ≡ true
set-keeps c d s lt h = ground (arith, set-at c d s lt)

pub set-cases : (c d : ℕ) (s : Cset) → c < setsize → cset_set c s d ≡ true → (c ≡ d) ⊎ (s d ≡ true)
set-cases c d s lt h = elim (Bool-cases (c == d)) [
  | inl q ↦ inl ((==_iff c d).0 q)
  | inr q ↦ inr (ground (arith, set-at c d s lt))
]

pub sum_over-cset_set :
    (n c : ℕ) (s : Cset)
    → c < n
    → n ≤ setsize
    → s c ≡ false
    → sum_over weight n (cset_set c s) ≡ suc (sum_over weight n s)
sum_over-cset_set n c s lt big h = rw (within c (omega arith)) (sum_over-set n c s lt h)
  where
    within : (c : ℕ) → c < setsize → ltb c setsize ≡ true
    within c lt = ground arith
