-- ===== src/Cptltkt/Slots.antt =====
-- The words `grants` of the lock between the sockets: each holds the last number that was served
-- and belongs there, so that nobody takes an old number for its own when the numbers wrap around.
use autolock.Base.{
  ℕ, suc, ◌+◌, ◌-◌, ◌*◌, ◌%◌, ◌^◌, ◌≤◌, ◌<◌, ◌≡◌, ◌≢◌, refl, ap, ◌∙◌, ◌⊎◌, inl, inr, arith, update,
  ◌==◌, Bool-cases, ==_iff, dec_lt, false,
}
use native.Mathlib.Nat.{mod-lt, mod-eq_of_lt, add-mod_right}

-- The word for the `k`-th number, of `m` words.
abbrev pub slot : ℕ → ℕ → ℕ
slot m k = (k % 2 ^ 32) % m

-- The word at `c`: one that was not written yet, or the last number that belongs there.
abbrev pub Holds : ℕ → ℕ → ℕ → ℕ → Type 0
Holds m served c v =
    (v % m ≢ c)
    ⊎ ((j : ℕ) × (j ≤ served)
        × (v ≡ j % 2 ^ 32)
        × (slot m j ≡ c)
        × ((k : ℕ) → j < k → k ≤ served → slot m k ≢ c))

-- Among any `2 * m` numbers in a row there is one for each word that comes up.
pub next_slot :
    (m j : ℕ) → 0 < m → 2 * m ≤ 2 ^ 32 → (k : ℕ) × (j < k) × (k < j + 2 * m) × (slot m k ≡ slot m j)
next_slot m j pos small = elim (dec_lt (j % 2 ^ 32 + m) (2 ^ 32)) [
  | yes lt ↦ (j + m, omega (arith, pos), omega (arith, pos), near lt)
  | no ge ↦ (
    j + (2 ^ 32 - j % 2 ^ 32) + slot m j,
    omega arith,
    omega (arith, ge, mod-lt (j % 2 ^ 32) pos, pos),
    far,
  )
]
  where
    near : j % 2 ^ 32 + m < 2 ^ 32 → slot m (j + m) ≡ slot m j
    near lt =
        let e : (j + m) % 2 ^ 32 ≡ j % 2 ^ 32 + m = omega (arith, lt) in
        ap (λ x. x % m) e ∙ add-mod_right (j % 2 ^ 32) m

    far : slot m (j + (2 ^ 32 - j % 2 ^ 32) + slot m j) ≡ slot m j
    far =
        let lt = mod-lt (j % 2 ^ 32) pos in
        let e : (j + (2 ^ 32 - j % 2 ^ 32) + slot m j) % 2 ^ 32 ≡ slot m j =
          omega (arith, lt, small) in
        ap (λ x. x % m) e ∙ mod-eq_of_lt lt

-- A number that is issued, and not served, is not in its word.
pub not_yet :
    (m served k v : ℕ)
    → 0 < m
    → 3 * m ≤ 2 ^ 32
    → Holds m served (slot m k) v
    → served < k
    → k ≤ served + m
    → v ≢ k % 2 ^ 32
not_yet m served k v pos small (inl other) lt le e = other (ap (λ x. x % m) e)
not_yet m served k v pos small (inr (j, j_le, is, place, last)) lt le e =
    let (next, a, b, c) = next_slot m j pos (omega (arith, small)) in
    last next a (omega (arith, e, is, b, j_le, lt, le, small)) (c ∙ place)

-- The next number is served.
pub serve_one :
    (m served : ℕ) (grants : ℕ → ℕ)
    → ((c : ℕ) → Holds m served c (grants c))
    → (c : ℕ) → Holds m (suc served) c (update grants (slot m (suc served)) (suc served % 2 ^ 32) c)
serve_one m served grants h c = elim (Bool-cases (slot m (suc served) == c)) [
  | inl here ↦ rw here (
      inr (
        suc served,
        omega arith,
        refl,
        (==_iff (slot m (suc served)) c).0 here,
        λ k a b. absurd (omega (arith, a, b)),
      ))
  | inr there ↦ rw there (older (ne there) (h c))
]
  where
    ne : slot m (suc served) == c ≡ false → slot m (suc served) ≢ c
    ne q e = ground (arith, q, e)

    older :
        slot m (suc served) ≢ c → Holds m served c (grants c) → Holds m (suc served) c (grants c)
    older q (inl other) = inl other
    older q (inr (j, j_le, is, place, last)) = inr (
      j,
      omega (arith, j_le),
      is,
      place,
      λ k a b. elim (dec_lt served k) [
        | yes lt ↦ let e : suc served ≡ k = omega (arith, lt, b) in λ f. q (ap (slot m) e ∙ f)
        | no ge ↦ last k a (omega arith)
      ],
    )
