-- ===== src/Stats/Elements.antt =====
-- The conversion of an array of a numeric type in user-dev/src/lib/stats/stats.c, cvt_to_dbl and the
-- loop of I_gen_stats: where the bytes of the array can be read, every element is converted.
use autolock.Base.{
  ℕ, zero, suc, ◌+◌, ◌*◌, ◌<◌, ◌≤◌, ◌==◌, ◌≡◌, refl, arith, Bool, true, false, not, ◌&&◌, ◌||◌,
  some, List, [], ◌∷◌, length, get_elem?, if◌then◌else◌, inl, inr, ◌⊎◌,
}
use mathlib.Core.Path.{subst}
use autolock.Stats.{Exec, value, died, outside, running}
use autolock.Stats.Floats.{Floats}
use autolock.Stats.Convert.{Memory, read_bytes, cvt_to_dbl, cvt_all}

-- The sizes of the numeric types, and that a floating-point type is signed and has 4 or 8 bytes.
abbrev pub is_numeric : ℕ → Bool → Bool → Bool
is_numeric elem_sz is_unsigned is_fp_based =
    if is_fp_based
    then not is_unsigned && ((elem_sz == 4) || (elem_sz == 8))
    else (elem_sz == 1) || (elem_sz == 2) || (elem_sz == 4) || (elem_sz == 8)

unfoldable pub is_value : {A : Type 0} → Exec A → Bool
is_value (value a) = true
is_value x = false

pub is_value-value : {A : Type 0} (x : Exec A) → is_value x ≡ true → (a : A) × (x ≡ value a)
unfolding is_value
is_value-value (value a) h = (a, refl)
is_value-value died h = absurd (ground arith)
is_value-value outside h = absurd (ground arith)
is_value-value running h = absurd (ground arith)

-- The bytes that the caller gives.
abbrev pub IsReadable : Memory → ℕ → ℕ → Type 0
IsReadable mem addr n = (k : ℕ) → k < n → (b : ℕ) × (mem (addr + k) ≡ some b)

read_bytes-value :
    (mem : Memory) (addr n : ℕ)
    → IsReadable mem addr n
    → (v : ℕ) × (read_bytes mem addr n ≡ value v)
read_bytes-value mem addr zero readable = (0, refl)
read_bytes-value mem addr (suc n) readable =
    let (b, e) = subst (λ a. (b : ℕ) × (mem a ≡ some b)) here (readable 0 (omega arith)) in
    let (v, g) =
      read_bytes-value mem (suc addr) n (λ k lt.
        subst (λ a. (b : ℕ) × (mem a ≡ some b)) (next k) (readable (suc k) (omega arith))) in
    (b + 256 * v, rw (e, read_bytes, g) refl)
  where
    here : addr + 0 ≡ addr
    here = omega arith

    next : (k : ℕ) → addr + suc k ≡ suc addr + k
    next k = omega arith

numeric_sizes :
    (sz : ℕ) (u f : Bool) → is_numeric sz u f ≡ true → (sz ≡ 1) ⊎ (sz ≡ 2) ⊎ (sz ≡ 4) ⊎ (sz ≡ 8)
numeric_sizes sz u f h = ground arith

module _ {D : Type 0} (fl : Floats D) where
  -- The double at an index is the element that stands there in the array.
  abbrev pub IsElement : Memory → ℕ → ℕ → ℕ → Bool → Bool → List D → ℕ → Type 0
  IsElement mem addr n sz u f xs i =
      (n ≤ i)
      ⊎ ((x : D) × (get_elem? xs i ≡ some x) × (cvt_to_dbl fl mem (addr + i * sz) sz u f ≡ value x))

  abbrev pub IsConverted : Memory → ℕ → ℕ → ℕ → Bool → Bool → List D → Type 0
  IsConverted mem addr n sz u f xs = (length xs ≡ n) × ((i : ℕ) → IsElement mem addr n sz u f xs i)

  cvt-is_value :
      (mem : Memory) (addr sz v : ℕ) (u f : Bool)
      → is_numeric sz u f ≡ true
      → read_bytes mem addr sz ≡ value v
      → is_value (cvt_to_dbl fl mem addr sz u f) ≡ true
  unfolding is_value
  cvt-is_value mem addr sz v u f num e = elim (numeric_sizes sz u f num) [
    | inl q ↦ rw (q, at 1 q) (ground (arith, kind 1 q))
    | inr (inl q) ↦ rw (q, at 2 q) (ground (arith, kind 2 q))
    | inr (inr (inl q)) ↦ rw (q, at 4 q) (ground (arith, kind 4 q))
    | inr (inr (inr q)) ↦ rw (q, at 8 q) (ground (arith, kind 8 q))
  ]
    where
      at : (n : ℕ) → sz ≡ n → read_bytes mem addr n ≡ value v
      at n q = subst (λ n. read_bytes mem addr n ≡ value v) q e

      kind : (n : ℕ) → sz ≡ n → is_numeric n u f ≡ true
      kind n q = subst (λ n. is_numeric n u f ≡ true) q num

  cvt-value :
      (mem : Memory) (addr sz : ℕ) (u f : Bool)
      → is_numeric sz u f ≡ true
      → IsReadable mem addr sz
      → (x : D) × (cvt_to_dbl fl mem addr sz u f ≡ value x)
  cvt-value mem addr sz u f h readable =
      let (v, e) = read_bytes-value mem addr sz readable in
      is_value-value _ (cvt-is_value mem addr sz v u f h e)

  pub cvt_all-value :
      (mem : Memory) (addr n sz : ℕ) (u f : Bool)
      → is_numeric sz u f ≡ true
      → IsReadable mem addr (n * sz)
      → (xs : List D) × (cvt_all fl mem addr n sz u f ≡ value xs) × IsConverted mem addr n sz u f xs
  cvt_all-value mem addr zero sz u f h readable = ([], refl, (refl, λ i. inl (omega arith)))
  cvt_all-value mem addr (suc n) sz u f h readable =
      let (x, e) = cvt-value mem addr sz u f h (λ k lt. readable k (in_first k lt)) in
      let (xs, es, (l, elements)) = cvt_all-value mem (addr + sz) n sz u f h (λ k lt.
        subst (λ a. (b : ℕ) × (mem a ≡ some b)) (shifted k) (readable (sz + k) (in_rest k lt))) in
      (x ∷ xs, both x xs e es, (omega (arith, l), each x xs e elements))
    where
      in_first : (k : ℕ) → k < sz → k < suc n * sz
      in_first k lt = omega arith

      in_rest : (k : ℕ) → k < n * sz → sz + k < suc n * sz
      in_rest k lt = omega arith

      shifted : (k : ℕ) → addr + (sz + k) ≡ addr + sz + k
      shifted k = omega arith

      both :
          (x : D) (xs : List D)
          → cvt_to_dbl fl mem addr sz u f ≡ value x
          → cvt_all fl mem (addr + sz) n sz u f ≡ value xs
          → cvt_all fl mem addr (suc n) sz u f ≡ value (x ∷ xs)
      both x xs e es = rw (e, cvt_all, es) refl

      place : (i : ℕ) → addr + sz + i * sz ≡ addr + suc i * sz
      place i = omega arith

      start : addr ≡ addr + 0 * sz
      start = omega arith

      each :
          (x : D) (xs : List D)
          → cvt_to_dbl fl mem addr sz u f ≡ value x
          → ((i : ℕ) → IsElement mem (addr + sz) n sz u f xs i)
          → (i : ℕ) → IsElement mem addr (suc n) sz u f (x ∷ xs) i
      each x xs e elements zero =
          inr (x, refl, subst (λ a. cvt_to_dbl fl mem a sz u f ≡ value x) start e)
      each x xs e elements (suc i) = elim (elements i) [
        | inl le ↦ inl (omega arith)
        | inr (y, g, h) ↦ inr (y, g, subst (λ a. cvt_to_dbl fl mem a sz u f ≡ value y) (place i) h)
      ]
