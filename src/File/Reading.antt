-- ===== src/File/Reading.antt =====
-- I_ensure_read of file-util.c reads all that it is asked for and that the file has.
use autolock.Base.{
  ℕ, ℤ, pos, negsuc, zero, suc, ◌+◌, ◌-◌, ◌^◌, ◌==◌, ◌<◌, ◌≤◌, ◌≡◌, ◌≢◌, refl, sym, ap, ◌∙◌, arith,
  Bool-cases, leb, dec_lt, if◌then◌else◌, List, [], ◌∷◌, inl, inr,
}
use mathlib.Core.Path.{subst}
use autolock.File.Ending.{Ending, returned, died, failed, running, Os, eagain, err_assert, ◌>>=◌}
use autolock.File.Cases.{checked-cases, assert-cases}
use autolock.File.Loops.{remaining, ensure_read}

abbrev pub min : ℕ → ℕ → ℕ
min a b = if leb a b then a else b

pub remaining_lem : (c d : ℕ) → d ≤ c → c < 2 ^ 64 → remaining c d ≡ c - d
remaining_lem c d le lt = omega arith

-- `n` bytes from an address on.
unfoldable pub load : (ℕ → ℕ) → ℕ → ℕ → List ℕ
load m a zero = []
load m a (suc n) = m a ∷ load m (suc a) n

pub load-ext :
    (m k : ℕ → ℕ) (a b n : ℕ) → ((i : ℕ) → i < n → m (a + i) ≡ k (b + i)) → load m a n ≡ load k b n
unfolding load
load-ext m k a b zero h = refl
load-ext m k a b (suc n) h =
    cons-eq (subst (λ x. m x ≡ k (b + 0)) (omega arith) (h 0 (omega arith)) ∙ ap k (omega arith)) (
      load-ext m k (suc a) (suc b) n
        (λ i lt. ap m (shift a i) ∙ h (suc i) (omega arith) ∙ ap k (sym (shift b i))))
  where
    shift : (x i : ℕ) → suc x + i ≡ x + suc i
    shift x i = omega arith

    cons-eq : {x y : ℕ} {xs ys : List ℕ} → x ≡ y → xs ≡ ys → (x ∷ xs) ≡ (y ∷ ys)
    cons-eq p q i = p i ∷ q i

-- What read(2) promises of a descriptor. `rest` is how many bytes of the file are still to be read
-- and `content` what they are, `byte` is the memory, and `again` bounds how often the call would
-- still block. A read takes some of the bytes that follow, at least one where there are any and
-- any are asked for, and puts them into the buffer.
pub record IsReader (W : Type 0) (os : Os W) (fd : ℕ) : Type 0 where
  pub rest : W → ℕ
  pub content : W → ℕ → ℕ
  pub byte : W → ℕ → ℕ
  pub again : W → ℕ
  pub read-moves :
      (buf count n : ℕ) (w : W)
      → (os.read fd buf count w).0 ≡ pos n
      → let w' = (os.read fd buf count w).1 in
        (n ≤ count)
        × (rest w' + n ≡ rest w)
        × (again w' ≤ again w)
        × ((n ≡ 0) → (0 < count) → rest w ≡ 0)
        × ((i : ℕ) → content w' i ≡ content w (n + i))
        × ((i : ℕ) → i < n → byte w' (buf + i) ≡ content w i)
        × ((a : ℕ) → a < buf → byte w' a ≡ byte w a)
  pub read-blocks :
      (buf count n : ℕ) (w : W)
      → (os.read fd buf count w).0 ≡ negsuc n
      → let w' = (os.read fd buf count w).1 in
        os.errno w' ≡ eagain
        → (again w' < again w)
          × (rest w' ≡ rest w)
          × ((i : ℕ) → content w' i ≡ content w i)
          × ((a : ℕ) → byte w' a ≡ byte w a)

module _ {W : Type 0} (os : Os W) (fd : ℕ) (r : IsReader W os fd) where
  -- How a read of `count` bytes into `buf` ends that starts in the world `w`: all the bytes that
  -- the file has, up to `count`, are in the buffer; or the program ended, on an error that is not
  -- EAGAIN. It does not run out of fuel.
  unfoldable pub IsRead : ℕ → ℕ → W → Ending W ℕ → Type 0
  IsRead buf count w (returned n w') =
      (n ≡ min count (r.rest w)) × (load (r.byte w') buf n ≡ load (r.content w) 0 n)
  IsRead buf count w (died e w') = e ≢ eagain
  IsRead buf count w (failed e w') = ⊥
  IsRead buf count w (running w') = ⊥

  -- The same with `nread` bytes read, which stay where they are.
  unfoldable pub IsPart : ℕ → ℕ → ℕ → W → Ending W ℕ → Type 0
  IsPart buf count nread w (returned n w') =
      (n ≡ nread + min (count - nread) (r.rest w))
      × ((a : ℕ) → a < buf + nread → r.byte w' a ≡ r.byte w a)
      × ((i : ℕ) → nread + i < n → r.byte w' (buf + nread + i) ≡ r.content w i)
  IsPart buf count nread w (died e w') = e ≢ eagain
  IsPart buf count nread w (failed e w') = ⊥
  IsPart buf count nread w (running w') = ⊥

  -- A call that moved some bytes, or none, and the rest of the loop.
  IsPart-next :
      (buf count nread n : ℕ) (w w' : W)
      → nread + n ≤ count
      → r.rest w' + n ≡ r.rest w
      → ((i : ℕ) → r.content w' i ≡ r.content w (n + i))
      → ((i : ℕ) → i < n → r.byte w' (buf + nread + i) ≡ r.content w i)
      → ((a : ℕ) → a < buf + nread → r.byte w' a ≡ r.byte w a)
      → (o : Ending W ℕ) → IsPart buf count (nread + n) w' o
      → IsPart buf count nread w o
  unfolding IsPart
  IsPart-next buf count nread n w w' le rs c b keep (returned m v) (e, h, f) = (
    ground arith,
    (λ a lt. h a (omega arith) ∙ keep a lt),
    λ i lt. elim (dec_lt i n) [
      | yes l ↦ h _ (omega arith) ∙ b i l
      | no ge ↦
          ap (r.byte v) (omega arith)
          ∙ f (i - n) (omega arith)
          ∙ c (i - n)
          ∙ ap (r.content w) (omega arith)
    ],
  )
  IsPart-next buf count nread n w w' le rs c b keep (died e v) h = h
  IsPart-next buf count nread n w w' le rs c b keep (failed e v) h = h
  IsPart-next buf count nread n w w' le rs c b keep (running v) h = h

  ensure_read-IsPart :
      (buf count : ℕ)
      → count < 2 ^ 64
      → (k nread : ℕ) (w : W) → nread ≤ count
      → r.again w + (count - nread) < k
      → IsPart buf count nread w (ensure_read os fd buf count k nread w)
  unfolding ensure_read IsPart
  ensure_read-IsPart buf count big zero nread w le fuel = absurd (omega arith)
  ensure_read-IsPart buf count big (suc k) nread w le fuel = elim (Bool-cases (nread == count)) [
    | inl e ↦ rw (e, ensure_read) (ground arith, (λ a _. refl), λ i lt. absurd (ground arith))
    | inr e ↦
        rw (e, ensure_read)
          (checked-cases os (IsPart buf count nread w)
            (os.read fd (buf + nread) (remaining count nread)) _ w (ended (ground arith))
            (moved (ground arith) (λ m v. ensure_read-IsPart buf count big k m v))
            (blocked (λ m v. ensure_read-IsPart buf count big k m v)) (λ d v ne. ne))
  ]
    where
      after : ℤ × W
      after = os.read fd (buf + nread) (remaining count nread) w

      Shorter : Type 0
      Shorter =
          (m : ℕ) (v : W)
          → m ≤ count
          → r.again v + (count - m) < k
          → IsPart buf count m v (ensure_read os fd buf count k m v)

      ended : nread < count → after.0 ≡ pos 0 → IsPart buf count nread w (returned nread after.1)
      ended lt q =
          let (le', rs, ag, z, c, b, keep) = r.read-moves _ _ _ w q in
          (
            ground (arith, z refl (omega (arith, remaining_lem count nread le big, lt))),
            keep,
            λ i lt. absurd (omega arith),
          )

      moved :
          nread < count
          → Shorter
          → (n : ℕ) → after.0 ≡ pos (suc n)
          → IsPart buf count nread w (ensure_read os fd buf count k (nread + suc n) after.1)
      moved lt shorter n q =
          let (le', rs, ag, z, c, b, keep) = r.read-moves _ _ _ w q in
          IsPart-next buf count nread (suc n) w after.1
            (omega (arith, le', remaining_lem count nread le big)) rs c b keep _
            (shorter (nread + suc n) after.1 (omega (arith, le', remaining_lem count nread le big))
              (omega (arith, le', ag, remaining_lem count nread le big)))

      blocked :
          Shorter
          → (n : ℕ) → after.0 ≡ negsuc n
          → os.errno after.1 ≡ eagain
          → IsPart buf count nread w (
              (err_assert os (os.errno after.1 == eagain) >>= λ _.
              ensure_read os fd buf count k nread)
                after.1)
      blocked shorter n q eq =
          let (ag, rs, c, keep) = r.read-blocks _ _ _ w q eq in
          assert-cases os (IsPart buf count nread w) _ after.1 eq (
            IsPart-next buf count nread 0 w after.1 (omega arith) (omega (arith, rs))
              (λ i. c i ∙ ap (r.content w) (omega arith)) (λ i lt. absurd (omega arith))
              (λ a _. keep a) _
              (subst (λ m. IsPart buf count m after.1 (ensure_read os fd buf count k nread after.1))
                (omega arith) (shorter nread after.1 le (omega (arith, ag)))))

  -- I_ensure_read, with fuel for every byte that it is asked for and every time that the call may
  -- block, does not run out of it. Where it returns, it has read as many bytes as it was asked for
  -- or as the file has, whichever is less, however the system splits them, and they are the bytes
  -- of the file, in order, from `buf` on; where it ends the program, errno is not EAGAIN.
  pub ensure_read-IsRead :
      (buf count k : ℕ) (w : W)
      → count < 2 ^ 64
      → r.again w + count < k
      → IsRead buf count w (ensure_read os fd buf count k 0 w)
  unfolding IsRead IsPart
  ensure_read-IsRead buf count k w big fuel =
      whole (ensure_read os fd buf count k 0 w)
        (ensure_read-IsPart buf count big k 0 w (omega arith) (omega arith))
    where
      whole : (o : Ending W ℕ) → IsPart buf count 0 w o → IsRead buf count w o
      whole (returned n v) (e, keep, got) = (
        ground arith,
        load-ext (r.byte v) (r.content w) buf 0 n (λ i lt.
            ap (r.byte v) (omega arith) ∙ got i (omega arith) ∙ ap (r.content w) (omega arith)),
      )
      whole (died e v) h = h
      whole (failed e v) h = h
      whole (running v) h = h
