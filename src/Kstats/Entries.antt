-- ===== src/Kstats/Entries.antt =====
-- What the parser of autolock-stats.c finds in a buffer: the entries that it holds, one behind the
-- other, in the room that autolock_get_stats has set aside for their addresses.
use autolock.Base.{
  ℕ, zero, suc, ◌+◌, ◌-◌, ◌*◌, ◌≤◌, ◌<◌, ◌≡◌, refl, sym, ap, ◌∙◌, ◌⊎◌, inl, inr, arith, true, false,
  some, List, [], ◌∷◌, length, pos, ◌==◌, ==_iff, leb, Bool-cases,
}
use mathlib.Core.Path.{subst}
use autolock.Base.Exec.{Exec, value, died, ◌>>=◌}
use autolock.Kstats.{
  get_nentries, entry_get_size, parse_from, parse_stats, get_stats, AutoLockStats, get_buf_size,
  get_alloc_size,
}

-- Entries at these addresses take up the bytes from an address on.
pub data Laid (mem : ℕ → ℕ) : ℕ → ℕ → List ℕ → Type 0 where
  done : {b n : ℕ} → n ≡ 0 → Laid mem b n []
  entry :
      {b n rest : ℕ} {es : List ℕ}
      → n ≡ entry_get_size mem b + rest
      → Laid mem (b + entry_get_size mem b) rest es
      → Laid mem b n (b ∷ es)

-- Each of the entries has a task.
abbrev pub HaveTasks : (ℕ → ℕ) → List ℕ → Type 0
HaveTasks mem [] = Unit {0}
HaveTasks mem (e ∷ es) = (0 < get_nentries mem e) × HaveTasks mem es

module _ (mem : ℕ → ℕ) where
  -- What the loop comes to: the entries, or the end of the program where there are none.
  abbrev pub Parsed : ℕ → ℕ → Exec (List ℕ) → Type 0
  Parsed b n r =
      ((es : List ℕ) × (r ≡ value es)
        × Laid mem b n es
        × ((fs : List ℕ) → Laid mem b n fs → fs ≡ es))
      ⊎ ((r ≡ died) × ((es : List ℕ) → Laid mem b n es → ⊥))

  none_left : (b n : ℕ) (fs : List ℕ) → n ≡ 0 → Laid mem b n fs → fs ≡ []
  none_left b n fs z (done e) = refl
  none_left b n fs z (entry e l) = absurd (omega (arith, z, e))

  split :
      (b n : ℕ) (fs : List ℕ)
      → (n == 0) ≡ false
      → Laid mem b n fs
      → (rest : ℕ) × (gs : List ℕ) × (fs ≡ b ∷ gs)
        × (n ≡ entry_get_size mem b + rest)
        × Laid mem (b + entry_get_size mem b) rest gs
  split b n fs ne (done e) = absurd (ground (arith, ne, e))
  split b n fs ne (entry {rest = rest} {es = es} e l) = (rest, es, refl, e, l)

  -- One turn of the loop.
  turn_done : (k b n : ℕ) → (n == 0) ≡ true → parse_from mem (suc k) b n ≡ value []
  turn_done k b n z = rw (z, parse_from) refl

  turn_died :
      (k b n : ℕ)
      → (n == 0) ≡ false
      → leb (entry_get_size mem b) n ≡ false
      → parse_from mem (suc k) b n ≡ died
  turn_died k b n z long = rw (z, long, parse_from) refl

  turn_next :
      (k b n : ℕ)
      → (n == 0) ≡ false
      → leb (entry_get_size mem b) n ≡ true
      → parse_from mem (suc k) b n ≡ (
          parse_from mem k (b + entry_get_size mem b) (n - entry_get_size mem b) >>= λ es.
          value (b ∷ es))
  turn_next k b n z fits = rw (z, fits, parse_from) refl

  too_long :
      (b n : ℕ) (fs : List ℕ)
      → (n == 0) ≡ false
      → leb (entry_get_size mem b) n ≡ false
      → Laid mem b n fs
      → ⊥
  too_long b n fs z long l = let (rest, gs, f, e, m) = split b n fs z l in ground (arith, long, e)

  -- The rest of the buffer behind an entry that fits.
  behind :
      (b n : ℕ) (fs : List ℕ)
      → (n == 0) ≡ false
      → Laid mem b n fs
      → (gs : List ℕ) × (fs ≡ b ∷ gs)
        × Laid mem (b + entry_get_size mem b) (n - entry_get_size mem b) gs
  behind b n fs z l =
      let (rest, gs, f, e, m) = split b n fs z l in
      (gs, f, subst (λ r. Laid mem (b + entry_get_size mem b) r gs) (omega (arith, e)) m)

  one_more :
      (b n : ℕ)
      → (n == 0) ≡ false
      → leb (entry_get_size mem b) n ≡ true
      → (r : Exec (List ℕ)) → Parsed (b + entry_get_size mem b) (n - entry_get_size mem b) r
      → Parsed b n (r >>= λ es. value (b ∷ es))
  one_more b n z fits r (inl (es, e, l, only)) = inl (
    b ∷ es,
    ap (λ x. x >>= λ es. value (b ∷ es)) e,
    entry (ground (arith, fits)) l,
    λ fs m. let (gs, f, below) = behind b n fs z m in f ∙ ap (λ x. b ∷ x) (only gs below),
  )
  one_more b n z fits r (inr (e, nothing)) = inr (
    ap (λ x. x >>= λ es. value (b ∷ es)) e,
    λ fs m. let (gs, f, below) = behind b n fs z m in nothing gs below,
  )

  parse_from-Parsed : (k b n : ℕ) → n < k → Parsed b n (parse_from mem k b n)
  parse_from-Parsed zero b n h = absurd (omega (arith, h))
  parse_from-Parsed (suc k) b n h =
      let ih = parse_from-Parsed k (b + entry_get_size mem b) (n - entry_get_size mem b) in
      elim (Bool-cases (n == 0)) [
        | inl z ↦
            subst (Parsed b n) (sym (turn_done k b n z)) (
              inl
                ([], refl, done ((==_iff n 0).0 z), λ fs l. none_left b n fs ((==_iff n 0).0 z) l))
        | inr z ↦ elim (Bool-cases (leb (entry_get_size mem b) n)) [
          | inr long ↦
              subst (Parsed b n) (sym (turn_died k b n z long))
                (inr (refl, λ fs l. too_long b n fs z long l))
          | inl fits ↦
              subst (Parsed b n) (sym (turn_next k b n z fits))
                (one_more b n z fits _ (ih (ground (arith, h, z))))
        ]
      ]

-- The parser either finds the entries that make up the bytes, one behind the other, and there are no
-- others that do; or there are none, since the last one runs over the end, and the program ends. It
-- always comes to its end.
pub parse_stats-Parsed :
    (mem : ℕ → ℕ) (base_ptr nbytes : ℕ)
    → Parsed mem base_ptr nbytes (parse_stats mem base_ptr nbytes)
unfolding parse_stats
parse_stats-Parsed mem base_ptr nbytes =
    parse_from-Parsed mem (suc nbytes) base_ptr nbytes (omega arith)

length-Laid :
    {mem : ℕ → ℕ} {b n : ℕ} {es : List ℕ} → Laid mem b n es → HaveTasks mem es → 28 * length es ≤ n
length-Laid (done e) t = omega arith
length-Laid (entry e l) (t, ts) = omega (arith, e, t, length-Laid l ts)

entries_of : Exec AutoLockStats → List ℕ
entries_of (value s) = s.entries
entries_of r = []

-- When autolock_get_stats comes back from a system call that has filled at most the buffer, its
-- entries are those which make up the bytes that were filled; and if each of them has a task, their
-- addresses, behind the buffer, stay inside the memory that was allocated.
pub get_stats-fits :
    (num_cpus : ℕ) {mem : ℕ → ℕ} {base_ptr nbytes : ℕ} {s : AutoLockStats}
    → nbytes ≤ get_buf_size num_cpus
    → get_stats mem base_ptr (pos nbytes) ≡ value s
    → HaveTasks mem s.entries
    → Laid mem base_ptr nbytes s.entries
      × (get_buf_size num_cpus + length s.entries * 8 ≤ get_alloc_size num_cpus)
unfolding get_stats entries_of
get_stats-fits num_cpus {mem} {base_ptr} {nbytes} {s} room h tasks =
    elim (parse_stats-Parsed mem base_ptr nbytes) [
      | inl (es, e, l, only) ↦
          let same : es ≡ s.entries = ap entries_of (sym (ap (λ r. stats_of base_ptr r) e) ∙ h) in
          let m = subst (Laid mem base_ptr nbytes) same l in
          (m, omega (arith, room, length-Laid m tasks))
      | inr (e, nothing) ↦ absurd (clash (sym (ap (λ r. stats_of base_ptr r) e) ∙ h))
    ]
  where
    stats_of : ℕ → Exec (List ℕ) → Exec AutoLockStats
    stats_of b r = r >>= λ entries. value (record { entries = entries; base_ptr = some b })

    clash : {s : AutoLockStats} → died ≡ value s → ⊥
    clash z = ground (arith, z)
