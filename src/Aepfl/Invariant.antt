-- ===== src/Aepfl/Invariant.antt =====
-- What holds of the array lock between any two steps of `n` threads.
use autolock.Base.{
  one_if, ℕ, suc, ◌+◌, ◌%◌, ◌^◌, ◌≤◌, ◌<◌, ◌≡◌, ◌≢◌, ◌⊎◌, inl, inr, refl, ◌∙◌, Bool, true, false,
  ◌==◌, sum_over, arith,
}
use autolock.Aepfl.{
  AepflLock, Pc, idle, try_load, try_exchange, disarm, critical, store_locked, store_unlocked,
  Thread, History, System, slot_of,
}

-- What a thread has of the lock.
pub data Phase : Type 0 where
  out trying waiting holding clearing setting : Phase

abbrev pub phase : Pc → Phase
phase idle = out
phase try_load = trying
phase try_exchange = trying
phase disarm = holding
phase critical = holding
phase store_locked = clearing
phase store_unlocked = setting
phase p = waiting

abbrev pub in_queue : Phase → Bool
in_queue out = false
in_queue trying = false
in_queue p = true

abbrev pub owns : Phase → Bool
owns out = false
owns trying = false
owns waiting = false
owns p = true

abbrev pub First : History → ℕ → Type 0
First h turn = (turn ≡ h.served) × (turn < h.issued)

-- Nobody is on the way to serve the next number.
abbrev pub Rest : AepflLock → History → Type 0
Rest l h = l.head ≡ h.served % 2 ^ 32

-- What a thread's phase says of it, with its turn and the locals `slot` and `flag_mem`.
abbrev pub Local : AepflLock → History → Phase → ℕ → ℕ → ℕ → Type 0
Local l h out turn slot flag_mem = Unit
Local l h trying turn slot flag_mem = ⊥
Local l h waiting turn slot flag_mem =
    (h.served ≤ turn) × (turn < h.issued) × (flag_mem ≡ slot_of turn) × (turn ≡ h.served → Rest l h)
Local l h holding turn slot flag_mem = First h turn × Rest l h
Local l h clearing turn slot flag_mem =
    First h turn × (slot ≡ slot_of h.served) × (l.head ≡ suc h.served % 2 ^ 32)
Local l h setting turn slot flag_mem =
    First h turn
    × (slot ≡ slot_of (suc h.served))
    × (l.head ≡ suc h.served % 2 ^ 32)
    × ((c : ℕ) → l.flags c ≡ 0)

pub record Global (l : AepflLock) (h : History) : Type 0 where
  pub tail : l.tail ≡ h.issued % 2 ^ 32
  pub rest : h.served ≡ h.issued → Rest l h
  pub flags : (c : ℕ) → (l.flags c ≡ 0) ⊎ ((l.flags c ≡ 1) × (c ≡ slot_of h.served))

abbrev pub member : Thread → ℕ
member t = one_if (in_queue (phase t.pc))

abbrev pub phase_at : System → ℕ → Phase
phase_at s i = phase (s.threads i).pc

abbrev pub LocalAt : AepflLock → History → ℕ → Thread → Type 0
LocalAt l h turn t = Local l h (phase t.pc) turn t.slot t.flag_mem

pub record Inv (n : ℕ) (s : System) : Type 0 where
  pub global : Global s.lock s.history
  pub members : s.history.issued ≡ s.history.served + sum_over member n s.threads
  pub locals : (i : ℕ) → LocalAt s.lock s.history (s.history.turn i) (s.threads i)
  pub turns :
      (i j : ℕ)
      → (i == j) ≡ false
      → in_queue (phase_at s i) ≡ true
      → in_queue (phase_at s j) ≡ true
      → s.history.turn i ≢ s.history.turn j

-- What the thread that is served leaves of the others' part.
module _ (l m : AepflLock) (h g : History) (issued : g.issued ≡ h.issued)
    (change : (g.served ≡ h.served) ⊎ ((g.served ≡ suc h.served) × Rest m g)) where
  pub behind-Local :
      (p : Phase) (turn slot flag_mem : ℕ)
      → (in_queue p ≡ true → turn ≢ h.served)
      → Local l h p turn slot flag_mem
      → Local m g p turn slot flag_mem
  behind-Local out turn slot flag_mem ne o = tt
  behind-Local trying turn slot flag_mem ne o = o
  behind-Local waiting turn slot flag_mem ne (le, lt, f, r) = elim change [
    | inl same ↦
        (omega (arith, same, le), omega (arith, issued, lt), f, λ e. absurd (ne refl (e ∙ same)))
    | inr (more, rest) ↦ (rw more (above le (ne refl)), omega (arith, issued, lt), f, λ e. rest)
  ]
    where
      above : h.served ≤ turn → turn ≢ h.served → suc h.served ≤ turn
      above a b = ground (arith, a, b)
  behind-Local holding turn slot flag_mem ne o = absurd (ne refl o.0.0)
  behind-Local clearing turn slot flag_mem ne o = absurd (ne refl o.0.0)
  behind-Local setting turn slot flag_mem ne o = absurd (ne refl o.0.0)

-- Another thread takes a number.
module _ (l : AepflLock) (h : History) (turns : ℕ → ℕ) (tail : ℕ) where
  abbrev one_more : History
  one_more = record h { turn = turns; issued = suc h.issued }

  pub one_more-Local :
      (p : Phase) (turn slot flag_mem : ℕ)
      → Local l h p turn slot flag_mem
      → Local (record l { tail = tail }) one_more p turn slot flag_mem
  one_more-Local out turn slot flag_mem o = tt
  one_more-Local trying turn slot flag_mem o = o
  one_more-Local waiting turn slot flag_mem o = (o.0, omega (arith, o.1), o.2, o.3)
  one_more-Local holding turn slot flag_mem (f, r) = ((f.0, omega (arith, f.1)), r)
  one_more-Local clearing turn slot flag_mem (f, a, b) = ((f.0, omega (arith, f.1)), a, b)
  one_more-Local setting turn slot flag_mem (f, a, b, c) = ((f.0, omega (arith, f.1)), a, b, c)
