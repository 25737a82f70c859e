-- ===== src/Clh/Safety.antt =====
-- Every reachable state of the CLH lock satisfies the invariant, and what follows from it.
use autolock.Base.{
  ◌⊎◌, ℕ, suc, ◌≡◌, ◌≢◌, refl, sym, ap, ◌∙◌, arith, Bool, true, false, ◌==◌, ==_iff, Bool-cases,
  inl, inr,
}
use mathlib.Core.Path.{subst}
use autolock.Clh.{ClhLock, wild, Thread, History, System, Reach, start, later}
use autolock.Clh.Invariant.{
  Phase, out, swapping, queued, acquired, cleared, holding, releasing, broken, in_queue, phase,
  phase_at, Local, Inv,
}
use autolock.Clh.Moves.{step-Inv}

Reach-Inv : {a : Bool} {s : System} → Reach a s → Inv s
Reach-Inv (start {s} st) = record {
  global = record {
    served-freed = omega (arith, st.served);
    freed-served = omega (arith, st.freed);
    freed-issued = omega (arith, st.freed);
    last = sym st.first ∙ ap s.history.order (sym st.issued);
    unlocked = λ k x y.
        ap s.lock.heap (ap s.history.order (omega (arith, st.served, y)) ∙ st.first) ∙ st.free;
    locked = λ k x y z. absurd (omega (arith, x, z, st.issued));
    different = λ j k x y z w e. omega (arith, y, w, st.issued);
  };
  locals = λ i. rw (st.pc i) tt;
  turns = λ i j ne p. absurd (outside i p);
  nodes = λ i j ne p. absurd (idle_swapping i p);
}
  where
    outside : (i : ℕ) → in_queue (phase_at s i) ≡ true → ⊥
    outside i p = clash (sym (ap (λ x. in_queue (phase x)) (st.pc i)) ∙ p)
      where
        clash : false ≡ true → ⊥
        clash z = ground arith

    idle_swapping : (i : ℕ) → phase_at s i ≡ swapping → ⊥
    idle_swapping i p = clash (sym (ap phase (st.pc i)) ∙ p)
      where
        clash : out ≡ swapping → ⊥
        clash z = ground arith
Reach-Inv (later {s} i e fresh r) = step-Inv _ e s i fresh (Reach-Inv r) (s.threads i).pc refl

-- Whether a thread has the lock: from the last load of `prev_node->mem`, or the first if the lock was
-- free, to the store of `unlock`.
abbrev pub has_it : Phase → Bool
has_it acquired = true
has_it cleared = true
has_it holding = true
has_it releasing = true
has_it p = false

has_it-turn :
    (l : ClhLock) (h : History) (q : Phase) (turn : ℕ) (t : Thread)
    → has_it q ≡ true
    → Local l h q turn t
    → (turn ≡ suc h.served) × (in_queue q ≡ true)
has_it-turn l h out turn t q o = absurd (ground arith)
has_it-turn l h broken turn t q o = absurd (ground arith)
has_it-turn l h swapping turn t q o = absurd (ground arith)
has_it-turn l h queued turn t q o = absurd (ground arith)
has_it-turn l h acquired turn t q o = (o.0, refl)
has_it-turn l h cleared turn t q o = (o.0, refl)
has_it-turn l h holding turn t q o = (o.0, refl)
has_it-turn l h releasing turn t q o = (o.0, refl)

one_holder :
    {a : Bool} {s : System}
    → Reach a s
    → (i j : ℕ) → has_it (phase_at s i) ≡ true
    → has_it (phase_at s j) ≡ true
    → (i ≡ j) × (s.history.turn i ≡ suc s.history.served)
one_holder {s = s} r i j p q =
    let inv = Reach-Inv r in
    let (ti, ii) =
      has_it-turn s.lock s.history (phase_at s i) (s.history.turn i) (s.threads i) p
        (inv.locals i) in
    let (tj, ij) =
      has_it-turn s.lock s.history (phase_at s j) (s.history.turn j) (s.threads j) q
        (inv.locals j) in
    (
      elim (Bool-cases (i == j)) [
        | inl e ↦ (==_iff i j).0 e
        | inr e ↦ absurd (inv.turns i j e ii ij (ti ∙ sym tj))
      ],
      ti,
    )

-- In every reachable state of the CLH lock, with and without autolock, for any number of threads,
-- and also where malloc hands out freed nodes again: no thread has used a node that is not allocated,
-- freed one twice, or followed a NULL `head`; and two threads that have the lock are one thread, the
-- first one that put its node into the queue and has not unlocked it yet.
pub clh_safe :
    {a : Bool} {s : System} (i j k : ℕ)
    → Reach a s
    → ((s.threads k).pc ≢ wild)
      × ((has_it (phase_at s i) ≡ false)
          ⊎ (has_it (phase_at s j) ≡ false)
          ⊎ ((i ≡ j) × (s.history.turn i ≡ suc s.history.served)))
clh_safe {s = s} i j k r =
    let inv = Reach-Inv r in
    (
      λ w.
          subst (λ x. Local s.lock s.history (phase x) (s.history.turn k) (s.threads k)) w
            (inv.locals k),
      elim (Bool-cases (has_it (phase_at s i))) [
        | inr free ↦ inl free
        | inl p ↦ elim (Bool-cases (has_it (phase_at s j))) [
          | inr free ↦ inr (inl free)
          | inl q ↦ inr (inr (one_holder r i j p q))
        ]
      ],
    )
