-- ===== src/Clh/Entering.antt =====
-- The steps of a thread of the CLH lock that allocate its node, put it into the queue, and wait.
use autolock.Base.{
  ℕ, suc, ◌-◌, ◌≡◌, refl, sym, ap, ◌∙◌, arith, Bool, true, false, none, some, update, Option-cases,
  inl, inr, dec_lt,
}
use mathlib.Core.Path.{subst}
use autolock.Clh.{
  Pc, idle, swap, check, Env, dispatch, load_prev, goto, note, System, IsFresh, clh_locked,
}
use autolock.Clh.Invariant.{
  turn-le, Phase, swapping, queued, acquired, in_queue, phase, phase_at, Local, Inv,
}
use autolock.Clh.Others.{
  update-same, allocate-Global, allocate-Local, allocate-new, allocate-other, entered, old, now,
  enter-Global, enter-Local,
}
use autolock.Clh.Steps.{moved, settle, quiet, own, loaded, lost-Inv}

-- The step of thread `i` if it stands at `p`.
abbrev pub at : Bool → Env → System → ℕ → Pc → System
at a e s i p =
    let (l, t) = dispatch a e p s.lock (s.threads i) in
    moved s i l t (note p i (s.threads i) s.history)

module _ (a : Bool) (e : Env) (s : System) (i : ℕ) (fresh : IsFresh e s.lock) (inv : Inv s) where
  pub idle-Inv : (s.threads i).pc ≡ idle → Inv (at a e s i idle)
  unfolding dispatch note
  idle-Inv q = elim (Option-cases e.alloc) [
    | inl z ↦ rw z (lost-Inv s inv i)
    | inr (p, z) ↦ rw z (new p (rw z at fresh))
  ]
    where
      new :
          (p : ℕ)
          → s.lock.heap p ≡ none
          → Inv (
              moved s i
                (record s.lock { heap = update s.lock.heap p (some clh_locked) })
                (record (s.threads i) { node = p; pc = swap })
                s.history)
      new p fr =
          settle s inv i _ (record (s.threads i) { node = p; pc = swap }) s.history
            (allocate-Global s.lock s.history inv.global p fr)
            (
              update-same s.lock.heap p (some clh_locked),
              allocate-new s.lock s.history inv.global p fr,
            )
            (λ j ne.
              allocate-Local s.lock s.history inv.global p fr (phase_at s j) (s.history.turn j)
                (s.threads j) (inv.locals j))
            (λ j ne. refl) (λ j ne c. absurd (ground arith))
            (λ j ne c d.
              allocate-other s.lock s.history inv.global p fr (s.threads j) (s.history.turn j) (
                subst (λ x. Local s.lock s.history x (s.history.turn j) (s.threads j)) d
                  (inv.locals j)))

  pub swap-Inv : (s.threads i).pc ≡ swap → Inv (at a e s i swap)
  unfolding dispatch note
  swap-Inv q =
      let (mem, new) = own s inv i swap q in
      let n = (s.threads i).node in
      let mine = update-same s.history.turn i (suc s.history.issued) in
      settle s inv i (record s.lock { tail = n })
        (record (s.threads i) { prev = s.lock.tail; pc = check })
        (entered s.lock s.history inv.global i n mem new)
        (enter-Global s.lock s.history inv.global i n mem new)
        (rw mine (
          omega (arith, inv.global.freed-issued),
          omega arith,
          inv.global.last
              ∙ sym (old s.lock s.history inv.global i n mem new s.history.issued (omega arith))
              ∙ ap (entered s.lock s.history inv.global i n mem new).order (omega arith),
          sym (now s.lock s.history inv.global i n mem new),
        ))
        (λ j ne.
          enter-Local s.lock s.history inv.global i n mem new (phase_at s j) (s.history.turn j)
            (s.threads j) (inv.nodes i j ne (ap phase q)) (inv.locals j))
        (λ j ne. rw ne refl)
        (λ j ne c d z. absurd (
          omega (
            arith,
            mine,
            z,
            turn-le s.lock s.history (phase_at s j) (s.history.turn j) (s.threads j) d
                (inv.locals j),
          )))
        (λ j ne c. absurd (ground arith))

  pub load-Inv :
      (p taken free : Pc)
      → (s.threads i).pc ≡ p
      → phase p ≡ queued
      → phase taken ≡ queued
      → phase free ≡ acquired
      → let (l, t) = load_prev taken free (s.lock.heap (s.threads i).prev) s.lock (s.threads i) in
        Inv (moved s i l t s.history)
  load-Inv p taken free q pq pt pf =
      let (fr, le, ep, en) =
        subst (λ x. Local s.lock s.history x (s.history.turn i) (s.threads i)) pq
          (own s inv i p q) in
      elim (dec_lt s.history.served (s.history.turn i - 1)) [
        | yes lt ↦
            let m =
              ap s.lock.heap ep
              ∙ inv.global.locked (s.history.turn i - 1) lt (omega (arith, fr))
                  (omega (arith, le)) in
            loaded s inv i (load_prev taken free) s.history _ _ m (
              quiet s inv i (goto (s.threads i) taken)
                (subst (λ x. Local s.lock s.history x (s.history.turn i) (goto (s.threads i) taken))
                  (sym pt) (fr, le, ep, en))
                (λ _. iq) (λ z. absurd (other queued (sym pt ∙ z) refl)))
        | no ge ↦
            let m =
              ap s.lock.heap ep
              ∙ inv.global.unlocked (s.history.turn i - 1) (omega (arith, fr))
                  (omega (arith, ge)) in
            loaded s inv i (load_prev taken free) s.history _ _ m (
              quiet s inv i (goto (s.threads i) free)
                (subst (λ x. Local s.lock s.history x (s.history.turn i) (goto (s.threads i) free))
                  (sym pf)
                  (
                    omega (arith, fr, ge, inv.global.served-freed),
                    omega (arith, fr, ge, inv.global.served-freed),
                    le,
                    ep,
                    en,
                  ))
                (λ _. iq) (λ z. absurd (other acquired (sym pf ∙ z) refl)))
      ]
    where
      iq : in_queue (phase_at s i) ≡ true
      iq = ap (λ x. in_queue (phase x)) q ∙ ap in_queue pq

      other : (x : Phase) → x ≡ swapping → in_queue x ≡ true → ⊥
      other x z c = clash (sym (ap in_queue z) ∙ c)
        where
          clash : false ≡ true → ⊥
          clash z = ground arith
