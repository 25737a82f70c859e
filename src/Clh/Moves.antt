-- ===== src/Clh/Moves.antt =====
-- The steps that free the node in front, unlock, and set up the page, and all steps together.
use autolock.Base.{
  ℕ, suc, ◌-◌, ◌≤◌, ◌≡◌, refl, ap, ◌∙◌, arith, Bool, none, some, ◌==◌, update, Bool-cases,
  Option-cases, inl, inr, if◌then◌else◌,
}
use mathlib.Core.Path.{subst}
use autolock.Kernel.{autolock_init_kernel_state}
use autolock.Clh.{
  Pc, idle, swap, check, init_page, set_for, set_neq, set_mem, compare_head, pause_next, pause_once,
  yielding, disarm, free_prev, set_head, critical, unlock_store, fault, wild, Env, dispatch,
  prepare, compare_with, node_free, load_head, store_unlocked, has_lock, goto, note, System,
  IsFresh, clh_unlocked,
}
use autolock.Clh.Invariant.{queued, acquired, in_queue, phase, phase_at, Inv}
use autolock.Clh.Leaving.{
  one_freed, free-Global, free-Local, head-Global, head-Local, one_served, release-Global,
  release-Local,
}
use autolock.Clh.Steps.{settle, quiet, alone, own, apart, page-Inv, loaded, lost-Inv}
use autolock.Clh.Entering.{at, idle-Inv, swap-Inv, load-Inv}

module _ (a : Bool) (e : Env) (s : System) (i : ℕ) (fresh : IsFresh e s.lock) (inv : Inv s) where
  free-Inv : (s.threads i).pc ≡ free_prev → Inv (at a e s i free_prev)
  unfolding dispatch note
  free-Inv q =
      let (t1, f, le, ep, en) = own s inv i free_prev q in
      let x = ep ∙ ap s.history.order (before t1) in
      let next = subst (λ k. k ≤ s.history.issued) t1 le in
      let m =
        ap s.lock.heap x ∙ inv.global.unlocked s.history.served (omega (arith, f)) (omega arith) in
      loaded s inv i node_free (one_freed s.lock s.history inv.global (s.threads i).prev x f next) _
        _ m
        (settle s inv i (record s.lock { heap = update s.lock.heap (s.threads i).prev none })
          (goto (s.threads i) set_head)
          (one_freed s.lock s.history inv.global (s.threads i).prev x f next)
          (free-Global s.lock s.history inv.global (s.threads i).prev x f next)
          (t1, omega (arith, f, t1), le, en)
          (λ j ne.
            free-Local s.lock s.history inv.global (s.threads i).prev x f next (phase_at s j)
              (s.history.turn j) (s.threads j)
              (alone s inv i (ap (λ x. in_queue (phase x)) q) t1 j ne) (inv.locals j))
          (λ j ne. refl) (λ j ne c. apart s inv i free_prev q refl j ne)
          (λ j ne c. absurd (ground arith)))
    where
      before : {k m : ℕ} → k ≡ suc m → k - 1 ≡ m
      before e = omega (arith, e)

  head-Inv : (s.threads i).pc ≡ set_head → Inv (at a e s i set_head)
  unfolding dispatch note
  head-Inv q =
      let (t1, f, le, en) = own s inv i set_head q in
      let n = (s.threads i).node in
      settle s inv i (record s.lock { head = some n }) (goto (s.threads i) critical) s.history
        (head-Global s.lock s.history inv.global n) (t1, f, le, ap some en)
        (λ j ne.
          head-Local s.lock s.history inv.global n (phase_at s j) (s.history.turn j) (s.threads j)
            (alone s inv i (ap (λ x. in_queue (phase x)) q) t1 j ne) (inv.locals j))
        (λ j ne. refl) (λ j ne c. apart s inv i set_head q refl j ne)
        (λ j ne c. absurd (ground arith))

  critical-Inv : (s.threads i).pc ≡ critical → Inv (at a e s i critical)
  unfolding dispatch note
  critical-Inv q =
      let (t1, f, le, eh) = own s inv i critical q in
      loaded s inv i load_head s.history _ _ eh (
        quiet s inv i
          (record (s.threads i) { target = s.history.order (s.history.turn i); pc = unlock_store })
          (t1, f, le, refl) (λ _. ap (λ x. in_queue (phase x)) q) (λ z. absurd (ground arith)))

  store-Inv : (s.threads i).pc ≡ unlock_store → Inv (at a e s i unlock_store)
  unfolding dispatch note
  store-Inv q =
      let (t1, f, le, et) = own s inv i unlock_store q in
      let x = et ∙ ap s.history.order t1 in
      let first = f ∙ t1 in
      let m =
        ap s.lock.heap et
        ∙ inv.global.locked (s.history.turn i) (omega (arith, t1)) (omega (arith, f)) le in
      loaded s inv i store_unlocked
        (one_served s.lock s.history inv.global (s.threads i).target x first) _ _ m
        (settle s inv i
          (record s.lock { heap = update s.lock.heap (s.threads i).target (some clh_unlocked) })
          (goto (s.threads i) idle)
          (one_served s.lock s.history inv.global (s.threads i).target x first)
          (release-Global s.lock s.history inv.global (s.threads i).target x first) tt
          (λ j ne.
            release-Local s.lock s.history inv.global (s.threads i).target x first (phase_at s j)
              (s.history.turn j) (s.threads j)
              (alone s inv i (ap (λ x. in_queue (phase x)) q) t1 j ne) (inv.locals j))
          (λ j ne. refl) (λ j ne c. absurd (ground arith)) (λ j ne c. absurd (ground arith)))

  init-Inv : (s.threads i).pc ≡ init_page → Inv (at a e s i init_page)
  unfolding dispatch note
  init-Inv q = elim (Option-cases (autolock_init_kernel_state e.sys (s.threads i).kernel)) [
    | inl z ↦ loaded s inv i prepare s.history _ _ z (lost-Inv s inv i)
    | inr (k, z) ↦ loaded s inv i prepare s.history _ _ z (
        page-Inv s inv i (record (s.threads i) { kernel = some k; pc = set_for }) init_page q refl
          refl refl refl refl)
  ]

  compare-Inv : (s.threads i).pc ≡ compare_head → Inv (at a e s i compare_head)
  unfolding dispatch note
  compare-Inv q = elim (Option-cases s.lock.head) [
    | inl z ↦
        loaded s inv i compare_with s.history _ _ z
          (page-Inv s inv i (goto (s.threads i) pause_once) compare_head q refl refl refl refl refl)
    | inr (h, z) ↦ elim (Bool-cases (h == (s.threads i).prev)) [
      | inl c ↦ loaded s inv i compare_with s.history _ _ z (
          rw c (
            page-Inv s inv i (goto (s.threads i) pause_next) compare_head q refl refl refl refl
              refl))
      | inr c ↦ loaded s inv i compare_with s.history _ _ z (
          rw c (
            page-Inv s inv i (goto (s.threads i) pause_once) compare_head q refl refl refl refl
              refl))
    ]
  ]

  taken_phase : phase (if a then init_page else compare_head) ≡ queued
  taken_phase = ground arith

  free_phase : phase (has_lock a) ≡ acquired
  free_phase = ground arith

  pub step-Inv : (p : Pc) → (s.threads i).pc ≡ p → Inv (at a e s i p)
  unfolding dispatch note
  step-Inv idle q = idle-Inv a e s i fresh inv q
  step-Inv swap q = swap-Inv a e s i fresh inv q
  step-Inv check q = load-Inv a e s i fresh inv check _ free_prev q refl taken_phase refl
  step-Inv init_page q = init-Inv q
  step-Inv set_for q = page-Inv s inv i _ set_for q refl refl refl refl refl
  step-Inv set_neq q = page-Inv s inv i _ set_neq q refl refl refl refl refl
  step-Inv set_mem q = page-Inv s inv i _ set_mem q refl refl refl refl refl
  step-Inv compare_head q = compare-Inv q
  step-Inv pause_next q = load-Inv a e s i fresh inv pause_next _ _ q refl refl free_phase
  step-Inv pause_once q = load-Inv a e s i fresh inv pause_once _ _ q refl refl free_phase
  step-Inv yielding q = load-Inv a e s i fresh inv yielding _ _ q refl refl free_phase
  step-Inv disarm q = page-Inv s inv i _ disarm q refl refl refl refl refl
  step-Inv free_prev q = free-Inv q
  step-Inv set_head q = head-Inv q
  step-Inv critical q = critical-Inv q
  step-Inv unlock_store q = store-Inv q
  step-Inv fault q = lost-Inv s inv i
  step-Inv wild q = absurd (own s inv i wild q)
