-- ===== src/Clh/Steps.antt =====
-- A step of one thread keeps the invariant of the CLH lock, whatever it does, if it keeps the queue
-- and the other threads' part.
use autolock.Base.{
  update-all, update-pairs, ℕ, suc, ◌≡◌, ◌≢◌, refl, sym, ap, ◌∙◌, arith, true, false, ◌==◌, update,
}
use mathlib.Core.Path.{subst}
use autolock.Clh.{Pc, goto, fault, ClhLock, Thread, History, System}
use autolock.Clh.Invariant.{Local-same, swapping, in_queue, phase, phase_at, Global, Local, Inv}

abbrev pub moved : System → ℕ → ClhLock → Thread → History → System
moved s i l t h = record { lock = l; threads = update s.threads i t; history = h }

==_sym : (i j : ℕ) → (i == j) ≡ false → (j == i) ≡ false
==_sym i j e = ground (arith, e)

module _ (s : System) (inv : Inv s) (i : ℕ) where
  pub settle :
      (l : ClhLock) (t : Thread) (h : History)
      → Global l h
      → Local l h (phase t.pc) (h.turn i) t
      → ((j : ℕ) → (i == j) ≡ false → Local l h (phase_at s j) (s.history.turn j) (s.threads j))
      → ((j : ℕ) → (i == j) ≡ false → h.turn j ≡ s.history.turn j)
      → ((j : ℕ)
          → (i == j) ≡ false
          → in_queue (phase t.pc) ≡ true
          → in_queue (phase_at s j) ≡ true
          → h.turn i ≢ s.history.turn j)
      → ((j : ℕ)
          → (i == j) ≡ false
          → phase t.pc ≡ swapping
          → phase_at s j ≡ swapping
          → t.node ≢ (s.threads j).node)
      → Inv (moved s i l t h)
  settle l t h g own others same apart nodes = record {
    global = g;
    locals =
        update-all (λ j x. Local l h (phase x.pc) (h.turn j) x) s.threads i t own
          (λ j e. rw (same j e) (others j e));
    turns =
        update-pairs
          (λ j x k y.
            in_queue (phase x.pc) ≡ true → in_queue (phase y.pc) ≡ true → h.turn j ≢ h.turn k)
          s.threads i t (λ j e p q z. apart j e p q (z ∙ same j e))
          (λ j e p q z. apart j e q p (sym z ∙ same j e))
          (λ j k d e ne p q z. inv.turns j k ne p q (sym (same j d) ∙ z ∙ same k e));
    nodes =
        update-pairs (λ j x k y. phase x.pc ≡ swapping → phase y.pc ≡ swapping → x.node ≢ y.node)
          s.threads i t nodes (λ j e p q z. nodes j e q p (sym z)) (λ j k d e. inv.nodes j k);
  }

  -- A step that changes no word of the lock.
  pub quiet :
      (t : Thread)
      → Local s.lock s.history (phase t.pc) (s.history.turn i) t
      → (in_queue (phase t.pc) ≡ true → in_queue (phase_at s i) ≡ true)
      → phase t.pc ≢ swapping
      → Inv (moved s i s.lock t s.history)
  quiet t own stays ne =
      settle s.lock t s.history inv.global own (λ j e. inv.locals j) (λ j e. refl)
        (λ j e p q. inv.turns i j e (stays p) q) (λ j e p q. absurd (ne p))

  -- What the thread whose turn it is knows of the others.
  pub alone :
      in_queue (phase_at s i) ≡ true
      → s.history.turn i ≡ suc s.history.served
      → (j : ℕ) → (i == j) ≡ false
      → in_queue (phase_at s j) ≡ true
      → s.history.turn j ≢ suc s.history.served
  alone p e j ne q z = inv.turns i j ne p q (e ∙ sym z)

  pub own :
      (p : Pc)
      → (s.threads i).pc ≡ p
      → Local s.lock s.history (phase p) (s.history.turn i) (s.threads i)
  own p q =
      subst (λ x. Local s.lock s.history (phase x) (s.history.turn i) (s.threads i)) q
        (inv.locals i)

  -- It is in the queue, so that its turn is its own.
  pub apart :
      (p : Pc)
      → (s.threads i).pc ≡ p
      → in_queue (phase p) ≡ true
      → (j : ℕ) → (i == j) ≡ false
      → in_queue (phase_at s j) ≡ true
      → s.history.turn i ≢ s.history.turn j
  apart p q c j ne d = inv.turns i j ne (ap (λ x. in_queue (phase x)) q ∙ c) d

  pub page-Inv :
      (t : Thread) (p : Pc)
      → (s.threads i).pc ≡ p
      → phase t.pc ≡ phase p
      → in_queue (phase p) ≡ true
      → t.node ≡ (s.threads i).node
      → t.prev ≡ (s.threads i).prev
      → t.target ≡ (s.threads i).target
      → Inv (moved s i s.lock t s.history)
  page-Inv t p q ph iq en ep et =
      quiet t
        (subst (λ x. Local s.lock s.history x (s.history.turn i) t) (sym ph)
          (Local-same s.lock s.history (phase p) (s.history.turn i) (s.threads i) t en ep et
            (own p q)))
        (λ _. ap (λ x. in_queue (phase x)) q ∙ iq)
        (λ z. absurd (clash (ap in_queue (sym z ∙ ph) ∙ iq)))
    where
      clash : false ≡ true → ⊥
      clash z = ground arith

  -- A step that goes by a value that is known.
  pub loaded :
      {A : Type 0} (f : A → ClhLock → Thread → ClhLock × Thread) (h : History) (x y : A)
      → x ≡ y
      → (let (l, t) = f y s.lock (s.threads i) in Inv (moved s i l t h))
      → let (l, t) = f x s.lock (s.threads i) in Inv (moved s i l t h)
  loaded f h x y q =
      subst (λ z. let (l, t) = f z s.lock (s.threads i) in Inv (moved s i l t h)) (sym q)

  pub lost-Inv : Inv (moved s i s.lock (goto (s.threads i) fault) s.history)
  lost-Inv =
      quiet (goto (s.threads i) fault) tt (λ c. absurd (ground arith)) (λ z. absurd (ground arith))
