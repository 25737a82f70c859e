-- ===== src/Aepfl/Steps.antt =====
-- The steps of one thread keep the invariant of the array lock.
use autolock.Base.{
  ℕ, suc, ◌+◌, ◌%◌, ◌^◌, ◌≤◌, ◌<◌, ◌≡◌, ◌≢◌, refl, sym, ap, ◌∙◌, arith, Bool, true, false, Option,
  none, some, ◌==◌, update, update-all, update-pairs, Bool-cases, inl, inr, ◌⊎◌, if◌then◌else◌,
  sum_over-update, sum_over-le, one_if-le,
}
use mathlib.Core.Path.{subst}
use autolock.Kernel.{KernelAutolock, autolock_init_kernel_state}
use autolock.Aepfl.{
  AepflLock, Pc, idle, init_page, set_mem, fault, Thread, Env, dispatch, goto, look, prepare, next,
  slot_of, History, note, System, aepfl_locked,
}
use autolock.Aepfl.Invariant.{
  Phase, out, trying, waiting, holding, clearing, setting, in_queue, owns, phase, phase_at, First,
  Rest, Local, LocalAt, Global, member, Inv, behind-Local, one_more-Local,
}

abbrev pub moved : System → ℕ → AepflLock → Thread → History → System
moved s i l t h = record { lock = l; threads = update s.threads i t; history = h }

abbrev pub at : Bool → Env → System → ℕ → Pc → System
at a e s i p =
    let (l, t) = dispatch a e p s.lock (s.threads i) in moved s i l t (note p i s.history)

pub phase_if :
    (b : Bool) (x y : Pc) (p : Phase) → phase x ≡ p → phase y ≡ p → phase (if b then x else y) ≡ p
phase_if true x y p d e = d
phase_if false x y p d e = e

owns-First :
    (l : AepflLock) (h : History) (p : Phase) (turn slot flag_mem : ℕ)
    → owns p ≡ true
    → Local l h p turn slot flag_mem
    → First h turn × (in_queue p ≡ true)
owns-First l h out turn slot flag_mem q o = absurd (ground arith)
owns-First l h trying turn slot flag_mem q o = absurd (ground arith)
owns-First l h waiting turn slot flag_mem q o = absurd (ground arith)
owns-First l h holding turn slot flag_mem q o = (o.0, refl)
owns-First l h clearing turn slot flag_mem q o = (o.0, refl)
owns-First l h setting turn slot flag_mem q o = (o.0, refl)

in_queue-lt :
    (l : AepflLock) (h : History) (p : Phase) (turn slot flag_mem : ℕ)
    → in_queue p ≡ true
    → Local l h p turn slot flag_mem
    → turn < h.issued
in_queue-lt l h out turn slot flag_mem q o = absurd (ground arith)
in_queue-lt l h trying turn slot flag_mem q o = absurd (ground arith)
in_queue-lt l h waiting turn slot flag_mem q o = o.1
in_queue-lt l h holding turn slot flag_mem q o = o.0.1
in_queue-lt l h clearing turn slot flag_mem q o = o.0.1
in_queue-lt l h setting turn slot flag_mem q o = o.0.1

module _ (n : ℕ) (s : System) (i : ℕ) (lt : i < n) (inv : Inv n s) where
  abbrev u : Thread
  u = s.threads i

  settle :
      (l : AepflLock) (t : Thread) (h : History)
      → Global l h
      → h.issued + s.history.served + member u ≡ s.history.issued + h.served + member t
      → LocalAt l h (h.turn i) t
      → ((j : ℕ) → (i == j) ≡ false → LocalAt l h (s.history.turn j) (s.threads j))
      → ((j : ℕ) → (i == j) ≡ false → h.turn j ≡ s.history.turn j)
      → ((j : ℕ)
          → (i == j) ≡ false
          → in_queue (phase t.pc) ≡ true
          → in_queue (phase_at s j) ≡ true
          → h.turn i ≢ s.history.turn j)
      → Inv n (moved s i l t h)
  settle l t h g counts own others same apart = record {
    global = g;
    members = omega (arith, sum_over-update member n s.threads i t lt, inv.members, counts);
    locals =
        update-all (λ j x. LocalAt l h (h.turn j) x) s.threads i t own
          (λ j e. rw (same j e) (others j e));
    turns =
        update-pairs
          (λ j x k y.
            in_queue (phase x.pc) ≡ true → in_queue (phase y.pc) ≡ true → h.turn j ≢ h.turn k)
          s.threads i t (λ j e p q z. apart j e p q (z ∙ same j e))
          (λ j e p q z. apart j e q p (sym z ∙ same j e))
          (λ j k d e ne p q z. inv.turns j k ne p q (sym (same j d) ∙ z ∙ same k e));
  }

  pub held :
      (p : Pc) → u.pc ≡ p → Local s.lock s.history (phase p) (s.history.turn i) u.slot u.flag_mem
  held p q =
      subst (λ x. Local s.lock s.history (phase x) (s.history.turn i) u.slot u.flag_mem) q
        (inv.locals i)

  queued : (p : Pc) → u.pc ≡ p → in_queue (phase p) ≡ true → in_queue (phase_at s i) ≡ true
  queued p q c = ap (λ x. in_queue (phase x)) q ∙ c

  -- A step of a thread in the queue that changes nothing but the thread.
  pub quiet :
      (t : Thread) (p : Pc)
      → u.pc ≡ p
      → in_queue (phase p) ≡ true
      → in_queue (phase t.pc) ≡ true
      → LocalAt s.lock s.history (s.history.turn i) t
      → Inv n (moved s i s.lock t s.history)
  quiet t p q before after own =
      settle s.lock t s.history inv.global (rw (q, before, after) refl) own (λ j e. inv.locals j)
        (λ j e. refl) (λ j e b c. inv.turns i j e (queued p q before) c)

  -- A step of the thread that is served, which stays so or serves the next.
  pub owner :
      (l : AepflLock) (t : Thread) (h : History) (p : Pc)
      → u.pc ≡ p
      → owns (phase p) ≡ true
      → Global l h
      → h.issued ≡ s.history.issued
      → ((j : ℕ) → h.turn j ≡ s.history.turn j)
      → ((h.served ≡ s.history.served) × (in_queue (phase t.pc) ≡ true))
        ⊎ ((h.served ≡ suc s.history.served) × (in_queue (phase t.pc) ≡ false) × Rest l h)
      → LocalAt l h (s.history.turn i) t
      → Inv n (moved s i l t h)
  owner l t h p q first g issued same ch own =
      settle l t h g (counts ch) (rw (same i) own)
        (λ j e.
          behind-Local s.lock l s.history h issued (change ch) (phase_at s j) (s.history.turn j)
            (s.threads j).slot (s.threads j).flag_mem
            (λ c z. inv.turns i j e (queued p q mine.1) c (mine.0.0 ∙ sym z)) (inv.locals j))
        (λ j e. same j) (λ j e b c. rw (same i) (inv.turns i j e (queued p q mine.1) c))
    where
      mine : First s.history (s.history.turn i) × (in_queue (phase p) ≡ true)
      mine =
          owns-First s.lock s.history (phase p) (s.history.turn i) u.slot u.flag_mem first
            (held p q)

      counts :
          ((h.served ≡ s.history.served) × (in_queue (phase t.pc) ≡ true))
            ⊎ ((h.served ≡ suc s.history.served) × (in_queue (phase t.pc) ≡ false) × Rest l h)
          → h.issued + s.history.served + member u ≡ s.history.issued + h.served + member t
      counts (inl (sv, c)) = rw (queued p q mine.1, c, issued, sv) refl
      counts (inr (sv, c, r)) = rw (queued p q mine.1, c, issued, sv) (omega arith)

      change :
          ((h.served ≡ s.history.served) × (in_queue (phase t.pc) ≡ true))
            ⊎ ((h.served ≡ suc s.history.served) × (in_queue (phase t.pc) ≡ false) × Rest l h)
          → (h.served ≡ s.history.served) ⊎ ((h.served ≡ suc s.history.served) × Rest l h)
      change (inl (sv, c)) = inl sv
      change (inr (sv, c, r)) = inr (sv, r)

  -- A thread waits, as before.
  pub wait-Inv :
      (p : Pc) (t : Thread)
      → u.pc ≡ p
      → phase p ≡ waiting
      → phase t.pc ≡ waiting
      → t.flag_mem ≡ u.flag_mem
      → Inv n (moved s i s.lock t s.history)
  wait-Inv p t q ph ph' f = quiet t p q (ap in_queue ph) (ap in_queue ph') (
      rw (ph', f)
        (subst (λ x. Local s.lock s.history x (s.history.turn i) u.slot u.flag_mem) ph (held p q)))

  -- A thread that has loaded its flag waits on, or has the lock.
  pub look-Inv :
      n ≤ 128
      → (p taken free : Pc) → u.pc ≡ p
      → phase p ≡ waiting
      → phase taken ≡ waiting
      → phase free ≡ holding
      → Inv n (moved s i s.lock (look taken free s.lock u) s.history)
  look-Inv few p taken free q ph pt pf =
      let (ge, less, f, rest) =
        subst (λ x. Local s.lock s.history x (s.history.turn i) u.slot u.flag_mem) ph (held p q) in
      let close : s.history.issued ≤ s.history.served + 128 =
        omega (arith, few, inv.members, sum_over-le member 1 (λ t. one_if-le _) n s.threads) in
      elim (Bool-cases (s.lock.flags u.flag_mem == aepfl_locked)) [
        | inl locked ↦ rw locked (wait-Inv p (goto u taken) q ph pt refl)
        | inr open_flag ↦
            let is = its_turn ge less close f (inv.global.flags u.flag_mem) open_flag in
            rw open_flag (
              quiet (goto u free) p q (ap in_queue ph) (ap in_queue pf)
                (rw pf ((is, less), rest is)))
      ]
    where
      its_turn :
          {turn served issued c v : ℕ}
          → served ≤ turn
          → turn < issued
          → issued ≤ served + 128
          → c ≡ slot_of turn
          → (v ≡ 0) ⊎ ((v ≡ 1) × (c ≡ slot_of served))
          → (v == 0) ≡ false
          → turn ≡ served
      its_turn a b k f (inl z) w = absurd (ground (arith, z, w))
      its_turn a b k f (inr (one, z)) w = omega (arith, a, b, k, f, z)

  pub init_page-Inv : (a : Bool) (e : Env) → u.pc ≡ init_page → Inv n (at a e s i init_page)
  unfolding dispatch note
  init_page-Inv a e q = by_result (autolock_init_kernel_state e.sys u.kernel)
    where
      by_result : (r : Option KernelAutolock) → Inv n (moved s i s.lock (prepare r u) s.history)
      by_result none = wait-Inv init_page (goto u fault) q refl refl refl
      by_result (some x) =
          wait-Inv init_page (record u { kernel = some x; pc = set_mem }) q refl refl refl

  pub idle-Inv : (a : Bool) (e : Env) → e.tries ≡ false → u.pc ≡ idle → Inv n (at a e s i idle)
  unfolding dispatch note
  idle-Inv a e locks q = rw locks (
      settle _ _ (note idle i s.history)
        (record {
          tail = following s.history.issued inv.global.tail;
          rest = λ z. absurd (omega (arith, z, inv.members));
          flags = inv.global.flags;
        })
        (rw q (omega arith))
        (rw (==_same i) (
          omega (arith, inv.members),
          omega arith,
          place s.history.issued inv.global.tail,
          λ z. inv.global.rest (sym z),
        ))
        (λ j e.
          one_more-Local s.lock s.history (update s.history.turn i s.history.issued)
            (next s.lock.tail) (phase_at s j) (s.history.turn j) (s.threads j).slot
            (s.threads j).flag_mem (inv.locals j))
        (λ j e. rw e refl)
        (λ j e b c. rw (==_same i) (λ z. absurd (
          omega (
            arith,
            z,
            in_queue-lt s.lock s.history (phase_at s j) (s.history.turn j) (s.threads j).slot
                (s.threads j).flag_mem c (inv.locals j),
          )))))
    where
      ==_same : (k : ℕ) → (k == k) ≡ true
      ==_same k = ground arith

      following : (issued : ℕ) {tail : ℕ} → tail ≡ issued % 2 ^ 32 → next tail ≡ suc issued % 2 ^ 32
      following issued e = omega (arith, e)

      place : (issued : ℕ) {tail : ℕ} → tail ≡ issued % 2 ^ 32 → slot_of tail ≡ slot_of issued
      place issued e = omega (arith, e)
