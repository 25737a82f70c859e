-- ===== src/Aepfl/Safety.antt =====
-- Every reachable state of the array lock satisfies the invariant, and what follows from it.
use autolock.Base.{
  ℕ, suc, ◌+◌, ◌-◌, ◌%◌, ◌^◌, ◌≤◌, ◌<◌, ◌≡◌, refl, sym, ap, ◌∙◌, ◌⊎◌, inl, inr, arith, Bool, true,
  false, ◌==◌, ==_iff, leb, update, update-all, if◌then◌else◌, Bool-cases, sum_over-eq-zero,
}
use mathlib.Core.Path.{subst}
use autolock.Aepfl.{
  AepflLock, Pc, idle, try_load, try_exchange, check, init_page, set_mem, set_for, set_neq,
  load_head, pause_near, pause_once, yielding, disarm, critical, store_locked, store_unlocked,
  fault, Thread, Env, dispatch, goto, has_lock, next, slot_of, get_next_slot, History, note, System,
  Start, Reach, start, later, aepfl_locked, aepfl_unlocked, pause_bound,
}
use autolock.Aepfl.Invariant.{
  Phase, out, trying, waiting, holding, clearing, setting, in_queue, phase, phase_at, Local, member,
  Inv,
}
use autolock.Aepfl.Steps.{
  at, phase_if, held, quiet, owner, wait-Inv, look-Inv, init_page-Inv, idle-Inv,
}

module _ (a : Bool) (e : Env) (n : ℕ) (s : System) (i : ℕ) (lt : i < n) (few : n ≤ 128)
    (locks : e.tries ≡ false) (inv : Inv n s) where
  abbrev u : Thread
  u = s.threads i

  unlock-Inv : u.pc ≡ critical → Inv n (at a e s i critical)
  unfolding dispatch note
  unlock-Inv q =
      let (f, r) = held n s i lt inv critical q in
      owner n s i lt inv (record s.lock { head = next s.lock.head })
        (record u { slot = slot_of s.lock.head; pc = store_locked }) s.history critical q refl
        (record {
          tail = inv.global.tail;
          rest = λ z. absurd (omega (arith, f.0, f.1, z));
          flags = inv.global.flags;
        })
        refl (λ j. refl) (inl (refl, refl)) (f, omega (arith, r), omega (arith, r))

  -- No flag is set any more.
  clear-Inv : u.pc ≡ store_locked → Inv n (at a e s i store_locked)
  unfolding dispatch note
  clear-Inv q =
      let (f, sl, r) = held n s i lt inv store_locked q in
      owner n s i lt inv (record s.lock { flags = update s.lock.flags u.slot aepfl_locked })
        (record u { slot = get_next_slot u.slot; pc = store_unlocked }) s.history store_locked q
        refl
        (record {
          tail = inv.global.tail;
          rest = λ z. absurd (omega (arith, f.0, f.1, z));
          flags = λ c. inl (cleared sl c);
        })
        refl (λ j. refl) (inl (refl, refl)) (f, omega (arith, sl), r, cleared sl)
    where
      cleared :
          u.slot ≡ slot_of s.history.served
          → (c : ℕ) → update s.lock.flags u.slot aepfl_locked c ≡ 0
      cleared sl =
          update-all (λ c v. v ≡ 0) s.lock.flags u.slot aepfl_locked refl
            (λ c ne. other c ne (inv.global.flags c))
        where
          other :
              (c : ℕ)
              → (u.slot == c) ≡ false
              → (s.lock.flags c ≡ 0) ⊎ ((s.lock.flags c ≡ 1) × (c ≡ slot_of s.history.served))
              → s.lock.flags c ≡ 0
          other c ne (inl z) = z
          other c ne (inr (one, z)) = absurd (ground (arith, ne, sl ∙ sym z))

  set-Inv : u.pc ≡ store_unlocked → Inv n (at a e s i store_unlocked)
  unfolding dispatch note
  set-Inv q =
      let (f, sl, r, none_set) = held n s i lt inv store_unlocked q in
      owner n s i lt inv (record s.lock { flags = update s.lock.flags u.slot aepfl_unlocked })
        (goto u idle) (record s.history { served = suc s.history.served }) store_unlocked q refl
        (record {
          tail = inv.global.tail;
          rest = λ z. r;
          flags =
              update-all (λ c v. (v ≡ 0) ⊎ ((v ≡ 1) × (c ≡ slot_of (suc s.history.served))))
                s.lock.flags u.slot aepfl_unlocked (inr (refl, sl)) (λ c ne. inl (none_set c));
        })
        refl (λ j. refl) (inr (refl, refl, r)) tt

  never : (p : Pc) → u.pc ≡ p → phase p ≡ trying → ⊥
  never p q ph =
      subst (λ x. Local s.lock s.history x (s.history.turn i) u.slot u.flag_mem) ph
        (held n s i lt inv p q)

  step-Inv : (p : Pc) → u.pc ≡ p → Inv n (at a e s i p)
  unfolding dispatch note
  step-Inv idle q = idle-Inv n s i lt inv a e locks q
  step-Inv try_load q = absurd (never try_load q refl)
  step-Inv try_exchange q = absurd (never try_exchange q refl)
  step-Inv check q =
      look-Inv n s i lt inv few check (if a then init_page else load_head) critical q refl
        (phase_if a init_page load_head waiting refl refl) refl
  step-Inv init_page q = init_page-Inv n s i lt inv a e q
  step-Inv set_mem q = wait-Inv n s i lt inv set_mem _ q refl refl refl
  step-Inv set_for q = wait-Inv n s i lt inv set_for _ q refl refl refl
  step-Inv set_neq q = wait-Inv n s i lt inv set_neq _ q refl refl refl
  step-Inv load_head q =
      wait-Inv n s i lt inv load_head _ q refl
        (phase_if (leb ((u.slot + 2 ^ 32 - s.lock.head) % 2 ^ 32) pause_bound) pause_near pause_once
          waiting refl refl)
        refl
  step-Inv pause_near q =
      look-Inv n s i lt inv few pause_near pause_near (has_lock a) q refl refl
        (phase_if a disarm critical holding refl refl)
  step-Inv pause_once q =
      look-Inv n s i lt inv few pause_once yielding (has_lock a) q refl refl
        (phase_if a disarm critical holding refl refl)
  step-Inv yielding q =
      look-Inv n s i lt inv few yielding yielding (has_lock a) q refl refl
        (phase_if a disarm critical holding refl refl)
  step-Inv disarm q = quiet n s i lt inv _ disarm q refl refl (held n s i lt inv disarm q)
  step-Inv critical q = unlock-Inv q
  step-Inv store_locked q = clear-Inv q
  step-Inv store_unlocked q = set-Inv q
  step-Inv fault q = wait-Inv n s i lt inv fault _ q refl refl refl

start-Inv : (n : ℕ) {s : System} → Start s → Inv n s
start-Inv n {s} st = record {
  global = record {
    tail = omega (arith, st.tail, st.issued);
    rest = λ _. omega (arith, st.head, st.served);
    flags = λ c. flag c (Bool-cases (c == 0));
  };
  members =
      omega
        (arith, st.issued, st.served, sum_over-eq-zero member n s.threads (λ i. rw (st.pc i) refl));
  locals = λ i. rw (st.pc i) tt;
  turns = λ i j ne p. absurd (no_turn (sym (ap (λ x. in_queue (phase x)) (st.pc i)) ∙ p));
}
  where
    no_turn : false ≡ true → ⊥
    no_turn z = ground arith

    flag :
        (c : ℕ)
        → (c == 0) ≡ true ⊎ (c == 0) ≡ false
        → (s.lock.flags c ≡ 0) ⊎ ((s.lock.flags c ≡ 1) × (c ≡ slot_of s.history.served))
    flag c (inl z) = inr (rw (st.flags c, z) refl, omega (arith, (==_iff c 0).0 z, st.served))
    flag c (inr z) = inl (rw (st.flags c, z) refl)

Reach-Inv : {a : Bool} {n : ℕ} {s : System} → n ≤ 128 → Reach a n s → Inv n s
Reach-Inv {a} {n} few (start st) = start-Inv n st
Reach-Inv {a} {n} few (later {s} i e lt locks r) =
    step-Inv a e n s i lt few locks (Reach-Inv few r) (s.threads i).pc refl

-- Whether a thread has the lock: from the load that sees its flag unlocked to the store by which
-- `unlock` sets the next flag.
abbrev pub has_it : Phase → Bool
has_it holding = true
has_it clearing = true
has_it setting = true
has_it p = false

served-of :
    (l : AepflLock) (h : History) (p : Phase) (turn slot flag_mem : ℕ)
    → has_it p ≡ true
    → Local l h p turn slot flag_mem
    → (turn ≡ h.served) × (in_queue p ≡ true)
served-of l h out turn slot flag_mem q o = absurd (ground arith)
served-of l h trying turn slot flag_mem q o = absurd (ground arith)
served-of l h waiting turn slot flag_mem q o = absurd (ground arith)
served-of l h holding turn slot flag_mem q o = (o.0.0, refl)
served-of l h clearing turn slot flag_mem q o = (o.0.0, refl)
served-of l h setting turn slot flag_mem q o = (o.0.0, refl)

-- In every reachable state of at most 128 threads that call `lock` and `unlock`, with and without
-- autolock, in every interleaving and also where the counters wrap around: two threads that have the
-- lock are one thread, and it is the one whose call of `lock` came first of those that are not over.
pub aepfl_safe :
    {a : Bool} {n : ℕ} {s : System} (i j : ℕ)
    → n ≤ 128
    → Reach a n s
    → has_it (phase_at s i) ≡ true
    → has_it (phase_at s j) ≡ true
    → (i ≡ j) × (s.history.turn i ≡ s.history.served)
aepfl_safe {s = s} i j few r p q =
    let inv = Reach-Inv few r in
    let (ti, ii) =
      served-of s.lock s.history (phase_at s i) (s.history.turn i) (s.threads i).slot
        (s.threads i).flag_mem p (inv.locals i) in
    let (tj, ij) =
      served-of s.lock s.history (phase_at s j) (s.history.turn j) (s.threads j).slot
        (s.threads j).flag_mem q (inv.locals j) in
    (
      elim (Bool-cases (i == j)) [
        | inl e ↦ (==_iff i j).0 e
        | inr e ↦ absurd (inv.turns i j e ii ij (ti ∙ sym tj))
      ],
      ti,
    )

-- Three steps of a thread.
abbrev pub three_steps : Bool → Env → AepflLock → Thread → AepflLock × Thread
three_steps a e l t =
    let r = dispatch a e t.pc l t in
    let q = dispatch a e r.1.pc r.0 r.1 in dispatch a e q.1.pc q.0 q.1

-- A thread that calls `trylock` and is not disturbed has the lock after three steps, if the weak
-- exchange does not fail without a reason, in every state of the lock, whoever has it: only `tail`
-- changes, as by a call of `lock`.
pub trylock_takes_held :
    (a : Bool) (e : Env) (l : AepflLock) (t : Thread)
    → e.tries ≡ true
    → e.spurious ≡ false
    → t.pc ≡ idle
    → (let (m, u) = three_steps a e l t in
        (u.pc ≡ critical) × (m ≡ record l { tail = next l.tail }))
unfolding dispatch
trylock_takes_held a e l t tries exchange q =
    rw (q, tries, same l.tail, exchange, same l.tail) (refl, refl)
  where
    same : (k : ℕ) → (k == k) ≡ true
    same k = ground arith
