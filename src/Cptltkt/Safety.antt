-- ===== src/Cptltkt/Safety.antt =====
-- Every reachable state of the lock of Cptltkt.antt satisfies the invariant, and what follows from it.
use autolock.Base.{
  one_if, ◌⊎◌, ℕ, ◌*◌, ◌%◌, ◌^◌, ◌≤◌, ◌<◌, ◌≡◌, refl, sym, ap, ◌∙◌, arith, Bool, true, false, some,
  ◌==◌, ==_iff, Bool-cases, inl, inr, sum_over-eq-zero,
}
use mathlib.Core.Path.{subst}
use native.Mathlib.Nat.{zero-mod}
use autolock.Cptltkt.{
  Layout, Pc, idle, init_page, set_for, set_neq, set_mem, pausing, yielding, check_socket,
  take_socket, disarm_socket, request_global, global_for, global_neq, global_mem, yielding_global,
  disarm_global, own, critical, load_requests, pass_socket, pass_grant, release_global,
  release_local, fault, Thread, Env, dispatch,
}
use autolock.Cptltkt.System.{System, note, Start, Reach, start, later}
use autolock.Cptltkt.Slots.{Holds}
use autolock.Cptltkt.Invariant.{
  Phase, out, waiting, arrived, taking, asking, lined, granted, holding, leaving, passed, released,
  in_queue, phase, phase_at, View, view, Local, member, Inv,
}
use autolock.Cptltkt.Steps.{moved, held, quiet}
use autolock.Cptltkt.Moves.{
  at, take-Inv, pass-Inv, load-Inv, disarm_socket-Inv, critical-Inv, own-Inv, grant-Inv,
  release-Inv,
}
use autolock.Cptltkt.Line.{request-Inv, yielding_global-Inv, release_global-Inv}
use autolock.Cptltkt.Entering.{
  idle-Inv, init_page-Inv, wait-Inv, pausing-Inv, yielding-Inv, check-Inv,
}

module _ (a : Bool) (w : Layout) (e : Env) (n : ℕ) (s : System) (i : ℕ) (lt : i < n)
    (few : n ≤ 2 ^ 32) (pos : 0 < w.num_numa_nodes) (small : 3 * w.num_numa_nodes ≤ 2 ^ 32)
    (place : e.socket < w.num_numa_nodes) (inv : Inv n w.num_numa_nodes s) where
  -- A step that sets the page of a thread in the line.
  lined-Inv :
      (p : Pc) (t : Thread)
      → (s.threads i).pc ≡ p
      → phase p ≡ lined
      → phase t.pc ≡ lined
      → t.local_lock ≡ (s.threads i).local_lock
      → t.req_num ≡ (s.threads i).req_num
      → Inv n w.num_numa_nodes (moved s i s.lock t s.history)
  lined-Inv p t q ph ph' pl r =
      let u = s.threads i in
      let o =
        subst
          (λ x.
            Local (view s.lock s.history u.local_lock) u.local_lock x (s.history.turn i) u.req_num
              u.next_grant)
          ph (held n w.num_numa_nodes s i lt inv p q) in
      quiet n w.num_numa_nodes s i lt inv t (ap (λ x. in_queue (phase x)) q ∙ ap in_queue ph)
        (ap in_queue ph') pl (rw (ph', pl, r) o)

  step-Inv : (p : Pc) → (s.threads i).pc ≡ p → Inv n w.num_numa_nodes (at a w e s i p)
  unfolding dispatch note
  step-Inv idle q = idle-Inv a w e n s i lt inv place q
  step-Inv init_page q = init_page-Inv a w e n s i lt inv q
  step-Inv set_for q = wait-Inv a w e n s i lt inv set_for _ set_neq q refl refl
  step-Inv set_neq q = wait-Inv a w e n s i lt inv set_neq _ set_mem q refl refl
  step-Inv set_mem q = wait-Inv a w e n s i lt inv set_mem _ pausing q refl refl
  step-Inv pausing q = pausing-Inv a w e n s i lt inv few q
  step-Inv yielding q = yielding-Inv a w e n s i lt inv few q
  step-Inv check_socket q = check-Inv a w e n s i lt inv q
  step-Inv take_socket q = take-Inv a w e n s i lt inv q
  step-Inv disarm_socket q = disarm_socket-Inv a w e n s i lt inv q
  step-Inv request_global q = request-Inv a w e n s i lt inv q
  step-Inv global_for q = lined-Inv global_for _ q refl refl refl refl
  step-Inv global_neq q = lined-Inv global_neq _ q refl refl refl refl
  step-Inv global_mem q = lined-Inv global_mem _ q refl refl refl refl
  step-Inv yielding_global q = yielding_global-Inv a w e n s i lt inv pos small q
  step-Inv disarm_global q =
      quiet n w.num_numa_nodes s i lt inv _ (ap (λ x. in_queue (phase x)) q) refl refl
        (held n w.num_numa_nodes s i lt inv disarm_global q)
  step-Inv own q = own-Inv a w e n s i lt inv q
  step-Inv critical q = critical-Inv a w e n s i lt inv q
  step-Inv load_requests q = load-Inv a w e n s i lt inv q
  step-Inv pass_socket q = pass-Inv a w e n s i lt inv q
  step-Inv pass_grant q = grant-Inv a w e n s i lt inv q
  step-Inv release_global q = release_global-Inv a w e n s i lt inv q
  step-Inv release_local q = release-Inv a w e n s i lt inv q
  step-Inv fault q = wait-Inv a w e n s i lt inv fault _ fault q refl refl

start-Inv : (n m : ℕ) {s : System} → Start s → Inv n m s
start-Inv n m {s} st = record {
  sockets = λ k. record {
    grant =
        ap (λ l. (l.per_socket_lock k).grant) st.lock ∙ ap (λ x. x % 2 ^ 32) (sym (st.granted k));
    requests =
        ap (λ l. (l.per_socket_lock k).requests) st.lock ∙ ap (λ x. x % 2 ^ 32) (sym (st.asked k));
    rest = λ _. inl (ap (λ l. (l.per_socket_lock k).socket_grant) st.lock, st.queued k);
  };
  queue = record {
    request = ap (λ l. l.inter_socket_lock.request) st.lock ∙ ap (λ x. x % 2 ^ 32) (sym st.issued);
    line = λ k p. absurd (never (sym (st.queued k) ∙ p));
    apart = λ j k p. absurd (never (sym (st.queued j) ∙ p));
    length = omega (
      arith,
      st.served,
      st.issued,
      sum_over-eq-zero one_if m s.history.queued (λ k. ap one_if (st.queued k)),
    );
    slots = λ c. rw (ap (λ l. l.inter_socket_lock.grants c) st.lock) (slot_at c);
  };
  members = λ k. omega (
    arith,
    st.granted k,
    st.asked k,
    sum_over-eq-zero (member k) n s.threads (λ i. rw (st.pc i) refl),
  );
  locals = λ i. rw (st.pc i) tt;
  places = λ i p. absurd (never (sym (ap (λ x. in_queue (phase x)) (st.pc i)) ∙ p));
  turns = λ i j ne p. absurd (never (sym (ap (λ x. in_queue (phase x)) (st.pc i)) ∙ p));
}
  where
    never : false ≡ true → ⊥
    never z = ground arith

    slot_at : (c : ℕ) → Holds m s.history.served c 0
    slot_at c = elim (Bool-cases (0 == c)) [
      | inl is ↦ inr (
        0,
        omega arith,
        refl,
        zero-mod m ∙ (==_iff 0 c).0 is,
        λ k x y. absurd (omega (arith, x, y, st.served)),
      )
      | inr not ↦ inl (λ z. differs not (sym (zero-mod m) ∙ z))
    ]
      where
        differs : (0 == c) ≡ false → 0 ≡ c → ⊥
        differs b d = ground (arith, b, d)

Reach-Inv :
    {a : Bool} {w : Layout} {n : ℕ} {s : System}
    → n ≤ 2 ^ 32
    → 0 < w.num_numa_nodes
    → 3 * w.num_numa_nodes ≤ 2 ^ 32
    → Reach a w n s
    → Inv n w.num_numa_nodes s
Reach-Inv {a} {w} {n} few pos small (start st) = start-Inv n w.num_numa_nodes st
Reach-Inv {a} {w} {n} few pos small (later {s} i e lt place r) =
    step-Inv a w e n s i lt few pos small place (Reach-Inv few pos small r) (s.threads i).pc refl

-- Whether a thread has the lock: from where it sees that its socket or its number has it, to the
-- store by which `unlock` gives it away.
abbrev pub has_it : Phase → Bool
has_it taking = true
has_it granted = true
has_it holding = true
has_it leaving = true
has_it passed = true
has_it p = false

served-of :
    (v : View) (k : ℕ) (p : Phase) (turn req next : ℕ)
    → has_it p ≡ true
    → Local v k p turn req next
    → (turn ≡ v.granted) × (v.queued ≡ true) × (v.number ≡ v.served) × (in_queue p ≡ true)
served-of v k out turn req next q o = absurd (ground arith)
served-of v k waiting turn req next q o = absurd (ground arith)
served-of v k arrived turn req next q o = absurd (ground arith)
served-of v k asking turn req next q o = absurd (ground arith)
served-of v k lined turn req next q o = absurd (ground arith)
served-of v k released turn req next q o = absurd (ground arith)
served-of v k taking turn req next q (f, (g, o)) = (f.0, o.0, o.1, refl)
served-of v k granted turn req next q (f, g, c, r, is) = (f.0, c, is, refl)
served-of v k holding turn req next q (f, g, o) = (f.0, o.0, o.1, refl)
served-of v k leaving turn req next q (f, x, g, o) = (f.0, o.0, o.1, refl)
served-of v k passed turn req next q (f, x, (g, o)) = (f.0, o.0, o.1, refl)

cur_psl-of :
    (v : View) (k : ℕ) (p : Phase) (turn req next : ℕ)
    → has_it p ≡ true
    → Local v k p turn req next
    → (v.cur ≡ some k) ⊎ (p ≡ granted)
cur_psl-of v k out turn req next q o = absurd (ground arith)
cur_psl-of v k waiting turn req next q o = absurd (ground arith)
cur_psl-of v k arrived turn req next q o = absurd (ground arith)
cur_psl-of v k asking turn req next q o = absurd (ground arith)
cur_psl-of v k lined turn req next q o = absurd (ground arith)
cur_psl-of v k released turn req next q o = absurd (ground arith)
cur_psl-of v k taking turn req next q (f, (g, o)) = inl o.2
cur_psl-of v k granted turn req next q o = inr refl
cur_psl-of v k holding turn req next q (f, g, o) = inl o.2
cur_psl-of v k leaving turn req next q (f, x, g, o) = inl o.2
cur_psl-of v k passed turn req next q (f, x, (g, o)) = inl o.2

-- In every reachable state of at most 2^32 threads on a machine of at least one and at most 2^32 / 3
-- sockets, with and without autolock, in every interleaving and also where the 32-bit numbers wrap
-- around: two threads that have the lock are one thread; it is the one whose number its socket has
-- granted, on the socket whose number in the line between the sockets is served; and `cur_psl` is
-- that socket, unless the thread is still in `lock` and has yet to set it.
pub cptltkt_safe :
    {a : Bool} {w : Layout} {n : ℕ} {s : System} (i j : ℕ)
    → n ≤ 2 ^ 32
    → 0 < w.num_numa_nodes
    → 3 * w.num_numa_nodes ≤ 2 ^ 32
    → Reach a w n s
    → has_it (phase_at s i) ≡ true
    → has_it (phase_at s j) ≡ true
    → (let k = (s.threads i).local_lock in
        (i ≡ j)
        × (s.history.turn i ≡ s.history.granted k)
        × (s.history.number k ≡ s.history.served)
        × ((s.lock.cur_psl ≡ some k) ⊎ (phase_at s i ≡ granted)))
cptltkt_safe {a} {w} {n} {s} i j few pos small r p q =
    let inv = Reach-Inv few pos small r in
    let t = s.threads i in
    let u = s.threads j in
    let (ti, ci, ni, ii) =
      served-of (view s.lock s.history t.local_lock) t.local_lock (phase t.pc) (s.history.turn i)
        t.req_num t.next_grant p (inv.locals i) in
    let (tj, cj, nj, ij) =
      served-of (view s.lock s.history u.local_lock) u.local_lock (phase u.pc) (s.history.turn j)
        u.req_num u.next_grant q (inv.locals j) in
    let same = inv.queue.apart t.local_lock u.local_lock ci cj (ni ∙ sym nj) in
    (
      elim (Bool-cases (i == j)) [
        | inl e ↦ (==_iff i j).0 e
        | inr e ↦ absurd (inv.turns i j e ii ij same (ti ∙ ap s.history.granted same ∙ sym tj))
      ],
      ti,
      ni,
      cur_psl-of (view s.lock s.history t.local_lock) t.local_lock (phase t.pc) (s.history.turn i)
          t.req_num t.next_grant p (inv.locals i),
    )
