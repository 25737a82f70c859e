-- ===== src/Cptltkt/Moves.antt =====
-- The steps of the thread that its socket has granted, in `lock` and in `unlock`.
use autolock.Base.{
  ℕ, suc, ◌-◌, ◌%◌, ◌^◌, ◌<◌, ◌≡◌, refl, sym, ap, ◌∙◌, arith, Bool, true, false, some, ◌==◌, update,
  Bool-cases, inl, inr, if◌then◌else◌,
}
use mathlib.Core.Path.{subst}
use autolock.Cptltkt.{
  CpuTkl, Layout, Thread, Pc, Env, idle, take_socket, disarm_socket, own, critical, load_requests,
  pass_socket, pass_grant, release_global, release_local, dispatch, goto, on_socket, next, leave,
}
use autolock.Cptltkt.System.{System, note}
use autolock.Cptltkt.Invariant.{
  Phase, holding, in_queue, phase, phase_at, owns, view, Rest, First, LocalAt, Inv,
}
use autolock.Cptltkt.Steps.{moved, held, quiet, owner, ==_refl}

abbrev pub at : Bool → Layout → Env → System → ℕ → Pc → System
at a w e s i p =
    let (l, t) = dispatch a w e p s.lock (s.threads i) in
    moved s i l t (note p i e.socket (s.threads i) s.history)

pub phase_if :
    (a : Bool) (x y : Pc) (p : Phase) → phase x ≡ p → phase y ≡ p → phase (if a then x else y) ≡ p
phase_if true x y p d e = d
phase_if false x y p d e = e

module _ (a : Bool) (w : Layout) (e : Env) (n : ℕ) (s : System) (i : ℕ) (lt : i < n)
    (inv : Inv n w.num_numa_nodes s) where
  abbrev u : Thread
  u = s.threads i

  abbrev k : ℕ
  k = u.local_lock

  queued : (p : Pc) → u.pc ≡ p → in_queue (phase p) ≡ true → in_queue (phase_at s i) ≡ true
  queued p q c = ap (λ x. in_queue (phase x)) q ∙ c

  -- A step that changes the lock of its own socket alone.
  at_socket :
      (f : CpuTkl → CpuTkl) (t : Thread) (p : Pc)
      → u.pc ≡ p
      → owns (phase p) ≡ true
      → (let c = s.lock.per_socket_lock k in
          ((f c).grant ≡ c.grant) × ((f c).requests ≡ c.requests))
      → (s.history.granted k ≡ s.history.asked k → ⊥)
      → in_queue (phase t.pc) ≡ true
      → t.local_lock ≡ k
      → LocalAt (on_socket k f s.lock) s.history (s.history.turn i) t
      → Inv n w.num_numa_nodes (moved s i (on_socket k f s.lock) t s.history)
  at_socket f t p q first (g, r) busy stays place o =
      owner n w.num_numa_nodes s i lt inv (on_socket k f s.lock) t s.history p q first
        (λ x ne. rw ne refl) (inl (refl, refl)) refl (λ j. refl)
        (record {
          grant = rw (==_refl k) (g ∙ (inv.sockets k).grant);
          requests = rw (==_refl k) (r ∙ (inv.sockets k).requests);
          rest = λ z. absurd (busy z);
        })
        (inl (refl, stays)) inv.queue place o

  pub take-Inv : u.pc ≡ take_socket → Inv n w.num_numa_nodes (at a w e s i take_socket)
  unfolding dispatch note
  take-Inv q =
      let (f, (g, o)) = held n w.num_numa_nodes s i lt inv take_socket q in
      at_socket (λ c. record c { socket_grant = 0 })
        (goto u (if a then disarm_socket else critical)) take_socket q refl (refl, refl)
        (λ z. omega (arith, f.0, f.1, z))
        (ap in_queue (phase_if a disarm_socket critical holding refl refl)) refl
        (rw (phase_if a disarm_socket critical holding refl refl, ==_refl k) (f, refl, o))

  pub pass-Inv : u.pc ≡ pass_socket → Inv n w.num_numa_nodes (at a w e s i pass_socket)
  unfolding dispatch note
  pass-Inv q =
      let (f, m, g, o) = held n w.num_numa_nodes s i lt inv pass_socket q in
      at_socket (λ c. record c { socket_grant = 1 }) (goto u pass_grant) pass_socket q refl
        (refl, refl) (λ z. omega (arith, f.0, f.1, z)) refl refl (rw (==_refl k) (f, m, (refl, o)))

  batch-Inv :
      (b : ℕ) (p : Pc)
      → u.pc ≡ load_requests
      → phase p ≡ phase load_requests
      → Inv n w.num_numa_nodes
          (moved s i (on_socket k (λ d. record d { batch_count = b }) s.lock) (goto u p) s.history)
  batch-Inv b p q ph =
      let (f, m, g, o) = held n w.num_numa_nodes s i lt inv load_requests q in
      at_socket (λ d. record d { batch_count = b }) (goto u p) load_requests q refl (refl, refl)
        (λ z. omega (arith, f.0, f.1, z)) (ap in_queue ph) refl (rw (ph, ==_refl k) (f, m, g, o))

  pub load-Inv : u.pc ≡ load_requests → Inv n w.num_numa_nodes (at a w e s i load_requests)
  unfolding dispatch note
  load-Inv q =
      let c = s.lock.per_socket_lock k in
      elim (Bool-cases (c.requests == u.next_grant)) [
        | inl alone ↦ rw alone (stay q)
        | inr more ↦ elim (Bool-cases (c.batch_count == 0)) [
          | inl spent ↦ rw (more, spent) (batch-Inv 100 release_global q refl)
          | inr left ↦ rw (more, left) (batch-Inv (c.batch_count - 1) pass_socket q refl)
        ]
      ]
    where
      stay :
          u.pc ≡ load_requests
          → Inv n w.num_numa_nodes (moved s i s.lock (goto u release_global) s.history)
      stay q =
          quiet n w.num_numa_nodes s i lt inv (goto u release_global) (queued load_requests q refl)
            refl refl (held n w.num_numa_nodes s i lt inv load_requests q)

  pub disarm_socket-Inv : u.pc ≡ disarm_socket → Inv n w.num_numa_nodes (at a w e s i disarm_socket)
  unfolding dispatch note
  disarm_socket-Inv q =
      quiet n w.num_numa_nodes s i lt inv _ (queued disarm_socket q refl) refl refl
        (held n w.num_numa_nodes s i lt inv disarm_socket q)

  pub critical-Inv : u.pc ≡ critical → Inv n w.num_numa_nodes (at a w e s i critical)
  unfolding dispatch note
  critical-Inv q =
      let (f, g, o) = held n w.num_numa_nodes s i lt inv critical q in
      let t = record u { next_grant = next (s.lock.per_socket_lock k).grant; pc = load_requests } in
      subst (λ x. Inv n w.num_numa_nodes (moved s i s.lock (leave x s.lock u) s.history)) (sym o.2)
        (quiet n w.num_numa_nodes s i lt inv t (queued critical q refl) refl refl
          (f, following f.0 (inv.sockets k).grant, g, o))
    where
      following :
          {turn granted grant : ℕ}
          → turn ≡ granted
          → grant ≡ granted % 2 ^ 32
          → next grant ≡ suc turn % 2 ^ 32
      following d f = omega (arith, d, f)

  pub own-Inv : u.pc ≡ own → Inv n w.num_numa_nodes (at a w e s i own)
  unfolding dispatch note
  own-Inv q =
      let (f, g, c, r, is) = held n w.num_numa_nodes s i lt inv own q in
      let l = record (on_socket k (λ c. record c { owner_req_num = u.req_num }) s.lock) {
        cur_psl = some k;
      } in
      owner n w.num_numa_nodes s i lt inv l (goto u critical) s.history own q refl
        (λ x ne. rw ne refl) (inr (c, is)) refl (λ j. refl)
        (record {
          grant = rw (==_refl k) (inv.sockets k).grant;
          requests = rw (==_refl k) (inv.sockets k).requests;
          rest = λ z. absurd (omega (arith, f.0, f.1, z));
        })
        (inl (refl, refl)) inv.queue refl (rw (==_refl k) (f, g, (c, is, refl, r)))

  -- The next number of its socket is granted.
  grant_next :
      (p : Pc)
      → u.pc ≡ p
      → owns (phase p) ≡ true
      → First (view s.lock s.history k) (s.history.turn i)
      → u.next_grant ≡ suc (s.history.turn i) % 2 ^ 32
      → Rest (view s.lock s.history k) k
      → Inv n w.num_numa_nodes (
          moved s i
            (on_socket k (λ c. record c { grant = u.next_grant }) s.lock)
            (goto u idle)
            (record s.history { granted = update s.history.granted k (suc (s.history.granted k)) }))
  grant_next p q first f m r =
      let h = record s.history {
        granted = update s.history.granted k (suc (s.history.granted k));
      } in
      let l = on_socket k (λ c. record c { grant = u.next_grant }) s.lock in
      owner n w.num_numa_nodes s i lt inv l (goto u idle) h p q first (λ x ne. rw ne refl)
        (inl (refl, refl)) refl (λ j. refl)
        (record {
          grant = rw (==_refl k) (m ∙ ap (λ x. suc x % 2 ^ 32) f.0);
          requests = rw (==_refl k) (inv.sockets k).requests;
          rest = λ z. rw (==_refl k) r;
        })
        (inr (rw (==_refl k) refl, refl, rw (==_refl k) r))
        (record {
          request = inv.queue.request;
          line = inv.queue.line;
          apart = inv.queue.apart;
          length = inv.queue.length;
          slots = inv.queue.slots;
        })
        refl tt

  pub grant-Inv : u.pc ≡ pass_grant → Inv n w.num_numa_nodes (at a w e s i pass_grant)
  unfolding dispatch note
  grant-Inv q =
      let (f, m, o) = held n w.num_numa_nodes s i lt inv pass_grant q in
      grant_next pass_grant q refl f m (inr o)

  pub release-Inv : u.pc ≡ release_local → Inv n w.num_numa_nodes (at a w e s i release_local)
  unfolding dispatch note
  release-Inv q =
      let (f, m, o) = held n w.num_numa_nodes s i lt inv release_local q in
      grant_next release_local q refl f m (inl o)
