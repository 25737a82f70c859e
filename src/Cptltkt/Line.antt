-- ===== src/Cptltkt/Line.antt =====
-- The steps of a thread on the lock between the sockets: it joins the line, sees that its number is
-- served, and serves the next.
use autolock.Base.{
  one_if, one_if-le, ℕ, suc, ◌+◌, ◌*◌, ◌%◌, ◌^◌, ◌≤◌, ◌<◌, ◌≡◌, ◌≢◌, refl, sym, ap, ◌∙◌, arith,
  Bool, true, false, ◌==◌, ==_iff, update, Bool-cases, inl, inr, ◌⊎◌, if◌then◌else◌, sum_over,
  sum_over-update, sum_over-le, dec_lt,
}
use mathlib.Core.Path.{subst}
use autolock.Cptltkt.{
  CptltktLock, SocketTkl, Layout, Thread, Pc, Env, request_global, global_for, disarm_global,
  yielding_global, own, release_global, release_local, dispatch, goto, next,
}
use autolock.Cptltkt.System.{History, System, note}
use autolock.Cptltkt.Slots.{slot, serve_one, not_yet}
use autolock.Cptltkt.Invariant.{lined, granted, in_queue, phase, phase_at, QueueInv, Inv}
use autolock.Cptltkt.Steps.{moved, held, quiet, owner, ==_refl}
use autolock.Cptltkt.Moves.{at, phase_if}

module _ (m : ℕ) (g : SocketTkl) (h : History) (q : QueueInv m g h) where
  -- There is a place in the line for each socket.
  pub line-le : h.issued ≤ h.served + m
  line-le = omega (arith, q.length, sum_over-le one_if 1 one_if-le m h.queued)

  -- The socket `k` joins the line.
  module _ (k : ℕ) (place : k < m) (free : h.queued k ≡ false) where
    abbrev pub joined : History
    joined = record h {
      queued = update h.queued k true;
      number = update h.number k h.issued;
      issued = suc h.issued;
    }

    pub join-Queue : QueueInv m (record g { request = next g.request }) joined
    join-Queue = record {
      request = following q.request;
      line = λ x. line x (Bool-cases (k == x));
      apart = λ x y. apart x y (Bool-cases (k == x)) (Bool-cases (k == y));
      length = counted;
      slots = q.slots;
    }
      where
        following : g.request ≡ h.issued % 2 ^ 32 → next g.request ≡ suc h.issued % 2 ^ 32
        following e = omega (arith, e)

        served-le : h.served ≤ h.issued
        served-le = omega (arith, q.length)

        counted : suc h.issued ≡ h.served + sum_over one_if m (update h.queued k true)
        counted =
            omega (arith, q.length, sum_over-update one_if m h.queued k true place, ap one_if free)

        line :
            (x : ℕ)
            → (k == x) ≡ true ⊎ (k == x) ≡ false
            → joined.queued x ≡ true
            → (h.served ≤ joined.number x) × (joined.number x < suc h.issued)
        line x (inl e) p = rw e (served-le, omega arith)
        line x (inr e) p = let (a, b) = q.line x (rw e at p) in rw e (a, omega (arith, b))

        apart :
            (x y : ℕ)
            → (k == x) ≡ true ⊎ (k == x) ≡ false
            → (k == y) ≡ true ⊎ (k == y) ≡ false
            → joined.queued x ≡ true
            → joined.queued y ≡ true
            → joined.number x ≡ joined.number y
            → x ≡ y
        apart x y (inl d) (inl e) a b c = sym ((==_iff k x).0 d) ∙ (==_iff k y).0 e
        apart x y (inl d) (inr e) a b c =
            absurd (omega (arith, q.line y (rw e at b), rw (d, e) at c))
        apart x y (inr d) (inl e) a b c =
            absurd (omega (arith, q.line x (rw d at a), rw (d, e) at c))
        apart x y (inr d) (inr e) a b c = q.apart x y (rw d at a) (rw e at b) (rw (d, e) at c)

  -- The socket `k`, which is served, leaves the line.
  module _ (k : ℕ) (place : k < m) (mine : h.queued k ≡ true) (is : h.number k ≡ h.served) where
    abbrev pub left : History
    left = record h { queued = update h.queued k false; served = suc h.served }

    pub leave-Queue :
        QueueInv m
          (record g { grants = update g.grants (slot m (suc h.served)) (suc h.served % 2 ^ 32) })
          left
    leave-Queue = record {
      request = q.request;
      line = λ x. line x (Bool-cases (k == x));
      apart = λ x y a b.
          q.apart x y (still x (Bool-cases (k == x)) a) (still y (Bool-cases (k == y)) b);
      length = counted;
      slots = serve_one m h.served g.grants q.slots;
    }
      where
        counted : h.issued ≡ suc h.served + sum_over one_if m (update h.queued k false)
        counted =
            omega (arith, q.length, sum_over-update one_if m h.queued k false place, ap one_if mine)

        never : false ≡ true → ⊥
        never z = ground arith

        still :
            (x : ℕ) → (k == x) ≡ true ⊎ (k == x) ≡ false → left.queued x ≡ true → h.queued x ≡ true
        still x (inl e) p = absurd (never (rw e at p))
        still x (inr e) p = rw e at p

        line :
            (x : ℕ)
            → (k == x) ≡ true ⊎ (k == x) ≡ false
            → left.queued x ≡ true
            → (suc h.served ≤ h.number x) × (h.number x < h.issued)
        line x (inl e) p = absurd (never (rw e at p))
        line x (inr e) p =
            let still_x : h.queued x ≡ true = rw e at p in
            let (le, lt) = q.line x still_x in
            (above le (λ z. differs e (q.apart k x mine still_x (is ∙ sym z))), lt)
          where
            above : h.served ≤ h.number x → h.number x ≢ h.served → suc h.served ≤ h.number x
            above le ne = ground (arith, le, ne)

            differs : (k == x) ≡ false → k ≡ x → ⊥
            differs b c = ground (arith, b, c)

module _ (a : Bool) (w : Layout) (e : Env) (n : ℕ) (s : System) (i : ℕ) (lt : i < n)
    (inv : Inv n w.num_numa_nodes s) where
  abbrev m : ℕ
  m = w.num_numa_nodes

  abbrev u : Thread
  u = s.threads i

  abbrev k : ℕ
  k = u.local_lock

  queued : (p : Pc) → u.pc ≡ p → in_queue (phase p) ≡ true → in_queue (phase_at s i) ≡ true
  queued p q c = ap (λ x. in_queue (phase x)) q ∙ c

  pub request-Inv : u.pc ≡ request_global → Inv n m (at a w e s i request_global)
  unfolding dispatch note
  request-Inv q =
      let (f, (g, c)) = held n m s i lt inv request_global q in
      let place = inv.places i (queued request_global q refl) in
      let h = joined m s.lock.inter_socket_lock s.history inv.queue k place c in
      let lk = s.lock.inter_socket_lock in
      let l = record s.lock { inter_socket_lock = record lk { request = next lk.request } } in
      let t = record u { req_num = lk.request; pc = if a then global_for else yielding_global } in
      let ph = phase_if a global_for yielding_global lined refl refl in
      owner n m s i lt inv l t h request_global q refl (λ x ne. rw ne refl) (inl (refl, refl)) refl
        (λ j. refl)
        (record {
          grant = (inv.sockets k).grant;
          requests = (inv.sockets k).requests;
          rest = λ z. absurd (omega (arith, f.0, f.1, z));
        })
        (inl (refl, ap in_queue ph))
        (join-Queue m s.lock.inter_socket_lock s.history inv.queue k place c) refl
        (rw (ph, ==_refl k) (f, g, refl, inv.queue.request))

  -- The word has the thread's number only if that is served.
  its_number :
      0 < m
      → 3 * m ≤ 2 ^ 32
      → s.history.queued k ≡ true
      → s.lock.inter_socket_lock.grants (slot m (s.history.number k)) ≡ s.history.number k % 2 ^ 32
      → s.history.number k ≡ s.history.served
  its_number pos small c is =
      let (ge, le) = inv.queue.line k c in
      elim (dec_lt s.history.served (s.history.number k)) [
        | yes more ↦ absurd (
            not_yet m s.history.served (s.history.number k) _ pos small (inv.queue.slots _) more
              (omega (arith, le, line-le m s.lock.inter_socket_lock s.history inv.queue)) is)
        | no same ↦ omega (arith, ge, same)
      ]

  pub yielding_global-Inv :
      0 < m → 3 * m ≤ 2 ^ 32 → u.pc ≡ yielding_global → Inv n m (at a w e s i yielding_global)
  unfolding dispatch note
  yielding_global-Inv pos small q =
      let (f, g, c, r) = held n m s i lt inv yielding_global q in
      let word = s.lock.inter_socket_lock.grants (u.req_num % m) in
      elim (Bool-cases (word == u.req_num)) [
        | inl has ↦ rw has (
            let ph = phase_if a disarm_global own granted refl refl in
            quiet n m s i lt inv (goto u (if a then disarm_global else own))
              (queued yielding_global q refl) (ap in_queue ph) refl
              (rw ph (
                f,
                g,
                c,
                r,
                its_number pos small c (
                    ap (λ x. s.lock.inter_socket_lock.grants (x % m)) (sym r)
                    ∙ (==_iff word u.req_num).0 has
                    ∙ r),
              )))
        | inr not ↦ rw not (
            quiet n m s i lt inv (goto u yielding_global) (queued yielding_global q refl) refl refl
              (f, g, c, r))
      ]

  pub release_global-Inv : u.pc ≡ release_global → Inv n m (at a w e s i release_global)
  unfolding dispatch note
  release_global-Inv q =
      let (f, nx, g, (c, is, cur, o)) = held n m s i lt inv release_global q in
      let place = inv.places i (queued release_global q refl) in
      subst
        (λ x. Inv n m (
          moved s i (released x) (record u { req_num = x; pc = release_local })
            (left m s.lock.inter_socket_lock s.history inv.queue k place c is)))
        (sym (following is o))
        (owner n m s i lt inv (released (suc s.history.served % 2 ^ 32))
          (record u { req_num = suc s.history.served % 2 ^ 32; pc = release_local })
          (left m s.lock.inter_socket_lock s.history inv.queue k place c is) release_global q refl
          (λ x ne. rw ne refl) (inr (c, is)) refl (λ j. refl)
          (record {
            grant = (inv.sockets k).grant;
            requests = (inv.sockets k).requests;
            rest = λ z. absurd (omega (arith, f.0, f.1, z));
          })
          (inl (refl, refl))
          (leave-Queue m s.lock.inter_socket_lock s.history inv.queue k place c is) refl
          (rw (==_refl k) (f, nx, (g, refl))))
    where
      released : ℕ → CptltktLock
      released x = record s.lock {
        inter_socket_lock = record s.lock.inter_socket_lock {
          grants = update s.lock.inter_socket_lock.grants (x % m) x;
        };
      }

      following :
          {number served number_owner : ℕ}
          → number ≡ served
          → number_owner ≡ number % 2 ^ 32
          → next number_owner ≡ suc served % 2 ^ 32
      following d f = omega (arith, d, f)
