-- ===== src/Cptltkt/Entering.antt =====
-- The steps of a thread that comes to its socket's lock and waits there.
use autolock.Base.{
  one_if-le, ℕ, suc, ◌+◌, ◌%◌, ◌^◌, ◌≤◌, ◌<◌, ◌≡◌, ◌≢◌, refl, sym, ap, ◌∙◌, arith, Bool, true,
  false, Option, none, some, ◌==◌, ==_iff, update, Bool-cases, inl, inr, ◌⊎◌, if◌then◌else◌,
  sum_over-le,
}
use mathlib.Core.Path.{subst}
use autolock.Kernel.{KernelAutolock, autolock_init_kernel_state}
use autolock.Cptltkt.{
  CptltktLock, Layout, Thread, Pc, Env, idle, init_page, set_for, pausing, yielding, check_socket,
  take_socket, request_global, fault, dispatch, goto, next, on_socket, prepare, doesnt_have_socket,
}
use autolock.Cptltkt.System.{History, System, note}
use autolock.Cptltkt.Invariant.{
  waiting, in_queue, phase, phase_at, View, view, Rest, Local, LocalAt, SocketInv, member, Inv,
}
use autolock.Cptltkt.Others.{one_more, one_more-Local, in_queue-bounds}
use autolock.Cptltkt.Steps.{moved, settle, held, quiet, ==_refl}
use autolock.Cptltkt.Moves.{at, phase_if}

-- Numbers of 32 bits that are equal, of numbers less than 2^32 apart.
same_number :
    {granted turn asked grant req : ℕ}
    → granted ≤ turn
    → turn < asked
    → asked ≤ granted + 2 ^ 32
    → grant ≡ granted % 2 ^ 32
    → req ≡ turn % 2 ^ 32
    → grant ≡ req
    → turn ≡ granted
same_number a b c d e f = omega (arith, a, b, c, d, e, f)

module _ (a : Bool) (w : Layout) (e : Env) (n : ℕ) (s : System) (i : ℕ) (lt : i < n)
    (inv : Inv n w.num_numa_nodes s) where
  abbrev m : ℕ
  m = w.num_numa_nodes

  abbrev u : Thread
  u = s.threads i

  abbrev k : ℕ
  k = u.local_lock

  queued : (p : Pc) → u.pc ≡ p → in_queue (phase p) ≡ true → in_queue (phase_at s i) ≡ true
  queued p q c = ap (λ x. in_queue (phase x)) q ∙ c

  -- A thread waits, as before.
  pub wait-Inv :
      (p : Pc) (kernel : Option KernelAutolock) (p' : Pc)
      → u.pc ≡ p
      → phase p ≡ waiting
      → phase p' ≡ waiting
      → Inv n m (moved s i s.lock (record u { kernel = kernel; pc = p' }) s.history)
  wait-Inv p kernel p' q ph ph' =
      quiet n m s i lt inv (record u { kernel = kernel; pc = p' }) (queued p q (ap in_queue ph))
        (ap in_queue ph') refl
        (subst (λ x. Local (view s.lock s.history k) k x (s.history.turn i) u.req_num u.next_grant)
          (ph ∙ sym ph') (held n m s i lt inv p q))

  pub init_page-Inv : u.pc ≡ init_page → Inv n m (at a w e s i init_page)
  unfolding dispatch note
  init_page-Inv q = by_result (autolock_init_kernel_state e.sys u.kernel)
    where
      by_result : (r : Option KernelAutolock) → Inv n m (moved s i s.lock (prepare r u) s.history)
      by_result none = wait-Inv init_page u.kernel fault q refl refl
      by_result (some x) = wait-Inv init_page (some x) set_for q refl refl

  -- Whether its number is granted.
  look-Inv :
      n ≤ 2 ^ 32
      → (p : Pc) → u.pc ≡ p
      → phase p ≡ waiting
      → Inv n m (
          moved s i s.lock
            (goto u
              (if (s.lock.per_socket_lock k).grant == u.req_num then check_socket else yielding))
            s.history)
  look-Inv few p q ph =
      let (ge, less, r, rest) =
        subst (λ x. Local (view s.lock s.history k) k x (s.history.turn i) u.req_num u.next_grant)
          ph (held n m s i lt inv p q) in
      let grant = (s.lock.per_socket_lock k).grant in
      elim (Bool-cases (grant == u.req_num)) [
        | inl has ↦
            let is =
              same_number ge less
                (omega (
                  arith,
                  few,
                  inv.members k,
                  sum_over-le (member k) 1 (λ t. one_if-le _) n s.threads,
                ))
                (inv.sockets k).grant r ((==_iff grant u.req_num).0 has) in
            rw has (
              quiet n m s i lt inv (goto u check_socket) (queued p q (ap in_queue ph)) refl refl
                ((is, less), rest is))
        | inr not ↦ rw not (wait-Inv p u.kernel yielding q ph refl)
      ]

  pub pausing-Inv : n ≤ 2 ^ 32 → u.pc ≡ pausing → Inv n m (at a w e s i pausing)
  unfolding dispatch note
  pausing-Inv few q = look-Inv few pausing q refl

  pub yielding-Inv : n ≤ 2 ^ 32 → u.pc ≡ yielding → Inv n m (at a w e s i yielding)
  unfolding dispatch note
  yielding-Inv few q = look-Inv few yielding q refl

  pub check-Inv : u.pc ≡ check_socket → Inv n m (at a w e s i check_socket)
  unfolding dispatch note
  check-Inv q =
      let (f, r) = held n m s i lt inv check_socket q in
      let c = (s.lock.per_socket_lock k).socket_grant in
      by_rest r f (Bool-cases (c == doesnt_have_socket))
    where
      by_rest :
          Rest (view s.lock s.history k) k
          → (s.history.turn i ≡ s.history.granted k) × (s.history.turn i < s.history.asked k)
          → (let c = (s.lock.per_socket_lock k).socket_grant in
              ((c == doesnt_have_socket) ≡ true) ⊎ ((c == doesnt_have_socket) ≡ false))
          → Inv n m (
              moved s i s.lock
                (goto u (
                  if (s.lock.per_socket_lock k).socket_grant == doesnt_have_socket
                  then request_global
                  else take_socket))
                s.history)
      by_rest (inl o) f (inl d) = rw d (
          quiet n m s i lt inv (goto u request_global) (queued check_socket q refl) refl refl
            (f, o))
      by_rest (inl o) f (inr d) = absurd (ground (arith, o.0, d))
      by_rest (inr o) f (inl d) = absurd (ground (arith, o.0, d))
      by_rest (inr o) f (inr d) =
          rw d (
            quiet n m s i lt inv (goto u take_socket) (queued check_socket q refl) refl refl (f, o))

  -- A thread comes to the socket `x`.
  module _ (x : ℕ) (place : x < m) (p : Pc) (ph : phase p ≡ waiting) (q : u.pc ≡ idle) where
    abbrev comes_lock : CptltktLock
    comes_lock = on_socket x (λ c. record c { requests = next c.requests }) s.lock

    abbrev comes_thread : Thread
    comes_thread = record u {
      local_lock = x;
      req_num = (s.lock.per_socket_lock x).requests;
      pc = p;
    }

    abbrev comes_history : History
    comes_history = record s.history {
      asked = update s.history.asked x (suc (s.history.asked x));
      turn = update s.history.turn i (s.history.asked x);
    }

    granted-le : (j : ℕ) → s.history.granted j ≤ s.history.asked j
    granted-le j = omega (arith, inv.members j)

    there : (j : ℕ) → (x == j) ≡ false → view comes_lock comes_history j ≡ view s.lock s.history j
    there j ne = rw ne refl

    abbrev more : View
    more = one_more (view s.lock s.history x) (next (s.lock.per_socket_lock x).requests) x

    here : view comes_lock comes_history x ≡ more
    here = rw (==_refl x) refl

    more-Socket : SocketInv more x
    more-Socket = record {
      grant = (inv.sockets x).grant;
      requests = following (s.history.asked x) (inv.sockets x).requests;
      rest = λ z. absurd (omega (arith, z, granted-le x));
    }
      where
        following : {r : ℕ} (asked : ℕ) → r ≡ asked % 2 ^ 32 → next r ≡ suc asked % 2 ^ 32
        following asked d = omega (arith, d)

    pub come-Inv : Inv n m (moved s i comes_lock comes_thread comes_history)
    come-Inv =
        settle n m s i lt inv comes_lock comes_thread comes_history
          (λ j. sockets j (Bool-cases (x == j)))
          (record {
            request = inv.queue.request;
            line = inv.queue.line;
            apart = inv.queue.apart;
            length = inv.queue.length;
            slots = inv.queue.slots;
          })
          (λ j. counts j (Bool-cases (x == j))) own (λ _. place)
          (λ j ne. others j (Bool-cases (x == (s.threads j).local_lock))) (λ j ne. rw ne refl)
          (λ j ne a b r. rw (==_refl i) (λ z. newer j b r (sym z)))
      where
        sockets :
            (j : ℕ)
            → (x == j) ≡ true ⊎ (x == j) ≡ false
            → SocketInv (view comes_lock comes_history j) j
        sockets j (inl d) =
            subst (λ y. SocketInv (view comes_lock comes_history y) y) ((==_iff x j).0 d)
              (subst (λ v. SocketInv v x) (sym here) more-Socket)
        sockets j (inr d) = subst (λ v. SocketInv v j) (sym (there j d)) (inv.sockets j)

        counts :
            (j : ℕ)
            → (x == j) ≡ true ⊎ (x == j) ≡ false
            → comes_history.asked j + s.history.granted j + member j u
              ≡ s.history.asked j + s.history.granted j + member j comes_thread
        counts j (inl d) = rw (q, ph, d) (rw ((==_iff x j).0 d) (omega arith))
        counts j (inr d) = rw (q, ph, d) refl

        own : LocalAt comes_lock comes_history (comes_history.turn i) comes_thread
        own =
            rw (ph, ==_refl x, ==_refl i)
              (
                granted-le x,
                omega arith,
                (inv.sockets x).requests,
                λ z. (inv.sockets x).rest (sym z),
              )

        At : CptltktLock → History → ℕ → ℕ → Type 0
        At l h j y =
            let t = s.threads j in
            Local (view l h y) y (phase t.pc) (s.history.turn j) t.req_num t.next_grant

        others :
            (j : ℕ)
            → (let y = (s.threads j).local_lock in (x == y) ≡ true ⊎ (x == y) ≡ false)
            → LocalAt comes_lock comes_history (s.history.turn j) (s.threads j)
        others j (inl d) =
            let t = s.threads j in
            let y = (==_iff x t.local_lock).0 d in
            subst (At comes_lock comes_history j) y (
              subst (λ v. Local v x (phase t.pc) (s.history.turn j) t.req_num t.next_grant)
                (sym here)
                (one_more-Local (view s.lock s.history x) (next (s.lock.per_socket_lock x).requests)
                  x (phase t.pc) (s.history.turn j) t.req_num t.next_grant
                  (subst (At s.lock s.history j) (sym y) (inv.locals j))))
        others j (inr d) =
            let t = s.threads j in
            subst (λ v. Local v t.local_lock (phase t.pc) (s.history.turn j) t.req_num t.next_grant)
              (sym (there t.local_lock d)) (inv.locals j)

        newer :
            (j : ℕ)
            → in_queue (phase_at s j) ≡ true
            → x ≡ (s.threads j).local_lock
            → s.history.turn j ≢ s.history.asked x
        newer j b r z =
            let t = s.threads j in
            let (c, d) =
              in_queue-bounds (view s.lock s.history t.local_lock) t.local_lock (phase t.pc)
                (s.history.turn j) t.req_num t.next_grant b (inv.locals j) in
            absurd (omega (arith, d, z, ap s.history.asked r))

  pub idle-Inv : e.socket < m → u.pc ≡ idle → Inv n m (at a w e s i idle)
  unfolding dispatch note
  idle-Inv place q =
      come-Inv e.socket place (if a then init_page else pausing)
        (phase_if a init_page pausing waiting refl refl) q
