-- ===== src/Cptltkt/Steps.antt =====
-- A step of one thread keeps the invariant of the lock of Cptltkt.antt, whatever it does, if it keeps
-- the two locks and the other threads' part.
use autolock.Base.{
  update-all, update-pairs, ℕ, suc, ◌+◌, ◌<◌, ◌≡◌, ◌≢◌, refl, sym, ap, ◌∙◌, arith, Bool, true,
  false, ◌&&◌, ◌==◌, ==_iff, update, Bool-cases, inl, inr, ◌⊎◌, sum_over-update,
}
use mathlib.Core.Path.{subst}
use autolock.Cptltkt.{CptltktLock, Thread, Pc}
use autolock.Cptltkt.System.{History, System}
use autolock.Cptltkt.Invariant.{
  in_queue, phase, phase_at, owns, View, view, Rest, First, Local, LocalAt, SocketInv, QueueInv,
  member, Inv,
}
use autolock.Cptltkt.Others.{owns-First, behind-Local, moved-Local, moved-Rest}

abbrev pub moved : System → ℕ → CptltktLock → Thread → History → System
moved s i l t h = record { lock = l; threads = update s.threads i t; history = h }

pub ==_refl : (k : ℕ) → (k == k) ≡ true
==_refl k = ground arith

and_false : (b : Bool) → (b && false) ≡ false
and_false b = ground arith

module _ (n m : ℕ) (s : System) (i : ℕ) (lt : i < n) (inv : Inv n m s) where
  pub settle :
      (l : CptltktLock) (t : Thread) (h : History)
      → ((k : ℕ) → SocketInv (view l h k) k)
      → QueueInv m l.inter_socket_lock h
      → ((k : ℕ)
          → h.asked k + s.history.granted k + member k (s.threads i)
            ≡ s.history.asked k + h.granted k + member k t)
      → LocalAt l h (h.turn i) t
      → (in_queue (phase t.pc) ≡ true → t.local_lock < m)
      → ((j : ℕ) → (i == j) ≡ false → LocalAt l h (s.history.turn j) (s.threads j))
      → ((j : ℕ) → (i == j) ≡ false → h.turn j ≡ s.history.turn j)
      → ((j : ℕ)
          → (i == j) ≡ false
          → in_queue (phase t.pc) ≡ true
          → in_queue (phase_at s j) ≡ true
          → t.local_lock ≡ (s.threads j).local_lock
          → h.turn i ≢ s.history.turn j)
      → Inv n m (moved s i l t h)
  settle l t h so q counts own place others same apart = record {
    sockets = so;
    queue = q;
    members =
        λ k. omega (arith, sum_over-update (member k) n s.threads i t lt, inv.members k, counts k);
    locals =
        update-all (λ j x. LocalAt l h (h.turn j) x) s.threads i t own
          (λ j e. rw (same j e) (others j e));
    places =
        update-all (λ j x. in_queue (phase x.pc) ≡ true → x.local_lock < m) s.threads i t place
          (λ j e. inv.places j);
    turns =
        update-pairs
          (λ j x k y.
            in_queue (phase x.pc) ≡ true
            → in_queue (phase y.pc) ≡ true
            → x.local_lock ≡ y.local_lock
            → h.turn j ≢ h.turn k)
          s.threads i t (λ j e p q r z. apart j e p q r (z ∙ same j e))
          (λ j e p q r z. apart j e q p (sym r) (sym z ∙ same j e))
          (λ j k d e ne p q r z. inv.turns j k ne p q r (sym (same j d) ∙ z ∙ same k e));
  }

  -- What a thread at `p` has.
  pub held :
      (p : Pc)
      → (s.threads i).pc ≡ p
      → (let t = s.threads i in
          Local
            (view s.lock s.history t.local_lock)
            t.local_lock
            (phase p)
            (s.history.turn i)
            t.req_num
            t.next_grant)
  held p q =
      let t = s.threads i in
      subst
        (λ x.
          Local (view s.lock s.history t.local_lock) t.local_lock (phase x) (s.history.turn i)
            t.req_num t.next_grant)
        q (inv.locals i)

  -- A step of a thread in the queue that changes nothing but the thread.
  pub quiet :
      (t : Thread)
      → in_queue (phase_at s i) ≡ true
      → in_queue (phase t.pc) ≡ true
      → t.local_lock ≡ (s.threads i).local_lock
      → LocalAt s.lock s.history (s.history.turn i) t
      → Inv n m (moved s i s.lock t s.history)
  quiet t before after place own =
      settle s.lock t s.history inv.sockets inv.queue (λ k. counts k before after place) own
        (λ _. rw place (inv.places i before)) (λ j e. inv.locals j) (λ j e. refl)
        (λ j e p q r. inv.turns i j e before q (sym place ∙ r))
    where
      counts :
          (k : ℕ)
          → in_queue (phase_at s i) ≡ true
          → in_queue (phase t.pc) ≡ true
          → t.local_lock ≡ (s.threads i).local_lock
          → s.history.asked k + s.history.granted k + member k (s.threads i)
            ≡ s.history.asked k + s.history.granted k + member k t
      counts k a b c = rw (a, b, c) refl

-- A step of the thread that its socket has granted.
module _ (n m : ℕ) (s : System) (i : ℕ) (lt : i < n) (inv : Inv n m s) (l : CptltktLock)
    (t : Thread) (h : History) (p : Pc) (at_p : (s.threads i).pc ≡ p)
    (first : owns (phase p) ≡ true) where
  abbrev here : ℕ
  here = (s.threads i).local_lock

  mine : First (view s.lock s.history here) (s.history.turn i) × (in_queue (phase p) ≡ true)
  mine =
      owns-First (view s.lock s.history here) here (phase p) (s.history.turn i)
        (s.threads i).req_num (s.threads i).next_grant first (held n m s i lt inv p at_p)

  queued : in_queue (phase_at s i) ≡ true
  queued = ap (λ x. in_queue (phase x)) at_p ∙ mine.1

  abbrev pub Elsewhere : Type 0
  Elsewhere =
      (k : ℕ)
      → (here == k) ≡ false
      → view l h k ≡ record (view s.lock s.history k) { served = h.served; cur = l.cur_psl }

  -- Who has the lock changes only if this socket has it.
  abbrev pub Handed : Type 0
  Handed =
      ((h.served ≡ s.history.served) × (l.cur_psl ≡ s.lock.cur_psl))
      ⊎ ((s.history.queued here ≡ true) × (s.history.number here ≡ s.history.served))

  abbrev pub Change : Type 0
  Change =
      ((h.granted here ≡ s.history.granted here) × (in_queue (phase t.pc) ≡ true))
      ⊎ ((h.granted here ≡ suc (s.history.granted here))
          × (in_queue (phase t.pc) ≡ false)
          × Rest (view l h here) here)

  not_ours :
      (k : ℕ)
      → (here == k) ≡ false
      → (s.history.queued here ≡ true) × (s.history.number here ≡ s.history.served)
      → s.history.queued k ≡ true
      → s.history.number k ≢ s.history.served
  not_ours k ne (q, e) q' e' = clash (inv.queue.apart here k q q' (e ∙ sym e')) ne
    where
      clash : here ≡ k → (here == k) ≡ false → ⊥
      clash a b = ground (arith, a, b)

  -- What a socket's lock has stays, if it is no matter who has the lock or if this socket has it.
  stays :
      Elsewhere
      → Handed
      → (P : View → Type 0) (k : ℕ) → (here == k) ≡ false
      → ((s.history.queued k ≡ true → s.history.number k ≢ s.history.served)
          → P (view s.lock s.history k)
          → P (record (view s.lock s.history k) { served = h.served; cur = l.cur_psl }))
      → P (view s.lock s.history k)
      → P (view l h k)
  stays el (inl (a, b)) P k ne f o = subst P (same (el k ne)) o
    where
      same :
          view l h k ≡ record (view s.lock s.history k) { served = h.served; cur = l.cur_psl }
          → view s.lock s.history k ≡ view l h k
      same e = sym (e ∙ rw (a, b) refl)
  stays el (inr z) P k ne f o = subst P (sym (el k ne)) (f (not_ours k ne z) o)

  pub owner :
      Elsewhere
      → Handed
      → h.asked here ≡ s.history.asked here
      → ((j : ℕ) → h.turn j ≡ s.history.turn j)
      → SocketInv (view l h here) here
      → Change
      → QueueInv m l.inter_socket_lock h
      → t.local_lock ≡ here
      → LocalAt l h (s.history.turn i) t
      → Inv n m (moved s i l t h)
  owner el hd same_asked same_turn so ch q place own =
      settle n m s i lt inv l t h (λ k. sockets k (Bool-cases (here == k))) q
        (λ k. counts k (Bool-cases (here == k)) ch) (rw (same_turn i) own)
        (λ _. rw place (inv.places i queued))
        (λ j e. others j e (Bool-cases (here == (s.threads j).local_lock))) (λ j e. same_turn j)
        (λ j e a b r. rw (same_turn i) (inv.turns i j e queued b (sym place ∙ r)))
    where
      sockets : (k : ℕ) → (here == k) ≡ true ⊎ (here == k) ≡ false → SocketInv (view l h k) k
      sockets k (inl e) = subst (λ x. SocketInv (view l h x) x) ((==_iff here k).0 e) so
      sockets k (inr e) =
          stays el hd (λ v. SocketInv v k) k e
            (λ no o. record {
              grant = o.grant;
              requests = o.requests;
              rest = λ z. moved-Rest (view s.lock s.history k) k h.served l.cur_psl no (o.rest z);
            })
            (inv.sockets k)

      Counted : ℕ → Type 0
      Counted k =
          h.asked k + s.history.granted k + member k (s.threads i)
          ≡ s.history.asked k + h.granted k + member k t

      counts_here : Change → Counted here
      counts_here (inl (g, iq)) = rw (queued, iq, place, same_asked, g) refl
      counts_here (inr (g, iq, r)) = rw (queued, iq, same_asked, g, ==_refl here) (omega arith)

      counts :
          (k : ℕ)
          → (here == k) ≡ true ⊎ (here == k) ≡ false
          → Change
          → h.asked k + s.history.granted k + member k (s.threads i)
            ≡ s.history.asked k + h.granted k + member k t
      counts k (inl e) c = subst Counted ((==_iff here k).0 e) (counts_here c)
      counts k (inr e) c =
          rw
            (
              place,
              e,
              ap (λ v. v.asked) (el k e),
              ap (λ v. v.granted) (el k e),
              and_false (in_queue (phase t.pc)),
              and_false (in_queue (phase_at s i)),
            )
            refl

      Grants : ℕ → Type 0
      Grants k =
          (h.granted k ≡ s.history.granted k)
          ⊎ ((h.granted k ≡ suc (s.history.granted k)) × Rest (view l h k) k)

      grants : Change → Grants here
      grants (inl (g, iq)) = inl g
      grants (inr (g, iq, r)) = inr (g, r)

      others :
          (j : ℕ)
          → (i == j) ≡ false
          → (let k = (s.threads j).local_lock in (here == k) ≡ true ⊎ (here == k) ≡ false)
          → LocalAt l h (s.history.turn j) (s.threads j)
      others j e (inl same) =
          let u = s.threads j in
          let at_j = (==_iff here u.local_lock).0 same in
          behind-Local (view s.lock s.history u.local_lock) (view l h u.local_lock) u.local_lock
            (subst (λ x. h.asked x ≡ s.history.asked x) at_j same_asked)
            (subst Grants at_j (grants ch)) (phase u.pc) (s.history.turn j) u.req_num u.next_grant
            (λ iq z.
              inv.turns i j e queued iq at_j
                (mine.0.0 ∙ ap (λ x. s.history.granted x) at_j ∙ sym z))
            (inv.locals j)
      others j e (inr other) =
          let u = s.threads j in
          stays el hd
            (λ v. Local v u.local_lock (phase u.pc) (s.history.turn j) u.req_num u.next_grant)
            u.local_lock other
            (λ no o.
              moved-Local (view s.lock s.history u.local_lock) u.local_lock h.served l.cur_psl no
                (phase u.pc) (s.history.turn j) u.req_num u.next_grant o)
            (inv.locals j)
