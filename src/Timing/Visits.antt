-- ===== src/Timing/Visits.antt =====
-- The list of the statistics of interpose-timing.h, as the threads extend it and the destructor goes
-- through it, and what is printed for each thread.
use autolock.Base.{
  ℕ, ◌&&◌, ◌+◌, ◌≡◌, refl, sym, ap, ◌∙◌, arith, Bool, true, false, List, [], ◌∷◌, ◌==◌, ==_iff,
  one_if, update, update-all, Bool-cases, inl, inr,
}
use mathlib.Core.Path.{subst}
use autolock.Timing.{
  Pointer, null, end_list, node, is_same, Pc, outside, adding, fault, trying, Thread, Walker,
  waiting, walking, System, ThreadStats, Report, thread_stats_out, put_out, goto, warmed, Env,
  dispatch, destroy, Reach, start, later, destroyed,
}
use autolock.Timing.Nodes.{
  visits, has_calls, prints, count, Chain, done, link, current, At, Closed, Inv, is_same-eq,
  Chain-update, Closed-waiting, prints-put_out,
}

module _ (s : System) (inv : Inv s) (i : ℕ) where
  abbrev u : Thread
  u = s.threads i

  others :
      (stats : ℕ → ThreadStats)
      → ((j : ℕ) → (i == j) ≡ false → stats j ≡ s.stats j)
      → (j : ℕ) → (i == j) ≡ false
      → At (s.next j) (stats j) (s.threads j).has_stats (s.threads j).pc
  others stats kept j ne =
      subst (λ st. At (s.next j) st (s.threads j).has_stats (s.threads j).pc) (sym (kept j ne))
        (inv.locals j)

  -- A step that changes no list and prints nothing.
  quiet :
      (t : Thread) (stats : ℕ → ThreadStats) (output : List (ℕ × Report))
      → t.has_stats ≡ u.has_stats
      → ((j : ℕ) → prints j output ≡ prints j s.output)
      → ((j : ℕ) → (i == j) ≡ false → stats j ≡ s.stats j)
      → At (s.next i) (stats i) t.has_stats t.pc
      → Inv (record s { threads = update s.threads i t; stats = stats; output = output })
  quiet t stats output h o kept l = record {
    rest = inv.rest;
    chain = inv.chain;
    counts =
        update-all (λ j t. visits j s.visited + count j inv.rest ≡ one_if t.has_stats) s.threads i t
          (inv.counts i ∙ ap one_if (sym h)) (λ j ne. inv.counts j);
    printed = λ j. o j ∙ inv.printed j;
    locals =
        update-all (λ j t. At (s.next j) (stats j) t.has_stats t.pc) s.threads i t l
          (λ j ne. others stats kept j ne);
    closed = inv.closed;
  }

  own : (p : Pc) → u.pc ≡ p → At (s.next i) (s.stats i) u.has_stats p
  own p q = subst (λ p. At (s.next i) (s.stats i) u.has_stats p) q (inv.locals i)

  outside_At : (st : ThreadStats) (h : Bool) → u.pc ≡ outside → At (s.next i) st h u.pc
  outside_At st h q = subst (λ p. At (s.next i) st h p) (sym q) refl

  alone : u.has_stats ≡ false → count i inv.rest ≡ 0
  alone h = omega (arith, inv.counts i, ap one_if h)

  -- The new node is linked to the head that was read.
  linked :
      u.has_stats ≡ false
      → has_calls (s.stats i) ≡ false
      → is_same s.head end_list ≡ false
      → Inv (record (goto s i (trying s.head)) { next = update s.next i s.head })
  linked h n ne = record {
    rest = inv.rest;
    chain = Chain-update i s.head inv.chain (alone h);
    counts =
        update-all (λ j t. visits j s.visited + count j inv.rest ≡ one_if t.has_stats) s.threads i _
          (inv.counts i) (λ j ne. inv.counts j);
    printed = inv.printed;
    locals =
        update-all (λ j t. At (update s.next i s.head j) (s.stats j) t.has_stats t.pc) s.threads i _
          (h, n, rw (same i) refl, ne) (λ j other. rw other (inv.locals j));
    closed = inv.closed;
  }
    where
      same : (k : ℕ) → (k == k) ≡ true
      same k = ground arith

  -- The new node is the head.
  published :
      (stats : ℕ → ThreadStats) (p : Pointer)
      → u.pc ≡ trying p
      → s.head ≡ p
      → ((j : ℕ) → (i == j) ≡ false → stats j ≡ s.stats j)
      → Inv (record s { head = node i; threads = update s.threads i (warmed u); stats = stats })
  published stats p q e kept =
      let (h, calls, n, ne) = own (trying p) q in
      let w = Closed-waiting s.walker s.head inv.closed (ap (λ x. is_same x end_list) e ∙ ne) in
      record {
        rest = i ∷ inv.rest;
        chain =
            subst (λ w. Chain s.next (current w (node i)) (i ∷ inv.rest)) (sym w)
              (link (subst (λ x. Chain s.next x inv.rest) (from w ∙ e ∙ sym n) inv.chain));
        counts =
            update-all (λ j t. visits j s.visited + count j (i ∷ inv.rest) ≡ one_if t.has_stats)
              s.threads i (warmed u) (omega (arith, inv.counts i, ap one_if h, ap one_if (same i)))
              (λ j other. omega (arith, inv.counts j, ap one_if other));
        printed = inv.printed;
        locals =
            update-all (λ j t. At (s.next j) (stats j) t.has_stats t.pc) s.threads i (warmed u) refl
              (λ j other. others stats kept j other);
        closed = subst (λ w. Closed w (node i)) (sym w) refl;
      }
    where
      same : (k : ℕ) → (k == k) ≡ true
      same k = ground arith

      from : s.walker ≡ waiting → current s.walker s.head ≡ s.head
      from w = ap (λ w. current w s.head) w

  -- A counted call.
  called :
      (stats : ℕ → ThreadStats)
      → u.pc ≡ outside
      → ((j : ℕ) → (i == j) ≡ false → stats j ≡ s.stats j)
      → Inv (record s { stats = stats })
  called stats q kept = record {
    rest = inv.rest;
    chain = inv.chain;
    counts = inv.counts;
    printed = inv.printed;
    locals = λ j. elim (Bool-cases (i == j)) [
      | inl e ↦
          subst (λ j. At (s.next j) (stats j) (s.threads j).has_stats (s.threads j).pc)
            ((==_iff i j).0 e) (outside_At (stats i) u.has_stats q)
      | inr ne ↦ others stats kept j ne
    ];
    closed = inv.closed;
  }

  silent :
      has_calls (s.stats i) ≡ false
      → (j : ℕ) → prints j (put_out i (thread_stats_out (s.stats i)) s.output) ≡ prints j s.output
  silent none_counted j = ground (arith, prints-put_out j i (s.stats i) s.output, none_counted)

  elsewhere : (x : ThreadStats) (j : ℕ) → (i == j) ≡ false → update s.stats i x j ≡ s.stats j
  elsewhere x j ne = rw ne refl

  dispatch-Inv : (e : Env) (p : Pc) → u.pc ≡ p → Inv (dispatch e p s i)
  unfolding dispatch
  dispatch-Inv e outside q = elim (Bool-cases (u.warmup_count == 0)) [
    | inl z ↦ rw z (called _ q (elsewhere _))
    | inr z ↦ elim (Bool-cases u.has_stats) [
      | inl h ↦
          rw (z, h)
            (quiet _ _ _ (sym h) (λ j. refl) (elsewhere _)
              (outside_At (update s.stats i (record (s.stats i) { time_start = e.start }) i) true
                q))
      | inr h ↦ rw (z, h) (quiet _ _ _ (sym h) (λ j. refl) (elsewhere _) (refl, (rw (same i) refl)))
    ]
  ]
    where
      same : (k : ℕ) → (k == k) ≡ true
      same k = ground arith
  dispatch-Inv e adding q = elim (Bool-cases (is_same s.head end_list)) [
    | inl z ↦ rw z (quiet _ _ _ refl (silent (own adding q).1) (λ j ne. refl) refl)
    | inr z ↦ rw z (linked (own adding q).0 (own adding q).1 z)
  ]
  dispatch-Inv e (trying p) q = elim (Bool-cases (is_same s.head p)) [
    | inl z ↦ rw z (published _ p q (is_same-eq s.head p z) (elsewhere _))
    | inr z ↦
        rw z
          (quiet _ _ _ refl (λ j. refl) (λ j ne. refl) ((own (trying p) q).0, (own (trying p) q).1))
  ]
  dispatch-Inv e fault q = inv

destroy-Inv : (s : System) (w : Walker) → s.walker ≡ w → Inv s → Inv (destroy w s)
unfolding destroy
destroy-Inv s waiting q inv = record {
  rest = inv.rest;
  chain = subst (λ w. Chain s.next (current w s.head) inv.rest) q inv.chain;
  counts = inv.counts;
  printed = inv.printed;
  locals = inv.locals;
  closed = refl;
}
destroy-Inv s (walking null) q inv = inv
destroy-Inv s (walking end_list) q inv = inv
destroy-Inv s (walking (node i)) q inv =
    let (is, c, k) = tail (subst (λ w. Chain s.next (current w s.head) inv.rest) q inv.chain) in
    record {
      rest = is;
      chain = c;
      counts = λ j. omega (arith, inv.counts j, k j);
      printed = λ j.
          prints-put_out j i (s.stats i) s.output
          ∙ ap (λ n. one_if (i == j && has_calls (s.stats i)) + n) (inv.printed j);
      locals = inv.locals;
      closed = subst (λ w. Closed w s.head) q inv.closed;
    }
  where
    tail :
        {next : ℕ → Pointer} {i : ℕ} {is : List ℕ}
        → Chain next (node i) is
        → (js : List ℕ) × Chain next (next i) js
          × ((j : ℕ) → count j is ≡ one_if (i == j) + count j js)
    tail (link {is = js} c) = (js, c, λ j. refl)

pub Reach-Inv : {s : System} → Reach s → Inv s
Reach-Inv start = record {
  rest = [];
  chain = done;
  counts = λ j. refl;
  printed = λ j. refl;
  locals = λ j. refl;
  closed = refl;
}
Reach-Inv (later {s} i e r) = dispatch-Inv s (Reach-Inv r) i e (s.threads i).pc refl
Reach-Inv (destroyed {s} r) = destroy-Inv s s.walker refl (Reach-Inv r)
