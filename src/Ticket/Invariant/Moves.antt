-- ===== src/Ticket/Invariant/Moves.antt =====
-- The invariant of n threads on one ticket lock: the tickets in use are those from `cur_count` up
-- to `next_count`, each with one thread; and what taking and serving a ticket do to it.
use autolock.Base.{
  ℕ, ◌+◌, ◌-◌, ◌%◌, ◌^◌, ◌≤◌, ◌<◌, ◌≡◌, inl, inr, Bool, false, arith, update, sum_over,
  sum_over-update, sum_over-le, le-sum_over, add-le-sum_over, dec_lt, ◌==◌, ltb, Bool-cases,
  if◌then◌else◌,
}
use mathlib.Core.Path.{subst}
use autolock.Spin.Invariant.{IsQuiet}
use autolock.Ticket.{TicketLock, Thread, idle, first_load, unlock_store, System}
use autolock.Ticket.Invariant.Local.{
  has_ticket, uses, uses_ticket, behind, IsWord, IsLocal, IsLocal-serve, IsLocal-issue,
}

issue_count :
    (c k q : ℕ)
    → IsWord c
    → IsWord k
    → q < 2 ^ 32
    → (if (c + q) % 2 ^ 32 == k then 1 else 0) + (if ltb (behind c k) q then 1 else 0)
      ≡ (if ltb (behind c k) (q + 1) then 1 else 0)
issue_count c k q wc wk lt = ground arith

serve_count :
    (c k q : ℕ)
    → IsWord c
    → IsWord k
    → q < 2 ^ 32
    → 0 < q
    → (if c == k then 1 else 0) + (if ltb (behind ((c + 1) % 2 ^ 32) k) (q - 1) then 1 else 0)
      ≡ (if ltb (behind c k) q then 1 else 0)
serve_count c k q wc wk lt pos = ground arith

-- `q` threads have a ticket.
pub record Inv (a : Bool) (n : ℕ) (s : System) : Type 0 where
  pub q : ℕ
  pub word : IsWord s.lock.cur_count
  pub next : s.lock.next_count ≡ (s.lock.cur_count + q) % 2 ^ 32
  pub total : sum_over uses n s.threads ≡ q
  pub each :
      (k : ℕ)
      → IsWord k
      → sum_over (uses_ticket k) n s.threads ≡ (if ltb (behind s.lock.cur_count k) q then 1 else 0)
  pub locals : (i : ℕ) → i < n → IsLocal a s.lock (s.threads i).pc (s.threads i)

pub uses-le_one : (t : Thread) → uses t ≤ 1
uses-le_one t = ground arith

-- Two threads do not have the same ticket.
pub ticket_unique :
    {a : Bool} {n : ℕ} {s : System} (inv : Inv a n s) (k : ℕ)
    → IsWord k
    → (i j : ℕ) → i < n
    → j < n
    → uses_ticket k (s.threads i) ≡ 1
    → uses_ticket k (s.threads j) ≡ 1
    → i ≡ j
ticket_unique {n} {s} inv k w i j hi hj ui uj = elim (dec_lt i j) [
  | yes lt ↦ absurd (two i j lt hj ui uj)
  | no ge ↦ elim (dec_lt j i) [ yes lt ↦ absurd (two j i lt hi uj ui) | no le ↦ omega arith ]
]
  where
    two :
        (x y : ℕ)
        → x < y
        → y < n
        → uses_ticket k (s.threads x) ≡ 1
        → uses_ticket k (s.threads y) ≡ 1
        → ⊥
    two x y lt hy ux uy =
        ground (arith, inv.each k w, add-le-sum_over (uses_ticket k) n s.threads x y lt hy)

module _ {a : Bool} {n : ℕ} (few : n < 2 ^ 32) {s : System} (inv : Inv a n s) (i : ℕ)
    (lt : i < n) where
  abbrev pub mover : Thread
  mover = s.threads i

  few_tickets : (t' : Thread) → sum_over uses n (update s.threads i t') ≤ n
  few_tickets t' = omega (arith, sum_over-le uses 1 uses-le_one n (update s.threads i t'))

  moved :
      (t' : Thread)
      → sum_over uses n (update s.threads i t') + uses mover ≡ sum_over uses n s.threads + uses t'
  moved t' = sum_over-update uses n s.threads i t' lt

  moved_each :
      (k : ℕ) (t' : Thread)
      → sum_over (uses_ticket k) n (update s.threads i t') + uses_ticket k mover
        ≡ sum_over (uses_ticket k) n s.threads + uses_ticket k t'
  moved_each k t' = sum_over-update (uses_ticket k) n s.threads i t' lt

  -- The facts of the thread that moves, and those of the others.
  locals-update :
      (l' : TicketLock) (t' : Thread)
      → IsLocal a l' t'.pc t'
      → ((j : ℕ) → j < n → (i == j) ≡ false → IsLocal a l' (s.threads j).pc (s.threads j))
      → (j : ℕ) → j < n
      → IsLocal a l' (update s.threads i t' j).pc (update s.threads i t' j)
  locals-update l' t' own others j hj = elim (Bool-cases (i == j)) [
    | inl e ↦ rw e own
    | inr e ↦ rw e (others j hj e)
  ]

  pub same-Inv :
      (t' : Thread)
      → has_ticket t'.pc ≡ has_ticket mover.pc
      → t'.ticket_num ≡ mover.ticket_num
      → IsLocal a s.lock t'.pc t'
      → Inv a n (record s { threads = update s.threads i t' })
  same-Inv t' p k own = record {
    q = inv.q;
    word = inv.word;
    next = inv.next;
    total = ground (arith, inv.total, moved t');
    each = λ m w. inv_each m w;
    locals = locals-update s.lock t' own (λ j hj e. inv.locals j hj);
  }
    where
      inv_each :
          (m : ℕ)
          → IsWord m
          → sum_over (uses_ticket m) n (update s.threads i t')
            ≡ (if ltb (behind s.lock.cur_count m) inv.q then 1 else 0)
      inv_each m w = ground (arith, inv.each m w, moved_each m t')

  abbrev pub issue_lock : TicketLock
  issue_lock = record s.lock { next_count = (s.lock.next_count + 1) % 2 ^ 32 }

  abbrev pub serve_lock : TicketLock
  serve_lock = record s.lock { cur_count = (mover.cur_num + 1) % 2 ^ 32 }

  pub issue-Inv :
      mover.pc ≡ idle
      → Inv a n (record {
        lock = issue_lock;
        threads =
            update s.threads i (record mover { ticket_num = s.lock.next_count; pc = first_load });
      })
  issue-Inv p = record {
    q = inv.q + 1;
    word = inv.word;
    next = omega (arith, inv.next);
    total = ground (arith, inv.total, moved taken);
    each = λ k w. each_taken k w;
    locals = locals-update issue_lock taken own (λ j hj e.
        IsLocal-issue a s.lock issue_lock.next_count (s.threads j).pc (s.threads j)
          (inv.locals j hj));
  }
    where
      taken : Thread
      taken = record mover { ticket_num = s.lock.next_count; pc = first_load }

      more : inv.q + 1 ≤ n
      more = ground (arith, inv.total, moved taken, few_tickets taken)

      each_taken :
          (k : ℕ)
          → IsWord k
          → sum_over (uses_ticket k) n (update s.threads i taken)
            ≡ (if ltb (behind s.lock.cur_count k) (inv.q + 1) then 1 else 0)
      each_taken k w = ground (
        arith,
        inv.each k w,
        moved_each k taken,
        inv.next,
        issue_count s.lock.cur_count k inv.q inv.word w (omega (arith, more)),
      )

      own : IsWord s.lock.next_count × IsQuiet mover.kernel
      own = (omega (arith, inv.next), subst (λ x. IsLocal a s.lock x mover) p (inv.locals i lt))

  pub serve-Inv :
      mover.pc ≡ unlock_store
      → Inv a n (record {
        lock = serve_lock;
        threads = update s.threads i (record mover { ret = 0; pc = idle });
      })
  serve-Inv p = record {
    q = inv.q - 1;
    word = omega arith;
    next = omega (arith, inv.next, first.1, some_ticket);
    total = ground (arith, inv.total, moved served);
    each = λ k w. each_served k w;
    locals = locals-update serve_lock served first.2 others;
  }
    where
      served : Thread
      served = record mover { ret = 0; pc = idle }

      first :
          (mover.ticket_num ≡ s.lock.cur_count)
          × (mover.cur_num ≡ s.lock.cur_count)
          × IsQuiet mover.kernel
      first = subst (λ x. IsLocal a s.lock x mover) p (inv.locals i lt)

      some_ticket : 0 < inv.q
      some_ticket = ground (arith, inv.total, le-sum_over uses n s.threads i lt)

      at_most : inv.q ≤ n
      at_most = omega (arith, inv.total, sum_over-le uses 1 uses-le_one n s.threads)

      each_served :
          (k : ℕ)
          → IsWord k
          → sum_over (uses_ticket k) n (update s.threads i served)
            ≡ (if ltb (behind ((mover.cur_num + 1) % 2 ^ 32) k) (inv.q - 1) then 1 else 0)
      each_served k w = ground (
        arith,
        inv.each k w,
        moved_each k served,
        first.0,
        first.1,
        serve_count s.lock.cur_count k inv.q inv.word w (omega (arith, at_most)) some_ticket,
      )

      others :
          (j : ℕ) → j < n → (i == j) ≡ false → IsLocal a serve_lock (s.threads j).pc (s.threads j)
      others j hj e =
          IsLocal-serve a s.lock serve_lock.cur_count (s.threads j).pc (s.threads j)
            (λ h t. absurd (
              ground (
                arith,
                ticket_unique inv s.lock.cur_count inv.word i j lt hj (ground (arith, first.0))
                    (ground arith),
              )))
            (inv.locals j hj)
