-- ===== src/Clh/Others.antt =====
-- The changes that a step makes to a CLH lock, what they keep of the queue, and what they leave of
-- the other threads' part.
use autolock.Base.{
  ℕ, suc, ◌≤◌, ◌≡◌, ◌≢◌, refl, sym, ap, ◌∙◌, arith, Option, none, some, ◌==◌, ==_iff, update,
  Bool-cases, inl, inr, ◌⊎◌, dec_lt,
}
use autolock.Clh.{ClhLock, Thread, History, clh_locked}
use autolock.Clh.Invariant.{
  Phase, out, swapping, queued, acquired, cleared, holding, releasing, broken, Global, Local,
}

pub update-same : {A : Type 0} (f : ℕ → A) (i : ℕ) (a : A) → update f i a i ≡ a
update-same f i a = ground arith

pub update-ne : {A : Type 0} (f : ℕ → A) (i j : ℕ) (a : A) → i ≢ j → update f i a j ≡ f j
update-ne f i j a ne = elim (Bool-cases (i == j)) [
  | inl q ↦ absurd (ne ((==_iff i j).0 q))
  | inr q ↦ rw q refl
]

none-ne : (f : ℕ → Option ℕ) (p x v : ℕ) → f p ≡ none → f x ≡ some v → p ≢ x
none-ne f p x v a b e = absurd (clash (sym a ∙ ap f e ∙ b))
  where
    clash : none ≡ some v → ⊥
    clash q = ground arith

module _ (l : ClhLock) (h : History) (g : Global l h) where
  -- A node is allocated that was not.
  module _ (p : ℕ) (fresh : l.heap p ≡ none) where
    abbrev pub allocated : ClhLock
    allocated = record l { heap = update l.heap p (some clh_locked) }

    same : (x v : ℕ) → l.heap x ≡ some v → allocated.heap x ≡ some v
    same x v e = update-ne l.heap p x (some clh_locked) (none-ne l.heap p x v fresh e) ∙ e

    pub allocate-Global : Global allocated h
    allocate-Global = record {
      served-freed = g.served-freed;
      freed-served = g.freed-served;
      freed-issued = g.freed-issued;
      last = g.last;
      unlocked = λ k a b. same _ _ (g.unlocked k a b);
      locked = λ k a b c. same _ _ (g.locked k a b c);
      different = g.different;
    }

    pub allocate-Local :
        (q : Phase) (turn : ℕ) (u : Thread) → Local l h q turn u → Local allocated h q turn u
    allocate-Local out turn u o = tt
    allocate-Local broken turn u o = o
    allocate-Local swapping turn u o = (same _ _ o.0, o.1)
    allocate-Local queued turn u o = o
    allocate-Local acquired turn u o = o
    allocate-Local cleared turn u o = o
    allocate-Local holding turn u o = o
    allocate-Local releasing turn u o = o

    -- It is in nobody's hands.
    pub allocate-new : (k : ℕ) → h.freed ≤ k → k ≤ h.issued → h.order k ≢ p
    allocate-new k a b e = elim (dec_lt h.served k) [
      | yes lt ↦ none-ne l.heap p (h.order k) _ fresh (g.locked k lt a b) (sym e)
      | no ge ↦ none-ne l.heap p (h.order k) _ fresh (g.unlocked k a (omega arith)) (sym e)
    ]

    pub allocate-other : (u : Thread) (turn : ℕ) → Local l h swapping turn u → p ≢ u.node
    allocate-other u turn o = none-ne l.heap p u.node _ fresh o.0

  -- A node is put at the end.
  module _ (i n : ℕ) (mem : l.heap n ≡ some clh_locked)
      (new : (k : ℕ) → h.freed ≤ k → k ≤ h.issued → h.order k ≢ n) where
    abbrev pub entered : History
    entered = record h {
      order = update h.order (suc h.issued) n;
      issued = suc h.issued;
      turn = update h.turn i (suc h.issued);
    }

    pub old : (k : ℕ) → k ≤ h.issued → entered.order k ≡ h.order k
    old k le = update-ne h.order (suc h.issued) k n (λ e. absurd (omega (arith, e)))

    pub now : entered.order (suc h.issued) ≡ n
    now = update-same h.order (suc h.issued) n

    -- An index of the queue is an old one or the new one.
    at_most : (k : ℕ) → k ≤ suc h.issued → (k ≤ h.issued) ⊎ (k ≡ suc h.issued)
    at_most k le = elim (dec_lt h.issued k) [
      | yes lt ↦ inr (omega arith)
      | no ge ↦ inl (omega arith)
    ]

    new_one : (k : ℕ) → k ≡ suc h.issued → entered.order k ≡ n
    new_one k e = ap entered.order e ∙ now

    pub enter-Global : Global (record l { tail = n }) entered
    enter-Global = record {
      served-freed = g.served-freed;
      freed-served = g.freed-served;
      freed-issued = omega (arith, g.freed-issued);
      last = sym now;
      unlocked = λ k a b.
          ap l.heap (old k (omega (arith, g.served-freed, g.freed-issued))) ∙ g.unlocked k a b;
      locked = λ k a b c. elim (at_most k c) [
        | inl le ↦ ap l.heap (old k le) ∙ g.locked k a b le
        | inr e ↦ ap l.heap (new_one k e) ∙ mem
      ];
      different = λ j k a b c d e. elim (at_most j b) [
        | inl jl ↦ elim (at_most k d) [
          | inl kl ↦ g.different j k a jl c kl (sym (old j jl) ∙ e ∙ old k kl)
          | inr ke ↦ absurd (new j a jl (sym (old j jl) ∙ e ∙ new_one k ke))
        ]
        | inr je ↦ elim (at_most k d) [
          | inl kl ↦ absurd (new k c kl (sym (old k kl) ∙ sym e ∙ new_one j je))
          | inr ke ↦ je ∙ sym ke
        ]
      ];
    }

    pub enter-Local :
        (q : Phase) (turn : ℕ) (u : Thread)
        → (q ≡ swapping → n ≢ u.node)
        → Local l h q turn u
        → Local (record l { tail = n }) entered q turn u
    enter-Local out turn u ne o = tt
    enter-Local broken turn u ne o = o
    enter-Local swapping turn u ne o = (
      o.0,
      λ k a b. elim (at_most k b) [
        | inl le ↦ λ e. o.1 k a le (sym (old k le) ∙ e)
        | inr e ↦ λ q. ne refl (sym (new_one k e) ∙ q)
      ],
    )
    enter-Local queued turn u ne (a, b, c, d) =
        (a, omega (arith, b), c ∙ sym (old _ (omega (arith, b))), d ∙ sym (old turn b))
    enter-Local acquired turn u ne (a, b, c, d, e) =
        (a, b, omega (arith, c), d ∙ sym (old _ (omega (arith, c))), e ∙ sym (old turn c))
    enter-Local cleared turn u ne (a, b, c, d) = (a, b, omega (arith, c), d ∙ sym (old turn c))
    enter-Local holding turn u ne (a, b, c, d) =
        (a, b, omega (arith, c), d ∙ ap some (sym (old turn c)))
    enter-Local releasing turn u ne (a, b, c, d) = (a, b, omega (arith, c), d ∙ sym (old turn c))
