-- ===== src/Clh/Leaving.antt =====
-- The changes at the front of the queue: a node is freed, put into `head`, or unlocked.
use autolock.Base.{ℕ, suc, ◌≤◌, ◌<◌, ◌≡◌, ◌≢◌, refl, sym, ap, ◌∙◌, arith, true, none, some, update}
use autolock.Clh.{ClhLock, Thread, History, clh_unlocked}
use autolock.Clh.Invariant.{
  Phase, out, swapping, queued, acquired, cleared, holding, releasing, broken, in_queue, Global,
  Local,
}
use autolock.Clh.Others.{update-same, update-ne}

module _ (l : ClhLock) (h : History) (g : Global l h) where
  -- The thread whose turn it is has the node in front of its own, at `x`, and frees it.
  module _ (x : ℕ) (e : x ≡ h.order h.served) (first : h.freed ≡ h.served)
      (next : h.served < h.issued) where
    abbrev pub without : ClhLock
    without = record l { heap = update l.heap x none }

    abbrev pub one_freed : History
    one_freed = record h { freed = suc h.freed }

    kept : (y : ℕ) → h.order h.served ≢ y → without.heap y ≡ l.heap y
    kept y ne = update-ne l.heap x y none (λ q. ne (sym e ∙ q))

    later_node : (k : ℕ) → h.served < k → k ≤ h.issued → h.order h.served ≢ h.order k
    later_node k a b q = absurd (
        omega (
          arith,
          a,
          g.different h.served k (omega (arith, first)) (omega (arith, next))
              (omega (arith, first, a)) b q,
        ))

    pub free-Global : Global without one_freed
    free-Global = record {
      served-freed = omega (arith, g.served-freed);
      freed-served = omega (arith, first);
      freed-issued = omega (arith, first, next);
      last = g.last;
      unlocked = λ k a b. absurd (omega (arith, first, a, b));
      locked = λ k a b c. kept _ (later_node k a c) ∙ g.locked k a (omega (arith, b)) c;
      different = λ j k a b c d. g.different j k (omega (arith, a)) b (omega (arith, c)) d;
    }

    pub free-Local :
        (q : Phase) (turn : ℕ) (u : Thread)
        → (in_queue q ≡ true → turn ≢ suc h.served)
        → Local l h q turn u
        → Local without one_freed q turn u
    free-Local out turn u ne o = tt
    free-Local broken turn u ne o = o
    free-Local swapping turn u ne o = (
      kept _ (o.1 h.served (omega (arith, first)) (omega (arith, next))) ∙ o.0,
      λ k a b. o.1 k (omega (arith, a)) b,
    )
    free-Local queued turn u ne (a, b, c, d) = (further a (ne refl), b, c, d)
      where
        further : h.freed < turn → turn ≢ suc h.served → suc h.freed < turn
        further a ne = ground (arith, a, ne, first)
    free-Local acquired turn u ne o = absurd (ne refl o.0)
    free-Local cleared turn u ne o = absurd (ne refl o.0)
    free-Local holding turn u ne o = absurd (ne refl o.0)
    free-Local releasing turn u ne o = absurd (ne refl o.0)

  -- It puts its own node, at `y`, into `head`.
  abbrev pub headed : ℕ → ClhLock
  headed y = record l { head = some y }

  pub head-Global : (y : ℕ) → Global (headed y) h
  head-Global y = record {
    served-freed = g.served-freed;
    freed-served = g.freed-served;
    freed-issued = g.freed-issued;
    last = g.last;
    unlocked = g.unlocked;
    locked = g.locked;
    different = g.different;
  }

  pub head-Local :
      (y : ℕ) (q : Phase) (turn : ℕ) (u : Thread)
      → (in_queue q ≡ true → turn ≢ suc h.served)
      → Local l h q turn u
      → Local (headed y) h q turn u
  head-Local y out turn u ne o = tt
  head-Local y broken turn u ne o = o
  head-Local y swapping turn u ne o = o
  head-Local y queued turn u ne o = o
  head-Local y acquired turn u ne o = absurd (ne refl o.0)
  head-Local y cleared turn u ne o = absurd (ne refl o.0)
  head-Local y holding turn u ne o = absurd (ne refl o.0)
  head-Local y releasing turn u ne o = absurd (ne refl o.0)

  -- It unlocks that node.
  module _ (x : ℕ) (e : x ≡ h.order (suc h.served)) (first : h.freed ≡ suc h.served) where
    abbrev pub released : ClhLock
    released = record l { heap = update l.heap x (some clh_unlocked) }

    abbrev pub one_served : History
    one_served = record h { served = suc h.served }

    left : (y : ℕ) → h.order (suc h.served) ≢ y → released.heap y ≡ l.heap y
    left y ne = update-ne l.heap x y (some clh_unlocked) (λ q. ne (sym e ∙ q))

    later_one : (k : ℕ) → suc h.served < k → k ≤ h.issued → h.order (suc h.served) ≢ h.order k
    later_one k a b q = absurd (
        omega (
          arith,
          a,
          g.different (suc h.served) k (omega (arith, first)) (omega (arith, first, g.freed-issued))
              (omega (arith, first, a)) b q,
        ))

    pub release-Global : Global released one_served
    release-Global = record {
      served-freed = omega (arith, first);
      freed-served = omega (arith, first);
      freed-issued = g.freed-issued;
      last = g.last;
      unlocked = λ k a b.
          ap (λ j. released.heap (h.order j)) (omega (arith, first, a, b))
          ∙ ap released.heap (sym e)
          ∙ update-same l.heap x (some clh_unlocked);
      locked = λ k a b c. left _ (later_one k a c) ∙ g.locked k (omega (arith, a)) b c;
      different = g.different;
    }

    pub release-Local :
        (q : Phase) (turn : ℕ) (u : Thread)
        → (in_queue q ≡ true → turn ≢ suc h.served)
        → Local l h q turn u
        → Local released one_served q turn u
    release-Local out turn u ne o = tt
    release-Local broken turn u ne o = o
    release-Local swapping turn u ne o = (
      left _ (o.1 (suc h.served) (omega (arith, first)) (omega (arith, first, g.freed-issued)))
          ∙ o.0,
      o.1,
    )
    release-Local queued turn u ne o = o
    release-Local acquired turn u ne o = absurd (ne refl o.0)
    release-Local cleared turn u ne o = absurd (ne refl o.0)
    release-Local holding turn u ne o = absurd (ne refl o.0)
    release-Local releasing turn u ne o = absurd (ne refl o.0)
