-- ===== src/Clh/Invariant.antt =====
-- What holds of the CLH lock between any two steps.
use autolock.Base.{ap, ◌∙◌, arith, ℕ, suc, ◌-◌, ◌≤◌, ◌<◌, ◌≡◌, ◌≢◌, Bool, true, false, some, ◌==◌}
use autolock.Clh.{
  ClhLock, Pc, idle, swap, disarm, free_prev, set_head, critical, unlock_store, fault, wild, Thread,
  History, System, clh_unlocked, clh_locked,
}

-- What a thread has of the lock.
pub data Phase : Type 0 where
  out swapping queued acquired cleared holding releasing broken : Phase

abbrev pub phase : Pc → Phase
phase idle = out
phase fault = out
phase wild = broken
phase swap = swapping
phase disarm = acquired
phase free_prev = acquired
phase set_head = cleared
phase critical = holding
phase unlock_store = releasing
phase p = queued

abbrev pub in_queue : Phase → Bool
in_queue queued = true
in_queue acquired = true
in_queue cleared = true
in_queue holding = true
in_queue releasing = true
in_queue p = false

-- The nodes from `freed` to `issued` are allocated, are different, and are unlocked up to `served`.
pub record Global (l : ClhLock) (h : History) : Type 0 where
  pub served-freed : h.served ≤ h.freed
  pub freed-served : h.freed ≤ suc h.served
  pub freed-issued : h.freed ≤ h.issued
  pub last : l.tail ≡ h.order h.issued
  pub unlocked : (k : ℕ) → h.freed ≤ k → k ≤ h.served → l.heap (h.order k) ≡ some clh_unlocked
  pub locked :
      (k : ℕ) → h.served < k → h.freed ≤ k → k ≤ h.issued → l.heap (h.order k) ≡ some clh_locked
  pub different :
      (j k : ℕ)
      → h.freed ≤ j
      → j ≤ h.issued
      → h.freed ≤ k
      → k ≤ h.issued
      → h.order j ≡ h.order k
      → j ≡ k

-- What a thread's phase says of it, with its turn.
abbrev pub Local : ClhLock → History → Phase → ℕ → Thread → Type 0
Local l h out turn t = Unit
Local l h broken turn t = ⊥
Local l h swapping turn t =
    (l.heap t.node ≡ some clh_locked) × ((k : ℕ) → h.freed ≤ k → k ≤ h.issued → h.order k ≢ t.node)
Local l h queued turn t =
    (h.freed < turn) × (turn ≤ h.issued) × (t.prev ≡ h.order (turn - 1)) × (t.node ≡ h.order turn)
Local l h acquired turn t =
    (turn ≡ suc h.served)
    × (h.freed ≡ h.served)
    × (turn ≤ h.issued)
    × (t.prev ≡ h.order (turn - 1))
    × (t.node ≡ h.order turn)
Local l h cleared turn t =
    (turn ≡ suc h.served) × (h.freed ≡ turn) × (turn ≤ h.issued) × (t.node ≡ h.order turn)
Local l h holding turn t =
    (turn ≡ suc h.served) × (h.freed ≡ turn) × (turn ≤ h.issued) × (l.head ≡ some (h.order turn))
Local l h releasing turn t =
    (turn ≡ suc h.served) × (h.freed ≡ turn) × (turn ≤ h.issued) × (t.target ≡ h.order turn)

-- A phase only speaks of the three pointers of a thread.
pub Local-same :
    (l : ClhLock) (h : History) (q : Phase) (turn : ℕ) (t u : Thread)
    → u.node ≡ t.node
    → u.prev ≡ t.prev
    → u.target ≡ t.target
    → Local l h q turn t
    → Local l h q turn u
Local-same l h out turn t u n p g o = tt
Local-same l h broken turn t u n p g o = o
Local-same l h swapping turn t u n p g o = (ap l.heap n ∙ o.0, λ k a b e. o.1 k a b (e ∙ n))
Local-same l h queued turn t u n p g (a, b, c, d) = (a, b, p ∙ c, n ∙ d)
Local-same l h acquired turn t u n p g (a, b, c, d, e) = (a, b, c, p ∙ d, n ∙ e)
Local-same l h cleared turn t u n p g (a, b, c, d) = (a, b, c, n ∙ d)
Local-same l h holding turn t u n p g o = o
Local-same l h releasing turn t u n p g (a, b, c, d) = (a, b, c, g ∙ d)

pub turn-le :
    (l : ClhLock) (h : History) (q : Phase) (turn : ℕ) (t : Thread)
    → in_queue q ≡ true
    → Local l h q turn t
    → turn ≤ h.issued
turn-le l h out turn t q o = absurd (ground arith)
turn-le l h broken turn t q o = absurd (ground arith)
turn-le l h swapping turn t q o = absurd (ground arith)
turn-le l h queued turn t q o = o.1
turn-le l h acquired turn t q o = o.2
turn-le l h cleared turn t q o = o.2
turn-le l h holding turn t q o = o.2
turn-le l h releasing turn t q o = o.2

abbrev pub phase_at : System → ℕ → Phase
phase_at s i = phase (s.threads i).pc

pub record Inv (s : System) : Type 0 where
  pub global : Global s.lock s.history
  pub locals : (i : ℕ) → Local s.lock s.history (phase_at s i) (s.history.turn i) (s.threads i)
  pub turns :
      (i j : ℕ)
      → (i == j) ≡ false
      → in_queue (phase_at s i) ≡ true
      → in_queue (phase_at s j) ≡ true
      → s.history.turn i ≢ s.history.turn j
  pub nodes :
      (i j : ℕ)
      → (i == j) ≡ false
      → phase_at s i ≡ swapping
      → phase_at s j ≡ swapping
      → (s.threads i).node ≢ (s.threads j).node
