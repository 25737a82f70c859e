-- ===== src/Mcs/Waiting.antt =====
-- Whom `lock` of the MCS lock waits for, in every reachable state: nobody.
use autolock.Base.{ℕ, ◌≡◌, refl, sym, arith, Bool, true, ◌==◌, update, update-all}
use mathlib.Core.Path.{subst}
use autolock.Mcs.{
  McsNode, McsLock, Pc, idle, store_mem, store_next, swap, init_page, set_mem, set_for, set_neq,
  link, wait, futex, sleeping, try_store_mem, try_store_next, try_exchange, critical, remove,
  await_next, Thread, Env, dispatch, entered, mcs_unlocked,
}

pub record System : Type 0 where
  pub lock : McsLock
  pub threads : ℕ → Thread

unfoldable pub step : Bool → Env → System → ℕ → System
unfolding dispatch
step a e s i =
    let (l, t) = dispatch a e (s.threads i).pc s.lock (s.threads i) in
    record { lock = l; threads = update s.threads i t }

-- The reachable states: at first no thread is in a call, whatever is in the memory; then any thread
-- makes the next step, with any node for its call, also one that is in use.
pub data Reach (a : Bool) : System → Type 0 where
  start : {s : System} → ((i : ℕ) → (s.threads i).pc ≡ idle) → Reach a s
  later : {s : System} (i : ℕ) (e : Env) → Reach a s → Reach a (step a e s i)

abbrev word : McsLock → ℕ → ℕ
word l p = (l.nodes p).mem

-- What is known of a thread where it stands: inside `lock`, from the first store to its node on,
-- the word of this is I_MCS_UNLOCKED.
abbrev At : McsLock → Thread → Pc → Type 0
At l t store_next = word l t.node ≡ mcs_unlocked
At l t swap = word l t.node ≡ mcs_unlocked
At l t init_page = word l t.node ≡ mcs_unlocked
At l t set_mem = word l t.node ≡ mcs_unlocked
At l t set_for = word l t.node ≡ mcs_unlocked
At l t set_neq = word l t.node ≡ mcs_unlocked
At l t link = word l t.node ≡ mcs_unlocked
At l t wait = word l t.node ≡ mcs_unlocked
At l t futex = ⊥
At l t sleeping = ⊥
At l t p = Unit {0}

-- A change of the nodes that sets no word to another value.
abbrev Keeps : McsLock → McsLock → Type 0
Keeps l l' = (p : ℕ) → word l p ≡ mcs_unlocked → word l' p ≡ mcs_unlocked

At-keeps : (l l' : McsLock) (t : Thread) (p : Pc) → Keeps l l' → At l t p → At l' t p
At-keeps l l' t store_next k h = k t.node h
At-keeps l l' t swap k h = k t.node h
At-keeps l l' t init_page k h = k t.node h
At-keeps l l' t set_mem k h = k t.node h
At-keeps l l' t set_for k h = k t.node h
At-keeps l l' t set_neq k h = k t.node h
At-keeps l l' t link k h = k t.node h
At-keeps l l' t wait k h = k t.node h
At-keeps l l' t futex k h = h
At-keeps l l' t sleeping k h = h
At-keeps l l' t p k h = ground arith

stored :
    (l : McsLock) (n : McsNode) (q : ℕ)
    → (word l q ≡ mcs_unlocked → n.mem ≡ mcs_unlocked)
    → Keeps l (record l { nodes = update l.nodes q n })
stored l n q z =
    update-all (λ p x. word l p ≡ mcs_unlocked → x.mem ≡ mcs_unlocked) l.nodes q n z (λ p ne h. h)

here : (l : McsLock) (n : McsNode) (q : ℕ) → n.mem ≡ mcs_unlocked → (update l.nodes q n q).mem ≡ 0
here l n q z = rw (same q) z
  where
    same : (k : ℕ) → (k == k) ≡ true
    same k = ground arith

dispatch-Keeps :
    (a : Bool) (e : Env) (p : Pc) (l : McsLock) (t : Thread) → Keeps l (dispatch a e p l t).0
unfolding dispatch
dispatch-Keeps a e store_mem l t = stored l _ t.node (λ h. refl)
dispatch-Keeps a e store_next l t = stored l _ t.node (λ h. h)
dispatch-Keeps a e link l t = stored l _ t.tail (λ h. h)
dispatch-Keeps a e try_store_mem l t = stored l _ t.node (λ h. refl)
dispatch-Keeps a e try_store_next l t = stored l _ t.node (λ h. h)
dispatch-Keeps a e p l t = λ q h. ground (arith, h)

-- A thread's own step.
dispatch-At :
    (a : Bool) (e : Env) (p : Pc) (l : McsLock) (t : Thread)
    → t.pc ≡ p
    → At l t p
    → (let (l', t') = dispatch a e p l t in At l' t' t'.pc)
unfolding dispatch
dispatch-At a e idle l t q h = ground (arith, q)
dispatch-At a e store_mem l t q h = here l _ t.node refl
dispatch-At a e store_next l t q h = stored l _ t.node (λ h. h) t.node h
dispatch-At a e swap l t q h = ground (arith, h)
dispatch-At a e init_page l t q h = ground (arith, h)
dispatch-At a e set_mem l t q h = h
dispatch-At a e set_for l t q h = h
dispatch-At a e set_neq l t q h = h
dispatch-At a e link l t q h = stored l _ t.tail (λ h. h) t.node h
dispatch-At a e wait l t q h = ground (arith, h)
dispatch-At a e try_exchange l t q h = ground (arith, h)
dispatch-At a e critical l t q h = ground (arith, h)
dispatch-At a e remove l t q h = ground (arith, h)
dispatch-At a e await_next l t q h = ground (arith, h)
dispatch-At a e futex l t q h = absurd h
dispatch-At a e sleeping l t q h = absurd h
dispatch-At a e p l t q h = tt

Reach-At : {a : Bool} {s : System} → Reach a s → (i : ℕ) → At s.lock (s.threads i) (s.threads i).pc
unfolding step
Reach-At (start {s} out) i = subst (At s.lock (s.threads i)) (sym (out i)) tt
Reach-At {a} (later {s} i e r) j =
    update-all (λ j t. At (dispatch a e (s.threads i).pc s.lock (s.threads i)).0 t t.pc) s.threads i
      (dispatch a e (s.threads i).pc s.lock (s.threads i)).1
      (dispatch-At a e (s.threads i).pc s.lock (s.threads i) refl (Reach-At r i))
      (λ j ne.
        At-keeps s.lock (dispatch a e (s.threads i).pc s.lock (s.threads i)).0 (s.threads j)
          (s.threads j).pc (dispatch-Keeps a e (s.threads i).pc s.lock (s.threads i))
          (Reach-At r j))
      j

-- The lock excludes nobody: in every reachable state, of any number of threads with any nodes, with
-- and without autolock, whoever has the lock: no thread is at futex_wait or asleep in it, and one
-- that has come to the loop of `lock` leaves it at its next step, for the end of `lock`.
pub lock_waits_for_nobody :
    {a : Bool} {s : System} (e : Env) (i : ℕ)
    → Reach a s
    → ((s.threads i).pc ≡ futex → ⊥)
      × ((s.threads i).pc ≡ sleeping → ⊥)
      × ((s.threads i).pc ≡ wait → ((step a e s i).threads i).pc ≡ entered a)
unfolding step dispatch
lock_waits_for_nobody {a} {s} e i r =
    let h = Reach-At r i in
    (
      λ q. subst (At s.lock (s.threads i)) q h,
      λ q. subst (At s.lock (s.threads i)) q h,
      λ q. at_wait q (subst (At s.lock (s.threads i)) q h),
    )
  where
    at_wait :
        (s.threads i).pc ≡ wait
        → word s.lock (s.threads i).node ≡ 0
        → ((step a e s i).threads i).pc ≡ entered a
    at_wait q z = rw (same i, q, z) refl
      where
        same : (k : ℕ) → (k == k) ≡ true
        same k = ground arith
