-- ===== src/Cptltkt/System.antt =====
-- Threads on one lock of Cptltkt.antt, in any order, with the numbers of both kinds of ticket locks
-- before they wrap around.
use autolock.Base.{ℕ, suc, ◌<◌, ◌≡◌, Bool, true, false, update}
use autolock.Cptltkt.{
  CptltktLock, Layout, Pc, idle, request_global, pass_grant, release_global, release_local, Thread,
  Env, dispatch, cleared,
}

-- For the theorems only: how many requests each socket's lock has granted and been asked for, and the
-- number of each thread among them; which sockets are in the line of the lock between the sockets,
-- with which number; and how many of these were served and issued.
pub record History : Type 0 where
  pub granted : ℕ → ℕ
  pub asked : ℕ → ℕ
  pub turn : ℕ → ℕ
  pub queued : ℕ → Bool
  pub number : ℕ → ℕ
  pub served : ℕ
  pub issued : ℕ

-- What a step of the thread `i`, which calls `lock` on `socket` if it is idle, adds.
unfoldable pub note : Pc → ℕ → ℕ → Thread → History → History
note idle i socket t h = record h {
  asked = update h.asked socket (suc (h.asked socket));
  turn = update h.turn i (h.asked socket);
}
note request_global i socket t h = record h {
  queued = update h.queued t.local_lock true;
  number = update h.number t.local_lock h.issued;
  issued = suc h.issued;
}
note release_global i socket t h = record h {
  queued = update h.queued t.local_lock false;
  served = suc h.served;
}
note pass_grant i socket t h = record h {
  granted = update h.granted t.local_lock (suc (h.granted t.local_lock));
}
note release_local i socket t h = record h {
  granted = update h.granted t.local_lock (suc (h.granted t.local_lock));
}
note p i socket t h = h

pub record System : Type 0 where
  pub lock : CptltktLock
  pub threads : ℕ → Thread
  pub history : History

abbrev pub advance : Bool → Layout → Env → System → ℕ → System
advance a w e s i =
    let (l, t) = dispatch a w e (s.threads i).pc s.lock (s.threads i) in
    record {
      lock = l;
      threads = update s.threads i t;
      history = note (s.threads i).pc i e.socket (s.threads i) s.history;
    }

-- As `init` leaves the lock.
pub record Start (s : System) : Type 0 where
  pub lock : s.lock ≡ cleared
  pub pc : (i : ℕ) → (s.threads i).pc ≡ idle
  pub granted : (k : ℕ) → s.history.granted k ≡ 0
  pub asked : (k : ℕ) → s.history.asked k ≡ 0
  pub queued : (k : ℕ) → s.history.queued k ≡ false
  pub served : s.history.served ≡ 0
  pub issued : s.history.issued ≡ 0

-- What `n` threads reach. Each call of `lock` runs on some socket of the machine.
pub data Reach (a : Bool) (w : Layout) (n : ℕ) : System → Type 0 where
  start : {s : System} → Start s → Reach a w n s
  later :
      {s : System} (i : ℕ) (e : Env)
      → i < n
      → e.socket < w.num_numa_nodes
      → Reach a w n s
      → Reach a w n (advance a w e s i)
