-- ===== src/Cptltkt/Invariant.antt =====
-- What holds of the lock of Cptltkt.antt between any two steps, for `n` threads and `m` sockets.
use autolock.Base.{
  one_if, ℕ, suc, ◌+◌, ◌%◌, ◌^◌, ◌≤◌, ◌<◌, ◌≡◌, ◌≢◌, ◌⊎◌, Bool, true, false, ◌&&◌, Option, some,
  ◌==◌, sum_over,
}
use autolock.Cptltkt.{
  CptltktLock, SocketTkl, Pc, idle, check_socket, take_socket, disarm_socket, request_global,
  global_for, global_neq, global_mem, yielding_global, disarm_global, own, critical, load_requests,
  pass_socket, pass_grant, release_global, release_local, Thread,
}
use autolock.Cptltkt.System.{History, System}
use autolock.Cptltkt.Slots.{Holds}

-- What a thread has of the two locks.
pub data Phase : Type 0 where
  out waiting arrived taking asking lined granted holding leaving passed released : Phase

abbrev pub phase : Pc → Phase
phase idle = out
phase check_socket = arrived
phase take_socket = taking
phase request_global = asking
phase global_for = lined
phase global_neq = lined
phase global_mem = lined
phase yielding_global = lined
phase disarm_global = granted
phase own = granted
phase disarm_socket = holding
phase critical = holding
phase load_requests = leaving
phase pass_socket = leaving
phase release_global = leaving
phase pass_grant = passed
phase release_local = released
phase p = waiting

abbrev pub in_queue : Phase → Bool
in_queue out = false
in_queue p = true

-- Whether it is the one that its socket has granted.
abbrev pub owns : Phase → Bool
owns out = false
owns waiting = false
owns p = true

-- What matters of a socket's lock.
pub record View : Type 0 where
  pub grant : ℕ
  pub requests : ℕ
  pub socket_grant : ℕ
  pub owner : ℕ
  pub granted : ℕ
  pub asked : ℕ
  pub queued : Bool
  pub number : ℕ
  pub cur : Option ℕ
  pub served : ℕ

abbrev pub view : CptltktLock → History → ℕ → View
view l h k =
    let c = l.per_socket_lock k in
    record {
      grant = c.grant;
      requests = c.requests;
      socket_grant = c.socket_grant;
      owner = c.owner_req_num;
      granted = h.granted k;
      asked = h.asked k;
      queued = h.queued k;
      number = h.number k;
      cur = l.cur_psl;
      served = h.served;
    }

-- The socket `k` is not in the line; it has the lock; and it has it with nobody inside.
abbrev pub Free : View → Type 0
Free v = (v.socket_grant ≡ 0) × (v.queued ≡ false)

abbrev pub Ours : View → ℕ → Type 0
Ours v k =
    (v.queued ≡ true) × (v.number ≡ v.served) × (v.cur ≡ some k) × (v.owner ≡ v.number % 2 ^ 32)

abbrev pub Loaded : View → ℕ → Type 0
Loaded v k = (v.socket_grant ≡ 1) × Ours v k

abbrev pub Rest : View → ℕ → Type 0
Rest v k = Free v ⊎ Loaded v k

abbrev pub First : View → ℕ → Type 0
First v turn = (turn ≡ v.granted) × (turn < v.asked)

-- What a phase says of a thread on the socket `k`, with its turn and the locals `req_num` and
-- `next_grant`.
abbrev pub Local : View → ℕ → Phase → ℕ → ℕ → ℕ → Type 0
Local v k out turn req next = Unit
Local v k waiting turn req next =
    (v.granted ≤ turn) × (turn < v.asked) × (req ≡ turn % 2 ^ 32) × (turn ≡ v.granted → Rest v k)
Local v k arrived turn req next = First v turn × Rest v k
Local v k taking turn req next = First v turn × Loaded v k
Local v k asking turn req next = First v turn × Free v
Local v k lined turn req next =
    First v turn × (v.socket_grant ≡ 0) × (v.queued ≡ true) × (req ≡ v.number % 2 ^ 32)
Local v k granted turn req next =
    First v turn
    × (v.socket_grant ≡ 0)
    × (v.queued ≡ true)
    × (req ≡ v.number % 2 ^ 32)
    × (v.number ≡ v.served)
Local v k holding turn req next = First v turn × (v.socket_grant ≡ 0) × Ours v k
Local v k leaving turn req next =
    First v turn × (next ≡ suc turn % 2 ^ 32) × (v.socket_grant ≡ 0) × Ours v k
Local v k passed turn req next = First v turn × (next ≡ suc turn % 2 ^ 32) × Loaded v k
Local v k released turn req next = First v turn × (next ≡ suc turn % 2 ^ 32) × Free v

-- The lock of the socket `k`.
pub record SocketInv (v : View) (k : ℕ) : Type 0 where
  pub grant : v.grant ≡ v.granted % 2 ^ 32
  pub requests : v.requests ≡ v.asked % 2 ^ 32
  pub rest : v.granted ≡ v.asked → Rest v k

-- The lock between the sockets, and its line.
pub record QueueInv (m : ℕ) (g : SocketTkl) (h : History) : Type 0 where
  pub request : g.request ≡ h.issued % 2 ^ 32
  pub line : (k : ℕ) → h.queued k ≡ true → (h.served ≤ h.number k) × (h.number k < h.issued)
  pub apart : (j k : ℕ) → h.queued j ≡ true → h.queued k ≡ true → h.number j ≡ h.number k → j ≡ k
  pub length : h.issued ≡ h.served + sum_over one_if m h.queued
  pub slots : (c : ℕ) → Holds m h.served c (g.grants c)

-- Whether a thread is in the queue of the socket `k`.
abbrev pub member : ℕ → Thread → ℕ
member k t = one_if (in_queue (phase t.pc) && t.local_lock == k)

abbrev pub phase_at : System → ℕ → Phase
phase_at s i = phase (s.threads i).pc

abbrev pub LocalAt : CptltktLock → History → ℕ → Thread → Type 0
LocalAt l h turn t =
    Local (view l h t.local_lock) t.local_lock (phase t.pc) turn t.req_num t.next_grant

pub record Inv (n m : ℕ) (s : System) : Type 0 where
  pub sockets : (k : ℕ) → SocketInv (view s.lock s.history k) k
  pub queue : QueueInv m s.lock.inter_socket_lock s.history
  pub members : (k : ℕ) → s.history.asked k ≡ s.history.granted k + sum_over (member k) n s.threads
  pub locals : (i : ℕ) → LocalAt s.lock s.history (s.history.turn i) (s.threads i)
  pub places : (i : ℕ) → in_queue (phase_at s i) ≡ true → (s.threads i).local_lock < m
  pub turns :
      (i j : ℕ)
      → (i == j) ≡ false
      → in_queue (phase_at s i) ≡ true
      → in_queue (phase_at s j) ≡ true
      → (s.threads i).local_lock ≡ (s.threads j).local_lock
      → s.history.turn i ≢ s.history.turn j
