-- ===== src/Cptltkt.antt =====
-- The partitioned ticket lock over ticket locks of the sockets, of
-- user-dev/src/autolock-impls/locks/internal/cptltkt-lock-base.h, with the loops of
-- lock-wait-common.h: one access to a word that threads share, or one update of the kernel page, is
-- one step of a thread. `batch_count`, `owner_req_num` and `cur_psl`, which the code reads and writes
-- as plain words between these accesses, change in the step of the access next to them.
use autolock.Base.{
  ℕ, ◌+◌, ◌-◌, ◌%◌, ◌^◌, Bool, true, false, not, ◌&&◌, Option, none, some, ◌==◌, if◌then◌else◌,
  update,
}
use autolock.Kernel.{
  KernelAutolock, Syscalls, autolock_init_kernel_state, set_watch_mem, set_watch_for, set_watch_neq,
  i_success, i_failure,
}
mod Slots
mod Invariant
mod Others
mod Steps
mod Moves
mod Line
mod Entering
mod Safety
mod System
mod Tests

abbrev has_socket : ℕ
has_socket = 1

abbrev doesnt_have_socket : ℕ
doesnt_have_socket = 0

abbrev socket_batch_count : ℕ
socket_batch_count = 100

-- `I_cptltkt_cpu_tkl_t`.
pub record CpuTkl : Type 0 where
  pub grant : ℕ
  pub requests : ℕ
  pub socket_grant : ℕ
  pub batch_count : ℕ
  pub owner_req_num : ℕ

-- `I_cptltkt_socket_tkl_t`.
pub record SocketTkl : Type 0 where
  pub request : ℕ
  pub grants : ℕ → ℕ

-- `I_cptltkt_lock_base_t`: `cur_psl` is the number of the element it points to, `none` while it is
-- NULL.
pub record CptltktLock : Type 0 where
  pub inter_socket_lock : SocketTkl
  pub per_socket_lock : ℕ → CpuTkl
  pub cur_psl : Option ℕ

-- NUM_NUMA_NODES, which the build finds out, and where the words `grant` of the sockets and the words
-- of `grants` are.
pub record Layout : Type 0 where
  pub num_numa_nodes : ℕ
  pub grant_addr : ℕ → ℕ
  pub grants_addr : ℕ → ℕ

-- Where a thread stands: from `init_page` to `own` it is in `lock`, behind the fetch-and-add of the
-- lock of its socket; behind `critical`, in `unlock`.
pub data Pc : Type 0 where
  idle : Pc
  init_page set_for set_neq set_mem : Pc
  pausing yielding : Pc
  check_socket take_socket disarm_socket : Pc
  request_global : Pc
  global_for global_neq global_mem : Pc
  yielding_global disarm_global own : Pc
  critical : Pc
  load_requests pass_socket pass_grant release_global release_local : Pc
  fault : Pc  -- an access through a NULL `cur_psl`, or through the NULL of a refused page

-- A thread with the locals of the calls; `local_lock` is the number of a socket.
pub record Thread : Type 0 where
  pub pc : Pc
  pub kernel : Option KernelAutolock
  pub local_lock : ℕ
  pub req_num : ℕ
  pub next_grant : ℕ

-- What comes from outside at a step: the socket on which a thread that calls `lock` runs, and the
-- results of the system calls.
pub record Env : Type 0 where
  pub socket : ℕ
  pub sys : Syscalls

abbrev goto : Thread → Pc → Thread
goto t p = record t { pc = p }

abbrev on_page : (KernelAutolock → KernelAutolock) → Thread → Thread
on_page f t = record t { kernel = elim t.kernel [ none ↦ none | some k ↦ some (f k) ] }

abbrev on_socket : ℕ → (CpuTkl → CpuTkl) → CptltktLock → CptltktLock
on_socket i f l = record l {
  per_socket_lock = update l.per_socket_lock i (f (l.per_socket_lock i));
}

-- A counter of 32 bits, incremented.
abbrev next : ℕ → ℕ
next n = (n + 1) % 2 ^ 32

abbrev zeroed : CpuTkl
zeroed = record { grant = 0; requests = 0; socket_grant = 0; batch_count = 0; owner_req_num = 0 }

abbrev pub cleared : CptltktLock
cleared = record {
  inter_socket_lock = record { request = 0; grants = λ i. 0 };
  per_socket_lock = λ i. zeroed;
  cur_psl = none;
}

-- `destroy`, and `init` with I_WITH_AUTOLOCK first; the last part is the return value.
abbrev pub destroy : CptltktLock → CptltktLock × ℕ
destroy l = (l, i_success)

abbrev pub init :
    Bool → Syscalls → Option KernelAutolock → CptltktLock → CptltktLock × Option KernelAutolock × ℕ
unfolding autolock_init_kernel_state
init with_autolock sys k l =
    if with_autolock
    then elim (autolock_init_kernel_state sys k) [
      | none ↦ (cleared, none, i_failure)
      | some k' ↦ (cleared, some k', i_success)
    ]
    else (cleared, k, i_success)

-- The value of `trylock`, or the end of the program at its assertion.
abbrev pub trylock : CptltktLock → Option ℕ
trylock l = none

abbrev prepare : Option KernelAutolock → Thread → Thread
prepare none t = goto t fault
prepare (some k) t = record t { kernel = some k; pc = set_for }

-- `unlock` with the `cur_psl` that it has loaded.
abbrev leave : Option ℕ → CptltktLock → Thread → Thread
leave none l t = goto t fault
leave (some i) l t = record t {
  local_lock = i;
  next_grant = next (l.per_socket_lock i).grant;
  pc = load_requests;
}

-- `unlock`, where the lock of the socket has the number of requests that was loaded: with somebody
-- waiting, the socket keeps the lock as long as its batch lasts.
abbrev choose : CpuTkl → CptltktLock → Thread → CptltktLock × Thread
choose c l t =
    if c.requests == t.next_grant
    then (l, goto t release_global)
    else if c.batch_count == 0
    then (
      on_socket t.local_lock (λ d. record d { batch_count = socket_batch_count }) l,
      goto t release_global,
    )
    else (
      on_socket t.local_lock (λ d. record d { batch_count = c.batch_count - 1 }) l,
      goto t pass_socket,
    )

-- With I_WITH_AUTOLOCK first. `lock_wait` with a number of rounds leaves its loop after the first
-- one, as the counter it tests comes from below 0.
pub dispatch : Bool → Layout → Env → Pc → CptltktLock → Thread → CptltktLock × Thread
unfolding autolock_init_kernel_state
dispatch a w e idle l t = (
  on_socket e.socket (λ c. record c { requests = next c.requests }) l,
  record t {
    local_lock = e.socket;
    req_num = (l.per_socket_lock e.socket).requests;
    pc = if a then init_page else pausing;
  },
)
dispatch a w e init_page l t = (l, prepare (autolock_init_kernel_state e.sys t.kernel) t)
dispatch a w e set_for l t = (l, goto (on_page (set_watch_for t.req_num) t) set_neq)
dispatch a w e set_neq l t = (l, goto (on_page (set_watch_neq 0) t) set_mem)
dispatch a w e set_mem l t =
    (l, goto (on_page (set_watch_mem (some (w.grant_addr t.local_lock))) t) pausing)
dispatch a w e pausing l t =
    let c = l.per_socket_lock t.local_lock in
    (l, goto t (if c.grant == t.req_num then check_socket else yielding))
dispatch a w e yielding l t =
    let c = l.per_socket_lock t.local_lock in
    (l, goto t (if c.grant == t.req_num then check_socket else yielding))
dispatch a w e check_socket l t =
    let c = l.per_socket_lock t.local_lock in
    (l, goto t (if c.socket_grant == doesnt_have_socket then request_global else take_socket))
dispatch a w e take_socket l t = (
  on_socket t.local_lock (λ c. record c { socket_grant = doesnt_have_socket }) l,
  goto t (if a then disarm_socket else critical),
)
dispatch a w e disarm_socket l t = (l, goto (on_page (set_watch_mem none) t) critical)
dispatch a w e request_global l t =
    let g = l.inter_socket_lock in
    (
      record l { inter_socket_lock = record g { request = next g.request } },
      record t { req_num = g.request; pc = if a then global_for else yielding_global },
    )
dispatch a w e global_for l t = (l, goto (on_page (set_watch_for t.req_num) t) global_neq)
dispatch a w e global_neq l t = (l, goto (on_page (set_watch_neq 0) t) global_mem)
dispatch a w e global_mem l t =
    let p = w.grants_addr (t.req_num % w.num_numa_nodes) in
    (l, goto (on_page (set_watch_mem (some p)) t) yielding_global)
dispatch a w e yielding_global l t =
    let granted = l.inter_socket_lock.grants (t.req_num % w.num_numa_nodes) in
    (
      l,
      goto t (if granted == t.req_num then (if a then disarm_global else own) else yielding_global),
    )
dispatch a w e disarm_global l t = (l, goto (on_page (set_watch_mem none) t) own)
dispatch a w e own l t = (
  record (on_socket t.local_lock (λ c. record c { owner_req_num = t.req_num }) l) {
    cur_psl = some t.local_lock;
  },
  goto t critical,
)
dispatch a w e critical l t = (l, leave l.cur_psl l t)
dispatch a w e load_requests l t = choose (l.per_socket_lock t.local_lock) l t
dispatch a w e pass_socket l t =
    (on_socket t.local_lock (λ c. record c { socket_grant = has_socket }) l, goto t pass_grant)
dispatch a w e pass_grant l t =
    (on_socket t.local_lock (λ c. record c { grant = t.next_grant }) l, goto t idle)
dispatch a w e release_global l t =
    let g = l.inter_socket_lock in
    let req_num = next (l.per_socket_lock t.local_lock).owner_req_num in
    (
      record l {
        inter_socket_lock = record g {
          grants = update g.grants (req_num % w.num_numa_nodes) req_num;
        };
      },
      record t { req_num = req_num; pc = release_local },
    )
dispatch a w e release_local l t =
    (on_socket t.local_lock (λ c. record c { grant = t.next_grant }) l, goto t idle)
dispatch a w e fault l t = (l, goto t fault)
