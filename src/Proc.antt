-- ===== src/Proc.antt =====
-- kern/proc/proc.c, kern/proc/lock.c and machdep_switch of kern/machdep/machdep.c, with locks and
-- without a switch timer, as the generic configuration builds them: another process runs only where
-- the code switches, so a function runs in one piece up to there. Process descriptors are addresses,
-- and their links stand in the heap of Queue.antt. Left out are the bookkeeping of memory and files,
-- the checks of the switch that only panic (the word at the end of the stack, a process that does not
-- run), and the shutdown of the machine once the last process is killed.
pub mod Lists
pub mod Wakeup
pub mod Sleep
pub mod Locks
pub mod Kill
mod Example
use tensix.Base.{ℕ, zero, suc, ◌+◌, ◌-◌, ◌%◌, Bool, true, false, not, ◌&&◌, ◌==◌, if◌then◌else◌}
use tensix.Queue.{Heap, Header, null, clist_remove, clist_insert}
use tensix.Pool.{Pool, pool_salloc, pool_sfree}

-- The globals of proc.c and the fields of the descriptors: the flag PROC_RUNNING of `state`, `lock`,
-- `id` and `next`. `counts` holds the lock counters, by their addresses.
pub record Sched : Type 0 where
  pub heap : Heap
  pub running : Header
  pub sleeping : Header
  pub pool : Pool
  pub is_running : ℕ → Bool
  pub lock : ℕ → ℕ
  pub id : ℕ → ℕ
  pub current : ℕ
  pub context : ℕ
  pub proc_id : ℕ
  pub counts : ℕ → ℕ

-- A field of one descriptor, or one counter, written.
abbrev pub assign {ℓ} : {V : Type ℓ} → (ℕ → V) → ℕ → V → ℕ → V
assign field p v q = if q == p then v else field q

-- What a function that may wait or panic comes to. `spinning` means that the fuel ran out.
pub data Outcome : Type 0 where
  done : Sched → Outcome
  panic : Outcome
  spinning : Outcome

-- `machdep_switch`, up to the point where the process that it switches to has set `proc_context`.
unfoldable pub machdep_switch : Sched → Sched
machdep_switch s =
    let next = (s.heap s.current).next in
    if s.context == null then s else record s { current = next; context = next }

unfoldable pub proc_sleep : Sched → ℕ → Sched
proc_sleep s p =
    let next = (s.heap p).next in
    let (h1, running) = clist_remove s.heap s.running p in
    let (h2, sleeping) = clist_insert h1 s.sleeping p in
    let s1 = record s {
      heap = h2;
      running = running;
      sleeping = sleeping;
      is_running = assign s.is_running p false;
    } in
    if not (s.is_running p)
    then s
    else if not (s.lock p == null)
    then s
    else if p == s.current
    then machdep_switch (record s1 { current = (h2 next).prev })
    else s1

unfoldable pub proc_wakeup : Sched → ℕ → Sched
proc_wakeup s p =
    let (h1, sleeping) = clist_remove s.heap s.sleeping p in
    let (h2, running) = clist_insert h1 s.running p in
    if s.is_running p then s else record s {
      heap = h2;
      running = running;
      sleeping = sleeping;
      is_running = assign s.is_running p true;
    }

unfoldable pub sleep : Sched → Sched
unfolding proc_sleep
sleep s = proc_sleep s s.current

-- The wait of `lock_ref2`, on fuel, of the process `p`.
unfoldable pub lock_wait : ℕ → Sched → ℕ → Outcome
lock_wait zero s p = spinning
lock_wait (suc fuel) s p =
    let rest = lock_wait fuel (sleep s) p in
    if (sleep s).lock p == null then done (sleep s) else rest

unfoldable pub lock_ref2 : ℕ → Sched → ℕ → Bool → Outcome
lock_ref2 fuel s lockp do_wait =
    let count = (s.counts lockp + 1) % 256 in
    let s1 = record s { counts = assign s.counts lockp count } in
    let s2 = record s1 { lock = assign s1.lock s.current lockp } in
    let waited = lock_wait fuel s2 s.current in
    if not do_wait && (count == 1) then done s1 else waited

unfoldable pub lock_ref : ℕ → Sched → ℕ → Outcome
lock_ref fuel s lockp = lock_ref2 fuel s lockp false

unfoldable pub lock_ref_wait : ℕ → Sched → ℕ → Outcome
lock_ref_wait fuel s lockp = lock_ref2 fuel s lockp true

-- The walk of `lock_wakeup` from the process `i` on, along the list of running processes.
unfoldable pub wakeup_walk : ℕ → Sched → ℕ → ℕ → Outcome
wakeup_walk zero s lockp i = spinning
wakeup_walk (suc fuel) s lockp i =
    let n = (s.heap i).next in
    let rest = wakeup_walk fuel s lockp n in
    if s.lock i == lockp
    then done (proc_wakeup (record s { lock = assign s.lock i null }) i)
    else if n == s.current
    then done s
    else rest

unfoldable pub lock_wakeup : ℕ → Sched → ℕ → Outcome
lock_wakeup fuel s lockp = wakeup_walk fuel s lockp s.current

unfoldable pub lock_unref : ℕ → Sched → ℕ → Outcome
lock_unref fuel s lockp =
    let count = s.counts lockp - 1 in
    let s1 = record s { counts = assign s.counts lockp count } in
    let woken = lock_wakeup fuel s1 lockp in
    if s.counts lockp == 0 then panic else if count == 0 then done s1 else woken

-- The end of `proc_kill`, with the process on the list of running ones.
unfoldable pub kill_running : Sched → ℕ → Sched
kill_running s p =
    let next = if (s.heap p).next == s.current then null else (s.heap p).next in
    let (h2, running) = clist_remove s.heap s.running p in
    let (h3, pool) = pool_sfree h2 s.pool p in
    let s2 = record s { heap = h3; running = running; pool = pool } in
    if p == s.current
    then record s2 { current = if next == null then next else (h3 next).prev }
    else s2

-- What `proc_kill` does behind the release of a lock that the process holds and the bookkeeping.
unfoldable pub kill_tail : Sched → ℕ → Sched
kill_tail s p = kill_running (proc_wakeup s p) p

unfoldable pub proc_kill : ℕ → Sched → ℕ → Outcome
proc_kill fuel s p =
    if s.lock p == null then done (kill_tail s p) else (elim (lock_unref fuel s (s.lock p)) [
      | done s1 ↦ done (kill_tail s1 p)
      | panic ↦ panic
      | spinning ↦ spinning
    ])

-- `proc_create`: the error code, the descriptor and the state. `init_err` is what `fs_init_proc`
-- returns for the new process. The counter is a byte, and skips 0.
unfoldable pub proc_create : Sched → ℕ → ℕ × ℕ × Sched
proc_create s init_err =
    let (p, h1, pool) = pool_salloc s.heap s.pool in
    let bumped = (s.proc_id + 1) % 256 in
    let s1 = record s {
      heap = h1;
      pool = pool;
      is_running = assign s.is_running p false;
      id = assign s.id p s.proc_id;
      proc_id = if bumped == 0 then 1 else bumped;
    } in
    let (h2, freed) = pool_sfree s1.heap s1.pool p in
    let (h3, sleeping) = clist_insert s1.heap s1.sleeping p in
    if p == null
    then (1, null, record s { heap = h1; pool = pool })
    else if not (init_err == 0)
    then (init_err, null, record s1 { heap = h2; pool = freed })
    else (0, p, record s1 { heap = h3; sleeping = sleeping })
