-- ===== src/Proc/Example.antt =====
-- The theorems on proc.c and lock.c where the processes 8 and 16 run and 24 sleeps, and 8 is the
-- current one.
use tensix.Base.{ℕ, ◌≡◌, refl, [], ◌∷◌, arith, true, false, ◌||◌, ◌==◌, if◌then◌else◌, ◌∈◌, Apart}
use tensix.Queue.{Heap, Node, header, wipe}
use tensix.Queue.Clist.{IsClist}
use tensix.Proc.{Sched, done, spinning, proc_sleep, kill_tail, lock_ref2, lock_unref}
use tensix.Proc.Lists.{IsSched}
use tensix.Proc.Sleep.{proc_sleep_current, proc_sleep_only}
use tensix.Proc.Kill.{HasFree, kill_tail_lem}
use tensix.Proc.Locks.{released, lower, lock_ref2_spins, lock_unref_lem}

abbrev node : ℕ → ℕ → Node
node p n = record { prev = p; next = n }

abbrev heap : Heap
heap a = if a == 8 then node 16 16 else if a == 16 then node 8 8 else node a a

-- The process 16 waits for the lock at 100, whose counter is 2.
abbrev sched : Sched
sched = record {
  heap = heap;
  running = header 8 8;
  sleeping = header 24 24;
  pool = record { used = wipe; unused = wipe; area = 8 };
  is_running = λ p. (p == 8) || (p == 16);
  lock = λ p. if p == 16 then 100 else 0;
  id = λ p. p;
  current = 8;
  context = 8;
  proc_id = 4;
  counts = λ a. if a == 100 then 2 else 0;
}

two-IsClist : IsClist heap (header 8 8) (8 ∷ 16 ∷ [])
two-IsClist = (
  refl,
  omega arith,
  (refl, refl, (refl, refl, tt)),
  (omega arith, refl, (omega arith, refl, tt)),
)

one-IsClist : IsClist heap (header 24 24) (24 ∷ [])
one-IsClist = (refl, omega arith, (refl, refl, tt), (omega arith, refl, tt))

lists-Apart : Apart (8 ∷ 16 ∷ []) (24 ∷ [])
lists-Apart a i = ground arith

sched-up : (p : ℕ) → p ∈ (8 ∷ 16 ∷ []) → sched.is_running p ≡ true
sched-up p i = ground arith

sched-down : (p : ℕ) → p ∈ (24 ∷ []) → sched.is_running p ≡ false
sched-down p i = ground arith

sched-IsSched : IsSched sched (8 ∷ 16 ∷ []) (24 ∷ [])
sched-IsSched = record {
  running = two-IsClist;
  sleeping = one-IsClist;
  apart = lists-Apart;
  up = sched-up;
  down = sched-down;
}

proc_sleep_current_example :
    IsSched (proc_sleep sched 8) (16 ∷ []) (8 ∷ 24 ∷ [])
    × ((proc_sleep sched 8).current ≡ 16)
    × ((proc_sleep sched 8).context ≡ 16)
    × (16 ∈ (16 ∷ []))
proc_sleep_current_example =
    proc_sleep_current sched 8 [] (16 ∷ []) (24 ∷ []) sched-IsSched refl refl (omega arith)
      (omega arith)

-- 16 is the current process, and no process waits.
abbrev at_rest : Sched
at_rest = record sched { current = 16; lock = λ p. 0 }

at_rest-IsSched : IsSched at_rest (8 ∷ 16 ∷ []) (24 ∷ [])
at_rest-IsSched = record {
  running = two-IsClist;
  sleeping = one-IsClist;
  apart = lists-Apart;
  up = sched-up;
  down = sched-down;
}

-- 8 is the only process.
abbrev lone : Sched
lone = record sched { heap = λ a. node a a; sleeping = wipe; is_running = λ p. p == 8 }

lone-up : (p : ℕ) → p ∈ (8 ∷ []) → lone.is_running p ≡ true
lone-up p i = ground arith

lone-down : (p : ℕ) → p ∈ [] → lone.is_running p ≡ false
lone-down p i = cc

lone-IsSched : IsSched lone (8 ∷ []) []
lone-IsSched = record {
  running = (refl, omega arith, (refl, refl, tt), (omega arith, refl, tt));
  sleeping = (refl, refl);
  apart = λ a i. refl;
  up = lone-up;
  down = lone-down;
}

proc_sleep_only_example :
    IsSched (proc_sleep lone 8) [] (8 ∷ [])
    × ((proc_sleep lone 8).current ∈ (8 ∷ []))
    × ((proc_sleep lone 8).is_running (proc_sleep lone 8).current ≡ false)
proc_sleep_only_example = proc_sleep_only lone 8 [] lone-IsSched refl refl

lock_ref2_spins_example : lock_ref2 1000 sched 100 false ≡ spinning
lock_ref2_spins_example = lock_ref2_spins 1000 sched 100 false (omega arith) refl

lock_unref_lem_example :
    lock_unref 2 sched 100 ≡ done (released (lower sched 100) 100 (8 ∷ 16 ∷ []))
lock_unref_lem_example =
    lock_unref_lem 2 sched 100 [] (16 ∷ []) (24 ∷ []) sched-IsSched (omega arith)

abbrev pooled_heap : Heap
pooled_heap a = if a == 32 then node 0 0 else heap a

free-Apart : Apart (32 ∷ []) (8 ∷ 16 ∷ [])
free-Apart a i = ground arith

free-Apart_sleeping : Apart (32 ∷ []) (24 ∷ [])
free-Apart_sleeping a i = ground arith

-- 32 is a free descriptor.
abbrev pooled : Sched
pooled = record sched {
  pool = record { used = wipe; unused = header 32 32; area = 8 };
  heap = pooled_heap;
}

pooled-HasFree : HasFree pooled (8 ∷ 16 ∷ []) (24 ∷ []) (32 ∷ [])
pooled-HasFree = record {
  sched = record {
    running = (refl, omega arith, (refl, refl, (refl, refl, tt)), two-IsClist.3);
    sleeping = (refl, omega arith, (refl, refl, tt), one-IsClist.3);
    apart = lists-Apart;
    up = sched-up;
    down = sched-down;
  };
  free = record {
    links = (refl, refl, tt);
    distinct = (omega arith, refl, tt);
    first = refl;
    last = refl;
  };
  fs_rs = free-Apart;
  fs_ss = free-Apart_sleeping;
}

kill_tail_lem_example : HasFree (kill_tail pooled 24) (8 ∷ 16 ∷ []) [] (32 ∷ 24 ∷ [])
kill_tail_lem_example = kill_tail_lem pooled 24 [] [] (8 ∷ 16 ∷ []) (32 ∷ []) pooled-HasFree
