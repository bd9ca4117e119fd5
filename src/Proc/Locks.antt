-- ===== src/Proc/Locks.antt =====
-- The semaphores of kern/proc/lock.c.
use tensix.Base.{
  ℕ, zero, suc, ◌+◌, ◌-◌, ◌%◌, ◌<◌, ◌≡◌, ◌≢◌, refl, subst, List, [], ◌∷◌, ◌++◌, append-nil,
  last_or-append, arith, Bool, true, false, not, ◌&&◌, ◌==◌, if◌then◌else◌, ◌∈◌, ◌∉◌, ==_ne,
  ==_refl, length, last_or, has-append, mem_self, mem-ne', Distinct-split, Apart-symm,
}
use tensix.Queue.{Heap, Header, null}
use tensix.Queue.Links.{Links, Links-split, Links-append}
use tensix.Queue.Clist.{IsClist}
use tensix.Proc.Lists.{IsSched, IsClist-Distinct}
use tensix.Proc.{
  Sched, Outcome, done, panic, spinning, assign, proc_sleep, proc_wakeup, sleep, lock_wait,
  lock_ref2, lock_ref, wakeup_walk, lock_wakeup, lock_unref,
}

-- A running process that waits for a lock does not sleep, so `proc_sleep` changes nothing.
pub proc_sleep_locked : (s : Sched) (p : ℕ) → s.lock p ≢ null → proc_sleep s p ≡ s
unfolding proc_sleep
proc_sleep_locked s p nz = ground (arith, ==_ne (s.lock p) null nz)

lock_wait_spins :
    (fuel : ℕ) (s : Sched) → s.lock s.current ≢ null → lock_wait fuel s s.current ≡ spinning
unfolding lock_wait sleep
lock_wait_spins zero s nz = refl
lock_wait_spins (suc fuel) s nz =
    rw (proc_sleep_locked s s.current nz, ==_ne (s.lock s.current) null nz)
      (lock_wait_spins fuel s nz)

-- A process that has to wait for a lock that is not null, one that is held or one that it wants to
-- wait for, never gets out of the loop of `lock_ref2`, however much fuel it has: it neither sleeps
-- nor switches.
pub lock_ref2_spins :
    (fuel : ℕ) (s : Sched) (lockp : ℕ) (do_wait : Bool)
    → lockp ≢ null
    → (not do_wait && ((s.counts lockp + 1) % 256 == 1)) ≡ false
    → lock_ref2 fuel s lockp do_wait ≡ spinning
unfolding lock_ref2
lock_ref2_spins fuel s lockp do_wait nz waits =
    rw waits (lock_wait_spins fuel _ (rw (==_refl s.current) nz))

-- Who refers to a free lock gets it at once, and who unrefers it then leaves every counter as it was.
pub lock_unref-lock_ref :
    (fuel : ℕ) (s : Sched) (lockp : ℕ)
    → s.counts lockp ≡ 0
    → (lock_ref fuel s lockp ≡ done (record s { counts = assign s.counts lockp 1 }))
      × (lock_unref fuel (record s { counts = assign s.counts lockp 1 }) lockp
          ≡ done (record s { counts = assign (assign s.counts lockp 1) lockp 0 }))
unfolding lock_ref lock_ref2 lock_unref
lock_unref-lock_ref fuel s lockp e = (rw e refl, rw (==_refl lockp) refl)

-- The first of the processes `xs` that waits for the lock no longer waits.
abbrev pub released : Sched → ℕ → List ℕ → Sched
released s lockp [] = s
released s lockp (x ∷ xs) =
    if s.lock x == lockp then record s { lock = assign s.lock x null } else released s lockp xs

woken_up :
    (s : Sched) (p : ℕ)
    → s.is_running p ≡ true
    → proc_wakeup (record s { lock = assign s.lock p null }) p
      ≡ record s { lock = assign s.lock p null }
unfolding proc_wakeup
woken_up s p e = rw e refl

if-done : (b : Bool) (s t : Sched) → (if b then done s else done t) ≡ done (if b then s else t)
if-done true s t = refl
if-done false s t = refl

walk_lem :
    (fuel : ℕ) (s : Sched) (lockp q i : ℕ) (xs : List ℕ)
    → length xs < fuel
    → Links s.heap q (i ∷ xs) s.current
    → s.current ∉ xs
    → ((p : ℕ) → p ∈ (i ∷ xs) → s.is_running p ≡ true)
    → wakeup_walk fuel s lockp i ≡ done (released s lockp (i ∷ xs))
unfolding wakeup_walk
walk_lem zero s lockp q i xs le l out up = ground arith
walk_lem (suc fuel) s lockp q i [] le l out up =
    rw (l.1, ==_refl s.current, woken_up s i (up i (mem_self i [])))
      (if-done (s.lock i == lockp) _ _)
walk_lem (suc fuel) s lockp q i (x ∷ xs) le l out up =
    rw
      (
        l.1,
        mem-ne' x s.current (x ∷ xs) (mem_self x xs) out,
        woken_up s i (up i (mem_self i (x ∷ xs))),
        walk_lem fuel s lockp i x xs (omega arith) l.2 (ground arith) (λ p o. up p (ground arith)),
      )
      (if-done (s.lock i == lockp) _ _)

-- A cyclic list, read from a member `c` on.
clist_around :
    (h : Heap) (l : Header) (c : ℕ) (xs ys : List ℕ)
    → IsClist h l (xs ++ (c ∷ ys))
    → Links h (last_or xs (last_or ys c)) (c ∷ ys ++ xs) c
clist_around h l c [] ys is = rw (append-nil ys) is.2
clist_around h l c (x ∷ xs) ys is =
    let q = last_or (xs ++ (c ∷ ys)) x in
    let parts = Links-split h q x (x ∷ xs) (c ∷ ys) is.2 in
    let e : q ≡ last_or ys c = last_or-append x xs (c ∷ ys) in
    Links-append h (last_or xs x) c (c ∷ ys) (x ∷ xs) parts.1
      (subst (λ z. Links h z (x ∷ xs) c) e parts.0)

mem-around : (p c : ℕ) (xs ys : List ℕ) → p ∈ (c ∷ ys ++ xs) → p ∈ (xs ++ (c ∷ ys))
mem-around p c xs ys i = ground (arith, has-append p xs (c ∷ ys), has-append p ys xs)

-- With fuel for every running process, `lock_wakeup` comes to an end, and lets the first process go
-- that waits for the lock, in the order of the running processes from the current one on, or
-- changes nothing where none waits.
pub lock_wakeup_lem :
    (fuel : ℕ) (s : Sched) (lockp : ℕ) (xs ys ss : List ℕ)
    → IsSched s (xs ++ (s.current ∷ ys)) ss
    → length (ys ++ xs) < fuel
    → lock_wakeup fuel s lockp ≡ done (released s lockp (s.current ∷ ys ++ xs))
unfolding lock_wakeup
lock_wakeup_lem fuel s lockp xs ys ss is enough =
    let c = s.current in
    let around = clist_around s.heap s.running c xs ys is.running in
    let d = Distinct-split xs (c ∷ ys) (IsClist-Distinct s.heap s.running _ is.running) in
    walk_lem fuel s lockp (last_or xs (last_or ys c)) c (ys ++ xs) enough around
      (rw (has-append c ys xs, d.1.1) (Apart-symm xs (c ∷ ys) d.2 c (mem_self c ys)))
      (λ p i. is.up p (mem-around p c xs ys i))

last_count :
    (n : ℕ) (o p q : Outcome)
    → (if n == 0 then o else if (n - 1) == 0 then p else q)
      ≡ (if n == 0 then o else if n == 1 then p else q)
last_count n o p q = ground arith

-- A lock's counter is lowered.
unfoldable pub lower : Sched → ℕ → Sched
lower s lockp = record s { counts = assign s.counts lockp (s.counts lockp - 1) }

lower-IsSched :
    (s : Sched) (lockp : ℕ) (rs ss : List ℕ) → IsSched s rs ss → IsSched (lower s lockp) rs ss
unfolding lower
lower-IsSched s lockp rs ss is = record {
  running = is.running;
  sleeping = is.sleeping;
  apart = is.apart;
  up = is.up;
  down = is.down;
}

-- Under the invariant of the scheduler, with the current process a running one and with fuel for
-- every running process, `lock_unref` panics where nobody holds the lock, and otherwise lowers its
-- counter by one and, unless the counter is 0 then, lets the first process go that waits for the
-- lock, from the current one on.
pub lock_unref_lem :
    (fuel : ℕ) (s : Sched) (lockp : ℕ) (xs ys ss : List ℕ)
    → IsSched s (xs ++ (s.current ∷ ys)) ss
    → length (ys ++ xs) < fuel
    → lock_unref fuel s lockp ≡ (
        if s.counts lockp == 0
        then panic
        else if s.counts lockp == 1
        then done (lower s lockp)
        else done (released (lower s lockp) lockp (s.current ∷ ys ++ xs)))
unfolding lock_unref lower
lock_unref_lem fuel s lockp xs ys ss is enough =
    let woken =
      lock_wakeup_lem fuel (lower s lockp) lockp xs ys ss (lower-IsSched s lockp _ ss is) enough in
    rw (woken, last_count (s.counts lockp) _ _ _) refl
