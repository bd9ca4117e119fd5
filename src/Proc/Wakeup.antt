-- ===== src/Proc/Wakeup.antt =====
-- `proc_wakeup` and `proc_sleep` of kern/proc/proc.c move processes between the two lists.
use tensix.Base.{
  ℕ, ◌≡◌, ◌≢◌, refl, List, ◌∷◌, ◌++◌, arith, Apart-symm, mem_self, mem-append_right, mem-ne', ==_ne,
}
use tensix.Queue.{null}
use tensix.Proc.{Sched, proc_sleep, proc_wakeup}
use tensix.Proc.Lists.{IsSched, moved, split_mem}

module _ (s : Sched) (p : ℕ) (xs ys : List ℕ) where
  pub proc_wakeup_lem :
      (rs : List ℕ) → IsSched s rs (xs ++ (p ∷ ys)) → IsSched (proc_wakeup s p) (p ∷ rs) (xs ++ ys)
  unfolding proc_wakeup
  proc_wakeup_lem rs is =
      let down = is.down p (mem-append_right p xs (p ∷ ys) (mem_self p ys)) in
      let m = moved s.heap s.sleeping s.running p xs ys rs is.sleeping is.running is.apart in
      rw down (record {
        running = m.1;
        sleeping = m.0;
        apart = m.2;
        up = λ a i. ground (arith, is.up a);
        down = λ a i.
            rw (mem-ne' a p (xs ++ ys) i (m.2 p (mem_self p rs)))
              (is.down a (split_mem s.heap s.sleeping s.running p xs ys rs a i));
      })

  -- Where the process `p` runs, `proc_wakeup` changes nothing.
  pub proc_wakeup_up : (ss : List ℕ) → IsSched s (xs ++ (p ∷ ys)) ss → proc_wakeup s p ≡ s
  unfolding proc_wakeup
  proc_wakeup_up ss is = rw (is.up p (mem-append_right p xs (p ∷ ys) (mem_self p ys))) refl

  -- Where the process `p` runs, waits for no lock and is not the current one, `proc_sleep` takes it
  -- out of the running ones, whose order stays, puts it before the sleeping ones, and keeps the
  -- invariant of the scheduler and the current process.
  pub proc_sleep_other :
      (ss : List ℕ)
      → IsSched s (xs ++ (p ∷ ys)) ss
      → s.lock p ≡ null
      → p ≢ s.current
      → IsSched (proc_sleep s p) (xs ++ ys) (p ∷ ss) × ((proc_sleep s p).current ≡ s.current)
  unfolding proc_sleep
  proc_sleep_other ss is free ne =
      let up = is.up p (mem-append_right p xs (p ∷ ys) (mem_self p ys)) in
      let m =
        moved s.heap s.running s.sleeping p xs ys ss is.running is.sleeping
          (Apart-symm (xs ++ (p ∷ ys)) ss is.apart) in
      rw (up, free, ==_ne p s.current ne)
        (
          record {
            running = m.0;
            sleeping = m.1;
            apart = Apart-symm (p ∷ ss) (xs ++ ys) m.2;
            up = λ a i.
                rw (mem-ne' a p (xs ++ ys) i (m.2 p (mem_self p ss)))
                  (is.up a (split_mem s.heap s.running s.sleeping p xs ys ss a i));
            down = λ a i. ground (arith, is.down a);
          },
          refl,
        )
