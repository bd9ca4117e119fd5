-- ===== src/Proc/Kill.antt =====
-- What `proc_kill` of kern/proc/proc.c does to the lists and to the pool of descriptors.
use tensix.Base.{
  ℕ, ◌≡◌, refl, inl, inr, sym, subst, arith, List, [], ◌∷◌, ◌++◌, ◌==◌, Bool-cases, ◌∈◌, ◌∉◌, Apart,
  Apart-symm, Distinct-split, has-append, mem_self, mem-append_right,
}
use tensix.Queue.{Heap, push, clist_remove}
use tensix.Queue.Deque.{IsDeque}
use tensix.Queue.Insert.{push_lem}
use tensix.Queue.Clist.{clist_remove_lem}
use tensix.Pool.{Pool, pool_sfree}
use tensix.Pool.Records.{IsDeque-frame}
use tensix.Proc.{Sched, proc_wakeup, kill_running, kill_tail}
use tensix.Proc.Lists.{IsSched, IsClist-frame, IsClist-Distinct, split_mem, moved}
use tensix.Proc.Wakeup.{proc_wakeup_lem}

-- The invariant of the scheduler, and the free descriptors `fs`, which are on neither list.
pub record HasFree (s : Sched) (rs ss fs : List ℕ) : Type 0 where
  pub sched : IsSched s rs ss
  pub free : IsDeque s.heap s.pool.unused fs
  pub fs_rs : Apart fs rs
  pub fs_ss : Apart fs ss

Apart-append : (us vs zs : List ℕ) → Apart us zs → Apart vs zs → Apart (us ++ vs) zs
Apart-append us vs zs f g a i = ground (arith, has-append a us vs, f a, g a)

Apart-one : (p : ℕ) (zs : List ℕ) → p ∉ zs → Apart (p ∷ []) zs
Apart-one p zs out a i = let e : p ≡ a = ground arith in subst (λ q. q ∉ zs) e out

not-append : (p : ℕ) (us vs : List ℕ) → p ∉ us → p ∉ vs → p ∉ (us ++ vs)
not-append p us vs f g = rw (has-append p us vs, f) g

Apart-less : (p : ℕ) (fs us vs : List ℕ) → Apart fs (us ++ (p ∷ vs)) → Apart fs (us ++ vs)
Apart-less p fs us vs f a i = ground (arith, f a, has-append a us vs, has-append a us (p ∷ vs))

module _ (s : Sched) (p : ℕ) (xs ys ss fs : List ℕ) where
  -- The heap once the descriptor has left the list of running ones, and once it is free.
  unlinked : Heap
  unlinked = (clist_remove s.heap s.running p).0

  returned : Heap
  returned = (push unlinked s.pool.unused p).0

  -- The state but for the current process.
  left : Sched
  unfolding unlinked returned
  left = record s {
    heap = returned;
    running = (clist_remove s.heap s.running p).1;
    pool = record s.pool { unused = (push unlinked s.pool.unused p).1 };
  }

  left-HasFree : HasFree s (xs ++ (p ∷ ys)) ss fs → HasFree left (xs ++ ys) ss (fs ++ (p ∷ []))
  unfolding left unlinked returned
  left-HasFree is =
      let all = xs ++ (p ∷ ys) in
      let d = IsClist-Distinct s.heap s.running all is.sched.running in
      let parts = Distinct-split xs (p ∷ ys) d in
      let here : p ∈ all = mem-append_right p xs (p ∷ ys) (mem_self p ys) in
      let rem = clist_remove_lem s.heap s.running p xs ys is.sched.running in
      let out : p ∉ fs = Apart-symm fs all is.fs_rs p here in
      let q =
        push_lem unlinked s.pool.unused p fs
          (IsDeque-frame s.heap unlinked s.pool.unused all fs rem.1 (Apart-symm fs all is.fs_rs)
            is.free)
          parts.1.0 out in
      let p_xs : p ∉ xs = Apart-symm xs (p ∷ ys) parts.2 p (mem_self p ys) in
      let fs_ss = Apart-append fs (p ∷ []) ss is.fs_ss (Apart-one p ss (is.sched.apart p here)) in
      let fs_rs =
        Apart-append fs (p ∷ []) (xs ++ ys) (Apart-less p fs xs ys is.fs_rs)
          (Apart-one p (xs ++ ys) (not-append p xs ys p_xs parts.1.1)) in
      record {
        sched = record {
          running = IsClist-frame unlinked returned _ (fs ++ (p ∷ [])) (xs ++ ys) q.1 fs_rs rem.0;
          sleeping = IsClist-frame unlinked returned s.sleeping (fs ++ (p ∷ [])) ss q.1 fs_ss (
              IsClist-frame s.heap unlinked s.sleeping all ss rem.1 is.sched.apart
                is.sched.sleeping);
          apart = λ a i. is.sched.apart a (split_mem s.heap s.running s.running p xs ys ss a i);
          up = λ a i. is.sched.up a (split_mem s.heap s.running s.running p xs ys ss a i);
          down = is.sched.down;
        };
        free = q.0;
        fs_rs = fs_rs;
        fs_ss = fs_ss;
      }

  -- A change of the current process keeps the invariant.
  current-HasFree :
      (c : ℕ) (rs zs gs : List ℕ)
      → HasFree left rs zs gs
      → HasFree (record left { current = c }) rs zs gs
  unfolding left
  current-HasFree c rs zs gs is = record {
    sched = record {
      running = is.sched.running;
      sleeping = is.sched.sleeping;
      apart = is.sched.apart;
      up = is.sched.up;
      down = is.sched.down;
    };
    free = is.free;
    fs_rs = is.fs_rs;
    fs_ss = is.fs_ss;
  }

  kill_running-HasFree :
      HasFree s (xs ++ (p ∷ ys)) ss fs → HasFree (kill_running s p) (xs ++ ys) ss (fs ++ (p ∷ []))
  unfolding kill_running pool_sfree left unlinked returned
  kill_running-HasFree is = elim (Bool-cases (p == s.current)) [
    | inl e ↦ rw e (current-HasFree _ (xs ++ ys) ss (fs ++ (p ∷ [])) (left-HasFree is))
    | inr e ↦ rw e (left-HasFree is)
  ]

module _ (s : Sched) (p : ℕ) (xs ys rs fs : List ℕ) where
  woken_free : HasFree s rs (xs ++ (p ∷ ys)) fs → IsDeque (proc_wakeup s p).heap s.pool.unused fs
  unfolding proc_wakeup
  woken_free is =
      let all = xs ++ (p ∷ ys) in
      let here = mem-append_right p xs (p ∷ ys) (mem_self p ys) in
      let m =
        moved s.heap s.sleeping s.running p xs ys rs is.sched.sleeping is.sched.running
          is.sched.apart in
      let out : p ∉ fs = Apart-symm fs all is.fs_ss p here in
      let run_fs : Apart (p ∷ rs) fs =
        Apart-append (p ∷ []) rs fs (Apart-one p fs out) (Apart-symm fs rs is.fs_rs) in
      rw (is.sched.down p here) (
        IsDeque-frame _ _ s.pool.unused (p ∷ rs) fs m.4 run_fs
          (IsDeque-frame s.heap _ s.pool.unused all fs m.3 (Apart-symm fs all is.fs_ss) is.free))

  wakeup-pool : (proc_wakeup s p).pool ≡ s.pool
  unfolding proc_wakeup
  wakeup-pool = elim (Bool-cases (s.is_running p)) [ inl e ↦ rw e refl | inr e ↦ rw e refl ]

  woken : HasFree s rs (xs ++ (p ∷ ys)) fs → HasFree (proc_wakeup s p) (p ∷ rs) (xs ++ ys) fs
  woken is =
      let all = xs ++ (p ∷ ys) in
      let here = mem-append_right p xs (p ∷ ys) (mem_self p ys) in
      let out : p ∉ fs = Apart-symm fs all is.fs_ss p here in
      record {
        sched = proc_wakeup_lem s p xs ys rs is.sched;
        free =
            subst (λ (q : Pool). IsDeque (proc_wakeup s p).heap q.unused fs) (sym wakeup-pool)
              (woken_free is);
        fs_rs =
            Apart-symm (p ∷ rs) fs
              (Apart-append (p ∷ []) rs fs (Apart-one p fs out) (Apart-symm fs rs is.fs_rs));
        fs_ss = Apart-less p fs xs ys is.fs_ss;
      }

  -- Under the invariant of the scheduler and its free descriptors, a process that is killed while
  -- it sleeps, and holds no lock, leaves the sleeping ones and becomes the last free descriptor;
  -- both lists keep their order, and the invariant holds with it.
  pub kill_tail_lem :
      HasFree s rs (xs ++ (p ∷ ys)) fs → HasFree (kill_tail s p) rs (xs ++ ys) (fs ++ (p ∷ []))
  unfolding kill_tail
  kill_tail_lem is = kill_running-HasFree (proc_wakeup s p) p [] rs (xs ++ ys) fs (woken is)
