-- ===== src/Proc/Sleep.antt =====
-- What becomes of the current process when `proc_sleep` of kern/proc/proc.c puts it to sleep, and
-- where machdep_switch of kern/machdep/machdep.c goes on.
use tensix.Base.{
  ℕ, ◌≡◌, ◌≢◌, ◌⊎◌, refl, ◌∙◌, sym, ap, subst, inl, inr, Bool-cases, List, [], ◌∷◌, ◌++◌, arith,
  true, false, ◌==◌, ◌∈◌, head_or, last_or, Apart-symm, mem_self, mem-append_right, mem-ne',
  ==_refl, ==_ne, has-last_or,
}
use tensix.Queue.{Heap, Header, null, clist_remove, clist_insert}
use tensix.Queue.Links.{Links, Links-split, next_of_last}
use tensix.Queue.Clist.{IsClist}
use tensix.Proc.{Sched, assign, machdep_switch, proc_sleep}
use tensix.Proc.Lists.{IsSched, moved, split_mem}

-- In a chain behind `q`, the predecessor of a member leads to the member.
prev_next :
    (h : Heap) (q e a : ℕ) (xs : List ℕ)
    → Links h q xs e
    → (h q).next ≡ head_or xs e
    → a ∈ xs
    → (h (h a).prev).next ≡ a
prev_next h q e a [] l first i = cc
prev_next h q e a (x ∷ xs) l first i = elim (Bool-cases (a == x)) [
  | inl same ↦
      let ax : a ≡ x = ground arith in
      subst (λ b. (h (h b).prev).next ≡ b) (sym ax) (ap (λ b. (h b).next) l.0 ∙ first)
  | inr other ↦ prev_next h x e a xs l.2 l.1 (ground arith)
]

clist-prev_next :
    (h : Heap) (l : Header) (a : ℕ) (xs : List ℕ)
    → IsClist h l xs
    → a ∈ xs
    → (h (h a).prev).next ≡ a
clist-prev_next h l a [] is i = cc
clist-prev_next h l a (x ∷ xs) is i =
    prev_next h (last_or xs x) x a (x ∷ xs) is.2 (next_of_last h (last_or xs x) x x xs is.2) i

-- The successor in a cyclic list.
clist-next :
    (h : Heap) (l : Header) (p : ℕ) (xs ys : List ℕ)
    → IsClist h l (xs ++ (p ∷ ys))
    → (h p).next ≡ head_or ys (head_or xs p)
clist-next h l p [] ys is = is.2.1
clist-next h l p (x ∷ xs) ys is =
    (Links-split h (last_or (xs ++ (p ∷ ys)) x) x (x ∷ xs) (p ∷ ys) is.2).1.1

other_mem : (p n : ℕ) (xs ys : List ℕ) → n ≡ head_or ys (head_or xs p) → n ≢ p → n ∈ (xs ++ ys)
other_mem p n [] [] e ne = ground arith
other_mem p n [] (y ∷ ys) e ne = ground arith
other_mem p n (x ∷ xs) [] e ne = ground arith
other_mem p n (x ∷ xs) (y ∷ ys) e ne = mem-append_right n (x ∷ xs) (y ∷ ys) (ground arith)

module _ (s : Sched) where
  -- The process that `machdep_switch` switches to, if it does.
  machdep_switch-IsSched : (rs ss : List ℕ) → IsSched s rs ss → IsSched (machdep_switch s) rs ss
  unfolding machdep_switch
  machdep_switch-IsSched rs ss is = elim (Bool-cases (s.context == null)) [
    | inl e ↦ rw e is
    | inr e ↦ rw e (record {
      running = is.running;
      sleeping = is.sleeping;
      apart = is.apart;
      up = is.up;
      down = is.down;
    })
  ]

  switch_current :
      ((machdep_switch s).current ≡ s.current)
      ⊎ ((machdep_switch s).current ≡ (s.heap s.current).next)
  unfolding machdep_switch
  switch_current = elim (Bool-cases (s.context == null)) [
    | inl e ↦ inl (rw e refl)
    | inr e ↦ inr (rw e refl)
  ]

module _ (s : Sched) (p : ℕ) where
  -- The state in which `proc_sleep` switches.
  moved_heap : Heap
  moved_heap = (clist_insert (clist_remove s.heap s.running p).0 s.sleeping p).0

  slept : Sched
  unfolding moved_heap
  slept = record s {
    heap = moved_heap;
    running = (clist_remove s.heap s.running p).1;
    sleeping = (clist_insert (clist_remove s.heap s.running p).0 s.sleeping p).1;
    is_running = assign s.is_running p false;
    current = (moved_heap (s.heap p).next).prev;
  }

  proc_sleep_eq :
      s.is_running p ≡ true
      → s.lock p ≡ null
      → p ≡ s.current
      → proc_sleep s p ≡ machdep_switch slept
  unfolding proc_sleep slept moved_heap
  proc_sleep_eq up free e = rw (up, free, sym e, ==_refl) refl

  slept-IsSched :
      (xs ys ss : List ℕ) → IsSched s (xs ++ (p ∷ ys)) ss → IsSched slept (xs ++ ys) (p ∷ ss)
  unfolding slept moved_heap
  slept-IsSched xs ys ss is =
      let m =
        moved s.heap s.running s.sleeping p xs ys ss is.running is.sleeping
          (Apart-symm (xs ++ (p ∷ ys)) ss is.apart) in
      record {
        running = m.0;
        sleeping = m.1;
        apart = Apart-symm (p ∷ ss) (xs ++ ys) m.2;
        up = λ a i.
            rw (mem-ne' a p (xs ++ ys) i (m.2 p (mem_self p ss)))
              (is.up a (split_mem s.heap s.running s.sleeping p xs ys ss a i));
        down = λ a i. ground (arith, is.down a);
      }

  -- Where the current process `p` runs, waits for no lock and is not the only running one, and
  -- switching is on, `proc_sleep` moves it to the sleeping ones, keeps the invariant of the
  -- scheduler, and switches to the process that stood behind `p` among the running ones.
  pub proc_sleep_current :
      (xs ys ss : List ℕ)
      → IsSched s (xs ++ (p ∷ ys)) ss
      → s.lock p ≡ null
      → p ≡ s.current
      → (s.heap p).next ≢ p
      → s.context ≢ null
      → IsSched (proc_sleep s p) (xs ++ ys) (p ∷ ss)
        × ((proc_sleep s p).current ≡ (s.heap p).next)
        × ((proc_sleep s p).context ≡ (s.heap p).next)
        × ((s.heap p).next ∈ (xs ++ ys))
  unfolding machdep_switch slept
  proc_sleep_current xs ys ss is free e more on =
      let up = is.up p (mem-append_right p xs (p ∷ ys) (mem_self p ys)) in
      let n = (s.heap p).next in
      let here : n ∈ (xs ++ ys) =
        other_mem p n xs ys (clist-next s.heap s.running p xs ys is.running) more in
      let is' = slept-IsSched xs ys ss is in
      let back = clist-prev_next slept.heap slept.running n (xs ++ ys) is'.running here in
      subst
        (λ t. IsSched t (xs ++ ys) (p ∷ ss) × (t.current ≡ n) × (t.context ≡ n) × (n ∈ (xs ++ ys)))
        (sym (proc_sleep_eq up free e))
        (
          machdep_switch-IsSched slept (xs ++ ys) (p ∷ ss) is',
          rw (==_ne s.context null on) back,
          rw (==_ne s.context null on) back,
          here,
        )

  -- Where the current process `p` is the only running one and waits for no lock, `proc_sleep` leaves
  -- no process running, and the current process is a sleeping one, whether switching is on or not.
  pub proc_sleep_only :
      (ss : List ℕ)
      → IsSched s (p ∷ []) ss
      → s.lock p ≡ null
      → p ≡ s.current
      → IsSched (proc_sleep s p) [] (p ∷ ss)
        × ((proc_sleep s p).current ∈ (p ∷ ss))
        × ((proc_sleep s p).is_running (proc_sleep s p).current ≡ false)
  unfolding machdep_switch slept
  proc_sleep_only ss is free e =
      let up = is.up p (mem_self p []) in
      let is' = slept-IsSched [] [] ss is in
      let all = machdep_switch-IsSched slept [] (p ∷ ss) is' in
      let same : (s.heap p).next ≡ p = is.running.2.1 in
      let before : slept.current ≡ last_or ss p =
        ap (λ n. (moved_heap n).prev) same ∙ is'.sleeping.2.0 in
      let around : (slept.heap (last_or ss p)).next ≡ p =
        next_of_last slept.heap (last_or ss p) p p ss is'.sleeping.2 in
      let here : (machdep_switch slept).current ∈ (p ∷ ss) = elim (switch_current slept) [
        | inl stays ↦ subst (λ c. c ∈ (p ∷ ss)) (sym (stays ∙ before)) (has-last_or p ss)
        | inr leaves ↦
            subst (λ c. c ∈ (p ∷ ss)) (sym (leaves ∙ ap (λ c. (slept.heap c).next) before ∙ around))
              (mem_self p ss)
      ] in
      subst (λ t. IsSched t [] (p ∷ ss) × (t.current ∈ (p ∷ ss)) × (t.is_running t.current ≡ false))
        (sym (proc_sleep_eq up free e)) (all, here, all.down _ here)
