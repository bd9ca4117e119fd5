-- ===== src/Proc/Lists.antt =====
-- The invariant of the scheduler: two cyclic lists without a common process, and flags that say
-- which list a process is on.
use tensix.Base.{
  ℕ, ◌≡◌, inl, inr, Bool-cases, ◌≢◌, refl, List, [], ◌∷◌, ◌++◌, arith, true, false, ◌==◌, ◌∈◌, ◌∉◌,
  last_or, Apart, Distinct, Apart-symm, has-append, Distinct-split, mem_self, mem-append_right,
}
use tensix.Queue.{Heap, Header, null, clist_remove, clist_insert}
use tensix.Queue.Links.{Links-frame, SameOutside}
use tensix.Queue.Clist.{IsClist, clist_insert_lem, clist_remove_lem}
use tensix.Proc.{Sched}

-- The running processes are `rs`, the sleeping ones `ss`.
pub record IsSched (s : Sched) (rs ss : List ℕ) : Type 0 where
  pub running : IsClist s.heap s.running rs
  pub sleeping : IsClist s.heap s.sleeping ss
  pub apart : Apart rs ss
  pub up : (p : ℕ) → p ∈ rs → s.is_running p ≡ true
  pub down : (p : ℕ) → p ∈ ss → s.is_running p ≡ false

pub IsClist-frame :
    (h h' : Heap) (l : Header) (xs ys : List ℕ)
    → SameOutside xs h h'
    → Apart xs ys
    → IsClist h l ys
    → IsClist h' l ys
IsClist-frame h h' l xs [] same apart is = is
IsClist-frame h h' l xs (y ∷ ys) same apart is = (
  is.0,
  is.1,
  Links-frame h h' (last_or ys y) y (y ∷ ys) (λ a i. same a (Apart-symm xs (y ∷ ys) apart a i))
      is.2,
  is.3,
)

pub IsClist-Distinct : (h : Heap) (l : Header) (xs : List ℕ) → IsClist h l xs → Distinct xs
IsClist-Distinct h l [] is = tt
IsClist-Distinct h l (x ∷ xs) is = is.3

has-skip : (a p : ℕ) (rs : List ℕ) → (a == p) ≡ false → a ∈ (p ∷ rs) → a ∈ rs
has-skip a p rs e i = ground arith

==_eq : (a p : ℕ) → (a == p) ≡ true → a ≡ p
==_eq a p e = ground arith

module _ (h : Heap) (from to : Header) (p : ℕ) (xs ys rs : List ℕ) where
  taken : Heap × Header
  taken = clist_remove h from p

  placed : Heap × Header
  placed = clist_insert taken.0 to p

  Apart-skip : (a : ℕ) → a ∉ (xs ++ (p ∷ ys)) → a ∉ (xs ++ ys)
  Apart-skip a o = ground (arith, has-append a xs ys, has-append a xs (p ∷ ys))

  moved-Apart : Distinct (xs ++ (p ∷ ys)) → Apart rs (xs ++ (p ∷ ys)) → Apart (p ∷ rs) (xs ++ ys)
  moved-Apart d apart a i =
      let parts = Distinct-split xs (p ∷ ys) d in
      let out = Apart-symm xs (p ∷ ys) parts.2 p (mem_self p ys) in
      elim (Bool-cases (a == p)) [
        | inl e ↦ rw (==_eq a p e, has-append p xs ys, out, parts.1.1) refl
        | inr e ↦ Apart-skip a (apart a (has-skip a p rs e i))
      ]

  -- A process moves from a list to the front of another one.
  pub moved :
      IsClist h from (xs ++ (p ∷ ys))
      → IsClist h to rs
      → Apart rs (xs ++ (p ∷ ys))
      → IsClist (clist_insert (clist_remove h from p).0 to p).0 (clist_remove h from p).1 (xs ++ ys)
        × IsClist
            (clist_insert (clist_remove h from p).0 to p).0
            (clist_insert (clist_remove h from p).0 to p).1
            (p ∷ rs)
        × Apart (p ∷ rs) (xs ++ ys)
        × SameOutside (xs ++ (p ∷ ys)) h (clist_remove h from p).0
        × SameOutside
            (p ∷ rs)
            (clist_remove h from p).0
            (clist_insert (clist_remove h from p).0 to p).0
  unfolding taken placed
  moved is_from is_to apart =
      let all = xs ++ (p ∷ ys) in
      let d = IsClist-Distinct h from all is_from in
      let parts = Distinct-split xs (p ∷ ys) d in
      let here = mem-append_right p xs (p ∷ ys) (mem_self p ys) in
      let rem = clist_remove_lem h from p xs ys is_from in
      let out = Apart-symm rs all apart p here in
      let nz : p ≢ null = parts.1.0 in
      let ins =
        clist_insert_lem taken.0 to p rs
          (IsClist-frame h taken.0 to all rs rem.1 (Apart-symm rs all apart) is_to) nz out in
      let apart' = moved-Apart d apart in
      (
        IsClist-frame taken.0 placed.0 taken.1 (p ∷ rs) (xs ++ ys) ins.1 apart' rem.0,
        ins.0,
        apart',
        rem.1,
        ins.1,
      )

  -- A member of a list is another member once it is not the one that moved.
  pub split_mem : (a : ℕ) → a ∈ (xs ++ ys) → a ∈ (xs ++ (p ∷ ys))
  split_mem a i = ground (arith, has-append a xs ys, has-append a xs (p ∷ ys))
