-- ===== src/Queue/Relink.antt =====
-- The two writes by which queues join what stands before and behind a gap.
use tensix.Base.{
  ℕ, ◌≡◌, refl, subst, sym, List, [], ◌∷◌, ◌++◌, arith, false, ◌==◌, if◌then◌else◌, head_or,
  last_or, Distinct, Apart, has-append, has-last_or, mem-ne, mem-ne_null, append-nil, mem_self,
  Apart-symm,
}
use tensix.Queue.{Heap, null, set_prev, set_next}
use tensix.Queue.Links.{
  Links, SameOutside, Links-append, Links-set_next, Links-set_prev, frame-set_next, frame-set_prev,
}

-- The two writes of a removal: `n` behind `p`.
unfoldable pub relink : Heap → ℕ → ℕ → Heap
relink h p n =
    let h1 = if p == null then h else set_next h p n in if n == null then h1 else set_prev h1 n p

module _ (h : Heap) where
  relink_front : (y : ℕ) → (y == null) ≡ false → relink h null y ≡ set_prev h y null
  unfolding relink
  relink_front y e = rw e

  relink_back : (p : ℕ) → (p == null) ≡ false → relink h p null ≡ set_next h p null
  unfolding relink
  relink_back p e = rw e

  relink_both :
      (p n : ℕ)
      → (p == null) ≡ false
      → (n == null) ≡ false
      → relink h p n ≡ set_prev (set_next h p n) n p
  unfolding relink
  relink_both p n e f = rw (e, f)

  pub relink-Links :
      (m k : ℕ) (xs ys : List ℕ)
      → Links h null xs m
      → Links h k ys null
      → Distinct xs
      → Distinct ys
      → Apart xs ys
      → Links (relink h (last_or xs null) (head_or ys null)) null (xs ++ ys) null
  relink-Links m k [] [] lx ly dx dy apart = tt
  relink-Links m k [] (y ∷ ys) lx ly dx dy apart =
      subst (λ g. Links g null (y ∷ ys) null)
        (sym (relink_front y (mem-ne_null y (y ∷ ys) (mem_self y ys) dy)))
        (Links-set_prev h k null null y ys ly dy)
  relink-Links m k (x ∷ xs) [] lx ly dx dy apart = rw append-nil (
      subst (λ g. Links g null (x ∷ xs) null)
        (sym (relink_back _ (mem-ne_null _ (x ∷ xs) (has-last_or x xs) dx)))
        (Links-set_next h null m null x xs lx dx))
  relink-Links m k (x ∷ xs) (y ∷ ys) lx ly dx dy apart =
      subst (λ g. Links g null ((x ∷ xs) ++ (y ∷ ys)) null)
        (sym (
          relink_both _ y (mem-ne_null _ (x ∷ xs) (has-last_or x xs) dx)
            (mem-ne_null y (y ∷ ys) (mem_self y ys) dy)))
        (Links-append _ null null (x ∷ xs) (y ∷ ys)
          (frame-set_prev _ null y y (last_or xs x) (x ∷ xs)
            (Apart-symm (x ∷ xs) (y ∷ ys) apart y (mem_self y ys))
            (Links-set_next h null m y x xs lx dx))
          (Links-set_prev _ k null (last_or xs x) y ys
            (frame-set_next h k null (last_or xs x) y (y ∷ ys) (apart _ (has-last_or x xs)) ly) dy))

  pub relink-same :
      (xs ys : List ℕ) → SameOutside (xs ++ ys) h (relink h (last_or xs null) (head_or ys null))
  unfolding relink set_next set_prev
  relink-same [] [] a out = refl
  relink-same [] (y ∷ ys) a out = ground arith
  relink-same (x ∷ xs) [] a out =
      ground (arith, has-append a (x ∷ xs) [], mem-ne (last_or xs x) a (x ∷ xs) (has-last_or x xs))
  relink-same (x ∷ xs) (y ∷ ys) a out =
      ground
        (arith, has-append a (x ∷ xs) (y ∷ ys), mem-ne (last_or xs x) a (x ∷ xs) (has-last_or x xs))
