-- ===== src/Queue/Place.antt =====
-- The writes by which queues link a new node between two others.
use tensix.Base.{
  ℕ, ◌≡◌, ◌≢◌, ap, List, [], ◌∷◌, ◌++◌, arith, false, ◌==◌, if◌then◌else◌, ◌∉◌, head_or, last_or,
  Distinct, Apart, has-append, has-last_or, mem-ne, mem-ne_null, mem-ne', mem_self, Apart-ne,
  eq_symm,
}
use tensix.Queue.{Heap, null, set_prev, set_next}
use tensix.Queue.Links.{
  Links, SameOutside, Links-frame, Links-append, Links-set_next, Links-set_prev,
}

-- `r` stands between `p` and `n`, either of which may be null.
unfoldable pub place : Heap → ℕ → ℕ → ℕ → Heap
place h p r n =
    let h1 = set_next (set_prev h r p) r n in
    let h2 = if p == null then h1 else set_next h1 p r in if n == null then h2 else set_prev h2 n r

module _ (h : Heap) (p r n a : ℕ) where
  place_self : (r == p) ≡ false → (r == n) ≡ false → place h p r n r ≡ record { prev = p; next = n }
  unfolding place set_next set_prev
  place_self e f = ground arith

  place_left :
      (a == r) ≡ false → (a == n) ≡ false → (p == null) ≡ false → place h p r n a ≡ set_next h p r a
  unfolding place set_next set_prev
  place_left e f g = ground arith

  place_right :
      (a == r) ≡ false → (a == p) ≡ false → (n == null) ≡ false → place h p r n a ≡ set_prev h n r a
  unfolding place set_next set_prev
  place_right e f g = ground arith

  place_out : (a == r) ≡ false → (a == p) ≡ false → (a == n) ≡ false → place h p r n a ≡ h a
  unfolding place set_next set_prev
  place_out e f g = ground arith

module _ (h : Heap) (r : ℕ) where
  place_before :
      (m : ℕ) (xs ys : List ℕ)
      → Links h null xs m
      → Distinct xs
      → Apart xs (r ∷ ys)
      → Links (place h (last_or xs null) r (head_or ys null)) null xs r
  place_before m [] ys l d apart = tt
  place_before m (x ∷ xs) [] l d apart =
      Links-frame _ _ null r (x ∷ xs)
        (λ a i.
          place_left h _ r null a (Apart-ne a r (x ∷ xs) (r ∷ []) apart i (mem_self r []))
            (mem-ne_null a (x ∷ xs) i d) (mem-ne_null _ (x ∷ xs) (has-last_or x xs) d))
        (Links-set_next h null m r x xs l d)
  place_before m (x ∷ xs) (y ∷ ys) l d apart =
      Links-frame _ _ null r (x ∷ xs)
        (λ a i.
          place_left h _ r y a (Apart-ne a r (x ∷ xs) (r ∷ y ∷ ys) apart i (mem_self r (y ∷ ys)))
            (Apart-ne a y (x ∷ xs) (r ∷ y ∷ ys) apart i (ground arith))
            (mem-ne_null _ (x ∷ xs) (has-last_or x xs) d))
        (Links-set_next h null m r x xs l d)

  place_behind :
      (k : ℕ) (xs ys : List ℕ)
      → Links h k ys null
      → Distinct (r ∷ ys)
      → Apart xs (r ∷ ys)
      → Links (place h (last_or xs null) r (head_or ys null)) r ys null
  place_behind k xs [] l d apart = tt
  place_behind k [] (y ∷ ys) l d apart =
      Links-frame _ _ r null (y ∷ ys)
        (λ a i.
          place_right h null r y a (mem-ne' a r (y ∷ ys) i d.1) (mem-ne_null a (y ∷ ys) i d.2)
            (mem-ne_null y (y ∷ ys) (mem_self y ys) d.2))
        (Links-set_prev h k null r y ys l d.2)
  place_behind k (x ∷ xs) (y ∷ ys) l d apart =
      Links-frame _ _ r null (y ∷ ys)
        (λ a i.
          place_right h _ r y a (mem-ne' a r (y ∷ ys) i d.1)
            (eq_symm _ a
              (Apart-ne _ a (x ∷ xs) (r ∷ y ∷ ys) apart (has-last_or x xs) (ground arith)))
            (mem-ne_null y (y ∷ ys) (mem_self y ys) d.2))
        (Links-set_prev h k null r y ys l d.2)

  pub last-ne : (xs ys : List ℕ) → r ≢ null → Apart xs (r ∷ ys) → (r == last_or xs null) ≡ false
  last-ne [] ys nz apart = ground arith
  last-ne (x ∷ xs) ys nz apart =
      eq_symm _ r (Apart-ne _ r (x ∷ xs) (r ∷ ys) apart (has-last_or x xs) (mem_self r ys))

  pub head-ne : (ys : List ℕ) → r ≢ null → r ∉ ys → (r == head_or ys null) ≡ false
  head-ne [] nz out = ground arith
  head-ne (y ∷ ys) nz out = ground arith

  -- Both parts of a queue, with `r` between them.
  pub place-Links :
      (m k : ℕ) (xs ys : List ℕ)
      → Links h null xs m
      → Links h k ys null
      → Distinct xs
      → Distinct (r ∷ ys)
      → Apart xs (r ∷ ys)
      → Links (place h (last_or xs null) r (head_or ys null)) null (xs ++ (r ∷ ys)) null
  place-Links m k xs ys lx ly dx dy apart =
      let e =
        place_self h (last_or xs null) r (head_or ys null) null (last-ne xs ys dy.0 apart)
          (head-ne ys dy.0 dy.1) in
      Links-append _ null null xs (r ∷ ys) (place_before m xs ys lx dx apart)
        (ap (λ n. n.prev) e, ap (λ n. n.next) e, place_behind k xs ys ly dy apart)

  pub place-same :
      (xs ys : List ℕ)
      → SameOutside (xs ++ (r ∷ ys)) h (place h (last_or xs null) r (head_or ys null))
  unfolding place set_next set_prev
  place-same [] [] a out = ground arith
  place-same [] (y ∷ ys) a out = ground arith
  place-same (x ∷ xs) [] a out =
      ground
        (arith, has-append a (x ∷ xs) (r ∷ []), mem-ne (last_or xs x) a (x ∷ xs) (has-last_or x xs))
  place-same (x ∷ xs) (y ∷ ys) a out = ground (
    arith,
    has-append a (x ∷ xs) (r ∷ y ∷ ys),
    mem-ne (last_or xs x) a (x ∷ xs) (has-last_or x xs),
  )
