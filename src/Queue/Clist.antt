-- ===== src/Queue/Clist.antt =====
-- The cyclic lists of lib/queue.c refine lists of addresses, the first one first.
use tensix.Base.{
  ℕ, ◌≡◌, ◌≢◌, refl, ◌∙◌, sym, ap, subst, List, [], ◌∷◌, ◌++◌, arith, false, ◌==◌, if◌then◌else◌,
  ◌∈◌, ◌∉◌, mem-append_left, mem-append_right, last_or, Distinct, Apart, Distinct-split,
  Distinct-append, last_or-append, append-nil, ==_ne, ==_refl, mem-ne, mem-ne', has-last_or,
  mem_self, Apart-ne, Apart-symm, eq_symm,
}
use tensix.Queue.{Heap, Header, header, null, set_next, set_prev, clist_remove, clist_insert}
use tensix.Queue.Links.{
  Links, SameOutside, Links-split, Links-append, Links-frame, Links-set_next, Links-set_prev,
  frame-set_next, frame-set_prev,
}

-- The header and the heap hold the cyclic list of the addresses `xs`. Only whether the header's
-- `last` is null means something: the functions do not keep it at the last record.
abbrev pub IsClist : Heap → Header → List ℕ → Type 0
IsClist h l [] = (l.first ≡ null) × (l.last ≡ null)
IsClist h l (x ∷ xs) =
    (l.first ≡ x) × (l.last ≢ null) × Links h (last_or xs x) (x ∷ xs) x × Distinct (x ∷ xs)

-- The writes of an insertion into a list that is not empty, and of a removal that leaves some.
linked_in : Heap → ℕ → ℕ → ℕ → Heap
linked_in h p n r = set_next (set_prev (set_prev (set_next h r n) r p) n r) p r

linked_out : Heap → ℕ → ℕ → ℕ → Heap
linked_out h p n r = set_prev (set_next (set_prev (set_next h p n) n p) r null) r null

module _ (h : Heap) (p n r a : ℕ) where
  in_self :
      (r == p) ≡ false → (r == n) ≡ false → linked_in h p n r r ≡ record { prev = p; next = n }
  unfolding linked_in set_next set_prev
  in_self e f = ground arith

  in_other : (a == r) ≡ false → linked_in h p n r a ≡ set_prev (set_next h p r) n r a
  unfolding linked_in set_next set_prev
  in_other e = ground arith

  in_same : (a == r) ≡ false → (a == p) ≡ false → (a == n) ≡ false → linked_in h p n r a ≡ h a
  unfolding linked_in set_next set_prev
  in_same e f g = ground arith

  out_other : (a == r) ≡ false → linked_out h p n r a ≡ set_prev (set_next h p n) n p a
  unfolding linked_out set_next set_prev
  out_other e = ground arith

  out_same : (a == r) ≡ false → (a == p) ≡ false → (a == n) ≡ false → linked_out h p n r a ≡ h a
  unfolding linked_out set_next set_prev
  out_same e f g = ground arith

module _ (h : Heap) (l : Header) (r : ℕ) where
  clist_insert_eq :
      (x : ℕ)
      → l.first ≡ x
      → (x == null) ≡ false
      → (r == x) ≡ false
      → clist_insert h l r ≡ (linked_in h (h x).prev x r, header r l.last)
  unfolding clist_insert linked_in set_next set_prev
  clist_insert_eq x e f g = rw (e, f)

  -- `clist_insert` puts a record that is not null and not on the well-formed cyclic list before
  -- the first, and writes to no node outside the list.
  pub clist_insert_lem :
      (xs : List ℕ)
      → IsClist h l xs
      → r ≢ null
      → r ∉ xs
      → IsClist (clist_insert h l r).0 (clist_insert h l r).1 (r ∷ xs)
        × SameOutside (r ∷ xs) h (clist_insert h l r).0
  unfolding clist_insert set_next set_prev
  clist_insert_lem [] is nz out =
      rw (is.0, is.1)
        ((refl, nz, (ground arith, ground arith, tt), (nz, refl, tt)), λ a o. ground arith)
  clist_insert_lem (x ∷ xs) is nz out =
      let last = last_or xs x in
      let rx : (r == x) ≡ false = ground arith in
      let rp : (r == last) ≡ false = mem-ne last r (x ∷ xs) (has-last_or x xs) out in
      let self = in_self h last x r r rp rx in
      let e : clist_insert h l r ≡ (linked_in h last x r, header r l.last) =
        clist_insert_eq x is.0 (==_ne x null is.3.0) rx
        ∙ ap (λ p. (linked_in h p x r, header r l.last)) is.2.0 in
      subst (λ o. IsClist o.0 o.1 (r ∷ x ∷ xs) × SameOutside (r ∷ x ∷ xs) h o.0) (sym e)
        (
          (
            refl,
            is.1,
            (
              ap (λ n. n.prev) self,
              ap (λ n. n.next) self,
              Links-frame (set_prev (set_next h last r) x r) _ r r (x ∷ xs)
                  (λ a i. in_other h last x r a (mem-ne' a r (x ∷ xs) i out))
                  (Links-set_prev _ last r r x xs (Links-set_next h last x r x xs is.2 is.3) is.3),
            ),
            (nz, out, is.3),
          ),
          λ a o.
              in_same h last x r a (ground arith)
                (mem-ne last a (x ∷ xs) (has-last_or x xs) (ground arith)) (ground arith),
        )

  clist_remove_heap :
      (p n : ℕ)
      → (h r).prev ≡ p
      → (h r).next ≡ n
      → (r == p) ≡ false
      → clist_remove h l r
        ≡ (linked_out h p n r, header (if l.first == r then n else l.first) l.last)
  unfolding clist_remove linked_out set_next set_prev
  clist_remove_heap p n e f g = rw (e, f, eq_symm r p g, g)

  -- What is left where the record was the first or the last.
  unlinked_end :
      (y : ℕ) (ys : List ℕ)
      → Links h r (y ∷ ys) r
      → Distinct (y ∷ ys)
      → r ∉ (y ∷ ys)
      → Links (linked_out h (last_or ys y) y r) (last_or ys y) (y ∷ ys) y
  unlinked_end y ys l d out =
      Links-frame (set_prev (set_next h (last_or ys y) y) y (last_or ys y)) _ _ y (y ∷ ys)
        (λ a i. out_other h _ y r a (mem-ne' a r (y ∷ ys) i out))
        (Links-set_prev _ r y (last_or ys y) y ys (Links-set_next h r r y y ys l d) d)

  unlinked_middle :
      (q x y : ℕ) (xs ys : List ℕ)
      → Links h q (x ∷ xs) r
      → Links h r (y ∷ ys) x
      → Distinct (x ∷ xs)
      → Distinct (r ∷ y ∷ ys)
      → Apart (x ∷ xs) (r ∷ y ∷ ys)
      → Links (linked_out h (last_or xs x) y r) q ((x ∷ xs) ++ (y ∷ ys)) x
  unlinked_middle q x y xs ys lx ly dx dy apart =
      let p = last_or xs x in
      let without : Apart (x ∷ xs) (y ∷ ys) = λ a i. ground (arith, apart a) in
      Links-append _ q x (x ∷ xs) (y ∷ ys)
        (Links-frame (set_prev (set_next h p y) y p) _ q y (x ∷ xs)
          (λ a i.
            out_other h p y r a (Apart-ne a r (x ∷ xs) (r ∷ y ∷ ys) apart i (mem_self r (y ∷ ys))))
          (frame-set_prev _ q y y p (x ∷ xs)
            (Apart-symm (x ∷ xs) (y ∷ ys) without y (mem_self y ys))
            (Links-set_next h q r y x xs lx dx)))
        (Links-frame (set_prev (set_next h p y) y p) _ p x (y ∷ ys)
          (λ a i. out_other h p y r a (mem-ne' a r (y ∷ ys) i dy.1))
          (Links-set_prev _ r x p y ys
            (frame-set_next h r x p y (y ∷ ys) (without p (has-last_or x xs)) ly) dy.2))

  removed_same :
      (p n : ℕ) (zs : List ℕ) → r ∈ zs → p ∈ zs → n ∈ zs → SameOutside zs h (linked_out h p n r)
  removed_same p n zs ir ip in_zs a o =
      out_same h p n r a (mem-ne r a zs ir o) (mem-ne p a zs ip o) (mem-ne n a zs in_zs o)

  -- `clist_remove` takes a record out of a well-formed cyclic list that it is on, keeps the order
  -- of the others, and writes to no node outside the list.
  pub clist_remove_lem :
      (xs ys : List ℕ)
      → IsClist h l (xs ++ (r ∷ ys))
      → IsClist (clist_remove h l r).0 (clist_remove h l r).1 (xs ++ ys)
        × SameOutside (xs ++ (r ∷ ys)) h (clist_remove h l r).0
  clist_remove_lem [] [] is =
      unfold clist_remove in rw (is.2.0, ==_refl) ((refl, refl), λ a o. refl)
  clist_remove_lem [] (y ∷ ys) is =
      let p = last_or ys y in
      let rp = mem-ne p r (y ∷ ys) (has-last_or y ys) is.3.1 in
      subst (λ o. IsClist o.0 o.1 (y ∷ ys) × SameOutside (r ∷ y ∷ ys) h o.0)
        (sym (clist_remove_heap p y is.2.0 is.2.1 rp))
        (
          (rw (is.0, ==_refl), is.1, unlinked_end y ys is.2.2 is.3.2 is.3.1, is.3.2),
          removed_same p y (r ∷ y ∷ ys) (mem_self r (y ∷ ys))
              (mem-append_right p (r ∷ []) (y ∷ ys) (has-last_or y ys)) (ground arith),
        )
  clist_remove_lem (x ∷ xs) [] is =
      let p = last_or xs x in
      let parts = Distinct-split (x ∷ xs) (r ∷ []) is.3 in
      let linked =
        Links-split h r x (x ∷ xs) (r ∷ [])
          (subst (λ q. Links h q ((x ∷ xs) ++ (r ∷ [])) x) (last_or-append x xs (r ∷ [])) is.2) in
      let out = Apart-symm (x ∷ xs) (r ∷ []) parts.2 r (mem_self r []) in
      let rp = mem-ne p r (x ∷ xs) (has-last_or x xs) out in
      subst (λ o. IsClist o.0 o.1 ((x ∷ xs) ++ []) × SameOutside ((x ∷ xs) ++ (r ∷ [])) h o.0)
        (sym (clist_remove_heap p x linked.1.0 linked.1.1 rp))
        (
          subst
              (λ zs.
                IsClist (linked_out h p x r) (header (if l.first == r then x else l.first) l.last)
                  zs)
              (sym (append-nil (x ∷ xs)))
              (
                rw (is.0, mem-ne' x r (x ∷ xs) (mem_self x xs) out),
                is.1,
                unlinked_end x xs linked.0 parts.0 out,
                parts.0,
              ),
          removed_same p x ((x ∷ xs) ++ (r ∷ []))
              (mem-append_right r (x ∷ xs) (r ∷ []) (mem_self r []))
              (mem-append_left p (x ∷ xs) (r ∷ []) (has-last_or x xs))
              (mem_self x (xs ++ (r ∷ []))),
        )
  clist_remove_lem (x ∷ xs) (y ∷ ys) is =
      let p = last_or xs x in
      let q = last_or ys y in
      let rs = r ∷ y ∷ ys in
      let parts = Distinct-split (x ∷ xs) rs is.3 in
      let linked =
        Links-split h q x (x ∷ xs) rs
          (subst (λ q. Links h q ((x ∷ xs) ++ rs) x) (last_or-append x xs rs) is.2) in
      let out = Apart-symm (x ∷ xs) rs parts.2 r (mem_self r (y ∷ ys)) in
      let rp = mem-ne p r (x ∷ xs) (has-last_or x xs) out in
      subst (λ o. IsClist o.0 o.1 ((x ∷ xs) ++ (y ∷ ys)) × SameOutside ((x ∷ xs) ++ rs) h o.0)
        (sym (clist_remove_heap p y linked.1.0 linked.1.1 rp))
        (
          (
            rw (is.0, mem-ne' x r (x ∷ xs) (mem_self x xs) out),
            is.1,
            subst (λ z. Links (linked_out h p y r) z ((x ∷ xs) ++ (y ∷ ys)) x)
                (sym (last_or-append x xs (y ∷ ys)))
                (unlinked_middle q x y xs ys linked.0 linked.1.2 parts.0 parts.1 parts.2),
            Distinct-append (x ∷ xs) (y ∷ ys) parts.0 parts.1.2 (λ a i. ground (arith, parts.2 a)),
          ),
          removed_same p y ((x ∷ xs) ++ rs) (mem-append_right r (x ∷ xs) rs (mem_self r (y ∷ ys)))
              (mem-append_left p (x ∷ xs) rs (has-last_or x xs))
              (mem-append_right y (x ∷ xs) rs
                (mem-append_right y (r ∷ []) (y ∷ ys) (mem_self y ys))),
        )
