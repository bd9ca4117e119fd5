-- ===== src/Pool/Records.antt =====
-- Allocation and release move records between the two lists of a pool.
use tensix.Base.{
  ℕ, ◌≡◌, ◌≢◌, ◌∙◌, refl, sym, ap, subst, List, [], ◌∷◌, ◌++◌, arith, ◌∈◌, ◌∉◌, Apart, Apart-symm,
  Distinct-split, has-append, mem-ne', mem_self, mem-append_right, ==_ne,
}
use tensix.Queue.{Heap, Header, null, push, pop, remove}
use tensix.Queue.Links.{SameOutside, Links-frame}
use tensix.Queue.Deque.{IsDeque, remove_lem}
use tensix.Queue.Insert.{push_lem}
use tensix.Queue.Pop.{pop_lem, pop_empty}
use tensix.Pool.{Pool, pool_alloc, pool_salloc, pool_free, pool_sfree}

-- The pool's used records are `us` and its unused ones `fs`.
pub record IsPool (h : Heap) (p : Pool) (us fs : List ℕ) : Type 0 where
  pub used : IsDeque h p.used us
  pub unused : IsDeque h p.unused fs
  pub apart : Apart us fs

-- A queue survives writes to the nodes of others.
pub IsDeque-frame :
    (h h' : Heap) (l : Header) (xs ys : List ℕ)
    → SameOutside xs h h'
    → Apart xs ys
    → IsDeque h l ys
    → IsDeque h' l ys
IsDeque-frame h h' l xs ys same apart is = record {
  links = Links-frame h h' null null ys (λ a i. same a (Apart-symm xs ys apart a i)) is.links;
  distinct = is.distinct;
  first = is.first;
  last = is.last;
}

module _ (h : Heap) (p : Pool) where
  -- The heap and the pool after a record `r` was popped.
  popped : Heap
  popped = (pop h p.unused).1

  pool_alloc_eq :
      (r : ℕ)
      → (pop h p.unused).0 ≡ r
      → r ≢ null
      → pool_alloc h p ≡ (
        r,
        (push popped p.used r).0,
        record p { unused = (pop h p.unused).2; used = (push popped p.used r).1 },
      )
  unfolding pool_alloc popped
  pool_alloc_eq r e nz = rw (e, ==_ne r null nz)

  pool_alloc-null :
      (pop h p.unused).0 ≡ null
      → pool_alloc h p ≡ (null, popped, record p { unused = (pop h p.unused).2 })
  unfolding pool_alloc popped
  pool_alloc-null e = rw e

  -- Where a well-formed pool has an unused record, `pool_alloc` hands out the last one and appends
  -- it to the used ones.
  pub pool_alloc_lem :
      (r : ℕ) (us fs : List ℕ)
      → IsPool h p us (fs ++ (r ∷ []))
      → ((pool_alloc h p).0 ≡ r) × IsPool (pool_alloc h p).1 (pool_alloc h p).2 (us ++ (r ∷ [])) fs
  unfolding popped
  pool_alloc_lem r us fs is =
      let o = pop_lem h p.unused r fs is.unused in
      let parts = Distinct-split fs (r ∷ []) is.unused.distinct in
      let us_fs : Apart us fs = λ a i. ground (arith, is.apart a, has-append a fs (r ∷ [])) in
      let out =
        Apart-symm us (fs ++ (r ∷ [])) is.apart r
          (mem-append_right r fs (r ∷ []) (mem_self r [])) in
      let used = IsDeque-frame h popped p.used fs us o.2 (Apart-symm us fs us_fs) is.used in
      let q = push_lem popped p.used r us used parts.1.0 out in
      let apart : Apart (us ++ (r ∷ [])) fs = λ a i.
        ground (arith, us_fs a, has-append a us (r ∷ []), Apart-symm fs (r ∷ []) parts.2 a) in
      subst (λ s. (s.0 ≡ r) × IsPool s.1 s.2 (us ++ (r ∷ [])) fs)
        (sym (pool_alloc_eq r o.0 parts.1.0))
        (
          refl,
          record {
            used = q.0;
            unused =
                IsDeque-frame popped (push popped p.used r).0 (pop h p.unused).2 (us ++ (r ∷ [])) fs
                  q.1 apart o.1;
            apart = apart;
          },
        )

  -- A pool with no unused record gives null and stays as it is.
  pub pool_alloc_empty : (us : List ℕ) → IsPool h p us [] → pool_alloc h p ≡ (null, h, p)
  unfolding popped
  pool_alloc_empty us is =
      let e = pop_empty h p.unused is.unused in
      pool_alloc-null (ap (λ s. s.0) e)
      ∙ ap (λ (s : ℕ × Heap × Header). (null, s.1, record p { unused = s.2 })) e

  -- `pool_free` moves a used record of a well-formed pool to the end of the unused ones.
  pub pool_free_lem :
      (r : ℕ) (us vs fs : List ℕ)
      → IsPool h p (us ++ (r ∷ vs)) fs
      → IsPool (pool_free h p r).0 (pool_free h p r).1 (us ++ vs) (fs ++ (r ∷ []))
  unfolding pool_free
  pool_free_lem r us vs fs is =
      let o = remove_lem h p.used r us vs is.used in
      let parts = Distinct-split us (r ∷ vs) is.used.distinct in
      let in_all : r ∈ (us ++ (r ∷ vs)) = mem-append_right r us (r ∷ vs) (mem_self r vs) in
      let out : r ∉ fs = is.apart r in_all in
      let us_fs : Apart (us ++ vs) fs =
        λ a i. ground (arith, is.apart a, has-append a us vs, has-append a us (r ∷ vs)) in
      let left : r ∉ (us ++ vs) =
        ground (arith, has-append r us vs, Apart-symm us (r ∷ vs) parts.2 r (mem_self r vs)) in
      let h1 = (remove h p.used r).0 in
      let unused = IsDeque-frame h h1 p.unused (us ++ vs) fs o.1 us_fs is.unused in
      let q = push_lem h1 p.unused r fs unused parts.1.0 out in
      let apart : Apart (us ++ vs) (fs ++ (r ∷ [])) =
        λ a i. ground (arith, us_fs a, has-append a fs (r ∷ []), mem-ne' a r (us ++ vs) i left) in
      record {
        used =
            IsDeque-frame h1 (push h1 p.unused r).0 (remove h p.used r).1 (fs ++ (r ∷ []))
              (us ++ vs) q.1 (Apart-symm (us ++ vs) (fs ++ (r ∷ [])) apart) o.0;
        unused = q.0;
        apart = apart;
      }

  -- `pool_salloc` hands out the last unused record, on neither list from then on.
  pub pool_salloc_lem :
      (r : ℕ) (us fs : List ℕ)
      → IsPool h p us (fs ++ (r ∷ []))
      → ((pool_salloc h p).0 ≡ r) × IsPool (pool_salloc h p).1 (pool_salloc h p).2 us fs
  unfolding pool_salloc
  pool_salloc_lem r us fs is =
      let o = pop_lem h p.unused r fs is.unused in
      let us_fs : Apart us fs = λ a i. ground (arith, is.apart a, has-append a fs (r ∷ [])) in
      (
        o.0,
        record {
          used =
              IsDeque-frame h (pop h p.unused).1 p.used fs us o.2 (Apart-symm us fs us_fs) is.used;
          unused = o.1;
          apart = us_fs;
        },
      )

  -- `POOL_SFREE` takes back a record that is on neither list.
  pub pool_sfree_lem :
      (r : ℕ) (us fs : List ℕ)
      → IsPool h p us fs
      → r ≢ null
      → r ∉ us
      → r ∉ fs
      → IsPool (pool_sfree h p r).0 (pool_sfree h p r).1 us (fs ++ (r ∷ []))
  unfolding pool_sfree
  pool_sfree_lem r us fs is nz out_us out_fs =
      let q = push_lem h p.unused r fs is.unused nz out_fs in
      let apart : Apart us (fs ++ (r ∷ [])) =
        λ a i. ground (arith, is.apart a, has-append a fs (r ∷ []), mem-ne' a r us i out_us) in
      record {
        used =
            IsDeque-frame h (push h p.unused r).0 p.used (fs ++ (r ∷ [])) us q.1
              (Apart-symm us (fs ++ (r ∷ [])) apart) is.used;
        unused = q.0;
        apart = apart;
      }
