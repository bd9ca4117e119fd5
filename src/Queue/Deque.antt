-- ===== src/Queue/Deque.antt =====
-- The doubly-linked queues of lib/queue.c refine lists of addresses.
use tensix.Base.{
  ℕ, ◌≡◌, ap₂, subst, sym, List, ◌∷◌, ◌++◌, arith, head_or, last_or, Distinct, Apart,
  Distinct-split, Distinct-append, Apart-symm, mem_self, head_or-split, last_or-split,
}
use tensix.Queue.{Heap, Header, null, remove}
use tensix.Queue.Relink.{relink, relink-Links, relink-same}
use tensix.Queue.Links.{Links, SameOutside, Links-split}

-- The header `l` and the heap hold the queue of the addresses `xs`, front first.
pub record IsDeque (h : Heap) (l : Header) (xs : List ℕ) : Type 0 where
  pub links : Links h null xs null
  pub distinct : Distinct xs
  pub first : l.first ≡ head_or xs null
  pub last : l.last ≡ last_or xs null

module _ (h : Heap) (l : Header) where
  module _ (r : ℕ) (xs ys : List ℕ) (is : IsDeque h l (xs ++ (r ∷ ys))) where
    split : Distinct xs × Distinct (r ∷ ys) × Apart xs (r ∷ ys)
    split = Distinct-split xs (r ∷ ys) is.distinct

    linked : Links h null xs r × Links h (last_or xs null) (r ∷ ys) null
    linked = Links-split h null null xs (r ∷ ys) is.links

    remove_heap : (remove h l r).0 ≡ relink h (last_or xs null) (head_or ys null)
    unfolding remove relink
    remove_heap = ap₂ (relink h) linked.1.0 linked.1.1

    Distinct-without : Distinct (xs ++ ys)
    Distinct-without = Distinct-append xs ys split.0 split.1.2 (λ a i. ground (arith, split.2 a))

    remove-first : (remove h l r).1.first ≡ head_or (xs ++ ys) null
    unfolding remove
    remove-first =
        rw (linked.1.1, is.first)
          (head_or-split r null xs ys (Apart-symm xs (r ∷ ys) split.2 r (mem_self r ys)))

    remove-last : (remove h l r).1.last ≡ last_or (xs ++ ys) null
    unfolding remove
    remove-last = rw (linked.1.0, is.last) (last_or-split r null xs ys split.1.1)

    -- `dequeue_remove` takes a record out of a well-formed queue that it is on, keeps the order of
    -- the others, and writes to no node but those that stay in the queue.
    pub remove_lem :
        IsDeque (remove h l r).0 (remove h l r).1 (xs ++ ys)
        × SameOutside (xs ++ ys) h (remove h l r).0
    remove_lem = (
      record {
        links =
            subst (λ g. Links g null (xs ++ ys) null) (sym remove_heap)
              (relink-Links h r r xs ys linked.0 linked.1.2 split.0 split.1.2
                (λ a i. ground (arith, split.2 a)));
        distinct = Distinct-without;
        first = remove-first;
        last = remove-last;
      },
      subst (λ g. SameOutside (xs ++ ys) h g) (sym remove_heap) (relink-same h xs ys),
    )
