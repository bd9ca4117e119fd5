-- ===== src/Queue/Pop.antt =====
-- The removals at the two ends of lib/queue.c's queues refine those of lists.
use tensix.Base.{
  ℕ, ◌≡◌, refl, ◌∙◌, subst, List, [], ◌∷◌, ◌++◌, false, ◌==◌, if◌then◌else◌, head_or, last_or,
  Distinct, Distinct-split, last_or-append, append-nil, ==_ne, mem-ne_null, has-last_or, mem_self,
}
use tensix.Queue.{Heap, Header, null, pop, pop_front}
use tensix.Queue.Relink.{relink, relink-Links, relink-same}
use tensix.Queue.Links.{Links, SameOutside, Links-split}
use tensix.Queue.Deque.{IsDeque}

module _ (h : Heap) where
  relink_end :
      (m : ℕ) (xs : List ℕ)
      → Links h null xs m
      → Distinct xs
      → Links (relink h (last_or xs null) null) null xs null
  relink_end m xs l d =
      subst (λ zs. Links (relink h (last_or xs null) null) null zs null) (append-nil xs)
        (relink-Links h m null xs [] l tt d tt (λ a i. refl))

  same_end : (xs : List ℕ) → SameOutside xs h (relink h (last_or xs null) null)
  same_end xs =
      subst (λ zs. SameOutside zs h (relink h (last_or xs null) null)) (append-nil xs)
        (relink-same h xs [])

first_end :
    (first r : ℕ) (xs : List ℕ)
    → Distinct xs
    → first ≡ head_or (xs ++ (r ∷ [])) null
    → (if last_or xs null == null then null else first) ≡ head_or xs null
first_end first r [] d e = refl
first_end first r (x ∷ xs) d e = rw (mem-ne_null _ (x ∷ xs) (has-last_or x xs) d) e

last_end :
    (last r : ℕ) (xs : List ℕ)
    → Distinct xs
    → last ≡ last_or xs r
    → (if head_or xs null == null then null else last) ≡ last_or xs null
last_end last r [] d e = refl
last_end last r (x ∷ xs) d e = rw (mem-ne_null x (x ∷ xs) (mem_self x xs) d) e

module _ (h : Heap) (l : Header) where
  -- `dequeue_pop` takes the last record off a well-formed queue that is not empty, hands it out,
  -- and writes to no node but those that stay in the queue.
  pub pop_lem :
      (r : ℕ) (xs : List ℕ)
      → IsDeque h l (xs ++ (r ∷ []))
      → ((pop h l).0 ≡ r) × IsDeque (pop h l).1 (pop h l).2 xs × SameOutside xs h (pop h l).1
  unfolding pop relink
  pop_lem r xs is =
      let parts = Distinct-split xs (r ∷ []) is.distinct in
      let linked = Links-split h null null xs (r ∷ []) is.links in
      let nz : (r == null) ≡ false = ==_ne r null parts.1.0 in
      let e : l.last ≡ r = is.last ∙ last_or-append null xs (r ∷ []) in
      rw (e, nz, linked.1.0)
        (
          refl,
          record {
            links = relink_end h r xs linked.0 parts.0;
            distinct = parts.0;
            first = first_end l.first r xs parts.0 is.first;
            last = refl;
          },
          same_end h xs,
        )

  -- `dequeue_pop_front` takes the first record off a well-formed queue that is not empty, hands it
  -- out, and writes to no node but those that stay in the queue.
  pub pop_front_lem :
      (r : ℕ) (xs : List ℕ)
      → IsDeque h l (r ∷ xs)
      → ((pop_front h l).0 ≡ r)
        × IsDeque (pop_front h l).1 (pop_front h l).2 xs
        × SameOutside xs h (pop_front h l).1
  unfolding pop_front relink
  pop_front_lem r xs is =
      let nz : (r == null) ≡ false = ==_ne r null is.distinct.0 in
      rw (is.first, nz, is.links.1)
        (
          refl,
          record {
            links = relink-Links h null r [] xs tt is.links.2 tt is.distinct.2 (λ a i. cc);
            distinct = is.distinct.2;
            first = refl;
            last = last_end l.last r xs is.distinct.2 is.last;
          },
          relink-same h [] xs,
        )

  pub pop_empty : IsDeque h l [] → pop h l ≡ (null, h, l)
  unfolding pop
  pop_empty is = rw is.last

  pub pop_front_empty : IsDeque h l [] → pop_front h l ≡ (null, h, l)
  unfolding pop_front
  pop_front_empty is = rw is.first
