-- ===== src/Queue/Insert.antt =====
-- The insertions of lib/queue.c refine insertions into lists of addresses.
use tensix.Base.{
  ℕ, ◌≡◌, ◌≢◌, refl, ◌∙◌, ap, subst, sym, fun_ext, List, [], ◌∷◌, ◌++◌, arith, false, ◌==◌,
  if◌then◌else◌, ◌∉◌, head_or, last_or, Distinct, Apart, head_or-append, last_or-append, has-append,
  mem-ne', mem-ne_null, has-last_or, ==_refl, mem_self, Distinct-split, Distinct-append,
}
use tensix.Queue.{Heap, Header, null, set_prev, set_next, insert_after, push, push_front}
use tensix.Queue.Links.{Links, SameOutside, Links-split, next_of_last}
use tensix.Queue.Place.{place, place-Links, place-same, last-ne, head-ne}
use tensix.Queue.Deque.{IsDeque}

-- What `dequeue_insert_after` reads as the next node.
next_of :
    (h : Heap) (first n : ℕ) (xs : List ℕ)
    → Distinct xs
    → Links h null xs n
    → first ≡ head_or xs n
    → n ≡ (if last_or xs null == null then first else (h (last_or xs null)).next)
next_of h first n [] d l e = sym e
next_of h first n (x ∷ xs) d l e =
    rw (mem-ne_null _ (x ∷ xs) (has-last_or x xs) d) (sym (next_of_last h null n x xs l))

insert_first :
    (first r : ℕ) (xs ys : List ℕ)
    → r ≢ null
    → Distinct xs
    → first ≡ head_or (xs ++ ys) null
    → (if (if last_or xs null == null then r else first) == null
        then r
        else if last_or xs null == null
        then r
        else first)
      ≡ head_or (xs ++ (r ∷ ys)) null
insert_first first r [] ys nz d e = ground arith
insert_first first r (x ∷ xs) ys nz d e =
    rw (mem-ne_null _ (x ∷ xs) (has-last_or x xs) d, e, mem-ne_null x (x ∷ xs) (mem_self x xs) d)

push_first :
    (first r : ℕ) (xs : List ℕ)
    → Distinct xs
    → first ≡ head_or xs null
    → (if last_or xs null == null then r else first) ≡ head_or (xs ++ (r ∷ [])) null
push_first first r [] d e = refl
push_first first r (x ∷ xs) d e = rw (mem-ne_null _ (x ∷ xs) (has-last_or x xs) d) e

last_of_null :
    (ys : List ℕ) (r d : ℕ)
    → Distinct ys
    → (if head_or ys null == null then r else last_or ys d) ≡ last_or ys r
last_of_null [] r d q = refl
last_of_null (y ∷ ys) r d q = rw (mem-ne_null y (y ∷ ys) (mem_self y ys) q)

module _ (h : Heap) (l : Header) (r : ℕ) where
  push_heap : r ≢ null → (push h l r).0 ≡ place h l.last r null
  unfolding push place set_next set_prev
  push_heap nz = fun_ext λ a. ground arith

  push_front_heap :
      r ≢ null → (r == l.first) ≡ false → (push_front h l r).0 ≡ place h null r l.first
  unfolding push_front place set_next set_prev
  push_front_heap nz e = fun_ext λ a. ground arith

  insert_after_heap :
      (p n : ℕ)
      → r ≢ null
      → (r == p) ≡ false
      → (r == n) ≡ false
      → n ≡ (if p == null then l.first else (h p).next)
      → (insert_after h l p r).0 ≡ place h p r n
  unfolding insert_after place set_next set_prev
  insert_after_heap p n nz e f g = fun_ext λ a. ground arith

  module _ (xs ys : List ℕ) (is : IsDeque h l (xs ++ ys)) (nz : r ≢ null)
      (out : r ∉ (xs ++ ys)) where
    split : Distinct xs × Distinct ys × Apart xs ys
    split = Distinct-split xs ys is.distinct

    linked : Links h null xs (head_or ys null) × Links h (last_or xs null) ys null
    linked = Links-split h null null xs ys is.links

    behind : Distinct (r ∷ ys)
    behind = (nz, ground (arith, has-append r xs ys), split.1)

    apart : Apart xs (r ∷ ys)
    apart = λ a i. ground (arith, has-append r xs ys, split.2 a, mem-ne' a r xs i)

    distinct : Distinct (xs ++ (r ∷ ys))
    distinct = Distinct-append xs (r ∷ ys) split.0 behind apart

    next_lem :
        head_or ys null ≡ (if last_or xs null == null then l.first else (h (last_or xs null)).next)
    next_lem = next_of h l.first _ xs split.0 linked.0 (is.first ∙ head_or-append null xs ys)

    insert_after-first :
        (insert_after h l (last_or xs null) r).1.first ≡ head_or (xs ++ (r ∷ ys)) null
    unfolding insert_after
    insert_after-first = insert_first l.first r xs ys nz split.0 is.first

    next_after_write :
        (if last_or xs null == null
          then l.first
          else (set_prev h r (last_or xs null) (last_or xs null)).next)
        ≡ head_or ys null
    unfolding set_prev
    next_after_write = ground (arith, next_lem)

    insert_after-last :
        (insert_after h l (last_or xs null) r).1.last ≡ last_or (xs ++ (r ∷ ys)) null
    unfolding insert_after
    insert_after-last =
        rw (next_after_write, is.last, last_or-append null xs ys, last_or-append null xs (r ∷ ys))
          (last_of_null ys r (last_or xs null) split.1)

    insert_after_eq :
        (insert_after h l (last_or xs null) r).0 ≡ place h (last_or xs null) r (head_or ys null)
    insert_after_eq =
        insert_after_heap _ _ nz (last-ne h r xs ys nz apart) (head-ne h r ys nz behind.1) next_lem

    -- `dequeue_insert_after` puts a record that is not null and not on the well-formed queue
    -- behind the given one, or to the front where that is null, and writes to no node outside the
    -- queue.
    pub insert_after_lem :
        IsDeque
          (insert_after h l (last_or xs null) r).0
          (insert_after h l (last_or xs null) r).1
          (xs ++ (r ∷ ys))
        × SameOutside (xs ++ (r ∷ ys)) h (insert_after h l (last_or xs null) r).0
    insert_after_lem = (
      record {
        links =
            subst (λ g. Links g null (xs ++ (r ∷ ys)) null) (sym insert_after_eq)
              (place-Links h r _ _ xs ys linked.0 linked.1 split.0 behind apart);
        distinct = distinct;
        first = insert_after-first;
        last = insert_after-last;
      },
      subst (λ g. SameOutside (xs ++ (r ∷ ys)) h g) (sym insert_after_eq) (place-same h r xs ys),
    )

  module _ (xs : List ℕ) (is : IsDeque h l xs) (nz : r ≢ null) (out : r ∉ xs) where
    Apart-last : Apart xs (r ∷ [])
    Apart-last = λ a i. ground (arith, mem-ne' a r xs i)

    push_eq : (push h l r).0 ≡ place h (last_or xs null) r null
    push_eq = push_heap nz ∙ ap (λ p. place h p r null) is.last

    push-first : (push h l r).1.first ≡ head_or (xs ++ (r ∷ [])) null
    unfolding push set_next set_prev
    push-first = rw (==_refl, is.last) (push_first l.first r xs is.distinct is.first)

    -- `dequeue_push` appends a new record at the end.
    pub push_lem :
        IsDeque (push h l r).0 (push h l r).1 (xs ++ (r ∷ []))
        × SameOutside (xs ++ (r ∷ [])) h (push h l r).0
    unfolding push
    push_lem = (
      record {
        links =
            subst (λ g. Links g null (xs ++ (r ∷ [])) null) (sym push_eq)
              (place-Links h r null null xs [] is.links tt is.distinct (nz, refl, tt) Apart-last);
        distinct = Distinct-append xs (r ∷ []) is.distinct (nz, refl, tt) Apart-last;
        first = push-first;
        last = sym (last_or-append null xs (r ∷ []));
      },
      subst (λ g. SameOutside (xs ++ (r ∷ [])) h g) (sym push_eq) (place-same h r xs []),
    )

    push_front_eq : (push_front h l r).0 ≡ place h null r (head_or xs null)
    push_front_eq =
        push_front_heap nz (rw is.first (head-ne h r xs nz out))
        ∙ ap (λ n. place h null r n) is.first

    -- `dequeue_push_front` puts a new record before the first.
    pub push_front_lem :
        IsDeque (push_front h l r).0 (push_front h l r).1 (r ∷ xs)
        × SameOutside (r ∷ xs) h (push_front h l r).0
    unfolding push_front
    push_front_lem = (
      record {
        links =
            subst (λ g. Links g null (r ∷ xs) null) (sym push_front_eq)
              (place-Links h r null null [] xs tt is.links tt (nz, out, is.distinct) (λ a i. cc));
        distinct = (nz, out, is.distinct);
        first = refl;
        last = rw (is.first, is.last) (last_of_null xs r null is.distinct);
      },
      subst (λ g. SameOutside (r ∷ xs) h g) (sym push_front_eq) (place-same h r [] xs),
    )
