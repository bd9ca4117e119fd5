-- ===== src/Queue/Links.antt =====
-- Chains of linked nodes, and how writes to them change what they link.
use tensix.Base.{
  ℕ, ◌≡◌, List, [], ◌∷◌, ◌++◌, arith, ◌∈◌, ◌∉◌, head_or, last_or, Distinct, has-last_or, mem-ne,
}
use tensix.Queue.{Heap, set_prev, set_next}

-- The nodes `xs` are linked both ways, behind `p` and before `n`.
abbrev pub Links : Heap → ℕ → List ℕ → ℕ → Type 0
Links h p [] n = Unit
Links h p (x ∷ xs) n = ((h x).prev ≡ p) × ((h x).next ≡ head_or xs n) × Links h x xs n

-- All nodes but those of the list are the same after as before.
abbrev pub SameOutside : List ℕ → Heap → Heap → Type 0
SameOutside ps before after = (q : ℕ) → q ∉ ps → after q ≡ before q

module _ (h : Heap) where
  pub Links-frame :
      (g : Heap) (p n : ℕ) (xs : List ℕ)
      → ((a : ℕ) → a ∈ xs → g a ≡ h a)
      → Links h p xs n
      → Links g p xs n
  Links-frame g p n [] same l = tt
  Links-frame g p n (x ∷ xs) same l = (
    ground (arith, same x),
    ground (arith, same x),
    Links-frame g x n xs (λ a i. same a (ground arith)) l.2,
  )

  pub Links-split :
      (p n : ℕ) (xs ys : List ℕ)
      → Links h p (xs ++ ys) n
      → Links h p xs (head_or ys n) × Links h (last_or xs p) ys n
  Links-split p n [] ys l = (tt, l)
  Links-split p n (x ∷ []) ys l = ((l.0, l.1, tt), l.2)
  Links-split p n (x ∷ y ∷ xs) ys l =
      let rest = Links-split x n (y ∷ xs) ys l.2 in ((l.0, l.1, rest.0), rest.1)

  pub Links-append :
      (p n : ℕ) (xs ys : List ℕ)
      → Links h p xs (head_or ys n)
      → Links h (last_or xs p) ys n
      → Links h p (xs ++ ys) n
  Links-append p n [] ys l m = m
  Links-append p n (x ∷ []) ys l m = (l.0, l.1, m)
  Links-append p n (x ∷ y ∷ xs) ys l m = (l.0, l.1, Links-append x n (y ∷ xs) ys l.2 m)

  -- The last node of a chain is linked to another successor.
  pub Links-set_next :
      (p m n x : ℕ) (xs : List ℕ)
      → Links h p (x ∷ xs) m
      → Distinct (x ∷ xs)
      → Links (set_next h (last_or xs x) n) p (x ∷ xs) n
  unfolding set_next
  Links-set_next p m n x [] l d = (ground arith, ground arith, tt)
  Links-set_next p m n x (y ∷ ys) l d =
      let e = mem-ne (last_or ys y) x (y ∷ ys) (has-last_or y ys) d.1 in
      (rw e l.0, rw e l.1, Links-set_next x m n y ys l.2 d.2)

  -- The first node of a chain is linked to another predecessor.
  pub Links-set_prev :
      (p n q x : ℕ) (xs : List ℕ)
      → Links h p (x ∷ xs) n
      → Distinct (x ∷ xs)
      → Links (set_prev h x q) q (x ∷ xs) n
  unfolding set_prev
  Links-set_prev p n q x xs l d =
      (ground arith, ground arith, Links-frame _ x n xs (λ a i. ground (arith, mem-ne a x xs)) l.2)

  pub frame-set_next :
      (p n a v : ℕ) (xs : List ℕ) → a ∉ xs → Links h p xs n → Links (set_next h a v) p xs n
  unfolding set_next
  frame-set_next p n a v xs out l = Links-frame _ p n xs (λ b i. ground (arith, mem-ne b a xs)) l

  pub frame-set_prev :
      (p n a v : ℕ) (xs : List ℕ) → a ∉ xs → Links h p xs n → Links (set_prev h a v) p xs n
  unfolding set_prev
  frame-set_prev p n a v xs out l = Links-frame _ p n xs (λ b i. ground (arith, mem-ne b a xs)) l

  -- The last node of a chain leads to what stands behind the chain.
  pub next_of_last : (p n x : ℕ) (xs : List ℕ) → Links h p (x ∷ xs) n → (h (last_or xs x)).next ≡ n
  next_of_last p n x [] l = l.1
  next_of_last p n x (y ∷ ys) l = next_of_last x n y ys l.2
