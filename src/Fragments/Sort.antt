-- ===== src/Fragments/Sort.antt =====
-- `mem_frag_sort`: the exchanges leave the records in the order of their pages.
use mathlib.Core.List.{Perm}
use mathlib.Core.List.Perm
use tensix.Base.{
  ℕ, zero, suc, ◌+◌, ◌-◌, ◌≤◌, ◌≡◌, ◌∙◌, refl, ap, ap₂, sym, arith, List, [], ◌∷◌, ◌++◌, ◌==◌,
  append_assoc, if◌then◌else◌, ltb, get_or, set, length, length-append, All, Bool-cases, inl, inr,
}
use tensix.Fragments.{
  Fragment, no_fragment, page_at, exchange, sort_inner, sort_outer, mem_frag_sort,
}

-- No record of the list has a lower page.
abbrev pub AtLeast : ℕ → List Fragment → Type 0
AtLeast k l = All (λ f. k ≤ f.page) l

abbrev pub IsSorted : List Fragment → Type 0
IsSorted [] = Unit
IsSorted (f ∷ l) = AtLeast f.page l × IsSorted l

pub get_at :
    (pre : List Fragment) (f : Fragment) (l : List Fragment) (i : ℕ)
    → i ≡ length pre
    → get_or (pre ++ (f ∷ l)) i no_fragment ≡ f
get_at [] f l i e = rw e
get_at (g ∷ pre) f l i e = rw e (get_at pre f l (length pre) refl)

pub set_at :
    (pre : List Fragment) (f g : Fragment) (l : List Fragment) (i : ℕ)
    → i ≡ length pre
    → set (pre ++ (f ∷ l)) i g ≡ pre ++ (g ∷ l)
set_at [] f g l i e = rw e
set_at (x ∷ pre) f g l i e = rw e (ap (◌∷◌ x) (set_at pre f g l (length pre) refl))

-- One round of the outer loop on lists: the lowest page goes to the front.
select : Fragment → List Fragment → Fragment × List Fragment
select x [] = (x, [])
select x (y ∷ ys) =
    let r = select (if ltb y.page x.page then y else x) ys in
    (r.0, (if ltb y.page x.page then x else y) ∷ r.1)

rounds_of : ℕ → List Fragment → List Fragment
rounds_of zero l = l
rounds_of (suc k) [] = []
rounds_of (suc k) (x ∷ l) = let r = select x l in r.0 ∷ rounds_of k r.1

module _ (pre : List Fragment) (x : Fragment) (mid : List Fragment) (y : Fragment)
    (ys : List Fragment) where
  regroup :
      (x' : Fragment) (y' : Fragment)
      → pre ++ (x' ∷ (mid ++ (y' ∷ ys))) ≡ (pre ++ (x' ∷ mid)) ++ (y' ∷ ys)
  regroup x' y' = sym (append_assoc pre (x' ∷ mid) (y' ∷ ys))

  second : (x' : Fragment) → length pre + 1 + length mid ≡ length (pre ++ (x' ∷ mid))
  second x' = omega (arith, length-append pre (x' ∷ mid))

  whole : List Fragment
  whole = pre ++ (x ∷ (mid ++ (y ∷ ys)))

  at_second : get_or whole (length pre + 1 + length mid) no_fragment ≡ y
  unfolding whole
  at_second =
      ap (λ l. get_or l (length pre + 1 + length mid) no_fragment) (regroup x y)
      ∙ get_at (pre ++ (x ∷ mid)) y ys _ (second x)

  at_first : get_or whole (length pre) no_fragment ≡ x
  unfolding whole
  at_first = get_at pre x (mid ++ (y ∷ ys)) (length pre) refl

  swapped :
      exchange whole (length pre) (length pre + 1 + length mid) ≡ pre ++ (y ∷ (mid ++ (x ∷ ys)))
  unfolding whole
  swapped =
      ap
        (λ f.
          set (set whole (length pre) f) (length pre + 1 + length mid)
            (get_or whole (length pre) no_fragment))
        at_second
      ∙ ap (set (set whole (length pre) y) (length pre + 1 + length mid)) at_first
      ∙ ap (λ l. set l (length pre + 1 + length mid) x)
          (set_at pre x y _ (length pre) refl ∙ regroup y y)
      ∙ set_at (pre ++ (y ∷ mid)) y x ys _ (second y)
      ∙ sym (regroup y x)

  exchanged :
      (if ltb (page_at whole (length pre + 1 + length mid)) (page_at whole (length pre))
        then exchange whole (length pre) (length pre + 1 + length mid)
        else whole)
      ≡ pre
        ++ ((if ltb y.page x.page then y else x)
            ∷ (mid ++ ((if ltb y.page x.page then x else y) ∷ ys)))
  unfolding whole
  exchanged =
      ap₂
        (λ f g.
          if ltb f.page g.page
          then exchange whole (length pre) (length pre + 1 + length mid)
          else whole)
        at_second at_first
      ∙ (elim (Bool-cases (ltb y.page x.page)) [
        | inl lower ↦ rw lower swapped
        | inr other ↦ rw other refl
      ])

sort_inner_lem :
    (pre : List Fragment) (x : Fragment) (mid ys : List Fragment) (j : ℕ)
    → j ≡ length pre + 1 + length mid
    → sort_inner (pre ++ (x ∷ (mid ++ ys))) (length pre) j (length ys)
      ≡ pre ++ ((select x ys).0 ∷ (mid ++ (select x ys).1))
unfolding sort_inner select whole
sort_inner_lem pre x mid [] j e = refl
sort_inner_lem pre x mid (y ∷ ys) j e =
    let x' = if ltb y.page x.page then y else x in
    let y' = if ltb y.page x.page then x else y in
    let rest = select x' ys in
    rw e (
      ap (λ l. sort_inner l (length pre) (length pre + 1 + length mid + 1) (length ys))
        (exchanged pre x mid y ys ∙ ap (λ l. pre ++ (x' ∷ l)) (sym (append_assoc mid (y' ∷ []) ys)))
      ∙ sort_inner_lem pre x' (mid ++ (y' ∷ [])) ys (length pre + 1 + length mid + 1)
          (omega (arith, length-append mid (y' ∷ [])))
      ∙ ap (λ l. pre ++ (rest.0 ∷ l)) (append_assoc mid (y' ∷ []) rest.1))

length-select : (x : Fragment) (l : List Fragment) → length (select x l).1 ≡ length l
unfolding select
length-select x [] = refl
length-select x (y ∷ ys) = ap suc (length-select (if ltb y.page x.page then y else x) ys)

length-rounds_of : (k : ℕ) (l : List Fragment) → length (rounds_of k l) ≡ length l
unfolding rounds_of
length-rounds_of zero l = refl
length-rounds_of (suc k) [] = refl
length-rounds_of (suc k) (x ∷ l) = ap suc (length-rounds_of k (select x l).1 ∙ length-select x l)

sort_outer_lem :
    (rounds num : ℕ) (pre l : List Fragment)
    → num ≡ length pre + length l
    → rounds ≤ length l
    → sort_outer num (pre ++ l) (length pre) rounds ≡ pre ++ rounds_of rounds l
unfolding sort_outer rounds_of
sort_outer_lem zero num pre l e h = refl
sort_outer_lem (suc rounds) num pre [] e h = absurd (omega arith)
sort_outer_lem (suc rounds) num pre (x ∷ l) e h =
    let r = select x l in
    let left : num - (length pre + 1) ≡ length l = omega arith in
    let next : length pre + 1 ≡ length (pre ++ (r.0 ∷ [])) =
      omega (arith, length-append pre (r.0 ∷ [])) in
    ap
      (λ n.
        sort_outer num (sort_inner (pre ++ (x ∷ l)) (length pre) (length pre + 1) n)
          (length pre + 1) rounds)
      left
    ∙ ap (λ st. sort_outer num st (length pre + 1) rounds)
        (sort_inner_lem pre x [] l (length pre + 1) (omega arith)
          ∙ sym (append_assoc pre (r.0 ∷ []) r.1))
    ∙ ap (λ n. sort_outer num ((pre ++ (r.0 ∷ [])) ++ r.1) n rounds) next
    ∙ sort_outer_lem rounds num (pre ++ (r.0 ∷ [])) r.1
        (omega (arith, length-append pre (r.0 ∷ []), length-select x l))
        (omega (arith, length-select x l))
    ∙ append_assoc pre (r.0 ∷ []) (rounds_of rounds r.1)

sort_rounds : (l : List Fragment) → mem_frag_sort l ≡ rounds_of (length l - 1) l
unfolding mem_frag_sort
sort_rounds l = sort_outer_lem (length l - 1) (length l) [] l (omega arith) (omega arith)

select-perm : (x : Fragment) (l : List Fragment) → Perm ((select x l).0 ∷ (select x l).1) (x ∷ l)
unfolding select
select-perm x [] = Perm.rfl
select-perm x (y ∷ ys) = elim (Bool-cases (ltb y.page x.page)) [
  | inl lower ↦
      rw lower
        (Perm.trans (Perm.swap x (select y ys).0 (select y ys).1) (Perm.cons x (select-perm y ys)))
  | inr other ↦ rw other (
      Perm.trans (Perm.swap y (select x ys).0 (select x ys).1)
        (Perm.trans (Perm.cons y (select-perm x ys)) (Perm.swap x y ys)))
]

rounds_of-perm : (k : ℕ) (l : List Fragment) → Perm (rounds_of k l) l
unfolding rounds_of
rounds_of-perm zero l = Perm.rfl
rounds_of-perm (suc k) [] = Perm.rfl
rounds_of-perm (suc k) (x ∷ l) =
    Perm.trans (Perm.cons (select x l).0 (rounds_of-perm k (select x l).1)) (select-perm x l)

pub AtLeast-trans : (j k : ℕ) (l : List Fragment) → j ≤ k → AtLeast k l → AtLeast j l
AtLeast-trans j k [] h a = tt
AtLeast-trans j k (f ∷ l) h a = (omega arith, AtLeast-trans j k l h a.1)

-- What is chosen has no higher page than what is left, nor than what the search began with.
select-AtLeast :
    (x : Fragment) (l : List Fragment)
    → AtLeast (select x l).0.page (select x l).1 × ((select x l).0.page ≤ x.page)
unfolding select
select-AtLeast x [] = (tt, omega arith)
select-AtLeast x (y ∷ ys) =
    let r = select-AtLeast (if ltb y.page x.page then y else x) ys in
    ((ground (arith, r.1), r.0), ground (arith, r.1))

AtLeast-select :
    (k : ℕ) (x : Fragment) (l : List Fragment)
    → k ≤ x.page
    → AtLeast k l
    → (k ≤ (select x l).0.page) × AtLeast k (select x l).1
unfolding select
AtLeast-select k x [] h a = (h, tt)
AtLeast-select k x (y ∷ ys) h a =
    let r = AtLeast-select k (if ltb y.page x.page then y else x) ys (ground arith) a.1 in
    (r.0, (ground arith, r.1))

AtLeast-rounds_of : (k n : ℕ) (l : List Fragment) → AtLeast k l → AtLeast k (rounds_of n l)
unfolding rounds_of
AtLeast-rounds_of k zero l a = a
AtLeast-rounds_of k (suc n) [] a = tt
AtLeast-rounds_of k (suc n) (x ∷ l) a =
    let r = AtLeast-select k x l a.0 a.1 in (r.0, AtLeast-rounds_of k n (select x l).1 r.1)

rounds_of-IsSorted : (k : ℕ) (l : List Fragment) → length l ≤ suc k → IsSorted (rounds_of k l)
unfolding rounds_of
rounds_of-IsSorted zero [] h = tt
rounds_of-IsSorted zero (x ∷ []) h = (tt, tt)
rounds_of-IsSorted zero (x ∷ y ∷ l) h = absurd (omega arith)
rounds_of-IsSorted (suc k) [] h = tt
rounds_of-IsSorted (suc k) (x ∷ l) h = (
  AtLeast-rounds_of _ k (select x l).1 (select-AtLeast x l).0,
  rounds_of-IsSorted k (select x l).1 (omega (arith, length-select x l)),
)

-- `mem_frag_sort` puts the records of any stack in ascending order of their pages, and loses and
-- invents none.
pub mem_frag_sort_lem :
    (st : List Fragment) → IsSorted (mem_frag_sort st) × Perm (mem_frag_sort st) st
mem_frag_sort_lem st =
    rw sort_rounds
      (rounds_of-IsSorted (length st - 1) st (omega arith), rounds_of-perm (length st - 1) st)

-- How many of the records are of the page.
unfoldable pub count_page : ℕ → List Fragment → ℕ
count_page q [] = 0
count_page q (f ∷ l) = (if f.page == q then 1 else 0) + count_page q l

count_page-select :
    (q : ℕ) (x : Fragment) (l : List Fragment)
    → count_page q ((select x l).0 ∷ (select x l).1) ≡ count_page q (x ∷ l)
unfolding select count_page
count_page-select q x [] = refl
count_page-select q x (y ∷ ys) =
    ground (arith, count_page-select q (if ltb y.page x.page then y else x) ys)

count_page-rounds_of : (q k : ℕ) (l : List Fragment) → count_page q (rounds_of k l) ≡ count_page q l
unfolding rounds_of count_page
count_page-rounds_of q zero l = refl
count_page-rounds_of q (suc k) [] = refl
count_page-rounds_of q (suc k) (x ∷ l) =
    ap (λ n. (if (select x l).0.page == q then 1 else 0) + n)
      (count_page-rounds_of q k (select x l).1)
    ∙ count_page-select q x l

pub count_page-mem_frag_sort :
    (q : ℕ) (st : List Fragment) → count_page q (mem_frag_sort st) ≡ count_page q st
count_page-mem_frag_sort q st = rw sort_rounds (count_page-rounds_of q (length st - 1) st)

pub length-mem_frag_sort : (st : List Fragment) → length (mem_frag_sort st) ≡ length st
length-mem_frag_sort st = rw sort_rounds (length-rounds_of (length st - 1) st)
