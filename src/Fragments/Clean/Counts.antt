-- ===== src/Fragments/Clean/Counts.antt =====
-- `mem_frag_clean_stack` by counts: in sorted records a run has all records of its page, so what is
-- kept are the records of the pages of which not exactly `frags` are on the stack.
use tensix.Base.{
  ℕ, suc, ◌<◌, ◌≤◌, ◌≡◌, refl, arith, true, List, [], ◌∷◌, Option, none, some, if◌then◌else◌, ltb,
  ◌==◌, length, Bool-cases, inl, inr, All,
}
use tensix.Mem.{Pages}
use tensix.Fragments.{Fragment, take, mem_frag_sort, mem_frag_clean_stack}
use tensix.Fragments.Sort.{AtLeast, AtLeast-trans, IsSorted, count_page}
use tensix.Fragments.Clean.{split, full_runs}

-- Of `l`, the records of the pages that are not complete on `st`.
unfoldable pub incomplete : ℕ → List Fragment → List Fragment → List Fragment
incomplete frags st [] = []
incomplete frags st (f ∷ l) =
    let rest = incomplete frags st l in if count_page f.page st == frags then rest else f ∷ rest

abbrev OfPage : ℕ → List Fragment → Type 0
OfPage q l = All (λ f. f.page ≡ q) l

split-AtLeast :
    (q : ℕ) (l : List Fragment)
    → AtLeast q l
    → IsSorted l
    → AtLeast (suc q) (split q l).1 × IsSorted (split q l).1
unfolding split
split-AtLeast q [] a s = (tt, tt)
split-AtLeast q (f ∷ l) a s = elim (Bool-cases (f.page == q)) [
  | inl e ↦ rw e (split-AtLeast q l a.1 s.1)
  | inr e ↦
      let above : suc q ≤ f.page = ground arith in
      rw e ((above, AtLeast-trans (suc q) f.page l above s.0), s)
]

-- In sorted records the run at the front has all records of its page.
module _ (f : Fragment) (l : List Fragment) (sorted : IsSorted (f ∷ l)) where
  a : List Fragment
  a = (split f.page l).0

  b : List Fragment
  b = (split f.page l).1

  above : AtLeast (suc f.page) b × IsSorted b
  unfolding b
  above = split-AtLeast f.page l sorted.0 sorted.1

-- Strictly ascending page numbers.
abbrev pub Ascending : List ℕ → Type 0
Ascending [] = Unit
Ascending (p ∷ ps) = All (λ q. p < q) ps × Ascending ps

abbrev outcome : Option Pages → List Fragment → Option (Pages × List Fragment)
outcome u st = elim u [ none ↦ none | some m' ↦ some (m', st) ]

module _ (m : Pages) (st : List Fragment) (frags : ℕ) where
  pub clean_few : ltb (length st) frags ≡ true → mem_frag_clean_stack m st frags ≡ some (m, st)
  unfolding mem_frag_clean_stack
  clean_few few = rw (few, mem_frag_clean_stack) refl

  abbrev taken : Option (Pages × List Fragment × ℕ) → Option (Pages × List Fragment)
  taken r = elim r [ none ↦ none | some (m', st', dst) ↦ some (m', take dst st') ]

  pages : List ℕ
  pages = full_runs frags (suc (length st)) (mem_frag_sort st)
