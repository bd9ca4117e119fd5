-- ===== src/Fragments/Clean.antt =====
-- `mem_frag_clean_stack`: the runs of records of one page, how the code counts and copies one.
pub mod Walk
pub mod Counts
use mathlib.Core.Option
use tensix.Base.{
  ℕ, zero, suc, ◌+◌, ◌-◌, ◌%◌, ◌<◌, ◌≤◌, ◌≡◌, ◌∙◌, refl, ap, ap₂, sym, arith, Bool, true, false,
  List, [], ◌∷◌, ◌++◌, append_assoc, append-nil, Option, none, some, if◌then◌else◌, ltb, ◌==◌,
  get_or, set, length, length-append, Bool-cases, inl, inr, ==_iff,
}
use tensix.Mem.{Pages, mem_pages_unref}
use tensix.Fragments.{Fragment, no_fragment, page_at, count_run, copy_run, clean_loop, take}
use tensix.Fragments.Sort.{get_at, set_at}

-- The records of the page at the front of a list, and what follows them.
unfoldable pub split : ℕ → List Fragment → List Fragment × List Fragment
split pg [] = ([], [])
split pg (f ∷ l) = let s = split pg l in if f.page == pg then (f ∷ s.0, s.1) else ([], f ∷ l)

-- The runs that have not `frags` records, and the pages of those that have.
unfoldable pub kept_runs : ℕ → ℕ → List Fragment → List Fragment
kept_runs frags zero l = []
kept_runs frags (suc n) [] = []
kept_runs frags (suc n) (f ∷ l) =
    let s = split f.page l in
    (if suc (length s.0) == frags then [] else f ∷ s.0) ++ kept_runs frags n s.1

unfoldable pub full_runs : ℕ → ℕ → List Fragment → List ℕ
full_runs frags zero l = []
full_runs frags (suc n) [] = []
full_runs frags (suc n) (f ∷ l) =
    let s = split f.page l in
    (if suc (length s.0) == frags then f.page ∷ [] else []) ++ full_runs frags n s.1

-- `mem_pages_unref` of one page after the other.
unfoldable pub unref_all : Pages → List ℕ → Option Pages
unref_all m [] = some m
unref_all m (p ∷ ps) = elim (mem_pages_unref m p) [ none ↦ none | some m' ↦ unref_all m' ps ]

pub split-append : (pg : ℕ) (l : List Fragment) → (split pg l).0 ++ (split pg l).1 ≡ l
unfolding split
split-append pg [] = refl
split-append pg (f ∷ l) = elim (Bool-cases (f.page == pg)) [
  | inl e ↦ rw e (ap (◌∷◌ f) (split-append pg l))
  | inr e ↦ rw e refl
]

pub length-split :
    (pg : ℕ) (l : List Fragment) → length (split pg l).0 + length (split pg l).1 ≡ length l
length-split pg l =
    sym (length-append (split pg l).0 (split pg l).1) ∙ ap length (split-append pg l)

pub count_run-split :
    (pre l : List Fragment) (pg i id : ℕ)
    → i ≡ length pre
    → id + length l < 256
    → count_run (pre ++ l) pg i (length l) id ≡ id + length (split pg l).0
unfolding count_run split
count_run-split pre [] pg i id e h = omega arith
count_run-split pre (f ∷ l) pg i id e h =
    let here : page_at (pre ++ (f ∷ l)) i ≡ f.page = ap (λ g. g.page) (get_at pre f l i e) in
    let next : count_run (pre ++ (f ∷ l)) pg (i + 1) (length l) ((id + 1) % 256)
        ≡ (id + 1) + length (split pg l).0 =
      ap₂ (λ st k. count_run st pg (i + 1) (length l) k) (sym (append_assoc pre (f ∷ []) l))
        (omega arith)
      ∙ count_run-split (pre ++ (f ∷ [])) l pg (i + 1) (id + 1)
          (omega (arith, length-append pre (f ∷ []))) (omega arith) in
    ap
      (λ k.
        if k == pg then count_run (pre ++ (f ∷ l)) pg (i + 1) (length l) ((id + 1) % 256) else id)
      here
    ∙ (elim (Bool-cases (f.page == pg)) [
      | inl e' ↦ rw e' (next ∙ omega arith)
      | inr e' ↦ rw e' (omega arith)
    ])

-- Where something stands between, copying a run moves it to the front of that.
pub copy_run_lem :
    (run kept junk l : List Fragment) (src dst : ℕ)
    → dst ≡ length kept
    → src ≡ length kept + length junk
    → 0 < length junk
    → (junk' : List Fragment) × (copy_run (kept ++ (junk ++ (run ++ l))) src dst (length run)
        ≡ (kept ++ run) ++ (junk' ++ l))
      × (length junk' ≡ length junk)
unfolding copy_run
copy_run_lem [] kept junk l src dst d s h = (junk, rw append-nil refl, refl)
copy_run_lem (f ∷ run) kept [] l src dst d s h = absurd (omega arith)
copy_run_lem (f ∷ run) kept (j ∷ junk) l src dst d s h =
    let st = kept ++ ((j ∷ junk) ++ (f ∷ (run ++ l))) in
    let from : get_or st src no_fragment ≡ f =
      ap (λ t. get_or t src no_fragment) (sym (append_assoc kept (j ∷ junk) (f ∷ (run ++ l))))
      ∙ get_at (kept ++ (j ∷ junk)) f (run ++ l) src
          (omega (arith, length-append kept (j ∷ junk))) in
    let moved : set st dst (get_or st src no_fragment)
        ≡ (kept ++ (f ∷ [])) ++ ((junk ++ (f ∷ [])) ++ (run ++ l)) =
      ap (set st dst) from
      ∙ set_at kept j f (junk ++ (f ∷ (run ++ l))) dst d
      ∙ sym (append_assoc kept (f ∷ []) (junk ++ (f ∷ (run ++ l))))
      ∙ ap (λ t. (kept ++ (f ∷ [])) ++ t) (sym (append_assoc junk (f ∷ []) (run ++ l))) in
    let step =
      copy_run_lem run (kept ++ (f ∷ [])) (junk ++ (f ∷ [])) l (src + 1) (dst + 1)
        (omega (arith, length-append kept (f ∷ [])))
        (omega (arith, length-append kept (f ∷ []), length-append junk (f ∷ [])))
        (omega (arith, length-append junk (f ∷ []))) in
    (
      step.0,
      ap (λ t. copy_run t (src + 1) (dst + 1) (length run)) moved
          ∙ step.1
          ∙ ap (λ t. t ++ (step.0 ++ l)) (append_assoc kept (f ∷ []) run),
      step.2 ∙ omega (arith, length-append junk (f ∷ [])),
    )
