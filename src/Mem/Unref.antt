-- ===== src/Mem/Unref.antt =====
-- `mem_pages_unref`: giving pages back along their continuation flags.
use tensix.Base.{
  ℕ, zero, suc, ◌+◌, ◌<◌, ◌≤◌, ◌≡◌, inl, ◌∙◌, ap, refl, arith, true, false, not, ◌==◌, ◌&&◌,
  if◌then◌else◌, get_or-set_self, get_or-set_ne, ℕ_discrete, ==_ne, ==_refl, some,
}
use tensix.Mem.{
  Pages, num_pages, page_used, page_free, page_info, info, info_cont, info_locked, info_before,
  unref_loop, mem_pages_unref,
}
use tensix.Mem.Count.{IsValid, page_free-IsValid, used-page_free}
use tensix.Mem.Ref.{Among, Outside}

-- `num` used pages from `p` on, each but the last with the continuation flag.
abbrev pub Chained : Pages → ℕ → ℕ → Type 0
Chained m p num =
    (q : ℕ)
    → Among p num q
    → (page_used m q ≡ true) × (info_cont (info m q) ≡ not (suc q == p + num))

-- `m'` is `m` with the `num` pages from `p` on unused and their infos zero.
pub record Given (m m' : Pages) (p num : ℕ) : Type 0 where
  pub valid : IsValid m'
  pub free : m'.free ≡ m.free + num
  pub used_in : (q : ℕ) → Among p num q → page_used m' q ≡ false
  pub used_out : (q : ℕ) → Outside p num q → page_used m' q ≡ page_used m q
  pub info_in : (q : ℕ) → Among p num q → info m' q ≡ page_info 0 false 0
  pub info_out : (q : ℕ) → Outside p num q → info m' q ≡ info m q
  pub below : m'.below ≡ m.below
  pub locked : m'.locked ≡ m.locked

pub info-page_free :
    (m : Pages) (p q : ℕ)
    → IsValid m
    → p < num_pages
    → info (page_free m p) q ≡ (if p == q then page_info 0 false 0 else info m q)
unfolding page_free
info-page_free m p q v h = elim (ℕ_discrete p q) [
  | yes e ↦ rw (← e, get_or-set_self m.page_list p _ 0 (omega (arith, v.list_length)), ==_refl)
  | no ne ↦ rw (get_or-set_ne m.page_list p q _ 0 ne, ==_ne p q ne)
]

module _ (m : Pages) (p : ℕ) (v : IsValid m) (h : p < num_pages) (used : page_used m p ≡ true) where
  pub Given-one : Given m (page_free m p) p 1
  unfolding page_free
  Given-one = record {
    valid = (page_free-IsValid v p h used).0;
    free = (page_free-IsValid v p h used).1;
    used_in = λ q a. used-page_free v p h q ∙ ground arith;
    used_out = λ q o. used-page_free v p h q ∙ rw (==_ne p q (omega arith));
    info_in = λ q a. info-page_free m p q v h ∙ ground arith;
    info_out = λ q o. info-page_free m p q v h ∙ rw (==_ne p q (omega arith));
    below = refl;
    locked = refl;
  }

  Given-suc : (m' : Pages) (num : ℕ) → Given (page_free m p) m' (p + 1) num → Given m m' p (suc num)
  Given-suc m' num rest = record {
    valid = rest.valid;
    free = omega (arith, rest.free, Given-one.free);
    used_in = λ q a. elim (ℕ_discrete p q) [
      | yes e ↦ rest.used_out q (inl (omega arith)) ∙ Given-one.used_in q (omega arith)
      | no ne ↦ rest.used_in q (omega arith)
    ];
    used_out = λ q o. rest.used_out q (omega arith) ∙ Given-one.used_out q (omega arith);
    info_in = λ q a. elim (ℕ_discrete p q) [
      | yes e ↦ rest.info_out q (inl (omega arith)) ∙ Given-one.info_in q (omega arith)
      | no ne ↦ rest.info_in q (omega arith)
    ];
    info_out = λ q o. rest.info_out q (omega arith) ∙ Given-one.info_out q (omega arith);
    below = rest.below ∙ Given-one.below;
    locked = rest.locked ∙ Given-one.locked;
  }

unref_step :
    (fuel : ℕ) (m : Pages) (p : ℕ)
    → p + 1 < num_pages
    → info_cont (info m p) ≡ true
    → unref_loop (suc fuel) m p ≡ unref_loop fuel (page_free m p) (p + 1)
unfolding unref_loop
unref_step fuel m p h more = rw more (ap (unref_loop fuel (page_free m p)) (omega arith))

-- The loop frees the whole chain, and stops at its end.
pub unref_loop-Given :
    (fuel : ℕ) (m : Pages) (p num : ℕ)
    → IsValid m
    → p + suc num ≤ num_pages
    → num < fuel
    → Chained m p (suc num)
    → (m' : Pages) × (unref_loop fuel m p ≡ some m') × Given m m' p (suc num)
unfolding unref_loop
unref_loop-Given zero m p num v h f chain = absurd (omega arith)
unref_loop-Given (suc fuel) m p zero v h f chain =
    let c = chain p (omega arith) in
    let last : info_cont (info m p) ≡ false = c.1 ∙ ground arith in
    (page_free m p, rw last, Given-one m p v (omega arith) c.0)
unref_loop-Given (suc fuel) m p (suc num) v h f chain =
    let c = chain p (omega arith) in
    let lt : p < num_pages = omega arith in
    let more : info_cont (info m p) ≡ true = c.1 ∙ ground arith in
    let one = Given-one m p v lt c.0 in
    let rest =
      unref_loop-Given fuel (page_free m p) (p + 1) num one.valid (omega arith) (omega arith)
        (λ q a.
          let d = chain q (omega arith) in
          (
            one.used_out q (omega arith) ∙ d.0,
            ap info_cont (one.info_out q (omega arith))
                ∙ d.1
                ∙ ap (λ k. not (suc q == k)) (omega arith),
          )) in
    (
      rest.0,
      unref_step fuel m p (omega arith) more ∙ rest.1,
      Given-suc m p v lt c.0 rest.0 (suc num) rest.2,
    )

-- In a valid state, `mem_pages_unref` of the first of a run of used pages, all but the last with
-- the continuation flag, ends and gives back these pages and no others, unless the page before
-- continues into the run.
pub mem_pages_unref-Given :
    (m : Pages) (p num : ℕ)
    → IsValid m
    → p + suc num ≤ num_pages
    → Chained m p (suc num)
    → (not (info_locked (info_before m p)) && info_cont (info_before m p)) ≡ false
    → (m' : Pages) × (mem_pages_unref m p ≡ some m') × Given m m' p (suc num)
unfolding mem_pages_unref
mem_pages_unref-Given m p num v h chain head =
    let rest = unref_loop-Given 257 m p num v h (omega arith) chain in
    (rest.0, rw head rest.1, rest.2)
