-- ===== src/Mem/RoundTrip.antt =====
-- What is taken is given back: `mem_pages_unref` after `mem_pages_ref`.
use tensix.Base.{
  ℕ, zero, suc, ◌+◌, ◌<◌, ◌≤◌, ◌≡◌, ◌⊎◌, inl, inr, ◌∙◌, sym, ap, arith, false, not, ◌&&◌, some,
  dec_lt,
}
use tensix.Mem.{
  Pages, num_pages, page_used, info_cont, info_locked, info_before, mem_pages_ref, mem_pages_unref,
}
use tensix.Mem.Info.{page_info_lem}
use tensix.Mem.Count.{IsValid}
use tensix.Mem.Ref.{Unused, Taken, mem_pages_ref-Taken}
use tensix.Mem.Unref.{Chained, mem_pages_unref-Given}

pub Taken-Chained :
    (m m' : Pages) (p num fsize proc : ℕ)
    → fsize < 4
    → proc < 256
    → Taken m m' p num fsize proc
    → Chained m' p num
Taken-Chained m m' p num fsize proc hf hp t q a =
    (t.used_in q a, ap info_cont (t.info_in q a) ∙ (page_info_lem fsize proc _ hf hp).1)

pub before_eq :
    (m m' : Pages) (p num fsize proc : ℕ)
    → Taken m m' p num fsize proc
    → info_before m' p ≡ info_before m p
before_eq m m' zero num fsize proc t = t.below
before_eq m m' (suc p) num fsize proc t = t.info_out p (inl (omega arith))

-- In a valid state, unused pages that `mem_pages_ref` took for a process id below 256, one of a
-- fragment size below 4 or several without fragments (a page that continues and has fragments counts
-- as locked), are unused again after one `mem_pages_unref` of the first, and the use of all pages and
-- the count of free ones are as before, where the page before does not continue into them.
pub unref-ref :
    (m : Pages) (p num fsize proc : ℕ)
    → IsValid m
    → p + suc num ≤ num_pages
    → Unused m p (suc num)
    → fsize < 4
    → (num ≡ 0) ⊎ (fsize ≡ 0)
    → proc < 256
    → (not (info_locked (info_before m p)) && info_cont (info_before m p)) ≡ false
    → (m' : Pages) × (mem_pages_unref (mem_pages_ref m p (suc num) fsize proc) p ≡ some m')
      × IsValid m'
      × (m'.free ≡ m.free)
      × ((q : ℕ) → page_used m' q ≡ page_used m q)
unref-ref m p num fsize proc v h unused hf unlocked hp head =
    let t = mem_pages_ref-Taken fsize proc m p (suc num) v h unused in
    let taken = mem_pages_ref m p (suc num) fsize proc in
    let before = before_eq m taken p (suc num) fsize proc t in
    let g =
      mem_pages_unref-Given taken p num t.valid h
        (Taken-Chained m taken p (suc num) fsize proc hf hp t)
        (ap (λ b. not (info_locked b) && info_cont b) before ∙ head) in
    (
      g.0,
      g.1,
      g.2.valid,
      omega (arith, g.2.free, t.free),
      λ q. elim (dec_lt q p) [
        | yes lo ↦ g.2.used_out q (inl lo) ∙ t.used_out q (inl lo)
        | no hi ↦ elim (dec_lt q (p + suc num)) [
          | yes a ↦ g.2.used_in q (omega arith) ∙ sym (unused q (omega arith) a)
          | no b ↦ g.2.used_out q (inr (omega arith)) ∙ t.used_out q (inr (omega arith))
        ]
      ],
    )
