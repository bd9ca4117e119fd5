-- ===== src/Mem/Example.antt =====
-- The theorems on mem.c at a memory without used pages, and at one with pages 250 to 252 taken.
use tensix.Base.{
  ℕ, ◌+◌, ◌<◌, ◌≡◌, ◌≢◌, inl, inr, ◌∙◌, ap, refl, arith, true, false, not, ◌&&◌, some, replicate,
  passes, passes-at, Bool-cases,
}
use tensix.Bitmap.{get, test_bit}
use tensix.Mem.{
  Pages, num_pages, page_used, info_cont, info_frag, info_locked, info_before, mem_pages_ref,
  mem_pages_unref, mem_pages_alloc, mem_kill_proc,
}
use tensix.Mem.Count.{IsValid, count_used}
use tensix.Mem.Ref.{Taken, Unused, mem_pages_ref-Taken}
use tensix.Mem.Unref.{Chained}
use tensix.Mem.Alloc.{mem_pages_alloc_lem}
use tensix.Mem.RoundTrip.{Taken-Chained, before_eq, unref-ref}
use tensix.Mem.Kill.{owned, mem_kill_proc_lem, mem_kill_proc_frees_other}

abbrev fresh : Pages
fresh = record {
  page_map = replicate 32 0;
  page_list = replicate 256 0;
  free = 256;
  locked = 0;
  below = 0;
}

fresh-IsValid : IsValid fresh
unfolding count_used get test_bit
fresh-IsValid = record {
  map_bytes = omega arith;
  map_length = refl;
  list_length = refl;
  counted = refl;
}

fresh_table : passes 256 (λ q. not (page_used fresh q)) ≡ true
unfolding passes get test_bit
fresh_table = refl

fresh_unused : (q : ℕ) → q < 256 → page_used fresh q ≡ false
fresh_unused q h =
    let t = passes-at 256 (λ q. not (page_used fresh q)) q fresh_table h in
    elim (Bool-cases (page_used fresh q)) [ inl used ↦ cc | inr unused ↦ unused ]

fresh-Unused : Unused fresh 250 3
fresh-Unused q lo hi = fresh_unused q (omega arith)

abbrev taken : Pages
taken = mem_pages_ref fresh 250 3 0 35

taken-Taken : Taken fresh taken 250 3 0 35
taken-Taken = mem_pages_ref-Taken 0 35 fresh 250 3 fresh-IsValid (omega arith) fresh-Unused

taken-Chained : Chained taken 250 3
taken-Chained = Taken-Chained fresh taken 250 3 0 35 (omega arith) (omega arith) taken-Taken

fresh_head :
    (not (info_locked (info_before fresh 250)) && info_cont (info_before fresh 250)) ≡ false
unfolding info_locked info_cont info_frag
fresh_head = refl

taken_head :
    (not (info_locked (info_before taken 250)) && info_cont (info_before taken 250)) ≡ false
taken_head =
    ap (λ b. not (info_locked b) && info_cont b) (before_eq fresh taken 250 3 0 35 taken-Taken)
    ∙ fresh_head

unref-ref_example :
    (m' : Pages) × (mem_pages_unref (mem_pages_ref fresh 250 3 0 7) 250 ≡ some m')
    × IsValid m'
    × (m'.free ≡ 256)
    × ((q : ℕ) → page_used m' q ≡ page_used fresh q)
unref-ref_example =
    unref-ref fresh 250 2 0 7 fresh-IsValid (omega arith) fresh-Unused (omega arith) (inr refl)
      (omega arith) fresh_head

mem_pages_alloc_lem_example :
    (p : ℕ) × (m' : Pages) × (mem_pages_alloc fresh 4 0 9 ≡ some (p, m'))
    × (p ≡ 0 → m' ≡ fresh)
    × (p ≢ 0 → (p + 4 < num_pages) × Unused fresh p 4 × Taken fresh m' p 4 0 9)
mem_pages_alloc_lem_example =
    mem_pages_alloc_lem fresh 4 0 9 fresh-IsValid (omega arith) (omega arith)

mem_kill_proc_lem_example :
    IsValid (mem_kill_proc taken 3)
    × ((q : ℕ)
        → q < num_pages
        → page_used (mem_kill_proc taken 3) q ≡ (page_used taken q && not (owned taken 3 q)))
mem_kill_proc_lem_example = mem_kill_proc_lem taken 3 taken-Taken.valid

mem_kill_proc_frees_other_example : page_used (mem_kill_proc taken 3) 251 ≡ false
mem_kill_proc_frees_other_example =
    mem_kill_proc_frees_other fresh taken 250 3 0 35 251 taken-Taken (omega arith) (omega arith)
      (omega arith) (omega arith) (inr refl)
