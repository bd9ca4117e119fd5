-- ===== src/Mem/Alloc.antt =====
-- `mem_page_alloc` and `mem_pages_alloc`: which pages they take.
use tensix.Base.{
  ℕ, zero, suc, ◌+◌, ◌*◌, ◌%◌, ◌<◌, ◌≤◌, ◌≡◌, ◌≢◌, ◌⊎◌, inl, inr, ◌∙◌, ap, sym, refl, arith, true,
  false, not, ◌&&◌, ◌||◌, ◌==◌, ltb, if◌then◌else◌, get_or, List, some, passes, passes-at, dec_lt,
  Bool-cases, ==_ne, ==_iff, subst,
}
use tensix.Bitmap.{test_bit, get}
use tensix.Bitmap.Bits.{Bytes, get_or-IsByte, test_bit-mod, and_right}
use tensix.Bitmap.Seek.{bitmap_seek_finds}
use tensix.Mem.{
  Pages, num_pages, page_used, highest_unset, top_free_page, mem_pages_ref, mem_page_alloc,
  mem_pages_alloc,
}
use tensix.Mem.Count.{IsValid}
use tensix.Mem.Ref.{Unused, Taken, mem_pages_ref-Taken}

highest_table :
    passes 255 (λ b.
      (ltb (highest_unset 7 b) 8 && not (test_bit b (highest_unset 7 b)))
      && passes 8 (λ j. not (ltb (highest_unset 7 b) j) || test_bit b j))
    ≡ true
unfolding passes highest_unset test_bit
highest_table = refl

full_table : passes 8 (test_bit 255) ≡ true
unfolding passes test_bit
full_table = refl

highest_unset_lem :
    (b : ℕ)
    → b < 255
    → (highest_unset 7 b < 8)
      × (test_bit b (highest_unset 7 b) ≡ false)
      × ((j : ℕ) → highest_unset 7 b < j → j < 8 → test_bit b j ≡ true)
highest_unset_lem b h =
    let t = passes-at 255 _ b highest_table h in
    (
      ground arith,
      ground arith,
      λ j lo hi.
          let s =
            passes-at 8 (λ j. not (ltb (highest_unset 7 b) j) || test_bit b j) j (and_right _ _ t)
              hi in
          ground arith,
    )

all_byte : (b j : ℕ) → (b == 255) ≡ true → j < 8 → test_bit b j ≡ true
all_byte b j full h =
    ap (λ b. test_bit b j) ((==_iff b 255).0 full) ∙ passes-at 8 (test_bit 255) j full_table h

get_bit :
    (m : List ℕ) (i q : ℕ) → i * 8 ≤ q → q < i * 8 + 8 → get m q ≡ test_bit (get_or m i 0) (q % 8)
unfolding get
get_bit m i q lo hi =
    ap (λ k. test_bit (get_or m k 0) q) (omega arith) ∙ sym (test_bit-mod (get_or m i 0) q)

-- The page found is unused, and all pages above it are used.
top_free_page_lem :
    (m : List ℕ) (n : ℕ)
    → Bytes m
    → ((top_free_page m n ≡ 0)
        ⊎ ((top_free_page m n < n * 8) × (get m (top_free_page m n) ≡ false)))
      × ((q : ℕ) → top_free_page m n < q → q < n * 8 → get m q ≡ true)
unfolding top_free_page
top_free_page_lem m zero v = (inl refl, λ q lo hi. absurd (omega arith))
top_free_page_lem m (suc n) v = elim (Bool-cases (get_or m n 0 == 255)) [
  | inl full ↦
      let rest = top_free_page_lem m n v in
      rw full (
        ground (arith, rest.0),
        λ q lo hi. elim (dec_lt q (n * 8)) [
          | yes below ↦ rest.1 q lo below
          | no above ↦
              get_bit m n q (omega arith) (omega arith)
              ∙ all_byte (get_or m n 0) (q % 8) full (omega arith)
        ],
      )
  | inr some_free ↦
      let b = get_or m n 0 in
      let lt : b < 255 = ground (arith, get_or-IsByte m n v) in
      let top = highest_unset_lem b lt in
      let k = highest_unset 7 b in
      rw some_free (
        inr (
          omega (arith, top.0),
          get_bit m n (k + n * 8) (omega arith) (omega (arith, top.0))
              ∙ ap (test_bit b) (omega (arith, top.0))
              ∙ top.1,
        ),
        λ q lo hi.
            get_bit m n q (omega arith) (omega arith)
            ∙ top.2 (q % 8) (omega (arith, top.0)) (omega arith),
      )
]

-- In a valid state, `mem_page_alloc` takes the highest unused page, or returns page 0 and leaves
-- all as it was; it fails only where no page but page 0 is unused.
pub mem_page_alloc_lem :
    (m : Pages) (fsize proc : ℕ)
    → IsValid m
    → let (p, m') = mem_page_alloc m fsize proc in
      ((q : ℕ) → p < q → q < num_pages → page_used m q ≡ true)
      × (p ≡ 0 → m' ≡ m)
      × (p ≢ 0 → (p < num_pages) × (page_used m p ≡ false) × Taken m m' p 1 fsize proc)
unfolding mem_page_alloc
mem_page_alloc_lem m fsize proc v =
    let top = top_free_page m.page_map 32 in
    let t = top_free_page_lem m.page_map 32 v.map_bytes in
    (
      t.1,
      λ z. rw z,
      λ nz.
          let here : (top < 256) × (get m.page_map top ≡ false) = elim t.0 [
            | inl z ↦ absurd (nz z)
            | inr f ↦ f
          ] in
          (
            here.0,
            here.1,
            rw (==_ne top 0 nz) (
                mem_pages_ref-Taken fsize proc m top 1 v (omega (arith, here.0))
                  λ q lo hi. subst (λ k. get m.page_map k ≡ false) (omega arith) here.1),
          ),
    )

-- In a valid state, `mem_pages_alloc` of at most all pages, but not of one, takes a run of unused
-- pages, the continuation flag on all but the last, or returns page 0 and leaves all as it was.
pub mem_pages_alloc_lem :
    (m : Pages) (num fsize proc : ℕ)
    → IsValid m
    → num ≢ 1
    → num ≤ num_pages
    → (p : ℕ) × (m' : Pages) × (mem_pages_alloc m num fsize proc ≡ some (p, m'))
      × (p ≡ 0 → m' ≡ m)
      × (p ≢ 0 → (p + num < num_pages) × Unused m p num × Taken m m' p num fsize proc)
unfolding mem_pages_alloc
mem_pages_alloc_lem m num fsize proc v many le =
    let s = bitmap_seek_finds m.page_map num_pages num 0 (omega arith) le (omega arith) in
    (
      s.0,
      if s.0 == 0 then m else mem_pages_ref m s.0 num fsize proc,
      rw (==_ne num 1 many, s.1),
      λ z. rw z,
      λ nz.
          let f = s.2 nz in
          (
            f.1,
            f.2,
            rw (==_ne s.0 0 nz)
                (mem_pages_ref-Taken fsize proc m s.0 num v (omega (arith, f.1)) f.2),
          ),
    )
