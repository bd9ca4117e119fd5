-- ===== src/Mem/Count.antt =====
-- The count of used pages, and the well-formedness of the allocator's state.
use tensix.Base.{
  ℕ, zero, suc, ◌+◌, ◌<◌, ◌≤◌, ◌≡◌, ◌∙◌, refl, arith, Bool, true, false, List, ◌==◌, if◌then◌else◌,
  length, length-set, ℕ_discrete, ==_ne, ==_refl,
}
use tensix.Bitmap.{get, put}
use tensix.Bitmap.Bits.{Bytes, InMap, get-put, put-Bytes, length-put}
use tensix.Mem.{Pages, num_pages, page_used, page_alloc, page_free}

-- How many of the first `n` bits are set.
unfoldable pub count_used : List ℕ → ℕ → ℕ
count_used m zero = 0
count_used m (suc n) = (if get m n then 1 else 0) + count_used m n

-- The map has a bit and the table a byte for each page, and the counter holds the unused pages.
pub record IsValid (m : Pages) : Type 0 where
  pub map_bytes : Bytes m.page_map
  pub map_length : length m.page_map ≡ 32
  pub list_length : length m.page_list ≡ num_pages
  pub counted : m.free + count_used m.page_map num_pages ≡ num_pages

module _ (m : List ℕ) (bytes : Bytes m) (i : ℕ) (v : Bool) (in_map : InMap m i) where
  -- Writing a bit behind the first `n` does not change their count.
  count_outside : (n : ℕ) → n ≤ i → count_used (put m i v) n ≡ count_used m n
  unfolding count_used
  count_outside zero h = refl
  count_outside (suc n) h =
      rw (get-put m i n v bytes in_map, ==_ne i n (omega arith), count_outside n (omega arith))

  count_inside :
      (n : ℕ)
      → i < n
      → count_used (put m i v) n + (if get m i then 1 else 0)
        ≡ count_used m n + (if v then 1 else 0)
  unfolding count_used
  count_inside zero h = absurd (omega arith)
  count_inside (suc n) h = elim (ℕ_discrete i n) [
    | yes e ↦
        rw (← e, get-put m i i v bytes in_map, ==_refl, count_outside i (omega arith)) (omega arith)
    | no ne ↦
        rw (get-put m i n v bytes in_map, ==_ne i n ne)
          (omega (arith, count_inside n (omega arith)))
  ]

pub count_used-le : (m : List ℕ) (n : ℕ) → count_used m n ≤ n
unfolding count_used
count_used-le m zero = omega arith
count_used-le m (suc n) = ground (arith, count_used-le m n)

pub in_map : {m : Pages} (p : ℕ) → IsValid m → p < num_pages → InMap m.page_map p
in_map p v h = omega (arith, v.map_length)

module _ {m : Pages} (v : IsValid m) (p : ℕ) (h : p < num_pages) where
  pub used-page_alloc :
      (fsize proc q : ℕ) (cont : Bool)
      → page_used (page_alloc m p fsize cont proc) q ≡ (if p == q then true else page_used m q)
  unfolding page_alloc
  used-page_alloc fsize proc q cont = get-put m.page_map p q true v.map_bytes (in_map p v h)

  pub used-page_free :
      (q : ℕ) → page_used (page_free m p) q ≡ (if p == q then false else page_used m q)
  unfolding page_free
  used-page_free q = get-put m.page_map p q false v.map_bytes (in_map p v h)

  pub page_alloc-IsValid :
      (fsize proc : ℕ) (cont : Bool)
      → page_used m p ≡ false
      → IsValid (page_alloc m p fsize cont proc)
        × ((page_alloc m p fsize cont proc).free + 1 ≡ m.free)
  unfolding page_alloc
  page_alloc-IsValid fsize proc cont unused =
      let count = count_inside m.page_map v.map_bytes p true (in_map p v h) num_pages h in
      let most = count_used-le (put m.page_map p true) num_pages in
      let more : count_used (put m.page_map p true) num_pages
          ≡ count_used m.page_map num_pages + 1 =
        ground (arith, count) in
      (
        record {
          map_bytes = put-Bytes m.page_map p true v.map_bytes;
          map_length = length-put m.page_map p true ∙ v.map_length;
          list_length = length-set m.page_list p _ ∙ v.list_length;
          counted = omega (arith, v.counted);
        },
        omega (arith, v.counted),
      )

  pub page_free-IsValid :
      page_used m p ≡ true → IsValid (page_free m p) × ((page_free m p).free ≡ m.free + 1)
  unfolding page_free
  page_free-IsValid used =
      let count = count_inside m.page_map v.map_bytes p false (in_map p v h) num_pages h in
      let less : count_used (put m.page_map p false) num_pages + 1
          ≡ count_used m.page_map num_pages =
        ground (arith, count) in
      (
        record {
          map_bytes = put-Bytes m.page_map p false v.map_bytes;
          map_length = length-put m.page_map p false ∙ v.map_length;
          list_length = length-set m.page_list p _ ∙ v.list_length;
          counted = omega (arith, v.counted);
        },
        omega (arith, v.counted),
      )
