-- ===== src/Fragments/Example.antt =====
-- The theorems on fragments at a process with one page of fragments of half a page, and tests of
-- the sort and of the clean-up.
use tensix.Base.{
  ℕ, zero, suc, ◌/◌, ◌^◌, ◌<◌, ◌≤◌, ◌≡◌, refl, arith, true, List, [], ◌∷◌, none, some, ◌==◌,
  if◌then◌else◌, length, replicate,
}
use tensix.Bitmap.{get, test_bit}
use tensix.Mem.{Pages, num_pages, page_size, page_used, info_frag}
use tensix.Mem.Count.{IsValid, count_used}
use tensix.Fragments.{
  Fragment, Stack, ProcMem, frag_size, page_of, frag_stack, clear, sort_inner, sort_outer,
  mem_frag_sort, frag_level, size_level, mem_frag_alloc, mem_frag_free,
}
use tensix.Fragments.Stacks.{IsFrag}
use tensix.Fragments.Blocks.{Level, IsStack, IsProcMem, IsBlock}
use tensix.Fragments.Alloc.{mem_frag_alloc_lem}
use tensix.Fragments.Free.{free-alloc}

abbrev frag : ℕ → ℕ → Fragment
frag p i = record { page = p; idx = i }

abbrev mixed : List Fragment
mixed = frag 7 1 ∷ frag 3 0 ∷ frag 7 0 ∷ frag 5 1 ∷ []

sorted_mixed : mem_frag_sort mixed ≡ frag 3 0 ∷ frag 5 1 ∷ frag 7 0 ∷ frag 7 1 ∷ []
unfolding mem_frag_sort sort_outer sort_inner
sorted_mixed = refl

-- Page 1 holds the stacks, and page 2 the fragments 0 and 1 of level 1.
abbrev pages : Pages
pages = record {
  page_map = 6 ∷ replicate 31 0;
  page_list = 0 ∷ 0 ∷ 73 ∷ replicate 253 0;
  free = 254;
  locked = 0;
  below = 0;
}

abbrev halves : Stack
halves = record { base = 1; entries = frag 2 0 ∷ frag 2 1 ∷ [] }

abbrev nothing : Stack
nothing = record { base = 1; entries = [] }

abbrev process : ProcMem
process = record {
  pages = pages;
  ram = λ a. 170;
  id = 9;
  stacks = λ i. if i == 0 then halves else nothing;
}

pages-IsValid : IsValid pages
unfolding count_used get test_bit
pages-IsValid = record {
  map_bytes = omega arith;
  map_length = refl;
  list_length = refl;
  counted = refl;
}

half : (i : ℕ) → i < 2 → IsFrag pages 1 (frag 2 i)
unfolding get test_bit info_frag
half i h = record { in_memory = omega arith; used = refl; level = refl; index = omega arith }

halves-IsStack : IsStack pages 1 halves
unfolding get test_bit info_frag
halves-IsStack = record {
  in_memory = omega arith;
  used = refl;
  whole = refl;
  frags = (half 0 (omega arith), (half 1 (omega arith), tt));
}

nothing-IsStack : (fs : ℕ) → IsStack pages fs nothing
unfolding get test_bit info_frag
nothing-IsStack fs = record { in_memory = omega arith; used = refl; whole = refl; frags = tt }

process-IsStack : (fs : ℕ) → Level fs → IsStack pages fs (frag_stack process fs)
process-IsStack zero lv = absurd (omega arith)
process-IsStack (suc zero) lv = halves-IsStack
process-IsStack (suc (suc zero)) lv = nothing-IsStack 2
process-IsStack (suc (suc (suc zero))) lv = nothing-IsStack 3
process-IsStack (suc (suc (suc (suc fs)))) lv = absurd (omega arith)

process-IsProcMem : IsProcMem process
process-IsProcMem = record { valid = pages-IsValid; id = omega arith; stack = process-IsStack }

mem_frag_alloc_lem_example :
    let (r, h') = mem_frag_alloc process 100 in
    IsProcMem h'
    × ((pos : ℕ)
        → r ≡ some pos
        → IsBlock h'.pages (size_level 100) pos × (100 ≤ frag_size h'.pages (page_of pos)))
    × (r ≡ none → (q : ℕ) → 0 < q → q < num_pages → page_used pages q ≡ true)
mem_frag_alloc_lem_example = mem_frag_alloc_lem process 100 process-IsProcMem (omega arith)

level_of_100 : size_level 100 ≡ 1
unfolding frag_level
level_of_100 = refl

some_left : 0 < length (frag_stack process (size_level 100)).entries
unfolding frag_level
some_left = omega arith

few_left : length (frag_stack process (size_level 100)).entries ≤ 2 ^ size_level 100
unfolding frag_level
few_left = omega arith

free-alloc_example :
    let (r, h') = mem_frag_alloc process 100 in
    (pos : ℕ) × (r ≡ some pos)
    × (mem_frag_free h' pos
        ≡ some (record process { ram = clear process.ram pos (page_size / 2 ^ size_level 100) }))
free-alloc_example = free-alloc process 100 process-IsProcMem (omega arith) some_left few_left
