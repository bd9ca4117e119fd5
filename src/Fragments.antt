-- ===== src/Fragments.antt =====
-- The fragments of kern/mem/mem.c and include/mem.h, and the stack macros of include/queue.h: blocks
-- of half a page and less. A stack is the list of its records, the bottom first, so its `index` is
-- the list's length; `base` is the page that it stands in. Addresses are offsets into the simulated
-- RAM, whose contents are the function `ram` (the page tables and the stacks stand apart from it).
-- The configuration has no locks and no messages. A `size_t` has 32 bits.
pub mod Sort
pub mod Clean
pub mod Stacks
pub mod Blocks
pub mod Grow
pub mod Alloc
pub mod Free
mod Example
use Prim.Native.Nat.{bit_and}
use tensix.Base.{
  ℕ, zero, suc, ◌+◌, ◌-◌, ◌*◌, ◌/◌, ◌%◌, ◌^◌, Bool, true, false, not, ◌&&◌, ◌||◌, List, [], ◌∷◌,
  ◌++◌, Option, none, some, ◌==◌, ltb, leb, if◌then◌else◌, get_or, set, length,
}
use tensix.Mem.{
  Pages, page_size, info, info_frag, page_free, mem_page_alloc, mem_pages_alloc, mem_pages_unref,
  mem_page_free,
}

-- `struct fragment`
pub record Fragment : Type 0 where
  pub page : ℕ
  pub idx : ℕ

abbrev pub no_fragment : Fragment
no_fragment = record { page = 0; idx = 0 }

pub record Stack : Type 0 where
  pub base : ℕ
  pub entries : List Fragment

-- The pages, the RAM, and of one process the id and `fragment_stacks`.
pub record ProcMem : Type 0 where
  pub pages : Pages
  pub ram : ℕ → ℕ
  pub id : ℕ
  pub stacks : ℕ → Stack

-- `FRAGLOG`, `FRAGSIZE`, `FRAGSIZELOG` and `FRAGLOG2NUM`
abbrev pub frag_log : Pages → ℕ → ℕ
frag_log m p = info_frag (info m p)

abbrev pub frag_size : Pages → ℕ → ℕ
frag_size m p = page_size / 2 ^ frag_log m p

abbrev pub frag_size_log : Pages → ℕ → ℕ
frag_size_log m p = 8 - frag_log m p

abbrev pub frag_num : ℕ → ℕ
frag_num fs = 2 ^ fs % 256

-- `ADDR2PAGE` as a page number, and `ADDR2FRAGIDX`
abbrev pub page_of : ℕ → ℕ
page_of pos = pos / page_size % 256

abbrev pub frag_idx : Pages → ℕ → ℕ
frag_idx m pos = pos % page_size % 256 / frag_size m (page_of pos)

-- `FRAG_STACK`, for reading and for writing
abbrev pub frag_stack : ProcMem → ℕ → Stack
frag_stack h fs = h.stacks (fs - 1)

abbrev pub set_stack : ProcMem → ℕ → Stack → ProcMem
set_stack h fs s = record h { stacks = λ i. if i == fs - 1 then s else h.stacks i }

-- `STACK_PUSH` and the assignments to the new record; `none` where the stack is full.
unfoldable pub frag_push : Pages → Stack → Fragment → Option Stack
frag_push m s f =
    if ltb (frag_size m s.base) (2 * length s.entries + 4 + 2)
    then none
    else some (record s { entries = s.entries ++ (f ∷ []) })

unfoldable pub drop_last : List Fragment → List Fragment
drop_last [] = []
drop_last (f ∷ []) = []
drop_last (f ∷ g ∷ rest) = f ∷ drop_last (g ∷ rest)

-- `STACK_POP`: the record on top, where there is one.
unfoldable pub frag_pop : Stack → Fragment × Stack
frag_pop s = (
  get_or s.entries (length s.entries - 1) no_fragment,
  record s { entries = drop_last s.entries },
)

abbrev pub page_at : List Fragment → ℕ → ℕ
page_at st i = (get_or st i no_fragment).page

abbrev pub exchange : List Fragment → ℕ → ℕ → List Fragment
exchange st i j = set (set st i (get_or st j no_fragment)) j (get_or st i no_fragment)

-- The inner loop of `mem_frag_sort`, with the rounds left.
unfoldable pub sort_inner : List Fragment → ℕ → ℕ → ℕ → List Fragment
sort_inner st i j zero = st
sort_inner st i j (suc rounds) =
    sort_inner (if ltb (page_at st j) (page_at st i) then exchange st i j else st) i (j + 1) rounds

unfoldable pub sort_outer : ℕ → List Fragment → ℕ → ℕ → List Fragment
sort_outer num st i zero = st
sort_outer num st i (suc rounds) =
    sort_outer num (sort_inner st i (i + 1) (num - (i + 1))) (i + 1) rounds

unfoldable pub mem_frag_sort : List Fragment → List Fragment
mem_frag_sort st = sort_outer (length st) st 0 (length st - 1)

-- The count of the records from `i` on that are of the page, with `left` records left, and `id` of
-- them counted before. The counter is a byte.
unfoldable pub count_run : List Fragment → ℕ → ℕ → ℕ → ℕ → ℕ
count_run st pg i zero id = id
count_run st pg i (suc left) id =
    let rest = count_run st pg (i + 1) left ((id + 1) % 256) in
    if page_at st i == pg then rest else id

-- `while (id--)`
unfoldable pub copy_run : List Fragment → ℕ → ℕ → ℕ → List Fragment
copy_run st src dst zero = st
copy_run st src dst (suc id) =
    copy_run (set st dst (get_or st src no_fragment)) (src + 1) (dst + 1) id

-- The loop of `mem_frag_clean_stack`, on fuel: `none` where that runs out.
unfoldable pub clean_loop :
    ℕ → ℕ → ℕ → Pages → List Fragment → ℕ → ℕ → Option (Pages × List Fragment × ℕ)
clean_loop zero num frags m st src dst = none
clean_loop (suc fuel) num frags m st src dst =
    let pg = page_at st src in
    let id = count_run st pg (src + 1) (num - (src + 1)) 1 in
    elim (ltb src num) [
      | false ↦ some (m, st, dst)
      | true ↦ (elim (id == frags) [
        | true ↦ (elim (mem_pages_unref m pg) [
          | none ↦ none
          | some m' ↦ clean_loop fuel num frags m' st (src + id) dst
        ])
        | false ↦ (elim (src == dst) [
          | true ↦ clean_loop fuel num frags m st (src + id) (src + id)
          | false ↦ clean_loop fuel num frags m (copy_run st src dst id) (src + id) (dst + id)
        ])
      ])
    ]

-- The first `n` records of a stack.
unfoldable pub take : ℕ → List Fragment → List Fragment
take zero st = []
take (suc n) [] = []
take (suc n) (f ∷ st) = f ∷ take n st

unfoldable pub mem_frag_clean_stack : Pages → List Fragment → ℕ → Option (Pages × List Fragment)
mem_frag_clean_stack m st frags = elim (ltb (length st) frags) [
  | true ↦ some (m, st)
  | false ↦ (elim (clean_loop (suc (length st)) (length st) frags m (mem_frag_sort st) 0 0) [
    | none ↦ none
    | some (m', st', dst) ↦ some (m', take dst st')
  ])
]

-- `mem_frag_add_page`'s loop: `p`'s fragments from `i` on. Where the stack is full, what was pushed
-- is popped again, and the page freed. The first part is whether an error was returned.
unfoldable pub pop_pushed : Stack → ℕ → Stack
pop_pushed s zero = s
pop_pushed s (suc i) = pop_pushed (frag_pop s).1 i

unfoldable pub push_frags : Pages → Stack → ℕ → ℕ → ℕ → Bool × Pages × Stack
push_frags m s p i zero = (false, m, s)
push_frags m s p i (suc left) = elim (frag_push m s (record { page = p; idx = i })) [
  | none ↦ (true, page_free m p, pop_pushed s i)
  | some s' ↦ push_frags m s' p (i + 1) left
]

-- `FRAGSPACE`, of an unsigned type, with pointers of four bytes.
unfoldable pub frag_space : Stack → ℕ
frag_space s = (page_size + 2 ^ 32 - (4 * length s.entries + 4) % 2 ^ 32) % 2 ^ 32

unfoldable pub mem_frag_add_page : Pages → Stack → ℕ → ℕ → Bool × Pages × Stack
mem_frag_add_page m s fs id =
    let (p, m') = mem_page_alloc m fs id in
    if ltb (frag_space s) (2 * frag_num fs)
    then (true, m, s)
    else if p == 0
    then (true, m', s)
    else push_frags m' s p 0 (frag_num fs)

-- The loop that finds the size: `i` is the size of the fragments at `fs`.
unfoldable pub frag_level : ℕ → ℕ → ℕ → ℕ → ℕ
frag_level zero size fs i = fs
frag_level (suc fuel) size fs i =
    let rest = frag_level fuel size (fs + 1) (i / 2) in
    if ltb i 32 then fs else if ltb i size then fs else rest

abbrev pub size_level : ℕ → ℕ
size_level size = frag_level 4 size 0 (page_size / 2)

-- The end of `mem_frag_alloc`, with a stack that is not empty.
unfoldable pub take_frag : ProcMem → ℕ → Stack → Option ℕ × ProcMem
take_frag h fs s =
    let (frag, s') = frag_pop s in
    (
      some (frag.page * page_size + frag.idx * 2 ^ frag_size_log h.pages frag.page),
      set_stack h fs s',
    )

-- `bzero` of `len` bytes from `pos` on
abbrev pub clear : (ℕ → ℕ) → ℕ → ℕ → ℕ → ℕ
clear ram pos len a = if leb pos a && ltb a (pos + len) then 0 else ram a

-- The RAM behind `mem_frag_add_page`: a page that is taken for the stack `s` is zeroed.
unfoldable pub zeroed : ProcMem → Stack → ℕ → ℕ → ℕ
zeroed h s fs =
    let p = (mem_page_alloc h.pages fs h.id).0 in
    if ltb (frag_space s) (2 * frag_num fs) || (p == 0)
    then h.ram
    else clear h.ram (p * page_size) page_size

-- The address, or `none` for NULL.
unfoldable pub mem_frag_alloc : ProcMem → ℕ → Option ℕ × ProcMem
mem_frag_alloc h size =
    let fs = size_level size in
    let s = frag_stack h fs in
    let (err, m', s') = mem_frag_add_page h.pages s fs h.id in
    let h' = set_stack (record h { pages = m'; ram = zeroed h s fs }) fs s' in
    if length s.entries == 0
    then (if err then (none, h') else take_frag h' fs s')
    else take_frag h fs s

-- `mem_frag_free` on the stack that the fragment belongs to, once that is clean.
unfoldable pub push_freed : ProcMem → ℕ → ℕ → Pages → List Fragment → ProcMem
push_freed h pos fs m st =
    let s : Stack = record { base = (frag_stack h fs).base; entries = st } in
    set_stack (record h { pages = m }) fs
      (elim (frag_push m s (record { page = page_of pos; idx = frag_idx m pos })) [
        | none ↦ s
        | some s' ↦ s'
      ])

-- `IS_ILLEGAL_FRAG`
abbrev pub illegal_frag : Pages → ℕ → Bool
illegal_frag m pos = not (bit_and pos (frag_size m (page_of pos) - 1) == 0)

-- The rest of `mem_frag_free`, behind that check.
unfoldable pub free_frag : ProcMem → ℕ → ℕ → Option ProcMem
free_frag h pos fs = elim (mem_frag_clean_stack h.pages (frag_stack h fs).entries (frag_num fs)) [
  | none ↦ none
  | some (m, st) ↦ some (
      push_freed (record h { ram = clear h.ram pos (frag_size h.pages (page_of pos)) }) pos fs m st)
]

unfoldable pub mem_frag_free : ProcMem → ℕ → Option ProcMem
mem_frag_free h pos =
    if illegal_frag h.pages pos then some h else free_frag h pos (frag_log h.pages (page_of pos))

-- `ROUNDBLEN`
abbrev pub rounded : ℕ → ℕ → ℕ
rounded x base = x / base + (if x % base == 0 then 0 else 1)

-- Blocks of more than half a page; the number of pages is handed over as a byte.
unfoldable pub malloc_pages : ProcMem → ℕ → Option (Option ℕ × ProcMem)
malloc_pages h size =
    let num = rounded size page_size % 256 in
    elim (mem_pages_alloc h.pages num 0 h.id) [
      | none ↦ none
      | some (p, m) ↦ some (
          if p == 0 then (none, record h { pages = m }) else (
            some (p * page_size),
            record h { pages = m; ram = clear h.ram (p * page_size) (num * page_size) },
          ))
    ]

unfoldable pub pmalloc2 : ProcMem → ℕ → Option (Option ℕ × ProcMem)
pmalloc2 h size =
    if size == 0
    then some (none, h)
    else if leb size (page_size / 2)
    then some (mem_frag_alloc h size)
    else malloc_pages h size

unfoldable pub freep : ProcMem → ℕ → Option ProcMem
freep h pos =
    if frag_log h.pages (page_of pos) == 0
    then (elim (mem_page_free h.pages pos) [ none ↦ none | some m ↦ some (record h { pages = m }) ])
    else mem_frag_free h pos
