-- ===== src/Mem.antt =====
-- kern/mem/mem.c and include/mem.h: the page allocator, in the generic configuration (65536 bytes
-- of RAM in 256 pages of 256 bytes, fragments of 32 bytes at least, single pages from the top).
-- The three globals and the table of page infos are one record. `pagenum_t`, `fragsize_t`, `proc_t`
-- and `pageinfo_t` are bytes. Locks are compiled out of this configuration.
pub mod Info
pub mod Count
pub mod Ref
pub mod Unref
pub mod Alloc
pub mod RoundTrip
pub mod Kill
mod Example
use Prim.Native.Nat.{bit_and, bit_or}
use tensix.Base.{
  ℕ, zero, suc, ◌+◌, ◌-◌, ◌*◌, ◌/◌, ◌%◌, ◌^◌, Bool, true, false, not, ◌&&◌, ◌||◌, List, Option,
  none, some, ◌==◌, if◌then◌else◌, get_or, set,
}
use tensix.Bitmap.{test_bit, get, put, bitmap_seek}

abbrev pub page_size : ℕ
page_size = 256

abbrev pub num_pages : ℕ
num_pages = 256

-- `FRAGMENT_SIZES`, `PFRAG` and `PCONT`
abbrev pub fragment_sizes : ℕ
fragment_sizes = 3

abbrev pub pcont : ℕ
pcont = 4

-- `page_map`, `page_list`, `mem_num_pages_free`, `mem_num_pages_locked`, and the byte that stands
-- before the table, which the code reads for page 0's predecessor.
pub record Pages : Type 0 where
  pub page_map : List ℕ
  pub page_list : List ℕ
  pub free : ℕ
  pub locked : ℕ
  pub below : ℕ

-- The next page number, a byte.
abbrev pub next_page : ℕ → ℕ
next_page p = (p + 1) % 256

-- The value that `PAGEINFO_SET` stores.
unfoldable pub page_info : ℕ → Bool → ℕ → ℕ
page_info fsize cont proc =
    bit_or (bit_or fsize (if cont then pcont else 0)) (pcont * 2 * proc) % 256

-- `PAGE_CONT`, `FRAGLOG`, `PAGE_PROC` and `PAGE_LOCKED` of an info byte.
unfoldable pub info_cont : ℕ → Bool
info_cont info = not (bit_and info pcont == 0)

unfoldable pub info_frag : ℕ → ℕ
info_frag info = bit_and info fragment_sizes

unfoldable pub info_proc : ℕ → ℕ
info_proc info = info / pcont / 2

unfoldable pub info_locked : ℕ → Bool
info_locked info = info_cont info && not (info_frag info == 0)

abbrev pub info : Pages → ℕ → ℕ
info m p = get_or m.page_list p 0

-- `PAGEINFO(page - 1)`
abbrev pub info_before : Pages → ℕ → ℕ
info_before m zero = m.below
info_before m (suc p) = info m p

-- `PAGE_USED`
abbrev pub page_used : Pages → ℕ → Bool
page_used m p = get m.page_map p

unfoldable pub page_alloc : Pages → ℕ → ℕ → Bool → ℕ → Pages
page_alloc m p fsize cont proc = record m {
  page_map = put m.page_map p true;
  page_list = set m.page_list p (page_info fsize cont proc);
  free = (m.free + 2 ^ 32 - 1) % 2 ^ 32;
}

-- `PAGE_FREE`
unfoldable pub page_free : Pages → ℕ → Pages
page_free m p = record m {
  page_map = put m.page_map p false;
  page_list = set m.page_list p (page_info 0 false 0);
  free = (m.free + 1) % 2 ^ 32;
}

-- `PAGE_LOCK`
unfoldable pub page_lock : Pages → ℕ → Pages
page_lock m p =
    if info_locked (info m p)
    then m
    else let m1 = page_alloc (record m { page_map = put m.page_map p true }) p 1 true 0 in
      record m1 { locked = (m.locked + 1) % 2 ^ 32 }

-- `mem_pages_ref`: `num` pages from `p` on.
unfoldable pub mem_pages_ref : Pages → ℕ → ℕ → ℕ → ℕ → Pages
mem_pages_ref m p zero fsize proc = m
mem_pages_ref m p (suc num) fsize proc =
    mem_pages_ref (page_alloc m p fsize (not (num == 0)) proc) (next_page p) num fsize proc

-- The loop of `mem_pages_unref` on fuel, `none` where that runs out.
unfoldable pub unref_loop : ℕ → Pages → ℕ → Option Pages
unref_loop zero m p = none
unref_loop (suc fuel) m p =
    let rest = unref_loop fuel (page_free m p) (next_page p) in
    if info_cont (info m p) then rest else some (page_free m p)

unfoldable pub mem_pages_unref : Pages → ℕ → Option Pages
mem_pages_unref m p =
    let before = info_before m p in
    let freed = unref_loop 257 m p in
    if not (info_locked before) && info_cont before then some m else freed

unfoldable pub mem_pages_lock : Pages → ℕ → ℕ → Pages
mem_pages_lock m p zero = m
mem_pages_lock m p (suc num) =
    mem_pages_lock (if info_locked (info m p) then m else page_lock m p) (next_page p) num

-- The inner loop of `mem_page_alloc`: the highest bit of `byte`, from `bit` down, that is not set.
unfoldable pub highest_unset : ℕ → ℕ → ℕ
highest_unset zero byte = 0
highest_unset (suc bit) byte =
    let rest = highest_unset bit byte in if test_bit byte (suc bit) then rest else suc bit

-- The outer loop, over the bytes `i - 1` down to 0; 0 where all are full.
unfoldable pub top_free_page : List ℕ → ℕ → ℕ
top_free_page page_map zero = 0
top_free_page page_map (suc i) =
    let rest = top_free_page page_map i in
    if get_or page_map i 0 == 255 then rest else highest_unset 7 (get_or page_map i 0) + i * 8

-- The page is 0 where there is none.
unfoldable pub mem_page_alloc : Pages → ℕ → ℕ → ℕ × Pages
mem_page_alloc m fsize proc =
    let page = top_free_page m.page_map 32 in
    (page, if page == 0 then m else mem_pages_ref m page 1 fsize proc)

unfoldable pub mem_pages_alloc : Pages → ℕ → ℕ → ℕ → Option (ℕ × Pages)
mem_pages_alloc m num fsize proc =
    if num == 1
    then some (mem_page_alloc m fsize proc)
    else (elim (bitmap_seek m.page_map num_pages 0 num) [
      | none ↦ none
      | some ret ↦ some (ret, if ret == 0 then m else mem_pages_ref m ret num fsize proc)
    ])

-- `mem_page_free`, of the page that the address lies in.
unfoldable pub mem_page_free : Pages → ℕ → Option Pages
mem_page_free m pos =
    let p = pos / page_size % 256 in if page_used m p then mem_pages_unref m p else some m

-- The loop of `mem_kill_proc` over the pages from `p` on.
unfoldable pub kill_loop : Pages → ℕ → ℕ → ℕ → Pages
kill_loop m p zero id = m
kill_loop m p (suc num) id =
    kill_loop
      (if info_locked (info m p) || not (page_used m p) || not (info_proc (info m p) == id)
        then m
        else page_free m p)
      (p + 1) num id

unfoldable pub mem_kill_proc : Pages → ℕ → Pages
mem_kill_proc m id = kill_loop m 0 num_pages id
