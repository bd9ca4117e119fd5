-- ===== src/Pool.antt =====
-- kern/mem/pool.c and include/pool.h: fixed numbers of records in two queues, over the heap of
-- Queue.antt. What `kmalloc` returns is an argument. The nodes of a heap do not
-- overlap and an address is not wrapped around, which is the program where records have room for a
-- node and the block ends below 2 ^ 32. Log messages and checks that only the
-- diagnostics configuration has are left out.
pub mod Records
pub mod Create
mod Example
use tensix.Base.{ℕ, zero, suc, ◌+◌, ◌*◌, ◌%◌, ◌^◌, Option, none, some, ◌==◌, leb, if◌then◌else◌}
use tensix.Queue.{Heap, Header, header, null, wipe, set_prev, set_next, push, pop, remove}

-- `struct pool`
pub record Pool : Type 0 where
  pub used : Header
  pub unused : Header
  pub area : ℕ

-- The first part is the record handed out, null where the pool is empty.
unfoldable pub pool_alloc : Heap → Pool → ℕ × Heap × Pool
pool_alloc h pool =
    let (rec, h1, unused) = pop h pool.unused in
    let (h2, used) = push h1 pool.used rec in
    if rec == null
    then (rec, h1, record pool { unused = unused })
    else (rec, h2, record pool { unused = unused; used = used })

-- Without a place in the list of used records.
unfoldable pub pool_salloc : Heap → Pool → ℕ × Heap × Pool
pool_salloc h pool =
    let (rec, h1, unused) = pop h pool.unused in (rec, h1, record pool { unused = unused })

unfoldable pub pool_free : Heap → Pool → ℕ → Heap × Pool
pool_free h pool rec =
    let (h1, used) = remove h pool.used rec in
    let (h2, unused) = push h1 pool.unused rec in (h2, record pool { used = used; unused = unused })

-- `POOL_SFREE`
unfoldable pub pool_sfree : Heap → Pool → ℕ → Heap × Pool
pool_sfree h pool rec =
    let (h1, unused) = push h pool.unused rec in (h1, record pool { unused = unused })

-- The loop of `pool_create` on fuel: the heap, and the last record.
unfoldable pub link_records : ℕ → Heap → ℕ → ℕ → ℕ → ℕ → Option (Heap × ℕ)
link_records zero h prev i typesize end = none
link_records (suc fuel) h prev i typesize end =
    let h1 = set_next (set_prev h i prev) i (i + typesize) in
    let rest = link_records fuel h1 i (i + typesize) typesize end in
    if leb end (i + typesize) then some (set_next h1 i null, i) else rest

-- `area` is what `kmalloc` returns. The result is the new pool's address, or null.
unfoldable pub pool_create : ℕ → Heap → Pool → ℕ → ℕ → Option (ℕ × Heap × Pool)
pool_create area h pool size typesize =
    let bytes = size * typesize % 2 ^ 32 in
    let linked = link_records (suc bytes) h null area typesize (area + bytes) in
    if area == null then some (null, h, record pool { area = null }) else (elim linked [
      | none ↦ none
      | some (h', last) ↦
          some (area, h', record { used = wipe; unused = header area last; area = area })
    ])
