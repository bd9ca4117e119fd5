-- ===== src/Queue.antt =====
-- lib/queue.c and include/queue.h: doubly-linked queues and cyclic lists of nodes in memory.
-- An address is a number, 0 is NULL, and the heap gives the two links at each address. A header
-- stands outside the heap, so a function that updates one returns the new heap and header.
pub mod Links
pub mod Relink
pub mod Place
pub mod Deque
pub mod Insert
pub mod Pop
pub mod Clist
mod Example
use tensix.Base.{ℕ, ◌==◌, if◌then◌else◌, ◌&&◌}

-- `struct dequeue_node`
pub record Node : Type 0 where
  pub prev : ℕ
  pub next : ℕ

abbrev pub Heap : Type 0
Heap = ℕ → Node

-- `struct dequeue_hdr`
pub record Header : Type 0 where
  pub first : ℕ
  pub last : ℕ

abbrev pub header : ℕ → ℕ → Header
header f l = record { first = f; last = l }

abbrev pub null : ℕ
null = 0

-- The assignments `p->prev = v` and `p->next = v`.
unfoldable pub set_prev : Heap → ℕ → ℕ → Heap
set_prev h p v q = if q == p then record { prev = v; next = (h p).next } else h q

unfoldable pub set_next : Heap → ℕ → ℕ → Heap
set_next h p v q = if q == p then record { prev = (h p).prev; next = v } else h q

-- `DEQUEUE_WIPE`
abbrev pub wipe : Header
wipe = header null null

unfoldable pub remove : Heap → Header → ℕ → Heap × Header
remove h list r =
    let p = (h r).prev in
    let n = (h r).next in
    let h1 = if p == null then h else set_next h p n in
    let h2 = if n == null then h1 else set_prev h1 n p in
    (
      h2,
      header (if list.first == r then n else list.first) (if list.last == r then p else list.last),
    )

unfoldable pub insert_after : Heap → Header → ℕ → ℕ → Heap × Header
insert_after h list prev r =
    let h1 = set_prev h r prev in
    let next = if prev == null then list.first else (h1 prev).next in
    let first = if prev == null then r else list.first in
    let h2 = if prev == null then h1 else set_next h1 prev r in
    let h3 = set_next h2 r next in
    let last = if next == null then r else list.last in
    let h4 = if next == null then h3 else set_prev h3 next r in
    (h4, header (if first == null then r else first) last)

unfoldable pub push : Heap → Header → ℕ → Heap × Header
push h list r =
    let h1 = set_next (set_prev h r list.last) r null in
    let p = (h1 r).prev in
    (if p == null then h1 else set_next h1 p r, header (if p == null then r else list.first) r)

unfoldable pub push_front : Heap → Header → ℕ → Heap × Header
push_front h list r =
    let h1 = set_prev (set_next h r list.first) r null in
    (
      if list.first == null then h1 else set_prev h1 list.first r,
      header r (if list.first == null then r else list.last),
    )

-- The first part is what goes through `*record`.
unfoldable pub pop : Heap → Header → ℕ × Heap × Header
pop h list =
    let rec = list.last in
    let p = (h rec).prev in
    if rec == null then (rec, h, list) else (
      rec,
      if p == null then h else set_next h p null,
      header (if p == null then null else list.first) p,
    )

unfoldable pub pop_front : Heap → Header → ℕ × Heap × Header
pop_front h list =
    let rec = list.first in
    let n = (h rec).next in
    if rec == null then (rec, h, list) else (
      rec,
      if n == null then h else set_prev h n null,
      header n (if n == null then null else list.last),
    )

unfoldable pub clist_remove : Heap → Header → ℕ → Heap × Header
clist_remove h list r =
    let p = (h r).prev in
    let n = (h r).next in
    let h1 = set_next h p (h r).next in
    let h2 = set_prev h1 n (h1 r).prev in
    if p == r then (h, wipe) else (
      set_prev (set_next h2 r null) r null,
      header (if list.first == r then n else list.first) list.last,
    )

unfoldable pub clist_insert : Heap → Header → ℕ → Heap × Header
clist_insert h list r =
    let next = list.first in
    let prev = (h next).prev in
    let h1 = set_prev (set_next h r next) r prev in
    if (list.first == null) && (list.last == null)
    then (set_next (set_prev h r r) r r, header r r)
    else (set_next (set_prev h1 next r) prev r, header r list.last)
