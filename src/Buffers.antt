-- ===== src/Buffers.antt =====
-- kern/io/buf.c, bwrite, bsend, bref and bunref of kern/io/fs.c, the writing side of obj_io of
-- kern/io/obj_ops.c and sync_bufs of kern/io/syncer.c: the cache of I/O buffers, with
-- BUF_SORT_REUSED and without BUF_SHARE_DATA. Buffers and objects are addresses, and a queue of
-- them is the list that Queue.antt shows it to hold, front first. The contents, the locks and the
-- process's own list of buffers are left out, but for whether the list has `room`. What the allocator and the object's driver answer
-- are arguments: `memory` (whether kmalloc gives a block) and `io` (the driver's error code).
pub mod Cleanup
pub mod Lookup
pub mod Sync
pub mod Unread
mod Example
use Prim.Native.Nat.{bit_and}
use tensix.Base.{
  ℕ, zero, suc, ◌+◌, ◌-◌, ◌*◌, ◌%◌, ◌^◌, Bool, true, false, not, ◌&&◌, ◌||◌, List, [], ◌∷◌, ◌++◌,
  Option, none, some, ◌==◌, leb, if◌then◌else◌,
}
use mathlib.Core.Option
use tensix.Namespace.{e_none, e_nomem, e_inval, e_notsup}

-- `struct buf`; `dirty` and `fresh` are the flags of its `state`.
pub record Buf : Type 0 where
  pub obj : ℕ
  pub blk : ℕ
  pub len : ℕ
  pub refcnt : ℕ
  pub dirty : Bool
  pub fresh : Bool

-- What the buffer cache uses of an object, its class and its dirent, where it has one.
pub record Obj : Type 0 where
  pub stream : Bool
  pub cached : Bool
  pub has_io : Bool
  pub has_dirent : Bool
  pub size : ℕ
  pub bytes : ℕ
  pub blksize : ℕ
  pub buffers : List ℕ
  pub dirtybufs : ℕ

-- The buffers, the objects, `buffer_pool.unused` with its last record first, `obj_pool.used`, and
-- `buffers_in_use`.
pub record Cache : Type 0 where
  pub buf : ℕ → Buf
  pub obj : ℕ → Obj
  pub unused : List ℕ
  pub objects : List ℕ
  pub in_use : ℕ

abbrev pub set_buf : Cache → ℕ → Buf → Cache
set_buf c b v = record c { buf = λ q. if q == b then v else c.buf q }

abbrev pub set_obj : Cache → ℕ → Obj → Cache
set_obj c o v = record c { obj = λ q. if q == o then v else c.obj q }

-- `DEQUEUE_REMOVE` on lists
unfoldable pub unlink : ℕ → List ℕ → List ℕ
unlink b [] = []
unlink b (x ∷ xs) = let rest = unlink b xs in if b == x then xs else x ∷ rest

-- `BUF_STREAMSIZE` and `OBJ_BUFSIZE`
abbrev pub obj_bufsize : ℕ → Obj → ℕ
obj_bufsize streamsize o = if o.blksize == 0 then streamsize else o.blksize

-- Of a buffer that belongs to an object, so the count of buffers in use is not 0.
unfoldable pub bfree : Cache → ℕ → Cache
bfree c b =
    let o = (c.buf b).obj in
    let object = c.obj o in
    record (set_obj c o (record object { buffers = unlink b object.buffers })) {
      unused = b ∷ c.unused;
      in_use = c.in_use - 1;
    }

-- The test of `bcleanup`, and the first buffer of a list that passes it.
unfoldable pub idle : Buf → Bool
idle v = (v.refcnt == 0) && not v.dirty

unfoldable pub first_idle : Cache → List ℕ → Option ℕ
first_idle c [] = none
first_idle c (b ∷ bs) = let rest = first_idle c bs in if idle (c.buf b) then some b else rest

-- The restarting loop of `bcleanup` on fuel, `none` where that runs out.
unfoldable pub cleanup_loop : ℕ → Cache → ℕ → Option Cache
cleanup_loop zero c o = none
cleanup_loop (suc fuel) c o = elim (first_idle c (c.obj o).buffers) [
  | none ↦ some c
  | some b ↦ cleanup_loop fuel (bfree c b) o
]

unfoldable pub count : List ℕ → ℕ
count [] = 0
count (x ∷ xs) = suc (count xs)

unfoldable pub bcleanup : Cache → ℕ → Option Cache
bcleanup c o = cleanup_loop (suc (count (c.obj o).buffers)) c o

unfoldable pub cleanup_all : Cache → List ℕ → Option Cache
cleanup_all c [] = some c
cleanup_all c (o ∷ os) = elim (bcleanup c o) [ none ↦ none | some c' ↦ cleanup_all c' os ]

unfoldable pub bcleanup_glob : Cache → Option Cache
bcleanup_glob c = cleanup_all c c.objects

-- An error code, `*buf` (0 for NULL) and the cache.
pub record Result : Type 0 where
  pub err : ℕ
  pub buf : ℕ
  pub cache : Cache

abbrev pub result : ℕ → ℕ → Cache → Result
result err b c = record { err = err; buf = b; cache = c }

-- `bcreate` with the descriptor `b` popped, where `unused` is what is left of the queue.
unfoldable pub create_in : Cache → ℕ → ℕ → ℕ → Bool → ℕ → List ℕ → Result
create_in c streamsize o blk memory b unused =
    let object = c.obj o in
    let made : Buf = record {
      obj = o;
      blk = blk;
      len = obj_bufsize streamsize object;
      refcnt = 1;
      dirty = false;
      fresh = false;
    } in
    let c1 = set_buf (record c { unused = unused }) b made in
    if memory
    then result e_none b
        (record (set_obj c1 o (record object { buffers = object.buffers ++ (b ∷ []) })) {
          in_use = c.in_use + 1;
        })
    else result e_nomem 0 (record c1 { unused = b ∷ unused })

unfoldable pub bcreate : Cache → ℕ → ℕ → ℕ → Bool → Option Result
bcreate c streamsize o blk memory = elim c.unused [
  | b ∷ unused ↦ some (create_in c streamsize o blk memory b unused)
  | [] ↦ elim (bcleanup_glob c) [
    | none ↦ none
    | some c' ↦ elim c'.unused [
      | b ∷ unused ↦ some (create_in c' streamsize o blk memory b unused)
      | [] ↦ some (result e_nomem 0 c')
    ]
  ]
]

-- The test of `blookup` on a buffer of the object, and the first buffer that passes it.
unfoldable pub matches : Cache → ℕ → ℕ → ℕ → Bool
matches c o blk b =
    if (c.obj o).stream then not (c.buf b).dirty && (c.buf b).fresh else (c.buf b).blk == blk

unfoldable pub find : Cache → ℕ → ℕ → List ℕ → Option ℕ
find c o blk [] = none
find c o blk (b ∷ bs) = let rest = find c o blk bs in if matches c o blk b then some b else rest

-- What `blookup` does with the buffer that it found.
unfoldable pub reuse : Cache → ℕ → ℕ → Cache
reuse c o b =
    let v = c.buf b in
    let object = c.obj o in
    let c1 = set_buf c b (record v { refcnt = (v.refcnt + 1) % 256; fresh = false }) in
    if object.stream
    then c1
    else set_obj c1 o (record object { buffers = b ∷ unlink b object.buffers })

-- `*buf`, 0 where it stays as it was, and the cache.
unfoldable pub blookup : Cache → ℕ → ℕ → ℕ × Cache
blookup c o blk = elim (find c o blk (c.obj o).buffers) [
  | none ↦ (0, c)
  | some b ↦ (b, reuse c o b)
]

-- The I/O of `bread` into a new buffer: the driver's error code, 0 where there is none to do.
unfoldable pub read_code : Obj → ℕ → Bool → ℕ → ℕ
read_code object blk zeroed io =
    let answer = if object.has_io then io else e_notsup in
    if (not zeroed && not (leb object.size blk)) || object.stream then answer else e_none

-- The buffer as `bread` hands it out: fresh in a stream, and cut where the file ends within it.
unfoldable pub filled : Obj → Buf → ℕ → Buf
filled object v blk =
    let tail = object.bytes % object.blksize in
    let at_end = not object.stream && ((blk + 1) == object.size) && object.has_dirent in
    record v {
      fresh = object.stream || v.fresh;
      len = if at_end && not (tail == 0) then tail else v.len;
    }

-- The end of `bread`, on the buffer `b` that `bcreate` made in the cache `c`.
unfoldable pub fill : Cache → ℕ → ℕ → ℕ → Bool → ℕ → Result
fill c o b blk zeroed io =
    let code = read_code (c.obj o) blk zeroed io in
    if code == 0
    then result e_none b (set_buf c b (filled (c.obj o) (c.buf b) blk))
    else result code b c

-- The part of `bread` behind its lookup.
unfoldable pub read_from : ℕ × Cache → ℕ → ℕ → ℕ → Bool → Bool → ℕ → Option Result
read_from (b, c) streamsize o blk zeroed memory io =
    let created = bcreate c streamsize o blk memory in
    if not (b == 0) then some (result e_none b c) else (elim created [
      | none ↦ none
      | some r ↦ some (if r.err == 0 then fill r.cache o r.buf blk zeroed io else r)
    ])

unfoldable pub bread : Cache → ℕ → ℕ → ℕ → Bool → Bool → ℕ → Option Result
bread c streamsize o blk zeroed memory io =
    read_from (blookup c o blk) streamsize o blk zeroed memory io

-- `_bdirty`
unfoldable pub bdirty : Cache → ℕ → Cache
bdirty c b =
    let v = c.buf b in
    let object = c.obj v.obj in
    if v.dirty
    then c
    else set_obj (set_buf c b (record v { dirty = true })) v.obj
        (record object { dirtybufs = (object.dirtybufs + 1) % 256 })

-- `obj_io` behind the driver's write: a file that is no stream grows to the block written.
unfoldable pub written : Cache → ℕ → Cache
written c b =
    let v = c.buf b in
    let object = c.obj v.obj in
    if not object.stream && leb object.size v.blk
    then set_obj c v.obj (record object {
      size = (v.blk + 1) % 2 ^ 16;
      bytes = (v.blk * object.blksize + v.len) % 2 ^ 32;
    })
    else c

-- `bwrite` of a buffer: the driver's error code or that of a missing operation, and the cache.
unfoldable pub bwrite : Cache → ℕ → ℕ → ℕ × Cache
bwrite c b io =
    let v = c.buf b in
    let object = c.obj v.obj in
    let clean =
      set_obj (set_buf c b (record v { dirty = false })) v.obj
        (record object { dirtybufs = (object.dirtybufs + 255) % 256 }) in
    let c1 = if v.dirty then clean else c in
    if object.has_io then (io, written c1 b) else (e_notsup, c1)

-- A round of `sync_bufs`, at the buffer `b`. `io` gives the driver's answer for each buffer.
unfoldable pub sync_one : Cache → ℕ → (ℕ → ℕ) → ℕ → Cache
sync_one c o io b =
    let c1 = (bwrite c b (io b)).1 in
    if not (c.buf b).dirty then c else if (c.obj o).cached then c1 else bfree c1 b

-- Over the buffers of the object that are left; a buffer's successor is read before it is freed.
unfoldable pub sync_loop : Cache → ℕ → (ℕ → ℕ) → List ℕ → Cache
sync_loop c o io [] = c
sync_loop c o io (b ∷ bs) = sync_loop (sync_one c o io b) o io bs

unfoldable pub sync_bufs : Cache → ℕ → (ℕ → ℕ) → Cache
sync_bufs c o io = sync_loop c o io (c.obj o).buffers

-- `bunrefp`, without the process's list. The syncer's restart is a wakeup of its process.
unfoldable pub bunref : Cache → ℕ → Cache
bunref c b =
    let v = c.buf b in
    let c1 = set_buf c b (record v { refcnt = (v.refcnt + 255) % 256 }) in
    if b == 0 then c else if (c.obj v.obj).stream && idle (c1.buf b) then bfree c1 b else c1

unfoldable pub bsend : Cache → ℕ → ℕ → ℕ × Cache
bsend c b io = let (err, c1) = bwrite c b io in if err == 0 then (err, bunref c1 b) else (err, c1)

abbrev pub e_noiodata : ℕ
e_noiodata = 5

-- The flags of the argument `mode` of `bref`. IO_ZERO has the bits of the other two.
abbrev pub io_create : ℕ
io_create = 1

abbrev pub io_nowait : ℕ
io_nowait = 2

abbrev pub io_zero : ℕ
io_zero = 3

-- The flags that `bref` does not know, of a byte.
abbrev pub io_unknown : ℕ
io_unknown = 252

-- `mode & flag` as a truth value
unfoldable pub has_flag : ℕ → ℕ → Bool
has_flag mode flag = not (bit_and mode flag == 0)

-- The end of `bref`: the buffer goes to the list of the current process, if that has room.
unfoldable pub registered : Bool → Result → Result
registered room r =
    if not (r.err == 0)
    then r
    else if room
    then result e_none r.buf r.cache
    else result e_nomem r.buf (bfree r.cache r.buf)

unfoldable pub bref : Cache → ℕ → ℕ → ℕ → ℕ → Bool → Bool → Bool → ℕ → Option Result
bref c streamsize o blk mode has_fresh room memory io =
    let object = c.obj o in
    let created = Option.map (registered room) (bcreate c streamsize o 0 memory) in
    let got =
      Option.map (registered room) (bread c streamsize o blk (has_flag mode io_zero) memory io) in
    if (o == 0) || has_flag mode io_unknown
    then some (result e_inval 0 c)
    else if not object.has_io
    then some (result e_notsup 0 c)
    else if object.stream && has_flag mode io_create
    then created
    else if object.stream && has_flag mode io_nowait && not has_fresh
    then some (result e_noiodata 0 c)
    else if not object.stream && not (has_flag mode io_create) && leb object.size blk
    then some (result e_noiodata 0 c)
    else got
