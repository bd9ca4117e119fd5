-- ===== src/Channels.antt =====
-- kern/io/iod.c and include/iod.h: the channels of the I/O daemon, on the queues of Queue.antt and a
-- pool of Pool.antt. A channel's pending buffer goes back to the cache of Buffers.antt, and its
-- objects are held by handles of Files.antt. The daemon's process is `iod_proc`; its wakeup is a
-- matter of Proc.antt. Interrupts are not masked here. The copying of blocks is left out: where a
-- channel is to be copied at once, what the loop over `iod_copy_buf` leaves is the argument `copied`.
pub mod Lists
pub mod Kill
pub mod Create
pub mod Polling
mod Example
use Prim.Native.Nat.{bit_and, bit_or}
use tensix.Base.{
  ℕ, zero, suc, ◌+◌, ◌%◌, Bool, true, false, not, ◌&&◌, ◌||◌, Option, none, some, ◌==◌,
  if◌then◌else◌,
}
use tensix.Namespace.{e_none, e_nomem, e_inval, e_notsup}
use tensix.Queue.{Heap, Header, null, push, remove}
use tensix.Pool.{Pool, pool_alloc, pool_free}
use tensix.Buffers.{Cache, bdirty, bunref, has_flag}
use tensix.Files.{Files, sarray_eraseq, obj_unref, set_objects, hold, closep}

-- `IODCHN_*`
abbrev pub chn_active : ℕ
chn_active = 1

abbrev pub chn_poll : ℕ
chn_poll = 4

abbrev pub chn_autoclose : ℕ
chn_autoclose = 8

abbrev pub chn_immediate : ℕ
chn_immediate = 16

abbrev pub chn_push : ℕ
chn_push = 32

-- The mask of the flags that a user may set, and its complement.
abbrev pub chn_all : ℕ
chn_all = 62

abbrev pub chn_others : ℕ
chn_others = 193

-- `struct iod_chn`, but for the queue's links
pub record Chan : Type 0 where
  pub from : ℕ
  pub to : ℕ
  pub blk_from : ℕ
  pub blk_to : ℕ
  pub dstbuf : ℕ
  pub dstrest : ℕ
  pub flags : ℕ

-- `iod_chn_active`, `iod_chn_inactive`, `iod_chn_pool` and `iod_polling`, with the channels.
pub record Iod : Type 0 where
  pub heap : Heap
  pub active : Header
  pub inactive : Header
  pub pool : Pool
  pub chan : ℕ → Chan
  pub polling : ℕ
  pub files : Files
  pub cache : Cache

abbrev pub set_chan : Iod → ℕ → Chan → Iod
set_chan s ch v = record s { chan = λ q. if q == ch then v else s.chan q }

abbrev pub chn_is : Iod → ℕ → ℕ → Bool
chn_is s ch flag = has_flag (s.chan ch).flags flag

-- `IODCHN_SET_ACTIVE` and `IODCHN_SET_INACTIVE`
unfoldable pub set_active : Iod → ℕ → Iod
set_active s ch = set_chan s ch (record (s.chan ch) { flags = bit_or (s.chan ch).flags chn_active })

unfoldable pub set_inactive : Iod → ℕ → Iod
set_inactive s ch = set_chan s ch (record (s.chan ch) { flags = bit_and (s.chan ch).flags 254 })

unfoldable pub iod_free_dstbuf : Iod → ℕ → Iod
iod_free_dstbuf s ch =
    let b = (s.chan ch).dstbuf in
    if b == null then s else record (set_chan s ch (record (s.chan ch) { dstbuf = null })) {
      cache = bunref (bdirty s.cache b) b;
    }

-- The end of `iod_chn_kill`: off the list of inactive channels and back to the pool.
unfoldable pub discard : Iod → ℕ → Iod
discard s ch =
    let (h1, inactive) = remove s.heap s.inactive ch in
    let (h2, pool) = pool_free h1 s.pool ch in
    record s {
      heap = h2;
      inactive = inactive;
      pool = pool;
      polling = if chn_is s ch chn_poll then (s.polling + 255) % 256 else s.polling;
    }

-- The process that runs is `current`.
unfoldable pub iod_chn_kill : Iod → ℕ → ℕ → Iod
iod_chn_kill s current ch =
    let s1 = iod_free_dstbuf s ch in
    let c = s1.chan ch in
    discard
      (if chn_is s1 ch chn_immediate
        then s1
        else record s1 { files = closep (closep s1.files c.from current) c.to current })
      ch

unfoldable pub iod_chn_wakeup : Iod → ℕ → Iod
iod_chn_wakeup s ch =
    let (h1, inactive) = remove s.heap s.inactive ch in
    let (h2, active) = push h1 s.active ch in
    if chn_is s ch chn_active
    then s
    else set_active (record s { heap = h2; active = active; inactive = inactive }) ch

unfoldable pub iod_chn_sleep : Iod → ℕ → Iod
iod_chn_sleep s ch =
    let (h1, active) = remove s.heap s.active ch in
    let (h2, inactive) = push h1 s.inactive ch in
    if chn_is s ch chn_active
    then set_inactive (record s { heap = h2; active = active; inactive = inactive }) ch
    else s

-- The channel's descriptor as `iod_chn_create` fills it in, and the count of polling channels.
unfoldable pub init_chan : Iod → ℕ → ℕ → ℕ → ℕ → Iod
init_chan s ch from to flags =
    let made : Chan = record {
      from = from;
      to = to;
      blk_from = 0;
      blk_to = 0;
      dstbuf = null;
      dstrest = 0;
      flags = bit_and flags chn_all;
    } in
    record (set_chan s ch made) {
      polling =
          if has_flag made.flags chn_poll || has_flag made.flags chn_push
          then (s.polling + 1) % 256
          else s.polling;
    }

-- The label `error1`
unfoldable pub give_up : Iod → ℕ → ℕ × ℕ × Iod
give_up s ch =
    let (h, pool) = pool_free s.heap s.pool ch in
    (e_nomem, null, record s { heap = h; pool = pool })

-- The channel goes on the list of active ones.
unfoldable pub activate : Iod → ℕ → Iod
activate s ch =
    let (h, active) = push s.heap s.active ch in
    set_active (record s { heap = h; active = active }) ch

-- `iod_chn_create` of a channel that is not copied at once, from the handles on.
unfoldable pub create_background : Iod → ℕ → ℕ → ℕ × ℕ × Iod
create_background s iod_proc ch =
    let from = (s.chan ch).from in
    let (err1, f1) = hold s.files iod_proc from in
    let (err2, f2) = hold f1 iod_proc (s.chan ch).to in
    let undone =
      obj_unref (set_objects f1 iod_proc (sarray_eraseq (f1.objects iod_proc) from)) from in
    if not (err1 == 0)
    then give_up s ch
    else if not (err2 == 0)
    then give_up (record s { files = undone }) ch
    else (e_none, ch, activate (record s { files = f2 }) ch)

-- `iod_chn_create` of a channel that is.
unfoldable pub create_immediate : Iod → ℕ → ℕ → (Iod → ℕ → Iod) → ℕ × ℕ × Iod
create_immediate s current ch copied =
    let s1 = copied (activate s ch) ch in
    (e_none, ch, if chn_is s1 ch chn_autoclose then iod_chn_kill s1 current ch else s1)

-- Behind the checks, with the answer of `pool_alloc`.
unfoldable pub create_with :
    Iod → ℕ → ℕ → ℕ → ℕ → ℕ → ℕ × Heap × Pool → (Iod → ℕ → Iod) → ℕ × ℕ × Iod
create_with s iod_proc current from to flags (ch, h, pool) copied =
    let s1 = init_chan (record s { heap = h; pool = pool }) ch from to flags in
    if ch == null
    then (e_nomem, null, record s { heap = h; pool = pool })
    else if chn_is s1 ch chn_immediate
    then create_immediate s1 current ch copied
    else create_background s1 iod_proc ch

-- The error code, the channel's id and the state.
unfoldable pub iod_chn_create : Iod → ℕ → ℕ → ℕ → ℕ → ℕ → (Iod → ℕ → Iod) → ℕ × ℕ × Iod
iod_chn_create s iod_proc current from to flags copied =
    if has_flag flags chn_others
    then (e_inval, null, s)
    else if has_flag flags chn_poll && has_flag flags chn_autoclose
    then (e_inval, null, s)
    else if has_flag flags chn_poll && not (s.cache.obj from).stream
    then (e_inval, null, s)
    else create_with s iod_proc current from to flags (pool_alloc s.heap s.pool) copied

-- The walk of `iod_obj_free` along the inactive channels, from `ch` on: the first one that is
-- connected to the object, 0 where there is none, `none` where the fuel runs out.
unfoldable pub connected : ℕ → Iod → ℕ → ℕ → Option ℕ
connected zero s obj ch = none
connected (suc fuel) s obj ch =
    let rest = connected fuel s obj (s.heap ch).next in
    if ch == null
    then some null
    else if ((s.chan ch).from == obj) || ((s.chan ch).to == obj)
    then some ch
    else rest

unfoldable pub iod_obj_free : ℕ → Iod → ℕ → ℕ → Option Iod
iod_obj_free zero s current obj = none
iod_obj_free (suc fuel) s current obj = elim (connected (suc fuel) s obj s.inactive.first) [
  | none ↦ none
  | some zero ↦ some s
  | some (suc c) ↦ iod_obj_free fuel (iod_chn_kill s current (suc c)) current obj
]

-- A command that is written to the daemon's file.
pub data Command : Type 0 where
  iodcmd_create : ℕ → ℕ → ℕ → Command
  iodcmd_destroy : ℕ → Command
  unknown : Command

-- The error code, what goes into the command's `id`, and the state.
unfoldable pub iod_obj_io : Iod → ℕ → ℕ → Bool → Command → (Iod → ℕ → Iod) → ℕ × ℕ × Iod
iod_obj_io s iod_proc current true command copied = (e_notsup, null, s)
iod_obj_io s iod_proc current false (iodcmd_create from to flags) copied =
    iod_chn_create s iod_proc current from to flags copied
iod_obj_io s iod_proc current false (iodcmd_destroy ch) copied =
    (e_none, null, iod_chn_kill s current ch)
iod_obj_io s iod_proc current false unknown copied = (e_notsup, null, s)
