-- ===== src/Copying.antt =====
-- iod_copy_buf of kern/io/iod.c: a channel's copying from the blocks of one object into those of
-- another. Here a buffer is its bytes. What `bref` answers is an argument: for the source its code
-- and the block, for the destination an `BrefAnswer` for each block. `bunref` hands a block on, also one
-- that is freed already. The lists of the daemon are in Channels.antt.
pub mod Bytewise
pub mod Cuts
pub mod Errors
mod Example
use tensix.Base.{
  ℕ, zero, suc, ◌+◌, ◌-◌, ◌%◌, ◌^◌, Bool, true, false, not, ◌&&◌, List, [], ◌∷◌, ◌++◌, Option, none,
  some, ◌==◌, ltb, length, if◌then◌else◌,
}
use tensix.Namespace.{e_none}
use tensix.Buffers.{e_noiodata}

abbrev pub Bytes : Type 0
Bytes = List ℕ

-- The first `n` bytes, and the rest.
unfoldable pub take : ℕ → Bytes → Bytes
take zero bs = []
take (suc n) [] = []
take (suc n) (b ∷ bs) = b ∷ take n bs

unfoldable pub drop : ℕ → Bytes → Bytes
drop zero bs = bs
drop (suc n) [] = []
drop (suc n) (b ∷ bs) = drop n bs

-- The destination's end of `struct iod_chn`: the blocks handed on, the first one first, whether
-- `dstbuf` is set, the bytes in it (its `len` is their number), `dstrest` and `blk_to`.
pub record Sink : Type 0 where
  pub blocks : List Bytes
  pub held : Bool
  pub dst : Bytes
  pub dstrest : ℕ
  pub blk_to : ℕ

-- What `bref` answers for a block of the destination: its code, the length of the buffer, and what is
-- in the freed buffer that `*buf` points to where it fails for want of a slot; `none` is NULL.
pub record BrefAnswer : Type 0 where
  pub code : ℕ
  pub len : ℕ
  pub freed : Option Bytes

abbrev pub Alloc : Type 0
Alloc = ℕ → BrefAnswer

-- `iod_free_dstbuf`, which leaves `dstrest` as it is.
unfoldable pub free_dstbuf : Sink → Sink
free_dstbuf s =
    if s.held then record s { blocks = s.blocks ++ (s.dst ∷ []); held = false; dst = [] } else s

-- `dstbuf` where `bref` fails.
unfoldable pub refused : Sink → Option Bytes → Sink
refused s none = s
refused s (some bytes) = record s { held = true; dst = bytes }

unfoldable pub next_dstbuf : Alloc → Sink → ℕ × Sink
next_dstbuf alloc s =
    let s1 = free_dstbuf s in
    let a = alloc s1.blk_to in
    if a.code == 0
    then (
      0,
      record s1 { held = true; dst = []; dstrest = a.len; blk_to = (s1.blk_to + 1) % 2 ^ 16 },
    )
    else (a.code, refused s1 a.freed)

unfoldable pub prepare : Alloc → Sink → ℕ × Sink
prepare alloc s = if s.dstrest == 0 then next_dstbuf alloc s else (0, s)

-- `memcpy` and what follows, of `len` bytes.
unfoldable pub append : Sink → ℕ → Bytes → Sink
append s len bytes = record s { dst = s.dst ++ take len bytes; dstrest = s.dstrest - len }

unfoldable pub copy_len : Sink → Bytes → ℕ
copy_len s bytes = if ltb s.dstrest (length bytes) then s.dstrest else length bytes

-- The loop on fuel, `none` where that runs out: the code with which it ends, and the sink.
unfoldable pub copy_loop : ℕ → Alloc → Sink → Bytes → Option (ℕ × Sink)
copy_loop zero alloc s bytes = none
copy_loop (suc fuel) alloc s bytes =
    let (err, s1) = prepare alloc s in
    let len = copy_len s1 bytes in
    let again = copy_loop fuel alloc (append s1 len bytes) (drop len bytes) in
    if length bytes == 0 then some (0, s) else if err == 0 then again else some (err, s1)

-- At the label `error`.
unfoldable pub finish : Sink → Sink
finish s = if s.dstrest == 0 then free_dstbuf s else s

-- `iod_copy_buf` with the source's buffer at hand.
unfoldable pub copy_block : Alloc → Sink → Bytes → Option (ℕ × Sink)
copy_block alloc s bytes = elim (copy_loop (suc (length bytes)) alloc s bytes) [
  | none ↦ none
  | some (err, s') ↦ some (err, finish s')
]

-- `code` and `block` are the source's; `stream` is whether that is a stream, and `polled` whether the
-- channel is polled.
unfoldable pub iod_copy_buf : Alloc → Sink → Bool → Bool → ℕ → Option Bytes → Option (ℕ × Sink)
iod_copy_buf alloc s polled stream code block =
    if not (code == 0) then some (code, s) else (elim block [
      | none ↦
          if polled && (code == e_noiodata)
          then some (code, s)
          else some (e_noiodata, if stream then s else free_dstbuf s)
      | some bytes ↦ copy_block alloc s bytes
    ])
