-- ===== src/Bitmap.antt =====
-- include/bitmap.h and lib/bitmap.c: bitmaps as lists of bytes, and the search for a gap.
-- A read behind the bitmap's end gives 0, and a write there changes nothing; `InMap` rules it out.
-- Of bitmap_seek's variables, the `int`s `l`, `i` and the result and the `size_t` `b` are unbounded here:
-- where the bitmap has less than 2 ^ 31 bits and the start lies within it, none of them overflows, and
-- only there is this the program.
pub mod Bits
pub mod Seek
mod Example
use Prim.Native.Nat.{bit_and, bit_or, bit_xor}
use tensix.Base.{
  ℕ, zero, suc, ◌+◌, ◌-◌, ◌*◌, ◌/◌, ◌%◌, ◌^◌, ◌<◌, Bool, true, false, not, ◌&&◌, List, Option, none,
  some, ◌==◌, ltb, if◌then◌else◌, get_or, set, length,
}

-- `BITMAP_BIT`, `BITMAP_MASK` in a byte
abbrev pub bitmap_bit : ℕ → ℕ
bitmap_bit index = 2 ^ (index % 8)

abbrev pub bitmap_mask : ℕ → ℕ
bitmap_mask index = bit_xor (bitmap_bit index) 255

-- `BITMAP_BYTE`
abbrev pub bitmap_byte : List ℕ → ℕ → ℕ
bitmap_byte bitmap index = get_or bitmap (index / 8) 0

-- The bit of a byte, and the byte with that bit written.
unfoldable pub test_bit : ℕ → ℕ → Bool
test_bit byte index = not (bit_and byte (bitmap_bit index) == 0)

unfoldable pub put_bit : ℕ → ℕ → Bool → ℕ
put_bit byte index val =
    bit_or (bit_and byte (bitmap_mask index)) (if val then bitmap_bit index else 0)

-- `BITMAP_GET`, as a truth value
unfoldable pub get : List ℕ → ℕ → Bool
get bitmap index = test_bit (bitmap_byte bitmap index) index

-- `BITMAP_SET`
unfoldable pub put : List ℕ → ℕ → Bool → List ℕ
put bitmap index val = set bitmap (index / 8) (put_bit (bitmap_byte bitmap index) index val)

-- `BITMAP_GAP_LEN`: the index and the length left when the loop ends.
unfoldable pub gap_len : List ℕ → ℕ → ℕ → ℕ × ℕ
gap_len bitmap index zero = (index, 0)
gap_len bitmap index (suc len) =
    let rest = gap_len bitmap (index + 1) len in if get bitmap index then (index, suc len) else rest

-- What one round of `bitmap_seek` does at bit `b`: the bit returned, or the bit to go on from.
pub data Round : Type 0 where
  found : ℕ → Round
  next : ℕ → Round

unfoldable pub seek_round : List ℕ → ℕ → ℕ → Round
seek_round bitmap b len =
    let (i, l) = gap_len bitmap b len in
    if not (b % 8 == 0) && (bitmap_byte bitmap b == 255)
    then next (b + 8)
    else if get bitmap b
    then next (b + 1)
    else if l == 0
    then found b
    else next (i + 1)

-- `size - len`, of type `size_t`
abbrev pub seek_end : ℕ → ℕ → ℕ
seek_end size len = (size + 2 ^ 32 - len) % 2 ^ 32

-- The loop of `bitmap_seek` on fuel, `none` where that runs out. 0 stands for "nothing found".
unfoldable pub seek_loop : ℕ → List ℕ → ℕ → ℕ → ℕ → Option ℕ
seek_loop zero bitmap end b len = none
seek_loop (suc fuel) bitmap end b len =
    if ltb b end
    then (elim (seek_round bitmap b len) [
      | found r ↦ some r
      | next b' ↦ seek_loop fuel bitmap end b' len
    ])
    else some 0

unfoldable pub bitmap_seek : List ℕ → ℕ → ℕ → ℕ → Option ℕ
bitmap_seek bitmap size b len = seek_loop (suc (seek_end size len)) bitmap (seek_end size len) b len
