-- ===== src/Bitmap/Example.antt =====
-- The theorems on bitmap.h and bitmap.c at bitmaps of two and three bytes.
use tensix.Base.{
  ℕ, zero, suc, ◌+◌, ◌<◌, ◌≤◌, ◌≡◌, ◌≢◌, ◌⊎◌, refl, arith, false, List, [], ◌∷◌, some, ◌==◌, get_or,
}
use tensix.Bitmap.{test_bit, get, gap_len, seek_round, seek_loop, bitmap_seek}
use tensix.Bitmap.Seek.{Clear, bitmap_seek_finds, bitmap_seek_misses}

abbrev sparse : List ℕ
sparse = 7 ∷ 1 ∷ 0 ∷ []

bitmap_seek_finds_example :
    (r : ℕ) × (bitmap_seek sparse 24 1 6 ≡ some r)
    × (r ≢ 0 → (1 ≤ r) × (r + 6 < 24) × Clear sparse r 6)
bitmap_seek_finds_example =
    bitmap_seek_finds sparse 24 6 1 (omega arith) (omega arith) (omega arith)

sparse_byte : (k : ℕ) → (get_or sparse k 0 == 255) ≡ false
sparse_byte zero = refl
sparse_byte (suc zero) = refl
sparse_byte (suc (suc zero)) = refl
sparse_byte (suc (suc (suc k))) = refl

sparse_result : bitmap_seek sparse 24 1 6 ≡ some 9
unfolding bitmap_seek seek_loop seek_round gap_len get test_bit
sparse_result = refl

abbrev half : List ℕ
half = 255 ∷ 0 ∷ []

half_result : bitmap_seek half 16 0 7 ≡ some 0
unfolding bitmap_seek seek_loop seek_round gap_len get test_bit
half_result = refl

bitmap_seek_misses_example : let r : ℕ = 0 in (r ≡ 0) ⊎ (9 ≤ r)
bitmap_seek_misses_example = bitmap_seek_misses half 16 7 0 refl half_result
