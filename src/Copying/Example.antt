-- ===== src/Copying/Example.antt =====
-- The theorems on copying to a destination with blocks of four bytes, whose block 1 is refused in the
-- second one, with a freed buffer left.
use tensix.Base.{ℕ, ◌≡◌, refl, arith, false, List, [], ◌∷◌, ◌++◌, none, some, ◌==◌, if◌then◌else◌}
use tensix.Copying.{Sink, Alloc, copy_block}
use tensix.Copying.Bytewise.{HasRoom}
use tensix.Copying.Cuts.{copy_block-append}

abbrev fours : Alloc
fours blk = record { code = 0; len = 4; freed = none }

abbrev refusing : Alloc
refusing blk = record {
  code = if blk == 1 then 1 else 0;
  len = 4;
  freed = if blk == 1 then some (88 ∷ []) else none;
}

abbrev empty : Sink
empty = record { blocks = []; held = false; dst = []; dstrest = 0; blk_to = 0 }

abbrev six : List ℕ
six = 1 ∷ 2 ∷ 3 ∷ 4 ∷ 5 ∷ 6 ∷ []

fours-HasRoom : HasRoom fours
fours-HasRoom = record { succeeds = λ blk. refl; room = λ blk. omega arith }

copy_block-append_example :
    (s' : Sink) × (copy_block fours empty six ≡ some (0, s'))
    × (copy_block fours s' (7 ∷ 8 ∷ 9 ∷ []) ≡ copy_block fours empty (six ++ (7 ∷ 8 ∷ 9 ∷ [])))
copy_block-append_example = copy_block-append fours empty six (7 ∷ 8 ∷ 9 ∷ []) fours-HasRoom
