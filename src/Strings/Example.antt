-- ===== src/Strings/Example.antt =====
-- The theorems on lib/string.c at a memory that holds "ab" at 10 and "ac" at 20.
use tensix.Base.{ℕ, ◌+◌, ◌<◌, ◌≡◌, ◌≢◌, ◌↔◌, refl, arith, List, [], ◌∷◌, some, ◌==◌, if◌then◌else◌}
use tensix.Strings.{Memory, char_diff, strcmp}
use tensix.Strings.Copy.{IsString}
use tensix.Strings.Compare.{strcmp_zero}

abbrev text : Memory
text q =
    if q == 10
    then 97
    else if q == 11
    then 98
    else if q == 20
    then 97
    else if q == 21
    then 99
    else 0

text_bytes : (q : ℕ) → text q < 256
text_bytes q = ground arith

abbrev ab : List ℕ
ab = 97 ∷ 98 ∷ []

abbrev ac : List ℕ
ac = 97 ∷ 99 ∷ []

ab-IsString : IsString text 10 (97 ∷ 98 ∷ [])
ab-IsString = (refl, omega arith, (refl, omega arith, refl))

ac-IsString : IsString text 20 (97 ∷ 99 ∷ [])
ac-IsString = (refl, omega arith, (refl, omega arith, refl))

strcmp_zero_example : (r : ℕ) × (strcmp 3 text 10 20 ≡ some r) × ((r ≡ 0) ↔ (ab ≡ ac))
strcmp_zero_example =
    strcmp_zero text text_bytes 3 10 20 (97 ∷ 98 ∷ []) (97 ∷ 99 ∷ []) ab-IsString ac-IsString
      (omega arith)

same_start : (i : ℕ) → i < 1 → (text (10 + i) ≡ text (20 + i)) × (text (10 + i) ≢ 0)
same_start i h = ground arith

one_result : strcmp 2 text 10 20 ≡ some 1
unfolding strcmp char_diff
one_result = refl
