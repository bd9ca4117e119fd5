-- ===== src/Bitmap/Bits.antt =====
-- Reads after writes of a bitmap.
use tensix.Base.{
  ℕ, ◌/◌, ◌%◌, ◌<◌, ◌≡◌, refl, arith, Bool, true, false, not, ◌&&◌, List, [], ◌∷◌, ◌==◌, ltb,
  ltb→lt, if◌then◌else◌, get_or, set, length, All, passes, passes-at, get_or-set_self,
  get_or-set_ne, length-set, ==_ne, ap, zero, suc, ℕ_discrete,
}
use tensix.Bitmap.{test_bit, put_bit, get, put}

same_bit : Bool → Bool → Bool
same_bit true b = b
same_bit false b = not b

put_table :
    passes 256 (λ b. passes 8 (λ k. passes 8 (λ j.
      same_bit (test_bit (put_bit b k true) j) (if k == j then true else test_bit b j)
      && same_bit (test_bit (put_bit b k false) j) (if k == j then false else test_bit b j))))
    ≡ true
unfolding passes test_bit put_bit same_bit
put_table = refl

small_table :
    passes 256 (λ b. passes 8 (λ k. ltb (put_bit b k true) 256 && ltb (put_bit b k false) 256))
    ≡ true
unfolding passes put_bit
small_table = refl

abbrev pub IsByte : ℕ → Type 0
IsByte b = b < 256

abbrev pub Bytes : List ℕ → Type 0
Bytes m = All IsByte m

-- Bit `index` lies in the bitmap.
abbrev pub InMap : List ℕ → ℕ → Type 0
InMap m index = index / 8 < length m

and_left : (a b : Bool) → (a && b) ≡ true → a ≡ true
and_left a b h = ground arith

pub and_right : (a b : Bool) → (a && b) ≡ true → b ≡ true
and_right a b h = ground arith

same_bit_eq : (a b : Bool) → same_bit a b ≡ true → a ≡ b
unfolding same_bit
same_bit_eq a b h = ground arith

test-put_small :
    (b k j : ℕ) (v : Bool)
    → b < 256
    → k < 8
    → j < 8
    → test_bit (put_bit b k v) j ≡ (if k == j then v else test_bit b j)
test-put_small b k j true hb hk hj =
    same_bit_eq _ _
      (and_left _ _ (passes-at 8 _ j (passes-at 8 _ k (passes-at 256 _ b put_table hb) hk) hj))
test-put_small b k j false hb hk hj =
    same_bit_eq _ _
      (and_right _ _ (passes-at 8 _ j (passes-at 8 _ k (passes-at 256 _ b put_table hb) hk) hj))

mod_mod : (i : ℕ) → i % 8 % 8 ≡ i % 8
mod_mod i = omega arith

pub test_bit-mod : (b i : ℕ) → test_bit b (i % 8) ≡ test_bit b i
unfolding test_bit
test_bit-mod b i = rw (mod_mod i)

put_bit-mod : (b i : ℕ) (v : Bool) → put_bit b (i % 8) v ≡ put_bit b i v
unfolding put_bit
put_bit-mod b i v = rw (mod_mod i)

test-put :
    (b i j : ℕ) (v : Bool)
    → b < 256
    → test_bit (put_bit b i v) j ≡ (if (i % 8) == (j % 8) then v else test_bit b j)
test-put b i j v hb =
    rw (← put_bit-mod b i v, ← test_bit-mod (put_bit b (i % 8) v) j, ← test_bit-mod b j)
      (test-put_small b (i % 8) (j % 8) v hb (omega arith) (omega arith))

pub put_bit-IsByte : (b i : ℕ) (v : Bool) → b < 256 → put_bit b i v < 256
put_bit-IsByte b i true hb = rw (← put_bit-mod b i true) (
    ltb→lt _ _
      (and_left _ _ (passes-at 8 _ (i % 8) (passes-at 256 _ b small_table hb) (omega arith))))
put_bit-IsByte b i false hb = rw (← put_bit-mod b i false) (
    ltb→lt _ _
      (and_right _ _ (passes-at 8 _ (i % 8) (passes-at 256 _ b small_table hb) (omega arith))))

pub get_or-IsByte : (m : List ℕ) (i : ℕ) → Bytes m → get_or m i 0 < 256
get_or-IsByte [] i h = omega arith
get_or-IsByte (b ∷ m) zero h = h.0
get_or-IsByte (b ∷ m) (suc i) h = get_or-IsByte m i h.1

set-Bytes : (m : List ℕ) (i v : ℕ) → v < 256 → Bytes m → Bytes (set m i v)
set-Bytes [] i v hv h = tt
set-Bytes (b ∷ m) zero v hv h = (hv, h.1)
set-Bytes (b ∷ m) (suc i) v hv h = (h.0, set-Bytes m i v hv h.1)

pub put-Bytes : (m : List ℕ) (i : ℕ) (v : Bool) → Bytes m → Bytes (put m i v)
unfolding put
put-Bytes m i v h = set-Bytes m (i / 8) _ (put_bit-IsByte _ i v (get_or-IsByte m (i / 8) h)) h

pub length-put : (m : List ℕ) (i : ℕ) (v : Bool) → length (put m i v) ≡ length m
unfolding put
length-put m i v = length-set m (i / 8) _

index_eq : (i j : ℕ) → i / 8 ≡ j / 8 → ((i % 8) == (j % 8)) ≡ (i == j)
index_eq i j e = ground arith

-- In a bitmap of bytes, `BITMAP_SET` of a bit within it writes that bit and no other.
pub get-put :
    (m : List ℕ) (i j : ℕ) (v : Bool)
    → Bytes m
    → InMap m i
    → get (put m i v) j ≡ (if i == j then v else get m j)
unfolding get put
get-put m i j v hm hi = elim (ℕ_discrete (i / 8) (j / 8)) [
  | yes e ↦
      rw (← e, get_or-set_self m (i / 8) _ 0 hi, test-put _ i j v (get_or-IsByte m (i / 8) hm))
        (rw (index_eq i j e))
  | no ne ↦ rw (get_or-set_ne m (i / 8) (j / 8) _ 0 ne, ==_ne i j (λ e. ne (ap (λ k. k / 8) e)))
]
