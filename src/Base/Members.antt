-- ===== src/Base/Members.antt =====
-- Lists of addresses: membership, the first and the last, distinct non-null addresses.
use Prim.Native.Nat.{ℕ}
use mathlib.Core.Path.{◌≡◌, refl, ap, sym, ◌∙◌}
use mathlib.Core.Logic.{◌≢◌, inl, inr}
use mathlib.Core.Bool.{Bool, true, false, ◌||◌, or_assoc}
use mathlib.Core.List.{List, [], ◌∷◌, ◌++◌}
use native.Mathlib.Omega.{arith}
use tensix.Base.Tests.{◌==◌, if◌then◌else◌, Bool-cases, ==_refl}

-- Whether an address is one of a list's.
abbrev pub has : ℕ → List ℕ → Bool
has q [] = false
has q (p ∷ ps) = (q == p) || has q ps

infix 40 ◌∉◌ ◌∈◌
abbrev pub ◌∈◌ : ℕ → List ℕ → Type 0
q ∈ ps = has q ps ≡ true

abbrev pub ◌∉◌ : ℕ → List ℕ → Type 0
q ∉ ps = has q ps ≡ false

abbrev pub head_or : List ℕ → ℕ → ℕ
head_or [] d = d
head_or (x ∷ xs) d = x

abbrev pub last_or : List ℕ → ℕ → ℕ
last_or [] d = d
last_or (x ∷ xs) d = last_or xs x

-- Distinct addresses, none of them null.
abbrev pub Distinct : List ℕ → Type 0
Distinct [] = Unit
Distinct (x ∷ xs) = (x ≢ 0) × (x ∉ xs) × Distinct xs

abbrev pub Apart : List ℕ → List ℕ → Type 0
Apart ps rs = (q : ℕ) → q ∈ ps → q ∉ rs

pub has-append : (q : ℕ) (ps rs : List ℕ) → has q (ps ++ rs) ≡ (has q ps || has q rs)
has-append q [] rs = refl
has-append q (p ∷ ps) rs =
    ap (λ b. (q == p) || b) (has-append q ps rs) ∙ sym (or_assoc (q == p) (has q ps) (has q rs))

pub has-last_or : (x : ℕ) (xs : List ℕ) → last_or xs x ∈ (x ∷ xs)
has-last_or x [] = ground arith
has-last_or x (y ∷ ys) = ground (arith, has-last_or y ys)

-- A member is no non-member.
pub mem-ne : (a b : ℕ) (xs : List ℕ) → a ∈ xs → b ∉ xs → (b == a) ≡ false
mem-ne a b [] i o = cc
mem-ne a b (x ∷ xs) i o = ground (arith, mem-ne a b xs)

pub mem-ne' : (a b : ℕ) (xs : List ℕ) → a ∈ xs → b ∉ xs → (a == b) ≡ false
mem-ne' a b xs i o = ground (arith, mem-ne a b xs)

pub last_or-append : (d : ℕ) (xs ys : List ℕ) → last_or (xs ++ ys) d ≡ last_or ys (last_or xs d)
last_or-append d [] ys = refl
last_or-append d (x ∷ xs) ys = last_or-append x xs ys

pub head_or-append : (d : ℕ) (xs ys : List ℕ) → head_or (xs ++ ys) d ≡ head_or xs (head_or ys d)
head_or-append d [] ys = refl
head_or-append d (x ∷ xs) ys = refl

pub Distinct-append :
    (xs ys : List ℕ) → Distinct xs → Distinct ys → Apart xs ys → Distinct (xs ++ ys)
Distinct-append [] ys p q apart = q
Distinct-append (x ∷ xs) ys p q apart = (
  p.0,
  ground (arith, has-append x xs ys, apart x),
  Distinct-append xs ys p.2 q λ a i. apart a (ground arith),
)

pub Distinct-split :
    (xs ys : List ℕ) → Distinct (xs ++ ys) → Distinct xs × Distinct ys × Apart xs ys
Distinct-split [] ys p = (tt, p, λ a i. cc)
Distinct-split (x ∷ xs) ys p =
    let rest = Distinct-split xs ys p.2 in
    (
      (p.0, ground (arith, has-append x xs ys), rest.0),
      rest.1,
      λ a i. ground (arith, has-append x xs ys, rest.2 a),
    )

pub mem-ne_null : (a : ℕ) (xs : List ℕ) → a ∈ xs → Distinct xs → (a == 0) ≡ false
mem-ne_null a [] i d = cc
mem-ne_null a (x ∷ xs) i d = ground (arith, mem-ne_null a xs)

pub last_or-mem-append : (x : ℕ) (xs ys : List ℕ) → last_or xs x ∈ ((x ∷ xs) ++ ys)
last_or-mem-append x xs ys = rw (has-append (last_or xs x) (x ∷ xs) ys, has-last_or x xs)

pub mem_self : (x : ℕ) (xs : List ℕ) → x ∈ (x ∷ xs)
mem_self x xs = ground arith

pub Apart-symm : (xs ys : List ℕ) → Apart xs ys → Apart ys xs
Apart-symm xs ys apart a i = elim (Bool-cases (has a xs)) [ inl e ↦ cc (apart a e) | inr e ↦ e ]

-- Where a queue's first address is `r`, what stands before `r` is nothing.
pub head_or-split :
    (r d : ℕ) (xs ys : List ℕ)
    → r ∉ xs
    → (if head_or (xs ++ (r ∷ ys)) d == r then head_or ys d else head_or (xs ++ (r ∷ ys)) d)
      ≡ head_or (xs ++ ys) d
head_or-split r d [] ys out = rw ==_refl
head_or-split r d (x ∷ xs) ys out = ground arith

pub last_or-split :
    (r d : ℕ) (xs ys : List ℕ)
    → r ∉ ys
    → (if last_or (xs ++ (r ∷ ys)) d == r then last_or xs d else last_or (xs ++ (r ∷ ys)) d)
      ≡ last_or (xs ++ ys) d
last_or-split r d xs [] out = rw (last_or-append d xs (r ∷ []), last_or-append d xs [], ==_refl)
last_or-split r d xs (y ∷ ys) out = rw (
  last_or-append d xs (r ∷ y ∷ ys),
  last_or-append d xs (y ∷ ys),
  mem-ne' (last_or ys y) r (y ∷ ys) (has-last_or y ys) out,
)

pub Apart-ne : (a b : ℕ) (xs ys : List ℕ) → Apart xs ys → a ∈ xs → b ∈ ys → (a == b) ≡ false
Apart-ne a b xs ys apart i j = mem-ne' a b xs i (Apart-symm xs ys apart b j)

pub eq_symm : (a b : ℕ) → (a == b) ≡ false → (b == a) ≡ false
eq_symm a b e = ground arith

pub mem-append_left : (a : ℕ) (xs ys : List ℕ) → a ∈ xs → a ∈ (xs ++ ys)
mem-append_left a xs ys i = rw (has-append a xs ys, i)

pub mem-append_right : (a : ℕ) (xs ys : List ℕ) → a ∈ ys → a ∈ (xs ++ ys)
mem-append_right a xs ys i = ground (arith, has-append a xs ys)
