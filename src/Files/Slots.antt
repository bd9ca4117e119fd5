-- ===== src/Files/Slots.antt =====
-- The slots of a process: how often they hold an object.
use tensix.Base.{
  ℕ, ◌+◌, ◌%◌, ◌^◌, ◌<◌, ◌≡◌, ◌≢◌, ◌⊎◌, inl, inr, refl, arith, Bool, List, [], ◌∷◌, Option, none,
  some, ◌==◌, if◌then◌else◌, All, Bool-cases,
}
use tensix.Files.{sarray_add, sarray_eraseq}

-- A pointer whose low half tells it from NULL.
abbrev pub Plain : ℕ → Type 0
Plain slot = (slot ≡ 0) ⊎ (slot % 2 ^ 16 ≢ 0)

unfoldable pub count : ℕ → List ℕ → ℕ
count obj [] = 0
count obj (slot ∷ slots) = (if slot == obj then 1 else 0) + count obj slots

abbrev pub one_if : Bool → ℕ
one_if b = if b then 1 else 0

sarray_add-nil : (obj : ℕ) → sarray_add [] obj ≡ none
unfolding sarray_add
sarray_add-nil obj = refl

-- The object goes into the first slot where that is unused, and else into one behind it.
abbrev Added : ℕ → List ℕ → ℕ → List ℕ → Type 0
Added slot slots obj slots' =
    ((slot % 2 ^ 16 ≡ 0) × (slots' ≡ obj ∷ slots))
    ⊎ ((rest : List ℕ) × (sarray_add slots obj ≡ some rest) × (slots' ≡ slot ∷ rest))

behind :
    (slot : ℕ) (slots : List ℕ) (obj : ℕ) (slots' : List ℕ) (r : Option (List ℕ))
    → sarray_add slots obj ≡ r
    → (elim r [ none ↦ none | some rest ↦ some (slot ∷ rest) ]) ≡ some slots'
    → Added slot slots obj slots'
behind slot slots obj slots' none er e = cc
behind slot slots obj slots' (some rest) er e = inr (rest, er, cc)

sarray_add-Added :
    (slot : ℕ) (slots : List ℕ) (obj : ℕ) (slots' : List ℕ)
    → sarray_add (slot ∷ slots) obj ≡ some slots'
    → Added slot slots obj slots'
unfolding sarray_add
sarray_add-Added slot slots obj slots' e = elim (Bool-cases (slot % 2 ^ 16 == 0)) [
  | inl free ↦ inl (ground arith, cc (rw free at e))
  | inr held ↦ behind slot slots obj slots' (sarray_add slots obj) refl (rw held at e)
]

-- An object that goes into a slot is held once more, and no other more or less often.
pub count-sarray_add :
    (slots : List ℕ) (obj : ℕ) (slots' : List ℕ) (o : ℕ)
    → All Plain slots
    → o ≢ 0
    → sarray_add slots obj ≡ some slots'
    → count o slots' ≡ one_if (o == obj) + count o slots
unfolding count
count-sarray_add [] obj slots' o p nz e = cc (sarray_add-nil obj)
count-sarray_add (slot ∷ slots) obj slots' o p nz e =
    elim (sarray_add-Added slot slots obj slots' e) [
      | inl free ↦ rw free.1 (ground (arith, p.0))
      | inr (rest, er, es) ↦ rw es (omega (arith, count-sarray_add slots obj rest o p.1 nz er))
    ]

pub All-sarray_add :
    (slots : List ℕ) (obj : ℕ) (slots' : List ℕ)
    → All Plain slots
    → Plain obj
    → sarray_add slots obj ≡ some slots'
    → All Plain slots'
All-sarray_add [] obj slots' p q e = absurd (cc (sarray_add-nil obj))
All-sarray_add (slot ∷ slots) obj slots' p q e = elim (sarray_add-Added slot slots obj slots' e) [
  | inl free ↦ rw free.1 (q, p.1)
  | inr (rest, er, es) ↦ rw es (p.0, All-sarray_add slots obj rest p.1 q er)
]

-- Where the object is held, one slot that holds it is cleared.
pub count-sarray_eraseq :
    (slots : List ℕ) (obj o : ℕ)
    → obj ≢ 0
    → o ≢ 0
    → 0 < count obj slots
    → count o (sarray_eraseq slots obj) + one_if (o == obj) ≡ count o slots
unfolding sarray_eraseq count
count-sarray_eraseq [] obj o nz nzo h = absurd (omega arith)
count-sarray_eraseq (slot ∷ slots) obj o nz nzo h =
    ground (arith, count-sarray_eraseq slots obj o nz nzo)

pub All-sarray_eraseq :
    (slots : List ℕ) (obj : ℕ) → All Plain slots → All Plain (sarray_eraseq slots obj)
unfolding sarray_eraseq
All-sarray_eraseq [] obj p = tt
All-sarray_eraseq (slot ∷ slots) obj p = elim (Bool-cases (slot == 0)) [
  | inl z ↦ rw z (p.0, All-sarray_eraseq slots obj p.1)
  | inr nz ↦ rw nz (elim (Bool-cases (slot == obj)) [
    | inl e ↦ rw e (inl refl, p.1)
    | inr e ↦ rw e (p.0, All-sarray_eraseq slots obj p.1)
  ])
]
