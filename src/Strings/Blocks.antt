-- ===== src/Strings/Blocks.antt =====
-- `bzero`, `memcpy` and `memcmp`.
use tensix.Base.{
  ℕ, zero, suc, ◌+◌, ◌-◌, ◌<◌, ◌≤◌, ◌≡◌, ◌↔◌, ◌⊎◌, inl, inr, ◌∙◌, ap, refl, arith, true, ltb, ◌==◌,
  if◌then◌else◌, Bool-cases, ==_ne, ℕ_discrete,
}
use tensix.Strings.{Memory, write, bzero, memcpy, char_diff, memcmp}

-- `bzero` clears the block and nothing else.
pub bzero_lem :
    (m : Memory) (dest len q : ℕ)
    → bzero m dest len q ≡ (if ltb q dest then m q else if ltb q (dest + len) then 0 else m q)
unfolding bzero write
bzero_lem m dest zero q = ground arith
bzero_lem m dest (suc len) q = bzero_lem (write m dest 0) (dest + 1) len q ∙ ground arith

-- `memcpy` copies a block that does not overlap its target, and writes nowhere else.
pub memcpy_lem :
    (m : Memory) (dest src len : ℕ)
    → ((dest + len ≤ src) ⊎ (src + len ≤ dest))
    → ((i : ℕ) → i < len → memcpy m dest src len (dest + i) ≡ m (src + i))
      × ((q : ℕ) → (q < dest) ⊎ (dest + len ≤ q) → memcpy m dest src len q ≡ m q)
unfolding memcpy write
memcpy_lem m dest src zero apart = ((λ i h. absurd (omega arith)), (λ q h. refl))
memcpy_lem m dest src (suc len) apart =
    let m' = write m dest (m src) in
    let rest = memcpy_lem m' (dest + 1) (src + 1) len (omega arith) in
    (
      (λ i h. elim (ℕ_discrete i 0) [
        | yes z ↦ rest.1 (dest + i) (omega arith) ∙ ground arith
        | no nz ↦
            let j = i - 1 in
            ap (memcpy m' (dest + 1) (src + 1) len) (omega arith)
            ∙ rest.0 j (omega arith)
            ∙ rw (==_ne (src + 1 + j) dest (omega arith)) (ap m (omega arith))
      ]),
      (λ q h. rest.1 q (omega arith) ∙ rw (==_ne q dest (omega arith))),
    )

pub char_diff_zero : (a b : ℕ) → a < 256 → b < 256 → ((char_diff a b == 0) ≡ true) ↔ (a ≡ b)
unfolding char_diff
char_diff_zero a b ha hb = ground arith

-- `memcmp` gives 0 for equal blocks and for no others.
pub memcmp_lem :
    (m : Memory) (s1 s2 len : ℕ)
    → ((q : ℕ) → m q < 256)
    → (memcmp m s1 s2 len ≡ 0) ↔ ((i : ℕ) → i < len → m (s1 + i) ≡ m (s2 + i))
unfolding memcmp
memcmp_lem m s1 s2 zero bytes = ((λ e i h. absurd (omega arith)), (λ e. refl))
memcmp_lem m s1 s2 (suc len) bytes =
    let rest = memcmp_lem m (s1 + 1) (s2 + 1) len bytes in
    let same = char_diff_zero (m s1) (m s2) (bytes s1) (bytes s2) in
    elim (Bool-cases (char_diff (m s1) (m s2) == 0)) [
      | inl e ↦ rw e (
        (λ f i h. elim (ℕ_discrete i 0) [
          | yes z ↦ ground (arith, same.0 e)
          | no nz ↦ ap m (omega arith) ∙ rest.0 f (i - 1) (omega arith) ∙ ap m (omega arith)
        ]),
        (λ f. rest.1 λ i h. ap m (omega arith) ∙ f (i + 1) (omega arith) ∙ ap m (omega arith)),
      )
      | inr e ↦ rw e (
        (λ f. absurd (ground arith)),
        (λ f.
            let e0 : m s1 ≡ m s2 = ap m (omega arith) ∙ f 0 (omega arith) ∙ ap m (omega arith) in
            cc (same.1 e0)),
      )
    ]
