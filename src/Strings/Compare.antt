-- ===== src/Strings/Compare.antt =====
-- `strcmp` and `strncmp`: when they give 0, and which sign they give otherwise.
use tensix.Base.{
  ℕ, zero, suc, ◌+◌, ◌<◌, ◌≤◌, ◌≡◌, ◌≢◌, ◌↔◌, ◌∙◌, ap, ap₂, ℕ_discrete, sym, refl, arith, true,
  false, List, [], ◌∷◌, some, ◌==◌, length, ==_ne,
}
use tensix.Strings.{Memory, char_diff, strcmp, strncmp}
use tensix.Strings.Blocks.{char_diff_zero}
use tensix.Strings.Copy.{IsString}

char_diff_same : (a : ℕ) → a < 256 → char_diff a a ≡ 0
unfolding char_diff
char_diff_same a h = omega arith

char_diff_sign : (a b : ℕ) → a < b → b < 128 → (0 < char_diff a b) × (char_diff a b < 128)
unfolding char_diff
char_diff_sign a b h k = omega arith

module _ (m : Memory) (bytes : (q : ℕ) → m q < 256) where
  differ : (s1 s2 : ℕ) → m s1 ≢ m s2 → (char_diff (m s1) (m s2) == 0) ≡ false
  differ s1 s2 ne =
      ==_ne _ 0 (λ e. ne ((char_diff_zero (m s1) (m s2) (bytes s1) (bytes s2)).0 (rw e refl)))

  -- In a memory of bytes and with fuel for the first string, `strcmp` ends, and gives 0 for equal
  -- strings and for no others.
  pub strcmp_zero :
      (fuel s1 s2 : ℕ) (xs ys : List ℕ)
      → IsString m s1 xs
      → IsString m s2 ys
      → length xs < fuel
      → (r : ℕ) × (strcmp fuel m s1 s2 ≡ some r) × ((r ≡ 0) ↔ (xs ≡ ys))
  unfolding strcmp
  strcmp_zero zero s1 s2 xs ys s t h = absurd (omega arith)
  strcmp_zero (suc fuel) s1 s2 [] [] s t h =
      (0, rw (s, t, char_diff_same 0 (omega arith)), ((λ e. refl), (λ e. refl)))
  strcmp_zero (suc fuel) s1 s2 [] (y ∷ ys) s t h =
      let d = differ s1 s2 (λ e. t.1 (sym t.0 ∙ sym e ∙ s)) in
      (char_diff (m s1) (m s2), rw d, ((λ e. absurd (ground arith)), (λ e. cc)))
  strcmp_zero (suc fuel) s1 s2 (x ∷ xs) [] s t h =
      let d = differ s1 s2 (λ e. s.1 (sym s.0 ∙ e ∙ t)) in
      (char_diff (m s1) (m s2), rw d, ((λ e. absurd (ground arith)), (λ e. cc)))
  strcmp_zero (suc fuel) s1 s2 (x ∷ xs) (y ∷ ys) s t h = elim (ℕ_discrete (m s1) (m s2)) [
    | yes e ↦
        let rest = strcmp_zero fuel (s1 + 1) (s2 + 1) xs ys s.2 t.2 (omega arith) in
        let z : (char_diff (m s1) (m s2) == 0) ≡ true =
          (char_diff_zero (m s1) (m s2) (bytes s1) (bytes s2)).1 e in
        let nz : (m s1 == 0) ≡ false = rw s.0 (==_ne x 0 s.1) in
        (
          rest.0,
          rw (z, nz) rest.1,
          ((λ r. ap₂ ◌∷◌ (sym s.0 ∙ e ∙ t.0) (rest.2.0 r)), (λ r. rest.2.1 (cc))),
        )
    | no ne ↦
        let d = differ s1 s2 ne in
        (
          char_diff (m s1) (m s2),
          rw d,
          ((λ e. absurd (ground arith)), (λ e. absurd (ne (s.0 ∙ ground arith ∙ sym t.0)))),
        )
  ]

  -- Two strings of bytes that part at `n`, at characters below 128, the first string's the
  -- smaller: with fuel for `n` characters `strcmp` ends and gives a positive result.
  pub strcmp_sign :
      (n fuel s1 s2 : ℕ)
      → n < fuel
      → ((i : ℕ) → i < n → (m (s1 + i) ≡ m (s2 + i)) × (m (s1 + i) ≢ 0))
      → m (s1 + n) < m (s2 + n)
      → m (s2 + n) < 128
      → (r : ℕ) × (strcmp fuel m s1 s2 ≡ some r) × (0 < r) × (r < 128)
  unfolding strcmp
  strcmp_sign n zero s1 s2 h same lt small = absurd (omega arith)
  strcmp_sign zero (suc fuel) s1 s2 h same lt small =
      let e1 : m (s1 + 0) ≡ m s1 = ap m (omega arith) in
      let e2 : m (s2 + 0) ≡ m s2 = ap m (omega arith) in
      let d = char_diff_sign (m s1) (m s2) (omega arith) (omega arith) in
      (char_diff (m s1) (m s2), rw (==_ne (char_diff (m s1) (m s2)) 0 (omega arith)), d.0, d.1)
  strcmp_sign (suc n) (suc fuel) s1 s2 h same lt small =
      let shift : (s i : ℕ) → m (s + 1 + i) ≡ m (s + suc i) = λ s i. ap m (omega arith) in
      let first : (s : ℕ) → m s ≡ m (s + 0) = λ s. ap m (omega arith) in
      let e : m s1 ≡ m s2 = first s1 ∙ (same 0 (omega arith)).0 ∙ sym (first s2) in
      let z : (char_diff (m s1) (m s2) == 0) ≡ true =
        (char_diff_zero (m s1) (m s2) (bytes s1) (bytes s2)).1 e in
      let nz : (m s1 == 0) ≡ false =
        ==_ne (m s1) 0 (λ f. (same 0 (omega arith)).1 (sym (first s1) ∙ f)) in
      let rest =
        strcmp_sign n fuel (s1 + 1) (s2 + 1) (omega arith)
          (λ i k.
            let w = same (suc i) (omega arith) in
            (shift s1 i ∙ w.0 ∙ sym (shift s2 i), λ f. w.1 (sym (shift s1 i) ∙ f)))
          (omega (arith, shift s1 n, shift s2 n)) (omega (arith, shift s2 n)) in
      (rest.0, rw (z, nz) rest.1, rest.2, rest.3)

-- With a limit at least as large as what `strcmp` needs, `strncmp` gives the same.
pub strncmp-eq-strcmp :
    (m : Memory) (fuel len s1 s2 r : ℕ)
    → strcmp fuel m s1 s2 ≡ some r
    → fuel ≤ len
    → strncmp m s1 s2 len ≡ r
unfolding strcmp strncmp
strncmp-eq-strcmp m zero len s1 s2 r e h = cc
strncmp-eq-strcmp m (suc fuel) zero s1 s2 r e h = absurd (omega arith)
strncmp-eq-strcmp m (suc fuel) (suc len) s1 s2 r e h =
    ground (arith, strncmp-eq-strcmp m fuel len (s1 + 1) (s2 + 1) r)
