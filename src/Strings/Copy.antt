-- ===== src/Strings/Copy.antt =====
-- `strlen`, `strcpy` and `strcat` on strings that end.
use tensix.Base.{
  ℕ, zero, suc, ◌+◌, ◌%◌, ◌^◌, ◌<◌, ◌≤◌, ◌≡◌, ◌≢◌, ◌⊎◌, inl, ◌∙◌, ap, subst, arith, List, [], ◌∷◌,
  ◌++◌, some, length, ==_ne, ==_refl,
}
use tensix.Strings.{Memory, write, strlen_loop, strlen, copy_loop, strcpy, end_loop, strcat}

-- At `p` stand the characters `xs`, none of them zero, and a zero behind them.
abbrev pub IsString : Memory → ℕ → List ℕ → Type 0
IsString m p [] = m p ≡ 0
IsString m p (x ∷ xs) = (m p ≡ x) × (x ≢ 0) × IsString m (p + 1) xs

pub IsString-frame :
    (m m' : Memory) (p : ℕ) (xs : List ℕ)
    → ((q : ℕ) → p ≤ q → q ≤ p + length xs → m' q ≡ m q)
    → IsString m p xs
    → IsString m' p xs
IsString-frame m m' p [] same s = same p (omega arith) (omega arith) ∙ s
IsString-frame m m' p (x ∷ xs) same s = (
  same p (omega arith) (omega arith) ∙ s.0,
  s.1,
  IsString-frame m m' (p + 1) xs (λ q lo hi. same q (omega arith) (omega arith)) s.2,
)

strlen_loop_lem :
    (m : Memory) (fuel p len : ℕ) (xs : List ℕ)
    → IsString m p xs
    → length xs < fuel
    → len + length xs < 2 ^ 32
    → strlen_loop fuel m p len ≡ some (len + length xs)
unfolding strlen_loop
strlen_loop_lem m zero p len xs s h small = absurd (omega arith)
strlen_loop_lem m (suc fuel) p len [] s h small = rw s (ap some (omega arith))
strlen_loop_lem m (suc fuel) p len (x ∷ xs) s h small =
    rw (s.0, ==_ne x 0 s.1)
      (strlen_loop_lem m fuel (p + 1) ((len + 1) % 2 ^ 32) xs s.2 (omega arith) (omega arith)
        ∙ ap some (omega arith))

-- `strlen` counts the characters before the zero.
pub strlen_lem :
    (m : Memory) (fuel p : ℕ) (xs : List ℕ)
    → IsString m p xs
    → length xs < fuel
    → length xs < 2 ^ 32
    → strlen fuel m p ≡ some (length xs)
unfolding strlen
strlen_lem m fuel p xs s h small =
    strlen_loop_lem m fuel p 0 xs s h (omega arith) ∙ ap some (omega arith)

-- What a copy leaves behind: the string at `dest`, and all as it was outside of it.
pub record Copied (m m' : Memory) (dest : ℕ) (xs : List ℕ) : Type 0 where
  pub string : IsString m' dest xs
  pub outside : (q : ℕ) → (q < dest) ⊎ (dest + length xs < q) → m' q ≡ m q

-- The copy's target does not overlap its source.
abbrev pub Apart : ℕ → ℕ → ℕ → Type 0
Apart dest src len = (dest + len < src) ⊎ (src + len < dest)

copy_loop_lem :
    (m : Memory) (fuel dest src : ℕ) (xs : List ℕ)
    → IsString m src xs
    → length xs < fuel
    → Apart dest src (length xs)
    → (m' : Memory) × (copy_loop fuel m dest src ≡ some m') × Copied m m' dest xs
unfolding copy_loop
copy_loop_lem m zero dest src xs s h apart = absurd (omega arith)
copy_loop_lem m (suc fuel) dest src [] s h apart = (
  write m dest 0,
  rw s,
  unfold write in record { string = rw ==_refl; outside = λ q o. rw (==_ne q dest (omega arith)) },
)
copy_loop_lem m (suc fuel) dest src (x ∷ xs) s h apart =
    let m1 = write m dest x in
    let rest =
      copy_loop_lem m1 fuel (dest + 1) (src + 1) xs
        (IsString-frame m m1 (src + 1) xs
          (λ q lo hi. unfold write in rw (==_ne q dest (omega arith))) s.2)
        (omega arith) (omega arith) in
    let c = rest.2 in
    (
      rest.0,
      rw (s.0, ==_ne x 0 s.1) rest.1,
      record {
        string = (c.outside dest (inl (omega arith)) ∙ (unfold write in rw ==_refl), s.1, c.string);
        outside =
            λ q o. c.outside q (omega arith) ∙ (unfold write in rw (==_ne q dest (omega arith)));
      },
    )

-- `strcpy` copies a string to where it does not overlap, its zero included, and writes nowhere else.
pub strcpy_lem :
    (m : Memory) (fuel dest src : ℕ) (xs : List ℕ)
    → IsString m src xs
    → length xs < fuel
    → Apart dest src (length xs)
    → (m' : Memory) × (strcpy fuel m dest src ≡ some m') × Copied m m' dest xs
unfolding strcpy
strcpy_lem m fuel dest src xs s h apart = copy_loop_lem m fuel dest src xs s h apart

end_loop_lem :
    (m : Memory) (fuel p : ℕ) (xs : List ℕ)
    → IsString m p xs
    → length xs < fuel
    → end_loop fuel m p ≡ some (p + length xs)
unfolding end_loop
end_loop_lem m zero p xs s h = absurd (omega arith)
end_loop_lem m (suc fuel) p [] s h = rw s (ap some (omega arith))
end_loop_lem m (suc fuel) p (x ∷ xs) s h =
    rw (s.0, ==_ne x 0 s.1)
      (end_loop_lem m fuel (p + 1) xs s.2 (omega arith) ∙ ap some (omega arith))

IsString-append :
    (m m' : Memory) (p : ℕ) (xs ys : List ℕ)
    → IsString m p xs
    → ((q : ℕ) → q < p + length xs → m' q ≡ m q)
    → IsString m' (p + length xs) ys
    → IsString m' p (xs ++ ys)
IsString-append m m' p [] ys s same t = subst (λ q. IsString m' q ys) (omega arith) t
IsString-append m m' p (x ∷ xs) ys s same t = (
  same p (omega arith) ∙ s.0,
  s.1,
  IsString-append m m' (p + 1) xs ys s.2 (λ q h. same q (omega arith))
      (subst (λ q. IsString m' q ys) (omega arith) t),
)

-- With fuel for both strings, `strcat` ends and appends a string to another where the result does
-- not reach the one appended, and writes nowhere else.
pub strcat_lem :
    (m : Memory) (fuel dest src : ℕ) (xs ys : List ℕ)
    → IsString m dest xs
    → IsString m src ys
    → length xs < fuel
    → length ys < fuel
    → Apart (dest + length xs) src (length ys)
    → (m' : Memory) × (strcat fuel m dest src ≡ some m')
      × IsString m' dest (xs ++ ys)
      × ((q : ℕ) → (q < dest + length xs) ⊎ (dest + length xs + length ys < q) → m' q ≡ m q)
unfolding strcat
strcat_lem m fuel dest src xs ys s t hx hy apart =
    let c = copy_loop_lem m fuel (dest + length xs) src ys t hy apart in
    (
      c.0,
      rw (end_loop_lem m fuel dest xs s hx, strcat) c.1,
      IsString-append m c.0 dest xs ys s (λ q h. c.2.outside q (inl h)) c.2.string,
      c.2.outside,
    )
