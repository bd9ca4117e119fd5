-- ===== src/Print/Decimal.antt =====
-- `printndec`: the array is long enough, and the digits can be read back.
use tensix.Base.{
  ℕ, zero, suc, ◌+◌, ◌-◌, ◌*◌, ◌/◌, ◌%◌, ◌^◌, ◌<◌, ◌≤◌, ◌≡◌, ◌∙◌, refl, ap, arith, Bool, true,
  false, List, [], ◌∷◌, ◌++◌, Option, none, some, ◌==◌, if◌then◌else◌, All, ==_iff, ==_ne,
  ℕ_discrete,
}
use tensix.Print.{Text, store_digits, put_digits, printndec}

-- Reads decimal digits on, where `n` is what the ones before make.
unfoldable pub read_on : ℕ → Text → ℕ
read_on n [] = n
read_on n (c ∷ cs) = read_on (n * 10 + (c - 48)) cs

abbrev pub read_decimal : Text → ℕ
read_decimal cs = read_on 0 cs

abbrev pub IsDigit : ℕ → Type 0
IsDigit c = (48 ≤ c) × (c ≤ 57)

value : List ℕ → ℕ
value [] = 0
value (d ∷ ds) = d + 10 * value ds

pow10 : ℕ → ℕ
pow10 zero = 1
pow10 (suc k) = 10 * pow10 k

read_on-append : (n c : ℕ) (cs : Text) → read_on n (cs ++ (c ∷ [])) ≡ read_on n cs * 10 + (c - 48)
unfolding read_on
read_on-append n c [] = refl
read_on-append n c (x ∷ cs) = read_on-append (n * 10 + (x - 48)) c cs

read-put_digits : (ds : List ℕ) → read_decimal (put_digits ds) ≡ value ds
unfolding read_on put_digits value
read-put_digits [] = refl
read-put_digits (d ∷ ds) =
    omega (arith, read_on-append 0 (d + 48) (put_digits ds), read-put_digits ds)

All-snoc : (cs : Text) (c : ℕ) → All IsDigit cs → IsDigit c → All IsDigit (cs ++ (c ∷ []))
All-snoc [] c a h = (h, tt)
All-snoc (x ∷ cs) c a h = (a.0, All-snoc cs c a.1 h)

digits-put_digits : (ds : List ℕ) → All (λ d. d < 10) ds → All IsDigit (put_digits ds)
unfolding put_digits
digits-put_digits [] a = tt
digits-put_digits (d ∷ ds) a =
    All-snoc (put_digits ds) (d + 48) (digits-put_digits ds a.1)
      (omega (arith, a.0), omega (arith, a.0))

Filled : Option (List ℕ) → ℕ → Type 0
Filled r n = (ds : List ℕ) × (r ≡ some ds) × (value ds ≡ n) × All (λ d. d < 10) ds

-- A place in the array.
place : ℕ → Option (List ℕ) → Bool → Option (List ℕ)
place n rest last =
    if last then some (n % 10 ∷ []) else (elim rest [ none ↦ none | some ds ↦ some (n % 10 ∷ ds) ])

store_digits-place :
    (room n : ℕ) (last : Bool)
    → ((n / 10) == 0) ≡ last
    → store_digits (suc room) n ≡ place n (store_digits room (n / 10)) last
unfolding store_digits place
store_digits-place room n last e = ap (place n (store_digits room (n / 10))) e

Filled-last : (room n : ℕ) → n / 10 ≡ 0 → Filled (store_digits (suc room) n) n
unfolding Filled value place
Filled-last room n e = (
  n % 10 ∷ [],
  store_digits-place room n true ((==_iff (n / 10) 0).1 e),
  omega (arith, e),
  (omega arith, tt),
)

store_digits-Filled : (room n : ℕ) → n < pow10 (suc room) → Filled (store_digits (suc room) n) n
unfolding pow10 Filled value place
store_digits-Filled zero n h = Filled-last zero n (omega arith)
store_digits-Filled (suc room) n h = elim (ℕ_discrete (n / 10) 0) [
  | yes e ↦ Filled-last (suc room) n e
  | no ne ↦
      let r = store_digits-Filled room (n / 10) (omega arith) in
      (
        n % 10 ∷ r.0,
        store_digits-place (suc room) n false (==_ne (n / 10) 0 ne) ∙ ap (λ q. place n q false) r.1,
        omega (arith, r.2),
        (omega arith, r.3),
      )
]

-- A number of 32 bits fits into the array of twelve digits, and what `printndec` prints are digits
-- that read as the number again.
pub read_decimal-printndec :
    (n : ℕ)
    → n < 2 ^ 32
    → (out : Text) × (printndec n ≡ some out) × (read_decimal out ≡ n) × All IsDigit out
unfolding printndec pow10 Filled
read_decimal-printndec n h =
    let r = store_digits-Filled 11 n (omega arith) in
    (
      put_digits r.0,
      ap (λ (q : Option (List ℕ)). elim q [ none ↦ none | some ds ↦ some (put_digits ds) ]) r.1,
      read-put_digits r.0 ∙ r.2,
      digits-put_digits r.0 r.3,
    )
