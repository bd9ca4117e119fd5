-- ===== src/Print/Example.antt =====
-- The theorems on printing at 1234567890 and at the format `a%d %x`.
use tensix.Base.{◌≡◌, refl, arith, [], ◌∷◌, some, All, List}
use tensix.Print.{Text, store_digits, put_digits, printndec, printk}
use tensix.Print.Decimal.{read_decimal, IsDigit, read_decimal-printndec}
use tensix.Print.Format.{Item, plain, number, unknown, show, render, printk_lem}

read_decimal-printndec_example :
    (out : Text) × (printndec 1234567890 ≡ some out)
    × (read_decimal out ≡ 1234567890)
    × All IsDigit out
read_decimal-printndec_example = read_decimal-printndec 1234567890 (omega arith)

abbrev items : List Item
items = plain 97 ∷ number ∷ plain 32 ∷ unknown 120 ∷ []

printed : printndec 42 ≡ some (52 ∷ 50 ∷ [])
unfolding printndec store_digits put_digits
printed = refl

printk_lem_example : printk (λ a. []) (show items) 42 ≡ some (render (52 ∷ 50 ∷ []) [] items)
printk_lem_example =
    printk_lem (λ a. []) 42 (52 ∷ 50 ∷ []) printed items
      (omega arith, (tt, (omega arith, ((omega arith, omega arith, omega arith), tt))))
