-- ===== src/Print.antt =====
-- lib/klibc.c: the kernel's console output, which is the list of the characters that go to `con_out`.
-- `none` stands for a write past the end of printndec's array, or for a read past the end of a format.
-- A format is its characters without the zero at its end, and `str` is the string at an address.
pub mod Decimal
pub mod Format
mod Example
use tensix.Base.{
  ℕ, zero, suc, ◌+◌, ◌-◌, ◌*◌, ◌/◌, ◌%◌, ◌^◌, Bool, true, false, not, ◌||◌, List, [], ◌∷◌, ◌++◌,
  Option, none, some, ◌==◌, ltb, get_or, if◌then◌else◌,
}

abbrev pub Text : Type 0
Text = List ℕ

-- `%`, `d`, `l` and `s`
abbrev pub percent : ℕ
percent = 37

abbrev pub char_d : ℕ
char_d = 100

abbrev pub char_l : ℕ
char_l = 108

abbrev pub char_s : ℕ
char_s = 115

-- `0123456789abcdef`
unfoldable pub hex_char : ℕ → ℕ
hex_char i = if ltb i 10 then i + 48 else i + 87

-- The shift is by 4 bits for each digit that is left.
unfoldable pub printnhex : ℕ → ℕ → Text
printnhex n zero = []
printnhex n (suc digits) = hex_char (n / 16 ^ digits % 16) ∷ printnhex n digits

-- The first loop of `printndec`, with `room` places left in `out`: the digits, the last one first.
unfoldable pub store_digits : ℕ → ℕ → Option (List ℕ)
store_digits zero n = none
store_digits (suc room) n =
    let rest = store_digits room (n / 10) in
    if n / 10 == 0
    then some (n % 10 ∷ [])
    else (elim rest [ none ↦ none | some ds ↦ some (n % 10 ∷ ds) ])

-- The second loop, from the last place to the first.
unfoldable pub put_digits : List ℕ → Text
put_digits [] = []
put_digits (d ∷ ds) = put_digits ds ++ ((d + 48) ∷ [])

unfoldable pub printndec : ℕ → Option Text
printndec n = elim (store_digits 12 n) [ none ↦ none | some ds ↦ some (put_digits ds) ]

-- What `%` and the character `c` print.
unfoldable pub directive : (ℕ → Text) → ℕ → ℕ → Option Text
directive str v c =
    if (c == char_d) || (c == char_l)
    then printndec v
    else if c == char_s
    then some (str v)
    else some (percent ∷ c ∷ [])

-- `first` and then `rest`.
unfoldable pub then_print : Option Text → Option Text → Option Text
then_print none rest = none
then_print (some out) none = none
then_print (some out) (some rest) = some (out ++ rest)

unfoldable pub printk : (ℕ → Text) → Text → ℕ → Option Text
printk str [] v = some []
printk str (c ∷ []) v = if c == percent then none else some (c ∷ [])
printk str (c ∷ d ∷ fmt) v =
    let after = printk str fmt v in
    let next = printk str (d ∷ fmt) v in
    if c == percent then then_print (directive str v d) after else then_print (some (c ∷ [])) next
