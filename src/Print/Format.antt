-- ===== src/Print/Format.antt =====
-- `printk` against formats as lists of items, each with what it is to print.
use tensix.Base.{
  ℕ, ◌≡◌, ◌≢◌, ◌∙◌, refl, ap, Bool, List, [], ◌∷◌, ◌++◌, some, if◌then◌else◌, All, ==_ne,
}
use tensix.Print.{Text, percent, char_d, char_l, char_s, printndec, directive, then_print, printk}

-- An item of a format: a character, `%d` or `%l`, `%s`, or `%` and a character that means nothing.
pub data Item : Type 0 where
  plain : ℕ → Item
  number : Item
  long_number : Item
  string : Item
  unknown : ℕ → Item

unfoldable pub show : List Item → Text
show [] = []
show (plain c ∷ items) = c ∷ show items
show (number ∷ items) = percent ∷ char_d ∷ show items
show (long_number ∷ items) = percent ∷ char_l ∷ show items
show (string ∷ items) = percent ∷ char_s ∷ show items
show (unknown c ∷ items) = percent ∷ c ∷ show items

abbrev pub IsItem : Item → Type 0
IsItem (plain c) = c ≢ percent
IsItem number = Unit
IsItem long_number = Unit
IsItem string = Unit
IsItem (unknown c) = (c ≢ char_d) × (c ≢ char_l) × (c ≢ char_s)

-- The characters that an item prints, where a number's are `decimal`.
unfoldable pub item_text : Text → Text → Item → Text
item_text decimal text (plain c) = c ∷ []
item_text decimal text number = decimal
item_text decimal text long_number = decimal
item_text decimal text string = text
item_text decimal text (unknown c) = percent ∷ c ∷ []

unfoldable pub render : Text → Text → List Item → Text
render decimal text [] = []
render decimal text (i ∷ items) = item_text decimal text i ++ render decimal text items

printk_plain :
    (str : ℕ → Text) (c : ℕ) (fmt : Text) (v : ℕ)
    → c ≢ percent
    → printk str (c ∷ fmt) v ≡ then_print (some (c ∷ [])) (printk str fmt v)
unfolding printk then_print
printk_plain str c [] v h = rw (==_ne c percent h) refl
printk_plain str c (d ∷ fmt) v h =
    ap
      (λ (b : Bool).
        if b
        then then_print (directive str v d) (printk str fmt v)
        else then_print (some (c ∷ [])) (printk str (d ∷ fmt) v))
      (==_ne c percent h)

directive_unknown :
    (str : ℕ → Text) (v c : ℕ) → IsItem (unknown c) → directive str v c ≡ some (percent ∷ c ∷ [])
unfolding directive
directive_unknown str v c h = rw (==_ne c char_d h.0, ==_ne c char_l h.1, ==_ne c char_s h.2) refl

module _ (str : ℕ → Text) (v : ℕ) (decimal : Text) (printed : printndec v ≡ some decimal) where
  -- An item, and the rest of the format behind it.
  printk_item :
      (i : Item) (items : List Item)
      → IsItem i
      → printk str (show (i ∷ items)) v
        ≡ then_print (some (item_text decimal (str v) i)) (printk str (show items) v)
  unfolding printk show item_text directive
  printk_item (plain c) items h = printk_plain str c (show items) v h
  printk_item number items h = ap (λ o. then_print o (printk str (show items) v)) printed
  printk_item long_number items h = ap (λ o. then_print o (printk str (show items) v)) printed
  printk_item string items h = refl
  printk_item (unknown c) items h =
      ap (λ o. then_print o (printk str (show items) v)) (directive_unknown str v c h)

  -- Where `decimal` is what `printndec` prints of the argument, `printk` of a format without a lone
  -- `%` prints its items one after the other: a plain character as it is, `%d` and `%l` as `decimal`,
  -- `%s` as the string at the argument, and `%` before any other character as `%` and that character.
  pub printk_lem :
      (items : List Item)
      → All IsItem items
      → printk str (show items) v ≡ some (render decimal (str v) items)
  unfolding printk show render then_print
  printk_lem [] a = refl
  printk_lem (i ∷ items) a =
      printk_item i items a.0
      ∙ ap (then_print (some (item_text decimal (str v) i))) (printk_lem items a.1)
