-- ===== src/Strings.antt =====
-- lib/string.c over a memory of bytes: blocks and strings that a zero ends. Addresses do not wrap.
-- A `char` is its bit pattern, a byte; what the comparisons return is the pattern of their `r`.
pub mod Blocks
pub mod Copy
pub mod Compare
mod Example
use tensix.Base.{ℕ, zero, suc, ◌+◌, ◌-◌, ◌%◌, ◌^◌, Bool, Option, none, some, ◌==◌, if◌then◌else◌}

abbrev pub Memory : Type 0
Memory = ℕ → ℕ

-- `*p = c`
unfoldable pub write : Memory → ℕ → ℕ → Memory
write m p c q = if q == p then c else m q

unfoldable pub bzero : Memory → ℕ → ℕ → Memory
bzero m dest zero = m
bzero m dest (suc len) = bzero (write m dest 0) (dest + 1) len

unfoldable pub memcpy : Memory → ℕ → ℕ → ℕ → Memory
memcpy m dest src zero = m
memcpy m dest src (suc len) = memcpy (write m dest (m src)) (dest + 1) (src + 1) len

-- `*s2 - *s1`, cut down to a `char`
unfoldable pub char_diff : ℕ → ℕ → ℕ
char_diff c1 c2 = (c2 + 256 - c1) % 256

unfoldable pub memcmp : Memory → ℕ → ℕ → ℕ → ℕ
memcmp m s1 s2 zero = 0
memcmp m s1 s2 (suc len) =
    let r = char_diff (m s1) (m s2) in
    let rest = memcmp m (s1 + 1) (s2 + 1) len in if r == 0 then rest else r

-- The loops that only a zero ends run on fuel, and are `none` where that runs out.
unfoldable pub strlen_loop : ℕ → Memory → ℕ → ℕ → Option ℕ
strlen_loop zero m p len = none
strlen_loop (suc fuel) m p len =
    let rest = strlen_loop fuel m (p + 1) ((len + 1) % 2 ^ 32) in
    if m p == 0 then some len else rest

unfoldable pub strlen : ℕ → Memory → ℕ → Option ℕ
strlen fuel m p = strlen_loop fuel m p 0

unfoldable pub copy_loop : ℕ → Memory → ℕ → ℕ → Option Memory
copy_loop zero m dest src = none
copy_loop (suc fuel) m dest src =
    let c = m src in
    let m' = write m dest c in
    let rest = copy_loop fuel m' (dest + 1) (src + 1) in if c == 0 then some m' else rest

-- Both return `dest`, which is left out.
unfoldable pub strcpy : ℕ → Memory → ℕ → ℕ → Option Memory
strcpy fuel m dest src = copy_loop fuel m dest src

unfoldable pub end_loop : ℕ → Memory → ℕ → Option ℕ
end_loop zero m p = none
end_loop (suc fuel) m p = let rest = end_loop fuel m (p + 1) in if m p == 0 then some p else rest

unfoldable pub strcat : ℕ → Memory → ℕ → ℕ → Option Memory
strcat fuel m dest src = elim (end_loop fuel m dest) [
  | none ↦ none
  | some end ↦ copy_loop fuel m end src
]

unfoldable pub strcmp : ℕ → Memory → ℕ → ℕ → Option ℕ
strcmp zero m s1 s2 = none
strcmp (suc fuel) m s1 s2 =
    let r = char_diff (m s1) (m s2) in
    let rest = strcmp fuel m (s1 + 1) (s2 + 1) in
    if r == 0 then (if m s1 == 0 then some 0 else rest) else some r

unfoldable pub strncmp : Memory → ℕ → ℕ → ℕ → ℕ
strncmp m s1 s2 zero = 0
strncmp m s1 s2 (suc len) =
    let r = char_diff (m s1) (m s2) in
    let rest = strncmp m (s1 + 1) (s2 + 1) len in
    if r == 0 then (if m s1 == 0 then 0 else rest) else r
