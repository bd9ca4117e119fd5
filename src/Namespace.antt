-- ===== src/Namespace.antt =====
-- kern/io/namespace.c: from a path to an object. A path is the list of its characters before the
-- zero; an object is its address, 0 for NULL. The directories in memory and the `lookup` operations
-- of the object classes are the state that the functions read. Out parameters are results.
pub mod Deescape
pub mod Walk
mod Example
use tensix.Base.{
  ℕ, zero, suc, ◌+◌, Bool, true, false, not, ◌&&◌, List, [], ◌∷◌, ◌++◌, Option, none, some, ◌==◌,
  if◌then◌else◌, length,
}

-- Error codes of include/error.h
abbrev pub e_none : ℕ
e_none = 0

abbrev pub e_nomem : ℕ
e_nomem = 1

abbrev pub e_inval : ℕ
e_inval = 2

abbrev pub e_notsup : ℕ
e_notsup = 3

abbrev pub e_notfound : ℕ
e_notfound = 4

abbrev pub name_max : ℕ
name_max = 32

abbrev pub slash : ℕ
slash = 47

abbrev pub backslash : ℕ
backslash = 92

-- `strcmp` as a truth value: the strings match.
unfoldable pub same_name : List ℕ → List ℕ → Bool
same_name [] [] = true
same_name [] (d ∷ ds) = false
same_name (c ∷ cs) [] = false
same_name (c ∷ cs) (d ∷ ds) = (c == d) && same_name cs ds

-- `*retobj` beside the error code.
pub record Lookup : Type 0 where
  pub err : ℕ
  pub obj : ℕ

-- The dirents in memory of each object, and its class's `lookup`, where it has one.
pub record Vfs : Type 0 where
  pub dirents : ℕ → List (List ℕ × ℕ)
  pub lookup : ℕ → Option (List ℕ → Lookup)
  pub root : ℕ

unfoldable pub scan : List (List ℕ × ℕ) → List ℕ → Lookup
scan [] name = record { err = e_notfound; obj = 0 }
scan ((n, o) ∷ ds) name =
    let rest = scan ds name in if same_name n name then record { err = e_none; obj = o } else rest

unfoldable pub namespace_directory_scan : Vfs → ℕ → List ℕ → Lookup
namespace_directory_scan fs obj name = scan (fs.dirents obj) name

-- What `namespace_lookup` does where the directory in memory gave no object.
unfoldable pub lookup_by_class : Option (List ℕ → Lookup) → ℕ → List ℕ → Lookup
lookup_by_class none err name = record { err = if err == 0 then e_notsup else err; obj = 0 }
lookup_by_class (some f) err name =
    let r = f name in
    if (r.err == e_none) && (r.obj == 0) then record { err = e_notfound; obj = 0 } else r

unfoldable pub namespace_lookup : Vfs → ℕ → List ℕ → Lookup
namespace_lookup fs dir name =
    let r = namespace_directory_scan fs dir name in
    if not (r.obj == 0) then r else lookup_by_class (fs.lookup dir) r.err name

-- The de-escaped component and the path behind it, or EINVAL.
pub data Component : Type 0 where
  invalid : Component
  component : List ℕ → List ℕ → Component

-- The loop of `namespace_deescape_path`; `to` holds the characters in the buffer so far. The zero
-- at the path's end is copied and counted before the loop ends.
unfoldable pub deescape_loop : List ℕ → List ℕ → Component
deescape_loop to [] = if (length to + 1) == name_max then invalid else component to []
deescape_loop to (c ∷ []) =
    let rest = deescape_loop (to ++ (c ∷ [])) [] in
    if c == backslash
    then invalid
    else if c == slash
    then component to []
    else if (length to + 1) == name_max
    then invalid
    else rest
deescape_loop to (c ∷ d ∷ path) =
    let escaped = deescape_loop (to ++ (d ∷ [])) path in
    let rest = deescape_loop (to ++ (c ∷ [])) (d ∷ path) in
    if c == backslash
    then (if (length to + 1) == name_max then invalid else escaped)
    else if c == slash
    then component to (d ∷ path)
    else if (length to + 1) == name_max
    then invalid
    else rest

unfoldable pub namespace_deescape_path : List ℕ → Component
namespace_deescape_path path = deescape_loop [] path

-- `CHARSKIP(path, '/')`
unfoldable pub skip_slashes : List ℕ → List ℕ
skip_slashes [] = []
skip_slashes (c ∷ path) = let rest = skip_slashes path in if c == slash then rest else c ∷ path

-- The loop of `namespace_lookup_path` on fuel: one component at a time, from the directory `dir`.
unfoldable pub lookup_loop : ℕ → Vfs → ℕ → List ℕ → Option Lookup
lookup_loop fuel fs dir [] = some (record { err = e_none; obj = dir })
lookup_loop zero fs dir (c ∷ path) = none
lookup_loop (suc fuel) fs dir (c ∷ path) = elim (namespace_deescape_path (c ∷ path)) [
  | invalid ↦ some (record { err = e_inval; obj = dir })
  | component name rest ↦
      let r = namespace_lookup fs dir name in
      let next = lookup_loop fuel fs r.obj (skip_slashes rest) in
      if not (r.err == 0) then some r else if r.obj == 0 then some r else next
]

-- The directory that a path starts from, and the path left to walk.
unfoldable pub start : Vfs → ℕ → List ℕ → ℕ × List ℕ
start fs pwd [] = (pwd, [])
start fs pwd (c ∷ path) = if c == slash then (fs.root, skip_slashes (c ∷ path)) else (pwd, c ∷ path)

-- `has_memory` says whether `malloc` gave the buffer for names. A null path is `none`.
unfoldable pub namespace_lookup_path : Vfs → Bool → ℕ → Option (List ℕ) → Option Lookup
namespace_lookup_path fs has_memory pwd none = some (record { err = e_inval; obj = 0 })
namespace_lookup_path fs has_memory pwd (some path) =
    let (dir, rest) = start fs pwd path in
    let found = lookup_loop (suc (length path)) fs dir rest in
    if has_memory then found else some (record { err = e_nomem; obj = 0 })
