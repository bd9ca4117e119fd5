-- ===== src/Namespace/Example.antt =====
-- The theorems on namespace.c at the name "a/", its path and a root with the entry "dev".
use tensix.Base.{
  ℕ, ◌+◌, ◌≤◌, ◌≡◌, refl, arith, true, List, [], ◌∷◌, ◌++◌, none, some, ◌==◌, if◌then◌else◌, length,
}
use tensix.Namespace.{
  name_max, slash, backslash, component, deescape_loop, namespace_deescape_path, Lookup, Vfs,
  namespace_lookup_path,
}
use tensix.Namespace.Deescape.{escape, deescape_fits, deescape-escape}
use tensix.Namespace.Walk.{walk, spell, lookup_path-walk, lookup_path_total}

abbrev odd_name : List ℕ
odd_name = 97 ∷ slash ∷ []

abbrev dev : List ℕ
dev = 100 ∷ 101 ∷ 118 ∷ []

abbrev de : List ℕ
de = 100 ∷ 101 ∷ []

abbrev con : List ℕ
con = 99 ∷ 111 ∷ 110 ∷ []

abbrev vfs : Vfs
vfs = record {
  dirents = λ obj. if obj == 1 then (dev, 2) ∷ [] else if obj == 2 then (con, 3) ∷ [] else [];
  lookup = λ obj. none;
  root = 1;
}

dev_component : namespace_deescape_path (100 ∷ 101 ∷ slash ∷ 118 ∷ []) ≡ component de (118 ∷ [])
unfolding namespace_deescape_path deescape_loop
dev_component = refl

deescape_fits_example : length de + 1 ≤ name_max
deescape_fits_example = deescape_fits (100 ∷ 101 ∷ slash ∷ 118 ∷ []) de (118 ∷ []) dev_component

lookup_path-walk_example :
    (namespace_lookup_path vfs true 1 (some (spell (dev ∷ con ∷ [])))
      ≡ some (walk vfs 1 (dev ∷ con ∷ [])))
    × (namespace_lookup_path vfs true 1 (some (slash ∷ spell (dev ∷ con ∷ [])))
        ≡ some (walk vfs 1 (dev ∷ con ∷ [])))
lookup_path-walk_example =
    lookup_path-walk vfs 1 (dev ∷ con ∷ []) ((omega arith), ((omega arith), tt))

lookup_path_total_example :
    (r : Lookup) × (namespace_lookup_path vfs true 1 (some (slash ∷ backslash ∷ [])) ≡ some r)
lookup_path_total_example = lookup_path_total vfs true 1 (some (slash ∷ backslash ∷ []))

deescape-escape_example :
    (namespace_deescape_path (escape odd_name ++ (slash ∷ dev)) ≡ component odd_name dev)
    × (namespace_deescape_path (escape odd_name) ≡ component odd_name [])
deescape-escape_example = deescape-escape odd_name dev (omega arith)
