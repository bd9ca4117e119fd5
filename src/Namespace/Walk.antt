-- ===== src/Namespace/Walk.antt =====
-- `namespace_lookup` and `namespace_lookup_path`: paths are walked name by name.
use tensix.Base.{
  ℕ, zero, suc, ◌+◌, ◌<◌, ◌≤◌, ◌≡◌, ◌≢◌, ◌⊎◌, inl, inr, ◌∙◌, ap, refl, arith, Bool, true, false,
  not, List, [], ◌∷◌, ◌++◌, Option, none, some, ◌==◌, if◌then◌else◌, length, length-append, ==_ne,
  All,
}
use tensix.Namespace.{
  name_max, slash, e_none, e_inval, Component, invalid, component, Lookup, Vfs, namespace_lookup,
  namespace_deescape_path, skip_slashes, lookup_loop, start, namespace_lookup_path,
}
use tensix.Namespace.Deescape.{escape, deescape_shorter, deescape-escape-slash, deescape-escape_end}

-- The walk that a path stands for: from `dir`, one name after the other, up to the first failure.
unfoldable pub walk : Vfs → ℕ → List (List ℕ) → Lookup
walk fs dir [] = record { err = e_none; obj = dir }
walk fs dir (n ∷ names) =
    let r = namespace_lookup fs dir n in
    let rest = walk fs r.obj names in if not (r.err == 0) then r else if r.obj == 0 then r else rest

-- The path that spells the names: escaped, with a slash between two.
unfoldable pub spell : List (List ℕ) → List ℕ
spell [] = []
spell (n ∷ []) = escape n
spell (n ∷ n' ∷ names) = escape n ++ (slash ∷ spell (n' ∷ names))

-- A name that is not empty and has at most 30 characters.
abbrev pub IsName : List ℕ → Type 0
IsName n = (0 < length n) × (length n + 1 < name_max)

-- The path behind a slash begins with no slash.
skip-spell : (names : List (List ℕ)) → All IsName names → skip_slashes (spell names) ≡ spell names
unfolding skip_slashes spell escape
skip-spell [] h = refl
skip-spell ([] ∷ names) h = absurd (omega arith)
skip-spell ((c ∷ n) ∷ []) h = ground arith
skip-spell ((c ∷ n) ∷ n' ∷ names) h = ground arith

escape-ne-nil : (n : List ℕ) → 0 < length n → escape n ≢ []
unfolding escape
escape-ne-nil [] h = absurd (omega arith)
escape-ne-nil (c ∷ n) h = ground arith

append-ne-nil : (n t : List ℕ) → 0 < length n → (escape n ++ t) ≢ []
unfolding escape
append-ne-nil [] t h = absurd (omega arith)
append-ne-nil (c ∷ n) t h = ground arith

module _ (fs : Vfs) where
  -- What a round of the lookup goes on with.
  continue : Lookup → Option Lookup → Option Lookup
  continue r next = if not (r.err == 0) then some r else if r.obj == 0 then some r else next

  lookup_step :
      (fuel dir : ℕ) (path name rest : List ℕ)
      → path ≢ []
      → namespace_deescape_path path ≡ component name rest
      → lookup_loop (suc fuel) fs dir path
        ≡ continue
            (namespace_lookup fs dir name)
            (lookup_loop fuel fs (namespace_lookup fs dir name).obj (skip_slashes rest))
  unfolding lookup_loop continue
  lookup_step fuel dir [] name rest ne e = absurd (ne refl)
  lookup_step fuel dir (c ∷ path) name rest ne e = rw (e, lookup_loop)

  lookup_invalid :
      (fuel dir c : ℕ) (path : List ℕ)
      → namespace_deescape_path (c ∷ path) ≡ invalid
      → lookup_loop (suc fuel) fs dir (c ∷ path) ≡ some (record { err = e_inval; obj = dir })
  unfolding lookup_loop
  lookup_invalid fuel dir c path e = rw (e, lookup_loop)

  skip_nil : skip_slashes [] ≡ []
  unfolding skip_slashes
  skip_nil = refl

  walk_step :
      (dir : ℕ) (n : List ℕ) (names : List (List ℕ))
      → continue (namespace_lookup fs dir n) (some (walk fs (namespace_lookup fs dir n).obj names))
        ≡ some (walk fs dir (n ∷ names))
  unfolding continue walk
  walk_step dir n names = ground arith

  lookup_loop-walk :
      (fuel dir : ℕ) (names : List (List ℕ))
      → All IsName names
      → length names ≤ fuel
      → lookup_loop fuel fs dir (spell names) ≡ some (walk fs dir names)
  unfolding spell
  lookup_loop-walk fuel dir [] named h = unfold lookup_loop walk in refl
  lookup_loop-walk zero dir (n ∷ names) named h = absurd (omega arith)
  lookup_loop-walk (suc fuel) dir (n ∷ []) named h =
      let e : namespace_deescape_path (escape n) ≡ component n [] =
        deescape-escape_end n (omega arith) ∙ rw (==_ne (length n + 1) name_max (omega arith)) in
      lookup_step fuel dir (escape n) n [] (escape-ne-nil n (omega arith)) e
      ∙ ap (continue (namespace_lookup fs dir n)) (
          ap (lookup_loop fuel fs (namespace_lookup fs dir n).obj) skip_nil
          ∙ lookup_loop-walk fuel (namespace_lookup fs dir n).obj [] tt (omega arith))
      ∙ walk_step dir n []
  lookup_loop-walk (suc fuel) dir (n ∷ n' ∷ names) named h =
      let o = (namespace_lookup fs dir n).obj in
      lookup_step fuel dir _ n _ (append-ne-nil n _ (omega arith))
        (deescape-escape-slash n _ (omega arith))
      ∙ ap (continue (namespace_lookup fs dir n)) (
          ap (lookup_loop fuel fs o) (skip-spell (n' ∷ names) named.1)
          ∙ lookup_loop-walk fuel o (n' ∷ names) named.1 (omega arith))
      ∙ walk_step dir n (n' ∷ names)

length-escape : (n : List ℕ) → length n ≤ length (escape n)
unfolding escape
length-escape [] = omega arith
length-escape (c ∷ n) = ground (arith, length-escape n)

length-spell : (names : List (List ℕ)) → All IsName names → length names ≤ length (spell names)
unfolding spell
length-spell [] h = omega arith
length-spell (n ∷ []) h = omega (arith, length-escape n)
length-spell (n ∷ n' ∷ names) h = omega (
  arith,
  length-escape n,
  length-append (escape n) (slash ∷ spell (n' ∷ names)),
  length-spell (n' ∷ names) h.1,
)

start_relative :
    (fs : Vfs) (pwd : ℕ) (names : List (List ℕ))
    → All IsName names
    → start fs pwd (spell names) ≡ (pwd, spell names)
unfolding start spell escape
start_relative fs pwd [] h = refl
start_relative fs pwd ([] ∷ names) h = absurd (omega arith)
start_relative fs pwd ((c ∷ n) ∷ []) h = ground arith
start_relative fs pwd ((c ∷ n) ∷ n' ∷ names) h = ground arith

start_absolute :
    (fs : Vfs) (pwd : ℕ) (names : List (List ℕ))
    → All IsName names
    → start fs pwd (slash ∷ spell names) ≡ (fs.root, spell names)
unfolding start skip_slashes
start_absolute fs pwd names h = ap (λ p. (fs.root, p)) (skip-spell names h)

-- Given memory, a path that spells names of 1 to 30 characters is looked up name by name, from the
-- root directory behind a slash and from the current directory else, and its lookup ends as the
-- first name's does that fails.
pub lookup_path-walk :
    (fs : Vfs) (pwd : ℕ) (names : List (List ℕ))
    → All IsName names
    → (namespace_lookup_path fs true pwd (some (spell names)) ≡ some (walk fs pwd names))
      × (namespace_lookup_path fs true pwd (some (slash ∷ spell names))
          ≡ some (walk fs fs.root names))
unfolding namespace_lookup_path
lookup_path-walk fs pwd names named =
    let fuel = length-spell names named in
    (
      ap (λ s. lookup_loop (suc (length (spell names))) fs s.0 s.1)
            (start_relative fs pwd names named)
          ∙ lookup_loop-walk fs _ pwd names named (omega arith),
      ap (λ s. lookup_loop (suc (suc (length (spell names)))) fs s.0 s.1)
            (start_absolute fs pwd names named)
          ∙ lookup_loop-walk fs _ fs.root names named (omega arith),
    )

length-skip : (path : List ℕ) → length (skip_slashes path) ≤ length path
unfolding skip_slashes
length-skip [] = omega arith
length-skip (c ∷ path) = ground (arith, length-skip path)

length-start : (fs : Vfs) (pwd : ℕ) (path : List ℕ) → length (start fs pwd path).1 ≤ length path
unfolding start
length-start fs pwd [] = omega arith
length-start fs pwd (c ∷ path) = ground (arith, length-skip (c ∷ path))

Component-cases :
    (r : Component)
    → (r ≡ invalid) ⊎ ((name : List ℕ) × (rest : List ℕ) × (r ≡ component name rest))
Component-cases invalid = inl refl
Component-cases (component name rest) = inr (name, rest, refl)

continue_total : (fs : Vfs) (r l : Lookup) → (l' : Lookup) × (continue fs r (some l) ≡ some l')
unfolding continue
continue_total fs r l = (if not (r.err == 0) then r else if r.obj == 0 then r else l, ground arith)

lookup_loop_total :
    (fs : Vfs) (fuel dir : ℕ) (path : List ℕ)
    → length path ≤ fuel
    → (r : Lookup) × (lookup_loop fuel fs dir path ≡ some r)
lookup_loop_total fs fuel dir [] h =
    (record { err = e_none; obj = dir }, unfold lookup_loop in refl)
lookup_loop_total fs zero dir (c ∷ path) h = absurd (omega arith)
lookup_loop_total fs (suc fuel) dir (c ∷ path) h =
    elim (Component-cases (namespace_deescape_path (c ∷ path))) [
      | inl e ↦ (record { err = e_inval; obj = dir }, lookup_invalid fs fuel dir c path e)
      | inr (name, rest, e) ↦
          let short = deescape_shorter c path name rest e in
          let r = namespace_lookup fs dir name in
          let next =
            lookup_loop_total fs fuel r.obj (skip_slashes rest) (omega (arith, length-skip rest)) in
          let all = continue_total fs r next.0 in
          (
            all.0,
            lookup_step fs fuel dir (c ∷ path) name rest (ground arith) e
                ∙ ap (continue fs r) next.1
                ∙ all.1,
          )
    ]

-- The lookup of any path ends.
pub lookup_path_total :
    (fs : Vfs) (has_memory : Bool) (pwd : ℕ) (path : Option (List ℕ))
    → (r : Lookup) × (namespace_lookup_path fs has_memory pwd path ≡ some r)
unfolding namespace_lookup_path
lookup_path_total fs has_memory pwd none = (_, refl)
lookup_path_total fs false pwd (some path) = (_, refl)
lookup_path_total fs true pwd (some path) =
    lookup_loop_total fs (suc (length path)) _ (start fs pwd path).1
      (omega (arith, length-start fs pwd path))
