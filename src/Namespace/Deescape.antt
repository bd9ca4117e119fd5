-- ===== src/Namespace/Deescape.antt =====
-- `namespace_deescape_path`: the bounds of the name buffer, and names that come back unchanged.
use Prim.Native.Nat.{pred}
use tensix.Base.{
  ℕ, suc, ◌+◌, ◌<◌, ◌≤◌, ◌≡◌, inl, inr, ◌∙◌, ap, subst, sym, refl, arith, Bool, true, false, ◌||◌,
  List, [], ◌∷◌, ◌++◌, append-nil, append_assoc, ◌==◌, if◌then◌else◌, length, length-append,
  Bool-cases, ==_ne,
}
use tensix.Namespace.{
  name_max, slash, backslash, Component, invalid, component, deescape_loop, namespace_deescape_path,
}

-- A name with a backslash before each slash and backslash.
unfoldable pub escape : List ℕ → List ℕ
escape [] = []
escape (c ∷ name) =
    if (c == slash) || (c == backslash) then backslash ∷ c ∷ escape name else c ∷ escape name

abbrev Fits : Component → Type 0
Fits invalid = Unit
Fits (component name rest) = length name < name_max

-- A predicate holds of a choice if it holds of each branch where that is taken.
by_branch :
    (Q : Component → Type 0) (b : Bool) (x y : Component)
    → (b ≡ true → Q x)
    → (b ≡ false → Q y)
    → Q (if b then x else y)
by_branch Q true x y f g = f refl
by_branch Q false x y f g = g refl

longer : (to : List ℕ) (c : ℕ) → length (to ++ (c ∷ [])) ≡ length to + 1
longer to c = length-append to (c ∷ [])

deescape_loop-Fits : (to path : List ℕ) → length to < name_max → Fits (deescape_loop to path)
unfolding deescape_loop
deescape_loop-Fits to [] h = by_branch Fits (length to + 1 == name_max) invalid _ (λ e. tt) (λ e. h)
deescape_loop-Fits to (c ∷ []) h =
    by_branch Fits (c == backslash) invalid _ (λ e. tt)
      λ e.
        by_branch Fits (c == slash) (component to []) _ (λ e. h)
          λ e.
            by_branch Fits (length to + 1 == name_max) invalid _ (λ e. tt)
              λ e. deescape_loop-Fits (to ++ (c ∷ [])) [] (ground (arith, longer to c))
deescape_loop-Fits to (c ∷ d ∷ path) h =
    by_branch Fits (c == backslash) _ _
      (λ e.
        by_branch Fits (length to + 1 == name_max) invalid _ (λ e. tt)
          λ e. deescape_loop-Fits (to ++ (d ∷ [])) path (ground (arith, longer to d)))
      λ e.
        by_branch Fits (c == slash) (component to (d ∷ path)) _ (λ e. h)
          λ e.
            by_branch Fits (length to + 1 == name_max) invalid _ (λ e. tt)
              λ e. deescape_loop-Fits (to ++ (c ∷ [])) (d ∷ path) (ground (arith, longer to c))

abbrev Leaves : ℕ → Component → Type 0
Leaves n invalid = Unit
Leaves n (component name rest) = length rest ≤ n

Leaves-mono : (n k : ℕ) (r : Component) → n ≤ k → Leaves n r → Leaves k r
Leaves-mono n k invalid h l = tt
Leaves-mono n k (component name rest) h l = omega arith

deescape_loop-Leaves : (to path : List ℕ) → Leaves (pred (length path)) (deescape_loop to path)
unfolding deescape_loop
deescape_loop-Leaves to [] =
    by_branch (Leaves 0) (length to + 1 == name_max) invalid _ (λ e. tt) (λ e. omega arith)
deescape_loop-Leaves to (c ∷ []) =
    by_branch (Leaves 0) (c == backslash) invalid _ (λ e. tt)
      λ e.
        by_branch (Leaves 0) (c == slash) (component to []) _ (λ e. omega arith)
          λ e.
            by_branch (Leaves 0) (length to + 1 == name_max) invalid _ (λ e. tt)
              λ e. deescape_loop-Leaves (to ++ (c ∷ [])) []
deescape_loop-Leaves to (c ∷ d ∷ path) =
    let n = suc (length path) in
    by_branch (Leaves n) (c == backslash) _ _
      (λ e.
        by_branch (Leaves n) (length to + 1 == name_max) invalid _ (λ e. tt)
          λ e. Leaves-mono _ n _ (omega arith) (deescape_loop-Leaves (to ++ (d ∷ [])) path))
      λ e.
        by_branch (Leaves n) (c == slash) (component to (d ∷ path)) _ (λ e. omega arith)
          λ e.
            by_branch (Leaves n) (length to + 1 == name_max) invalid _ (λ e. tt)
              λ e.
                Leaves-mono _ n _ (omega arith) (deescape_loop-Leaves (to ++ (c ∷ [])) (d ∷ path))

-- A path that is not empty gets shorter by each component.
pub deescape_shorter :
    (c : ℕ) (path name rest : List ℕ)
    → namespace_deescape_path (c ∷ path) ≡ component name rest
    → length rest ≤ length path
unfolding namespace_deescape_path
deescape_shorter c path name rest e =
    subst (Leaves (length path)) e (deescape_loop-Leaves [] (c ∷ path))

-- A component that `namespace_deescape_path` accepts fits the name buffer with its zero.
pub deescape_fits :
    (path name rest : List ℕ)
    → namespace_deescape_path path ≡ component name rest
    → length name + 1 ≤ name_max
unfolding namespace_deescape_path
deescape_fits path name rest e =
    let fits : length name < name_max = subst Fits e (deescape_loop-Fits [] path (omega arith)) in
    omega arith

-- A character that is neither slash nor backslash is copied.
plain_step :
    (to path : List ℕ) (c : ℕ)
    → (c == backslash) ≡ false
    → (c == slash) ≡ false
    → (length to + 1 == name_max) ≡ false
    → deescape_loop to (c ∷ path) ≡ deescape_loop (to ++ (c ∷ [])) path
unfolding deescape_loop
plain_step to [] c e f g = rw (e, f, g)
plain_step to (d ∷ path) c e f g = rw (e, f, g)

escaped_step :
    (to path : List ℕ) (d : ℕ)
    → (length to + 1 == name_max) ≡ false
    → deescape_loop to (backslash ∷ d ∷ path) ≡ deescape_loop (to ++ (d ∷ [])) path
unfolding deescape_loop
escaped_step to path d g = rw g

or_cases : (a b : Bool) → (a || b) ≡ false → (a ≡ false) × (b ≡ false)
or_cases a b e = ground arith

-- The loop takes an escaped name to the buffer as it was before escaping.
deescape_loop-escape :
    (to name t : List ℕ)
    → length to + length name < name_max
    → deescape_loop to (escape name ++ t) ≡ deescape_loop (to ++ name) t
unfolding escape
deescape_loop-escape to [] t h = ap (λ z. deescape_loop z t) (sym (append-nil to))
deescape_loop-escape to (c ∷ name) t h =
    let room : (length to + 1 == name_max) ≡ false = ==_ne _ name_max (omega arith) in
    let rest = deescape_loop-escape (to ++ (c ∷ [])) name t (omega (arith, longer to c)) in
    let assoc = ap (λ z. deescape_loop z t) (append_assoc to (c ∷ []) name) in
    elim (Bool-cases ((c == slash) || (c == backslash))) [
      | inl special ↦ rw special (escaped_step to (escape name ++ t) c room ∙ rest ∙ assoc)
      | inr plain ↦
          let (ns, nb) = or_cases (c == slash) (c == backslash) plain in
          rw plain (plain_step to (escape name ++ t) c nb ns room ∙ rest ∙ assoc)
    ]

slash_step : (to rest : List ℕ) → deescape_loop to (slash ∷ rest) ≡ component to rest
unfolding deescape_loop
slash_step to [] = refl
slash_step to (d ∷ rest) = refl

-- A name of at most 31 characters comes back from its escaped form before a slash.
pub deescape-escape-slash :
    (name rest : List ℕ)
    → length name < name_max
    → namespace_deescape_path (escape name ++ (slash ∷ rest)) ≡ component name rest
unfolding namespace_deescape_path
deescape-escape-slash name rest h =
    deescape_loop-escape [] name (slash ∷ rest) (omega arith) ∙ slash_step name rest

-- At the path's end the zero counts too.
pub deescape-escape_end :
    (name : List ℕ)
    → length name < name_max
    → namespace_deescape_path (escape name)
      ≡ (if length name + 1 == name_max then invalid else component name [])
unfolding namespace_deescape_path
deescape-escape_end name h =
    ap (deescape_loop []) (sym (append-nil (escape name)))
    ∙ deescape_loop-escape [] name [] (omega arith)
    ∙ (unfold deescape_loop in refl)

-- A name of at most 31 characters comes back from its escaped form before a slash. At the path's end
-- one of up to 30 comes back, and one of 31 is refused.
pub deescape-escape :
    (name rest : List ℕ)
    → length name < name_max
    → (namespace_deescape_path (escape name ++ (slash ∷ rest)) ≡ component name rest)
      × (namespace_deescape_path (escape name)
          ≡ (if length name + 1 == name_max then invalid else component name []))
deescape-escape name rest h = (deescape-escape-slash name rest h, deescape-escape_end name h)
