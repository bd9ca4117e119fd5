-- ===== src/Memfs/Listing.antt =====
-- Reading a directory from its opening to the end.
use tensix.Base.{
  ℕ, zero, suc, ◌<◌, ◌≡◌, ◌≢◌, ◌∙◌, refl, ap, sym, subst, arith, Bool, List, [], ◌∷◌, ◌++◌,
  append_assoc, Option, none, some, length, if◌then◌else◌, All, Distinct, mem-ne, mem_self,
  mem-append_right, ==_refl, ==_ne,
}
use tensix.Namespace.{e_none, e_notfound}
use tensix.Objects.{Vfs, obj_of}
use tensix.Memfs.{Found, first_of, next_of, memfs_dir_open, memfs_dir_read}

-- A caller that reads until it gets no entry, on fuel.
unfoldable pub read_all : ℕ → Vfs → ℕ → Option (List Found)
read_all zero v next = none
read_all (suc fuel) v next =
    let (err, found, after) = memfs_dir_read v next in
    let rest = read_all fuel v after in
    elim found [ none ↦ some [] | some f ↦ (elim rest [ none ↦ none | some fs ↦ some (f ∷ fs) ]) ]

-- An entry of the directory `dir`.
pub record IsEntry (v : Vfs) (dir d : ℕ) : Type 0 where
  pub own : (v.node (v.dirent d).obj).dirent ≡ d
  pub inside : (v.node (v.dirent d).obj).parent ≡ dir

-- What the entry holds.
unfoldable pub entry : Vfs → ℕ → Found
entry v d = record { name = (v.dirent d).name; size = (obj_of v (v.dirent d).obj).bytes }

unfoldable pub entries : Vfs → List ℕ → List Found
entries v [] = []
entries v (d ∷ ds) = entry v d ∷ entries v ds

next_of-append :
    (before : List ℕ) (d : ℕ) (ds : List ℕ)
    → Distinct (before ++ (d ∷ ds))
    → next_of d (before ++ (d ∷ ds)) ≡ first_of ds
unfolding next_of
next_of-append [] d ds o = rw ==_refl refl
next_of-append (x ∷ before) d ds o =
    rw (mem-ne d x (before ++ (d ∷ ds)) (mem-append_right d before (d ∷ ds) (mem_self d ds)) o.1)
      (next_of-append before d ds o.2)

not_null : (before : List ℕ) (d : ℕ) (ds : List ℕ) → Distinct (before ++ (d ∷ ds)) → d ≢ 0
not_null [] d ds o = o.0
not_null (x ∷ before) d ds o = not_null before d ds o.2

first_there : (ds : List ℕ) → 0 < length ds → Distinct ds → first_of ds ≢ 0
unfolding first_of
first_there [] h o = absurd (omega arith)
first_there (d ∷ ds) h o = o.0

-- What one read answers, behind its test.
answer : Vfs → ℕ → Bool → ℕ × Option Found × ℕ
answer v d end =
    let o = (v.dirent d).obj in
    let objde = (v.node o).dirent in
    if end then (e_notfound, none, d) else (
      e_none,
      some (record { name = (v.dirent objde).name; size = (obj_of v o).bytes }),
      next_of objde (v.node (v.node o).parent).dirents,
    )

module _ (v : Vfs) (dir : ℕ) (once : Distinct (v.node dir).dirents) where
  read_entry :
      (before : List ℕ) (d : ℕ) (ds : List ℕ)
      → (v.node dir).dirents ≡ before ++ (d ∷ ds)
      → IsEntry v dir d
      → memfs_dir_read v d ≡ (e_none, some (entry v d), first_of ds)
  unfolding memfs_dir_read answer entry
  read_entry before d ds e i =
      let once' = subst Distinct e once in
      let o = (v.dirent d).obj in
      ap (answer v d) (==_ne d 0 (not_null before d ds once'))
      ∙ ap
          (λ objde. (
            e_none,
            some (record { name = (v.dirent objde).name; size = (obj_of v o).bytes }),
            next_of objde (v.node (v.node o).parent).dirents,
          ))
          i.own
      ∙ ap (λ p. (e_none, some (entry v d), next_of d (v.node p).dirents)) i.inside
      ∙ ap (λ l. (e_none, some (entry v d), next_of d l)) e
      ∙ ap (λ q. (e_none, some (entry v d), q)) (next_of-append before d ds once')

  continue : ℕ → ℕ × Option Found × ℕ → Option (List Found)
  continue fuel r = elim r.1 [
    | none ↦ some []
    | some f ↦ (elim (read_all fuel v r.2) [ none ↦ none | some fs ↦ some (f ∷ fs) ])
  ]

  read_from :
      (fuel : ℕ) (before ds : List ℕ)
      → (v.node dir).dirents ≡ before ++ ds
      → All (IsEntry v dir) ds
      → length ds < fuel
      → read_all fuel v (first_of ds) ≡ some (entries v ds)
  unfolding read_all entries continue first_of memfs_dir_read
  read_from zero before ds e i h = absurd (omega arith)
  read_from (suc fuel) before [] e i h = refl
  read_from (suc fuel) before (d ∷ ds) e i h =
      ap (continue fuel) (read_entry before d ds e i.0)
      ∙ ap (λ r. elim r [ none ↦ none | some fs ↦ some (entry v d ∷ fs) ])
          (read_from fuel (before ++ (d ∷ [])) ds (e ∙ sym (append_assoc before (d ∷ []) ds)) i.1
            (omega arith))

  -- A directory whose entries are distinct, not NULL, and each the entry of an object in that
  -- directory, and not empty, is read from its opening on entry by entry, in order and to the end,
  -- within one read more than it has entries, wherever the handle stood before.
  pub read_all-open :
      (next : ℕ)
      → 0 < length (v.node dir).dirents
      → All (IsEntry v dir) (v.node dir).dirents
      → read_all (suc (length (v.node dir).dirents)) v (memfs_dir_open v dir next)
        ≡ some (entries v (v.node dir).dirents)
  unfolding memfs_dir_open
  read_all-open next h i =
      let ds = (v.node dir).dirents in
      ap (λ (b : Bool). read_all (suc (length ds)) v (if b then next else first_of ds))
        (==_ne (first_of ds) 0 (first_there ds h once))
      ∙ read_from (suc (length ds)) [] ds refl i (omega arith)
