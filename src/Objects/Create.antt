-- ===== src/Objects/Create.antt =====
-- `create`: the new object's reference and handle, and what a driver's refusal leaves.
use tensix.Base.{
  if◌then◌else◌, ◌==◌, not, ◌&&◌, Bool, true, false, ◌<◌, length, ℕ, suc, ◌≡◌, ◌≢◌, ◌⊎◌, inl, inr,
  refl, ap, sym, true, false, List, [], ◌∷◌, ◌++◌, Option, none, some, ==_refl, ==_ne,
}
use tensix.Namespace.{name_max, e_none, e_nomem, e_notfound}
use tensix.Files.{sarray_add, obj_ref, set_objects}
use tensix.Channels.{connected}
use tensix.Objects.{Vfs, Answer, obj_create, with_files, register, create, type_file, type_dir}
use tensix.Objects.RoundTrip.{
  Ready, Made, made, Made-made, obj_suballoc_eq, Restored, obj_free-obj_suballoc,
}

-- The new object `o` in `v'`: its one reference, its place among the objects, and either a handle of
-- the process or, with ENOMEM, none.
pub record Created (v v' : Vfs) (current o err : ℕ) : Type 0 where
  pub refcnt : v'.iod.files.refcnt o ≡ 1
  pub used : v'.iod.cache.objects ≡ v.iod.cache.objects ++ (o ∷ [])
  pub handle :
      ((err ≡ e_none)
        × (sarray_add (v.iod.files.objects current) o ≡ some (v'.iod.files.objects current)))
      ⊎ ((err ≡ e_nomem)
          × (sarray_add (v.iod.files.objects current) o ≡ none)
          × (v'.iod.files.objects current ≡ v.iod.files.objects current))

-- The two ends of `register`.
registered : Vfs → ℕ → ℕ → Option (List ℕ) → ℕ × ℕ × Vfs
registered w current o r =
    let f = obj_ref w.iod.files o in
    elim r [
      | none ↦ (e_nomem, o, with_files w f)
      | some slots ↦ (e_none, o, with_files w (set_objects f current slots))
    ]

Ends : Vfs → ℕ → ℕ → ℕ × ℕ × Vfs → Type 0
Ends v current o r = (r.1 ≡ o) × Created v r.2 current o r.0

module _ (v w : Vfs) (current parent ident : ℕ) (name : List ℕ) (o d : ℕ) (os ds : List ℕ)
    (m : Made v w parent ident name o d os ds) where
  registered-Ends :
      (r : Option (List ℕ))
      → sarray_add (v.iod.files.objects current) o ≡ r
      → Ends v current o (registered w current o r)
  unfolding registered Ends obj_ref
  registered-Ends none e = (
    refl,
    record {
      refcnt = rw (==_refl, m.unreferenced) refl;
      used = m.used;
      handle = inr (refl, e, ap (λ (h : ℕ → List ℕ). h current) m.handles);
    },
  )
  registered-Ends (some slots) e = (
    refl,
    record {
      refcnt = rw (==_refl, m.unreferenced) refl;
      used = m.used;
      handle = inl (refl, rw ==_refl e);
    },
  )

  register-Ends : Ends v current o (register w current o)
  unfolding register registered obj_ref
  register-Ends =
      registered-Ends (sarray_add (w.iod.files.objects current) o)
        (ap (λ (h : ℕ → List ℕ). sarray_add (h current) o) (sym m.handles))

-- The type of a directory and of a file, which `create` accepts.
abbrev pub type_of : Bool → ℕ
type_of is_dir = if is_dir then type_dir else type_file

-- `create` in a directory with that operation, of a name for which the lookup answered ENOTFOUND and
-- no object and left the state `v`.
abbrev pub create_new : ℕ → Vfs → ℕ → ℕ → Bool → List ℕ → ℕ → Answer
create_new fuel v current dir is_dir name io =
    create fuel v current dir (type_of is_dir) name true (e_notfound, 0, v) io

type_of_good :
    (is_dir : Bool)
    → (not (type_of is_dir == type_file) && not (type_of is_dir == type_dir)) ≡ false
type_of_good true = refl
type_of_good false = refl

module _ (fuel : ℕ) (v : Vfs) (current dir : ℕ) (is_dir : Bool) (name : List ℕ) (o d : ℕ)
    (os ds : List ℕ) (a : Ready v dir o d os ds) (fits : length name < name_max) where
  -- `create` of a file or a directory with a name of less than NAME_MAX characters, in a directory that
  -- has the operation, where the lookup answered ENOTFOUND and no object, with unused records at hand
  -- and a driver that agrees, makes an object with one reference. Where the process has an unused
  -- slot, that holds the object. Where it has none, the answer is ENOMEM, but the object stays in use
  -- and referenced, without a handle.
  pub create_lem :
      (err : ℕ) × (v' : Vfs) × (create_new fuel v current dir is_dir name 0 ≡ some (err, o, v'))
      × Created v v' current o err
  unfolding create obj_create Ends
  create_lem =
      let w = made v dir 0 name o d os ds in
      let m = Made-made v dir 0 name o d os ds a.other in
      let r = register w current o in
      let ends = register-Ends v w current dir 0 name o d os ds m in
      (
        r.0,
        r.2,
        rw (type_of_good is_dir, obj_suballoc_eq v dir 0 name o d os ds a fits, ==_ne o 0 a.an_obj)
            (ap (λ q. some (r.0, q, r.2)) ends.0),
        ends.1,
      )

  -- Where the driver refuses with `io` in a directory that is not persistent, and no inactive channel
  -- is connected to the new object, `create` answers `io` and no object, and the pools, their lists,
  -- the directory's entries and the count of objects are as they were.
  pub create-Restored :
      (io : ℕ)
      → io ≢ 0
      → (v.node dir).persistent ≡ false
      → connected (suc fuel) v.iod o v.iod.inactive.first ≡ some 0
      → (v' : Vfs) × (create_new (suc fuel) v current dir is_dir name io ≡ some (io, 0, v'))
        × Restored v v' dir
  unfolding create obj_create
  create-Restored io nio ep ec =
      let (w, v', made_it, freed, back) =
        obj_free-obj_suballoc fuel v current dir 0 name o d os ds a fits ep ec in
      (
        v',
        rw (type_of_good is_dir, made_it, ==_ne o 0 a.an_obj, ==_ne io 0 nio, freed)
            (rw (==_ne io 0 nio) refl),
        back,
      )
