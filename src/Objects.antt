-- ===== src/Objects.antt =====
-- kern/io/obj.c, dirent_alloc and dirent_free of kern/io/obj_dir.c, obj_create and
-- obj_unlink of kern/io/obj_ops.c, and create and unlink of kern/io/fs.c: objects and their directory
-- entries. The buffers of an object and what depends on its class are an object of Buffers.antt, the
-- reference counts are those of Files.antt, and a freed object's channels are closed by Channels.antt.
-- A pool's unused records are a list, the last one first. What the drivers' operations and the
-- lookup answer is an argument, and so is whether a class has an operation. Locks, events and
-- messages are left out, and without DIAGNOSTICS the checks of obj_free are. Lists stand for the linked
-- records: of a record that is freed twice, they say that the pool hands it out twice, and not what its
-- links are after that.
pub mod Release
pub mod RoundTrip
pub mod Unlink
pub mod Create
mod Example
use tensix.Base.{
  ℕ, zero, suc, ◌+◌, ◌-◌, ◌%◌, Bool, true, false, not, ◌&&◌, ◌||◌, List, [], ◌∷◌, ◌++◌, Option,
  none, some, ◌==◌, ltb, length, if◌then◌else◌,
}
use tensix.Namespace.{name_max, e_none, e_nomem, e_inval, e_notsup, e_notfound}
use tensix.Buffers.{Obj, Cache, set_obj, unlink, bfree, count}
use tensix.Files.{Files, sarray_add, set_objects, obj_ref, obj_unref, open2, closep}
use tensix.Channels.{Iod, iod_obj_free}

abbrev pub e_busy : ℕ
e_busy = 6

abbrev pub e_exists : ℕ
e_exists = 11

-- `OBJ_TYPE_FILE` and `OBJ_TYPE_DIR`
abbrev pub type_file : ℕ
type_file = 1

abbrev pub type_dir : ℕ
type_dir = 2

-- The fields of `struct obj` that the other components do not have.
pub record Inode : Type 0 where
  pub parent : ℕ
  pub ident : ℕ
  pub dirent : ℕ
  pub dirents : List ℕ
  pub persistent : Bool

-- `struct dirent`
pub record Dirent : Type 0 where
  pub obj : ℕ
  pub ident : ℕ
  pub name : List ℕ

-- The I/O daemon with the cache and the reference counts, the objects, the directory entries, the
-- unused records of `obj_pool` and of `dirent_pool`, and `objects_in_use`.
pub record Vfs : Type 0 where
  pub iod : Iod
  pub node : ℕ → Inode
  pub dirent : ℕ → Dirent
  pub obj_unused : List ℕ
  pub dirent_unused : List ℕ
  pub in_use : ℕ

abbrev pub set_node : Vfs → ℕ → Inode → Vfs
set_node v o n = record v { node = λ q. if q == o then n else v.node q }

abbrev pub set_dirent : Vfs → ℕ → Dirent → Vfs
set_dirent v d e = record v { dirent = λ q. if q == d then e else v.dirent q }

abbrev pub obj_of : Vfs → ℕ → Obj
obj_of v o = v.iod.cache.obj o

abbrev pub put_obj : Vfs → ℕ → Obj → Vfs
put_obj v o object = record v { iod = record v.iod { cache = set_obj v.iod.cache o object } }

abbrev pub with_objects : Vfs → List ℕ → Vfs
with_objects v used = record v {
  iod = record v.iod { cache = record v.iod.cache { objects = used } };
}

-- The address, 0 for NULL.
unfoldable pub dirent_alloc : Vfs → ℕ → ℕ × Vfs
dirent_alloc v parent = elim v.dirent_unused [
  | [] ↦ (0, v)
  | d ∷ unused ↦
      let fresh : Dirent = record (v.dirent d) { name = [] } in
      let above = v.node parent in
      (
        d,
        set_node (set_dirent (record v { dirent_unused = unused }) d fresh) parent
            (record above { dirents = above.dirents ++ (d ∷ []) }),
      )
]

unfoldable pub dirent_free : Vfs → ℕ → Vfs
dirent_free v o =
    let d = (v.node o).dirent in
    let parent = (v.node o).parent in
    let above = v.node parent in
    record (set_node v parent (record above { dirents = unlink d above.dirents })) {
      dirent_unused = d ∷ v.dirent_unused;
    }

-- The descriptor `o` as `obj_alloc` initialises it; the class is the parent's, where there is one.
unfoldable pub init_obj : Vfs → ℕ → ℕ → Vfs
init_obj v o parent =
    let class = obj_of v (if parent == 0 then o else parent) in
    let bare : Obj = record (obj_of v o) {
      has_io = class.has_io;
      blksize = class.blksize;
      has_dirent = false;
      size = 0;
      bytes = 0;
      buffers = [];
      dirtybufs = 0;
    } in
    let v1 = put_obj v o bare in
    let v2 = set_node v1 o (record (v.node o) { parent = parent; dirent = 0; dirents = [] }) in
    let files = v.iod.files in
    record v2 {
      iod = record v2.iod {
        files = record files { refcnt = λ q. if q == o then 0 else files.refcnt q };
      };
    }

-- The directory entry `d` goes to the object `o`.
unfoldable pub attach : Vfs → ℕ → ℕ → Vfs
attach v o d =
    let v1 = set_node v o (record (v.node o) { dirent = d }) in
    let v2 = put_obj v1 o (record (obj_of v1 o) { has_dirent = true }) in
    set_dirent v2 d (record (v2.dirent d) { obj = o })

-- `obj_alloc` with the record `o` from the pool, where `unused` is what is left there.
unfoldable pub alloc_with : Vfs → ℕ → ℕ → List ℕ → ℕ × Vfs
alloc_with v parent o unused =
    let used = v.iod.cache.objects in
    let v1 =
      init_obj (with_objects (record v { obj_unused = unused }) (used ++ (o ∷ []))) o parent in
    let (d, v2) = dirent_alloc v1 parent in
    let v3 = attach v2 o d in
    if parent == 0
    then (o, record v1 { in_use = v1.in_use + 1 })
    else if d == 0
    then (0, with_objects (record v1 { obj_unused = o ∷ unused }) (unlink o (used ++ (o ∷ []))))
    else (o, record v3 { in_use = v3.in_use + 1 })

unfoldable pub obj_alloc : Vfs → ℕ → ℕ × Vfs
obj_alloc v parent = elim v.obj_unused [ [] ↦ (0, v) | o ∷ unused ↦ alloc_with v parent o unused ]

-- The end of `obj_suballoc`: the state is the parent's, the persistence included.
unfoldable pub name_obj : Vfs → ℕ → ℕ → ℕ → List ℕ → Vfs
name_obj v o parent ident name =
    let above = obj_of v parent in
    let n = v.node o in
    let v1 = put_obj v o (record (obj_of v o) { stream = above.stream; cached = above.cached }) in
    set_dirent (set_node v1 o (record n { ident = ident; persistent = (v.node parent).persistent }))
      n.dirent (record (v.dirent n.dirent) { ident = ident; name = name })

-- `none` where `strcpy` writes past the end of the entry's name.
unfoldable pub obj_suballoc : Vfs → ℕ → ℕ → List ℕ → Option (ℕ × Vfs)
obj_suballoc v parent ident name =
    let (o, v1) = obj_alloc v parent in
    if o == 0
    then some (0, v1)
    else if ltb (length name) name_max
    then some (o, name_obj v1 o parent ident name)
    else none

-- The loop of `obj_free_buffers` on fuel, `none` where that runs out.
unfoldable pub free_buffers : ℕ → Cache → ℕ → Option Cache
free_buffers zero c o = none
free_buffers (suc fuel) c o = elim (c.obj o).buffers [
  | [] ↦ some c
  | b ∷ bs ↦ free_buffers fuel (bfree c b) o
]

unfoldable pub obj_free_buffers : Cache → ℕ → Option Cache
obj_free_buffers c o = free_buffers (suc (count (c.obj o).buffers)) c o

-- The end of `obj_free`, behind the release of the buffers.
unfoldable pub release : Vfs → ℕ → Vfs
release v o =
    let v1 = if (v.node o).dirent == 0 then v else dirent_free v o in
    with_objects (record v1 { obj_unused = o ∷ v1.obj_unused; in_use = v1.in_use - 1 })
      (unlink o v1.iod.cache.objects)

-- `iod_obj_free` runs on fuel.
unfoldable pub obj_free : ℕ → Vfs → ℕ → ℕ → Option Vfs
obj_free fuel v current o = elim (v.node o).persistent [
  | true ↦ some v
  | false ↦ (elim (iod_obj_free fuel v.iod current o) [
    | none ↦ none
    | some iod ↦ (elim (obj_free_buffers iod.cache o) [
      | none ↦ none
      | some cache ↦ some (release (record v { iod = record iod { cache = cache } }) o)
    ])
  ])
]

-- The error code, `*retobj` (0 where it stays as it was) and the state; `none` where the fuel runs out
-- or the name does not fit. `io` is the driver's answer.
abbrev pub Answer : Type 0
Answer = Option (ℕ × ℕ × Vfs)

unfoldable pub obj_create : ℕ → Vfs → ℕ → ℕ → List ℕ → ℕ → Answer
obj_create fuel v current dir name io = elim (obj_suballoc v dir 0 name) [
  | none ↦ none
  | some (o, v1) ↦
      let failed : Answer = elim (obj_free fuel v1 current o) [
        | none ↦ none
        | some v2 ↦ some (io, 0, v2)
      ] in
      if o == 0 then some (e_nomem, 0, v1) else if io == 0 then some (e_none, o, v1) else failed
]

unfoldable pub obj_unlink : ℕ → Vfs → ℕ → ℕ → Bool → ℕ → Option (ℕ × Vfs)
obj_unlink fuel v current o has_unlink io =
    let removed : Option (ℕ × Vfs) = elim (obj_free fuel (dirent_free v o) current o) [
      | none ↦ none
      | some v1 ↦ some (e_none, v1)
    ] in
    if not has_unlink then some (e_notsup, v) else if io == 0 then removed else some (io, v)

abbrev pub with_files : Vfs → Files → Vfs
with_files v f = record v { iod = record v.iod { files = f } }

-- `create` from the new object on: the reference and the handle.
unfoldable pub register : Vfs → ℕ → ℕ → ℕ × ℕ × Vfs
register v current o =
    let f = obj_ref v.iod.files o in
    elim (sarray_add (f.objects current) o) [
      | none ↦ (e_nomem, o, with_files v f)
      | some slots ↦ (e_none, o, with_files v (set_objects f current slots))
    ]

-- `create` of fs.c: `lookup` is the code, the object (0 for NULL) and the state that the lookup of
-- the name in the directory answers.
unfoldable pub create : ℕ → Vfs → ℕ → ℕ → ℕ → List ℕ → Bool → ℕ × ℕ × Vfs → ℕ → Answer
create fuel v current dir type name has_create lookup io =
    let (code, found, v1) = lookup in
    let made : Answer = elim (obj_create fuel v1 current dir name io) [
      | none ↦ none
      | some (err, o, v2) ↦ some (if err == 0 then register v2 current o else (err, o, v2))
    ] in
    if not (type == type_file) && not (type == type_dir)
    then some (e_inval, 0, v)
    else if not has_create
    then some (e_notsup, 0, v)
    else if code == e_none
    then some (e_exists, found, v1)
    else if not (code == e_notfound)
    then some (code, found, v1)
    else if not (found == 0)
    then some (e_inval, found, with_files v1 (obj_unref v1.iod.files found))
    else made

-- `unlink` of fs.c, of the object `o` that the path leads to.
unfoldable pub unlink_obj : ℕ → Vfs → ℕ → ℕ → Bool → ℕ → Option (ℕ × Vfs)
unlink_obj fuel v current o has_unlink io =
    let (err, f1) = open2 v.iod.files current o in
    let v1 = with_files v (closep f1 o current) in
    let gone = obj_unlink fuel v1 current o has_unlink io in
    if not (err == 0) then some (err, v) else if f1.refcnt o == 1 then gone else some (e_busy, v1)
