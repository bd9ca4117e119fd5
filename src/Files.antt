-- ===== src/Files.antt =====
-- array.c, include/array.h and the handles of kern/io/fs.c: which process holds which object.
-- A process's `objects` is the list of its slots, 0 for an unused one. The reference counts are
-- bytes. Without DIAGNOSTICS, `OBJ_UNREF` only counts down.
pub mod Slots
pub mod Counted
pub mod Release
mod Example
use tensix.Base.{
  ℕ, zero, suc, ◌+◌, ◌%◌, ◌^◌, Bool, true, false, List, [], ◌∷◌, Option, none, some, ◌==◌,
  if◌then◌else◌, get_or, length,
}
use tensix.Namespace.{e_none, e_nomem}

-- `_sarray_add` and the write to the slot that it found; `none` where there is no unused slot. Only
-- a slot's low half is looked at (of a little-endian machine).
unfoldable pub sarray_add : List ℕ → ℕ → Option (List ℕ)
sarray_add [] obj = none
sarray_add (slot ∷ slots) obj =
    let rest = sarray_add slots obj in
    if slot % 2 ^ 16 == 0
    then some (obj ∷ slots)
    else (elim rest [ none ↦ none | some slots' ↦ some (slot ∷ slots') ])

-- `SARRAY_ERASEQ`: the first slot that holds the object.
unfoldable pub sarray_eraseq : List ℕ → ℕ → List ℕ
sarray_eraseq [] obj = []
sarray_eraseq (slot ∷ slots) obj =
    let rest = sarray_eraseq slots obj in
    if slot == 0 then slot ∷ rest else if slot == obj then 0 ∷ slots else slot ∷ rest

-- The objects' reference counts, and the slots of the processes, whose ids are below `procs`.
pub record Files : Type 0 where
  pub refcnt : ℕ → ℕ
  pub objects : ℕ → List ℕ

-- `OBJ_REF` and `OBJ_UNREF`
unfoldable pub obj_ref : Files → ℕ → Files
obj_ref f obj = record f { refcnt = λ o. if o == obj then (f.refcnt obj + 1) % 256 else f.refcnt o }

unfoldable pub obj_unref : Files → ℕ → Files
obj_unref f obj = record f {
  refcnt = λ o. if o == obj then (f.refcnt obj + 255) % 256 else f.refcnt o;
}

abbrev pub set_objects : Files → ℕ → List ℕ → Files
set_objects f proc slots = record f { objects = λ p. if p == proc then slots else f.objects p }

-- `FS_ALLOCOBJHDL`, the write to the slot and `OBJ_REF`, by which `open2` and the I/O daemon take
-- hold of an object.
unfoldable pub hold : Files → ℕ → ℕ → ℕ × Files
hold f proc obj = elim (sarray_add (f.objects proc) obj) [
  | none ↦ (e_nomem, f)
  | some slots ↦ (e_none, obj_ref (set_objects f proc slots) obj)
]

-- `open2`, of the process `proc`
unfoldable pub open2 : Files → ℕ → ℕ → ℕ × Files
open2 f proc obj = hold f proc obj

unfoldable pub closep : Files → ℕ → ℕ → Files
closep f obj proc =
    if obj == 0 then f else obj_unref (set_objects f proc (sarray_eraseq (f.objects proc) obj)) obj

-- The loop of `fs_kill_proc` over the process's objects, without those over its directories and its
-- buffers: `left` slots from the slot `i` on.
unfoldable pub close_slots : Files → ℕ → ℕ → ℕ → Files
close_slots f proc i zero = f
close_slots f proc i (suc left) =
    close_slots (closep f (get_or (f.objects proc) i 0) proc) proc (suc i) left

unfoldable pub kill_objects : Files → ℕ → Files
kill_objects f proc = close_slots f proc 0 (length (f.objects proc))
