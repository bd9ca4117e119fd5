-- ===== src/Memfs.antt =====
-- fs/memfs/memfs.c, over the objects of Objects.antt: what memfs_create marks, and the reading of a
-- directory. Of a directory handle there is `next`, an entry's address, 0 for NULL; the records that
-- `dirents` lists are linked in that order. memfs's other operations have nothing to do; memfs_io and
-- memfs_truncate, which mark buffers, are left out.
pub mod Listing
pub mod Remove
mod Example
use tensix.Base.{
  ℕ, zero, suc, Bool, true, false, List, [], ◌∷◌, Option, none, some, ◌==◌, if◌then◌else◌,
}
use tensix.Namespace.{e_none, e_notfound}
use tensix.Objects.{Vfs, Inode, Dirent, obj_of, set_node}

unfoldable pub memfs_create : Vfs → ℕ → ℕ × Vfs
memfs_create v o = (e_none, set_node v o (record (v.node o) { persistent = true }))

-- The first entry of a list, and the one behind `d`.
unfoldable pub first_of : List ℕ → ℕ
first_of [] = 0
first_of (d ∷ ds) = d

unfoldable pub next_of : ℕ → List ℕ → ℕ
next_of d [] = 0
next_of d (x ∷ ds) = if x == d then first_of ds else next_of d ds

-- `next` before and after
unfoldable pub memfs_dir_open : Vfs → ℕ → ℕ → ℕ
memfs_dir_open v dir next =
    let first = first_of (v.node dir).dirents in if first == 0 then next else first

-- What is written to the caller's entry: the name and the size.
pub record Found : Type 0 where
  pub name : List ℕ
  pub size : ℕ

-- The code, what it found, and `next`.
unfoldable pub memfs_dir_read : Vfs → ℕ → ℕ × Option Found × ℕ
memfs_dir_read v next =
    let o = (v.dirent next).obj in
    let objde = (v.node o).dirent in
    let found : Found = record { name = (v.dirent objde).name; size = (obj_of v o).bytes } in
    if next == 0
    then (e_notfound, none, next)
    else (e_none, some found, next_of objde (v.node (v.node o).parent).dirents)
