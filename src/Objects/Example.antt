-- ===== src/Objects/Example.antt =====
-- The theorems on objects where 1 is a directory with the file 2, whose entry is 60, and the object 7
-- and the entry 70 are unused.
use tensix.Base.{ℕ, ◌≡◌, refl, arith, Bool, true, false, List, [], ◌∷◌, some, ◌==◌, if◌then◌else◌}
use tensix.Namespace.{e_none}
use tensix.Queue.{header}
use tensix.Buffers.{Cache}
use tensix.Channels.{Iod, connected}
use tensix.Objects.{Vfs, obj_suballoc, obj_free, obj_unlink}
use tensix.Objects.RoundTrip.{Ready, Restored, obj_free-obj_suballoc}
use tensix.Objects.Unlink.{Unlinked, obj_unlink_frees_twice}
use tensix.Objects.Create.{Created, create_new, create_lem}

-- The file 2 has the buffers `bs`.
abbrev cache : List ℕ → Cache
cache bs = record {
  buf = λ b. record { obj = 2; blk = 0; len = 0; refcnt = 0; dirty = false; fresh = false };
  obj = λ o. record {
    stream = false;
    cached = true;
    has_io = true;
    has_dirent = true;
    size = 0;
    bytes = 0;
    blksize = 512;
    buffers = if o == 2 then bs else [];
    dirtybufs = 0;
  };
  unused = [];
  objects = 1 ∷ 2 ∷ [];
  in_use = 2;
}

abbrev iod : Iod
iod = record {
  heap = λ q. record { prev = 0; next = 0 };
  active = header 0 0;
  inactive = header 0 0;
  pool = record { used = header 0 0; unused = header 0 0; area = 5 };
  chan = λ q. record {
    from = 0;
    to = 0;
    blk_from = 0;
    blk_to = 0;
    dstbuf = 0;
    dstrest = 0;
    flags = 0;
  };
  polling = 0;
  files = record { refcnt = λ o. 0; objects = λ p. 0 ∷ [] };
  cache = cache [];
}

abbrev vfs : Bool → Vfs
vfs persistent = record {
  iod = iod;
  node = λ o. record {
    parent = if o == 2 then 1 else 0;
    ident = 0;
    dirent = if o == 2 then 60 else 0;
    dirents = if o == 1 then 60 ∷ [] else [];
    persistent = persistent;
  };
  dirent = λ d. record { obj = 2; ident = 0; name = 97 ∷ [] };
  obj_unused = 7 ∷ [];
  dirent_unused = 70 ∷ [];
  in_use = 2;
}

vfs-Ready : Ready (vfs false) 1 7 70 [] []
vfs-Ready = record {
  obj_pool = refl;
  dirent_pool = refl;
  an_obj = omega arith;
  a_dirent = omega arith;
  a_parent = omega arith;
  other = omega arith;
  unlisted = ground arith;
  no_entry = ground arith;
}

unconnected : (o : ℕ) → connected 1 iod o 0 ≡ some 0
unfolding connected
unconnected o = refl

obj_free-obj_suballoc_example :
    (w v' : Vfs) × (obj_suballoc (vfs false) 1 3 (98 ∷ []) ≡ some (7, w))
    × (obj_free 1 w 0 7 ≡ some v')
    × Restored (vfs false) v' 1
obj_free-obj_suballoc_example =
    obj_free-obj_suballoc 0 (vfs false) 0 1 3 (98 ∷ []) 7 70 [] [] vfs-Ready (omega arith) refl
      (unconnected 7)

obj_unlink_frees_twice_example :
    (v' : Vfs) × (obj_unlink 1 (vfs false) 0 2 true 0 ≡ some (e_none, v'))
    × Unlinked (vfs false) v' 2 60
obj_unlink_frees_twice_example =
    obj_unlink_frees_twice 0 (vfs false) 0 2 refl (omega arith) (omega arith) (unconnected 2) refl

create_lem_example :
    (err : ℕ) × (v' : Vfs) × (create_new 1 (vfs false) 0 1 true (98 ∷ []) 0 ≡ some (err, 7, v'))
    × Created (vfs false) v' 0 7 err
create_lem_example = create_lem 1 (vfs false) 0 1 true (98 ∷ []) 7 70 [] [] vfs-Ready (omega arith)
