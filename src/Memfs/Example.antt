-- ===== src/Memfs/Example.antt =====
-- The theorems on memfs at the directory 1 with the files 2 and 3, whose entries are 60 and 61.
use tensix.Base.{
  ◌+◌, ◌≡◌, refl, arith, true, false, [], ◌∷◌, All, Distinct, some, ◌==◌, if◌then◌else◌,
}
use tensix.Queue.{header}
use tensix.Objects.{Vfs}
use tensix.Memfs.{memfs_dir_open}
use tensix.Memfs.Listing.{IsEntry, read_all, entries, read_all-open}

abbrev vfs : Vfs
vfs = record {
  iod = record {
    heap = λ q. record { prev = 0; next = 0 };
    active = header 0 0;
    inactive = header 0 0;
    pool = record { used = header 0 0; unused = header 0 0; area = 5 };
    chan = λ q. record {
      from = 0;
      to = 0;
      blk_from = 0;
      blk_to = 0;
      dstbuf = 0;
      dstrest = 0;
      flags = 0;
    };
    polling = 0;
    files = record { refcnt = λ o. 0; objects = λ p. 0 ∷ [] };
    cache = record {
      buf = λ b. record { obj = 2; blk = 0; len = 0; refcnt = 0; dirty = false; fresh = false };
      obj = λ o. record {
        stream = false;
        cached = true;
        has_io = true;
        has_dirent = true;
        size = 1;
        bytes = o + 10;
        blksize = 256;
        buffers = [];
        dirtybufs = 0;
      };
      unused = [];
      objects = 1 ∷ 2 ∷ 3 ∷ [];
      in_use = 0;
    };
  };
  node = λ o. record {
    parent = 1;
    ident = 0;
    dirent = if o == 2 then 60 else 61;
    dirents = if o == 1 then 60 ∷ 61 ∷ [] else [];
    persistent = false;
  };
  dirent = λ d. record { obj = if d == 60 then 2 else 3; ident = 0; name = (d + 37) ∷ [] };
  obj_unused = [];
  dirent_unused = [];
  in_use = 3;
}

entries-IsEntry : All (IsEntry vfs 1) (60 ∷ 61 ∷ [])
entries-IsEntry = (record { own = refl; inside = refl }, (record { own = refl; inside = refl }, tt))

dirents-Distinct : Distinct (60 ∷ 61 ∷ [])
dirents-Distinct = (omega arith, refl, (omega arith, refl, tt))

read_all-open_example : read_all 3 vfs (memfs_dir_open vfs 1 7) ≡ some (entries vfs (60 ∷ 61 ∷ []))
read_all-open_example = read_all-open vfs 1 dirents-Distinct 7 (omega arith) entries-IsEntry
