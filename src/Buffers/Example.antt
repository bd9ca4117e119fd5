-- ===== src/Buffers/Example.antt =====
-- The theorems on the buffer cache where the object 1 has the buffers 8, 16 and 24, 8 is in use, 16
-- is dirty, 24 is idle, and 32 is an unused descriptor.
use tensix.Base.{ℕ, ◌≡◌, ◌≢◌, refl, arith, Bool, true, false, [], ◌∷◌, some, ◌==◌, if◌then◌else◌}
use tensix.Buffers.{Buf, Cache, Result, result, bread, reuse, bref, has_flag, io_create}
use tensix.Buffers.Lookup.{bread-bread}
use tensix.Buffers.Unread.{bref-unread}

abbrev block : ℕ → ℕ → Bool → Buf
block blk refcnt dirty = record {
  obj = 1;
  blk = blk;
  len = 512;
  refcnt = refcnt;
  dirty = dirty;
  fresh = false;
}

abbrev cache : Cache
cache = record {
  buf =
      λ b. if b == 8 then block 0 1 false else if b == 16 then block 1 0 true else block 2 0 false;
  obj = λ o. record {
    stream = false;
    cached = true;
    has_io = true;
    has_dirent = false;
    size = 8;
    bytes = 4096;
    blksize = 512;
    buffers = 8 ∷ 16 ∷ 24 ∷ [];
    dirtybufs = 1;
  };
  unused = 32 ∷ [];
  objects = 1 ∷ [];
  in_use = 3;
}

-- The driver fails with error 7 on the first read of block 5.
bread-bread_example :
    (r : Result) × (bread cache 256 1 5 false true 7 ≡ some r)
    × (r.buf ≢ 0)
    × (bread r.cache 256 1 5 false true 0 ≡ some (result 0 r.buf (reuse r.cache 1 r.buf)))
bread-bread_example =
    bread-bread cache 256 1 5 32 7 0 [] false false true refl refl refl (omega arith) refl

create_flag : has_flag 1 io_create ≡ true
unfolding has_flag
create_flag = refl

bref-unread_example :
    bref cache 256 1 5 1 false true true 0 ≡ bref cache 256 1 5 1 false true true 7
bref-unread_example =
    bref-unread cache 256 1 5 1 32 0 7 [] false true refl refl refl (omega arith) create_flag
