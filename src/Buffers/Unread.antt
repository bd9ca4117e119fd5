-- ===== src/Buffers/Unread.antt =====
-- `bref` of kern/io/fs.c with the flags of include/fs.h: which blocks it reads.
use tensix.Base.{
  ℕ, ◌≡◌, ◌≢◌, inl, inr, refl, ◌∙◌, sym, ap, arith, Bool, true, false, not, ◌||◌, List, ◌∷◌, some,
  ◌<◌, passes, passes-at, ◌∉◌,
}
use tensix.Buffers.{Obj, Cache, bread, bref, fill, read_code, io_create, io_zero, has_flag}
use tensix.Buffers.Lookup.{find-cases, bread_hit, bread_miss, create_in-Added}

read_code_zeroed :
    (object : Obj) (blk io : ℕ) → object.stream ≡ false → read_code object blk true io ≡ 0
unfolding read_code
read_code_zeroed object blk io plain = rw plain refl

fill_zeroed :
    (c : Cache) (o b blk io io2 : ℕ)
    → (c.obj o).stream ≡ false
    → fill c o b blk true io ≡ fill c o b blk true io2
unfolding fill
fill_zeroed c o b blk io io2 plain =
    rw (read_code_zeroed (c.obj o) blk io plain, read_code_zeroed (c.obj o) blk io2 plain) refl

bread_zeroed :
    (c : Cache) (streamsize o blk u io io2 : ℕ) (us : List ℕ)
    → (c.obj o).stream ≡ false
    → 0 ∉ (c.obj o).buffers
    → c.unused ≡ u ∷ us
    → bread c streamsize o blk true true io ≡ bread c streamsize o blk true true io2
bread_zeroed c streamsize o blk u io io2 us plain no_null free =
    elim (find-cases c o blk (c.obj o).buffers) [
      | inr (b, f, i, m) ↦
          let nz : b ≢ 0 = λ e. cc in
          bread_hit c streamsize o blk b io true true f nz
          ∙ sym (bread_hit c streamsize o blk b io2 true true f nz)
      | inl f ↦
          let made = create_in-Added c streamsize o blk u us plain in
          bread_miss c streamsize o blk u io us true f free
          ∙ ap some (fill_zeroed _ o u blk io io2 made.plain)
          ∙ sym (bread_miss c streamsize o blk u io2 us true f free)
    ]

implied : (a b : Bool) → (not a || b) ≡ true → a ≡ true → b ≡ true
implied a b h e = ground arith

flag_table : passes 256 (λ m. not (has_flag m io_create) || has_flag m io_zero) ≡ true
unfolding passes has_flag
flag_table = refl

-- The flag IO_ZERO is set wherever IO_CREATE is.
zero_flag : (mode : ℕ) → mode < 256 → has_flag mode io_create ≡ true → has_flag mode io_zero ≡ true
zero_flag mode h e =
    let t =
      passes-at 256 (λ m. not (has_flag m io_create) || has_flag m io_zero) mode flag_table h in
    implied (has_flag mode io_create) (has_flag mode io_zero) t e

-- Where an object is no stream, null is not among its buffers, a descriptor is free and memory is
-- there, `bref` with the flag IO_CREATE in its byte of flags gives the same whatever the driver
-- answers: it reads no block, also none that lies within the file. (A byte with a flag that `bref` does
-- not know is refused, so the modes that this is about are 1 and 3.)
pub bref-unread :
    (c : Cache) (streamsize o blk mode u io io2 : ℕ) (us : List ℕ) (has_fresh room : Bool)
    → (c.obj o).stream ≡ false
    → 0 ∉ (c.obj o).buffers
    → c.unused ≡ u ∷ us
    → mode < 256
    → has_flag mode io_create ≡ true
    → bref c streamsize o blk mode has_fresh room true io
      ≡ bref c streamsize o blk mode has_fresh room true io2
unfolding bref
bref-unread c streamsize o blk mode u io io2 us has_fresh room plain no_null free byte create =
    rw
      (
        plain,
        zero_flag mode byte create,
        bread_zeroed c streamsize o blk u io io2 us plain no_null free,
      )
      refl
