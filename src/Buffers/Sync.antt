-- ===== src/Buffers/Sync.antt =====
-- `sync_bufs` of kern/io/syncer.c writes what is dirty.
use tensix.Base.{
  ℕ, ◌≡◌, inl, inr, refl, ◌∙◌, sym, ap, arith, Bool, true, false, not, ◌&&◌, ◌||◌, leb, List, [],
  ◌∷◌, ◌==◌, if◌then◌else◌, Bool-cases, has,
}
use tensix.Buffers.{Buf, Cache, bfree, bwrite, written, sync_one, sync_loop, sync_bufs}

written_buf : (c : Cache) (b : ℕ) → (written c b).buf ≡ c.buf
unfolding written
written_buf c b =
    elim (Bool-cases
      (not (c.obj (c.buf b).obj).stream && leb (c.obj (c.buf b).obj).size (c.buf b).blk)) [
        | inl e ↦ rw e refl
        | inr e ↦ rw e refl
      ]

-- A dirty buffer is clean behind `bwrite`, whatever the driver answers, and nothing else changes of
-- the buffers.
bwrite_buf :
    (c : Cache) (b io q : ℕ)
    → (c.buf b).dirty ≡ true
    → (bwrite c b io).1.buf q ≡ (if q == b then record (c.buf b) { dirty = false } else c.buf q)
unfolding bwrite
bwrite_buf c b io q e = elim (Bool-cases (c.obj (c.buf b).obj).has_io) [
  | inl h ↦ rw (e, h) (ap (λ (f : ℕ → Buf). f q) (written_buf _ b))
  | inr h ↦ rw (e, h) refl
]

at_once :
    (c : Cache) (b q : ℕ) (same : (q == b) ≡ true)
    → record (c.buf b) { dirty = false } ≡ record (c.buf q) { dirty = false }
at_once c b q same =
    let e : q ≡ b = ground arith in ap (λ (k : ℕ). record (c.buf k) { dirty = false }) (sym e)

still_clean :
    (c : Cache) (b q : ℕ)
    → (c.buf b).dirty ≡ false
    → c.buf q ≡ (if q == b then record (c.buf b) { dirty = false } else c.buf q)
still_clean c b q e = elim (Bool-cases (q == b)) [
  | inl same ↦
      let qb : q ≡ b = ground arith in
      rw same (ap c.buf qb ∙ ap (λ (d : Bool). record (c.buf b) { dirty = d }) e)
  | inr other ↦ rw other refl
]

sync_one_buf :
    (c : Cache) (o : ℕ) (io : ℕ → ℕ) (b q : ℕ)
    → (sync_one c o io b).buf q ≡ (if q == b then record (c.buf b) { dirty = false } else c.buf q)
unfolding sync_one bfree
sync_one_buf c o io b q = elim (Bool-cases (c.buf b).dirty) [
  | inl e ↦ elim (Bool-cases (c.obj o).cached) [
    | inl h ↦ rw (e, h) (bwrite_buf c b (io b) q e)
    | inr h ↦ rw (e, h) (bwrite_buf c b (io b) q e)
  ]
  | inr e ↦ rw e (still_clean c b q e)
]

by_later : (later : Bool) {v w : Buf} → v ≡ w → (if later then v else v) ≡ w
by_later true e = e
by_later false e = e

cleaned_both :
    (c : Cache) (b q : ℕ) (later : Bool)
    → (if later
        then record (if q == b then record (c.buf b) { dirty = false } else c.buf q) {
          dirty = false;
        }
        else if q == b
        then record (c.buf b) { dirty = false }
        else c.buf q)
      ≡ (if (q == b) || later then record (c.buf q) { dirty = false } else c.buf q)
cleaned_both c b q later = elim (Bool-cases (q == b)) [
  | inl same ↦ rw same (by_later later (at_once c b q same))
  | inr other ↦ rw other refl
]

sync_loop_buf :
    (c : Cache) (o : ℕ) (io : ℕ → ℕ) (bs : List ℕ) (q : ℕ)
    → (sync_loop c o io bs).buf q
      ≡ (if has q bs then record (c.buf q) { dirty = false } else c.buf q)
unfolding sync_loop
sync_loop_buf c o io [] q = refl
sync_loop_buf c o io (b ∷ bs) q =
    sync_loop_buf (sync_one c o io b) o io bs q
    ∙ ap (λ (v : Buf). if has q bs then record v { dirty = false } else v) (sync_one_buf c o io b q)
    ∙ cleaned_both c b q (has q bs)

-- `sync_bufs` leaves every buffer of the object clean, whatever the driver answers, and changes
-- nothing else of any buffer: neither its reference count nor its block.
pub sync_bufs_lem :
    (c : Cache) (o : ℕ) (io : ℕ → ℕ) (q : ℕ)
    → (sync_bufs c o io).buf q
      ≡ (if has q (c.obj o).buffers then record (c.buf q) { dirty = false } else c.buf q)
unfolding sync_bufs
sync_bufs_lem c o io q = sync_loop_buf c o io (c.obj o).buffers q
