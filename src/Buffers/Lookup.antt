-- ===== src/Buffers/Lookup.antt =====
-- `blookup` and `bread` of kern/io/buf.c: a block that was read once is found in the cache.
use tensix.Base.{
  ℕ, ◌+◌, ◌%◌, ◌≡◌, ◌≢◌, ◌⊎◌, inl, inr, refl, ◌∙◌, sym, ap, subst, arith, Bool, true, false, List,
  [], ◌∷◌, ◌++◌, none, some, ◌==◌, Bool-cases, ==_refl, ==_ne, ◌∈◌, ◌∉◌,
}
use tensix.Buffers.{
  set_obj, set_buf, read_from, read_code, filled, Buf, Cache, Result, result, matches, find, reuse,
  blookup, bread, bcreate, create_in, fill, unlink,
}

pub find-cases :
    (c : Cache) (o blk : ℕ) (bs : List ℕ)
    → (find c o blk bs ≡ none)
      ⊎ ((b : ℕ) × (find c o blk bs ≡ some b) × (b ∈ bs) × (matches c o blk b ≡ true))
unfolding find
find-cases c o blk [] = inl refl
find-cases c o blk (b ∷ bs) = elim (Bool-cases (matches c o blk b)) [
  | inl e ↦ inr (b, rw e refl, ground arith, e)
  | inr e ↦ elim (find-cases c o blk bs) [
    | inl none_left ↦ inl (rw e none_left)
    | inr (q, f, i, m) ↦ inr (q, rw e f, ground arith, m)
  ]
]

-- A buffer put behind others that do not match is found, if it does.
find_last :
    (c d : Cache) (o blk u : ℕ) (bs : List ℕ)
    → ((b : ℕ) → b ∈ bs → matches d o blk b ≡ matches c o blk b)
    → find c o blk bs ≡ none
    → matches d o blk u ≡ true
    → find d o blk (bs ++ (u ∷ [])) ≡ some u
unfolding find
find_last c d o blk u [] same nothing m = rw m refl
find_last c d o blk u (b ∷ bs) same nothing m = elim (Bool-cases (matches c o blk b)) [
  | inl e ↦ absurd (ground arith)
  | inr e ↦
      rw (same b (ground arith), e)
        (find_last c d o blk u bs (λ q i. same q (ground arith)) (ground arith) m)
]

find_first :
    (c : Cache) (o blk b : ℕ) (bs : List ℕ)
    → matches c o blk b ≡ true
    → find c o blk (b ∷ bs) ≡ some b
unfolding find
find_first c o blk b bs m = rw m refl

-- What a lookup that finds its buffer makes of `blookup` and `bread`.
blookup_hit :
    (c : Cache) (o blk b : ℕ)
    → find c o blk (c.obj o).buffers ≡ some b
    → blookup c o blk ≡ (b, reuse c o b)
unfolding blookup
blookup_hit c o blk b e = rw (e, blookup)

blookup_miss :
    (c : Cache) (o blk : ℕ) → find c o blk (c.obj o).buffers ≡ none → blookup c o blk ≡ (0, c)
unfolding blookup
blookup_miss c o blk e = rw (e, blookup)

pub bread_hit :
    (c : Cache) (streamsize o blk b io : ℕ) (zeroed memory : Bool)
    → find c o blk (c.obj o).buffers ≡ some b
    → b ≢ 0
    → bread c streamsize o blk zeroed memory io ≡ some (result 0 b (reuse c o b))
unfolding bread read_from
bread_hit c streamsize o blk b io zeroed memory e nz =
    ap (λ (s : ℕ × Cache). read_from s streamsize o blk zeroed memory io) (blookup_hit c o blk b e)
    ∙ rw (==_ne b 0 nz) refl

bcreate_free :
    (c : Cache) (streamsize o blk u : ℕ) (us : List ℕ) (memory : Bool)
    → c.unused ≡ u ∷ us
    → bcreate c streamsize o blk memory ≡ some (create_in c streamsize o blk memory u us)
unfolding bcreate create_in
bcreate_free c streamsize o blk u us memory free = rw (free, bcreate)

pub bread_miss :
    (c : Cache) (streamsize o blk u io : ℕ) (us : List ℕ) (zeroed : Bool)
    → find c o blk (c.obj o).buffers ≡ none
    → c.unused ≡ u ∷ us
    → bread c streamsize o blk zeroed true io
      ≡ some (fill (create_in c streamsize o blk true u us).cache o u blk zeroed io)
unfolding bread read_from create_in
bread_miss c streamsize o blk u io us zeroed e free =
    ap (λ (s : ℕ × Cache). read_from s streamsize o blk zeroed true io) (blookup_miss c o blk e)
    ∙ rw (bcreate_free c streamsize o blk u us true free) refl

reuse_eq :
    (c : Cache) (o b : ℕ)
    → (c.obj o).stream ≡ false
    → reuse c o b
      ≡ set_obj
          (set_buf c b (record (c.buf b) { refcnt = ((c.buf b).refcnt + 1) % 256; fresh = false }))
          o
          (record (c.obj o) { buffers = b ∷ unlink b (c.obj o).buffers })
unfolding reuse
reuse_eq c o b plain = rw plain refl

matches_eq :
    (c : Cache) (o blk b : ℕ)
    → (c.obj o).stream ≡ false
    → matches c o blk b ≡ ((c.buf b).blk == blk)
unfolding matches
matches_eq c o blk b plain = rw plain refl

-- A buffer that was just reused is found first.
find_reused :
    (c : Cache) (o blk b : ℕ)
    → (c.obj o).stream ≡ false
    → matches c o blk b ≡ true
    → find (reuse c o b) o blk ((reuse c o b).obj o).buffers ≡ some b
find_reused c o blk b plain m =
    let d : Cache =
      set_obj
        (set_buf c b (record (c.buf b) { refcnt = ((c.buf b).refcnt + 1) % 256; fresh = false })) o
        (record (c.obj o) { buffers = b ∷ unlink b (c.obj o).buffers }) in
    let plain_d : (d.obj o).stream ≡ false = rw (==_refl o) plain in
    let bufs : (d.obj o).buffers ≡ b ∷ unlink b (c.obj o).buffers = rw (==_refl o) refl in
    let blk_d : (d.buf b).blk ≡ (c.buf b).blk = rw (==_refl b) refl in
    let m_d : matches d o blk b ≡ true =
      matches_eq d o blk b plain_d
      ∙ ap (λ k. k == blk) blk_d
      ∙ sym (matches_eq c o blk b plain)
      ∙ m in
    subst (λ e. find e o blk (e.obj o).buffers ≡ some b) (sym (reuse_eq c o b plain))
      (ap (find d o blk) bufs ∙ find_first d o blk b (unlink b (c.obj o).buffers) m_d)

-- `fill` changes at most the length and the flags of its buffer.
fill-cases :
    (c : Cache) (o b blk io : ℕ) (zeroed : Bool)
    → ((fill c o b blk zeroed io).cache ≡ c)
      ⊎ ((fill c o b blk zeroed io).cache ≡ set_buf c b (filled (c.obj o) (c.buf b) blk))
unfolding fill
fill-cases c o b blk io zeroed = elim (Bool-cases (read_code (c.obj o) blk zeroed io == 0)) [
  | inl e ↦ inr (rw e refl)
  | inr e ↦ inl (rw e refl)
]

fill_buf : (c : Cache) (o b blk io : ℕ) (zeroed : Bool) → (fill c o b blk zeroed io).buf ≡ b
unfolding fill
fill_buf c o b blk io zeroed = elim (Bool-cases (read_code (c.obj o) blk zeroed io == 0)) [
  | inl e ↦ rw e refl
  | inr e ↦ rw e refl
]

-- A cache that holds a new buffer behind the object's others.
pub record Added (c d : Cache) (o blk u : ℕ) : Type 0 where
  pub plain : (d.obj o).stream ≡ false
  pub buffers : (d.obj o).buffers ≡ (c.obj o).buffers ++ (u ∷ [])
  pub others : (b : ℕ) → b ≢ u → (d.buf b).blk ≡ (c.buf b).blk
  pub this : (d.buf u).blk ≡ blk

pub create_in-Added :
    (c : Cache) (streamsize o blk u : ℕ) (us : List ℕ)
    → (c.obj o).stream ≡ false
    → Added c (create_in c streamsize o blk true u us).cache o blk u
unfolding create_in
create_in-Added c streamsize o blk u us plain = record {
  plain = rw (==_refl o) plain;
  buffers = rw (==_refl o) refl;
  others = λ b ne. rw (==_ne b u ne) refl;
  this = rw (==_refl u) refl;
}

set_buf-Added :
    (c d : Cache) (o blk u : ℕ) (v : Buf)
    → v.blk ≡ (d.buf u).blk
    → Added c d o blk u
    → Added c (set_buf d u v) o blk u
set_buf-Added c d o blk u v e a = record {
  plain = a.plain;
  buffers = a.buffers;
  others = λ b ne. rw (==_ne b u ne) (a.others b ne);
  this = rw (==_refl u) (e ∙ a.this);
}

fill-Added :
    (c d : Cache) (o blk u io : ℕ) (zeroed : Bool)
    → Added c d o blk u
    → Added c (fill d o u blk zeroed io).cache o blk u
fill-Added c d o blk u io zeroed a = elim (fill-cases d o u blk io zeroed) [
  | inl e ↦ subst (λ z. Added c z o blk u) (sym e) a
  | inr e ↦
      subst (λ z. Added c z o blk u) (sym e)
        (set_buf-Added c d o blk u (filled (d.obj o) (d.buf u) blk) (unfold filled in refl) a)
]

find-Added :
    (c d : Cache) (o blk u : ℕ)
    → (c.obj o).stream ≡ false
    → u ∉ (c.obj o).buffers
    → find c o blk (c.obj o).buffers ≡ none
    → Added c d o blk u
    → find d o blk (d.obj o).buffers ≡ some u
find-Added c d o blk u plain out nothing a =
    ap (find d o blk) a.buffers
    ∙ find_last c d o blk u (c.obj o).buffers
        (λ b i.
          matches_eq d o blk b a.plain
          ∙ ap (λ k. k == blk) (a.others b (λ e. cc))
          ∙ sym (matches_eq c o blk b plain))
        nothing (matches_eq d o blk u a.plain ∙ ap (λ k. k == blk) a.this ∙ ==_refl blk)

-- Where an object is no stream, null is not among its buffers, a descriptor that is not null and
-- not among them is free, and memory is there, `bread` answers, and a second `bread` of the same
-- block then answers without error with the same buffer, from the cache: also where the driver
-- failed on the first, so that the buffer was never read.
pub bread-bread :
    (c : Cache) (streamsize o blk u io io2 : ℕ) (us : List ℕ) (zeroed zeroed2 memory2 : Bool)
    → (c.obj o).stream ≡ false
    → 0 ∉ (c.obj o).buffers
    → c.unused ≡ u ∷ us
    → u ≢ 0
    → u ∉ (c.obj o).buffers
    → (r : Result) × (bread c streamsize o blk zeroed true io ≡ some r)
      × (r.buf ≢ 0)
      × (bread r.cache streamsize o blk zeroed2 memory2 io2
          ≡ some (result 0 r.buf (reuse r.cache o r.buf)))
bread-bread c streamsize o blk u io io2 us zeroed zeroed2 memory2 plain no_null free nz out =
    elim (find-cases c o blk (c.obj o).buffers) [
      | inr (b, f, i, m) ↦
          let bz : b ≢ 0 = λ e. cc in
          (
            result 0 b (reuse c o b),
            bread_hit c streamsize o blk b io zeroed true f bz,
            bz,
            bread_hit _ streamsize o blk b io2 zeroed2 memory2 (find_reused c o blk b plain m) bz,
          )
      | inl f ↦
          let made = (create_in c streamsize o blk true u us).cache in
          let r = fill made o u blk zeroed io in
          let same : r.buf ≡ u = fill_buf made o u blk io zeroed in
          let found =
            find-Added c r.cache o blk u plain out f (
              fill-Added c made o blk u io zeroed
                (create_in-Added c streamsize o blk u us plain)) in
          (
            r,
            bread_miss c streamsize o blk u io us zeroed f free,
            (λ e. nz (sym same ∙ e)),
            subst
                (λ b.
                  bread r.cache streamsize o blk zeroed2 memory2 io2
                  ≡ some (result 0 b (reuse r.cache o b)))
                (sym same) (bread_hit r.cache streamsize o blk u io2 zeroed2 memory2 found nz),
          )
    ]
