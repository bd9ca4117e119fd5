-- ===== src/Copying/Cuts.antt =====
-- What is copied does not depend on the blocks of the source.
use tensix.Base.{
  ℕ, suc, ◌+◌, ◌-◌, ◌%◌, ◌^◌, ◌≡◌, ◌≢◌, ◌∙◌, refl, ap, sym, arith, Bool, true, false, List, [], ◌∷◌,
  ◌++◌, append_assoc, append-nil, Option, none, some, ◌==◌, length, if◌then◌else◌, ==_iff, ==_ne,
  Bool-cases, inl, inr, ℕ_discrete,
}
use tensix.Copying.{
  refused, Bytes, Sink, Alloc, free_dstbuf, next_dstbuf, prepare, finish, copy_block,
}
use tensix.Copying.Bytewise.{
  HasRoom, put_byte, put_bytes, put_bytes-append, prepare_empty, copy_loop-put_bytes,
}

unfoldable pub concat : List Bytes → Bytes
concat [] = []
concat (b ∷ blocks) = b ++ concat blocks

-- All bytes that the sink has got.
unfoldable pub stream : Sink → Bytes
stream s = concat s.blocks ++ s.dst

-- Without a buffer there are no bytes in one.
abbrev pub Plain : Sink → Type 0
Plain s = s.held ≡ false → s.dst ≡ []

concat-snoc : (blocks : List Bytes) (d : Bytes) → concat (blocks ++ (d ∷ [])) ≡ concat blocks ++ d
unfolding concat
concat-snoc [] d = append-nil d
concat-snoc (b ∷ blocks) d =
    ap (◌++◌ b) (concat-snoc blocks d) ∙ sym (append_assoc b (concat blocks) d)

pub free_dstbuf-Plain :
    (s : Sink) → Plain s → ((free_dstbuf s).dst ≡ []) × (stream (free_dstbuf s) ≡ stream s)
unfolding free_dstbuf stream
free_dstbuf-Plain s p = elim (Bool-cases s.held) [
  | inl e ↦ rw e (refl, append-nil (concat (s.blocks ++ (s.dst ∷ []))) ∙ concat-snoc s.blocks s.dst)
  | inr e ↦ rw e (p e, refl)
]

free-free : (s : Sink) → free_dstbuf (free_dstbuf s) ≡ free_dstbuf s
unfolding free_dstbuf
free-free s = elim (Bool-cases s.held) [
  | inl e ↦ rw e refl
  | inr e ↦ ap free_dstbuf (
      ap
        (λ (b : Bool).
          if b then record s { blocks = s.blocks ++ (s.dst ∷ []); held = false; dst = [] } else s)
        e)
]

pub finish_full : (s : Sink) → s.dstrest ≢ 0 → finish s ≡ s
unfolding finish
finish_full s h = ap (λ (b : Bool). if b then free_dstbuf s else s) (==_ne s.dstrest 0 h)

pub finish_empty : (s : Sink) → s.dstrest ≡ 0 → finish s ≡ free_dstbuf s
unfolding finish
finish_empty s e = ap (λ (b : Bool). if b then free_dstbuf s else s) ((==_iff s.dstrest 0).1 e)

pub free_dstrest : (s : Sink) → (free_dstbuf s).dstrest ≡ s.dstrest
unfolding free_dstbuf
free_dstrest s = elim (Bool-cases s.held) [ inl e ↦ rw e refl | inr e ↦ rw e refl ]

next-free : (alloc : Alloc) (s : Sink) → next_dstbuf alloc (free_dstbuf s) ≡ next_dstbuf alloc s
unfolding next_dstbuf
next-free alloc s =
    ap
      (λ (t : Sink).
        if (alloc t.blk_to).code == 0
        then (
          0,
          record t {
            held = true;
            dst = [];
            dstrest = (alloc t.blk_to).len;
            blk_to = (t.blk_to + 1) % 2 ^ 16;
          },
        )
        else ((alloc t.blk_to).code, refused t (alloc t.blk_to).freed))
      (free-free s)

prepare-finish : (alloc : Alloc) (s : Sink) → prepare alloc (finish s) ≡ prepare alloc s
prepare-finish alloc s = elim (ℕ_discrete s.dstrest 0) [
  | yes e ↦
      ap (prepare alloc) (finish_empty s e)
      ∙ prepare_empty alloc (free_dstbuf s) (free_dstrest s ∙ e)
      ∙ next-free alloc s
      ∙ sym (prepare_empty alloc s e)
  | no ne ↦ ap (prepare alloc) (finish_full s ne)
]

finish-finish : (s : Sink) → finish (finish s) ≡ finish s
finish-finish s = elim (ℕ_discrete s.dstrest 0) [
  | yes e ↦
      ap finish (finish_empty s e)
      ∙ finish_empty (free_dstbuf s) (free_dstrest s ∙ e)
      ∙ free-free s
      ∙ sym (finish_empty s e)
  | no ne ↦ ap finish (finish_full s ne)
]

finish-put_bytes :
    (alloc : Alloc) (s : Sink) (ys : Bytes)
    → finish (put_bytes alloc (finish s) ys) ≡ finish (put_bytes alloc s ys)
unfolding put_bytes put_byte
finish-put_bytes alloc s [] = finish-finish s
finish-put_bytes alloc s (y ∷ ys) =
    ap
      (λ (r : ℕ × Sink).
        finish (
          put_bytes alloc (record r.1 { dst = r.1.dst ++ (y ∷ []); dstrest = r.1.dstrest - 1 }) ys))
      (prepare-finish alloc s)

copy_block-put_bytes :
    (alloc : Alloc) (s : Sink) (ys : Bytes)
    → HasRoom alloc
    → copy_block alloc s ys ≡ some (0, finish (put_bytes alloc s ys))
unfolding copy_block
copy_block-put_bytes alloc s ys room =
    ap (λ (r : Option (ℕ × Sink)). elim r [ none ↦ none | some (err, t) ↦ some (err, finish t) ])
      (copy_loop-put_bytes (suc (length ys)) alloc s ys room (omega arith))

-- Where every buffer of the destination is there and has room, copying one block of the source and
-- then another leaves exactly what copying both as one block does: the destination's blocks and what
-- is pending there do not depend on how the source is cut into blocks.
pub copy_block-append :
    (alloc : Alloc) (s : Sink) (xs ys : Bytes)
    → HasRoom alloc
    → (s' : Sink) × (copy_block alloc s xs ≡ some (0, s'))
      × (copy_block alloc s' ys ≡ copy_block alloc s (xs ++ ys))
copy_block-append alloc s xs ys room =
    let s' = finish (put_bytes alloc s xs) in
    (
      s',
      copy_block-put_bytes alloc s xs room,
      copy_block-put_bytes alloc s' ys room
          ∙ ap (λ t. some (0, t))
              (finish-put_bytes alloc (put_bytes alloc s xs) ys
                ∙ ap finish (sym (put_bytes-append alloc s xs ys)))
          ∙ sym (copy_block-put_bytes alloc s (xs ++ ys) room),
    )
