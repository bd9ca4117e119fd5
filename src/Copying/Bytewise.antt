-- ===== src/Copying/Bytewise.antt =====
-- The loop against a reference that copies byte after byte.
use tensix.Base.{
  ℕ, zero, suc, ◌-◌, ◌<◌, ◌≤◌, ◌≡◌, ◌≢◌, ◌∙◌, refl, ap, ap₂, sym, subst, arith, Bool, [], ◌∷◌, ◌++◌,
  append_assoc, append-nil, some, length, if◌then◌else◌, ==_iff, ==_ne, ℕ_discrete,
}
use tensix.Copying.{
  Bytes, take, drop, Sink, Alloc, free_dstbuf, next_dstbuf, prepare, append, copy_len, copy_loop,
}

-- Every buffer of the destination is there, and has room.
pub record HasRoom (alloc : Alloc) : Type 0 where
  pub succeeds : (blk : ℕ) → (alloc blk).code ≡ 0
  pub room : (blk : ℕ) → 0 < (alloc blk).len

-- One byte: the next buffer where the last one is full, and the byte into it.
unfoldable pub put_byte : Alloc → Sink → ℕ → Sink
put_byte alloc s b =
    let s1 = (prepare alloc s).1 in record s1 { dst = s1.dst ++ (b ∷ []); dstrest = s1.dstrest - 1 }

unfoldable pub put_bytes : Alloc → Sink → Bytes → Sink
put_bytes alloc s [] = s
put_bytes alloc s (b ∷ ys) = put_bytes alloc (put_byte alloc s b) ys

pub put_bytes-append :
    (alloc : Alloc) (s : Sink) (xs ys : Bytes)
    → put_bytes alloc s (xs ++ ys) ≡ put_bytes alloc (put_bytes alloc s xs) ys
unfolding put_bytes
put_bytes-append alloc s [] ys = refl
put_bytes-append alloc s (a ∷ xs) ys = put_bytes-append alloc (put_byte alloc s a) xs ys

pub take-drop : (n : ℕ) (ys : Bytes) → take n ys ++ drop n ys ≡ ys
unfolding take drop
take-drop zero ys = refl
take-drop (suc n) [] = refl
take-drop (suc n) (b ∷ ys) = ap (◌∷◌ b) (take-drop n ys)

pub length-drop : (n : ℕ) (ys : Bytes) → length (drop n ys) ≡ length ys - n
unfolding drop
length-drop zero ys = omega arith
length-drop (suc n) [] = omega arith
length-drop (suc n) (b ∷ ys) = omega (arith, length-drop n ys)

pub prepare_full : (alloc : Alloc) (s : Sink) → s.dstrest ≢ 0 → prepare alloc s ≡ (0, s)
unfolding prepare
prepare_full alloc s h = rw (==_ne s.dstrest 0 h) refl

-- The sink with these bytes in its buffer and this room left.
abbrev refill : Sink → Bytes → ℕ → Sink
refill s d r = record s { dst = d; dstrest = r }

put_byte_room :
    (alloc : Alloc) (s : Sink) (y : ℕ)
    → s.dstrest ≢ 0
    → put_byte alloc s y ≡ refill s (s.dst ++ (y ∷ [])) (s.dstrest - 1)
unfolding put_byte
put_byte_room alloc s y h =
    ap (λ (r : ℕ × Sink). refill r.1 (r.1.dst ++ (y ∷ [])) (r.1.dstrest - 1))
      (prepare_full alloc s h)

-- As many bytes as the buffer has room for are put into it at once.
put_bytes-take :
    (alloc : Alloc) (n : ℕ) (s : Sink) (ys : Bytes)
    → n ≤ s.dstrest
    → n ≤ length ys
    → put_bytes alloc s (take n ys) ≡ append s n ys
unfolding put_bytes take append
put_bytes-take alloc zero s ys h i = ap₂ (refill s) (sym (append-nil s.dst)) (omega arith)
put_bytes-take alloc (suc n) s [] h i = absurd (omega arith)
put_bytes-take alloc (suc n) s (y ∷ ys) h i =
    ap (λ t. put_bytes alloc t (take n ys)) (put_byte_room alloc s y (omega arith))
    ∙ put_bytes-take alloc n (refill s (s.dst ++ (y ∷ [])) (s.dstrest - 1)) ys (omega arith)
        (omega arith)
    ∙ ap₂ (refill s) (append_assoc s.dst (y ∷ []) (take n ys)) (omega arith)

next_dstbuf_room :
    (alloc : Alloc) (s : Sink)
    → HasRoom alloc
    → ((next_dstbuf alloc s).0 ≡ 0) × ((next_dstbuf alloc s).1.dstrest ≢ 0)
unfolding next_dstbuf
next_dstbuf_room alloc s room =
    rw (room.succeeds (free_dstbuf s).blk_to)
      (refl, omega (arith, room.room (free_dstbuf s).blk_to))

pub prepare_empty :
    (alloc : Alloc) (s : Sink) → s.dstrest ≡ 0 → prepare alloc s ≡ next_dstbuf alloc s
unfolding prepare
prepare_empty alloc s e =
    ap (λ (b : Bool). if b then next_dstbuf alloc s else (0, s)) ((==_iff s.dstrest 0).1 e)

pub prepare_room :
    (alloc : Alloc) (s : Sink)
    → HasRoom alloc
    → ((prepare alloc s).0 ≡ 0) × ((prepare alloc s).1.dstrest ≢ 0)
prepare_room alloc s room =
    let Room = λ (r : ℕ × Sink). (r.0 ≡ 0) × (r.1.dstrest ≢ 0) in
    elim (ℕ_discrete s.dstrest 0) [
      | yes e ↦ subst Room (sym (prepare_empty alloc s e)) (next_dstbuf_room alloc s room)
      | no ne ↦ subst Room (sym (prepare_full alloc s ne)) (refl, ne)
    ]

put_bytes-prepare :
    (alloc : Alloc) (s : Sink) (y : ℕ) (ys : Bytes)
    → HasRoom alloc
    → put_bytes alloc (prepare alloc s).1 (y ∷ ys) ≡ put_bytes alloc s (y ∷ ys)
unfolding put_bytes put_byte
put_bytes-prepare alloc s y ys room =
    ap (λ (r : ℕ × Sink). put_bytes alloc (refill r.1 (r.1.dst ++ (y ∷ [])) (r.1.dstrest - 1)) ys)
      (prepare_full alloc (prepare alloc s).1 (prepare_room alloc s room).1)

pub copy_len_fits :
    (s : Sink) (ys : Bytes)
    → s.dstrest ≢ 0
    → length ys ≢ 0
    → (copy_len s ys ≤ s.dstrest) × (copy_len s ys ≤ length ys) × (0 < copy_len s ys)
unfolding copy_len
copy_len_fits s ys h i = ground arith

-- Where every buffer of the destination is there and has room, the loop ends within one round more
-- than there are bytes, with success, and it copies as if it took one byte after another.
pub copy_loop-put_bytes :
    (fuel : ℕ) (alloc : Alloc) (s : Sink) (ys : Bytes)
    → HasRoom alloc
    → length ys < fuel
    → copy_loop fuel alloc s ys ≡ some (0, put_bytes alloc s ys)
unfolding copy_loop put_bytes
copy_loop-put_bytes zero alloc s ys room h = absurd (omega arith)
copy_loop-put_bytes (suc fuel) alloc s [] room h = refl
copy_loop-put_bytes (suc fuel) alloc s (y ∷ ys) room h =
    let s1 = (prepare alloc s).1 in
    let p = prepare_room alloc s room in
    let all = y ∷ ys in
    let len = copy_len s1 all in
    let fits = copy_len_fits s1 all p.1 (omega arith) in
    let rest =
      copy_loop-put_bytes fuel alloc (append s1 len all) (drop len all) room
        (omega (arith, length-drop len all, fits.1, fits.2)) in
    rw (p.0, ==_ne (length all) 0 (omega arith))
      (rest
        ∙ ap (λ t. some (0, t))
            (ap (λ t. put_bytes alloc t (drop len all))
                (sym (put_bytes-take alloc len s1 all fits.0 fits.1))
              ∙ sym (put_bytes-append alloc s1 (take len all) (drop len all))
              ∙ ap (put_bytes alloc s1) (take-drop len all)
              ∙ put_bytes-prepare alloc s y ys room))
