-- ===== src/Bitmap/Seek.antt =====
-- `bitmap_seek`: what it finds, that it ends, and what it may miss.
use tensix.Base.{
  ℕ, zero, suc, ◌+◌, ◌-◌, ◌^◌, ◌<◌, ◌≤◌, ◌≡◌, ◌≢◌, ◌⊎◌, inl, inr, refl, arith, true, false, List,
  some, ◌==◌, ltb, if◌then◌else◌, Bool-cases, ℕ_discrete, dec_lt, get_or, subst, sym,
}
use tensix.Bitmap.{
  bitmap_byte, test_bit, get, gap_len, Round, found, next, seek_round, seek_end, seek_loop,
  bitmap_seek,
}

-- `n` bits from bit `i` on are not set.
abbrev pub Clear : List ℕ → ℕ → ℕ → Type 0
Clear m i n = (k : ℕ) → i ≤ k → k < i + n → get m k ≡ false

Round-cases : (o : Round) → ((r : ℕ) × (o ≡ found r)) ⊎ ((c : ℕ) × (o ≡ next c))
Round-cases (found r) = inl (r, refl)
Round-cases (next c) = inr (c, refl)

module _ (m : List ℕ) where
  -- The gap's check ends at a set bit within the gap, or with no bits left to check.
  gap_sound :
      (i n : ℕ)
      → (((gap_len m i n).1 == 0) ≡ true → Clear m i n)
        × (((gap_len m i n).1 == 0) ≡ false
            → (get m (gap_len m i n).0 ≡ true) × ((gap_len m i n).0 < i + n))
        × (i ≤ (gap_len m i n).0)
  unfolding gap_len
  gap_sound i zero = ((λ e k lo hi. absurd (omega arith)), (λ e. cc), omega arith)
  gap_sound i (suc n) = elim (Bool-cases (get m i)) [
    | inl e ↦ rw e ((λ f k lo hi. absurd (ground arith)), (λ f. (e, omega arith)), omega arith)
    | inr e ↦
        let rest = gap_sound (i + 1) n in
        rw e (
          (λ f k lo hi. elim (ℕ_discrete i k) [
            | yes p ↦ rw (← p) e
            | no p ↦ rest.0 f k (omega arith) (omega arith)
          ]),
          (λ f. ((rest.1 f).0, omega (arith, (rest.1 f).1))),
          omega (arith, rest.2),
        )
  ]

  -- A round either finds a gap where it stands, or goes on behind it.
  round_found : (b len r : ℕ) → seek_round m b len ≡ found r → (r ≡ b) × Clear m b len
  unfolding seek_round
  round_found b len r e = (ground arith, (gap_sound b len).0 (ground arith))

  round_next : (b len c : ℕ) → seek_round m b len ≡ next c → b < c
  unfolding seek_round
  round_next b len c e = ground (arith, (gap_sound b len).2)

  -- Where no byte is full, a round passes over no gap.
  round_skips :
      (b len c d : ℕ)
      → 0 < len
      → (bitmap_byte m b == 255) ≡ false
      → seek_round m b len ≡ next c
      → b ≤ d
      → d < c
      → ¬ Clear m d len
  unfolding seek_round
  round_skips b len c d pos nf e lo hi clear = elim (Bool-cases (get m b)) [
    | inl set ↦ let one : c ≡ b + 1 = ground arith in cc (clear b (omega arith) (omega arith))
    | inr unset ↦
        let left : ((gap_len m b len).1 == 0) ≡ false = ground arith in
        let past : c ≡ (gap_len m b len).0 + 1 = ground arith in
        let stop = (gap_sound b len).1 left in
        cc (clear (gap_len m b len).0 (omega arith) (omega arith), stop.0)
  ]

  -- The search ends: with more fuel than bits left it has a result.
  seek_loop_total :
      (fuel end b len : ℕ) → end - b < fuel → (r : ℕ) × (seek_loop fuel m end b len ≡ some r)
  unfolding seek_loop
  seek_loop_total zero end b len h = absurd (omega arith)
  seek_loop_total (suc fuel) end b len h = elim (Bool-cases (ltb b end)) [
    | inl more ↦ elim (Round-cases (seek_round m b len)) [
      | inl (r, e) ↦ rw (more, e) (r, refl)
      | inr (c, e) ↦
          let lt = round_next b len c e in
          rw (more, e) (seek_loop_total fuel end c len (ground arith))
    ]
    | inr done ↦ rw done (0, refl)
  ]

  -- What a result says: a gap within the end, at or behind the start.
  seek_loop_sound :
      (fuel end b len r : ℕ)
      → seek_loop fuel m end b len ≡ some r
      → r ≢ 0
      → (b ≤ r) × (r < end) × Clear m r len
  unfolding seek_loop
  seek_loop_sound zero end b len r e nz = cc
  seek_loop_sound (suc fuel) end b len r e nz = elim (Bool-cases (ltb b end)) [
    | inl more ↦ elim (Round-cases (seek_round m b len)) [
      | inl (q, f) ↦
          let same : q ≡ r = ground arith in
          let here = round_found b len q f in
          let stands : r ≡ b = ground arith in
          (ground arith, ground arith, subst (λ z. Clear m z len) (sym stands) here.1)
      | inr (c, f) ↦
          let rest = seek_loop_sound fuel end c len r (ground arith) nz in
          let lt = round_next b len c f in (omega arith, rest.1, rest.2)
    ]
    | inr done ↦ absurd (ground arith)
  ]

  -- Where no byte is full, the result is the first gap at or behind the start.
  seek_loop_first :
      ((k : ℕ) → (bitmap_byte m k == 255) ≡ false)
      → (fuel end b len r d : ℕ) → 0 < len
      → 0 < b
      → seek_loop fuel m end b len ≡ some r
      → b ≤ d
      → d < (if r == 0 then end else r)
      → ¬ Clear m d len
  unfolding seek_loop
  seek_loop_first nf zero end b len r d pos bp e lo hi clear = cc
  seek_loop_first nf (suc fuel) end b len r d pos bp e lo hi clear = elim (Bool-cases (ltb b end)) [
    | inl more ↦ elim (Round-cases (seek_round m b len)) [
      | inl (q, f) ↦
          let same : q ≡ r = ground arith in
          let here = round_found b len q f in absurd (ground (arith, here.0))
      | inr (c, f) ↦
          let lt = round_next b len c f in
          let next_e : seek_loop fuel m end c len ≡ some r = ground arith in
          elim (dec_lt d c) [
            | yes below ↦ round_skips b len c d pos (nf b) f lo below clear
            | no above ↦
                seek_loop_first nf fuel end c len r d pos (omega arith) next_e (omega arith) hi
                  clear
          ]
    ]
    | inr done ↦ absurd (ground arith)
  ]

module _ (m : List ℕ) (size len : ℕ) (small : size < 2 ^ 32) (fits : len ≤ size) where
  seek_end_lem : seek_end size len ≡ size - len
  seek_end_lem = omega arith

  -- For a size below 2 ^ 32 and a length of at least 1 and at most the size, in a bitmap with no
  -- full byte, `bitmap_seek` from a bit other than 0 returns the first gap that ends before the
  -- last bit, or 0 where there is none.
  pub bitmap_seek_first :
      (b r d : ℕ)
      → ((k : ℕ) → (bitmap_byte m k == 255) ≡ false)
      → 0 < len
      → 0 < b
      → bitmap_seek m size b len ≡ some r
      → b ≤ d
      → d < (if r == 0 then size - len else r)
      → ¬ Clear m d len
  unfolding bitmap_seek
  bitmap_seek_first b r d nf pos bp e lo hi =
      seek_loop_first m nf (suc (seek_end size len)) (seek_end size len) b len r d pos bp e lo
        (ground (arith, seek_end_lem))

-- For a bitmap of less than 2 ^ 31 bits, a start within it and a length of at most its size,
-- `bitmap_seek` returns, and a result other than 0 is a gap of `len` unset bits at or behind bit `b`
-- that ends before the bitmap's last bit.
pub bitmap_seek_finds :
    (m : List ℕ) (size len b : ℕ)
    → size < 2 ^ 31
    → len ≤ size
    → b ≤ size
    → (r : ℕ) × (bitmap_seek m size b len ≡ some r)
      × (r ≢ 0 → (b ≤ r) × (r + len < size) × Clear m r len)
unfolding bitmap_seek
bitmap_seek_finds m size len b small fits start =
    let end = seek_end_lem m size len (omega arith) fits in
    let (r, e) =
      seek_loop_total m (suc (seek_end size len)) (seek_end size len) b len (omega arith) in
    (
      r,
      e,
      λ nz.
          let s = seek_loop_sound m (suc (seek_end size len)) (seek_end size len) b len r e nz in
          (s.0, omega (arith, end, s.1), s.2),
    )

module _ (m : List ℕ) (len : ℕ) (full : get_or m 0 0 ≡ 255) where
  round_at_0 : seek_round m 0 len ≡ next 1
  unfolding seek_round get test_bit
  round_at_0 = rw full

  round_at_1 : seek_round m 1 len ≡ next 9
  unfolding seek_round
  round_at_1 = rw full

  missed : (fuel end r : ℕ) → seek_loop fuel m end 0 len ≡ some r → (r ≡ 0) ⊎ (9 ≤ r)
  unfolding seek_loop
  missed zero end r e = cc
  missed (suc zero) end r e = ground (arith, round_at_0)
  missed (suc (suc fuel)) end r e = elim (dec_lt 1 end) [
    | yes in_range ↦
        let e9 : seek_loop fuel m end 9 len ≡ some r = ground (arith, round_at_0, round_at_1) in
        elim (ℕ_discrete r 0) [
          | yes z ↦ inl z
          | no nz ↦ inr (seek_loop_sound m fuel end 9 len r e9 nz).0
        ]
    | no out ↦ inl (ground (arith, round_at_0))
  ]

-- With bits 0 to 7 set, a search from bit 0 never returns bit 8, set or not: at bit 1 the full byte
-- is passed over by eight bits.
pub bitmap_seek_misses :
    (m : List ℕ) (size len r : ℕ)
    → get_or m 0 0 ≡ 255
    → bitmap_seek m size 0 len ≡ some r
    → (r ≡ 0) ⊎ (9 ≤ r)
unfolding bitmap_seek
bitmap_seek_misses m size len r full e =
    missed m len full (suc (seek_end size len)) (seek_end size len) r e
