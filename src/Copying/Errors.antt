-- ===== src/Copying/Errors.antt =====
-- What a copy leaves in the destination, also where a buffer of it is refused.
use tensix.Base.{
  ◌⊎◌, ℕ, ◌≤◌, ◌≡◌, ◌≢◌, Bool, false, [], ◌++◌, Option, none, some, length, if◌then◌else◌,
}
use tensix.Copying.{Bytes, take, drop, Sink, Alloc, prepare, append, copy_len, copy_loop}
use tensix.Copying.Cuts.{stream}

-- Without a buffer there are no bytes in one, and there is no room.
abbrev pub IsSink : Sink → Type 0
IsSink s = s.held ≡ false → (s.dst ≡ []) × (s.dstrest ≡ 0)

-- `t` has got the same bytes as `s`.
Same : Sink → Sink → Type 0
Same s t = IsSink t × (stream t ≡ stream s)

-- What a refusal leaves in `dstbuf`: nothing, or the bytes of a buffer that is freed.
unfoldable pub left_behind : Option Bytes → Bytes
left_behind none = []
left_behind (some bytes) = bytes

-- `t` is `s` and what the buffer that `bref` refused with `err` leaves.
abbrev Stopped : Alloc → ℕ → Sink → Sink → Type 0
Stopped alloc err s t =
    (err ≡ (alloc t.blk_to).code) × (stream t ≡ stream s ++ left_behind (alloc t.blk_to).freed)

Ready : Alloc → Sink → ℕ × Sink → Type 0
Ready alloc s r =
    IsSink r.1
    × (r.0 ≡ 0 → (stream r.1 ≡ stream s) × (r.1.dstrest ≢ 0))
    × (r.0 ≢ 0 → Stopped alloc r.0 s r.1)

-- Of the bytes, the first `n` are in the sink `t`: with success that is all. With an error there is
-- behind them what the buffer that was refused with it leaves.
pub record Copied (alloc : Alloc) (s t : Sink) (ys : Bytes) (err n : ℕ) (left : Bytes)
    : Type 0 where
  pub valid : IsSink t
  pub got : stream t ≡ (stream s ++ take n ys) ++ left
  pub within : n ≤ length ys
  pub ending :
      ((err ≡ 0) × (n ≡ length ys) × (left ≡ []))
      ⊎ ((err ≢ 0) × (err ≡ (alloc t.blk_to).code) × (left ≡ left_behind (alloc t.blk_to).freed))

Copies : Option (ℕ × Sink) → Alloc → Sink → Bytes → Type 0
Copies r alloc s ys =
    (err n : ℕ) × (left : Bytes) × (t : Sink) × (r ≡ some (err, t)) × Copied alloc s t ys err n left

-- A round with bytes left.
round : ℕ → Alloc → Sink → Bytes → Bool → Option (ℕ × Sink)
round fuel alloc s ys ok =
    let (err, s1) = prepare alloc s in
    let len = copy_len s1 ys in
    if ok then copy_loop fuel alloc (append s1 len ys) (drop len ys) else some (err, s1)
