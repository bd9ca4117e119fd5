-- ===== src/Channels/Lists.antt =====
-- The lists of active and of inactive channels: each channel's flag says which one it is on.
use Prim.Native.Nat.{bit_and, bit_or}
use tensix.Base.{
  ℕ, ◌<◌, ◌≡◌, refl, arith, true, false, not, ◌&&◌, List, [], ◌∷◌, ◌++◌, ltb, ◌==◌, ◌∈◌, Apart,
  Apart-symm, Bool-cases, inl, inr, passes, passes-at, has-append, mem-append_right, mem_self,
}
use tensix.Queue.{Heap, Header}
use tensix.Pool.{Pool, pool_free}
use tensix.Pool.Records.{IsPool, pool_free_lem}
use tensix.Buffers.{has_flag}
use tensix.Channels.{
  Iod, chn_is, chn_active, set_active, set_inactive, iod_chn_wakeup, iod_chn_sleep,
}

-- Two queues as the two of a pool.
abbrev pub two : Header → Header → Pool
two from to = record { used = from; unused = to; area = 0 }

-- The active channels are `xs`, the inactive ones `ys`.
pub record IsChannels (s : Iod) (xs ys : List ℕ) : Type 0 where
  pub lists : IsPool s.heap (two s.active s.inactive) xs ys
  pub on : (c : ℕ) → c ∈ xs → chn_is s c chn_active ≡ true
  pub off : (c : ℕ) → c ∈ ys → chn_is s c chn_active ≡ false
  pub byte : (c : ℕ) → (s.chan c).flags < 256

flag_table :
    passes 256 (λ f.
      (not (has_flag (bit_and f 254) 1) && ltb (bit_and f 254) 256)
      && (has_flag (bit_or f 1) 1 && ltb (bit_or f 1) 256))
    ≡ true
unfolding passes has_flag
flag_table = refl

pub flag_lem :
    (f : ℕ)
    → f < 256
    → (has_flag (bit_and f 254) chn_active ≡ false)
      × (bit_and f 254 < 256)
      × (has_flag (bit_or f 1) chn_active ≡ true)
      × (bit_or f 1 < 256)
flag_lem f h = let t = passes-at 256 _ f flag_table h in ground arith

IsPool-swap :
    (h : Heap) (a b : Header) (xs ys : List ℕ) → IsPool h (two a b) xs ys → IsPool h (two b a) ys xs
IsPool-swap h a b xs ys is = record {
  used = is.unused;
  unused = is.used;
  apart = Apart-symm xs ys is.apart;
}

module _ (c : ℕ) (xs zs ys : List ℕ) where
  stays : (q : ℕ) → q ∈ (xs ++ zs) → q ∈ (xs ++ (c ∷ zs))
  stays q i = ground (arith, has-append q xs zs, has-append q xs (c ∷ zs))

  other : (q : ℕ) → Apart (xs ++ zs) (ys ++ (c ∷ [])) → q ∈ (xs ++ zs) → (q == c) ≡ false
  other q apart i = ground (arith, apart q i, has-append q ys (c ∷ []))

  before : (q : ℕ) → q ∈ (ys ++ (c ∷ [])) → (q == c) ≡ false → q ∈ ys
  before q i e = ground (arith, has-append q ys (c ∷ []))

  here : c ∈ (xs ++ (c ∷ zs))
  here = mem-append_right c xs (c ∷ zs) (mem_self c zs)

  module _ (s : Iod) where
    -- `iod_chn_sleep` of an active channel moves it to the end of the inactive ones and clears its
    -- flag; all other channels stay where they are, with their flags.
    pub iod_chn_sleep_lem :
        IsChannels s (xs ++ (c ∷ zs)) ys
        → IsChannels (iod_chn_sleep s c) (xs ++ zs) (ys ++ (c ∷ []))
    unfolding iod_chn_sleep set_inactive pool_free
    iod_chn_sleep_lem is =
        let moved = pool_free_lem s.heap (two s.active s.inactive) c xs zs ys is.lists in
        let flag = flag_lem (s.chan c).flags (is.byte c) in
        rw (is.on c here) record {
          lists = moved;
          on = λ q i. rw (other q moved.apart i) (is.on q (stays q i));
          off = λ q i. elim (Bool-cases (q == c)) [
            | inl e ↦ rw e flag.0
            | inr e ↦ rw e (is.off q (before q i e))
          ];
          byte = λ q. elim (Bool-cases (q == c)) [ inl e ↦ rw e flag.1 | inr e ↦ rw e (is.byte q) ];
        }

    -- `iod_chn_wakeup` of an inactive channel moves it to the end of the active ones and sets its
    -- flag; all other channels stay where they are, with their flags.
    pub iod_chn_wakeup_lem :
        IsChannels s ys (xs ++ (c ∷ zs))
        → IsChannels (iod_chn_wakeup s c) (ys ++ (c ∷ [])) (xs ++ zs)
    unfolding iod_chn_wakeup set_active pool_free
    iod_chn_wakeup_lem is =
        let moved =
          pool_free_lem s.heap (two s.inactive s.active) c xs zs ys
            (IsPool-swap s.heap s.active s.inactive _ _ is.lists) in
        let flag = flag_lem (s.chan c).flags (is.byte c) in
        rw (is.off c here) record {
          lists = IsPool-swap _ _ _ _ _ moved;
          on = λ q i. elim (Bool-cases (q == c)) [
            | inl e ↦ rw e flag.2
            | inr e ↦ rw e (is.on q (before q i e))
          ];
          off = λ q i. rw (other q moved.apart i) (is.off q (stays q i));
          byte = λ q. elim (Bool-cases (q == c)) [ inl e ↦ rw e flag.3 | inr e ↦ rw e (is.byte q) ];
        }

    -- A channel that is on the list already is left alone.
    pub iod_chn_wakeup-on : chn_is s c chn_active ≡ true → iod_chn_wakeup s c ≡ s
    unfolding iod_chn_wakeup
    iod_chn_wakeup-on e = rw e refl
