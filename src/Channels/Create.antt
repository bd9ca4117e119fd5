-- ===== src/Channels/Create.antt =====
-- `iod_chn_create` of a channel that is copied in the background.
use Prim.Native.Nat.{bit_and}
use tensix.Base.{
  ℕ, ◌<◌, ◌≡◌, ◌≢◌, ◌∙◌, refl, sym, subst, arith, true, false, not, ◌&&◌, List, [], ◌∷◌, ◌++◌, ◌==◌,
  ◌∈◌, Apart-symm, has-append, mem-append_right, mem_self, ==_refl, ==_ne, ltb, Distinct-split,
  passes, passes-at,
}
use tensix.Namespace.{e_none}
use tensix.Queue.{Heap, null, push, pop, set_prev, set_next}
use tensix.Queue.Links.{Links-split}
use tensix.Queue.Deque.{IsDeque}
use tensix.Pool.{Pool, pool_alloc}
use tensix.Files.{Files, hold}
use tensix.Buffers.{has_flag}
use tensix.Channels.{
  Iod, chn_is, chn_active, chn_poll, chn_autoclose, chn_immediate, chn_all, chn_others, set_active,
  init_chan, activate, create_with, create_background, iod_chn_create,
}
use tensix.Queue.Pop.{pop_lem}
use tensix.Channels.Lists.{flag_lem}
use tensix.Channels.Kill.{IsIod, last_or-ne}

-- A request for a background channel that passes the checks and finds slots for its handles.
pub record Accepted (s : Iod) (iod_proc from to flags : ℕ) (f1 f2 : Files) : Type 0 where
  pub legal : has_flag flags chn_others ≡ false
  pub opens : (has_flag flags chn_poll && has_flag flags chn_autoclose) ≡ false
  pub streams : (has_flag flags chn_poll && not (s.cache.obj from).stream) ≡ false
  pub background : has_flag (bit_and flags chn_all) chn_immediate ≡ false
  pub hold_from : hold s.files iod_proc from ≡ (e_none, f1)
  pub hold_to : hold f1 iod_proc to ≡ (e_none, f2)

module _ (s : Iod) (iod_proc current from to flags : ℕ) (copied : Iod → ℕ → Iod) (f1 f2 : Files)
    (a : Accepted s iod_proc from to flags f1 f2) where
  unfoldable pub ch : ℕ
  ch = (pool_alloc s.heap s.pool).0

  unfoldable pub begun : Iod
  begun =
      init_chan
        (record s { heap = (pool_alloc s.heap s.pool).1; pool = (pool_alloc s.heap s.pool).2 }) ch
        from to flags

  pub made :
      ch ≢ 0
      → iod_chn_create s iod_proc current from to flags copied
        ≡ (e_none, ch, activate (record begun { files = f2 }) ch)
  unfolding iod_chn_create create_with create_background ch begun init_chan
  made nz =
      rw
        (
          a.legal,
          a.opens,
          a.streams,
          ==_ne _ null nz,
          ==_refl,
          a.background,
          a.hold_from,
          a.hold_to,
        )
        refl

-- The record that `pool_alloc` hands out is linked to the last of the used ones.
alloc_next :
    (h : Heap) (pool : Pool) (r c : ℕ)
    → (pop h pool.unused).0 ≡ r
    → pool.used.last ≡ c
    → r ≢ 0
    → c ≢ 0
    → ((pool_alloc h pool).0 ≡ r) × (((pool_alloc h pool).1 c).next ≡ r)
unfolding pool_alloc push set_next set_prev
alloc_next h pool r c er ec nr nc =
    rw (er, ec, ==_ne r null nr, ==_refl, ==_ne c null nc) (refl, ground arith)

-- Putting a channel on the active list changes the link of no other one but the last of that list.
activate_next :
    (s : Iod) (r c : ℕ)
    → (c == r) ≡ false
    → (c == s.active.last) ≡ false
    → ((activate s r).heap c).next ≡ (s.heap c).next
unfolding activate set_active push set_next set_prev
activate_next s r c nr nl = ground arith

activate_active :
    (s : Iod) (r : ℕ) → (s.chan r).flags < 256 → chn_is (activate s r) r chn_active ≡ true
unfolding activate set_active
activate_active s r h = rw ==_refl (flag_lem (s.chan r).flags h).2

all_small : passes 256 (λ f. ltb (bit_and f chn_all) 256) ≡ true
unfolding passes
all_small = refl

pub small : (f : ℕ) → f < 256 → bit_and f chn_all < 256
small f h = ground (arith, passes-at 256 (λ f. ltb (bit_and f chn_all) 256) f all_small h)

module _ (s : Iod) (iod_proc current from to flags : ℕ) (copied : Iod → ℕ → Iod) (f1 f2 : Files)
    (a : Accepted s iod_proc from to flags f1 f2) (byte : flags < 256) where
  abbrev pub created : ℕ × ℕ × Iod
  created = iod_chn_create s iod_proc current from to flags copied

  module _ (c r : ℕ) (xs ys zs : List ℕ) (is : IsIod s xs (ys ++ (c ∷ [])) (zs ++ (r ∷ [])))
      (last : s.pool.used.last ≡ c) where
    r_nz : r ≢ 0
    r_nz = (Distinct-split zs (r ∷ []) is.free.distinct).1.0

    c_nz : c ≢ 0
    c_nz = (Distinct-split ys (c ∷ []) is.channels.lists.unused.distinct).1.0

    c_in : c ∈ (ys ++ (c ∷ []))
    c_in = mem-append_right c ys (c ∷ []) (mem_self c [])

    popped : (pop s.heap s.pool.unused).0 ≡ r
    popped = (pop_lem s.heap s.pool.unused r zs is.free).0

    allocated : ((pool_alloc s.heap s.pool).0 ≡ r) × (((pool_alloc s.heap s.pool).1 c).next ≡ r)
    allocated = alloc_next s.heap s.pool r c popped last r_nz c_nz

    c_ne_r : (c == r) ≡ false
    c_ne_r = ground (arith, is.inactive_free c c_in, has-append c zs (r ∷ []))

    c_ne_last : (c == s.active.last) ≡ false
    c_ne_last =
        let out = Apart-symm xs (ys ++ (c ∷ [])) is.channels.lists.apart c c_in in
        ==_ne c s.active.last
          λ e. last_or-ne c xs c_nz out (sym is.channels.lists.used.last ∙ sym e)

    state : Iod
    state =
        activate (record (begun s iod_proc current from to flags copied f1 f2 a) { files = f2 }) r

    creates : created ≡ (e_none, r, state)
    unfolding state ch begun
    creates =
        made s iod_proc current from to flags copied f1 f2 a (λ e. r_nz (sym allocated.0 ∙ e))
        ∙ rw allocated.0 refl

    next_is : (state.heap c).next ≡ r
    unfolding state begun init_chan
    next_is = activate_next _ r c c_ne_r c_ne_last ∙ allocated.1

    active_is : chn_is state r chn_active ≡ true
    unfolding state begun init_chan ch
    active_is = activate_active _ r (rw (allocated.0, ==_refl) (small flags byte))

    -- Where the last inactive channel is the last record on the pool's list of used ones, as the one
    -- made before that fell asleep is, `iod_chn_create` of a background channel links it to the new
    -- channel. That is active, but the walk along the inactive channels goes on to it: the list of
    -- inactive channels is no longer well-formed.
    pub iod_chn_create_crosses :
        let (err, id, s') = created in
        (err ≡ e_none)
        × (id ≡ r)
        × ((s'.heap c).next ≡ r)
        × (chn_is s' r chn_active ≡ true)
        × ¬ IsDeque s'.heap s'.inactive (ys ++ (c ∷ []))
    iod_chn_create_crosses =
        subst
          (λ t.
            (t.0 ≡ e_none)
            × (t.1 ≡ r)
            × ((t.2.heap c).next ≡ r)
            × (chn_is t.2 r chn_active ≡ true)
            × ¬ IsDeque t.2.heap t.2.inactive (ys ++ (c ∷ [])))
          (sym creates)
          (
            refl,
            refl,
            next_is,
            active_is,
            λ d. r_nz (sym next_is ∙ (Links-split state.heap null null ys (c ∷ []) d.links).1.1),
          )
