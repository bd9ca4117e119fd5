-- ===== src/Channels/Polling.antt =====
-- `iod_polling` after a channel was made and killed.
use Prim.Native.Nat.{bit_and, bit_or}
use tensix.Base.{
  ℕ, ◌+◌, ◌%◌, ◌<◌, ◌≡◌, ◌≢◌, ◌∙◌, refl, ap₂, sym, subst, arith, Bool, true, false, not, ◌&&◌, ◌||◌,
  if◌then◌else◌, ◌==◌, Bool-cases, inl, inr, ==_refl, passes, passes-at,
}
use tensix.Namespace.{e_none}
use tensix.Queue.{null}
use tensix.Pool.{pool_alloc}
use tensix.Files.{Files}
use tensix.Buffers.{has_flag}
use tensix.Channels.{
  Iod, chn_is, chn_active, chn_poll, chn_push, chn_immediate, chn_all, set_active, set_inactive,
  init_chan, activate, discard, iod_free_dstbuf, iod_chn_kill, iod_chn_sleep, iod_chn_create,
}
use tensix.Channels.Lists.{flag_lem}
use tensix.Channels.Create.{Accepted, ch, begun, made, small}

same : Bool → Bool → Bool
same true b = b
same false b = not b

same_eq : (p q : Bool) → same p q ≡ true → p ≡ q
unfolding same
same_eq p q h = ground arith

poll_test : ℕ → Bool
poll_test f =
    same (has_flag (bit_or (bit_and f chn_all) chn_active) chn_poll) (has_flag f chn_poll)
    && same (has_flag (bit_and f 254) chn_poll) (has_flag f chn_poll)

user_test : ℕ → Bool
user_test f =
    same (has_flag (bit_and f chn_all) chn_poll) (has_flag f chn_poll)
    && same (has_flag (bit_and f chn_all) chn_push) (has_flag f chn_push)

flags_table : passes 256 (λ f. poll_test f && user_test f) ≡ true
unfolding passes has_flag same poll_test user_test
flags_table = refl

-- What the masks leave of the flags that the count depends on.
flags_lem :
    (f : ℕ)
    → f < 256
    → (has_flag (bit_or (bit_and f chn_all) chn_active) chn_poll ≡ has_flag f chn_poll)
      × (has_flag (bit_and f 254) chn_poll ≡ has_flag f chn_poll)
      × (has_flag (bit_and f chn_all) chn_poll ≡ has_flag f chn_poll)
      × (has_flag (bit_and f chn_all) chn_push ≡ has_flag f chn_push)
unfolding poll_test user_test
flags_lem f h =
    let t = passes-at 256 (λ f. poll_test f && user_test f) f flags_table h in
    (
      same_eq _ _ (ground arith),
      same_eq _ _ (ground arith),
      same_eq _ _ (ground arith),
      same_eq _ _ (ground arith),
    )

free_keeps :
    (s : Iod) (c : ℕ)
    → ((iod_free_dstbuf s c).polling ≡ s.polling)
      × (((iod_free_dstbuf s c).chan c).flags ≡ (s.chan c).flags)
unfolding iod_free_dstbuf
free_keeps s c = elim (Bool-cases ((s.chan c).dstbuf == null)) [
  | inl e ↦ rw e (refl, refl)
  | inr e ↦ rw (e, ==_refl) (refl, refl)
]

iod_chn_kill-polling :
    (s : Iod) (current c : ℕ)
    → (iod_chn_kill s current c).polling
      ≡ (if chn_is s c chn_poll then (s.polling + 255) % 256 else s.polling)
unfolding iod_chn_kill discard
iod_chn_kill-polling s current c =
    let k = free_keeps s c in
    let down = λ (f : ℕ) (n : ℕ). if has_flag f chn_poll then (n + 255) % 256 else n in
    elim (Bool-cases (chn_is (iod_free_dstbuf s c) c chn_immediate)) [
      | inl e ↦ rw e (ap₂ down k.1 k.0)
      | inr e ↦ rw e (ap₂ down k.1 k.0)
    ]

iod_chn_sleep-polling : (s : Iod) (c : ℕ) → (iod_chn_sleep s c).polling ≡ s.polling
unfolding iod_chn_sleep set_inactive
iod_chn_sleep-polling s c = ground arith

iod_chn_sleep-poll :
    (s : Iod) (c : ℕ)
    → (s.chan c).flags < 256
    → chn_is (iod_chn_sleep s c) c chn_poll ≡ chn_is s c chn_poll
unfolding iod_chn_sleep set_inactive
iod_chn_sleep-poll s c h = elim (Bool-cases (chn_is s c chn_active)) [
  | inl e ↦ rw (e, ==_refl) (flags_lem (s.chan c).flags h).1
  | inr e ↦ rw e refl
]

module _ (s : Iod) (iod_proc current from to flags : ℕ) (copied : Iod → ℕ → Iod) (f1 f2 : Files)
    (a : Accepted s iod_proc from to flags f1 f2) (byte : flags < 256) where
  abbrev pub answer : ℕ × ℕ × Iod
  answer = iod_chn_create s iod_proc current from to flags copied

  module _ (nz : (pool_alloc s.heap s.pool).0 ≢ 0) where
    running : Iod
    running =
        activate (record (begun s iod_proc current from to flags copied f1 f2 a) { files = f2 })
          (pool_alloc s.heap s.pool).0

    running_lem : answer ≡ (e_none, (pool_alloc s.heap s.pool).0, running)
    unfolding ch running
    running_lem = made s iod_proc current from to flags copied f1 f2 a nz

    running_poll : chn_is running (pool_alloc s.heap s.pool).0 chn_poll ≡ has_flag flags chn_poll
    unfolding running begun activate set_active init_chan ch
    running_poll = rw ==_refl (flags_lem flags byte).0

    running_byte : (running.chan (pool_alloc s.heap s.pool).0).flags < 256
    unfolding running begun activate set_active init_chan ch
    running_byte = rw ==_refl ((flag_lem (bit_and flags chn_all) (small flags byte)).3)

    polling_once : running.polling ≡ (
        if has_flag flags chn_poll || has_flag flags chn_push
        then (s.polling + 1) % 256
        else s.polling)
    unfolding running begun activate set_active init_chan ch
    polling_once = rw ((flags_lem flags byte).2, (flags_lem flags byte).3) refl

    -- After a background channel was made and, once asleep, killed, `iod_polling` is what it was where
    -- the channel was polled or neither polled nor pushed; where it was only pushed, the count stays
    -- higher by one.
    pub kill-create-polling :
        s.polling < 256
        → (answer.1 ≡ (pool_alloc s.heap s.pool).0)
          × ((iod_chn_kill (iod_chn_sleep answer.2 answer.1) current answer.1).polling ≡ (
              if has_flag flags chn_push && not (has_flag flags chn_poll)
              then (s.polling + 1) % 256
              else s.polling))
    kill-create-polling h =
        subst
          (λ t.
            (t.1 ≡ (pool_alloc s.heap s.pool).0)
            × ((iod_chn_kill (iod_chn_sleep t.2 t.1) current t.1).polling ≡ (
                if has_flag flags chn_push && not (has_flag flags chn_poll)
                then (s.polling + 1) % 256
                else s.polling)))
          (sym running_lem)
          (
            refl,
            iod_chn_kill-polling _ current _
                ∙ rw
                    (
                      iod_chn_sleep-poll running _ running_byte,
                      iod_chn_sleep-polling running _,
                      running_poll,
                      polling_once,
                    )
                    (ground arith),
          )
