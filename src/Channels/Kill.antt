-- ===== src/Channels/Kill.antt =====
-- `iod_chn_kill`: an inactive channel goes back to the pool.
use tensix.Base.{
  ℕ, ◌≡◌, ◌≢◌, ◌∙◌, refl, ap, sym, subst, arith, List, [], ◌∷◌, ◌++◌, fun_ext, ◌==◌, ◌∈◌, ◌∉◌,
  Apart, Apart-symm, Bool-cases, inl, inr, has-append, mem-append_right, mem_self, Distinct-split,
  mem-ne', head_or, last_or, Distinct, has-last_or,
}
use tensix.Queue.{Heap, Header, null, push, remove, set_prev, set_next}
use tensix.Queue.Links.{SameOutside, Links-split}
use tensix.Queue.Deque.{IsDeque, remove_lem}
use tensix.Queue.Insert.{push_lem}
use tensix.Pool.{pool_free}
use tensix.Pool.Records.{IsDeque-frame}
use tensix.Channels.{Iod, chn_is, chn_immediate, iod_free_dstbuf, discard, iod_chn_kill}
use tensix.Channels.Lists.{IsChannels}

-- Taking out a record that is linked between others a second time writes the same links.
remove-remove :
    (h : Heap) (l l' : Header) (r : ℕ)
    → (h r).prev ≢ r
    → (h r).next ≢ r
    → (remove (remove h l r).0 l' r).0 ≡ (remove h l r).0
unfolding remove set_next set_prev
remove-remove h l l' r np nn = fun_ext λ q. ground arith

-- The active channels `xs`, the inactive ones `ys` and the unused descriptors `zs`. Nothing is said
-- of the pool's list of used records: its nodes are those of the other two lists.
pub record IsIod (s : Iod) (xs ys zs : List ℕ) : Type 0 where
  pub channels : IsChannels s xs ys
  pub free : IsDeque s.heap s.pool.unused zs
  pub active_free : Apart xs zs
  pub inactive_free : Apart ys zs

pub last_or-ne : (c : ℕ) (l : List ℕ) → c ≢ 0 → c ∉ l → last_or l null ≢ c
last_or-ne c [] nz out e = nz (sym e)
last_or-ne c (x ∷ l) nz out e = cc (subst (λ k. k ∈ (x ∷ l)) e (has-last_or x l))

head_or-ne : (c : ℕ) (l : List ℕ) → c ≢ 0 → c ∉ l → head_or l null ≢ c
head_or-ne c [] nz out e = nz (sym e)
head_or-ne c (x ∷ l) nz out e = absurd (ground arith)

module _ (s : Iod) (c : ℕ) (xs us vs zs : List ℕ) (is : IsIod s xs (us ++ (c ∷ vs)) zs) where
  inactive : IsDeque s.heap s.inactive (us ++ (c ∷ vs))
  inactive = is.channels.lists.unused

  links : ((s.heap c).prev ≡ last_or us null) × ((s.heap c).next ≡ head_or vs null)
  links = let l = Links-split s.heap null null us (c ∷ vs) inactive.links in (l.1.0, l.1.1)

  parts : Distinct us × Distinct (c ∷ vs) × Apart us (c ∷ vs)
  parts = Distinct-split us (c ∷ vs) inactive.distinct

  out : c ∉ (us ++ vs)
  out =
      ground
        (arith, has-append c us vs, Apart-symm us (c ∷ vs) parts.2 c (mem_self c vs), parts.1.1)

  removed :
      IsDeque (remove s.heap s.inactive c).0 (remove s.heap s.inactive c).1 (us ++ vs)
      × SameOutside (us ++ vs) s.heap (remove s.heap s.inactive c).0
  removed = remove_lem s.heap s.inactive c us vs inactive

  h1 : Heap
  h1 = (remove s.heap s.inactive c).0

  h3 : Heap
  h3 = (push h1 s.pool.unused c).0

  out_us : c ∉ us
  out_us = Apart-symm us (c ∷ vs) parts.2 c (mem_self c vs)

  again : (remove h1 s.pool.used c).0 ≡ h1
  unfolding h1
  again =
      remove-remove s.heap s.inactive s.pool.used c
        (λ e. last_or-ne c us parts.1.0 out_us (sym links.0 ∙ e))
        (λ e. head_or-ne c vs parts.1.0 parts.1.1 (sym links.1 ∙ e))

  here : c ∈ (us ++ (c ∷ vs))
  here = mem-append_right c us (c ∷ vs) (mem_self c vs)

  kept : (q : ℕ) → q ∈ (us ++ vs) → q ∈ (us ++ (c ∷ vs))
  kept q i = ground (arith, has-append q us vs, has-append q us (c ∷ vs))

  free_kept : Apart (us ++ vs) zs
  free_kept q i = is.inactive_free q (kept q i)

  active_kept : Apart xs (us ++ vs)
  active_kept q i =
      ground (arith, is.channels.lists.apart q i, has-append q us vs, has-append q us (c ∷ vs))

  -- The queues after the channel was taken out of its own.
  free1 : IsDeque h1 s.pool.unused zs
  unfolding h1
  free1 = IsDeque-frame s.heap h1 s.pool.unused (us ++ vs) zs removed.1 free_kept is.free

  active1 : IsDeque h1 s.active xs
  unfolding h1
  active1 =
      IsDeque-frame s.heap h1 s.active (us ++ vs) xs removed.1
        (Apart-symm xs (us ++ vs) active_kept) is.channels.lists.used

  inactive1 : IsDeque h1 (remove s.heap s.inactive c).1 (us ++ vs)
  unfolding h1
  inactive1 = removed.0

  pushed :
      IsDeque h3 (push h1 s.pool.unused c).1 (zs ++ (c ∷ [])) × SameOutside (zs ++ (c ∷ [])) h1 h3
  unfolding h3
  pushed = push_lem h1 s.pool.unused c zs free1 parts.1.0 (is.inactive_free c here)

  apart_free : (ps : List ℕ) → Apart ps zs → c ∉ ps → Apart ps (zs ++ (c ∷ []))
  apart_free ps apart absent q i =
      ground (arith, apart q i, has-append q zs (c ∷ []), mem-ne' q c ps i absent)

  inactive_out : Apart (us ++ vs) (zs ++ (c ∷ []))
  inactive_out = apart_free (us ++ vs) free_kept out

  active_out : Apart xs (zs ++ (c ∷ []))
  active_out =
      apart_free xs is.active_free (Apart-symm xs (us ++ (c ∷ vs)) is.channels.lists.apart c here)

  discard_heap : (discard s c).heap ≡ h3
  unfolding discard pool_free h1 h3
  discard_heap = ap (λ h. (push h s.pool.unused c).0) again

  discard_free : (discard s c).pool.unused ≡ (push h1 s.pool.unused c).1
  unfolding discard pool_free h1
  discard_free = ap (λ h. (push h s.pool.unused c).1) again

  discard_active : (discard s c).active ≡ s.active
  unfolding discard
  discard_active = refl

  discard_inactive : (discard s c).inactive ≡ (remove s.heap s.inactive c).1
  unfolding discard
  discard_inactive = refl

  discard_chan : (discard s c).chan ≡ s.chan
  unfolding discard
  discard_chan = refl

  discard-IsIod : IsIod (discard s c) xs (us ++ vs) (zs ++ (c ∷ []))
  discard-IsIod = record {
    channels = record {
      lists = record {
        used =
            rw (discard_heap, discard_active)
              (IsDeque-frame h1 h3 s.active (zs ++ (c ∷ [])) xs pushed.1
                (Apart-symm xs _ active_out) active1);
        unused =
            rw (discard_heap, discard_inactive)
              (IsDeque-frame h1 h3 (remove s.heap s.inactive c).1 (zs ++ (c ∷ [])) (us ++ vs)
                pushed.1 (Apart-symm (us ++ vs) _ inactive_out) inactive1);
        apart = active_kept;
      };
      on = λ q i. rw discard_chan (is.channels.on q i);
      off = λ q i. rw discard_chan (is.channels.off q (kept q i));
      byte = λ q. rw discard_chan (is.channels.byte q);
    };
    free = rw (discard_heap, discard_free) pushed.0;
    active_free = active_out;
    inactive_free = inactive_out;
  }

-- What `iod_chn_kill` does before leaves the lists and the flags alone.
IsIod-same :
    (s s' : Iod) (xs ys zs : List ℕ)
    → s'.heap ≡ s.heap
    → s'.active ≡ s.active
    → s'.inactive ≡ s.inactive
    → s'.pool ≡ s.pool
    → ((q : ℕ) → (s'.chan q).flags ≡ (s.chan q).flags)
    → IsIod s xs ys zs
    → IsIod s' xs ys zs
IsIod-same s s' xs ys zs eh ea ei ep ef is = record {
  channels = record {
    lists = rw (eh, ea, ei) is.channels.lists;
    on = λ q i. rw (ef q) (is.channels.on q i);
    off = λ q i. rw (ef q) (is.channels.off q i);
    byte = λ q. rw (ef q) (is.channels.byte q);
  };
  free = rw (eh, ep) is.free;
  active_free = is.active_free;
  inactive_free = is.inactive_free;
}

iod_free_dstbuf-IsIod :
    (s : Iod) (c : ℕ) (xs ys zs : List ℕ) → IsIod s xs ys zs → IsIod (iod_free_dstbuf s c) xs ys zs
unfolding iod_free_dstbuf
iod_free_dstbuf-IsIod s c xs ys zs is = elim (Bool-cases ((s.chan c).dstbuf == null)) [
  | inl none_left ↦ rw none_left is
  | inr some_left ↦
      rw some_left (IsIod-same s _ xs ys zs refl refl refl refl (λ q. ground arith) is)
]

-- `iod_chn_kill` of an inactive channel, whichever process runs, takes it off the inactive ones and
-- puts its descriptor at the end of the pool's unused ones; the other channels stay where they are.
pub iod_chn_kill_lem :
    (s : Iod) (current c : ℕ) (xs us vs zs : List ℕ)
    → IsIod s xs (us ++ (c ∷ vs)) zs
    → IsIod (iod_chn_kill s current c) xs (us ++ vs) (zs ++ (c ∷ []))
unfolding iod_chn_kill
iod_chn_kill_lem s current c xs us vs zs is =
    let f = iod_free_dstbuf-IsIod s c xs (us ++ (c ∷ vs)) zs is in
    discard-IsIod _ c xs us vs zs
      (elim (Bool-cases (chn_is (iod_free_dstbuf s c) c chn_immediate)) [
        | inl e ↦ rw e f
        | inr e ↦ rw e (
            IsIod-same (iod_free_dstbuf s c) _ xs (us ++ (c ∷ vs)) zs refl refl refl refl
              (λ q. refl) f)
      ])
