-- ===== src/Fragments/Clean/Walk.antt =====
-- `mem_frag_clean_stack`: the walk over the records gives back the full runs and keeps the others.
use tensix.Base.{
  ℕ, zero, suc, ◌+◌, ◌-◌, ◌<◌, ◌≡◌, ◌∙◌, refl, ap, ap₂, sym, arith, true, false, List, [], ◌∷◌,
  ◌++◌, append_assoc, append-nil, Option, none, some, ltb, ◌==◌, length, length-append, Bool-cases,
  inl, inr,
}
use tensix.Mem.{Pages, mem_pages_unref}
use tensix.Fragments.{Fragment, page_at, count_run, copy_run, clean_loop}
use tensix.Fragments.Sort.{get_at}
use tensix.Fragments.Clean.{
  split, kept_runs, full_runs, unref_all, split-append, length-split, count_run-split, copy_run_lem,
}

-- One round of the walk, with the length `id` of the run, and its four branches.
module _ (num frags fuel : ℕ) (m : Pages) (st : List Fragment) (src dst : ℕ) where
  round : ℕ → Option (Pages × List Fragment × ℕ)
  round id = elim (ltb src num) [
    | false ↦ some (m, st, dst)
    | true ↦ (elim (id == frags) [
      | true ↦ (elim (mem_pages_unref m (page_at st src)) [
        | none ↦ none
        | some m' ↦ clean_loop fuel num frags m' st (src + id) dst
      ])
      | false ↦ (elim (src == dst) [
        | true ↦ clean_loop fuel num frags m st (src + id) (src + id)
        | false ↦ clean_loop fuel num frags m (copy_run st src dst id) (src + id) (dst + id)
      ])
    ])
  ]

  round_lem :
      (id : ℕ)
      → count_run st (page_at st src) (src + 1) (num - (src + 1)) 1 ≡ id
      → clean_loop (suc fuel) num frags m st src dst ≡ round id
  unfolding clean_loop round
  round_lem id run = ap round run

  stops : (id : ℕ) → ltb src num ≡ false → round id ≡ some (m, st, dst)
  unfolding round
  stops id stop = rw (stop, round) refl

  module _ (id : ℕ) (more : ltb src num ≡ true) where
    frees :
        (id == frags) ≡ true
        → round id ≡ elim (mem_pages_unref m (page_at st src)) [
          | none ↦ none
          | some m' ↦ clean_loop fuel num frags m' st (src + id) dst
        ]
    unfolding round
    frees full = rw (more, round, full) refl

    jumps :
        (id == frags) ≡ false
        → (src == dst) ≡ true
        → round id ≡ clean_loop fuel num frags m st (src + id) (src + id)
    unfolding round
    jumps part same = rw (more, round, part, same) refl

    copies :
        (id == frags) ≡ false
        → (src == dst) ≡ false
        → round id ≡ clean_loop fuel num frags m (copy_run st src dst id) (src + id) (dst + id)
    unfolding round
    copies part other = rw (more, round, part, other) refl

-- What the walk returns once the complete pages are given back.
abbrev pub finish : Option Pages → List Fragment → ℕ → Option (Pages × List Fragment × ℕ)
finish m st dst = elim m [ none ↦ none | some m' ↦ some (m', st, dst) ]

length_zero : (l : List Fragment) → length l ≡ 0 → l ≡ []
length_zero [] e = refl
length_zero (f ∷ l) e = absurd (omega arith)

module _ (num frags : ℕ) where
  -- From a state in which `kept` is done, `junk` is left over and `l` is still to come, the walk
  -- gives back the pages of the full runs and moves the other runs to the front.
  abbrev pub Walks : ℕ → Pages → List Fragment → List Fragment → List Fragment → ℕ → ℕ → Type 0
  Walks fuel m kept junk l src dst =
      (junk' : List Fragment) × (clean_loop fuel num frags m (kept ++ (junk ++ l)) src dst
        ≡ finish (unref_all m (full_runs frags fuel l)) ((kept ++ kept_runs frags fuel l) ++ junk')
            (length (kept ++ kept_runs frags fuel l)))

  module _ (fuel : ℕ) (m : Pages) (kept junk : List Fragment) (f : Fragment) (l : List Fragment)
      (src dst : ℕ) (d : dst ≡ length kept) (s : src ≡ length kept + length junk)
      (e : num ≡ src + suc (length l)) (small : num < 256) where
    pg : ℕ
    pg = f.page

    a : List Fragment
    a = (split f.page l).0

    b : List Fragment
    b = (split f.page l).1

    st : List Fragment
    st = kept ++ (junk ++ (f ∷ l))

    shape : st ≡ kept ++ (junk ++ ((f ∷ a) ++ b))
    unfolding st a b
    shape = ap (λ t. kept ++ (junk ++ (f ∷ t))) (sym (split-append f.page l))

    here : page_at st src ≡ f.page
    unfolding st
    here =
        ap (λ t. page_at t src) (sym (append_assoc kept junk (f ∷ l)))
        ∙ ap (λ g. g.page) (get_at (kept ++ junk) f l src (omega (arith, length-append kept junk)))

    run : count_run st (page_at st src) (src + 1) (num - (src + 1)) 1 ≡ suc (length a)
    unfolding st a
    run =
        ap₂ (λ p n. count_run st p (src + 1) n 1) here (omega arith)
        ∙ ap (λ t. count_run t f.page (src + 1) (length l) 1)
            (sym (append_assoc kept junk (f ∷ l)) ∙ sym (append_assoc (kept ++ junk) (f ∷ []) l))
        ∙ count_run-split ((kept ++ junk) ++ (f ∷ [])) l f.page (src + 1) 1
            (omega (arith, length-append kept junk, length-append (kept ++ junk) (f ∷ [])))
            (omega arith)
        ∙ omega arith

    more : ltb src num ≡ true
    more = ground arith

    begun :
        clean_loop (suc fuel) num frags m st src dst
        ≡ round num frags fuel m st src dst (suc (length a))
    begun = round_lem num frags fuel m st src dst (suc (length a)) run

    regrouped : st ≡ kept ++ ((junk ++ (f ∷ a)) ++ b)
    regrouped = shape ∙ ap (λ t. kept ++ t) (sym (append_assoc junk (f ∷ a) b))

    module _ (full : (suc (length a) == frags) ≡ true) where
      kept_full : kept_runs frags (suc fuel) (f ∷ l) ≡ kept_runs frags fuel b
      unfolding kept_runs a b
      kept_full = rw full refl

      pages_full : full_runs frags (suc fuel) (f ∷ l) ≡ pg ∷ full_runs frags fuel b
      unfolding full_runs a b pg
      pages_full = rw full refl

      freed : clean_loop (suc fuel) num frags m st src dst ≡ elim (mem_pages_unref m pg) [
        | none ↦ none
        | some m' ↦ clean_loop fuel num frags m' st (src + suc (length a)) dst
      ]
      unfolding pg
      freed =
          begun
          ∙ frees num frags fuel m st src dst (suc (length a)) more full
          ∙ ap
              (λ p. elim (mem_pages_unref m p) [
                | none ↦ none
                | some m' ↦ clean_loop fuel num frags m' st (src + suc (length a)) dst
              ])
              here

      Target : (u : Option Pages) → mem_pages_unref m pg ≡ u → List Fragment → Type 0
      Target u eu junk' =
          (elim u [
            | none ↦ none
            | some m' ↦ clean_loop fuel num frags m' st (src + suc (length a)) dst
          ])
          ≡ finish (elim u [ none ↦ none | some m' ↦ unref_all m' (full_runs frags fuel b) ])
              ((kept ++ kept_runs frags fuel b) ++ junk') (length (kept ++ kept_runs frags fuel b))

      both_outcomes :
          (u : Option Pages) (eu : mem_pages_unref m pg ≡ u)
          → ((m' : Pages) → Walks fuel m' kept (junk ++ (f ∷ a)) b (src + suc (length a)) dst)
          → (junk' : List Fragment) × Target u eu junk'
      unfolding Target
      both_outcomes none eu rest = ([], refl)
      both_outcomes (some m') eu rest =
          let r = rest m' in
          (r.0, ap (λ t. clean_loop fuel num frags m' t (src + suc (length a)) dst) regrouped ∙ r.1)

      case_full :
          ((m' : Pages) → Walks fuel m' kept (junk ++ (f ∷ a)) b (src + suc (length a)) dst)
          → Walks (suc fuel) m kept junk (f ∷ l) src dst
      unfolding Target st unref_all
      case_full rest =
          let w = both_outcomes (mem_pages_unref m pg) refl rest in
          (w.0, rw (kept_full, pages_full) (freed ∙ w.1))

    module _ (part : (suc (length a) == frags) ≡ false) where
      kept_part : kept_runs frags (suc fuel) (f ∷ l) ≡ (f ∷ a) ++ kept_runs frags fuel b
      unfolding kept_runs a b
      kept_part = rw part refl

      pages_part : full_runs frags (suc fuel) (f ∷ l) ≡ full_runs frags fuel b
      unfolding full_runs a b pg
      pages_part = rw part refl

      -- Both ways the run joins what is kept.
      joins :
          (junk' : List Fragment) (src' dst' : ℕ)
          → clean_loop (suc fuel) num frags m st src dst
            ≡ clean_loop fuel num frags m ((kept ++ (f ∷ a)) ++ (junk' ++ b)) src' dst'
          → Walks fuel m (kept ++ (f ∷ a)) junk' b src' dst'
          → Walks (suc fuel) m kept junk (f ∷ l) src dst
      unfolding st
      joins junk' src' dst' eq rest = (
        rest.0,
        rw (kept_part, pages_part, ← append_assoc kept (f ∷ a) (kept_runs frags fuel b))
            (eq ∙ rest.1),
      )

      case_jump :
          junk ≡ []
          → Walks fuel m (kept ++ (f ∷ a)) [] b (src + suc (length a)) (src + suc (length a))
          → Walks (suc fuel) m kept junk (f ∷ l) src dst
      case_jump none' rest =
          joins [] (src + suc (length a)) (src + suc (length a))
            (begun
              ∙ jumps num frags fuel m st src dst (suc (length a)) more part
                  (ground (arith, ap length none'))
              ∙ ap
                  (λ t. clean_loop fuel num frags m t (src + suc (length a)) (src + suc (length a)))
                  (shape
                    ∙ ap (λ j. kept ++ (j ++ ((f ∷ a) ++ b))) none'
                    ∙ sym (append_assoc kept (f ∷ a) b)))
            rest

      case_copy :
          0 < length junk
          → ((junk' : List Fragment)
              → length junk' ≡ length junk
              → Walks fuel m
                  (kept ++ (f ∷ a))
                  junk'
                  b
                  (src + suc (length a))
                  (dst + suc (length a)))
          → Walks (suc fuel) m kept junk (f ∷ l) src dst
      case_copy apart rest =
          let moved = copy_run_lem (f ∷ a) kept junk b src dst d s apart in
          joins moved.0 (src + suc (length a)) (dst + suc (length a))
            (begun
              ∙ copies num frags fuel m st src dst (suc (length a)) more part (ground arith)
              ∙ ap
                  (λ t. clean_loop fuel num frags m t (src + suc (length a)) (dst + suc (length a)))
                  (ap (λ t. copy_run t src dst (suc (length a))) shape ∙ moved.1))
            (rest moved.0 moved.2)

  pub clean_loop-Walks :
      (fuel : ℕ) (m : Pages) (kept junk l : List Fragment) (src dst : ℕ)
      → dst ≡ length kept
      → src ≡ length kept + length junk
      → num ≡ src + length l
      → num < 256
      → length l < fuel
      → Walks fuel m kept junk l src dst
  unfolding full_runs kept_runs unref_all a b
  clean_loop-Walks zero m kept junk l src dst d s e small h = absurd (omega arith)
  clean_loop-Walks (suc fuel) m kept junk [] src dst d s e small h = (
    junk,
    round_lem num frags fuel m (kept ++ (junk ++ [])) src dst _ refl
        ∙ stops num frags fuel m (kept ++ (junk ++ [])) src dst _ (ground arith)
        ∙ ap₂ (λ st n. some (m, st, n))
            (ap₂ (λ p q. p ++ q) (sym (append-nil kept)) (append-nil junk))
            (d ∙ ap length (sym (append-nil kept))),
  )
  clean_loop-Walks (suc fuel) m kept junk (f ∷ l) src dst d s e small h =
      let r = split f.page l in
      let n = length-split f.page l in
      let after : num ≡ src + suc (length r.0) + length r.1 = omega arith in
      elim (Bool-cases (suc (length r.0) == frags)) [
        | inl full ↦ case_full fuel m kept junk f l src dst d s e small full λ m'.
            clean_loop-Walks fuel m' kept (junk ++ (f ∷ r.0)) r.1 (src + suc (length r.0)) dst d
              (omega (arith, length-append junk (f ∷ r.0))) after small (omega arith)
        | inr part ↦ elim (Bool-cases (src == dst)) [
          | inl same ↦
              case_jump fuel m kept junk f l src dst d s e small part
                (length_zero junk (ground arith))
                (clean_loop-Walks fuel m (kept ++ (f ∷ r.0)) [] r.1 (src + suc (length r.0))
                  (src + suc (length r.0)) (ground (arith, length-append kept (f ∷ r.0)))
                  (ground (arith, length-append kept (f ∷ r.0))) after small (omega arith))
          | inr other ↦
              case_copy fuel m kept junk f l src dst d s e small part (ground arith) λ junk' e'.
                clean_loop-Walks fuel m (kept ++ (f ∷ r.0)) junk' r.1 (src + suc (length r.0))
                  (dst + suc (length r.0)) (omega (arith, length-append kept (f ∷ r.0)))
                  (omega (arith, length-append kept (f ∷ r.0))) after small (omega arith)
        ]
      ]
