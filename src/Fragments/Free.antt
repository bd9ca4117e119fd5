-- ===== src/Fragments/Free.antt =====
-- `mem_frag_free`: a block that goes back is the fragment that was handed out.
use tensix.Base.{
  ℕ, suc, ◌+◌, ◌-◌, ◌*◌, ◌/◌, ◌^◌, ◌<◌, ◌≤◌, ◌≡◌, ◌∙◌, refl, ap, ap₂, sym, arith, List, [], ◌∷◌,
  ◌++◌, Option, none, some, if◌then◌else◌, ◌==◌, length, get_or, Bool-cases, inl, inr, subst,
  fun_ext, ==_refl,
}
use tensix.Mem.{Pages, page_size}
use tensix.Fragments.{
  Fragment, no_fragment, Stack, ProcMem, frag_size, frag_size_log, frag_num, page_of, frag_idx,
  frag_stack, set_stack, frag_push, frag_pop, drop_last, size_level, take_frag, mem_frag_alloc,
  clear, push_freed, free_frag, mem_frag_free, mem_frag_clean_stack,
}
use tensix.Fragments.Clean.Counts.{clean_few}
use tensix.Fragments.Stacks.{
  IsFrag, AllFrags, All-top, All-drop_last, drop_last_lem, length-drop_last, frag_push_fits,
}
use tensix.Fragments.Blocks.{
  Level, IsStack, IsProcMem, address, address_lem, pow_level, size_level_lem, IsBlock,
  IsBlock-address,
}
use tensix.Fragments.Grow.{IsProcMem-set}
use tensix.Fragments.Alloc.{alloc_left}

-- Freeing a fragment of level `fs` into a stack with `st` on it, less than fills a page.
module _ (h : ProcMem) (v : IsProcMem h) (fs : ℕ) (lv : Level fs) (f : Fragment)
    (isf : IsFrag h.pages fs f) (few : length (frag_stack h fs).entries < 2 ^ fs) where
  abbrev pub pos : ℕ
  pos = address fs f

  abbrev pub st : List Fragment
  st = (frag_stack h fs).entries

  at : IsBlock h.pages fs pos
  at = IsBlock-address h.pages fs f lv isf

  the_page : page_of pos ≡ f.page
  the_page = (address_lem fs f lv isf.in_memory isf.index).0

  the_idx : frag_idx h.pages pos ≡ f.idx
  the_idx = rw at.level ((address_lem fs f lv isf.in_memory isf.index).1)

  clean : mem_frag_clean_stack h.pages st (frag_num fs) ≡ some (h.pages, st)
  clean = clean_few h.pages st (frag_num fs) (ground (arith, pow_level fs lv.1))

  abbrev pub after : Stack
  after = record (frag_stack h fs) { entries = st ++ (f ∷ []) }

  pushes : frag_push h.pages (frag_stack h fs) f ≡ some after
  pushes =
      frag_push_fits h.pages (frag_stack h fs) f
        (rw ((v.stack fs lv).whole) (omega (arith, pow_level fs lv.1)))

  level_ram :
      clear h.ram pos (frag_size h.pages (page_of pos)) ≡ clear h.ram pos (page_size / 2 ^ fs)
  level_ram = ap (λ k. clear h.ram pos (page_size / 2 ^ k)) at.level

  pushed_freed :
      push_freed
        (record h { ram = clear h.ram pos (frag_size h.pages (page_of pos)) })
        pos
        fs
        h.pages
        st
      ≡ set_stack (record h { ram = clear h.ram pos (page_size / 2 ^ fs) }) fs after
  unfolding push_freed
  pushed_freed =
      ap₂
        (λ (r : ℕ → ℕ) (u : Option Stack).
          set_stack (record h { ram = r }) fs (elim u [ none ↦ frag_stack h fs | some s' ↦ s' ]))
        level_ram
        (ap₂ (λ p i. frag_push h.pages (frag_stack h fs) (record { page = p; idx = i })) the_page
            the_idx
          ∙ pushes)

  pub mem_frag_free_few :
      mem_frag_free h pos
      ≡ some (set_stack (record h { ram = clear h.ram pos (page_size / 2 ^ fs) }) fs after)
  unfolding mem_frag_free free_frag
  mem_frag_free_few = rw at.legal (
      ap (free_frag h pos) at.level
      ∙ ap
          (λ (u : Option (Pages × List Fragment)). elim u [
            | none ↦ none
            | some (m, l) ↦ some (
                push_freed (record h { ram = clear h.ram pos (frag_size h.pages (page_of pos)) })
                  pos fs m l)
          ])
          clean
      ∙ ap some pushed_freed)

-- The fragment taken off the stack, and put back.
abbrev off_of : ProcMem → ℕ → List Fragment → ProcMem
off_of h fs l = set_stack h fs (record (frag_stack h fs) { entries = l })

module _ (h : ProcMem) (ram : ℕ → ℕ) (fs : ℕ) (l : List Fragment) (f : Fragment)
    (whole : l ++ (f ∷ []) ≡ (frag_stack h fs).entries) where
  abbrev off : ProcMem
  off = off_of h fs l

  off_stack : frag_stack off fs ≡ record (frag_stack h fs) { entries = l }
  off_stack = rw ==_refl refl

  back : Stack
  back = record (frag_stack off fs) { entries = (frag_stack off fs).entries ++ (f ∷ []) }

  back_lem : back ≡ frag_stack h fs
  unfolding back
  back_lem =
      ap (λ (s : Stack). record s { entries = s.entries ++ (f ∷ []) }) off_stack
      ∙ ap (λ e. record (frag_stack h fs) { entries = e }) whole

  same_stacks : (i : ℕ) → (if i == fs - 1 then back else off.stacks i) ≡ h.stacks i
  same_stacks i = elim (Bool-cases (i == fs - 1)) [
    | inl e ↦ let same : fs - 1 ≡ i = ground arith in rw e (back_lem ∙ ap h.stacks same)
    | inr e ↦ rw e refl
  ]

  restored : set_stack (record off { ram = ram }) fs back ≡ record h { ram = ram }
  restored = ap (λ k. record h { ram = ram; stacks = k }) (fun_ext same_stacks)

module _ (h : ProcMem) (v : IsProcMem h) (fs : ℕ) (lv : Level fs) (f : Fragment) (l : List Fragment)
    (entries : (frag_stack h fs).entries ≡ f ∷ l) (few : length l < 2 ^ fs) where
  top : Fragment
  top = get_or (f ∷ l) (length l) no_fragment

  rest : List Fragment
  rest = drop_last (f ∷ l)

  whole : rest ++ (top ∷ []) ≡ (frag_stack h fs).entries
  unfolding rest top
  whole = drop_last_lem f l ∙ sym entries

  frags : IsFrag h.pages fs top
  unfolding top
  frags =
      All-top (IsFrag h.pages fs) f l (subst (AllFrags h.pages fs) entries (v.stack fs lv).frags)

  last : suc (length l) - 1 ≡ length l
  last = omega arith

  taken : take_frag h fs (frag_stack h fs) ≡ (some (address fs top), off_of h fs rest)
  unfolding take_frag frag_pop top rest
  taken =
      ap (λ e. take_frag h fs (record (frag_stack h fs) { entries = e })) entries
      ∙ ap
          (λ n.
            let g = get_or (f ∷ l) n no_fragment in
            (
              some (g.page * page_size + g.idx * 2 ^ frag_size_log h.pages g.page),
              off_of h fs (drop_last (f ∷ l)),
            ))
          last
      ∙ ap
          (λ k.
            (some (top.page * page_size + top.idx * 2 ^ (8 - k)), off_of h fs (drop_last (f ∷ l))))
          frags.level

  IsStack-rest : IsStack h.pages fs (record (frag_stack h fs) { entries = rest })
  unfolding rest
  IsStack-rest =
      let is = v.stack fs lv in
      record {
        in_memory = is.in_memory;
        used = is.used;
        whole = is.whole;
        frags =
            All-drop_last (IsFrag h.pages fs) f l (subst (AllFrags h.pages fs) entries is.frags);
      }

  IsProcMem-off : IsProcMem (off_of h fs rest)
  IsProcMem-off = IsProcMem-set h h.pages fs _ v v.valid lv v.stack IsStack-rest

  freed :
      mem_frag_free (off_of h fs rest) (address fs top)
      ≡ some (record h { ram = clear h.ram (address fs top) (page_size / 2 ^ fs) })
  unfolding rest back
  freed =
      mem_frag_free_few (off_of h fs rest) IsProcMem-off fs lv top frags
        (rw (off_stack h h.ram fs rest top whole) (omega (arith, length-drop_last f l)))
      ∙ ap some (restored h (clear h.ram (address fs top) (page_size / 2 ^ fs)) fs rest top whole)

abbrev Restored : ProcMem → ℕ → Option ℕ × ProcMem → Type 0
Restored h fs r =
    (pos : ℕ) × (r.0 ≡ some pos)
    × (mem_frag_free r.1 pos ≡ some (record h { ram = clear h.ram pos (page_size / 2 ^ fs) }))

free-take_frag :
    (h : ProcMem) (fs : ℕ) (l : List Fragment)
    → IsProcMem h
    → Level fs
    → (frag_stack h fs).entries ≡ l
    → 0 < length l
    → length l ≤ 2 ^ fs
    → Restored h fs (take_frag h fs (frag_stack h fs))
free-take_frag h fs [] v lv e some_left few = absurd (omega arith)
free-take_frag h fs (f ∷ l) v lv e some_left few =
    subst (Restored h fs) (sym (taken h v fs lv f l e (omega arith)))
      (address fs (top h v fs lv f l e (omega arith)), refl, freed h v fs lv f l e (omega arith))

-- Where a process's stack of the requested size is not empty and has no more fragments than fill a
-- page, `mem_frag_alloc` followed by `mem_frag_free` of the block leaves all as it was, but for the
-- block's bytes, which are cleared.
pub free-alloc :
    (h : ProcMem) (size : ℕ)
    → IsProcMem h
    → size ≤ 128
    → 0 < length (frag_stack h (size_level size)).entries
    → length (frag_stack h (size_level size)).entries ≤ 2 ^ size_level size
    → let (r, h') = mem_frag_alloc h size in
      (pos : ℕ) × (r ≡ some pos)
      × (mem_frag_free h' pos
          ≡ some (record h { ram = clear h.ram pos (page_size / 2 ^ size_level size) }))
free-alloc h size v small some_left few =
    let fs = size_level size in
    subst (Restored h fs) (sym (alloc_left h size v small (ground arith))) (
      free-take_frag h fs (frag_stack h fs).entries v (size_level_lem size small).0 refl some_left
        few)
