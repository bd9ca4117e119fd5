-- ===== src/Fragments/Alloc.antt =====
-- `mem_frag_alloc`: the block handed out has room, and lies within a page of the right level.
use tensix.Base.{
  ℕ, suc, ◌-◌, ◌/◌, ◌^◌, ◌<◌, ◌≤◌, ◌≡◌, refl, ap, sym, arith, Bool, true, false, List, [], ◌∷◌,
  Option, none, some, if◌then◌else◌, ◌==◌, length, get_or, Bool-cases, inl, inr, subst, ℕ_discrete,
}
use tensix.Mem.{Pages, page_used, num_pages, page_size}
use tensix.Fragments.{
  Fragment, no_fragment, Stack, ProcMem, frag_size, page_of, frag_stack, set_stack, frag_pop,
  drop_last, mem_frag_add_page, size_level, take_frag, mem_frag_alloc, zeroed,
}
use tensix.Fragments.Stacks.{IsFrag, All-top, All-drop_last}
use tensix.Fragments.Blocks.{
  Level, IsStack, IsProcMem, address, size_level_lem, IsBlock, IsBlock-address,
}
use tensix.Fragments.Grow.{
  IsProcMem-set, found, fresh, failed, pushed, IsStack-fresh, IsProcMem-fresh, nonempty,
}

abbrev pub with_entries : Stack → List Fragment → Stack
with_entries s l = record s { entries = l }

take_frag_lem :
    (h : ProcMem) (fs : ℕ) (s : Stack) (l : List Fragment)
    → IsProcMem h
    → Level fs
    → IsStack h.pages fs (with_entries s l)
    → 0 < length l
    → let r = take_frag h fs (with_entries s l) in
      IsProcMem r.1 × (pos : ℕ) × (r.0 ≡ some pos) × IsBlock r.1.pages fs pos
unfolding take_frag frag_pop
take_frag_lem h fs s [] v lv is pos = absurd (omega arith)
take_frag_lem h fs s (f ∷ l) v lv is pos =
    let top = get_or (f ∷ l) (length l) no_fragment in
    let t = All-top (IsFrag h.pages fs) f l is.frags in
    let at : get_or (f ∷ l) (suc (length l) - 1) no_fragment ≡ top =
      ap (λ i. get_or (f ∷ l) i no_fragment) (omega arith) in
    let rest : Stack = with_entries s (drop_last (f ∷ l)) in
    (
      IsProcMem-set h h.pages fs rest v v.valid lv v.stack record {
        in_memory = is.in_memory;
        used = is.used;
        whole = is.whole;
        frags = All-drop_last (IsFrag h.pages fs) f l is.frags;
      },
      address fs top,
      rw (at, t.level) refl,
      IsBlock-address h.pages fs top lv t,
    )

-- What a request is answered with.
abbrev Handed : ProcMem → ℕ → Option ℕ × ProcMem → Type 0
Handed h size r =
    IsProcMem r.1
    × ((pos : ℕ)
        → r.0 ≡ some pos
        → IsBlock r.1.pages (size_level size) pos × (size ≤ frag_size r.1.pages (page_of pos)))
    × (r.0 ≡ none → (q : ℕ) → 0 < q → q < num_pages → page_used h.pages q ≡ true)

module _ (h : ProcMem) (size : ℕ) (v : IsProcMem h) (small : size ≤ 128) where
  abbrev pub fs : ℕ
  fs = size_level size

  lv : Level fs × (size ≤ page_size / 2 ^ fs)
  lv = size_level_lem size small

  -- A fragment that is taken from a stack answers the request.
  Handed-take :
      (h1 : ProcMem) (s : Stack)
      → IsProcMem h1
      → IsStack h1.pages fs s
      → 0 < length s.entries
      → Handed h size (take_frag h1 fs s)
  Handed-take h1 s v1 is pos =
      let t = take_frag_lem h1 fs s s.entries v1 lv.0 is pos in
      (
        t.0,
        λ q e.
            let same : t.1 ≡ q = cc in
            let b : IsBlock (take_frag h1 fs s).1.pages fs q =
              subst (IsBlock (take_frag h1 fs s).1.pages fs) same t.3 in
            (b, rw b.level lv.1),
        λ e. cc,
      )

  abbrev pub s : Stack
  s = frag_stack h fs

  pub alloc_left : (length s.entries == 0) ≡ false → mem_frag_alloc h size ≡ take_frag h fs s
  unfolding mem_frag_alloc
  alloc_left e = rw e refl

  alloc_empty :
      (m' : Pages) (s' : Stack) (err : Bool)
      → (length s.entries == 0) ≡ true
      → mem_frag_add_page h.pages s fs h.id ≡ (err, m', s')
      → mem_frag_alloc h size ≡ (
          if err
          then (none, set_stack (record h { pages = m'; ram = zeroed h s fs }) fs s')
          else take_frag (set_stack (record h { pages = m'; ram = zeroed h s fs }) fs s') fs s')
  unfolding mem_frag_alloc
  alloc_empty m' s' err e add = rw (e, add) refl

  -- The process with the page zeroed that it may get.
  abbrev hz : ProcMem
  hz = record h { ram = zeroed h s fs }

  IsProcMem-hz : IsProcMem hz
  IsProcMem-hz = record { valid = v.valid; id = v.id; stack = v.stack }

  answers : Handed h size (mem_frag_alloc h size)
  unfolding fresh
  answers = elim (Bool-cases (length s.entries == 0)) [
    | inr some_left ↦
        subst (Handed h size) (sym (alloc_left some_left))
          (Handed-take h s v (v.stack fs lv.0) (ground arith))
    | inl empty ↦
        let is = v.stack fs lv.0 in
        let vz = IsProcMem-hz in
        let e : length s.entries ≡ 0 = ground arith in
        elim (ℕ_discrete (found hz vz fs lv.0 s is e) 0) [
          | yes z ↦
              let f = failed hz vz fs lv.0 s is e z in
              subst (Handed h size) (sym (alloc_empty h.pages s true empty f.0))
                (IsProcMem-set hz h.pages fs s vz v.valid lv.0 v.stack is, (λ pos n. cc), λ n. f.1)
          | no nz ↦
              subst (Handed h size)
                (sym (alloc_empty _ _ false empty (pushed hz vz fs lv.0 s is e nz)))
                (Handed-take _ (fresh hz vz fs lv.0 s is e)
                  (IsProcMem-fresh hz vz fs lv.0 s is e nz) (IsStack-fresh hz vz fs lv.0 s is e nz)
                  (nonempty hz vz fs lv.0 s is e nz))
        ]
  ]

-- From the stacks of a process that are well-formed, `mem_frag_alloc` of at most half a page leaves
-- them well-formed. The block that it hands out lies within one page that is in use, at a
-- fragment's boundary, and its fragment is of the requested size at least. It hands out none only
-- where all pages but page 0 are in use.
pub mem_frag_alloc_lem :
    (h : ProcMem) (size : ℕ)
    → IsProcMem h
    → size ≤ 128
    → let (r, h') = mem_frag_alloc h size in
      IsProcMem h'
      × ((pos : ℕ)
          → r ≡ some pos
          → IsBlock h'.pages (size_level size) pos × (size ≤ frag_size h'.pages (page_of pos)))
      × (r ≡ none → (q : ℕ) → 0 < q → q < num_pages → page_used h.pages q ≡ true)
mem_frag_alloc_lem h size v small = answers h size v small
