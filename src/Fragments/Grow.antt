-- ===== src/Fragments/Grow.antt =====
-- `mem_frag_add_page`: a new page for an empty stack.
use tensix.Base.{
  ℕ, ◌+◌, ◌-◌, ◌*◌, ◌^◌, ◌<◌, ◌≤◌, ◌≡◌, ◌≢◌, ◌∙◌, refl, ap, arith, true, false, List, [], ◌∷◌, ◌++◌,
  ltb, length, ==_ne, ==_refl, ◌⊎◌, ℕ_discrete,
}
use tensix.Mem.{Pages, page_used, num_pages, info_frag, mem_page_alloc}
use tensix.Mem.Info.{page_info_lem}
use tensix.Mem.Count.{IsValid}
use tensix.Mem.Ref.{Taken}
use tensix.Mem.Alloc.{mem_page_alloc_lem}
use tensix.Fragments.{
  Fragment, Stack, ProcMem, frag_log, frag_size, frag_num, frag_stack, set_stack, push_frags,
  frag_space, mem_frag_add_page,
}
use tensix.Fragments.Stacks.{
  IsFrag, AllFrags, length-frags_of, push_frags_fits, frags_of-AllFrags, frags_of,
}
use tensix.Fragments.Blocks.{Level, IsStack, IsProcMem, pow_level, pow_pos}

-- What a newly taken page leaves as it was.
module _ {m m' : Pages} {p fs id : ℕ} (taken : Taken m m' p 1 fs id)
    (free : page_used m p ≡ false) where
  apart : (q : ℕ) → page_used m q ≡ true → (page_used m' q ≡ true) × (frag_log m' q ≡ frag_log m q)
  apart q used =
      let ne : q ≢ p = λ e. absurd (ground (arith, ap (page_used m) e)) in
      let out : (q < p) ⊎ (p + 1 ≤ q) = omega arith in
      (taken.used_out q out ∙ used, ap info_frag (taken.info_out q out))

  IsFrag-Taken : (k : ℕ) (f : Fragment) → IsFrag m k f → IsFrag m' k f
  IsFrag-Taken k f v =
      let a = apart f.page v.used in
      record { in_memory = v.in_memory; used = a.0; level = a.1 ∙ v.level; index = v.index }

  AllFrags-Taken : (k : ℕ) (l : List Fragment) → AllFrags m k l → AllFrags m' k l
  AllFrags-Taken k [] v = tt
  AllFrags-Taken k (f ∷ l) v = (IsFrag-Taken k f v.0, AllFrags-Taken k l v.1)

  IsStack-Taken : (k : ℕ) (s : Stack) → IsStack m k s → IsStack m' k s
  IsStack-Taken k s v =
      let a = apart s.base v.used in
      record {
        in_memory = v.in_memory;
        used = a.0;
        whole = a.1 ∙ v.whole;
        frags = AllFrags-Taken k s.entries v.frags;
      }

length_nil : (l : List Fragment) → length l ≡ 0 → l ≡ []
length_nil [] e = refl
length_nil (f ∷ l) e = absurd (omega arith)

-- Putting back a stack of level `fs`.
pub IsProcMem-set :
    (h : ProcMem) (m : Pages) (fs : ℕ) (s : Stack)
    → IsProcMem h
    → IsValid m
    → Level fs
    → ((k : ℕ) → Level k → IsStack m k (frag_stack h k))
    → IsStack m fs s
    → IsProcMem (set_stack (record h { pages = m }) fs s)
IsProcMem-set h m fs s v valid lv others here = record {
  valid = valid;
  id = v.id;
  stack = λ k lk. elim (ℕ_discrete k fs) [
    | yes e ↦ rw (e, ==_refl) here
    | no ne ↦ rw (==_ne (k - 1) (fs - 1) (omega arith)) (others k lk)
  ];
}

-- What `mem_frag_add_page` does with an empty stack of level `fs`.
module _ (h : ProcMem) (v : IsProcMem h) (fs : ℕ) (lv : Level fs) (s : Stack)
    (is : IsStack h.pages fs s) (empty : length s.entries ≡ 0) where
  pub found : ℕ
  found = (mem_page_alloc h.pages fs h.id).0

  pub m' : Pages
  m' = (mem_page_alloc h.pages fs h.id).1

  space : ltb (frag_space s) (2 * frag_num fs) ≡ false
  unfolding frag_space
  space = rw empty (ground (arith, pow_level fs lv.1))

  add_page_fails : found ≡ 0 → mem_frag_add_page h.pages s fs h.id ≡ (true, m', s)
  unfolding found m' mem_frag_add_page
  add_page_fails z = rw (space, z) refl

  add_page_pushes :
      found ≢ 0 → mem_frag_add_page h.pages s fs h.id ≡ push_frags m' s found 0 (frag_num fs)
  unfolding found m' mem_frag_add_page
  add_page_pushes nz = rw (space, ==_ne _ 0 nz) refl

  pub failed :
      found ≡ 0
      → (mem_frag_add_page h.pages s fs h.id ≡ (true, h.pages, s))
        × ((q : ℕ) → 0 < q → q < num_pages → page_used h.pages q ≡ true)
  unfolding found m'
  failed z =
      let a = mem_page_alloc_lem h.pages fs h.id v.valid in
      (add_page_fails z ∙ ap (λ t. (true, t, s)) (a.1 z), λ q pos lt. a.0 q (omega arith) lt)

  unfoldable pub fresh : Stack
  fresh = record s { entries = frags_of found 0 (2 ^ fs) }

  module _ (nz : found ≢ 0) where
    taken :
        (found < num_pages) × (page_used h.pages found ≡ false) × Taken h.pages m' found 1 fs h.id
    unfolding found m'
    taken = (mem_page_alloc_lem h.pages fs h.id v.valid).2 nz

    new_level : frag_log m' found ≡ fs
    new_level =
        ap info_frag (taken.2.info_in found (omega arith)) ∙ (page_info_lem fs h.id _ lv.1 v.id).0

    number : frag_num fs ≡ 2 ^ fs
    number = omega (arith, pow_level fs lv.1)

    no_entries : s.entries ≡ []
    no_entries = length_nil s.entries empty

    roomy : 2 * (length s.entries + 2 ^ fs) + 4 ≤ frag_size m' s.base
    roomy =
        let a = apart taken.2 taken.1 s.base is.used in
        rw (a.1, is.whole, empty) (omega (arith, pow_level fs lv.1))

    pub pushed : mem_frag_add_page h.pages s fs h.id ≡ (false, m', fresh)
    unfolding fresh
    pushed =
        add_page_pushes nz
        ∙ ap (push_frags m' s found 0) number
        ∙ push_frags_fits m' s found 0 (2 ^ fs) roomy
        ∙ ap (λ l. (false, m', record s { entries = l ++ frags_of found 0 (2 ^ fs) })) no_entries

    pub IsStack-fresh : IsStack m' fs fresh
    unfolding fresh
    IsStack-fresh =
        let a = IsStack-Taken taken.2 taken.1 fs s is in
        record {
          in_memory = a.in_memory;
          used = a.used;
          whole = a.whole;
          frags =
              frags_of-AllFrags m' fs found 0 (2 ^ fs) taken.0 (taken.2.used_in found (omega arith))
                new_level (omega arith);
        }

    pub IsProcMem-fresh : IsProcMem (set_stack (record h { pages = m' }) fs fresh)
    IsProcMem-fresh =
        IsProcMem-set h m' fs fresh v taken.2.valid lv
          (λ k lk. IsStack-Taken taken.2 taken.1 k (frag_stack h k) (v.stack k lk)) IsStack-fresh

    pub nonempty : 0 < length fresh.entries
    unfolding fresh
    nonempty = omega (arith, length-frags_of found 0 (2 ^ fs), pow_pos fs lv.1)
