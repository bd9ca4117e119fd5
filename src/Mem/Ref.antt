-- ===== src/Mem/Ref.antt =====
-- `mem_pages_ref`: marking pages as used.
use tensix.Base.{
  ℕ, zero, suc, ◌+◌, ◌<◌, ◌≤◌, ◌≡◌, ◌⊎◌, inl, ◌∙◌, refl, arith, Bool, true, false, not, ◌==◌,
  if◌then◌else◌, get_or-set_self, get_or-set_ne, ℕ_discrete, ==_ne, ==_refl, subst, sym, ap,
}
use tensix.Mem.{Pages, num_pages, next_page, page_used, page_alloc, page_info, info, mem_pages_ref}
use tensix.Mem.Count.{IsValid, page_alloc-IsValid, used-page_alloc}

-- Page `q` lies among the `num` pages from `p` on, or outside.
abbrev pub Among : ℕ → ℕ → ℕ → Type 0
Among p num q = (p ≤ q) × (q < p + num)

abbrev pub Outside : ℕ → ℕ → ℕ → Type 0
Outside p num q = (q < p) ⊎ (p + num ≤ q)

-- None of the `num` pages from `p` on is used.
abbrev pub Unused : Pages → ℕ → ℕ → Type 0
Unused m p num = (q : ℕ) → p ≤ q → q < p + num → page_used m q ≡ false

-- `m'` is `m` with the `num` pages from `p` on used, all but the last with the continuation flag.
pub record Taken (m m' : Pages) (p num fsize proc : ℕ) : Type 0 where
  pub valid : IsValid m'
  pub free : m'.free + num ≡ m.free
  pub used_in : (q : ℕ) → Among p num q → page_used m' q ≡ true
  pub used_out : (q : ℕ) → Outside p num q → page_used m' q ≡ page_used m q
  pub info_in : (q : ℕ) → Among p num q → info m' q ≡ page_info fsize (not (suc q == p + num)) proc
  pub info_out : (q : ℕ) → Outside p num q → info m' q ≡ info m q
  pub below : m'.below ≡ m.below
  pub locked : m'.locked ≡ m.locked

info-page_alloc :
    (m : Pages) (p q fsize proc : ℕ) (cont : Bool)
    → IsValid m
    → p < num_pages
    → info (page_alloc m p fsize cont proc) q
      ≡ (if p == q then page_info fsize cont proc else info m q)
unfolding page_alloc
info-page_alloc m p q fsize proc cont v h = elim (ℕ_discrete p q) [
  | yes e ↦ rw (← e, get_or-set_self m.page_list p _ 0 (omega (arith, v.list_length)), ==_refl)
  | no ne ↦ rw (get_or-set_ne m.page_list p q _ 0 ne, ==_ne p q ne)
]

module _ (fsize proc : ℕ) where
  Taken-none : (m : Pages) (p : ℕ) → IsValid m → Taken m m p 0 fsize proc
  Taken-none m p v = record {
    valid = v;
    free = omega arith;
    used_in = λ q h. absurd (omega arith);
    used_out = λ q h. refl;
    info_in = λ q h. absurd (omega arith);
    info_out = λ q h. refl;
    below = refl;
    locked = refl;
  }

  module _ (m m' : Pages) (p num : ℕ) (v : IsValid m) (h : p < num_pages)
      (unused : page_used m p ≡ false)
      (rest : Taken (page_alloc m p fsize (not (num == 0)) proc) m' (p + 1) num fsize proc) where
    m1 : Pages
    m1 = page_alloc m p fsize (not (num == 0)) proc

    one_used : (q : ℕ) → page_used m1 q ≡ (if p == q then true else page_used m q)
    unfolding m1
    one_used q = used-page_alloc v p h fsize proc q _

    one_info :
        (q : ℕ) → info m1 q ≡ (if p == q then page_info fsize (not (num == 0)) proc else info m q)
    unfolding m1
    one_info q = info-page_alloc m p q fsize proc _ v h

    last_flag : (suc p == p + suc num) ≡ (num == 0)
    last_flag = ground arith

    Taken-suc : Taken m m' p (suc num) fsize proc
    unfolding m1 page_alloc
    Taken-suc = record {
      valid = rest.valid;
      free =
          omega (arith, rest.free, (page_alloc-IsValid v p h fsize proc (not (num == 0)) unused).1);
      used_in = λ q a. elim (ℕ_discrete p q) [
        | yes e ↦ rest.used_out q (inl (omega arith)) ∙ one_used q ∙ rw (e, ==_refl)
        | no ne ↦ rest.used_in q (omega arith)
      ];
      used_out = λ q o. rest.used_out q (omega arith) ∙ one_used q ∙ rw (==_ne p q (omega arith));
      info_in = λ q a. elim (ℕ_discrete p q) [
        | yes e ↦ rest.info_out q (inl (omega arith)) ∙ one_info q ∙ rw (← e, ==_refl, last_flag)
        | no ne ↦
            rest.info_in q (omega arith)
            ∙ ap (λ e. page_info fsize (not (suc q == e)) proc) (omega arith)
      ];
      info_out = λ q o. rest.info_out q (omega arith) ∙ one_info q ∙ rw (==_ne p q (omega arith));
      below = rest.below;
      locked = rest.locked;
    }

  -- In a valid state, `mem_pages_ref` of pages that lie in memory and are all unused takes them,
  -- and no others, with the continuation flag on all but the last.
  pub mem_pages_ref-Taken :
      (m : Pages) (p num : ℕ)
      → IsValid m
      → p + num ≤ num_pages
      → Unused m p num
      → Taken m (mem_pages_ref m p num fsize proc) p num fsize proc
  unfolding mem_pages_ref
  mem_pages_ref-Taken m p zero v h unused = Taken-none m p v
  mem_pages_ref-Taken m p (suc zero) v h unused =
      let free = unused p (omega arith) (omega arith) in
      Taken-suc m _ p 0 v (omega arith) free
        (Taken-none _ (p + 1) (page_alloc-IsValid v p (omega arith) fsize proc _ free).0)
  mem_pages_ref-Taken m p (suc (suc num)) v h unused =
      let free = unused p (omega arith) (omega arith) in
      let lt : p < num_pages = omega arith in
      let m1 = page_alloc m p fsize (not (suc num == 0)) proc in
      let e : next_page p ≡ p + 1 = omega arith in
      Taken-suc m _ p (suc num) v lt free (
        subst (λ q. Taken m1 (mem_pages_ref m1 q (suc num) fsize proc) (p + 1) (suc num) fsize proc)
          (sym e)
          (mem_pages_ref-Taken m1 (p + 1) (suc num) (page_alloc-IsValid v p lt fsize proc _ free).0
            (omega arith)
            (λ q lo hi.
              used-page_alloc v p lt fsize proc q _
              ∙ rw (==_ne p q (omega arith)) (unused q (omega arith) (omega arith)))))
