-- ===== src/Mem/Kill.antt =====
-- `mem_kill_proc`: the pages that a process leaves behind.
use tensix.Base.{
  ℕ, zero, suc, ◌+◌, ◌%◌, ◌<◌, ◌≤◌, ◌≡◌, ◌⊎◌, inl, inr, ◌∙◌, ap, ap₂, subst, sym, refl, arith, Bool,
  true, false, not, ◌&&◌, ◌||◌, ◌==◌, if◌then◌else◌, ℕ_discrete, Bool-cases,
}
use tensix.Bitmap.Bits.{Bytes, get_or-IsByte}
use tensix.Mem.{
  Pages, num_pages, page_used, page_free, page_info, info, info_locked, info_proc, kill_loop,
  mem_kill_proc,
}
use tensix.Mem.Count.{IsValid}
use tensix.Mem.Info.{page_info_lem}
use tensix.Mem.Ref.{Among, Outside, Taken}
use tensix.Mem.Unref.{Given-one}

-- Page `q` is used, not locked, and its info names process `id`.
abbrev pub owned : Pages → ℕ → ℕ → Bool
owned m id q =
    not (info_locked (info m q) || not (page_used m q) || not (info_proc (info m q) == id))

module _ (id : ℕ) where
  kill_one : Pages → ℕ → Pages
  kill_one m p =
      if info_locked (info m p) || not (page_used m p) || not (info_proc (info m p) == id)
      then m
      else page_free m p

  record Killed (m m' : Pages) (p num : ℕ) : Type 0 where
    valid : IsValid m'
    used_in : (q : ℕ) → Among p num q → page_used m' q ≡ (page_used m q && not (owned m id q))
    used_out : (q : ℕ) → Outside p num q → page_used m' q ≡ page_used m q
    info_out : (q : ℕ) → Outside p num q → info m' q ≡ info m q

  owned_cleared :
      (m : Pages) (p : ℕ) → owned m id p ≡ true → false ≡ (page_used m p && not (owned m id p))
  owned_cleared m p e = ground arith

  other_kept :
      (m : Pages) (p : ℕ)
      → owned m id p ≡ false
      → page_used m p ≡ (page_used m p && not (owned m id p))
  other_kept m p e = ground arith

  at : (m : Pages) (p q : ℕ) → q ≡ p → owned m id p ≡ owned m id q
  at m p q e = ap (owned m id) (sym e)

  kill_one_lem : (m : Pages) (p : ℕ) → IsValid m → p < num_pages → Killed m (kill_one m p) p 1
  kill_one_lem m p v h = elim (Bool-cases (owned m id p)) [
    | inl mine ↦
        let used : page_used m p ≡ true = ground arith in
        let e : kill_one m p ≡ page_free m p = unfold kill_one in ground arith in
        let g = Given-one m p v h used in
        subst (λ k. Killed m k p 1) (sym e)
          (record {
            valid = g.valid;
            used_in =
                λ q a. g.used_in q a ∙ owned_cleared m q (sym (at m p q (omega arith)) ∙ mine);
            used_out = g.used_out;
            info_out = g.info_out;
          })
    | inr other ↦
        let e : kill_one m p ≡ m = unfold kill_one in ground arith in
        subst (λ k. Killed m k p 1) (sym e)
          (record {
            valid = v;
            used_in = λ q a. other_kept m q (sym (at m p q (omega arith)) ∙ other);
            used_out = λ q o. refl;
            info_out = λ q o. refl;
          })
  ]

  Killed-suc :
      (m m1 m' : Pages) (p num : ℕ)
      → Killed m m1 p 1
      → Killed m1 m' (p + 1) num
      → Killed m m' p (suc num)
  Killed-suc m m1 m' p num one rest = record {
    valid = rest.valid;
    used_in = λ q a. elim (ℕ_discrete p q) [
      | yes e ↦ rest.used_out q (inl (omega arith)) ∙ one.used_in q (omega arith)
      | no ne ↦
          let out : Outside p 1 q = omega arith in
          rest.used_in q (omega arith)
          ∙ ap₂ (λ u (i : ℕ). u && not (not (info_locked i || not u || not (info_proc i == id))))
              (one.used_out q out) (one.info_out q out)
    ];
    used_out = λ q o. rest.used_out q (omega arith) ∙ one.used_out q (omega arith);
    info_out = λ q o. rest.info_out q (omega arith) ∙ one.info_out q (omega arith);
  }

  kill_loop-Killed :
      (m : Pages) (p num : ℕ)
      → IsValid m
      → p + num ≤ num_pages
      → Killed m (kill_loop m p num id) p num
  unfolding kill_loop kill_one
  kill_loop-Killed m p zero v h = record {
    valid = v;
    used_in = λ q a. absurd (omega arith);
    used_out = λ q o. refl;
    info_out = λ q o. refl;
  }
  kill_loop-Killed m p (suc num) v h =
      let one = kill_one_lem m p v (omega arith) in
      Killed-suc m (kill_one m p) _ p num one
        (kill_loop-Killed (kill_one m p) (p + 1) num one.valid (omega arith))

-- In a valid state, `mem_kill_proc` frees the pages whose info names the process, are used and not
-- locked, and no others, and the state stays valid.
pub mem_kill_proc_lem :
    (m : Pages) (id : ℕ)
    → IsValid m
    → IsValid (mem_kill_proc m id)
      × ((q : ℕ)
          → q < num_pages
          → page_used (mem_kill_proc m id) q ≡ (page_used m q && not (owned m id q)))
unfolding mem_kill_proc
mem_kill_proc_lem m id v =
    let k = kill_loop-Killed id m 0 num_pages v (omega arith) in
    (k.valid, λ q h. k.used_in q (omega arith))

proc_small : (b id : ℕ) → b < 256 → 32 ≤ id → (info_proc b == id) ≡ false
unfolding info_proc
proc_small b id h le = ground arith

kill_large : (m : Pages) (id p num : ℕ) → Bytes m.page_list → 32 ≤ id → kill_loop m p num id ≡ m
unfolding kill_loop kill_one
kill_large m id p zero v h = refl
kill_large m id p (suc num) v h =
    let skip : kill_one id m p ≡ m =
      ground (arith, proc_small (info m p) id (get_or-IsByte m.page_list p v) h) in
    ap (λ k. kill_loop k (p + 1) num id) skip ∙ kill_large m id (p + 1) num v h

-- An info byte has room for process ids below 32 only: of a process with a larger id
-- `mem_kill_proc` frees no page.
pub mem_kill_proc_leaks :
    (m : Pages) (id : ℕ) → Bytes m.page_list → 32 ≤ id → mem_kill_proc m id ≡ m
unfolding mem_kill_proc
mem_kill_proc_leaks m id v h = kill_large m id 0 num_pages v h

-- A page info without both the flag and a fragment size is not locked.
not_locked :
    (fsize a : ℕ) (c : Bool)
    → fsize < 4
    → a < 256
    → (c && not (fsize == 0)) ≡ false
    → (info_locked (page_info fsize c a) ≡ false)
      × ((info_proc (page_info fsize c a) == a % 32) ≡ true)
unfolding info_locked
not_locked fsize a c hf ha e = ground (arith, page_info_lem fsize a c hf ha)

-- A page that was taken for the process id `a`, and is the last of its run or of no fragment size,
-- is freed when the process `a % 32` is killed, for `a` below 256: ids that agree in the low five
-- bits own one another's pages.
pub mem_kill_proc_frees_other :
    (m m' : Pages) (p num fsize a q : ℕ)
    → Taken m m' p num fsize a
    → fsize < 4
    → a < 256
    → p + num ≤ num_pages
    → Among p num q
    → (suc q ≡ p + num) ⊎ (fsize ≡ 0)
    → page_used (mem_kill_proc m' (a % 32)) q ≡ false
mem_kill_proc_frees_other m m' p num fsize a q t hf ha h among unlocked =
    let free = not_locked fsize a (not (suc q == p + num)) hf ha (ground arith) in
    let i = t.info_in q among in
    (mem_kill_proc_lem m' (a % 32) t.valid).1 q (omega arith)
    ∙ ground (
      arith,
      t.used_in q among,
      ap info_locked i ∙ free.0,
      ap (λ i. info_proc i == a % 32) i ∙ free.1,
    )
