-- ===== src/Fragments/Blocks.antt =====
-- The blocks that fragments stand for: their addresses, and what the accessors read of these.
use Prim.Native.Nat.{bit_and}
use tensix.Base.{
  ℕ, ◌+◌, ◌-◌, ◌*◌, ◌/◌, ◌^◌, ◌%◌, ◌<◌, ◌≤◌, ◌≡◌, ◌∙◌, refl, ap, arith, Bool, true, false, ltb, leb,
  ◌==◌, ◌&&◌, ◌||◌, not, passes, passes-at,
}
use tensix.Mem.{Pages, page_used, num_pages, page_size}
use tensix.Mem.Count.{IsValid}
use tensix.Fragments.{
  Fragment, Stack, ProcMem, frag_log, frag_size, page_of, frag_stack, size_level, frag_level,
  illegal_frag,
}
use tensix.Fragments.Stacks.{IsFrag, AllFrags}

-- The levels that fragments have.
abbrev pub Level : ℕ → Type 0
Level fs = (1 ≤ fs) × (fs < 4)

-- A stack of level `fs`: a whole page that is in use, with fragments of that level.
pub record IsStack (m : Pages) (fs : ℕ) (s : Stack) : Type 0 where
  pub in_memory : s.base < num_pages
  pub used : page_used m s.base ≡ true
  pub whole : frag_log m s.base ≡ 0
  pub frags : AllFrags m fs s.entries

pub record IsProcMem (h : ProcMem) : Type 0 where
  pub valid : IsValid h.pages
  pub id : h.id < 256
  pub stack : (fs : ℕ) → Level fs → IsStack h.pages fs (frag_stack h fs)

abbrev pub address : ℕ → Fragment → ℕ
address fs f = f.page * page_size + f.idx * 2 ^ (8 - fs)

abbrev address_test : ℕ → ℕ → ℕ → Bool
address_test fs page idx =
    let pos = page * 256 + idx * 2 ^ (8 - fs) in
    not (ltb idx (2 ^ fs))
    || (((page_of pos == page) && (pos % 256 % 256 / (256 / 2 ^ fs) == idx))
        && (leb (pos % 256 + 256 / 2 ^ fs) 256 && (bit_and pos (256 / 2 ^ fs - 1) == 0)))

address_table : passes 4 (λ fs. passes 256 (λ page. passes 8 (address_test fs page))) ≡ true
unfolding passes
address_table = refl

pow_table : passes 4 (λ fs. leb (2 ^ fs) 8) ≡ true
unfolding passes
pow_table = refl

pub pow_level : (fs : ℕ) → fs < 4 → 2 ^ fs ≤ 8
pow_level fs h = ground (arith, passes-at 4 (λ k. leb (2 ^ k) 8) fs pow_table h)

pos_table : passes 4 (λ fs. ltb 0 (2 ^ fs)) ≡ true
unfolding passes
pos_table = refl

pub pow_pos : (fs : ℕ) → fs < 4 → 0 < 2 ^ fs
pow_pos fs h = ground (arith, passes-at 4 (λ k. ltb 0 (2 ^ k)) fs pos_table h)

-- What the accessors read of a fragment's address.
pub address_lem :
    (fs : ℕ) (f : Fragment)
    → Level fs
    → f.page < num_pages
    → f.idx < 2 ^ fs
    → (page_of (address fs f) ≡ f.page)
      × (address fs f % page_size % 256 / (page_size / 2 ^ fs) ≡ f.idx)
      × (address fs f % page_size + page_size / 2 ^ fs ≤ page_size)
      × ((bit_and (address fs f) (page_size / 2 ^ fs - 1) == 0) ≡ true)
address_lem fs f lv hp hi =
    let t =
      passes-at 8 (address_test fs f.page) f.idx
        (passes-at 256 (λ page. passes 8 (address_test fs page)) f.page
          (passes-at 4 (λ fs. passes 256 (λ page. passes 8 (address_test fs page))) fs address_table
            lv.1)
          hp)
        (omega (arith, pow_level fs lv.1)) in
    ground arith

level_table :
    passes 129 (λ size.
      (ltb 0 (size_level size) && ltb (size_level size) 4) && leb size (256 / 2 ^ size_level size))
    ≡ true
unfolding passes frag_level
level_table = refl

pub size_level_lem :
    (size : ℕ) → size ≤ 128 → Level (size_level size) × (size ≤ page_size / 2 ^ size_level size)
size_level_lem size h = let t = passes-at 129 _ size level_table (omega arith) in ground arith

-- A block that a fragment of level `fs` gives: in a used page of that level, at a boundary.
pub record IsBlock (m : Pages) (fs pos : ℕ) : Type 0 where
  pub used : page_used m (page_of pos) ≡ true
  pub level : frag_log m (page_of pos) ≡ fs
  pub inside : pos % page_size + frag_size m (page_of pos) ≤ page_size
  pub legal : illegal_frag m pos ≡ false

pub IsBlock-address :
    (m : Pages) (fs : ℕ) (f : Fragment) → Level fs → IsFrag m fs f → IsBlock m fs (address fs f)
IsBlock-address m fs f lv v =
    let a = address_lem fs f lv v.in_memory v.index in
    let lvl : frag_log m (page_of (address fs f)) ≡ fs = ap (frag_log m) a.0 ∙ v.level in
    record {
      used = ap (page_used m) a.0 ∙ v.used;
      level = lvl;
      inside = rw lvl a.2;
      legal = rw lvl (ap not a.3);
    }
