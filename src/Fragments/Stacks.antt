-- ===== src/Fragments/Stacks.antt =====
-- The stacks of fragments: which records may stand on them, and what pushing and popping does.
use tensix.Base.{
  ℕ, zero, suc, ◌+◌, ◌*◌, ◌^◌, ◌<◌, ◌≤◌, ◌≡◌, ◌∙◌, refl, ap, sym, arith, true, false, List, [], ◌∷◌,
  ◌++◌, append-nil, append_assoc, Option, none, some, ltb, length, length-append, get_or, All,
}
use tensix.Mem.{Pages, page_used, page_free, num_pages}
use tensix.Fragments.{
  Fragment, no_fragment, Stack, frag_log, frag_size, frag_push, drop_last, push_frags, pop_pushed,
}

-- A fragment of level `fs`: its page is in use and of that level, and its index is in range.
pub record IsFrag (m : Pages) (fs : ℕ) (f : Fragment) : Type 0 where
  pub in_memory : f.page < num_pages
  pub used : page_used m f.page ≡ true
  pub level : frag_log m f.page ≡ fs
  pub index : f.idx < 2 ^ fs

abbrev pub AllFrags : Pages → ℕ → List Fragment → Type 0
AllFrags m fs l = All (IsFrag m fs) l

pub drop_last_lem :
    (f : Fragment) (l : List Fragment)
    → drop_last (f ∷ l) ++ (get_or (f ∷ l) (length l) no_fragment ∷ []) ≡ f ∷ l
unfolding drop_last
drop_last_lem f [] = refl
drop_last_lem f (g ∷ l) = ap (◌∷◌ f) (drop_last_lem g l)

pub length-drop_last : (f : Fragment) (l : List Fragment) → length (drop_last (f ∷ l)) ≡ length l
unfolding drop_last
length-drop_last f [] = refl
length-drop_last f (g ∷ l) = ap suc (length-drop_last g l)

module _ {ℓ} (P : Fragment → Type ℓ) where
  pub All-append : (l r : List Fragment) → All P l → All P r → All P (l ++ r)
  All-append [] r p q = q
  All-append (f ∷ l) r p q = (p.0, All-append l r p.1 q)

  pub All-top :
      (f : Fragment) (l : List Fragment) → All P (f ∷ l) → P (get_or (f ∷ l) (length l) no_fragment)
  All-top f [] p = p.0
  All-top f (g ∷ l) p = All-top g l p.1

  pub All-drop_last : (f : Fragment) (l : List Fragment) → All P (f ∷ l) → All P (drop_last (f ∷ l))
  unfolding drop_last
  All-drop_last f [] p = tt
  All-drop_last f (g ∷ l) p = (p.0, All-drop_last g l p.1)

-- Pushing succeeds where the stack's page has room.
pub frag_push_fits :
    (m : Pages) (s : Stack) (f : Fragment)
    → 2 * length s.entries + 6 ≤ frag_size m s.base
    → frag_push m s f ≡ some (record s { entries = s.entries ++ (f ∷ []) })
unfolding frag_push
frag_push_fits m s f h =
    let room : ltb (frag_size m s.base) (2 * length s.entries + 4 + 2) ≡ false = ground arith in
    rw (room, frag_push) refl

-- A new page's fragments, from `i` on.
unfoldable pub frags_of : ℕ → ℕ → ℕ → List Fragment
frags_of p i zero = []
frags_of p i (suc left) = record { page = p; idx = i } ∷ frags_of p (i + 1) left

pub length-frags_of : (p i n : ℕ) → length (frags_of p i n) ≡ n
unfolding frags_of
length-frags_of p i zero = refl
length-frags_of p i (suc n) = ap suc (length-frags_of p (i + 1) n)

pub push_frags_fits :
    (m : Pages) (s : Stack) (p i left : ℕ)
    → 2 * (length s.entries + left) + 4 ≤ frag_size m s.base
    → push_frags m s p i left ≡ (false, m, record s { entries = s.entries ++ frags_of p i left })
unfolding push_frags frags_of
push_frags_fits m s p i zero h =
    ap (λ l. (false, m, record s { entries = l })) (sym (append-nil s.entries))
push_frags_fits m s p i (suc left) h =
    let f : Fragment = record { page = p; idx = i } in
    let s' : Stack = record s { entries = s.entries ++ (f ∷ []) } in
    ap
      (λ (u : Option Stack). elim u [
        | none ↦ (true, page_free m p, pop_pushed s i)
        | some t ↦ push_frags m t p (i + 1) left
      ])
      (frag_push_fits m s f (omega arith))
    ∙ push_frags_fits m s' p (i + 1) left (omega (arith, length-append s.entries (f ∷ [])))
    ∙ ap (λ l. (false, m, record s { entries = l }))
        (append_assoc s.entries (f ∷ []) (frags_of p (i + 1) left))

pub frags_of-AllFrags :
    (m : Pages) (fs p i left : ℕ)
    → p < num_pages
    → page_used m p ≡ true
    → frag_log m p ≡ fs
    → i + left ≤ 2 ^ fs
    → AllFrags m fs (frags_of p i left)
unfolding frags_of
frags_of-AllFrags m fs p i zero h u e le = tt
frags_of-AllFrags m fs p i (suc left) h u e le = (
  record { in_memory = h; used = u; level = e; index = omega arith },
  frags_of-AllFrags m fs p (i + 1) left h u e (omega arith),
)
