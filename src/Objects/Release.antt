-- ===== src/Objects/Release.antt =====
-- `obj_free_buffers`: the loop ends, and every buffer of the object goes back to the pool.
use tensix.Base.{
  ℕ, zero, suc, ◌-◌, ◌<◌, ◌≡◌, ◌≢◌, ◌∙◌, refl, ap, arith, List, [], ◌∷◌, some, All, ==_refl, ==_ne,
  length,
}
use tensix.Buffers.{Cache, Obj, unlink, bfree, count}
use tensix.Objects.{free_buffers, obj_free_buffers}

-- `xs` reversed, in front of `ys`.
unfoldable pub rev_onto : List ℕ → List ℕ → List ℕ
rev_onto [] ys = ys
rev_onto (x ∷ xs) ys = rev_onto xs (x ∷ ys)

-- The buffers are the object's.
abbrev pub AllOf : Cache → ℕ → List ℕ → Type 0
AllOf c o bs = All (λ b. (c.buf b).obj ≡ o) bs

-- `c'` is `c` without the buffers `bs` of the object `o`, which are unused now.
pub record Freed (c c' : Cache) (o : ℕ) (bs : List ℕ) : Type 0 where
  pub object : c'.obj o ≡ record (c.obj o) { buffers = [] }
  pub others : (q : ℕ) → q ≢ o → c'.obj q ≡ c.obj q
  pub bufs : c'.buf ≡ c.buf
  pub unused : c'.unused ≡ rev_onto bs c.unused
  pub objects : c'.objects ≡ c.objects
  pub in_use : c'.in_use ≡ c.in_use - length bs

module _ (c : Cache) (o b : ℕ) (bs : List ℕ) (own : (c.buf b).obj ≡ o)
    (here : (c.obj o).buffers ≡ b ∷ bs) where
  bfree_object : (bfree c b).obj o ≡ record (c.obj o) { buffers = bs }
  unfolding bfree unlink
  bfree_object = rw (own, here, ==_refl, ==_refl) refl

  bfree_other : (q : ℕ) → q ≢ o → (bfree c b).obj q ≡ c.obj q
  unfolding bfree
  bfree_other q ne = rw (own, ==_ne q o ne) refl

  Freed-cons : (c' : Cache) → Freed (bfree c b) c' o bs → Freed c c' o (b ∷ bs)
  unfolding rev_onto bfree
  Freed-cons c' f = record {
    object = f.object ∙ ap (λ (v : Obj). record v { buffers = [] }) bfree_object;
    others = λ q ne. f.others q ne ∙ bfree_other q ne;
    bufs = f.bufs;
    unused = f.unused;
    objects = f.objects;
    in_use = omega (arith, f.in_use);
  }

bfree-AllOf : (c : Cache) (o b : ℕ) (bs : List ℕ) → AllOf c o bs → AllOf (bfree c b) o bs
unfolding bfree
bfree-AllOf c o b [] a = tt
bfree-AllOf c o b (x ∷ bs) a = (a.0, bfree-AllOf c o b bs a.1)

free_step :
    (fuel : ℕ) (c : Cache) (o b : ℕ) (bs : List ℕ)
    → (c.obj o).buffers ≡ b ∷ bs
    → free_buffers (suc fuel) c o ≡ free_buffers fuel (bfree c b) o
unfolding free_buffers
free_step fuel c o b bs e =
    ap (λ (l : List ℕ). elim l [ [] ↦ some c | b' ∷ bs' ↦ free_buffers fuel (bfree c b') o ]) e

free_buffers_lem :
    (fuel : ℕ) (c : Cache) (o : ℕ) (bs : List ℕ)
    → (c.obj o).buffers ≡ bs
    → AllOf c o bs
    → length bs < fuel
    → (c' : Cache) × (free_buffers fuel c o ≡ some c') × Freed c c' o bs
unfolding free_buffers rev_onto
free_buffers_lem zero c o bs e a h = absurd (omega arith)
free_buffers_lem (suc fuel) c o [] e a h = (
  c,
  rw (e, free_buffers) refl,
  record {
    object = ap (λ l. record (c.obj o) { buffers = l }) e;
    others = λ q ne. refl;
    bufs = refl;
    unused = refl;
    objects = refl;
    in_use = omega arith;
  },
)
free_buffers_lem (suc fuel) c o (b ∷ bs) e a h =
    let rest =
      free_buffers_lem fuel (bfree c b) o bs
        (ap (λ (v : Obj). v.buffers) (bfree_object c o b bs a.0 e)) (bfree-AllOf c o b bs a.1)
        (omega arith) in
    (rest.0, free_step fuel c o b bs e ∙ rest.1, Freed-cons c o b bs a.0 e rest.0 rest.2)

count-length : (bs : List ℕ) → count bs ≡ length bs
unfolding count
count-length [] = refl
count-length (b ∷ bs) = ap suc (count-length bs)

-- Where all buffers on an object's list are the object's own, `obj_free_buffers` ends. The list is
-- empty then, the buffers are the last of the unused ones, each once, and all else is as it was.
pub obj_free_buffers_lem :
    (c : Cache) (o : ℕ)
    → AllOf c o (c.obj o).buffers
    → (c' : Cache) × (obj_free_buffers c o ≡ some c') × Freed c c' o (c.obj o).buffers
unfolding obj_free_buffers
obj_free_buffers_lem c o a =
    free_buffers_lem _ c o (c.obj o).buffers refl a (omega (arith, count-length (c.obj o).buffers))
