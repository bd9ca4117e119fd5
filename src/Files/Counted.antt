-- ===== src/Files/Counted.antt =====
-- An object's reference count is the number of slots, of all processes, that hold it, and of the
-- references for which there is no slot.
use tensix.Base.{
  ℕ, zero, suc, ◌+◌, ◌%◌, ◌<◌, ◌≤◌, ◌≡◌, ◌≢◌, ◌⊎◌, inl, inr, ◌∙◌, refl, ap, sym, arith, Bool, true,
  false, List, Option, none, some, ◌==◌, if◌then◌else◌, All, ==_refl, ==_iff, ==_ne, ℕ_discrete,
}
use tensix.Namespace.{e_none, e_nomem}
use tensix.Files.{
  Files, sarray_add, sarray_eraseq, obj_ref, obj_unref, set_objects, hold, open2, closep,
}
use tensix.Files.Slots.{
  Plain, count, one_if, count-sarray_add, All-sarray_add, count-sarray_eraseq, All-sarray_eraseq,
}

-- How often the processes below `procs` hold the object.
unfoldable pub total : ℕ → ℕ → (ℕ → List ℕ) → ℕ
total zero obj objects = 0
total (suc p) obj objects = count obj (objects p) + total p obj objects

abbrev pub put_slots : (ℕ → List ℕ) → ℕ → List ℕ → ℕ → List ℕ
put_slots objects proc slots p = if p == proc then slots else objects p

total_outside :
    (procs obj proc : ℕ) (slots : List ℕ) (objects : ℕ → List ℕ)
    → procs ≤ proc
    → total procs obj (put_slots objects proc slots) ≡ total procs obj objects
unfolding total
total_outside zero obj proc slots objects h = refl
total_outside (suc p) obj proc slots objects h =
    rw (==_ne p proc (omega arith), total_outside p obj proc slots objects (omega arith)) refl

total_inside :
    (procs obj proc : ℕ) (slots : List ℕ) (objects : ℕ → List ℕ)
    → proc < procs
    → total procs obj (put_slots objects proc slots) + count obj (objects proc)
      ≡ total procs obj objects + count obj slots
unfolding total
total_inside zero obj proc slots objects h = absurd (omega arith)
total_inside (suc p) obj proc slots objects h = elim (ℕ_discrete p proc) [
  | yes e ↦ rw (← e, ==_refl, total_outside p obj p slots objects (omega arith)) (omega arith)
  | no ne ↦
      rw (==_ne p proc ne) (omega (arith, total_inside p obj proc slots objects (omega arith)))
]

pub count-le-total :
    (procs obj proc : ℕ) (objects : ℕ → List ℕ)
    → proc < procs
    → count obj (objects proc) ≤ total procs obj objects
unfolding total
count-le-total zero obj proc objects h = absurd (omega arith)
count-le-total (suc p) obj proc objects h = elim (ℕ_discrete p proc) [
  | yes e ↦ rw (← e) (omega arith)
  | no ne ↦ omega (arith, count-le-total p obj proc objects (omega arith))
]

-- `others` counts an object's references that no slot stands for: by the working directories of
-- processes, by open directories and by the object model.
pub record IsCounted (procs : ℕ) (others : ℕ → ℕ) (f : Files) : Type 0 where
  pub plain : (p : ℕ) → p < procs → All Plain (f.objects p)
  pub counted : (obj : ℕ) → obj ≢ 0 → f.refcnt obj ≡ (others obj + total procs obj f.objects) % 256

All-put :
    (procs proc : ℕ) (slots : List ℕ) (objects : ℕ → List ℕ)
    → ((p : ℕ) → p < procs → All Plain (objects p))
    → All Plain slots
    → (p : ℕ) → p < procs
    → All Plain (put_slots objects proc slots p)
All-put procs proc slots objects h s p lt = elim (ℕ_discrete p proc) [
  | yes e ↦ rw (e, ==_refl) s
  | no ne ↦ rw (==_ne p proc ne) (h p lt)
]

counts_up :
    (same : Bool) (a b t t' : ℕ)
    → (same ≡ true → a ≡ t % 256)
    → b ≡ t % 256
    → t' ≡ one_if same + t
    → (if same then (a + 1) % 256 else b) ≡ t' % 256
counts_up true a b t t' e e' h = omega (arith, e refl)
counts_up false a b t t' e e' h = omega arith

counts_down :
    (same : Bool) (a b t t' : ℕ)
    → (same ≡ true → a ≡ t % 256)
    → b ≡ t % 256
    → t' + one_if same ≡ t
    → (if same then (a + 255) % 256 else b) ≡ t' % 256
counts_down true a b t t' e e' h = omega (arith, e refl)
counts_down false a b t t' e e' h = omega arith

module _ (procs : ℕ) (others : ℕ → ℕ) (f : Files) (v : IsCounted procs others f) (proc obj : ℕ)
    (lt : proc < procs) (nz : obj ≢ 0) where
  module _ (plain : Plain obj) where
    held :
        (slots : List ℕ)
        → sarray_add (f.objects proc) obj ≡ some slots
        → IsCounted procs others (obj_ref (set_objects f proc slots) obj)
    unfolding obj_ref
    held slots e = record {
      plain =
          All-put procs proc slots f.objects v.plain
            (All-sarray_add (f.objects proc) obj slots (v.plain proc lt) plain e);
      counted = λ o nzo.
          let t = total_inside procs o proc slots f.objects lt in
          let c = count-sarray_add (f.objects proc) obj slots o (v.plain proc lt) nzo e in
          counts_up (o == obj) (f.refcnt obj) (f.refcnt o) (others o + total procs o f.objects) _
            (λ same. ap f.refcnt (sym ((==_iff o obj).0 same)) ∙ v.counted o nzo) (v.counted o nzo)
            (omega arith);
    }

    opened :
        (r : Option (List ℕ))
        → sarray_add (f.objects proc) obj ≡ r
        → let s : ℕ × Files = elim r [
          | none ↦ (e_nomem, f)
          | some slots ↦ (e_none, obj_ref (set_objects f proc slots) obj)
        ] in
          IsCounted procs others s.1 × ((s.0 ≡ e_none) ⊎ (s ≡ (e_nomem, f)))
    opened none e = (v, inr refl)
    opened (some slots) e = (held slots e, inl refl)

    -- In a state where every count is that of the slots and of the other references, `open2` of an
    -- object whose pointer has a low half other than 0, by a process that is counted, leaves it so, with the other references as before, also where it fails for want of an unused slot;
    -- then it changes nothing.
    pub open2-IsCounted :
        IsCounted procs others (open2 f proc obj).1
        × (((open2 f proc obj).0 ≡ e_none) ⊎ (open2 f proc obj ≡ (e_nomem, f)))
    unfolding open2 hold
    open2-IsCounted = opened (sarray_add (f.objects proc) obj) refl

  -- In such a state `closep` of an object that the process holds leaves it
  -- so.
  pub closep-IsCounted : 0 < count obj (f.objects proc) → IsCounted procs others (closep f obj proc)
  unfolding closep obj_unref
  closep-IsCounted has_it = rw (==_ne obj 0 nz) record {
    plain =
        All-put procs proc (sarray_eraseq (f.objects proc) obj) f.objects v.plain
          (All-sarray_eraseq (f.objects proc) obj (v.plain proc lt));
    counted = λ o nzo.
        let t = total_inside procs o proc (sarray_eraseq (f.objects proc) obj) f.objects lt in
        let c = count-sarray_eraseq (f.objects proc) obj o nz nzo has_it in
        counts_down (o == obj) (f.refcnt obj) (f.refcnt o) (others o + total procs o f.objects) _
          (λ same. ap f.refcnt (sym ((==_iff o obj).0 same)) ∙ v.counted o nzo) (v.counted o nzo)
          (omega arith);
  }
