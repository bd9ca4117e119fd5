-- ===== src/Files/Release.antt =====
-- The loop of `fs_kill_proc` over a process's objects.
use tensix.Base.{
  ℕ, zero, suc, ◌+◌, ◌<◌, ◌≡◌, ◌≢◌, ◌∙◌, refl, ap, sym, subst, arith, Bool, List, [], ◌∷◌, ◌++◌,
  if◌then◌else◌, get_or, length, replicate, append-nil, ==_refl, ==_ne, ==_iff, ℕ_discrete,
}
use tensix.Files.{Files, sarray_eraseq, obj_unref, set_objects, closep, close_slots, kill_objects}
use tensix.Files.Slots.{count}
use tensix.Files.Counted.{IsCounted, closep-IsCounted}

zeros : ℕ → List ℕ
zeros i = replicate i 0

get_or-zeros : (i slot : ℕ) (slots : List ℕ) → get_or (zeros i ++ (slot ∷ slots)) i 0 ≡ slot
unfolding zeros
get_or-zeros zero slot slots = refl
get_or-zeros (suc i) slot slots = get_or-zeros i slot slots

zeros_snoc : (i : ℕ) (slots : List ℕ) → zeros i ++ (0 ∷ slots) ≡ zeros (suc i) ++ slots
unfolding zeros
zeros_snoc zero slots = refl
zeros_snoc (suc i) slots = ap (◌∷◌ 0) (zeros_snoc i slots)

eraseq-zeros :
    (i slot : ℕ) (slots : List ℕ)
    → slot ≢ 0
    → sarray_eraseq (zeros i ++ (slot ∷ slots)) slot ≡ zeros i ++ (0 ∷ slots)
unfolding zeros sarray_eraseq
eraseq-zeros zero slot slots nz = rw (==_ne slot 0 nz, ==_refl) refl
eraseq-zeros (suc i) slot slots nz = ap (◌∷◌ 0) (eraseq-zeros i slot slots nz)

count-zeros : (i slot : ℕ) (slots : List ℕ) → slot ≢ 0 → 0 < count slot (zeros i ++ (slot ∷ slots))
unfolding zeros count
count-zeros zero slot slots nz = rw ==_refl (omega arith)
count-zeros (suc i) slot slots nz = omega (arith, count-zeros i slot slots nz)

-- The slots before the slot `i` are unused, and `left` are the ones from there on.
record Closed (procs : ℕ) (others : ℕ → ℕ) (f : Files) (proc i : ℕ) (left : List ℕ) : Type 0 where
  counted : IsCounted procs others f
  objects : f.objects proc ≡ zeros i ++ left

closep_null : (f : Files) (slot proc : ℕ) → slot ≡ 0 → closep f slot proc ≡ f
unfolding closep
closep_null f slot proc z =
    ap
      (λ (b : Bool).
        if b then f else obj_unref (set_objects f proc (sarray_eraseq (f.objects proc) slot)) slot)
      ((==_iff slot 0).1 z)

suc_add : (i n : ℕ) → suc i + n ≡ i + suc n
suc_add i n = omega arith

zero_add : (n : ℕ) → 0 + n ≡ n
zero_add n = omega arith

plus_zero : (i : ℕ) → i ≡ i + 0
plus_zero i = omega arith

module _ (procs : ℕ) (others : ℕ → ℕ) (proc : ℕ) (lt : proc < procs) where
  -- A slot that holds an object.
  close_held :
      (f : Files) (i slot : ℕ) (left : List ℕ)
      → slot ≢ 0
      → Closed procs others f proc i (slot ∷ left)
      → Closed procs others (closep f slot proc) proc (suc i) left
  unfolding closep obj_unref
  close_held f i slot left nz c = record {
    counted =
        closep-IsCounted procs others f c.counted proc slot lt nz
          (subst (λ l. 0 < count slot l) (sym c.objects) (count-zeros i slot left nz));
    objects =
        rw (==_ne slot 0 nz, ==_refl)
          (ap (λ l. sarray_eraseq l slot) c.objects
            ∙ eraseq-zeros i slot left nz
            ∙ zeros_snoc i left);
  }

  close_slot :
      (f : Files) (i slot : ℕ) (left : List ℕ)
      → Closed procs others f proc i (slot ∷ left)
      → Closed procs others (closep f slot proc) proc (suc i) left
  close_slot f i slot left c = elim (ℕ_discrete slot 0) [
    | yes z ↦
        subst (λ g. Closed procs others g proc (suc i) left) (sym (closep_null f slot proc z))
          (record {
            counted = c.counted;
            objects = c.objects ∙ ap (λ q. zeros i ++ (q ∷ left)) z ∙ zeros_snoc i left;
          })
    | no nz ↦ close_held f i slot left nz c
  ]

  close_slots-Closed :
      (f : Files) (i : ℕ) (left : List ℕ)
      → Closed procs others f proc i left
      → Closed procs others (close_slots f proc i (length left)) proc (i + length left) []
  unfolding close_slots
  close_slots-Closed f i [] c = subst (λ k. Closed procs others f proc k []) (plus_zero i) c
  close_slots-Closed f i (slot ∷ left) c =
      let here : get_or (f.objects proc) i 0 ≡ slot =
        ap (λ l. get_or l i 0) c.objects ∙ get_or-zeros i slot left in
      subst
        (λ q.
          Closed procs others (close_slots (closep f q proc) proc (suc i) (length left)) proc
            (i + suc (length left)) [])
        (sym here)
        (subst
          (λ k.
            Closed procs others (close_slots (closep f slot proc) proc (suc i) (length left)) proc k
              [])
          (suc_add i (length left))
          (close_slots-Closed (closep f slot proc) (suc i) left (close_slot f i slot left c)))

  -- Where every count is that of the slots and of the other references, the loop of `fs_kill_proc`
  -- over the objects of a process leaves it so, with the other references as before: it closes each
  -- object as often as the process has it in a slot, and all slots of the process are unused then.
  pub kill_objects-IsCounted :
      (f : Files)
      → IsCounted procs others f
      → IsCounted procs others (kill_objects f proc)
        × ((kill_objects f proc).objects proc ≡ replicate (length (f.objects proc)) 0)
  unfolding kill_objects zeros
  kill_objects-IsCounted f v =
      let c = close_slots-Closed f 0 (f.objects proc) (record { counted = v; objects = refl }) in
      (
        c.counted,
        c.objects
            ∙ append-nil (zeros (0 + length (f.objects proc)))
            ∙ ap (λ k. replicate k 0) (zero_add (length (f.objects proc))),
      )
