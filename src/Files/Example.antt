-- ===== src/Files/Example.antt =====
-- The theorems on handles at two processes, of which process 1 holds the object 100. The working
-- directory of both is the object 1.
use tensix.Base.{
  ℕ, zero, suc, ◌<◌, ◌≡◌, ◌⊎◌, inl, inr, refl, arith, [], ◌∷◌, ◌==◌, if◌then◌else◌, All,
}
use tensix.Namespace.{e_none, e_nomem}
use tensix.Files.{Files, hold, open2, kill_objects, sarray_add}
use tensix.Files.Slots.{Plain, count}
use tensix.Files.Release.{kill_objects-IsCounted}
use tensix.Files.Counted.{IsCounted, total, open2-IsCounted}

abbrev held : Files
held = record {
  refcnt = λ o. if o == 100 then 1 else if o == 1 then 2 else 0;
  objects = λ p. if p == 1 then 100 ∷ 0 ∷ [] else 0 ∷ [];
}

slots-Plain : (p : ℕ) → p < 2 → All Plain (held.objects p)
slots-Plain zero h = (inl refl, tt)
slots-Plain (suc zero) h = (inr (omega arith), (inl refl, tt))
slots-Plain (suc (suc p)) h = absurd (omega arith)

abbrev working : ℕ → ℕ
working o = if o == 1 then 2 else 0

held-IsCounted : IsCounted 2 working held
unfolding total count
held-IsCounted = record { plain = slots-Plain; counted = λ obj nz. ground arith }

open2-IsCounted_example :
    IsCounted 2 working (open2 held 0 200).1
    × (((open2 held 0 200).0 ≡ e_none) ⊎ (open2 held 0 200 ≡ (e_nomem, held)))
open2-IsCounted_example =
    open2-IsCounted 2 working held held-IsCounted 0 200 (omega arith) (omega arith)
      (inr (omega arith))

opened : (open2 held 0 200).0 ≡ e_none
unfolding open2 hold sarray_add
opened = refl

holds_it : 0 < count 100 (held.objects 1)
unfolding count
holds_it = omega arith

kill_objects-IsCounted_example :
    IsCounted 2 working (kill_objects held 1) × ((kill_objects held 1).objects 1 ≡ 0 ∷ 0 ∷ [])
kill_objects-IsCounted_example =
    kill_objects-IsCounted 2 working 1 (omega arith) held held-IsCounted
