-- ===== src/Base/Bytes.antt =====
-- Bytes: facts about every byte value, checked by evaluation.
use Prim.Native.Nat.{ℕ, zero, suc, ◌<◌}
use mathlib.Core.Path.{◌≡◌, subst, sym}
use mathlib.Core.Bool.{Bool, true, false}
use native.Mathlib.Decide.{ℕ_discrete}
use native.Mathlib.Omega.{arith}
use tensix.Base.Tests.{if◌then◌else◌}

-- The test holds of every number less than `bound`.
unfoldable pub passes : ℕ → (ℕ → Bool) → Bool
passes zero test = true
passes (suc top) test = if test top then passes top test else false

both : (p q : Bool) → (if p then q else false) ≡ true → (p ≡ true) × (q ≡ true)
both p q h = ground arith

pub passes-at :
    (bound : ℕ) (test : ℕ → Bool) (k : ℕ) → passes bound test ≡ true → k < bound → test k ≡ true
unfolding passes
passes-at zero test k ok below = absurd (omega arith)
passes-at (suc top) test k ok below =
    let (here, under) = both (test top) (passes top test) ok in
    elim (ℕ_discrete k top) [
      | yes same ↦ subst (λ j. test j ≡ true) (sym same) here
      | no other ↦ passes-at top test k under (omega arith)
    ]
