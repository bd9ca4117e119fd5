-- ===== src/Buffers/Cleanup.antt =====
-- `bcleanup` of kern/io/buf.c frees an object's idle buffers, and ends.
use tensix.Base.{
  ℕ, ◌≡◌, refl, arith, false, List, [], ◌∷◌, ◌++◌, ◌==◌, if◌then◌else◌, ==_refl, ◌∉◌, has-append,
}
use tensix.Buffers.{Cache, idle, unlink, bfree}

-- The buffers of a list that are not idle, in order.
unfoldable pub kept : Cache → List ℕ → List ℕ
kept c [] = []
kept c (b ∷ bs) = if idle (c.buf b) then kept c bs else b ∷ kept c bs

-- The idle buffers of a list, each put before `rest` in turn.
unfoldable pub freed : Cache → List ℕ → List ℕ → List ℕ
freed c [] rest = rest
freed c (b ∷ bs) rest = if idle (c.buf b) then freed c bs (b ∷ rest) else freed c bs rest

-- Each address of the list is no earlier one's.
abbrev pub Unique : List ℕ → Type 0
Unique [] = Unit
Unique (b ∷ bs) = (b ∉ bs) × Unique bs

-- The buffers of the list belong to the object.
abbrev pub Belong : Cache → ℕ → List ℕ → Type 0
Belong c o [] = Unit
Belong c o (b ∷ bs) = ((c.buf b).obj ≡ o) × Belong c o bs

abbrev Busy : Cache → List ℕ → Type 0
Busy c [] = Unit
Busy c (b ∷ bs) = (idle (c.buf b) ≡ false) × Busy c bs

pub unlink-middle :
    (pre : List ℕ) (b : ℕ) (bs : List ℕ) → b ∉ pre → unlink b (pre ++ (b ∷ bs)) ≡ pre ++ bs
unfolding unlink
unlink-middle [] b bs out = rw (==_refl b) refl
unlink-middle (p ∷ pre) b bs out =
    let other : (b == p) ≡ false = ground arith in
    rw (other, unlink-middle pre b bs (ground arith)) refl

pub Unique-without :
    (pre : List ℕ) (b : ℕ) (bs : List ℕ) → Unique (pre ++ (b ∷ bs)) → Unique (pre ++ bs)
Unique-without [] b bs u = u.1
Unique-without (p ∷ pre) b bs u =
    (ground (arith, has-append p pre (b ∷ bs), has-append p pre bs), Unique-without pre b bs u.1)

pub bfree_buffers :
    (c : Cache) (b o : ℕ)
    → (c.buf b).obj ≡ o
    → ((bfree c b).obj o).buffers ≡ unlink b (c.obj o).buffers
unfolding bfree
bfree_buffers c b o e = rw (e, ==_refl o) refl

-- What the loop leaves behind, where the buffers `pre` are known to be busy.
record Cleaned (c c' : Cache) (o : ℕ) (pre bs : List ℕ) : Type 0 where
  buffers : (c'.obj o).buffers ≡ pre ++ kept c bs
  unused : c'.unused ≡ freed c bs c.unused
  buf : c'.buf ≡ c.buf
