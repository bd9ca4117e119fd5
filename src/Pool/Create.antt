-- ===== src/Pool/Create.antt =====
-- `pool_create`: the records of a block of memory become the unused records of the pool.
use tensix.Base.{
  ℕ, zero, suc, ◌+◌, ◌*◌, ◌%◌, ◌^◌, ◌<◌, ◌≤◌, ◌≡◌, ◌∙◌, refl, sym, ap, List, [], ◌∷◌, arith, true,
  false, some, leb, ◌∈◌, ◌∉◌, last_or, Distinct, ==_ne, dec_lt,
}
use mathlib.Core.Bool.{false≢true}
use native.Mathlib.Nat.{mod-eq_of_lt}
use tensix.Queue.{Heap, Node, header, null, wipe, set_prev, set_next}
use tensix.Queue.Links.{Links}
use tensix.Pool.{Pool, link_records, pool_create}
use tensix.Pool.Records.{IsPool}

-- The addresses of `n` records of `size` bytes from `a` on.
unfoldable pub records : ℕ → ℕ → ℕ → List ℕ
records a size zero = []
records a size (suc n) = a ∷ records (a + size) size n

below_out : (a size n b : ℕ) → b < a → b ∉ records a size n
unfolding records
below_out a size zero b h = refl
below_out a size (suc n) b h =
    rw (==_ne b a (omega arith)) (below_out (a + size) size n b (omega arith))

records-Distinct : (a size n : ℕ) → 0 < a → 0 < size → Distinct (records a size n)
unfolding records
records-Distinct a size zero h s = tt
records-Distinct a size (suc n) h s = (
  omega arith,
  below_out (a + size) size n a (omega arith),
  records-Distinct (a + size) size n (omega arith) s,
)

mem-ge : (a size n b : ℕ) → b ∈ records a size n → a ≤ b
unfolding records
mem-ge a size n b i = elim (dec_lt b a) [
  | yes lt ↦ absurd (false≢true (sym (below_out a size n b lt) ∙ i))
  | no ge ↦ omega arith
]

leb_gt : (a b : ℕ) → b < a → leb a b ≡ false
leb_gt a b h = ground arith

-- The loop links `suc k` records, writes nowhere below the first, and returns the last.
link_records_lem :
    (k fuel : ℕ) (h : Heap) (prev i size : ℕ)
    → 0 < i
    → 0 < size
    → k < fuel
    → (h' : Heap) × (link_records fuel h prev i size (i + suc k * size)
        ≡ some (h', last_or (records (i + size) size k) i))
      × Links h' prev (records i size (suc k)) null
      × ((q : ℕ) → q < i → h' q ≡ h q)
unfolding link_records records
link_records_lem k zero h prev i size pos s f = absurd (omega arith)
link_records_lem zero (suc fuel) h prev i size pos s f =
    let h1 = set_next (set_prev h i prev) i (i + size) in
    (
      set_next h1 i null,
      (let e : leb (i + 1 * size) (i + size) ≡ true = ground arith in rw e),
      ((unfold set_next set_prev in ground arith), (unfold set_next set_prev in ground arith), tt),
      λ q lt. unfold set_next set_prev in ground arith,
    )
link_records_lem (suc k) (suc fuel) h prev i size pos s f =
    let h1 = set_next (set_prev h i prev) i (i + size) in
    let rest = link_records_lem k fuel h1 i (i + size) size (omega arith) s (omega arith) in
    let more : leb (i + suc (suc k) * size) (i + size) ≡ false = leb_gt _ _ (omega arith) in
    let kept = rest.3 i (omega arith) in
    (
      rest.0,
      rw more (ap (link_records fuel h1 i (i + size) size) (omega arith) ∙ rest.1),
      (
        ap (λ (n : Node). n.prev) kept ∙ (unfold set_next set_prev in ground arith),
        ap (λ (n : Node). n.next) kept ∙ (unfold set_next set_prev in ground arith),
        rest.2,
      ),
      λ q lt. rest.3 q (omega arith) ∙ (unfold set_next set_prev in ground arith),
    )

enough : (k size : ℕ) → 0 < size → k < suc (suc k * size)
enough zero size s = omega arith
enough (suc k) size s = omega (arith, enough k size s)

-- `sizeof (struct dequeue_node)`
abbrev pub node_size : ℕ
node_size = 8

-- `pool_create` on a block of memory below the end of the address space, of records with room for the
-- two pointers of a node (of four bytes each), ends and makes each record an unused one, in order, and the list of used records empty.
pub pool_create_lem :
    (area k size : ℕ) (h : Heap) (p : Pool)
    → 0 < area
    → node_size ≤ size
    → area + suc k * size < 2 ^ 32
    → (h' : Heap) × (p' : Pool) × (pool_create area h p (suc k) size ≡ some (area, h', p'))
      × IsPool h' p' [] (records area size (suc k))
unfolding pool_create
pool_create_lem area k size h p pos wide small =
    let s : 0 < size = omega arith in
    let wrap : suc k * size % 2 ^ 32 ≡ suc k * size = mod-eq_of_lt (omega arith) in
    let l = link_records_lem k (suc (suc k * size)) h null area size pos s (enough k size s) in
    let last = last_or (records (area + size) size k) area in
    (
      l.0,
      record { used = wipe; unused = header area last; area = area },
      rw (==_ne area null (omega arith), wrap, l.1),
      record {
        used = record { links = tt; distinct = tt; first = refl; last = refl };
        unused = record {
          links = l.2;
          distinct = records-Distinct area size (suc k) pos s;
          first = unfold records in refl;
          last = unfold records in refl;
        };
        apart = λ a i. cc;
      },
    )

-- A pool that `kmalloc` gives no memory for stays unchanged but for its area.
pub pool_create-null :
    (h : Heap) (p : Pool) (n size : ℕ)
    → pool_create null h p n size ≡ some (null, h, record p { area = null })
unfolding pool_create
pool_create-null h p n size = refl
