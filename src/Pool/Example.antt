-- ===== src/Pool/Example.antt =====
-- The theorems on pool.c at a pool with the used records 8 and 16 and the unused record 24.
use tensix.Base.{ℕ, ◌≡◌, refl, [], ◌∷◌, arith, ◌==◌, if◌then◌else◌, Apart, some}
use tensix.Queue.{Heap, Node, header}
use tensix.Pool.{Pool, pool_alloc, pool_create}
use tensix.Pool.Records.{IsPool, pool_alloc_lem}
use tensix.Pool.Create.{records, pool_create_lem}

abbrev node : ℕ → ℕ → Node
node p n = record { prev = p; next = n }

abbrev heap : Heap
heap a = if a == 8 then node 0 16 else if a == 16 then node 8 0 else node 0 0

abbrev pool : Pool
pool = record { used = header 8 16; unused = header 24 24; area = 8 }

two_of_three : Apart (8 ∷ 16 ∷ []) (24 ∷ [])
two_of_three a i = ground arith

pool-IsPool : IsPool heap pool (8 ∷ 16 ∷ []) (24 ∷ [])
pool-IsPool = record {
  used = record {
    links = (refl, refl, (refl, refl, tt));
    distinct = (omega arith, refl, (omega arith, refl, tt));
    first = refl;
    last = refl;
  };
  unused = record {
    links = (refl, refl, tt);
    distinct = (omega arith, refl, tt);
    first = refl;
    last = refl;
  };
  apart = two_of_three;
}

pool_alloc_lem_example :
    ((pool_alloc heap pool).0 ≡ 24)
    × IsPool (pool_alloc heap pool).1 (pool_alloc heap pool).2 (8 ∷ 16 ∷ 24 ∷ []) []
pool_alloc_lem_example = pool_alloc_lem heap pool 24 (8 ∷ 16 ∷ []) [] pool-IsPool

pool_create_lem_example :
    (h' : Heap) × (p' : Pool) × (pool_create 64 heap pool 3 12 ≡ some (64, h', p'))
    × IsPool h' p' [] (records 64 12 3)
pool_create_lem_example =
    pool_create_lem 64 2 12 heap pool (omega arith) (omega arith) (omega arith)
