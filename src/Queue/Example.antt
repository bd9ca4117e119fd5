-- ===== src/Queue/Example.antt =====
-- The theorems on lib/queue.c at a queue and a cyclic list of the records 8, 16 and 24.
use tensix.Base.{ℕ, refl, [], ◌∷◌, arith, ◌==◌, if◌then◌else◌, Distinct}
use tensix.Queue.{Heap, Node, header, remove}
use tensix.Queue.Links.{SameOutside}
use tensix.Queue.Deque.{IsDeque, remove_lem}
use tensix.Queue.Clist.{IsClist}

abbrev node : ℕ → ℕ → Node
node p n = record { prev = p; next = n }

abbrev open_chain : Heap
open_chain a =
    if a == 8
    then node 0 16
    else if a == 16
    then node 8 24
    else if a == 24
    then node 16 0
    else node 0 0

abbrev ring : Heap
ring a =
    if a == 8
    then node 24 16
    else if a == 16
    then node 8 24
    else if a == 24
    then node 16 8
    else node 0 0

three-Distinct : Distinct (8 ∷ 16 ∷ 24 ∷ [])
three-Distinct = (omega arith, refl, (omega arith, refl, (omega arith, refl, tt)))

chain-IsDeque : IsDeque open_chain (header 8 24) (8 ∷ 16 ∷ 24 ∷ [])
chain-IsDeque = record {
  links = (refl, refl, (refl, refl, (refl, refl, tt)));
  distinct = three-Distinct;
  first = refl;
  last = refl;
}

ring-IsClist : IsClist ring (header 8 8) (8 ∷ 16 ∷ 24 ∷ [])
ring-IsClist = (refl, omega arith, (refl, refl, (refl, refl, (refl, refl, tt))), three-Distinct)

remove_lem_example :
    IsDeque
      (remove open_chain (header 8 24) 16).0
      (remove open_chain (header 8 24) 16).1
      (8 ∷ 24 ∷ [])
    × SameOutside (8 ∷ 24 ∷ []) open_chain (remove open_chain (header 8 24) 16).0
remove_lem_example = remove_lem open_chain (header 8 24) 16 (8 ∷ []) (24 ∷ []) chain-IsDeque
