-- ===== src/Tests/Rings.antt =====
-- Heaps for the theorems on insert, makeChild and increaseKey.
use tafrr.Prelude.{ℕ, ◌≡◌, refl, none, some, [], ◌∷◌, arith, if◌then◌else◌, ◌==◌, false}
use tafrr.Prelude.Int.{ℤ, pos}
use tafrr.Heap.{Store, FibonacciHeap, new_heap, new_node, insert_object, make_child, increase_key}
use tafrr.Heap.Linked.{IsLinked}
use tafrr.Heap.Rings.{IsRing, insert_object-IsRing, make_child-IsLinked}
use tafrr.Heap.Cascade.{IsForest}
use tafrr.Heap.Increase.{IsRaised, increase_key_lem}

abbrev own_key : ℕ → ℤ
own_key i = pos i

new_heap-IsRing : IsRing new_heap
unfolding new_heap new_node
new_heap-IsRing = record {
  linked =
      λ i live. record { right_left = refl; left_right = refl; left_in = refl; right_in = refl };
  fresh = λ j le. refl;
  max_made = λ m e. ground (arith, e);
}

one-IsRing : IsRing (insert_object own_key 4 new_heap)
one-IsRing = insert_object-IsRing own_key 4 new_heap new_heap-IsRing

insert_object-IsRing_example : IsRing (insert_object own_key 6 (insert_object own_key 4 new_heap))
insert_object-IsRing_example =
    insert_object-IsRing own_key 6 (insert_object own_key 4 new_heap) one-IsRing

-- Node 1 is the child of node 0, and each node is a list of its own.
abbrev family : Store
family j = record {
  left = j;
  right = j;
  child = if j == 0 then some 1 else none;
  parent = if j == 1 then some 0 else none;
  degree = if j == 0 then 1 else 0;
  mark = false;
  node_object = j;
}

abbrev family_heap : FibonacciHeap
family_heap = record {
  store = family;
  next = 3;
  max_node = some 0;
  number_of_nodes = 3;
  node_object_map = (0, 0) ∷ (1, 1) ∷ (2, 2) ∷ [];
}

-- The key of node 1 has grown from 5 to 9.
abbrev grown_key : ℕ → ℤ
grown_key i = if i == 0 then pos 6 else if i == 1 then pos 9 else pos 0

family-IsLinked : IsLinked [] family
family-IsLinked i live = record {
  right_left = refl;
  left_right = refl;
  left_in = refl;
  right_in = refl;
}

make_child-IsLinked_example : IsLinked [] (make_child grown_key 2 0 family)
make_child-IsLinked_example =
    make_child-IsLinked grown_key [] 2 0 family refl (λ c e. ground (arith, e)) family-IsLinked

abbrev depth : ℕ → ℕ
depth i = if i == 1 then 1 else 0

family-IsForest : IsForest depth [] 0 family
family-IsForest = record {
  linked = family-IsLinked;
  max_in = refl;
  max_root = refl;
  parent_in = λ i p e. refl;
  parent_rank = λ i p e. ground (arith, e);
}

increase_key_lem_example :
    (h : FibonacciHeap) × (increase_key grown_key 1 family_heap ≡ some h)
    × IsRaised grown_key [] family_heap h
increase_key_lem_example =
    increase_key_lem grown_key depth [] 1 0 family_heap refl refl (λ i. ground arith)
      family-IsForest (λ j live other. ground (arith, other))
