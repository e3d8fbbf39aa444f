-- ===== src/Tests/Heap.antt =====
-- A heap of the objects 4, 6 and 5, whose keys are the objects themselves.
use tafrr.Prelude.{ℕ, ◌≡◌, refl, some, Option, ◌>>=◌}
use tafrr.Prelude.Int.{ℤ, pos}
use tafrr.Heap.{
  FibonacciHeap, new_heap, insert_object, insert_node, new_node, unlink, link_after, make_child,
}
use tafrr.Heap.RemoveMax.{
  remove_max_object, remove_max, free_children, degreewise_merge, count_roots, merge_roots,
  merge_at, collect,
}

abbrev own_key : ℕ → ℤ
own_key i = pos i

abbrev three : FibonacciHeap
unfolding insert_object new_heap
three = insert_object own_key 5 (insert_object own_key 6 (insert_object own_key 4 new_heap))

abbrev first_of : Option (ℕ × FibonacciHeap) → Option ℕ
first_of r = r >>= λ p. some p.0

abbrev after_first : Option (ℕ × FibonacciHeap) → Option (ℕ × FibonacciHeap)
unfolding remove_max_object
after_first r = r >>= λ p. remove_max_object own_key p.1

three-first : first_of (remove_max_object own_key three) ≡ some 6
unfolding remove_max_object remove_max free_children degreewise_merge count_roots merge_roots
    merge_at collect insert_object insert_node new_node new_heap unlink link_after make_child
three-first = refl

three-second : first_of (after_first (remove_max_object own_key three)) ≡ some 5
unfolding remove_max_object remove_max free_children degreewise_merge count_roots merge_roots
    merge_at collect insert_object insert_node new_node new_heap unlink link_after make_child
three-second = refl
