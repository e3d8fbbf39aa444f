-- ===== src/Heap/Queue.antt =====
-- FibonacciHeap as the queue of the route computations.
use tafrr.Prelude.{
  ℕ, zero, suc, ◌-◌, ◌≡◌, refl, ◌⊎◌, inl, inr, ◌∙◌, sym, none, some, arith, ◌==◌, if◌then◌else◌,
  Bool-cases, Option-cases, replicate,
}
use tafrr.Prelude.Int.{ℤ, pos, ltb_ℤ}
use tafrr.Prelude.Dict.{lookup, erase}
use tafrr.MaxQueue.{MaxQueue}
use tafrr.Heap.{
  Store, FibonacciHeap, write, unlink, cut, cascading_cut, cut_above, raised, increase_key,
  update_key, key_of, insert_node, insert_object, new_node, new_heap, size,
}
use tafrr.Heap.Cascade.{
  cut-object, cascading_cut-root, cascading_cut-step, marked_at, link_after-object, unlink-object,
}
use tafrr.Heap.RemoveMax.{
  table_size, free_children, Merged, merge_roots, degreewise_merge, count_roots, remove_max,
  remove_max_object,
}
use tafrr.Heap.Objects.{
  SameObjects, Given, Given-some, Given-map, Given-bind, Given-all, Given-if, free_children-objects,
  merge_roots-objects, collect-objects,
}

-- The same number of nodes, with the same objects.
abbrev pub IsKept : FibonacciHeap → FibonacciHeap → Type 0
IsKept h h' = (h'.number_of_nodes ≡ h.number_of_nodes) × SameObjects h.store h'.store

-- An object is at a node, and one node less is left.
abbrev pub IsRemoved : FibonacciHeap → ℕ × FibonacciHeap → Type 0
IsRemoved h r =
    ((x : ℕ) × ((h.store x).node_object ≡ r.0))
    × (r.1.number_of_nodes ≡ h.number_of_nodes - 1)
    × SameObjects h.store r.1.store

cascading_cut-spent : (key : ℕ → ℤ) (m y : ℕ) (st : Store) → cascading_cut key 0 m y st ≡ none
unfolding cascading_cut
cascading_cut-spent key m y st = refl

cascading_cut-objects :
    (key : ℕ → ℤ) (fuel m y : ℕ) (st : Store)
    → Given (cascading_cut key fuel m y st) (λ st'. SameObjects st st')
cascading_cut-objects key zero m y st = rw (cascading_cut-spent key m y st) tt
cascading_cut-objects key (suc fuel) m y st = elim (Option-cases (st y).parent) [
  | inl root ↦ rw (cascading_cut-root key m fuel y st root) (λ j. refl)
  | inr (x, above) ↦
      let cut_off = cut key m y x st in
      rw (cascading_cut-step key m fuel y x st above) (
        Given-if (st y).mark (cascading_cut key fuel m x cut_off) (some (marked_at y st))
          (λ st'. SameObjects st st')
          (Given-map (cascading_cut key fuel m x cut_off) (λ st'. SameObjects cut_off st')
            (λ st'. SameObjects st st') (λ st' h j. h j ∙ cut-object key m y x st j)
            (cascading_cut-objects key fuel m x cut_off))
          (λ j. ground arith))
]

cut_above-objects :
    (key : ℕ → ℤ) (fuel m x y : ℕ) (st : Store)
    → Given (cut_above key fuel m x y st) (λ st'. SameObjects st st')
unfolding cut_above
cut_above-objects key fuel m x y st =
    elim (Bool-cases (ltb_ℤ (key_of key st y) (key_of key st x))) [
      | inl up ↦ rw up (
          Given-map (cascading_cut key fuel m y (cut key m x y st))
            (λ st'. SameObjects (cut key m x y st) st') (λ st'. SameObjects st st')
            (λ st' h j. h j ∙ cut-object key m x y st j)
            (cascading_cut-objects key fuel m y (cut key m x y st)))
      | inr down ↦ rw down (λ j. refl)
    ]

increase_key-IsKept :
    (key : ℕ → ℤ) (x : ℕ) (h : FibonacciHeap) → Given (increase_key key x h) (IsKept h)
unfolding increase_key
increase_key-IsKept key x h = elim (Option-cases h.max_node) [
  | inl empty ↦ rw (empty, increase_key) tt
  | inr (m, at) ↦ elim (Option-cases (h.store x).parent) [
    | inl root ↦ rw (at, root) (refl, λ j. refl)
    | inr (y, above) ↦
        rw (at, above)
          (Given-bind (cut_above key (suc h.next) m x y h.store) (λ st. some (raised key x m h st))
            (IsKept h)
            (Given-map (cut_above key (suc h.next) m x y h.store) (λ st'. SameObjects h.store st')
              (λ st. IsKept h (raised key x m h st)) (λ st same. (refl, same))
              (cut_above-objects key (suc h.next) m x y h.store)))
  ]
]

pub update_key-IsKept :
    (key : ℕ → ℤ) (i : ℕ) (h : FibonacciHeap) → Given (update_key key i h) (IsKept h)
unfolding update_key
update_key-IsKept key i h = elim (Option-cases (lookup i h.node_object_map)) [
  | inl missing ↦ rw missing tt
  | inr (x, at) ↦ rw at (increase_key-IsKept key x h)
]

degreewise_merge-IsKept :
    (key : ℕ → ℤ) (h : FibonacciHeap) → Given (degreewise_merge key h) (IsKept h)
unfolding degreewise_merge
degreewise_merge-IsKept key h = Given-bind h.max_node _ (IsKept h) (
    Given-all h.max_node _ (λ m.
      Given-bind (count_roots (suc h.next) h.store m (h.store m).right 1) _ (IsKept h) (
        Given-all (count_roots (suc h.next) h.store m (h.store m).right 1) _ (λ n.
          let s0 : Merged key = record { store = h.store; table = replicate table_size none } in
          Given-bind (merge_roots key n m s0) _ (IsKept h) (
            Given-map (merge_roots key n m s0) (λ s. SameObjects h.store s.store) _
              (λ s same. (refl, λ j. collect-objects key s.table none s.store j ∙ same j))
              (merge_roots-objects key n m s0))))))

remove_max-IsRemoved :
    (key : ℕ → ℤ) (h : FibonacciHeap)
    → Given
        (remove_max key h)
        (λ r. (r.1.number_of_nodes ≡ h.number_of_nodes - 1) × SameObjects h.store r.1.store)
unfolding remove_max
remove_max-IsRemoved key h =
    let Removed : ℕ × FibonacciHeap → Type 0 =
      λ r. (r.1.number_of_nodes ≡ h.number_of_nodes - 1) × SameObjects h.store r.1.store in
    Given-bind h.max_node _ Removed (
      Given-all h.max_node _ (λ z.
        let freed = free_children (h.store z).degree z (h.store z).child h.store in
        Given-bind freed _ Removed (
          Given-map freed (λ st. SameObjects h.store st) _
            (λ st same.
              let st' = unlink z st in
              let same' : SameObjects h.store st' = λ j. unlink-object z st j ∙ same j in
              let rest : FibonacciHeap = record h {
                store = st';
                number_of_nodes = h.number_of_nodes - 1;
                node_object_map = erase (h.store z).node_object h.node_object_map;
              } in
              let rest' : FibonacciHeap = record rest { max_node = some (st' z).right } in
              elim (Bool-cases (z == (st' z).right)) [
                | inl last ↦ rw last (refl, same')
                | inr more ↦ rw more (
                    Given-bind (degreewise_merge key rest') _ Removed (
                      Given-map (degreewise_merge key rest') (IsKept rest') _
                        (λ r kept. (kept.0, λ j. kept.1 j ∙ same' j))
                        (degreewise_merge-IsKept key rest')))
              ])
            (free_children-objects (h.store z).degree z (h.store z).child h.store))))

pub remove_max_object-IsRemoved :
    (key : ℕ → ℤ) (h : FibonacciHeap) → Given (remove_max_object key h) (IsRemoved h)
unfolding remove_max_object
remove_max_object-IsRemoved key h = Given-bind (remove_max key h) _ (IsRemoved h) (
    Given-map (remove_max key h) _ _ (λ r left. ((r.0, sym (left.1 r.0)), left.0, left.1))
      (remove_max-IsRemoved key h))

abbrev pub HasObject : FibonacciHeap → ℕ → Type 0
HasObject h i = (x : ℕ) × ((h.store x).node_object ≡ i)

insert_object-size :
    (key : ℕ → ℤ) (i : ℕ) (h : FibonacciHeap)
    → (insert_object key i h).number_of_nodes ≡ suc h.number_of_nodes
unfolding insert_object insert_node
insert_object-size key i h = elim (Option-cases h.max_node) [
  | inl empty ↦ rw empty (omega arith)
  | inr (m, at) ↦ rw at (omega arith)
]

insert_object-objects :
    (key : ℕ → ℤ) (i : ℕ) (h : FibonacciHeap) (x : ℕ)
    → ((insert_object key i h).store x).node_object
      ≡ (if x == h.next then i else (h.store x).node_object)
unfolding insert_object insert_node new_node
insert_object-objects key i h x =
    let st0 : Store = write h.next (λ n. new_node h.next i) h.store in
    elim (Option-cases h.max_node) [
      | inl empty ↦ rw empty (ground arith)
      | inr (m, at) ↦ rw at (link_after-object m h.next st0 x ∙ ground arith)
    ]

-- size() reads no key.
abbrev pub no_keys : ℕ → ℤ
no_keys i = pos 0

pub size-new_heap : size no_keys new_heap ≡ 0
unfolding size new_heap
size-new_heap = refl

pub new_heap-object : (x : ℕ) → (new_heap.store x).node_object ≡ 0
unfolding new_heap new_node
new_heap-object x = refl

pub size-insert_object :
    (key : ℕ → ℤ) (i : ℕ) (h : FibonacciHeap)
    → size no_keys (insert_object key i h) ≡ suc (size no_keys h)
unfolding size
size-insert_object = insert_object-size

pub has-insert_object :
    (key : ℕ → ℤ) (i j : ℕ) (h : FibonacciHeap)
    → HasObject (insert_object key i h) j
    → (i ≡ j) ⊎ HasObject h j
has-insert_object key i j h (x, e) = elim (Bool-cases (x == h.next)) [
  | inl made ↦ inl (ground (arith, insert_object-objects key i h x, e, made))
  | inr old ↦ inr (x, ground (arith, insert_object-objects key i h x, e, old))
]

pub size_same :
    (h h' : FibonacciHeap)
    → h'.number_of_nodes ≡ h.number_of_nodes
    → size no_keys h' ≡ size no_keys h
unfolding size
size_same h h' e = e

pub size_pred :
    (h h' : FibonacciHeap) (n : ℕ)
    → h'.number_of_nodes ≡ h.number_of_nodes - 1
    → size no_keys h ≡ suc n
    → size no_keys h' ≡ n
unfolding size
size_pred h h' n left full = omega (arith, left, full)

-- FibonacciHeap as a queue.
abbrev pub fibonacci_queue : MaxQueue
fibonacci_queue = record {
  Heap = FibonacciHeap;
  new = new_heap;
  insert = insert_object;
  remove_max = remove_max_object;
  update_key = update_key;
  size = size no_keys;
  Has = HasObject;
  size-new = size-new_heap;
  has-new = λ j p. sym p.1 ∙ new_heap-object p.0;
  size-insert = size-insert_object;
  has-insert = λ key i j h p. has-insert_object key i j h p;
  size-update_key =
      λ key i h h' e. size_same h h' (Given-some _ h' (IsKept h) (update_key-IsKept key i h) e).0;
  has-update_key = λ key i j h h' e p.
      (p.0, sym ((Given-some _ h' (IsKept h) (update_key-IsKept key i h) e).1 p.0) ∙ p.1);
  size-remove_max = λ key h h' i n e full.
      let left : h'.number_of_nodes ≡ h.number_of_nodes - 1 =
        (Given-some _ (i, h') (IsRemoved h) (remove_max_object-IsRemoved key h) e).1 in
      size_pred h h' n left full;
  has-removed =
      λ key h h' i e. (Given-some _ (i, h') (IsRemoved h) (remove_max_object-IsRemoved key h) e).0;
  has-remove_max = λ key h h' i j e p. (
    p.0,
    sym ((Given-some _ (i, h') (IsRemoved h) (remove_max_object-IsRemoved key h) e).2 p.0) ∙ p.1,
  );
}
