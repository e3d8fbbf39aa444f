-- ===== src/Heap.antt =====
-- model/lltc/lltc-fibonacci-heap.cpp and lltc-fibonacci-heap.hpp. A `FibonacciHeapNode*` is a number; the
-- store gives the node at each number, and `next` is the number of the next node that is made. `left` and
-- `right` are never null: the constructor sets them to the node itself, and each write to a node. So the
-- branches of insert for a null `right` never run and are left out. Keys are read through `key` from the
-- object. `none` as a result stands for a null pointer that is read, a degree beyond the table, or spent
-- fuel.
pub mod RemoveMax
pub mod Linked
pub mod Cascade
pub mod Increase
pub mod Objects
pub mod Queue
pub mod Rings
use tafrr.Prelude.{
  ℕ, zero, suc, ◌+◌, ◌-◌, Bool, true, false, Option, none, some, List, [], ◌∷◌, ◌==◌, if◌then◌else◌,
  get_elem?, set, replicate, ◌>>=◌,
}
use tafrr.Prelude.Int.{ℤ, ltb_ℤ}
use tafrr.Prelude.Dict.{Dict, lookup, insert, erase}

pub record FibonacciHeapNode : Type 0 where
  pub left : ℕ
  pub right : ℕ
  pub child : Option ℕ
  pub parent : Option ℕ
  pub degree : ℕ
  pub mark : Bool
  pub node_object : ℕ

abbrev pub Store : Type 0
Store = ℕ → FibonacciHeapNode

pub record FibonacciHeap : Type 0 where
  pub store : Store
  pub next : ℕ
  pub max_node : Option ℕ
  pub number_of_nodes : ℕ
  pub node_object_map : Dict ℕ

-- The constructor of FibonacciHeapNode at the number `x`.
unfoldable pub new_node : ℕ → ℕ → FibonacciHeapNode
new_node x node_object = record {
  left = x;
  right = x;
  child = none;
  parent = none;
  degree = 0;
  mark = false;
  node_object = node_object;
}

unfoldable pub new_heap : FibonacciHeap
unfolding new_node
new_heap = record {
  store = λ x. new_node x 0;
  next = 0;
  max_node = none;
  number_of_nodes = 0;
  node_object_map = [];
}

-- A write to the node at `x`.
abbrev pub write : ℕ → (FibonacciHeapNode → FibonacciHeapNode) → Store → Store
write x f st y = if y == x then f (st y) else st y

abbrev pub set_left : ℕ → FibonacciHeapNode → FibonacciHeapNode
set_left p n = record n { left = p }

abbrev pub set_right : ℕ → FibonacciHeapNode → FibonacciHeapNode
set_right p n = record n { right = p }

-- `x->left->right = x->right; x->right->left = x->left;`
unfoldable pub unlink : ℕ → Store → Store
unlink x st =
    let st1 = write (st x).left (set_right (st x).right) st in
    write (st1 x).right (set_left (st1 x).left) st1

-- `x->left = m; x->right = m->right; m->right = x; x->right->left = x;`
unfoldable pub link_after : ℕ → ℕ → Store → Store
link_after m x st =
    let st1 = write x (set_left m) st in
    let st2 = write x (set_right (st1 m).right) st1 in
    let st3 = write m (set_right x) st2 in write (st3 x).right (set_left x) st3

module _ (key : ℕ → ℤ) where
  -- getKey of the node at a number.
  abbrev pub key_of : Store → ℕ → ℤ
  key_of st x = key (st x).node_object

  -- The larger of the maximum and a root.
  abbrev pub larger : Store → ℕ → ℕ → ℕ
  larger st x m = if ltb_ℤ (key_of st m) (key_of st x) then x else m

  unfoldable pub insert_node : ℕ → FibonacciHeap → FibonacciHeap
  unfolding link_after
  insert_node x h = elim h.max_node [
    | none ↦ record h { max_node = some x; number_of_nodes = h.number_of_nodes + 1 }
    | some m ↦
        let st = link_after m x h.store in
        record h {
          store = st;
          max_node = some (larger st x m);
          number_of_nodes = h.number_of_nodes + 1;
        }
  ]

  unfoldable pub insert_object : ℕ → FibonacciHeap → FibonacciHeap
  unfolding insert_node new_node
  insert_object node_object h =
      let x = h.next in
      let h1 : FibonacciHeap = record h {
        store = write x (λ n. new_node x node_object) h.store;
        next = h.next + 1;
      } in
      let h2 = insert_node x h1 in
      record h2 { node_object_map = insert node_object x h2.node_object_map }

  unfoldable pub size : FibonacciHeap → ℕ
  size h = h.number_of_nodes

  abbrev pub drop_child : ℕ → ℕ → FibonacciHeapNode → FibonacciHeapNode
  drop_child x right n =
      let kept : Option ℕ = elim n.child [
        | none ↦ none
        | some c ↦ if c == x then some right else some c
      ] in
      record n { degree = n.degree - 1; child = if n.degree == 1 then none else kept }

  abbrev pub as_root : FibonacciHeapNode → FibonacciHeapNode
  as_root n = record n { parent = none; mark = false }

  -- `m` is the maximum.
  unfoldable pub cut : ℕ → ℕ → ℕ → Store → Store
  unfolding unlink link_after
  cut m x y st =
      let st1 = unlink x st in
      let st2 = write y (drop_child x (st1 x).right) st1 in write x as_root (link_after m x st2)

  unfoldable pub cascading_cut : ℕ → ℕ → ℕ → Store → Option Store
  unfolding cut
  cascading_cut zero m y st = none
  cascading_cut (suc fuel) m y st =
      let up = λ (x : ℕ). cascading_cut fuel m x (cut m y x st) in
      elim (st y).parent [
        | none ↦ some st
        | some x ↦ if (st y).mark then up x else some (write y (λ n. record n { mark = true }) st)
      ]

  abbrev pub raised : ℕ → ℕ → FibonacciHeap → Store → FibonacciHeap
  raised x m h st = record h { store = st; max_node = some (larger st x m) }

  -- The cuts of increaseKey at a node `x` with the parent `y`.
  unfoldable pub cut_above : ℕ → ℕ → ℕ → ℕ → Store → Option Store
  unfolding cascading_cut
  cut_above fuel m x y st =
      if ltb_ℤ (key_of st y) (key_of st x) then cascading_cut fuel m y (cut m x y st) else some st

  -- increaseKey after setKey wrote the new key to the object.
  unfoldable pub increase_key : ℕ → FibonacciHeap → Option FibonacciHeap
  unfolding cut_above
  increase_key x h = h.max_node >>= λ m. elim (h.store x).parent [
    | none ↦ some (raised x m h h.store)
    | some y ↦ cut_above (suc h.next) m x y h.store >>= λ st. some (raised x m h st)
  ]

  unfoldable pub update_key : ℕ → FibonacciHeap → Option FibonacciHeap
  unfolding increase_key
  update_key node_object h = lookup node_object h.node_object_map >>= λ x. increase_key x h

  abbrev pub adopt : ℕ → ℕ → Store → Store
  adopt y x st = elim (st x).child [
    | none ↦
        write y (set_left y) (write y (set_right y) (write x (λ n. record n { child = some y }) st))
    | some c ↦ link_after c y st
  ]

  -- `y` becomes a child of `x`.
  unfoldable pub make_child : ℕ → ℕ → Store → Store
  unfolding unlink link_after
  make_child y x st =
      let st1 = write y (λ n. record n { parent = some x }) (unlink y st) in
      let st2 = write x (λ n. record n { degree = n.degree + 1 }) (adopt y x st1) in
      write y (λ n. record n { mark = false }) st2
