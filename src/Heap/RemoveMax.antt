-- ===== src/Heap/RemoveMax.antt =====
-- FibonacciHeap::removeMax and degreewiseMerge.
use tafrr.Prelude.{
  ℕ, zero, suc, ◌+◌, ◌-◌, Option, none, some, List, [], ◌∷◌, ◌==◌, if◌then◌else◌, get_elem?, set,
  replicate, ◌>>=◌,
}
use tafrr.Prelude.Int.{ℤ, ltb_ℤ}
use tafrr.Prelude.Dict.{erase}
use tafrr.Heap.{Store, FibonacciHeap, write, unlink, link_after, key_of, larger, make_child}

-- sizeofDegreeTable
abbrev pub table_size : ℕ
table_size = 45

-- The loop that counts the roots from `x` on, until it is at `m` again.
unfoldable pub count_roots : ℕ → Store → ℕ → ℕ → ℕ → Option ℕ
count_roots zero st m x n = none
count_roots (suc fuel) st m x n =
    let on = count_roots fuel st m (st x).right (n + 1) in if x == m then some n else on

-- The loop over the children of the maximum `m`, which become roots.
unfoldable pub free_children : ℕ → ℕ → Option ℕ → Store → Option Store
unfolding unlink link_after
free_children zero m x st = some st
free_children (suc n) m none st = none
free_children (suc n) m (some x) st =
    free_children n m (some (st x).right)
      (write x (λ k. record k { parent = none }) (link_after m x (unlink x st)))

module _ (key : ℕ → ℤ) where
  pub record Merged : Type 0 where
    pub store : Store
    pub table : List (Option ℕ)

  -- The inner loop of degreewiseMerge: `x` takes the place `d`, or is merged with the root there.
  unfoldable pub merge_at : ℕ → ℕ → ℕ → Merged → Option Merged
  unfolding make_child
  merge_at zero d x s = none
  merge_at (suc fuel) d x s =
      let on = λ (parent child : ℕ).
        merge_at fuel (d + 1) parent
          (record { store = make_child key child parent s.store; table = set s.table d none }) in
      get_elem? s.table d >>= λ entry. elim entry [
        | none ↦ some (record s { table = set s.table d (some x) })
        | some y ↦ if ltb_ℤ (key_of key s.store x) (key_of key s.store y) then on y x else on x y
      ]

  -- The loop over the roots from `x` on.
  unfoldable pub merge_roots : ℕ → ℕ → Merged → Option Merged
  unfolding merge_at
  merge_roots zero x s = some s
  merge_roots (suc n) x s =
      merge_at (suc table_size) (s.store x).degree x s >>= λ s'. merge_roots n (s.store x).right s'

  -- The loop over the table: the roots are put into the list of the maximum again.
  unfoldable pub collect : List (Option ℕ) → Option ℕ → Store → Option ℕ × Store
  unfolding unlink link_after
  collect [] max st = (max, st)
  collect (none ∷ table) max st = collect table max st
  collect (some y ∷ table) none st = collect table (some y) st
  collect (some y ∷ table) (some m) st =
      let st' = link_after m y (unlink y st) in collect table (some (larger key st' y m)) st'

  unfoldable pub degreewise_merge : FibonacciHeap → Option FibonacciHeap
  unfolding count_roots merge_roots collect
  degreewise_merge h = do
    m ← h.max_node
    n ← count_roots (suc h.next) h.store m (h.store m).right 1
    s ← merge_roots n m (record { store = h.store; table = replicate table_size none })
    let result = collect s.table none s.store
    some (record h { max_node = result.0; store = result.1 })

  -- `none` where the heap is empty.
  unfoldable pub remove_max : FibonacciHeap → Option (ℕ × FibonacciHeap)
  unfolding free_children unlink degreewise_merge
  remove_max h = do
    z ← h.max_node
    st ← free_children (h.store z).degree z (h.store z).child h.store
    let st' = unlink z st
    let rest : FibonacciHeap = record h {
      store = st';
      number_of_nodes = h.number_of_nodes - 1;
      node_object_map = erase (h.store z).node_object h.node_object_map;
    }
    if z == (st' z).right
        then some (z, record rest { max_node = none })
        else (degreewise_merge (record rest { max_node = some (st' z).right }) >>= λ r. some (z, r))

  unfoldable pub remove_max_object : FibonacciHeap → Option (ℕ × FibonacciHeap)
  unfolding remove_max
  remove_max_object h = remove_max h >>= λ r. some ((r.1.store r.0).node_object, r.1)
