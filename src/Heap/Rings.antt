-- ===== src/Heap/Rings.antt =====
-- What insert, cut and makeChild of FibonacciHeap do to the doubly linked lists.
use mathlib.Core.Option.{some-injective}
use tafrr.Prelude.{
  ℕ, ◌+◌, ◌≡◌, refl, inl, inr, ◌∙◌, sym, ap, true, false, some, List, [], ◌∷◌, arith, ◌==◌,
  if◌then◌else◌, contains, Bool-cases, Option-cases, leb,
}
use tafrr.Prelude.Int.{ℤ}
use tafrr.Heap.{
  FibonacciHeapNode, Store, FibonacciHeap, write, unlink, link_after, insert_node, insert_object,
  cut, make_child, new_node, adopt, larger, drop_child, as_root,
}
use tafrr.Heap.Linked.{
  IsLinked, IsLinked-same, link_after-left, unlink-IsLinked, link_after-IsLinked,
}

-- The nodes that are not yet made lead to themselves, and the maximum is made.
pub record IsRing (h : FibonacciHeap) : Type 0 where
  pub linked : IsLinked [] h.store
  pub fresh : (j : ℕ) → leb h.next j ≡ true → (h.store j).left ≡ j
  pub max_made : (m : ℕ) → h.max_node ≡ some m → leb h.next m ≡ false

-- No other node leads to a node that leads to itself.
alone-IsLinked :
    (out : List ℕ) (x : ℕ) (st : Store)
    → (st x).left ≡ x
    → (st x).right ≡ x
    → IsLinked out st
    → IsLinked (x ∷ out) st
alone-IsLinked out x st l r h i live =
    let b = h i (ground arith) in
    record {
      right_left = b.right_left;
      left_right = b.left_right;
      left_in = ground (arith, b.left_in, b.right_left, l, r);
      right_in = ground (arith, b.right_in, b.left_right, l, r);
    }

-- A node that leads to itself is a list of its own.
ring-IsLinked :
    (out : List ℕ) (x : ℕ) (st st' : Store)
    → contains out x ≡ false
    → ((j : ℕ) → (st' j).left ≡ (if j == x then x else (st j).left))
    → ((j : ℕ) → (st' j).right ≡ (if j == x then x else (st j).right))
    → IsLinked (x ∷ out) st
    → IsLinked out st'
ring-IsLinked out x st st' live l r h i live' = elim (Bool-cases (i == x)) [
  | inl same ↦ record {
    right_left = ground (arith, l i, r x);
    left_right = ground (arith, r i, l x);
    left_in = ground (arith, l i);
    right_in = ground (arith, r i);
  }
  | inr other ↦
      let b = h i (ground (arith, other)) in
      record {
        right_left = ground (arith, l i, r (st i).left, b.right_left, b.left_in);
        left_right = ground (arith, r i, l (st i).right, b.left_right, b.right_in);
        left_in = ground (arith, l i, b.left_in);
        right_in = ground (arith, r i, b.right_in);
      }
]

pub write-IsLinked :
    (out : List ℕ) (x : ℕ) (f : FibonacciHeapNode → FibonacciHeapNode) (st : Store)
    → ((n : FibonacciHeapNode) → (f n).left ≡ n.left)
    → ((n : FibonacciHeapNode) → (f n).right ≡ n.right)
    → IsLinked out st
    → IsLinked out (write x f st)
write-IsLinked out x f st l r =
    IsLinked-same out st (write x f st) (λ j. ground (arith, l (st j)))
      (λ j. ground (arith, r (st j)))

unlink-child : (x : ℕ) (st : Store) (j : ℕ) → (unlink x st j).child ≡ (st j).child
unfolding unlink
unlink-child x st j = ground arith

-- cut keeps the links between the nodes, where the node that is cut is not the maximum.
pub cut-IsLinked :
    (key : ℕ → ℤ) (out : List ℕ) (m x y : ℕ) (st : Store)
    → contains out x ≡ false
    → contains (x ∷ out) m ≡ false
    → IsLinked out st
    → IsLinked out (cut key m x y st)
unfolding cut
cut-IsLinked key out m x y st live in_list h =
    let st1 = unlink x st in
    let st2 = write y (drop_child key x (st1 x).right) st1 in
    let cut_off =
      write-IsLinked (x ∷ out) y (drop_child key x (st1 x).right) st1 (λ n. refl) (λ n. refl)
        (unlink-IsLinked out x st live h) in
    write-IsLinked out x (as_root key) (link_after m x st2) (λ n. refl) (λ n. refl)
      (link_after-IsLinked out m x st2 live in_list cut_off)

adopt-IsLinked :
    (key : ℕ → ℤ) (out : List ℕ) (y x : ℕ) (st : Store)
    → contains out y ≡ false
    → ((c : ℕ) → (st x).child ≡ some c → contains (y ∷ out) c ≡ false)
    → IsLinked (y ∷ out) st
    → IsLinked out (adopt key y x st)
adopt-IsLinked key out y x st live child_in h = elim (Option-cases (st x).child) [
  | inl none_there ↦
      ring-IsLinked out y st (adopt key y x st) live (λ j. ground (arith, none_there))
        (λ j. ground (arith, none_there)) h
  | inr (c, there) ↦ rw (there, adopt) (link_after-IsLinked out c y st live (child_in c there) h)
]

-- makeChild keeps the lists of nodes linked, where the node that moves is in the heap, and the child of
-- its new parent, if any, is another node of the heap.
pub make_child-IsLinked :
    (key : ℕ → ℤ) (out : List ℕ) (y x : ℕ) (st : Store)
    → contains out y ≡ false
    → ((c : ℕ) → (st x).child ≡ some c → contains (y ∷ out) c ≡ false)
    → IsLinked out st
    → IsLinked out (make_child key y x st)
unfolding make_child
make_child-IsLinked key out y x st live child_in h =
    let st0 = unlink y st in
    let st1 = write y (λ n. record n { parent = some x }) st0 in
    let st2 = adopt key y x st1 in
    let unlinked =
      write-IsLinked (y ∷ out) y (λ n. record n { parent = some x }) st0 (λ n. refl) (λ n. refl)
        (unlink-IsLinked out y st live h) in
    let same : (st1 x).child ≡ (st x).child = ground (arith, unlink-child y st x) in
    let adopted = adopt-IsLinked key out y x st1 live (λ c e. child_in c (sym same ∙ e)) unlinked in
    let st3 = write x (λ n. record n { degree = n.degree + 1 }) st2 in
    write-IsLinked out y (λ n. record n { mark = false }) st3 (λ n. refl) (λ n. refl)
      (write-IsLinked out x (λ n. record n { degree = n.degree + 1 }) st2 (λ n. refl) (λ n. refl)
        adopted)

larger-made :
    (key : ℕ → ℤ) (st : Store) (x m k : ℕ)
    → leb x m ≡ false
    → some (larger key st x m) ≡ some k
    → leb (x + 1) k ≡ false
larger-made key st x m k old e =
    let kept : leb (x + 1) (larger key st x m) ≡ false = ground arith in
    ap (leb (x + 1)) (sym (some-injective _ _ e)) ∙ kept

-- Where the lists of a heap are linked, the nodes not yet made lead to themselves and the maximum is a
-- made node, insert of an object keeps this so.
pub insert_object-IsRing :
    (key : ℕ → ℤ) (o : ℕ) (h : FibonacciHeap) → IsRing h → IsRing (insert_object key o h)
unfolding insert_object insert_node new_node
insert_object-IsRing key o h ring =
    let x = h.next in
    let st0 : Store = write x (λ n. new_node x o) h.store in
    let left_x : (h.store x).left ≡ x = ring.fresh x (ground arith) in
    let bx = ring.linked x refl in
    let right_x : (h.store x).right ≡ x = ground (arith, left_x, bx.right_left) in
    let made : IsLinked [] st0 =
      IsLinked-same [] h.store st0 (λ j. ground (arith, left_x)) (λ j. ground (arith, right_x))
        ring.linked in
    elim (Option-cases h.max_node) [
      | inl empty ↦ rw empty (record {
        linked = made;
        fresh = λ j le. ground (arith, ring.fresh j (ground arith));
        max_made = λ m e. ground (arith, e);
      })
      | inr (m, there) ↦
          let old : leb x m ≡ false = ring.max_made m there in
          let bm = made m refl in
          rw there (record {
            linked =
                link_after-IsLinked [] m x st0 refl (ground arith)
                  (alone-IsLinked [] x st0 (ground arith) (ground arith) made);
            fresh = λ j le.
                let own : (h.store j).left ≡ j = ring.fresh j (ground arith) in
                ground (
                  arith,
                  link_after-left m x st0 j (ground arith),
                  bm.right_left,
                  bm.left_right,
                  left_x,
                  own,
                );
            max_made = λ k e. larger-made key (link_after m x st0) x m k old e;
          })
    ]
