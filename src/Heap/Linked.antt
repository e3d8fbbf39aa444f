-- ===== src/Heap/Linked.antt =====
-- The lists of FibonacciHeap are doubly linked rings: what the writes to `left` and `right` keep.
use tafrr.Prelude.{
  ℕ, ◌≡◌, inl, inr, false, List, ◌∷◌, arith, ◌==◌, if◌then◌else◌, contains, Bool-cases,
}
use tafrr.Heap.{Store, unlink, link_after}

-- Each node that is not among `out` stands between its neighbours, which are not among `out` either.
pub record Between (out : List ℕ) (st : Store) (i : ℕ) : Type 0 where
  pub right_left : (st (st i).left).right ≡ i
  pub left_right : (st (st i).right).left ≡ i
  pub left_in : contains out (st i).left ≡ false
  pub right_in : contains out (st i).right ≡ false

abbrev pub IsLinked : List ℕ → Store → Type 0
IsLinked out st = (i : ℕ) → contains out i ≡ false → Between out st i

unlink-left :
    (x : ℕ) (st : Store) (j : ℕ)
    → (unlink x st j).left ≡ (if j == (st x).right then (st x).left else (st j).left)
unfolding unlink
unlink-left x st j = ground arith

unlink-right :
    (x : ℕ) (st : Store) (j : ℕ)
    → (unlink x st j).right ≡ (if j == (st x).left then (st x).right else (st j).right)
unfolding unlink
unlink-right x st j = ground arith

pub link_after-left :
    (m x : ℕ) (st : Store) (j : ℕ)
    → (m == x) ≡ false
    → (link_after m x st j).left
      ≡ (if j == (st m).right then x else if j == x then m else (st j).left)
unfolding link_after
link_after-left m x st j ne = ground arith

link_after-right :
    (m x : ℕ) (st : Store) (j : ℕ)
    → (m == x) ≡ false
    → (link_after m x st j).right
      ≡ (if j == m then x else if j == x then (st m).right else (st j).right)
unfolding link_after
link_after-right m x st j ne = ground arith

-- Only the links between the nodes matter.
pub IsLinked-same :
    (out : List ℕ) (st st' : Store)
    → ((j : ℕ) → (st' j).left ≡ (st j).left)
    → ((j : ℕ) → (st' j).right ≡ (st j).right)
    → IsLinked out st
    → IsLinked out st'
IsLinked-same out st st' l r h i live =
    let b = h i live in
    record {
      right_left = ground (arith, l i, r (st i).left, b.right_left);
      left_right = ground (arith, r i, l (st i).right, b.left_right);
      left_in = ground (arith, l i, b.left_in);
      right_in = ground (arith, r i, b.right_in);
    }

pub unlink-IsLinked :
    (out : List ℕ) (x : ℕ) (st : Store)
    → contains out x ≡ false
    → IsLinked out st
    → IsLinked (x ∷ out) (unlink x st)
unlink-IsLinked out x st live h i live' =
    let mine = h x live in
    let other : (x == i) ≡ false = ground arith in
    let b = h i (ground arith) in
    record {
      right_left = ground (
        arith,
        unlink-left x st i,
        unlink-right x st (st i).left,
        unlink-right x st (st x).left,
        mine.right_left,
        mine.left_right,
        b.right_left,
        b.left_right,
      );
      left_right = ground (
        arith,
        unlink-right x st i,
        unlink-left x st (st i).right,
        unlink-left x st (st x).right,
        mine.right_left,
        mine.left_right,
        b.right_left,
        b.left_right,
      );
      left_in = ground (
        arith,
        unlink-left x st i,
        mine.left_in,
        mine.right_left,
        mine.left_right,
        b.left_in,
        b.right_left,
        b.left_right,
      );
      right_in = ground (
        arith,
        unlink-right x st i,
        mine.right_in,
        mine.right_left,
        mine.left_right,
        b.right_in,
        b.right_left,
        b.left_right,
      );
    }

pub link_after-IsLinked :
    (out : List ℕ) (m x : ℕ) (st : Store)
    → contains out x ≡ false
    → contains (x ∷ out) m ≡ false
    → IsLinked (x ∷ out) st
    → IsLinked out (link_after m x st)
link_after-IsLinked out m x st live in_list h i live' =
    let bm = h m in_list in
    let ne : (m == x) ≡ false = ground arith in
    let out_m : contains out m ≡ false = ground arith in
    let r = (st m).right in
    elim (Bool-cases (i == x)) [
      | inl same ↦ record {
        right_left =
            ground (arith, link_after-left m x st i ne, link_after-right m x st m ne, bm.right_in);
        left_right =
            ground (arith, link_after-right m x st i ne, link_after-left m x st r ne, bm.right_in);
        left_in = ground (arith, link_after-left m x st i ne, bm.right_in);
        right_in = ground (arith, link_after-right m x st i ne, bm.right_in);
      }
      | inr other ↦
          let b = h i (ground (arith, other)) in
          record {
            right_left = ground (
              arith,
              link_after-left m x st i ne,
              link_after-right m x st (st i).left ne,
              link_after-right m x st x ne,
              bm.left_right,
              bm.right_left,
              bm.right_in,
              b.right_left,
              b.left_right,
              b.left_in,
            );
            left_right = ground (
              arith,
              link_after-right m x st i ne,
              link_after-left m x st (st i).right ne,
              link_after-left m x st x ne,
              bm.left_right,
              bm.right_left,
              bm.right_in,
              b.right_left,
              b.left_right,
              b.right_in,
            );
            left_in = ground (arith, link_after-left m x st i ne, b.left_in);
            right_in = ground (arith, link_after-right m x st i ne, b.right_in);
          }
    ]
