-- ===== src/MaxQueue.antt =====
-- What the route computations use of FibonacciHeap (model/lltc/lltc-fibonacci-heap.hpp): a queue of
-- objects, numbered here, whose keys lie outside of it and are read through a key function. A result of
-- `none` is a null pointer that is read or a degree beyond the table of degreewiseMerge. Heap/Queue gives
-- the model of FibonacciHeap as such a queue.
use tafrr.Prelude.{ℕ, suc, ◌≡◌, ◌⊎◌, Option, some}
use tafrr.Prelude.Int.{ℤ}

pub record MaxQueue : Type 1 where
  pub Heap : Type 0
  pub new : Heap
  pub insert : (ℕ → ℤ) → ℕ → Heap → Heap
  pub remove_max : (ℕ → ℤ) → Heap → Option (ℕ × Heap)
  -- `updateKey`, after the new key was written to the object.
  pub update_key : (ℕ → ℤ) → ℕ → Heap → Option Heap
  pub size : Heap → ℕ
  -- An object in the memory of the heap, which reads as the object 0 where no node is made.
  pub Has : Heap → ℕ → Type 0
  pub size-new : size new ≡ 0
  pub has-new : (j : ℕ) → Has new j → j ≡ 0
  pub size-insert : (key : ℕ → ℤ) (i : ℕ) (h : Heap) → size (insert key i h) ≡ suc (size h)
  pub has-insert : (key : ℕ → ℤ) (i j : ℕ) (h : Heap) → Has (insert key i h) j → (i ≡ j) ⊎ Has h j
  pub size-update_key :
      (key : ℕ → ℤ) (i : ℕ) (h h' : Heap) → update_key key i h ≡ some h' → size h' ≡ size h
  pub has-update_key :
      (key : ℕ → ℤ) (i j : ℕ) (h h' : Heap) → update_key key i h ≡ some h' → Has h' j → Has h j
  pub size-remove_max :
      (key : ℕ → ℤ) (h h' : Heap) (i n : ℕ)
      → remove_max key h ≡ some (i, h')
      → size h ≡ suc n
      → size h' ≡ n
  pub has-removed : (key : ℕ → ℤ) (h h' : Heap) (i : ℕ) → remove_max key h ≡ some (i, h') → Has h i
  pub has-remove_max :
      (key : ℕ → ℤ) (h h' : Heap) (i j : ℕ) → remove_max key h ≡ some (i, h') → Has h' j → Has h j
