-- ===== src/Heap/Increase.antt =====
-- increaseKey of FibonacciHeap.
use tafrr.Prelude.{
  ℕ, suc, ◌≤◌, ◌≡◌, refl, inl, inr, false, some, List, arith, ◌==◌, contains, Bool-cases,
  Option-cases,
}
use tafrr.Prelude.Int.{ℤ, ltb_ℤ}
use tafrr.Heap.{Store, FibonacciHeap, increase_key, raised, larger, key_of}
use tafrr.Heap.Linked.{IsLinked}
use tafrr.Heap.Cascade.{IsForest, IsCut, cut_above_lem}

-- No node has a larger key than `m`.
abbrev pub IsMax : (ℕ → ℤ) → List ℕ → ℕ → Store → Type 0
IsMax key out m st =
    (j : ℕ) → contains out j ≡ false → ltb_ℤ (key_of key st m) (key_of key st j) ≡ false

larger-IsMax :
    (key : ℕ → ℤ) (out : List ℕ) (x m : ℕ) (st : Store)
    → ((j : ℕ)
        → contains out j ≡ false
        → (j == x) ≡ false
        → ltb_ℤ (key_of key st m) (key_of key st j) ≡ false)
    → IsMax key out (larger key st x m) st
larger-IsMax key out x m st h j live = elim (Bool-cases (j == x)) [
  | inl same ↦ ground (arith, same)
  | inr other ↦ let below = h j live other in ground (arith, below)
]

-- What increaseKey does to a heap.
pub record IsRaised (key : ℕ → ℤ) (out : List ℕ) (h h' : FibonacciHeap) : Type 0 where
  pub linked : IsLinked out h'.store
  pub max : (m : ℕ) × (h'.max_node ≡ some m) × IsMax key out m h'.store
  pub size_same : h'.number_of_nodes ≡ h.number_of_nodes

-- The last lines of increaseKey, after the writes that gave the store.
raise-IsRaised :
    (key : ℕ → ℤ) (rank : ℕ → ℕ) (out : List ℕ) (h : FibonacciHeap) (x m : ℕ) (st : Store)
    → ((j : ℕ)
        → contains out j ≡ false
        → (j == x) ≡ false
        → ltb_ℤ (key_of key h.store m) (key_of key h.store j) ≡ false)
    → IsCut rank out m h.store st
    → IsRaised key out h (record h { store = st; max_node = some (larger key st x m) })
raise-IsRaised key rank out h x m st below c = record {
  linked = c.forest.linked;
  max = (
    larger key st x m,
    refl,
    larger-IsMax key out x m st
        (λ j live other. rw (c.objects m, c.objects j) (below j live other)),
  );
  size_same = refl;
}

-- For a node of a heap whose lists are linked, whose maximum is a root and whose parents stand higher by
-- a rank of at most the nodes ever made, and where the maximum has at least the key of every other node,
-- increaseKey returns, keeps the lists linked and the size, and leaves a maximum with at least the key of
-- every node.
pub increase_key_lem :
    (key : ℕ → ℤ) (rank : ℕ → ℕ) (out : List ℕ) (x m : ℕ) (h : FibonacciHeap)
    → h.max_node ≡ some m
    → contains out x ≡ false
    → ((i : ℕ) → rank i ≤ h.next)
    → IsForest rank out m h.store
    → ((j : ℕ)
        → contains out j ≡ false
        → (j == x) ≡ false
        → ltb_ℤ (key_of key h.store m) (key_of key h.store j) ≡ false)
    → (h' : FibonacciHeap) × (increase_key key x h ≡ some h') × IsRaised key out h h'
unfolding increase_key
increase_key_lem key rank out x m h at live bound f below = elim (Option-cases (h.store x).parent) [
  | inl root ↦ (
    raised key x m h h.store,
    rw (at, root) refl,
    raise-IsRaised key rank out h x m h.store below (record { forest = f; objects = λ j. refl }),
  )
  | inr (y, e) ↦
      let on =
        cut_above_lem key rank out m (suc h.next) x y h.store live e (omega (arith, bound y)) f in
      (
        raised key x m h on.0,
        rw (at, e, on.1) refl,
        raise-IsRaised key rank out h x m on.0 below on.2,
      )
]
