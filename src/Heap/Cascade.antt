-- ===== src/Heap/Cascade.antt =====
-- The lists and the parents of FibonacciHeap under cut and cascadingCut.
use tafrr.Prelude.{
  ℕ, suc, zero, ◌<◌, ◌≡◌, refl, inl, inr, ◌∙◌, sym, ap, true, false, none, some, List, ◌∷◌, arith,
  ◌==◌, if◌then◌else◌, contains, Bool-cases, Option-cases,
}
use tafrr.Prelude.Int.{ℤ, ltb_ℤ}
use tafrr.Heap.{Store, write, unlink, link_after, cut, cascading_cut, cut_above, drop_child, key_of}
use tafrr.Heap.Linked.{IsLinked}
use tafrr.Heap.Rings.{cut-IsLinked, write-IsLinked}

-- The parents are nodes of the heap and stand higher by `rank`; the maximum `m` is a root.
pub record IsForest (rank : ℕ → ℕ) (out : List ℕ) (m : ℕ) (st : Store) : Type 0 where
  pub linked : IsLinked out st
  pub max_in : contains out m ≡ false
  pub max_root : (st m).parent ≡ none
  pub parent_in : (i p : ℕ) → (st i).parent ≡ some p → contains out p ≡ false
  pub parent_rank : (i p : ℕ) → (st i).parent ≡ some p → rank p < rank i

unlink-parent : (x : ℕ) (st : Store) (j : ℕ) → (unlink x st j).parent ≡ (st j).parent
unfolding unlink
unlink-parent x st j = ground arith

link_after-parent : (m x : ℕ) (st : Store) (j : ℕ) → (link_after m x st j).parent ≡ (st j).parent
unfolding link_after
link_after-parent m x st j = ground arith

cut-parent :
    (key : ℕ → ℤ) (m x y : ℕ) (st : Store) (j : ℕ)
    → (cut key m x y st j).parent ≡ (if j == x then none else (st j).parent)
unfolding cut
cut-parent key m x y st j =
    let st1 = unlink x st in
    let st2 = write y (drop_child key x (st1 x).right) st1 in
    ground (arith, unlink-parent x st j, link_after-parent m x st2 j)

cut-parent_some :
    (key : ℕ → ℤ) (m x y : ℕ) (st : Store) (j p : ℕ)
    → (cut key m x y st j).parent ≡ some p
    → (st j).parent ≡ some p
cut-parent_some key m x y st j p e = ground (arith, cut-parent key m x y st j)

-- A node with a parent is not the maximum.
child-in :
    (rank : ℕ → ℕ) (out : List ℕ) (m : ℕ) (st : Store) (x p : ℕ)
    → IsForest rank out m st
    → (st x).parent ≡ some p
    → contains (x ∷ out) m ≡ false
child-in rank out m st x p f e = ground (arith, f.max_in, f.max_root)

cut-IsForest :
    (key : ℕ → ℤ) (rank : ℕ → ℕ) (out : List ℕ) (m x y : ℕ) (st : Store)
    → contains out x ≡ false
    → (st x).parent ≡ some y
    → IsForest rank out m st
    → IsForest rank out m (cut key m x y st)
cut-IsForest key rank out m x y st live e f = record {
  linked = cut-IsLinked key out m x y st live (child-in rank out m st x y f e) f.linked;
  max_in = f.max_in;
  max_root = ground (arith, cut-parent key m x y st m, f.max_root);
  parent_in = λ i p e'. f.parent_in i p (cut-parent_some key m x y st i p e');
  parent_rank = λ i p e'. f.parent_rank i p (cut-parent_some key m x y st i p e');
}

mark-IsForest :
    (rank : ℕ → ℕ) (out : List ℕ) (m y : ℕ) (st : Store)
    → IsForest rank out m st
    → IsForest rank out m (write y (λ n. record n { mark = true }) st)
mark-IsForest rank out m y st f =
    let st' : Store = write y (λ n. record n { mark = true }) st in
    let same : (j : ℕ) → (st' j).parent ≡ (st j).parent = λ j. ground arith in
    record {
      linked =
          write-IsLinked out y (λ n. record n { mark = true }) st (λ n. refl) (λ n. refl) f.linked;
      max_in = f.max_in;
      max_root = same m ∙ f.max_root;
      parent_in = λ i p e. f.parent_in i p (sym (same i) ∙ e);
      parent_rank = λ i p e. f.parent_rank i p (sym (same i) ∙ e);
    }

pub unlink-object : (x : ℕ) (st : Store) (j : ℕ) → (unlink x st j).node_object ≡ (st j).node_object
unfolding unlink
unlink-object x st j = ground arith

pub link_after-object :
    (m x : ℕ) (st : Store) (j : ℕ) → (link_after m x st j).node_object ≡ (st j).node_object
unfolding link_after
link_after-object m x st j = ground arith

pub cut-object :
    (key : ℕ → ℤ) (m x y : ℕ) (st : Store) (j : ℕ)
    → (cut key m x y st j).node_object ≡ (st j).node_object
unfolding cut
cut-object key m x y st j =
    let st1 = unlink x st in
    let st2 = write y (drop_child key x (st1 x).right) st1 in
    ground (arith, unlink-object x st j, link_after-object m x st2 j)

-- What cascadingCut does to a forest.
pub record IsCut (rank : ℕ → ℕ) (out : List ℕ) (m : ℕ) (st st' : Store) : Type 0 where
  pub forest : IsForest rank out m st'
  pub objects : (j : ℕ) → (st' j).node_object ≡ (st j).node_object

abbrev pub marked_at : ℕ → Store → Store
marked_at y st = write y (λ n. record n { mark = true }) st

pub cascading_cut-root :
    (key : ℕ → ℤ) (m fuel y : ℕ) (st : Store)
    → (st y).parent ≡ none
    → cascading_cut key (suc fuel) m y st ≡ some st
unfolding cascading_cut
cascading_cut-root key m fuel y st e = rw (e, cascading_cut) refl

-- One step of cascadingCut at a node with a parent.
pub cascading_cut-step :
    (key : ℕ → ℤ) (m fuel y x : ℕ) (st : Store)
    → (st y).parent ≡ some x
    → cascading_cut key (suc fuel) m y st ≡ (
        if (st y).mark
        then cascading_cut key fuel m x (cut key m y x st)
        else some (marked_at y st))
unfolding cascading_cut
cascading_cut-step key m fuel y x st e =
    ap
      (λ p. elim p [
        | none ↦ some st
        | some z ↦
            if (st y).mark
            then cascading_cut key fuel m z (cut key m y z st)
            else some (marked_at y st)
      ])
      e

-- cascadingCut returns and keeps the forest and the objects, with more fuel than the rank of the node.
pub cascading_cut_lem :
    (key : ℕ → ℤ) (rank : ℕ → ℕ) (out : List ℕ) (m fuel y : ℕ) (st : Store)
    → contains out y ≡ false
    → rank y < fuel
    → IsForest rank out m st
    → (st' : Store) × (cascading_cut key fuel m y st ≡ some st') × IsCut rank out m st st'
cascading_cut_lem key rank out m zero y st live enough f = absurd (omega arith)
cascading_cut_lem key rank out m (suc fuel) y st live enough f = elim (Option-cases (st y).parent) [
  | inl root ↦
      (st, cascading_cut-root key m fuel y st root, record { forest = f; objects = λ j. refl })
  | inr (x, e) ↦
      let st1 = cut key m y x st in
      let on =
        cascading_cut_lem key rank out m fuel x st1 (f.parent_in y x e)
          (omega (arith, f.parent_rank y x e)) (cut-IsForest key rank out m y x st live e f) in
      elim (Bool-cases (st y).mark) [
        | inl marked ↦ (
          on.0,
          cascading_cut-step key m fuel y x st e ∙ rw marked on.1,
          record {
            forest = on.2.forest;
            objects = λ j. on.2.objects j ∙ cut-object key m y x st j;
          },
        )
        | inr unmarked ↦ (
          write y (λ n. record n { mark = true }) st,
          cascading_cut-step key m fuel y x st e ∙ rw unmarked refl,
          record { forest = mark-IsForest rank out m y st f; objects = λ j. ground arith },
        )
      ]
]

pub cut_above_lem :
    (key : ℕ → ℤ) (rank : ℕ → ℕ) (out : List ℕ) (m fuel x y : ℕ) (st : Store)
    → contains out x ≡ false
    → (st x).parent ≡ some y
    → rank y < fuel
    → IsForest rank out m st
    → (st' : Store) × (cut_above key fuel m x y st ≡ some st') × IsCut rank out m st st'
unfolding cut_above
cut_above_lem key rank out m fuel x y st live e enough f =
    let on =
      cascading_cut_lem key rank out m fuel y (cut key m x y st) (f.parent_in x y e) enough
        (cut-IsForest key rank out m x y st live e f) in
    elim (Bool-cases (ltb_ℤ (key_of key st y) (key_of key st x))) [
      | inl up ↦ (
        on.0,
        rw up on.1,
        record { forest = on.2.forest; objects = λ j. on.2.objects j ∙ cut-object key m x y st j },
      )
      | inr down ↦ (st, rw down refl, record { forest = f; objects = λ j. refl })
    ]
