-- ===== src/Heap/Objects.antt =====
-- No operation of FibonacciHeap but insert changes the object of a node, and the number of nodes changes
-- by one with each insert and removal.
use tafrr.Prelude.{
  ℕ, zero, suc, ◌+◌, ◌≡◌, refl, inl, inr, ◌∙◌, Bool, true, false, Option, none, some, List, [], ◌∷◌,
  arith, if◌then◌else◌, Bool-cases, Option-cases, ◌>>=◌, get_elem?, set,
}
use tafrr.Prelude.Int.{ℤ, ltb_ℤ}
use tafrr.Heap.{Store, write, unlink, link_after, key_of, larger, make_child, adopt}
use tafrr.Heap.Cascade.{unlink-object, link_after-object}
use tafrr.Heap.RemoveMax.{table_size, free_children, Merged, merge_at, merge_roots, collect}

-- Both stores give the same objects.
abbrev pub SameObjects : Store → Store → Type 0
SameObjects st st' = (j : ℕ) → (st' j).node_object ≡ (st j).node_object

-- What holds of the value of an option, if it has one.
abbrev pub Given {ℓ} : {A : Type ℓ} → Option A → (A → Type 0) → Type 0
Given none P = Unit
Given (some a) P = P a

pub Given-some {ℓ} :
    {A : Type ℓ} (o : Option A) (a : A) (P : A → Type 0) → Given o P → o ≡ some a → P a
Given-some o a P h e = rw e at h

pub Given-map {ℓ} :
    {A : Type ℓ} (o : Option A) (P Q : A → Type 0) → ((a : A) → P a → Q a) → Given o P → Given o Q
Given-map none P Q f h = tt
Given-map (some a) P Q f h = f a h

pub Given-all {ℓ} : {A : Type ℓ} (o : Option A) (P : A → Type 0) → ((a : A) → P a) → Given o P
Given-all none P h = tt
Given-all (some a) P h = h a

pub Given-if {ℓ} :
    {A : Type ℓ} (b : Bool) (o o' : Option A) (P : A → Type 0)
    → Given o P
    → Given o' P
    → Given (if b then o else o') P
Given-if true o o' P h h' = h
Given-if false o o' P h h' = h'

pub Given-bind {ℓ ℓ'} :
    {A : Type ℓ} {B : Type ℓ'} (o : Option A) (f : A → Option B) (Q : B → Type 0)
    → Given o (λ a. Given (f a) Q)
    → Given (o >>= f) Q
Given-bind none f Q h = tt
Given-bind (some a) f Q h = h

adopt-objects : (key : ℕ → ℤ) (y x : ℕ) (st : Store) → SameObjects st (adopt key y x st)
adopt-objects key y x st j = elim (Option-cases (st x).child) [
  | inl alone ↦ rw (alone, adopt) (ground arith)
  | inr (c, there) ↦ rw (there, adopt) (link_after-object c y st j)
]

pub make_child-objects :
    (key : ℕ → ℤ) (y x : ℕ) (st : Store) → SameObjects st (make_child key y x st)
unfolding make_child
make_child-objects key y x st j =
    let st1 = write y (λ n. record n { parent = some x }) (unlink y st) in
    ground (arith, unlink-object y st j, adopt-objects key y x st1 j)

pub free_children-objects :
    (n m : ℕ) (x : Option ℕ) (st : Store)
    → Given (free_children n m x st) (λ st'. SameObjects st st')
unfolding free_children
free_children-objects zero m x st = λ j. refl
free_children-objects (suc n) m none st = tt
free_children-objects (suc n) m (some x) st =
    let st1 = link_after m x (unlink x st) in
    let st2 = write x (λ k. record k { parent = none }) st1 in
    Given-map (free_children n m (some (st x).right) st2) (λ st'. SameObjects st2 st')
      (λ st'. SameObjects st st')
      (λ st' h j. ground (arith, h j, unlink-object x st j, link_after-object m x (unlink x st) j))
      (free_children-objects n m (some (st x).right) st2)

pub merge_at-objects :
    (key : ℕ → ℤ) (fuel d x : ℕ) (s : Merged key)
    → Given (merge_at key fuel d x s) (λ s'. SameObjects s.store s'.store)
unfolding merge_at
merge_at-objects key zero d x s = tt
merge_at-objects key (suc fuel) d x s =
    let merged = λ (parent child : ℕ).
      let s1 : Merged key = record {
        store = make_child key child parent s.store;
        table = set s.table d none;
      } in
      Given-map (merge_at key fuel (d + 1) parent s1) (λ s'. SameObjects s1.store s'.store)
        (λ s'. SameObjects s.store s'.store)
        (λ s' h j. h j ∙ make_child-objects key child parent s.store j)
        (merge_at-objects key fuel (d + 1) parent s1) in
    elim (Option-cases (get_elem? s.table d)) [
      | inl beyond ↦ rw (beyond, merge_at) tt
      | inr (entry, at) ↦ elim (Option-cases entry) [
        | inl free ↦ rw (at, merge_at, free) (λ j. refl)
        | inr (y, taken) ↦ elim (Bool-cases (ltb_ℤ (key_of key s.store x) (key_of key s.store y))) [
          | inl less ↦ rw (at, merge_at, taken, less) (merged y x)
          | inr more ↦ rw (at, merge_at, taken, more) (merged x y)
        ]
      ]
    ]

pub merge_roots-objects :
    (key : ℕ → ℤ) (n x : ℕ) (s : Merged key)
    → Given (merge_roots key n x s) (λ s'. SameObjects s.store s'.store)
unfolding merge_roots
merge_roots-objects key zero x s = λ j. refl
merge_roots-objects key (suc n) x s =
    Given-bind (merge_at key (suc table_size) (s.store x).degree x s)
      (λ s'. merge_roots key n (s.store x).right s') (λ s'. SameObjects s.store s'.store)
      (Given-map (merge_at key (suc table_size) (s.store x).degree x s)
        (λ s1. SameObjects s.store s1.store)
        (λ s1. Given (merge_roots key n (s.store x).right s1) (λ s'. SameObjects s.store s'.store))
        (λ s1 h.
          Given-map (merge_roots key n (s.store x).right s1) (λ s'. SameObjects s1.store s'.store)
            (λ s'. SameObjects s.store s'.store) (λ s' h' j. h' j ∙ h j)
            (merge_roots-objects key n (s.store x).right s1))
        (merge_at-objects key (suc table_size) (s.store x).degree x s))

pub collect-objects :
    (key : ℕ → ℤ) (table : List (Option ℕ)) (max : Option ℕ) (st : Store)
    → SameObjects st (collect key table max st).1
unfolding collect
collect-objects key [] max st j = refl
collect-objects key (none ∷ table) max st j = collect-objects key table max st j
collect-objects key (some y ∷ table) none st j = collect-objects key table (some y) st j
collect-objects key (some y ∷ table) (some m) st j =
    let st' = link_after m y (unlink y st) in
    collect-objects key table (some (larger key st' y m)) st' j
    ∙ link_after-object m y (unlink y st) j
    ∙ unlink-object y st j
