-- ===== src/DataIdQueue/Refine.antt =====
-- LltcDataIdQueue as a queue of IDs without repetition and without a bound on their number.
use mathlib.Core.Path.{subst}
use tafrr.Prelude.{
  ℕ, ◌+◌, ◌-◌, ◌%◌, ◌<◌, ◌≡◌, refl, inl, inr, true, false, Option, none, some, List, [], ◌∷◌, ◌++◌,
  arith, ◌==◌, if◌then◌else◌, length, contains, remove, length-append, Bool-cases, Option-cases,
  sym, ◌>>=◌,
}
use tafrr.Prelude.Dict.{Dict, lookup, has, erase, get_or, lookup-insert, lookup-erase}
use tafrr.DataIdQueue.{
  DataIdQueue, size_mod, new_queue, set_len, pop, append, push, has_id, size, get_data_id_add_time,
  Op, pushes, pops, step, run,
}

-- The abstract queue: IDs with the times of their arrival, oldest first.
abbrev pub step_spec : Dict ℕ → Op → Option (Dict ℕ)
step_spec l (pushes x time) = some (if has x l then l else l ++ (x, time) ∷ [])
step_spec [] pops = none
step_spec (e ∷ l) pops = some l

abbrev pub run_spec : Dict ℕ → List Op → Option (Dict ℕ)
run_spec l [] = some l
run_spec l (op ∷ ops) = step_spec l op >>= λ l'. run_spec l' ops

-- No ID stands twice.
abbrev pub Unique : Dict ℕ → Type 0
Unique [] = Unit
Unique (e ∷ l) = (has e.0 l ≡ false) × Unique l

abbrev pub ids : Dict ℕ → List ℕ
ids [] = []
ids (e ∷ l) = e.0 ∷ ids l

-- The queue `s`, made for `cap` IDs, holds what the abstract queue holds; `n` counts from `cap`.
pub record Holds (cap : ℕ) (l : Dict ℕ) (s : DataIdQueue) : Type 0 where
  pub unique : Unique l
  pub order : s.q ≡ ids l
  pub members : (x : ℕ) → contains s.set x ≡ has x l
  pub times : (x : ℕ) → lookup x s.data_id_add_time_map ≡ lookup x l
  pub counted : s.n ≡ (cap + length l) % size_mod

lookup-append :
    (x y t : ℕ) (l : Dict ℕ)
    → has y l ≡ false
    → lookup x (l ++ (y, t) ∷ []) ≡ (if x == y then some t else lookup x l)
lookup-append x y t [] h = refl
lookup-append x y t (e ∷ l) h = ground (arith, lookup-append x y t l)

has-append :
    (x y t : ℕ) (l : Dict ℕ) → has x (l ++ (y, t) ∷ []) ≡ (if y == x then true else has x l)
has-append x y t [] = ground arith
has-append x y t (e ∷ l) = ground (arith, has-append x y t l)

Unique-append : (y t : ℕ) (l : Dict ℕ) → has y l ≡ false → Unique l → Unique (l ++ (y, t) ∷ [])
Unique-append y t [] h u = (refl, tt)
Unique-append y t (e ∷ l) h u =
    (ground (arith, has-append e.0 y t l, u.0), Unique-append y t l (ground arith) u.1)

ids-append : (y t : ℕ) (l : Dict ℕ) → ids (l ++ (y, t) ∷ []) ≡ ids l ++ y ∷ []
ids-append y t [] = refl
ids-append y t (e ∷ l) = ground (arith, ids-append y t l)

length-ids : (l : Dict ℕ) → length (ids l) ≡ length l
length-ids [] = refl
length-ids (e ∷ l) = omega (arith, length-ids l)

contains-remove :
    (a x : ℕ) (xs : List ℕ) → contains (remove a xs) x ≡ (if a == x then false else contains xs x)
contains-remove a x [] = ground arith
contains-remove a x (y ∷ xs) = ground (arith, contains-remove a x xs)

-- The capacity is never reached.
has_room :
    (cap : ℕ) (l : Dict ℕ) (s : DataIdQueue)
    → 0 < cap
    → cap < size_mod
    → Holds cap l s
    → (length s.q == s.n) ≡ false
has_room cap l s p c h =
    let len : length s.q ≡ length l = rw (h.order) (length-ids l) in ground (arith, len, h.counted)

append-Holds :
    (cap x t : ℕ) (l : Dict ℕ) (s : DataIdQueue)
    → has x l ≡ false
    → Holds cap l s
    → Holds cap (l ++ (x, t) ∷ []) (append x t s)
unfolding append
append-Holds cap x t l s new h = record {
  unique = Unique-append x t l new h.unique;
  order = rw (h.order) (sym (ids-append x t l));
  members = λ y. ground (arith, has-append y x t l, h.members y);
  times = λ y.
      ground
        (arith, lookup-insert y x t s.data_id_add_time_map, lookup-append y x t l new, h.times y);
  counted = omega (arith, h.counted, length-append l ((x, t) ∷ []));
}

pop_lem :
    (cap : ℕ) (e : ℕ × ℕ) (l : Dict ℕ) (s : DataIdQueue)
    → Holds cap (e ∷ l) s
    → (s' : DataIdQueue) × (pop s ≡ some (e.0, s')) × Holds cap l s'
unfolding pop
pop_lem cap e l s h =
    let s' : DataIdQueue = record {
      n = (s.n + size_mod - 1) % size_mod;
      q = ids l;
      set = remove e.0 s.set;
      data_id_add_time_map = erase e.0 s.data_id_add_time_map;
    } in
    (
      s',
      ground (arith, h.order),
      record {
        unique = h.unique.1;
        order = refl;
        members = λ x. ground (arith, contains-remove e.0 x s.set, h.members x, h.unique.0);
        times =
            λ x. ground (arith, lookup-erase x e.0 s.data_id_add_time_map, h.times x, h.unique.0);
        counted = omega (arith, h.counted);
      },
    )

step_lem :
    (cap : ℕ) (l l' : Dict ℕ) (op : Op) (s : DataIdQueue)
    → 0 < cap
    → cap < size_mod
    → Holds cap l s
    → step_spec l op ≡ some l'
    → (s' : DataIdQueue) × (step s op ≡ some s') × Holds cap l' s'
unfolding step push
step_lem cap l l' (pushes x t) s p c h e = elim (Bool-cases (has x l)) [
  | inl old ↦
      let same : l ≡ l' = ground (arith, old) in
      (s, ground (arith, h.members x, old), subst (λ (x : Dict ℕ). Holds cap x s) same h)
  | inr new ↦
      let same : l ++ (x, t) ∷ [] ≡ l' = ground (arith, new) in
      (
        append x t s,
        ground (arith, h.members x, new, has_room cap l s p c h),
        rw (same) at (append-Holds cap x t l s new h),
      )
]
step_lem cap [] l' pops s p c h e = cc
step_lem cap (d ∷ l) l' pops s p c h e =
    let same : l ≡ l' = ground arith in
    let (s', e1, h1) = pop_lem cap d l s h in (s', simp (e1) refl, rw (same) at h1)

run_lem :
    (cap : ℕ) (l l' : Dict ℕ) (ops : List Op) (s : DataIdQueue)
    → 0 < cap
    → cap < size_mod
    → Holds cap l s
    → run_spec l ops ≡ some l'
    → (s' : DataIdQueue) × (run s ops ≡ some s') × Holds cap l' s'
unfolding run
run_lem cap l l' [] s p c h e = (s, refl, let same : l ≡ l' = ground arith in rw (same) at h)
run_lem cap l l' (op ∷ ops) s p c h e = elim (Option-cases (step_spec l op)) [
  | inl stuck ↦ absurd (ground (arith, stuck))
  | inr (l1, e1) ↦
      let rest : run_spec l1 ops ≡ some l' = ground (arith, e1) in
      let (s1, e2, h1) = step_lem cap l l1 op s p c h e1 in
      let (s2, e3, h2) = run_lem cap l1 l' ops s1 p c h1 rest in (s2, rw (e2) e3, h2)
]

get_or-same : (x : ℕ) (d l : Dict ℕ) → lookup x d ≡ lookup x l → get_or x 0 d ≡ get_or x 0 l
get_or-same x d l h = ground (arith, h)

-- A queue whose length was set to `cap`, from 1 to 2^64 - 1, behaves as the abstract queue without a
-- bound: whenever a sequence of pushes and pops takes no ID from the empty abstract queue, the code
-- gets through it, and then it has the same IDs in the same order, `contains` and the times of
-- arrival agree, and `size()` is their number plus `cap`, modulo 2^64. So nothing is ever evicted.
pub run-refines :
    (junk cap : ℕ) (ops : List Op) (l : Dict ℕ)
    → 0 < cap
    → cap < size_mod
    → run_spec [] ops ≡ some l
    → (s : DataIdQueue) × (run (set_len cap (new_queue junk)) ops ≡ some s)
      × (s.q ≡ ids l)
      × ((x : ℕ) → has_id x s ≡ has x l)
      × ((x : ℕ) → get_data_id_add_time x s ≡ get_or x 0 l)
      × (size s ≡ (cap + length l) % size_mod)
unfolding set_len new_queue has_id get_data_id_add_time size
run-refines junk cap ops l p c e =
    let start : Holds cap [] (set_len cap (new_queue junk)) = record {
      unique = tt;
      order = refl;
      members = λ x. refl;
      times = λ x. refl;
      counted = omega arith;
    } in
    let (s, e1, h) = run_lem cap [] l ops _ p c start e in
    (s, e1, h.order, h.members, λ x. get_or-same x _ l (h.times x), h.counted)
