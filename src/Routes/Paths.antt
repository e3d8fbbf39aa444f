-- ===== src/Routes/Paths.antt =====
-- The two walks along an array of previous nodes give the path itself.
use mathlib.Core.Path.{subst}
use tafrr.Prelude.{
  ℕ, zero, suc, ◌+◌, ◌-◌, ◌≤◌, ◌<◌, ◌≡◌, ◌≢◌, refl, ap, some, List, [], ◌∷◌, ◌++◌, arith, length,
  set, replicate,
}
use tafrr.Routes.{PrevArray, count_path_nodes, fill_path, convert_prev_array_to_path_node_ids_array}
use tafrr.Routes.GenPath.{count_nodes, fill_back, path_nodes}

-- The nodes before `v` on the way back to `src`, `src` included.
abbrev pub Back : PrevArray → ℕ → ℕ → List ℕ → Type 0
Back prev src v [] = v ≡ src
Back prev src v (u ∷ us) = (v ≢ src) × (prev v ≡ some u) × Back prev src u us

-- A list in reverse, put before another.
abbrev pub onto : List ℕ → List ℕ → List ℕ
onto [] ys = ys
onto (x ∷ xs) ys = onto xs (x ∷ ys)

-- The path from `src` to `v`.
abbrev pub path_to : ℕ → List ℕ → List ℕ
path_to v us = onto us (v ∷ [])

set-replicate :
    (n v : ℕ) (ys : List ℕ) → set (replicate (suc n) 0 ++ ys) n v ≡ replicate n 0 ++ v ∷ ys
set-replicate zero v ys = refl
set-replicate (suc n) v ys = ap (λ l. 0 ∷ l) (set-replicate n v ys)

append-nil : (xs : List ℕ) → xs ++ [] ≡ xs
append-nil [] = refl
append-nil (x ∷ xs) = ap (λ l. x ∷ l) (append-nil xs)

module _ (prev : PrevArray) (src : ℕ) where
  count_path_nodes_lem :
      (fuel v n : ℕ) (us : List ℕ)
      → Back prev src v us
      → length us ≤ fuel
      → count_path_nodes fuel prev src v n ≡ some (n + length us)
  unfolding count_path_nodes
  count_path_nodes_lem zero v n [] b h = ground arith
  count_path_nodes_lem zero v n (u ∷ us) b h = absurd (omega arith)
  count_path_nodes_lem (suc fuel) v n [] b h = ground arith
  count_path_nodes_lem (suc fuel) v n (u ∷ us) b h =
      let ih = count_path_nodes_lem fuel u (n + 1) us b.2 (omega arith) in ground (arith, ih)

  count_nodes_lem :
      (fuel v n : ℕ) (us : List ℕ)
      → Back prev src v us
      → length us ≤ fuel
      → count_nodes fuel prev src v n ≡ some (n + length us)
  unfolding count_nodes
  count_nodes_lem zero v n [] b h = ground arith
  count_nodes_lem zero v n (u ∷ us) b h = absurd (omega arith)
  count_nodes_lem (suc fuel) v n [] b h = ground arith
  count_nodes_lem (suc fuel) v n (u ∷ us) b h =
      let ih = count_nodes_lem fuel u (n + 1) us b.2 (omega arith) in ground (arith, ih)

  -- What the loop leaves is the path, up to its first node.
  fill_path_lem :
      (v u : ℕ) (us ys : List ℕ)
      → Back prev src v (u ∷ us)
      → (path : List ℕ) × (fill_path prev src
            (length (u ∷ us))
            v
            (replicate (suc (length (u ∷ us))) 0 ++ ys)
          ≡ some path)
        × (set path 0 src ≡ onto (u ∷ us) (v ∷ ys))
  unfolding fill_path
  fill_path_lem v u [] ys b = (0 ∷ v ∷ ys, ground arith, ground arith)
  fill_path_lem v u (w ∷ us) ys b =
      let (path, e, h) = fill_path_lem u w us (v ∷ ys) b.2 in
      let there = set-replicate (suc (length (w ∷ us))) v ys in (path, ground (arith, e, there), h)

  fill_back_lem :
      (last first v u : ℕ) (us ys : List ℕ)
      → Back prev src v (u ∷ us)
      → length (u ∷ us) < last
      → (path : List ℕ) × (fill_back prev src last
            (length (u ∷ us))
            v
            (first ∷ (replicate (length (u ∷ us)) 0 ++ ys))
          ≡ some path)
        × (set path 0 src ≡ onto (u ∷ us) (v ∷ ys))
  unfolding fill_back
  fill_back_lem last first v u [] ys b h = (first ∷ v ∷ ys, ground arith, ground arith)
  fill_back_lem last first v u (w ∷ us) ys b h =
      let (path, e, h') = fill_back_lem last first u w us (v ∷ ys) b.2 (omega arith) in
      let there = set-replicate (length (w ∷ us)) v ys in (path, ground (arith, e, there), h')

  -- convertPrevArrayToPathNodeIdsArray gives the path itself, from `src` to `v`.
  pub convert_prev_array_lem :
      (fuel v : ℕ) (us : List ℕ)
      → Back prev src v us
      → length us ≤ fuel
      → convert_prev_array_to_path_node_ids_array fuel prev src v ≡ some (path_to v us)
  unfolding convert_prev_array_to_path_node_ids_array
  convert_prev_array_lem fuel v [] b h =
      let counted : count_path_nodes fuel prev src v 1 ≡ some 1 =
        ground (arith, count_path_nodes_lem fuel v 1 [] b h) in
      simp (counted) refl
  convert_prev_array_lem fuel v (u ∷ us) b h =
      let counted : count_path_nodes fuel prev src v 1 ≡ some (suc (suc (length us))) =
        ground (arith, count_path_nodes_lem fuel v 1 (u ∷ us) b h) in
      let (path, e, p) = fill_path_lem v u us [] b in
      let filled : fill_path prev src (suc (length us)) v (replicate (suc (suc (length us))) 0)
          ≡ some path =
        subst (λ (z : List ℕ). fill_path prev src (suc (length us)) v (0 ∷ 0 ∷ z) ≡ some path)
          (append-nil (replicate (length us) 0)) e in
      simp (counted, filled) (ap some p)

  -- The path that genPath finds ends before the virtual node `v`.
  pub path_nodes_lem :
      (fuel v u : ℕ) (us : List ℕ)
      → Back prev src v (u ∷ us)
      → length (u ∷ us) ≤ fuel
      → path_nodes fuel prev src v ≡ some (path_to u us)
  unfolding path_nodes fill_back
  path_nodes_lem fuel v u [] b h =
      let counted : count_nodes fuel prev src v 1 ≡ some 2 =
        ground (arith, count_nodes_lem fuel v 1 (u ∷ []) b h) in
      let found : prev v ≡ some u = b.1 in
      let at_src : u ≡ src = b.2 in simp (counted) (ground (arith, found, at_src))
  path_nodes_lem fuel v u (w ∷ us) b h =
      let m = suc (suc (length us)) in
      let counted : count_nodes fuel prev src v 1 ≡ some (suc m) =
        ground (arith, count_nodes_lem fuel v 1 (u ∷ w ∷ us) b h) in
      let found : prev v ≡ some u = b.1 in
      let on : u ≢ src = b.2.0 in
      let (path, e, p) = fill_back_lem m src u w us [] b.2 (omega arith) in
      let filled : fill_back prev src m (suc (length us)) u (src ∷ replicate (suc (length us)) 0)
          ≡ some path =
        subst (λ (z : List ℕ). fill_back prev src m (suc (length us)) u (src ∷ 0 ∷ z) ≡ some path)
          (append-nil (replicate (length us) 0)) e in
      let pred : suc m - 1 ≡ m = omega arith in
      simp (counted, pred) (ground (arith, found, on, filled, p))
