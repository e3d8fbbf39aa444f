-- ===== src/Routes.antt =====
-- model/lltc/lltc-resilient-routes-generation-for-reroute.cpp: the resilient routes from one source. An
-- array of the source with a place for each node is a function of the node's ID, and -1 in an array of
-- previous nodes is `none`. `none` as a result stands for undefined behaviour: a null link, an index
-- out of range; it also stands for spent fuel.
pub mod GenPath
pub mod Vectors
pub mod Construct
pub mod Paths
pub mod Search
pub mod Stuck
pub mod Walk
pub mod Network
pub mod Found
use tafrr.Prelude.{
  ℕ, zero, suc, ◌+◌, Bool, true, false, ◌&&◌, Option, none, some, List, [], ◌∷◌, ◌==◌,
  if◌then◌else◌, length, set, replicate, contains, ◌>>=◌,
}
use tafrr.Prelude.Int.{ℤ}
use tafrr.Graph.{LltcGraph, LltcLink, get_link_by_node_ids}
use tafrr.Rsg.Build.{RedundantSubPath}

pub record LltcConfiguration (F : Type 0) : Type 0 where
  pub num_retrans_requests : ℤ
  -- A negative number of sub-paths is as none.
  pub beta : ℕ
  pub pmu_freq : F
  pub max_drift_ratio_for_pmu_freq : F
  pub max_consecutive_drift_packets : ℤ
  pub max_path_delay : F

abbrev pub PrevArray : Type 0
PrevArray = ℕ → Option ℕ

-- `a[i] = v`
abbrev pub put {ℓ} : {A : Type ℓ} → ℕ → A → (ℕ → A) → ℕ → A
put i v a j = if j == i then v else a j

-- The first loop of convertPrevArrayToPathNodeIdsArray.
unfoldable pub count_path_nodes : ℕ → PrevArray → ℕ → ℕ → ℕ → Option ℕ
count_path_nodes zero prev src v n = if v == src then some n else none
count_path_nodes (suc fuel) prev src v n =
    let later = λ (w : ℕ). count_path_nodes fuel prev src w (n + 1) in
    if v == src then some n else elim (prev v) [ none ↦ some n | some w ↦ later w ]

-- The last loop, from the index `p` down. The test for -1 is not repeated there.
unfoldable pub fill_path : PrevArray → ℕ → ℕ → ℕ → List ℕ → Option (List ℕ)
fill_path prev src zero v path = some (set path zero v)
fill_path prev src (suc p) v path =
    let later = λ (w : ℕ). fill_path prev src p w (set path (suc p) v) in
    elim (prev v) [ none ↦ none | some w ↦ if w == src then some (set path (suc p) v) else later w ]

unfoldable pub convert_prev_array_to_path_node_ids_array : ℕ → PrevArray → ℕ → ℕ → Option (List ℕ)
unfolding count_path_nodes fill_path
convert_prev_array_to_path_node_ids_array fuel prev src u =
    count_path_nodes fuel prev src u 1 >>= λ n. elim n [
      | zero ↦ none
      | suc zero ↦ fill_path prev src zero u (replicate 1 0)
      | suc (suc m) ↦ do
        path ← fill_path prev src (suc m) u (replicate (suc (suc m)) 0)
        some (set path zero src)
    ]

unfoldable pub is_the_same : List ℕ → List ℕ → Bool
is_the_same [] [] = true
is_the_same [] (b ∷ bs) = false
is_the_same (a ∷ as') [] = false
is_the_same (a ∷ as') (b ∷ bs) = a == b && is_the_same as' bs

module _ {F : Type 0} where
  -- convertPathNodeIdsArrayToLinkIdsSet
  unfoldable pub link_ids_from : LltcGraph F → ℕ → List ℕ → List ℕ → Option (List ℕ)
  link_ids_from g node [] ids = some ids
  link_ids_from g node (next ∷ rest) ids =
      let later = λ (l : LltcLink F). link_ids_from g next rest (l.link_id ∷ ids) in
      get_link_by_node_ids g next node >>= later

  unfoldable pub convert_path_node_ids_array_to_link_ids_set :
      LltcGraph F → List ℕ → List ℕ → Option (List ℕ)
  unfolding link_ids_from
  convert_path_node_ids_array_to_link_ids_set g [] ids = some ids
  convert_path_node_ids_array_to_link_ids_set g (node ∷ rest) ids = link_ids_from g node rest ids

  unfoldable pub is_in_array : List (RedundantSubPath F) → RedundantSubPath F → Bool
  unfolding is_the_same
  is_in_array [] rsp = false
  is_in_array (r ∷ rsps) rsp =
      let later = is_in_array rsps rsp in
      if is_the_same r.node_ids rsp.node_ids then true else later
