-- ===== src/Routes/Construct.antt =====
-- ResilientRouteGenerationForReroute::constructResilientRoutes: the resilient routes to one destination.
-- The lists of sub-paths are those of the vectors, which the function changes: they are passed on.
-- `next_path_id` is `_nextPathID`.
use tafrr.Prelude.{
  ℕ, zero, suc, ◌+◌, Option, none, some, List, [], ◌∷◌, ◌++◌, ◌==◌, if◌then◌else◌, length, ◌>>=◌,
}
use tafrr.Prelude.Dict.{Dict, lookup, insert, erase}
use tafrr.Graph.{LltcGraph, get_link_by_node_ids}
use tafrr.Rsg.Build.{RedundantSubPath, ResilientRoutes}
use tafrr.Routes.{put, convert_prev_array_to_path_node_ids_array}
use tafrr.Routes.Vectors.{ResilientRouteVectors}

pub record Constructed (F : Type 0) : Type 0 where
  pub routes : ResilientRoutes F
  pub expected_rr_loss_rate : F
  pub max_rr_delay : F
  pub prim_path_delay : F

-- The lists of sub-paths and the next ID while the routes are put together.
pub record Construction (F : Type 0) : Type 0 where
  pub next_path_id : ℕ
  pub rsps_map : ℕ → Option (List (RedundantSubPath F))
  pub hrsp : Dict (List (RedundantSubPath F))

module _ {F : Type 0} where
  -- The loop over the links of the primary path: each must exist.
  unfoldable pub pp_links_ids : LltcGraph F → ℕ → List ℕ → Option (List ℕ)
  pp_links_ids g node [] = some []
  pp_links_ids g node (next ∷ rest) = do
    l ← get_link_by_node_ids g node next
    ids ← pp_links_ids g next rest
    some (l.link_id ∷ ids)

  -- The loop over the links of the j-th sub-path: `j` once for each link that is the link at the same
  -- place of the primary path. The loop over `k` compares the same two links again and again.
  unfoldable pub joint_links : LltcGraph F → ℕ → ℕ → List ℕ → ℕ → List ℕ → Option (List ℕ)
  joint_links g j a [] b prim = some []
  joint_links g j a (a' ∷ rsp) b [] = some []
  joint_links g j a (a' ∷ rsp) b (b' ∷ prim) = do
    l ← get_link_by_node_ids g a a'
    l_prim ← get_link_by_node_ids g b b'
    later ← joint_links g j a' rsp b' prim
    some (if l_prim.link_id == l.link_id then j ∷ later else later)

  abbrev joint_nodes : LltcGraph F → ℕ → List ℕ → List ℕ → Option (List ℕ)
  joint_nodes g j [] prim = some []
  joint_nodes g j (a ∷ rsp) [] = some []
  joint_nodes g j (a ∷ rsp) (b ∷ prim) = joint_links g j a rsp b prim

  -- jointRSPs_indexes
  unfoldable pub joint_rsps_indexes :
      LltcGraph F → ℕ → List (RedundantSubPath F) → List ℕ → Option (List ℕ)
  unfolding joint_links
  joint_rsps_indexes g j [] prim = some []
  joint_rsps_indexes g j (rsp ∷ rsps) prim = do
    here ← joint_nodes g j rsp.node_ids prim
    later ← joint_rsps_indexes g (j + 1) rsps prim
    some (here ++ later)

  -- `rsps->erase(rsps->begin() + i)`: behind the end it is undefined.
  abbrev pub erase_at : ℕ → List (RedundantSubPath F) → Option (List (RedundantSubPath F))
  erase_at i [] = none
  erase_at zero (rsp ∷ rsps) = some rsps
  erase_at (suc i) (rsp ∷ rsps) = erase_at i rsps >>= λ rest. some (rsp ∷ rest)

  -- The indexes from the last to the first.
  unfoldable pub erase_all : List ℕ → List (RedundantSubPath F) → Option (List (RedundantSubPath F))
  erase_all [] rsps = some rsps
  erase_all (i ∷ is') rsps = erase_all is' rsps >>= erase_at i

  unfoldable pub assign_ids : ℕ → List (RedundantSubPath F) → List (RedundantSubPath F)
  assign_ids next [] = []
  assign_ids next (rsp ∷ rsps) = record rsp { path_id = next } ∷ assign_ids (next + 1) rsps

  abbrev pub with_rsps : ℕ → List (RedundantSubPath F) → Construction F → Construction F
  with_rsps node rsps c = record {
    next_path_id = c.next_path_id + length rsps;
    rsps_map = put node (some (assign_ids c.next_path_id rsps)) c.rsps_map;
    hrsp = insert node (assign_ids c.next_path_id rsps) c.hrsp;
  }

  -- The body of the loop over the nodes of the primary path.
  unfoldable pub construct_node :
      LltcGraph F → List ℕ → ℕ → Construction F → Option (Construction F)
  unfolding joint_rsps_indexes erase_all assign_ids
  construct_node g prim node c = elim (c.rsps_map node) [
    | none ↦ some c
    | some rsps ↦ do
      joint ← joint_rsps_indexes g 0 rsps prim
      kept ← erase_all joint rsps
      some (with_rsps node kept c)
  ]

  unfoldable pub construct_nodes :
      LltcGraph F → List ℕ → List ℕ → Construction F → Option (Construction F)
  unfolding construct_node
  construct_nodes g prim [] c = some c
  construct_nodes g prim (node ∷ rest) c =
      construct_node g prim node c >>= λ c'. construct_nodes g prim rest c'

  abbrev pub constructed : List ℕ → ℕ → ResilientRouteVectors F → ℕ → Construction F → Constructed F
  constructed path id rrv dst c = record {
    routes = record { primary_path = record { node_ids = path; path_id = id }; hrsp = c.hrsp };
    expected_rr_loss_rate = rrv.expected_loss_rates dst;
    max_rr_delay = rrv.max_delays dst;
    prim_path_delay = rrv.max_prim_path_delays dst;
  }

  abbrev pub started : ℕ → ResilientRouteVectors F → Construction F
  started next rrv = record { next_path_id = next + 1; rsps_map = rrv.rsps_map; hrsp = [] }

  -- No routes are given where the primary path has fewer than two nodes.
  unfoldable pub construct_resilient_routes :
      ℕ
      → LltcGraph F
      → ResilientRouteVectors F
      → ℕ
      → Option (Construction F × Option (Constructed F))
  unfolding convert_prev_array_to_path_node_ids_array pp_links_ids construct_nodes
  construct_resilient_routes next g rrv dst =
      convert_prev_array_to_path_node_ids_array (length g.nodes) rrv.prev_node_idx rrv.src_node_id
        dst
      >>= λ path. elim path [
        | [] ↦ none
        | first ∷ [] ↦
            some (record { next_path_id = next; rsps_map = rrv.rsps_map; hrsp = [] }, none)
        | first ∷ second ∷ rest ↦ do
          ids ← pp_links_ids g first (second ∷ rest)
          c ← construct_nodes g (first ∷ second ∷ rest) (second ∷ rest) (started next rrv)
          some (c, some (constructed (first ∷ second ∷ rest) next rrv dst c))
      ]

  -- ResilientRoutes::getRSPsByNodeId, setRSPsToNodeId, getHRSP and removeRSPByNodeId.
  unfoldable pub get_rsps_by_node_id : ℕ → ResilientRoutes F → Option (List (RedundantSubPath F))
  get_rsps_by_node_id node rr = lookup node rr.hrsp

  unfoldable pub set_rsps_to_node_id :
      ℕ → List (RedundantSubPath F) → ResilientRoutes F → ResilientRoutes F
  set_rsps_to_node_id node rsps rr = record rr { hrsp = insert node rsps rr.hrsp }

  unfoldable pub remove_rsp_by_node_id : ℕ → ResilientRoutes F → ResilientRoutes F
  remove_rsp_by_node_id node rr = record rr { hrsp = erase node rr.hrsp }
