-- ===== src/Rsg/Build.antt =====
-- LltcRrSubgraph::genLltcRrSubgraph: the sub-graph from the resilient routes of
-- model/lltc/lltc-resilient-routes-generation.hpp and the network. `none` stands for undefined
-- behaviour: an empty path, an index out of range, a null link or a null node.
pub mod Ready
use tafrr.Prelude.{
  ℕ, zero, suc, ◌+◌, Bool, true, false, Option, none, some, List, [], ◌∷◌, ◌++◌, map, ◌==◌,
  if◌then◌else◌, get_elem?, ◌>>=◌,
}
use tafrr.Prelude.Int.{ℤ, negsuc}
use tafrr.Prelude.Dict.{Dict, lookup, insert, get_or}
use tafrr.Double.{DoubleOps}
use tafrr.Graph.{
  LltcGraph, LltcLink, get_link_by_node_ids, get_link_delay_total, get_link_succ_ratio,
}
use tafrr.Rsg.{Rsg, RsgNode, VirLink, PathCompact, status_normal}
use tafrr.Rsg.LinkId.{get_link_id}

pub record RedundantSubPath (F : Type 0) : Type 0 where
  pub path_id : ℕ
  pub node_ids : List ℕ
  pub retrans_source_node_idx : ℕ
  pub retrans_dst_node_idx : ℕ
  pub link_down_delay : ℤ
  pub one_way_data_delivery_loss_rate : F

pub record ResilientRoutes (F : Type 0) : Type 0 where
  pub primary_path : PathCompact
  pub hrsp : Dict (List (RedundantSubPath F))

-- The index of the node that the sub-path leaves the primary path behind, from 1.
unfoldable pub push_ingress : {F : Type 0} → ℕ → VirLink F → List (RsgNode F) → List (RsgNode F)
push_ingress i link [] = []
push_ingress zero link (node ∷ nodes) =
    record node { ingress_vir_links = node.ingress_vir_links ++ link ∷ [] } ∷ nodes
push_ingress (suc i) link (node ∷ nodes) = node ∷ push_ingress i link nodes

-- The search among the first `i` nodes for the one that the link leaves, and its `push_back`.
unfoldable pub push_egress :
    {F : Type 0} → ℕ → VirLink F → List (RsgNode F) → Option (List (RsgNode F))
push_egress zero link nodes = none
push_egress (suc i) link [] = none
push_egress (suc i) link (node ∷ nodes) =
    let later = push_egress i link nodes in
    if node.node_id == link.node_ingress
    then some (record node { egress_vir_links = node.egress_vir_links ++ link ∷ [] } ∷ nodes)
    else later >>= λ nodes'. some (node ∷ nodes')

-- The inner loop over the nodes of a sub-path: `first` stays the first node of the path.
unfoldable pub rsp_links_normal : ℕ → List ℕ → Dict ℕ → Dict ℕ
rsp_links_normal first [] statuses = statuses
rsp_links_normal first (node ∷ rest) statuses =
    rsp_links_normal first rest (insert (get_link_id first node) status_normal statuses)

-- The sub-graph's nodes, links and statuses while they are built.
pub record Building (F : Type 0) : Type 0 where
  pub nodes : List (RsgNode F)
  pub links : List (VirLink F)
  pub link_status_map : Dict ℕ

module _ {F : Type 0} where
  unfoldable pub compact : RedundantSubPath F → PathCompact
  compact rsp = record { node_ids = rsp.node_ids; path_id = rsp.path_id }

  -- The loop that fills rsg_compacted_rr.
  unfoldable pub compact_hrsp :
      Dict (List (RedundantSubPath F)) → List ℕ → Dict (List PathCompact) → Dict (List PathCompact)
  unfolding compact
  compact_hrsp hrsp [] done = done
  compact_hrsp hrsp (node ∷ rest) done = elim (lookup node hrsp) [
    | none ↦ compact_hrsp hrsp rest done
    | some rsps ↦
        compact_hrsp hrsp rest (insert node (get_or node [] done ++ map compact rsps) done)
  ]

abbrev pub last_from : ℕ → List ℕ → ℕ
last_from node [] = node
last_from node (next ∷ rest) = last_from next rest

module _ (d : DoubleOps) (g : LltcGraph d.Double) where
  abbrev pub hop_link : ℕ → ℕ → ℕ → LltcLink d.Double → VirLink d.Double
  hop_link path_id prev node link = record {
    is_on_prim_path = true;
    link_id = get_link_id prev node;
    path_id = path_id;
    node_ingress = prev;
    node_egress = node;
    succ_ratio_in_log = get_link_succ_ratio (d.of_int (negsuc 0)) link prev node true;
    delay = d.of_int (get_link_delay_total link prev node);
  }

  -- A node before the others, with the link that leaves it. The statuses are all the same, so that
  -- the order in which they are written does not matter.
  abbrev pub extend : ℕ → VirLink d.Double → Building d.Double → Building d.Double
  extend prev link b = record {
    nodes =
        (record { node_id = prev; egress_vir_links = link ∷ []; ingress_vir_links = [] }) ∷ b.nodes;
    links = link ∷ b.links;
    link_status_map = insert link.link_id status_normal b.link_status_map;
  }

  abbrev pub last_node : ℕ → Building d.Double
  last_node node = record {
    nodes = (record { node_id = node; egress_vir_links = []; ingress_vir_links = [] }) ∷ [];
    links = [];
    link_status_map = [];
  }

  -- The loop over the primary path, from the node before the rest of it.
  unfoldable pub hops : ℕ → ℕ → List ℕ → Option (Building d.Double)
  hops path_id prev [] = some (last_node prev)
  hops path_id prev (node ∷ rest) = do
    link ← get_link_by_node_ids g prev node
    b ← hops path_id node rest
    some (extend prev (hop_link path_id prev node link) b)

  abbrev pub rsp_link : RedundantSubPath d.Double → ℕ → ℕ → VirLink d.Double
  rsp_link rsp ingress egress = record {
    is_on_prim_path = false;
    link_id = 0;
    path_id = rsp.path_id;
    node_ingress = ingress;
    node_egress = egress;
    succ_ratio_in_log = d.log rsp.one_way_data_delivery_loss_rate;
    delay = d.of_int rsp.link_down_delay;
  }

  abbrev pub with_rsp :
      RedundantSubPath d.Double
      → VirLink d.Double
      → ℕ
      → List (RsgNode d.Double)
      → Building d.Double
      → Building d.Double
  with_rsp rsp link first nodes b = record {
    nodes = nodes;
    links = b.links ++ link ∷ [];
    link_status_map =
        insert rsp.path_id status_normal (rsp_links_normal first rsp.node_ids b.link_status_map);
  }

  -- The body of the loop over the sub-paths of the i-th node.
  unfoldable pub add_rsp :
      ℕ → Building d.Double → RedundantSubPath d.Double → Option (Building d.Double)
  unfolding push_ingress push_egress rsp_links_normal
  add_rsp i b rsp = do
    ingress ← get_elem? rsp.node_ids rsp.retrans_dst_node_idx
    egress ← get_elem? rsp.node_ids rsp.retrans_source_node_idx
    nodes ←
        push_egress i (rsp_link rsp ingress egress)
          (push_ingress i (rsp_link rsp ingress egress) b.nodes)
    first ← get_elem? rsp.node_ids 0
    some (with_rsp rsp (rsp_link rsp ingress egress) first nodes b)

  unfoldable pub add_rsps :
      ℕ → Building d.Double → List (RedundantSubPath d.Double) → Option (Building d.Double)
  unfolding add_rsp
  add_rsps i b [] = some b
  add_rsps i b (rsp ∷ rsps) = add_rsp i b rsp >>= λ b'. add_rsps i b' rsps

  -- The loop over the nodes of the primary path from the i-th.
  unfoldable pub add_nodes :
      Dict (List (RedundantSubPath d.Double))
      → ℕ
      → List ℕ
      → Building d.Double
      → Option (Building d.Double)
  unfolding add_rsps
  add_nodes hrsp i [] b = some b
  add_nodes hrsp i (node ∷ rest) b =
      add_rsps i b (get_or node [] hrsp) >>= λ b'. add_nodes hrsp (suc i) rest b'

  abbrev pub finished : ℕ → ℕ → List ℕ → ResilientRoutes d.Double → Building d.Double → Rsg d.Double
  finished rsg_id first later rr b = record {
    rsg_id = rsg_id;
    nodes = b.nodes;
    links = b.links;
    link_status_map = b.link_status_map;
    src_node_id = first;
    dst_node_id = last_from first later;
    prim_path_id = rr.primary_path.path_id;
    prim_path = record { node_ids = first ∷ later; path_id = rr.primary_path.path_id };
    hrsp = compact_hrsp rr.hrsp (first ∷ later) [];
  }

  -- `rsg_id` is the value of `nextRsgId`.
  unfoldable pub gen_rr_subgraph : ℕ → ResilientRoutes d.Double → Option (Rsg d.Double)
  unfolding hops add_nodes compact_hrsp
  gen_rr_subgraph rsg_id rr = elim rr.primary_path.node_ids [
    | [] ↦ none
    | first ∷ later ↦ do
      b0 ← hops rr.primary_path.path_id first later
      b ← add_nodes rr.hrsp 1 later b0
      some (finished rsg_id first later rr b)
  ]
