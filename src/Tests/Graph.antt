-- ===== src/Tests/Graph.antt =====
-- The network: three nodes, and a link between the first two; and a sub-graph generated over it.
use tafrr.Prelude.{◌≡◌, refl, some, true, false, [], ◌∷◌, arith, contains}
use tafrr.Prelude.Int.{ℤ, pos, negsuc}
use tafrr.Graph.{
  LltcGraph, LltcLink, Delays, add_link_dual, add_virt_link_dual, remove_link_dual,
  get_link_by_node_ids, get_link_delay_total, get_link_succ_ratio,
}
use tafrr.Graph.Links.{add_link_dual-get_link}
use tafrr.Graph.Symmetry.{IsSymmetric, graph-IsSymmetric}
use tafrr.Rsg.{Rsg}
use tafrr.Rsg.Preferred.Invariant.{node_ids}
use tafrr.Rsg.Preferred.Statuses.{HasReadIds}
use tafrr.Rsg.Build.{ResilientRoutes, gen_rr_subgraph}
use tafrr.Rsg.Build.Ready.{gen_rr_subgraph-HasReadIds}
use tafrr.Tests.Samples.{scaled}

abbrev slow : Delays
slow = record { total = pos 9; trans = pos 3; process = pos 2; queue = pos 4 }

abbrev fast : Delays
fast = record { total = pos 5; trans = pos 1; process = pos 2; queue = pos 2 }

abbrev wire : LltcLink ℤ
wire = record {
  link_id = 0;
  node_a = 0;
  node_b = 1;
  ab_delay_total = pos 9;
  ba_delay_total = pos 5;
  ab_delay_trans = pos 3;
  ba_delay_trans = pos 1;
  ab_delay_queue = pos 4;
  ba_delay_queue = pos 2;
  ab_delay_process = pos 2;
  ba_delay_process = pos 2;
  ab_relia = negsuc 7;
  ab_relia_in_log = negsuc 7;
  ba_relia = negsuc 7;
  ba_relia_in_log = negsuc 7;
}

abbrev network : LltcGraph ℤ
network = record {
  nodes =
      (record { e_links = 0 ∷ []; i_links = 0 ∷ [] })
      ∷ (record { e_links = 0 ∷ []; i_links = 0 ∷ [] })
      ∷ (record { e_links = []; i_links = [] })
      ∷ [];
  store = wire ∷ [];
  links = 0 ∷ [];
  max_link_id = 1;
  max_virt_link_id = 1;
  vir_dst_node = 2;
}

-- The ratio -7 that is given for the way from 2 to 1 is not kept.
add_link_dual-get_link_example :
    (l : LltcLink ℤ) × (get_link_by_node_ids
        (add_link_dual scaled 1 2 (negsuc 2) (negsuc 6) slow fast network)
        1
        2
      ≡ some l)
    × (get_link_by_node_ids (add_link_dual scaled 1 2 (negsuc 2) (negsuc 6) slow fast network) 2 1
        ≡ some l)
    × (get_link_delay_total l 1 2 ≡ pos 9)
    × (get_link_delay_total l 2 1 ≡ pos 5)
    × (get_link_succ_ratio (negsuc 0) l 1 2 false ≡ negsuc 2)
    × (get_link_succ_ratio (negsuc 0) l 2 1 false ≡ negsuc 2)
unfolding get_link_by_node_ids
add_link_dual-get_link_example =
    add_link_dual-get_link scaled 1 2 (negsuc 2) (negsuc 6) (negsuc 0) slow fast network
      (record { e_links = 0 ∷ []; i_links = 0 ∷ [] }) (record { e_links = []; i_links = [] })
      (λ e. omega (arith, e)) refl refl (omega arith, tt) tt refl refl

graph-IsSymmetric_example :
    IsSymmetric (add_link_dual scaled 1 2 (negsuc 2) (negsuc 6) slow fast network).nodes
    × IsSymmetric (add_virt_link_dual scaled (pos 1) 1 2 network).nodes
    × ((g' : LltcGraph ℤ) × (remove_link_dual 0 network ≡ some g') × IsSymmetric g'.nodes)
graph-IsSymmetric_example =
    graph-IsSymmetric scaled 1 2 0 0 (negsuc 2) (negsuc 6) (pos 1) slow fast network wire
      (refl, (refl, (refl, tt))) refl refl refl
      (record { e_links = 0 ∷ []; i_links = 0 ∷ [] }, refl, refl)
      (record { e_links = 0 ∷ []; i_links = 0 ∷ [] }, refl, refl)

-- The path 0, 1, 2 with the sub-path from 2 over 3 to 0.
abbrev chain : LltcGraph ℤ
chain = record network {
  nodes =
      (record { e_links = 0 ∷ []; i_links = 0 ∷ [] })
      ∷ (record { e_links = 0 ∷ 1 ∷ []; i_links = 0 ∷ 1 ∷ [] })
      ∷ (record { e_links = 1 ∷ []; i_links = 1 ∷ [] })
      ∷ [];
  store = wire ∷ (record wire { link_id = 1; node_a = 1; node_b = 2 }) ∷ [];
  links = 0 ∷ 1 ∷ [];
}

abbrev routes : ResilientRoutes ℤ
routes = record {
  primary_path = record { node_ids = 0 ∷ 1 ∷ 2 ∷ []; path_id = 5 };
  hrsp =
      (
        2,
        (record {
          path_id = 7;
          node_ids = 2 ∷ 3 ∷ 0 ∷ [];
          retrans_source_node_idx = 0;
          retrans_dst_node_idx = 2;
          link_down_delay = pos 3;
          one_way_data_delivery_loss_rate = negsuc 99;
        })
            ∷ [],
      )
      ∷ [];
}

gen_rr_subgraph-HasReadIds_example :
    (rsg : Rsg ℤ) × (gen_rr_subgraph scaled chain 0 routes ≡ some rsg)
    × (node_ids rsg.nodes ≡ 0 ∷ 1 ∷ 2 ∷ [])
    × (rsg.prim_path.node_ids ≡ 0 ∷ 1 ∷ 2 ∷ [])
    × (contains (node_ids rsg.nodes) rsg.dst_node_id ≡ true)
    × HasReadIds rsg.nodes
unfolding get_link_by_node_ids
gen_rr_subgraph-HasReadIds_example =
    gen_rr_subgraph-HasReadIds scaled chain 0 0 (1 ∷ 2 ∷ []) routes refl
      ((wire, refl), (((record wire { link_id = 1; node_a = 1; node_b = 2 }), refl), tt))
      (tt, (((0, 2, 2, refl, refl, refl, refl), tt), tt))
