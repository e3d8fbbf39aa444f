-- ===== src/Rsg.antt =====
-- model/lltc/lltc-resilient-routes-subgraph.hpp: the resilient sub-graph (RSG) that every router on
-- the primary path holds. A virtual link is a hop of the primary path or a whole redundant sub-path.
-- Ids are numbers; `F` is the type of the C++ doubles. A map reads a missing key as the
-- value-initialised one, so the entry that `operator[]` creates on a read is not added.
pub mod LinkId
pub mod Status
pub mod Preferred
pub mod Build
use tafrr.Prelude.{ℕ, Bool, List, ◌-◌, ◌^◌}
use tafrr.Prelude.Dict.{Dict}

pub record VirLink (F : Type 0) : Type 0 where
  pub is_on_prim_path : Bool
  pub link_id : ℕ
  pub path_id : ℕ
  pub node_ingress : ℕ
  pub node_egress : ℕ
  pub succ_ratio_in_log : F
  pub delay : F

pub record RsgNode (F : Type 0) : Type 0 where
  pub node_id : ℕ
  pub egress_vir_links : List (VirLink F)
  pub ingress_vir_links : List (VirLink F)

pub record PathCompact : Type 0 where
  pub node_ids : List ℕ
  pub path_id : ℕ

pub record Rsg (F : Type 0) : Type 0 where
  pub rsg_id : ℕ
  pub nodes : List (RsgNode F)
  pub links : List (VirLink F)
  pub link_status_map : Dict ℕ
  pub src_node_id : ℕ
  pub dst_node_id : ℕ
  pub prim_path_id : ℕ
  pub prim_path : PathCompact
  pub hrsp : Dict (List PathCompact)

-- RSG_VIR_LINK_STATUS_NORMAL, RSG_VIR_LINK_STATUS_FAILURE
abbrev pub status_normal : ℕ
status_normal = 0

abbrev pub status_failure : ℕ
status_failure = 1

-- UINT_MAX and UINT64_MAX
abbrev pub uint_max : ℕ
uint_max = 2 ^ 32 - 1

abbrev pub uint64_max : ℕ
uint64_max = 2 ^ 64 - 1

-- RSG_PRIM_PATH_LINK_ID_MARK
abbrev pub link_id_mark : ℕ
link_id_mark = 2 ^ 63
