-- ===== src/Rsg/Status.antt =====
-- LltcRrSubgraph::rsgUpdateLinkStatus: the map from link IDs and sub-path IDs to statuses after a
-- physical link changed. Proofs are in the children.
pub mod Frame
pub mod SubPaths
use tafrr.Prelude.{ℕ, Bool, List, [], ◌∷◌, ◌==◌, if◌then◌else◌}
use tafrr.Prelude.Dict.{Dict, insert, get_or}
use tafrr.Rsg.{Rsg, PathCompact, status_normal, status_failure, uint64_max}
use tafrr.Rsg.LinkId.{get_link_id, search_vir_link}

-- The inner loop: the status of a sub-path from the links behind a node of it.
unfoldable pub rsp_status_from : Dict ℕ → ℕ → List ℕ → ℕ
rsp_status_from statuses prev [] = status_normal
rsp_status_from statuses prev (node ∷ rest) =
    let later = rsp_status_from statuses node rest in
    if get_or (get_link_id prev node) status_normal statuses == status_failure
    then status_failure
    else later

unfoldable pub rsp_status : Dict ℕ → List ℕ → ℕ
unfolding rsp_status_from
rsp_status statuses [] = status_normal
rsp_status statuses (node ∷ rest) = rsp_status_from statuses node rest

-- `linkStatusMap[id] = status` where the search found an ID.
abbrev pub write_found : ℕ → ℕ → Dict ℕ → Dict ℕ
write_found id status statuses = if id == uint64_max then statuses else insert id status statuses

-- The body of the loop over the sub-paths of one node.
unfoldable pub update_rsp : ℕ → ℕ → ℕ → Dict ℕ → PathCompact → Dict ℕ
update_rsp a b status statuses rsp =
    let id = search_vir_link rsp.node_ids a b in
    let statuses' = insert id status statuses in
    if id == uint64_max
    then statuses
    else insert rsp.path_id (rsp_status statuses' rsp.node_ids) statuses'

unfoldable pub update_rsps : ℕ → ℕ → ℕ → Dict ℕ → List PathCompact → Dict ℕ
update_rsps a b status statuses [] = statuses
update_rsps a b status statuses (rsp ∷ rsps) =
    update_rsps a b status (update_rsp a b status statuses rsp) rsps

-- The loop over the nodes of the primary path, its first one left out.
unfoldable pub update_nodes : ℕ → ℕ → ℕ → Dict (List PathCompact) → Dict ℕ → List ℕ → Dict ℕ
update_nodes a b status hrsp statuses [] = statuses
update_nodes a b status hrsp statuses (node ∷ nodes) =
    update_nodes a b status hrsp (update_rsps a b status statuses (get_or node [] hrsp)) nodes

abbrev pub later_nodes : List ℕ → List ℕ
later_nodes [] = []
later_nodes (_ ∷ nodes) = nodes

unfoldable pub update_statuses : {F : Type 0} → Rsg F → ℕ → ℕ → ℕ → Dict ℕ
unfolding update_rsp update_rsps update_nodes
update_statuses rsg a b status =
    update_nodes a b status rsg.hrsp
      (write_found (search_vir_link rsg.prim_path.node_ids a b) status rsg.link_status_map)
      (later_nodes rsg.prim_path.node_ids)

unfoldable pub update_link_status : {F : Type 0} → Rsg F → ℕ → ℕ → ℕ → Rsg F
unfolding update_statuses
update_link_status rsg a b status = record rsg { link_status_map = update_statuses rsg a b status }
