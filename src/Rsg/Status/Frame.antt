-- ===== src/Rsg/Status/Frame.antt =====
-- Which entries of the status map an update writes, and with what.
use tafrr.Prelude.{
  ℕ, ◌<◌, ◌≤◌, ◌^◌, ◌≡◌, refl, ◌≢◌, Bool, false, ◌&&◌, ◌||◌, List, [], ◌∷◌, ◌++◌, arith, ◌==◌,
  if◌then◌else◌, All,
}
use tafrr.Prelude.Dict.{Dict, insert, get_or, get_or-insert}
use tafrr.Rsg.{Rsg, PathCompact, status_normal, link_id_mark}
use tafrr.Rsg.LinkId.{
  get_link_id, search_vir_link, search_vir_link-eq, crosses, get_link_id-ne-null,
  mark-le-get_link_id,
}
use tafrr.Rsg.Status.{
  rsp_status, write_found, update_rsp, update_rsps, update_nodes, later_nodes, update_statuses,
}

-- Some path of the list crosses the link.
abbrev pub any_crosses : List PathCompact → ℕ → ℕ → Bool
any_crosses [] a b = false
any_crosses (rsp ∷ rsps) a b = crosses rsp.node_ids a b || any_crosses rsps a b

-- The sub-paths that the update visits, in its order.
abbrev pub visited : Dict (List PathCompact) → List ℕ → List PathCompact
visited hrsp [] = []
visited hrsp (node ∷ nodes) = get_or node [] hrsp ++ visited hrsp nodes

module _ (a b status : ℕ) where
  update_rsps-append :
      (statuses : Dict ℕ) (xs ys : List PathCompact)
      → update_rsps a b status statuses (xs ++ ys)
        ≡ update_rsps a b status (update_rsps a b status statuses xs) ys
  unfolding update_rsps
  update_rsps-append statuses [] ys = refl
  update_rsps-append statuses (x ∷ xs) ys =
      update_rsps-append (update_rsp a b status statuses x) xs ys

  -- The nested loop is one loop over the sub-paths in order.
  pub update_nodes-eq_visited :
      (hrsp : Dict (List PathCompact)) (statuses : Dict ℕ) (nodes : List ℕ)
      → update_nodes a b status hrsp statuses nodes
        ≡ update_rsps a b status statuses (visited hrsp nodes)
  unfolding update_nodes update_rsps
  update_nodes-eq_visited hrsp statuses [] = refl
  update_nodes-eq_visited hrsp statuses (node ∷ nodes) =
      rw (update_rsps-append statuses (get_or node [] hrsp) (visited hrsp nodes))
        (update_nodes-eq_visited hrsp (update_rsps a b status statuses (get_or node [] hrsp)) nodes)

module _ (a b status : ℕ) (ha : a < 2 ^ 31) (hb : b < 2 ^ 31) where
  -- At a link ID one sub-path writes the new status exactly where it crosses the link.
  pub update_rsp-link :
      (statuses : Dict ℕ) (rsp : PathCompact) (k : ℕ)
      → rsp.path_id < link_id_mark
      → link_id_mark ≤ k
      → get_or k status_normal (update_rsp a b status statuses rsp) ≡ (
          if crosses rsp.node_ids a b && k == get_link_id a b
          then status
          else get_or k status_normal statuses)
  unfolding update_rsp
  update_rsp-link statuses rsp k unmarked marked =
      let id = search_vir_link rsp.node_ids a b in
      let written = insert id status statuses in
      ground (
        arith,
        search_vir_link-eq rsp.node_ids a b,
        get_link_id-ne-null a b ha hb,
        get_or-insert k rsp.path_id status_normal (rsp_status written rsp.node_ids) written,
        get_or-insert k id status_normal status statuses,
      )

  pub update_rsps-link :
      (statuses : Dict ℕ) (rsps : List PathCompact) (k : ℕ)
      → All (λ rsp. rsp.path_id < link_id_mark) rsps
      → link_id_mark ≤ k
      → get_or k status_normal (update_rsps a b status statuses rsps) ≡ (
          if any_crosses rsps a b && k == get_link_id a b
          then status
          else get_or k status_normal statuses)
  unfolding update_rsps
  update_rsps-link statuses [] k unmarked marked = refl
  update_rsps-link statuses (rsp ∷ rsps) k unmarked marked = ground (
    arith,
    update_rsp-link statuses rsp k unmarked.0 marked,
    update_rsps-link (update_rsp a b status statuses rsp) rsps k unmarked.1 marked,
  )

  -- At any other key below the mark only the sub-paths with that ID write.
  pub update_rsp-other :
      (statuses : Dict ℕ) (rsp : PathCompact) (k : ℕ)
      → k < link_id_mark
      → k ≢ rsp.path_id
      → get_or k status_normal (update_rsp a b status statuses rsp)
        ≡ get_or k status_normal statuses
  unfolding update_rsp
  update_rsp-other statuses rsp k low other =
      let id = search_vir_link rsp.node_ids a b in
      let written = insert id status statuses in
      ground (
        arith,
        search_vir_link-eq rsp.node_ids a b,
        mark-le-get_link_id a b,
        get_or-insert k rsp.path_id status_normal (rsp_status written rsp.node_ids) written,
        get_or-insert k id status_normal status statuses,
      )

  pub update_rsps-other :
      (statuses : Dict ℕ) (rsps : List PathCompact) (k : ℕ)
      → k < link_id_mark
      → All (λ rsp. k ≢ rsp.path_id) rsps
      → get_or k status_normal (update_rsps a b status statuses rsps)
        ≡ get_or k status_normal statuses
  unfolding update_rsps
  update_rsps-other statuses [] k low other = refl
  update_rsps-other statuses (rsp ∷ rsps) k low other = ground (
    arith,
    update_rsp-other statuses rsp k low other.0,
    update_rsps-other (update_rsp a b status statuses rsp) rsps k low other.1,
  )

-- The paths that the update looks at: the primary path, then the sub-paths that it visits.
abbrev pub updated_paths : {F : Type 0} → Rsg F → List PathCompact
updated_paths rsg = rsg.prim_path ∷ visited rsg.hrsp (later_nodes rsg.prim_path.node_ids)

-- After an update of the link between nodes a and b, with IDs below 2^31, and with every visited
-- sub-path's ID below the mark: a link ID has the new status if it is that of a and b and the primary
-- path or a visited sub-path crosses the link, and its old status otherwise.
pub update_statuses-link :
    {F : Type 0} (rsg : Rsg F) (a b status k : ℕ)
    → a < 2 ^ 31
    → b < 2 ^ 31
    → All
        (λ rsp. rsp.path_id < link_id_mark)
        (visited rsg.hrsp (later_nodes rsg.prim_path.node_ids))
    → link_id_mark ≤ k
    → get_or k status_normal (update_statuses rsg a b status) ≡ (
        if any_crosses (updated_paths rsg) a b && k == get_link_id a b
        then status
        else get_or k status_normal rsg.link_status_map)
unfolding update_statuses
update_statuses-link rsg a b status k ha hb unmarked marked =
    let id = search_vir_link rsg.prim_path.node_ids a b in
    let first = write_found id status rsg.link_status_map in
    let rsps = visited rsg.hrsp (later_nodes rsg.prim_path.node_ids) in
    rw (update_nodes-eq_visited a b status rsg.hrsp first (later_nodes rsg.prim_path.node_ids)) (
      ground (
        arith,
        search_vir_link-eq rsg.prim_path.node_ids a b,
        get_link_id-ne-null a b ha hb,
        get_or-insert k id status_normal status rsg.link_status_map,
        update_rsps-link a b status ha hb first rsps k unmarked marked,
      ))
