-- ===== src/Rsg/Status/SubPaths.antt =====
-- The status that an update leaves at the IDs of the sub-paths.
use tafrr.Prelude.{
  ℕ, ◌<◌, ◌≤◌, ◌^◌, ◌≡◌, refl, ◌≢◌, ◌↔◌, ◌⊎◌, inl, inr, true, false, List, [], ◌∷◌, arith,
  if◌then◌else◌, All, Bool-cases, ◌∙◌,
}
use tafrr.Prelude.Dict.{Dict, insert, get_or, get_or-insert}
use tafrr.Rsg.{Rsg, PathCompact, status_normal, status_failure, link_id_mark}
use tafrr.Rsg.LinkId.{
  get_link_id, search_vir_link, search_vir_link-eq, crosses, get_link_id-ne-null,
  mark-le-get_link_id,
}
use tafrr.Rsg.Status.{
  rsp_status, rsp_status_from, write_found, update_rsp, update_rsps, later_nodes, update_statuses,
}
use tafrr.Rsg.Status.Frame.{
  visited, update_nodes-eq_visited, update_rsp-link, update_rsps-link, update_rsp-other,
  update_rsps-other,
}

-- Two maps hold the same status at every link ID.
abbrev AgreeOnLinks : Dict ℕ → Dict ℕ → Type 0
AgreeOnLinks s t = (k : ℕ) → link_id_mark ≤ k → get_or k status_normal s ≡ get_or k status_normal t

rsp_status_from-agree :
    (s t : Dict ℕ) (prev : ℕ) (rest : List ℕ)
    → AgreeOnLinks s t
    → rsp_status_from s prev rest ≡ rsp_status_from t prev rest
unfolding rsp_status_from
rsp_status_from-agree s t prev [] same = refl
rsp_status_from-agree s t prev (node ∷ rest) same = rw (
  same (get_link_id prev node) (mark-le-get_link_id prev node),
  rsp_status_from-agree s t node rest same,
)

rsp_status-agree :
    (s t : Dict ℕ) (path : List ℕ) → AgreeOnLinks s t → rsp_status s path ≡ rsp_status t path
unfolding rsp_status
rsp_status-agree s t [] same = refl
rsp_status-agree s t (node ∷ rest) same = rsp_status_from-agree s t node rest same

-- No two paths of the list share an ID.
abbrev pub DistinctIds : List PathCompact → Type 0
DistinctIds [] = Unit
DistinctIds (rsp ∷ rsps) = All (λ r. rsp.path_id ≢ r.path_id) rsps × DistinctIds rsps

module _ (a b status : ℕ) (ha : a < 2 ^ 31) (hb : b < 2 ^ 31) where
  update_rsp-path :
      (statuses : Dict ℕ) (rsp : PathCompact)
      → rsp.path_id < link_id_mark
      → get_or rsp.path_id status_normal (update_rsp a b status statuses rsp) ≡ (
          if crosses rsp.node_ids a b
          then rsp_status (insert (get_link_id a b) status statuses) rsp.node_ids
          else get_or rsp.path_id status_normal statuses)
  unfolding update_rsp
  update_rsp-path statuses rsp unmarked =
      let id = search_vir_link rsp.node_ids a b in
      let written = insert id status statuses in
      ground (
        arith,
        search_vir_link-eq rsp.node_ids a b,
        get_link_id-ne-null a b ha hb,
        get_or-insert rsp.path_id rsp.path_id status_normal (rsp_status written rsp.node_ids)
            written,
      )

  -- After the sub-path itself was handled, the later ones change no link status that it read.
  links_settled :
      (statuses : Dict ℕ) (rsp : PathCompact) (rsps : List PathCompact)
      → All (λ r. r.path_id < link_id_mark) (rsp ∷ rsps)
      → crosses rsp.node_ids a b ≡ true
      → AgreeOnLinks
          (insert (get_link_id a b) status statuses)
          (update_rsps a b status (update_rsp a b status statuses rsp) rsps)
  links_settled statuses rsp rsps unmarked hit k marked = ground (
    arith,
    get_or-insert k (get_link_id a b) status_normal status statuses,
    update_rsp-link a b status ha hb statuses rsp k unmarked.0 marked,
    update_rsps-link a b status ha hb (update_rsp a b status statuses rsp) rsps k unmarked.1 marked,
  )

  -- What the loop leaves at the ID of a sub-path.
  abbrev Settled : Dict ℕ → Dict ℕ → PathCompact → Type 0
  Settled before after rsp = get_or rsp.path_id status_normal after ≡ (
      if crosses rsp.node_ids a b
      then rsp_status after rsp.node_ids
      else get_or rsp.path_id status_normal before)

  head-Settled :
      (statuses : Dict ℕ) (rsp : PathCompact) (rsps : List PathCompact)
      → All (λ r. r.path_id < link_id_mark) (rsp ∷ rsps)
      → DistinctIds (rsp ∷ rsps)
      → Settled statuses (update_rsps a b status (update_rsp a b status statuses rsp) rsps) rsp
  head-Settled statuses rsp rsps unmarked distinct =
      let first = update_rsp a b status statuses rsp in
      let kept = update_rsps-other a b status ha hb first rsps rsp.path_id unmarked.0 distinct.0 in
      let own = update_rsp-path statuses rsp unmarked.0 in
      elim (Bool-cases (crosses rsp.node_ids a b)) [
        | inl hit ↦ rw hit (
            rw hit at (kept ∙ own)
            ∙ rsp_status-agree _ _ rsp.node_ids (links_settled statuses rsp rsps unmarked hit))
        | inr miss ↦ rw miss (rw miss at (kept ∙ own))
      ]

  -- A later sub-path finds its own entry as it was before the first one was handled.
  tail-Settled :
      (statuses after : Dict ℕ) (rsp : PathCompact) (rsps : List PathCompact)
      → All (λ r. r.path_id < link_id_mark) rsps
      → All (λ r. rsp.path_id ≢ r.path_id) rsps
      → All (Settled (update_rsp a b status statuses rsp) after) rsps
      → All (Settled statuses after) rsps
  tail-Settled statuses after rsp [] low other h = tt
  tail-Settled statuses after rsp (r ∷ rsps) low other h = (
    ground (arith, update_rsp-other a b status ha hb statuses rsp r.path_id low.0),
    tail-Settled statuses after rsp rsps low.1 other.1 h.1,
  )

  update_rsps-Settled :
      (statuses : Dict ℕ) (rsps : List PathCompact)
      → All (λ r. r.path_id < link_id_mark) rsps
      → DistinctIds rsps
      → All (Settled statuses (update_rsps a b status statuses rsps)) rsps
  unfolding update_rsps
  update_rsps-Settled statuses [] low distinct = tt
  update_rsps-Settled statuses (rsp ∷ rsps) low distinct =
      let first = update_rsp a b status statuses rsp in
      (
        head-Settled statuses rsp rsps low distinct,
        tail-Settled statuses (update_rsps a b status first rsps) rsp rsps low.1 distinct.0
            (update_rsps-Settled first rsps low.1 distinct.1),
      )

-- Some link of the path is marked as failed.
abbrev HasFailedFrom : Dict ℕ → ℕ → List ℕ → Type 0
HasFailedFrom statuses prev [] = ⊥
HasFailedFrom statuses prev (node ∷ rest) =
    (get_or (get_link_id prev node) status_normal statuses ≡ status_failure)
    ⊎ HasFailedFrom statuses node rest

abbrev pub HasFailedLink : Dict ℕ → List ℕ → Type 0
HasFailedLink statuses [] = ⊥
HasFailedLink statuses (node ∷ rest) = HasFailedFrom statuses node rest

rsp_status_from_iff :
    (statuses : Dict ℕ) (prev : ℕ) (rest : List ℕ)
    → (rsp_status_from statuses prev rest ≡ status_failure) ↔ HasFailedFrom statuses prev rest
unfolding rsp_status_from
rsp_status_from_iff statuses prev [] = (λ h. omega arith, λ h. absurd h)
rsp_status_from_iff statuses prev (node ∷ rest) =
    ground (arith, rsp_status_from_iff statuses node rest)

rsp_status_iff :
    (statuses : Dict ℕ) (path : List ℕ)
    → (rsp_status statuses path ≡ status_failure) ↔ HasFailedLink statuses path
unfolding rsp_status
rsp_status_iff statuses [] = (λ h. omega arith, λ h. absurd h)
rsp_status_iff statuses (node ∷ rest) = rsp_status_from_iff statuses node rest

-- What an update has to leave at the ID of a visited sub-path.
abbrev pub IsUpdated : ℕ → ℕ → Dict ℕ → Dict ℕ → PathCompact → Type 0
IsUpdated a b before after rsp =
    (crosses rsp.node_ids a b ≡ true
      → (get_or rsp.path_id status_normal after ≡ status_failure)
        ↔ HasFailedLink after rsp.node_ids)
    × (crosses rsp.node_ids a b ≡ false
        → get_or rsp.path_id status_normal after ≡ get_or rsp.path_id status_normal before)

Settled-IsUpdated :
    (a b status : ℕ) (before first after : Dict ℕ) (rsps : List PathCompact)
    → ((k : ℕ) → k < link_id_mark → get_or k status_normal first ≡ get_or k status_normal before)
    → (ha : a < 2 ^ 31) (hb : b < 2 ^ 31) → All (λ r. r.path_id < link_id_mark) rsps
    → All (Settled a b status ha hb first after) rsps
    → All (IsUpdated a b before after) rsps
Settled-IsUpdated a b status before first after [] same ha hb low h = tt
Settled-IsUpdated a b status before first after (rsp ∷ rsps) same ha hb low h = (
  ground (arith, rsp_status_iff after rsp.node_ids, same rsp.path_id),
  Settled-IsUpdated a b status before first after rsps same ha hb low.1 h.1,
)

-- After an update of the link between nodes a and b, with IDs below 2^31, and with the visited
-- sub-paths' IDs distinct and below the mark: every visited sub-path that crosses the link has status
-- failure exactly if one of its links has it, and every other visited sub-path keeps its status.
pub update_statuses-rsp :
    {F : Type 0} (rsg : Rsg F) (a b status : ℕ)
    → a < 2 ^ 31
    → b < 2 ^ 31
    → All (λ r. r.path_id < link_id_mark) (visited rsg.hrsp (later_nodes rsg.prim_path.node_ids))
    → DistinctIds (visited rsg.hrsp (later_nodes rsg.prim_path.node_ids))
    → All
        (IsUpdated a b rsg.link_status_map (update_statuses rsg a b status))
        (visited rsg.hrsp (later_nodes rsg.prim_path.node_ids))
unfolding update_statuses
update_statuses-rsp rsg a b status ha hb low distinct =
    let id = search_vir_link rsg.prim_path.node_ids a b in
    let nodes = later_nodes rsg.prim_path.node_ids in
    let first = write_found id status rsg.link_status_map in
    rw (update_nodes-eq_visited a b status rsg.hrsp first nodes) (
      Settled-IsUpdated a b status rsg.link_status_map first
        (update_rsps a b status first (visited rsg.hrsp nodes)) (visited rsg.hrsp nodes)
        (λ k below. first_kept k below) ha hb low
        (update_rsps-Settled a b status ha hb first (visited rsg.hrsp nodes) low distinct))
  where
    first_kept :
        (k : ℕ)
        → k < link_id_mark
        → get_or k status_normal
            (write_found (search_vir_link rsg.prim_path.node_ids a b) status rsg.link_status_map)
          ≡ get_or k status_normal rsg.link_status_map
    first_kept k below = ground (
      arith,
      search_vir_link-eq rsg.prim_path.node_ids a b,
      mark-le-get_link_id a b,
      get_or-insert k (search_vir_link rsg.prim_path.node_ids a b) status_normal status
          rsg.link_status_map,
    )
