-- ===== src/Rsg/Preferred/Statuses.antt =====
-- Which entries of the status map rsgComputePreferredPathID reads.
use tafrr.Prelude.{
  ℕ, zero, suc, ◌+◌, ◌≤◌, ◌≡◌, refl, ◌⊎◌, inl, inr, some, List, [], ◌∷◌, ◌==◌, if◌then◌else◌, All,
  length, get_elem?, ◌>>=◌, ap, Bool-cases, Option-cases, ℕ-cases, >>=-same,
}
use tafrr.Prelude.Dict.{Dict, insert, get_or}
use tafrr.Double.{DoubleOps}
use tafrr.MaxQueue.{MaxQueue}
use tafrr.Rsg.{Rsg, RsgNode, VirLink, status_normal, status_failure, link_id_mark}
use tafrr.Rsg.LinkId.{get_link_id, mark-le-get_link_id}
use tafrr.Rsg.Preferred.{
  FiboNode, Search, components, components_from, find_node, relax, relax_all, round, search, key_at,
  compute_preferred_path_id, start,
}

-- The key of a link of the primary path, or the ID 0 that every sub-path's virtual link has.
abbrev pub IsRead : ℕ → Type 0
IsRead k = (link_id_mark ≤ k) ⊎ (k ≡ 0)

abbrev pub HasReadIds : {F : Type 0} → List (RsgNode F) → Type 0
HasReadIds nodes = All (λ node. All (λ link. IsRead link.link_id) node.egress_vir_links) nodes

abbrev next_id : Dict ℕ → ℕ → ℕ → ℕ → ℕ
next_id t id prev node =
    if get_or (get_link_id prev node) status_normal t == status_failure then id + 1 else id

module _ (s t : Dict ℕ)
    (same : (k : ℕ) → IsRead k → get_or k status_normal s ≡ get_or k status_normal t) where
  components_from-same :
      (id prev : ℕ) (rest : List ℕ) (comps : Dict ℕ)
      → components_from s id prev rest comps ≡ components_from t id prev rest comps
  unfolding components_from
  components_from-same id prev [] comps = refl
  components_from-same id prev (node ∷ rest) comps =
      rw (same (get_link_id prev node) (inl (mark-le-get_link_id prev node))) (
        components_from-same (next_id t id prev node) node rest
          (insert node (next_id t id prev node) comps))

  components-same : (path : List ℕ) → components s path ≡ components t path
  unfolding components
  components-same [] = refl
  components-same (node ∷ rest) = ap some (components_from-same 0 node rest ((node, 0) ∷ []))

  module _ (d : DoubleOps) (q : MaxQueue) (comps : Dict ℕ) where
    relax-same :
        (u : FiboNode d.Double) (st : Search d q) (link : VirLink d.Double)
        → IsRead link.link_id
        → relax d q s comps u st link ≡ relax d q t comps u st link
    unfolding relax
    relax-same u st link r = rw (same link.link_id r) refl

    relax_all-same :
        (u : FiboNode d.Double) (st : Search d q) (links : List (VirLink d.Double))
        → All (λ link. IsRead link.link_id) links
        → relax_all d q s comps u st links ≡ relax_all d q t comps u st links
    unfolding relax_all
    relax_all-same u st [] r = refl
    relax_all-same u st (link ∷ links) r =
        rw (relax-same u st link r.0)
          (>>=-same (relax d q t comps u st link) _ _ (λ x. relax_all-same u x links r.1))

    find_node-IsRead :
        (id : ℕ) (nodes : List (RsgNode d.Double)) (node : RsgNode d.Double)
        → HasReadIds nodes
        → find_node id nodes ≡ some node
        → All (λ link. IsRead link.link_id) node.egress_vir_links
    unfolding find_node
    find_node-IsRead id [] node r e = cc
    find_node-IsRead id (x ∷ nodes) node r e = elim (Bool-cases (x.node_id == id)) [
      | inl here ↦
          let both : some x ≡ some node = rw here at e in
          let same_node : x ≡ node = cc in rw same_node at r.0
      | inr later ↦ find_node-IsRead id nodes node r.1 (rw later at e)
    ]

    expand-same :
        (id : ℕ) (nodes : List (RsgNode d.Double)) (u : FiboNode d.Double) (st : Search d q)
        → HasReadIds nodes
        → (find_node id nodes >>= λ n. relax_all d q s comps u st n.egress_vir_links)
          ≡ (find_node id nodes >>= λ n. relax_all d q t comps u st n.egress_vir_links)
    expand-same id nodes u st r = elim (Option-cases (find_node id nodes)) [
      | inl missing ↦ rw missing refl
      | inr (n, e) ↦ rw e (relax_all-same u st n.egress_vir_links (find_node-IsRead id nodes n r e))
    ]

    round-same :
        (nodes : List (RsgNode d.Double)) (st : Search d q)
        → HasReadIds nodes
        → round d q s comps nodes st ≡ round d q t comps nodes st
    unfolding round
    round-same nodes st r =
        >>=-same (q.remove_max (key_at d q st.fibo) st.heap) _ _
          (λ p. >>=-same (get_elem? st.fibo p.0) _ _ (λ u. expand-same u.node_id nodes u _ r))

    search-same :
        (fuel : ℕ) (nodes : List (RsgNode d.Double)) (st : Search d q)
        → HasReadIds nodes
        → search d q s comps fuel nodes st ≡ search d q t comps fuel nodes st
    unfolding search
    search-same zero nodes st r = refl
    search-same (suc fuel) nodes st r = elim (ℕ-cases (q.size st.heap)) [
      | inl empty ↦ rw (empty, search) refl
      | inr (n, full) ↦
          rw (full, search, round-same nodes st r)
            (>>=-same (round d q t comps nodes st) _ _ (λ x. search-same fuel nodes x r))
    ]

-- The computed paths depend on the status map only through its entries at link IDs and at 0: two
-- sub-graphs that differ in other entries, those of the sub-paths' own IDs among them, give the same
-- paths, where every virtual link's own ID is a link ID or 0.
pub compute_preferred_path_id-same :
    (d : DoubleOps) (q : MaxQueue) (rsg : Rsg d.Double) (t : Dict ℕ) (local : ℕ)
    → ((k : ℕ) → IsRead k → get_or k status_normal rsg.link_status_map ≡ get_or k status_normal t)
    → HasReadIds rsg.nodes
    → compute_preferred_path_id d q rsg local
      ≡ compute_preferred_path_id d q (record rsg { link_status_map = t }) local
unfolding compute_preferred_path_id
compute_preferred_path_id-same d q rsg t local same r =
    let s = rsg.link_status_map in
    rw (components-same s t same rsg.prim_path.node_ids) (
      >>=-same (components t rsg.prim_path.node_ids) _ _ (λ comps.
        rw (search-same s t same d q comps (length rsg.nodes) rsg.nodes (start d q rsg) r) refl))
