-- ===== src/Rsg/Build/Ready.antt =====
-- A generated sub-graph meets what the search for the preferred path asks for.
use tafrr.Prelude.{
  ℕ, zero, suc, ◌≡◌, refl, ap, ◌∙◌, inl, inr, Bool, true, false, ◌||◌, some, List, [], ◌∷◌, ◌++◌,
  ◌==◌, All, All-append, contains, get_elem?, arith, Bool-cases,
}
use tafrr.Prelude.Dict.{Dict, get_or}
use tafrr.Double.{DoubleOps}
use tafrr.Graph.{LltcGraph, LltcLink, get_link_by_node_ids}
use tafrr.Rsg.{Rsg, RsgNode, VirLink}
use tafrr.Rsg.LinkId.{mark-le-get_link_id}
use tafrr.Rsg.Preferred.Invariant.{node_ids}
use tafrr.Rsg.Preferred.Statuses.{IsRead, HasReadIds}
use tafrr.Rsg.Build.{
  RedundantSubPath, ResilientRoutes, Building, push_ingress, push_egress, last_from, hop_link,
  extend, last_node, with_rsp, finished, hops, rsp_link, add_rsp, add_rsps, add_nodes,
  gen_rr_subgraph,
}

-- Whether a number is among the first `i` of a list.
abbrev pub among : ℕ → List ℕ → ℕ → Bool
among zero xs a = false
among (suc i) [] a = false
among (suc i) (x ∷ xs) a = x == a || among i xs a

-- The network has a link between neighbours on the path.
abbrev pub HasHops : {F : Type 0} → LltcGraph F → ℕ → List ℕ → Type 0
HasHops g prev [] = Unit
HasHops {F} g prev (node ∷ rest) =
    ((l : LltcLink F) × (get_link_by_node_ids g prev node ≡ some l)) × HasHops g node rest

-- The sub-path has nodes at its two indices, and comes back to one of the first `i` nodes of the
-- path.
abbrev pub IsAttached : {F : Type 0} → List ℕ → ℕ → RedundantSubPath F → Type 0
IsAttached path i rsp =
    (ingress : ℕ) × (egress : ℕ) × (first : ℕ) × (get_elem? rsp.node_ids rsp.retrans_dst_node_idx
      ≡ some ingress)
    × (get_elem? rsp.node_ids rsp.retrans_source_node_idx ≡ some egress)
    × (get_elem? rsp.node_ids 0 ≡ some first)
    × (among i path ingress ≡ true)

abbrev pub AreAttached :
    {F : Type 0} → List ℕ → Dict (List (RedundantSubPath F)) → ℕ → List ℕ → Type 0
AreAttached path hrsp i [] = Unit
AreAttached path hrsp i (node ∷ rest) =
    All (IsAttached path i) (get_or node [] hrsp) × AreAttached path hrsp (suc i) rest

module _ {F : Type 0} where
  push_ingress-node_ids :
      (i : ℕ) (link : VirLink F) (nodes : List (RsgNode F))
      → HasReadIds nodes
      → (node_ids (push_ingress i link nodes) ≡ node_ids nodes)
        × HasReadIds (push_ingress i link nodes)
  unfolding push_ingress
  push_ingress-node_ids i link [] h = (refl, tt)
  push_ingress-node_ids zero link (node ∷ nodes) h = (refl, h)
  push_ingress-node_ids (suc i) link (node ∷ nodes) h =
      let (same, read) = push_ingress-node_ids i link nodes h.1 in
      (ap (λ l. node.node_id ∷ l) same, (h.0, read))

  push_egress-node_ids :
      (i : ℕ) (link : VirLink F) (nodes : List (RsgNode F))
      → among i (node_ids nodes) link.node_ingress ≡ true
      → IsRead link.link_id
      → HasReadIds nodes
      → (nodes' : List (RsgNode F)) × (push_egress i link nodes ≡ some nodes')
        × (node_ids nodes' ≡ node_ids nodes)
        × HasReadIds nodes'
  unfolding push_egress
  push_egress-node_ids zero link nodes e r h = ground arith
  push_egress-node_ids (suc i) link [] e r h = ground arith
  push_egress-node_ids (suc i) link (node ∷ nodes) e r h =
      elim (Bool-cases (node.node_id == link.node_ingress)) [
        | inl here ↦ (
          record node { egress_vir_links = node.egress_vir_links ++ link ∷ [] } ∷ nodes,
          rw here refl,
          refl,
          (All-append _ node.egress_vir_links _ h.0 (r, tt), h.1),
        )
        | inr later ↦
            let (nodes', found, same, read) =
              push_egress-node_ids i link nodes (ground arith) r h.1 in
            (node ∷ nodes', rw (later, found) refl, ap (λ l. node.node_id ∷ l) same, (h.0, read))
      ]

module _ (d : DoubleOps) (g : LltcGraph d.Double) where
  -- The nodes of the building are those of the path, and the links that leave them have link IDs or
  -- 0.
  abbrev IsBuilt : List ℕ → Building d.Double → Type 0
  IsBuilt path b = (node_ids b.nodes ≡ path) × HasReadIds b.nodes

  hops-IsBuilt :
      (path_id prev : ℕ) (rest : List ℕ)
      → HasHops g prev rest
      → (b : Building d.Double) × (hops d g path_id prev rest ≡ some b) × IsBuilt (prev ∷ rest) b
  unfolding hops
  hops-IsBuilt path_id prev [] h = (last_node d g prev, refl, (refl, (tt, tt)))
  hops-IsBuilt path_id prev (node ∷ rest) h =
      let (b, found, (same, read)) = hops-IsBuilt path_id node rest h.1 in
      (
        extend d g prev (hop_link d g path_id prev node h.0.0) b,
        rw (h.0.1, found) refl,
        (ap (λ l. prev ∷ l) same, ((inl (mark-le-get_link_id prev node), tt), read)),
      )

  add_rsp-IsBuilt :
      (path : List ℕ) (i : ℕ) (b : Building d.Double) (rsp : RedundantSubPath d.Double)
      → IsBuilt path b
      → IsAttached path i rsp
      → (b' : Building d.Double) × (add_rsp d g i b rsp ≡ some b') × IsBuilt path b'
  unfolding add_rsp
  add_rsp-IsBuilt path i b rsp h (ingress, egress, first, at_dst, at_src, at_0, back) =
      let link = rsp_link d g rsp ingress egress in
      let (kept, read) = push_ingress-node_ids i link b.nodes h.1 in
      let there : among i (node_ids (push_ingress i link b.nodes)) ingress ≡ true =
        rw (kept, h.0) back in
      let (nodes', found, same, read') =
        push_egress-node_ids i link (push_ingress i link b.nodes) there (inr refl) read in
      (
        with_rsp d g rsp link first nodes' b,
        rw (at_dst, at_src, found, at_0) refl,
        (same ∙ kept ∙ h.0, read'),
      )

  add_rsps-IsBuilt :
      (path : List ℕ) (i : ℕ) (b : Building d.Double) (rsps : List (RedundantSubPath d.Double))
      → IsBuilt path b
      → All (IsAttached path i) rsps
      → (b' : Building d.Double) × (add_rsps d g i b rsps ≡ some b') × IsBuilt path b'
  unfolding add_rsps
  add_rsps-IsBuilt path i b [] h a = (b, refl, h)
  add_rsps-IsBuilt path i b (rsp ∷ rsps) h a =
      let (b1, e1, h1) = add_rsp-IsBuilt path i b rsp h a.0 in
      let (b2, e2, h2) = add_rsps-IsBuilt path i b1 rsps h1 a.1 in (b2, rw (e1, e2) refl, h2)

  add_nodes-IsBuilt :
      (path : List ℕ) (hrsp : Dict (List (RedundantSubPath d.Double))) (i : ℕ) (nodes : List ℕ)
      (b : Building d.Double)
      → IsBuilt path b
      → AreAttached path hrsp i nodes
      → (b' : Building d.Double) × (add_nodes d g hrsp i nodes b ≡ some b') × IsBuilt path b'
  unfolding add_nodes
  add_nodes-IsBuilt path hrsp i [] b h a = (b, refl, h)
  add_nodes-IsBuilt path hrsp i (node ∷ nodes) b h a =
      let (b1, e1, h1) = add_rsps-IsBuilt path i b (get_or node [] hrsp) h a.0 in
      let (b2, e2, h2) = add_nodes-IsBuilt path hrsp (suc i) nodes b1 h1 a.1 in
      (b2, rw (e1, e2) refl, h2)

  contains-last_from :
      (first : ℕ) (later : List ℕ) → contains (first ∷ later) (last_from first later) ≡ true
  contains-last_from first [] = ground arith
  contains-last_from first (node ∷ rest) = ground (arith, contains-last_from node rest)

  -- For resilient routes whose primary path follows links of the network and whose sub-paths each
  -- come back to an earlier node of it: genLltcRrSubgraph returns a sub-graph with the nodes of
  -- that path, which is its primary path, with the destination among the nodes, and in which every
  -- link that leaves a node has a link ID or the ID 0.
  pub gen_rr_subgraph-HasReadIds :
      (rsg_id first : ℕ) (later : List ℕ) (rr : ResilientRoutes d.Double)
      → rr.primary_path.node_ids ≡ first ∷ later
      → HasHops g first later
      → AreAttached (first ∷ later) rr.hrsp 1 later
      → (rsg : Rsg d.Double) × (gen_rr_subgraph d g rsg_id rr ≡ some rsg)
        × (node_ids rsg.nodes ≡ first ∷ later)
        × (rsg.prim_path.node_ids ≡ first ∷ later)
        × (contains (node_ids rsg.nodes) rsg.dst_node_id ≡ true)
        × HasReadIds rsg.nodes
  unfolding gen_rr_subgraph
  gen_rr_subgraph-HasReadIds rsg_id first later rr path linked attached =
      let (b0, e0, h0) = hops-IsBuilt rr.primary_path.path_id first later linked in
      let (b, e, h) = add_nodes-IsBuilt (first ∷ later) rr.hrsp 1 later b0 h0 attached in
      (
        finished d g rsg_id first later rr b,
        rw (path, e0, e) refl,
        h.0,
        refl,
        rw h.0 (contains-last_from first later),
        h.1,
      )
