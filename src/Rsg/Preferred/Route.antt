-- ===== src/Rsg/Preferred/Route.antt =====
-- rsgComputePreferredPathID returns on every sub-graph with a primary path, unless its heap is stuck, and
-- the paths that it returns can be used.
use tafrr.Prelude.{
  ℕ, zero, suc, ◌+◌, ◌<◌, ◌≡◌, refl, ◌≢◌, ◌⊎◌, inl, inr, true, none, some, List, [], ◌∷◌, arith,
  ◌==◌, if◌then◌else◌, length, contains, Bool-cases,
}
use tafrr.Prelude.Dict.{Dict, get_or}
use tafrr.Double.{DoubleOps}
use tafrr.MaxQueue.{MaxQueue}
use tafrr.Rsg.{Rsg, RsgNode, VirLink, uint_max, uint64_max}
use tafrr.Rsg.Preferred.{
  PrevNodeInfo, PreferredLink, blank_info, link_key, components, components_from, trace, start,
  path_of_link, compute_preferred_path_id,
}
use tafrr.Rsg.Preferred.Invariant.{Traced, Ordered, node_ids, Usable}
use tafrr.Rsg.Preferred.Loop.{Justified, SearchStuck, search_lem}
use tafrr.Rsg.Preferred.Stuck.{SearchStuck-none}
use tafrr.Rsg.Preferred.Start.{start-Inv}

-- The ID that the walk takes down for the link before the local node.
abbrev up_of : Dict PrevNodeInfo → ℕ → ℕ
up_of info local =
    let before = get_or local blank_info info in
    if before.node_id == uint_max then uint64_max else before.vir_link_id

-- How a walk ends: it meets the source's side, or the local node before some node `v`.
abbrev Ends : Dict PrevNodeInfo → ℕ → (ℕ → Type 0) → ℕ × ℕ → Type 0
Ends info local P (down, up) =
    ((down ≡ uint64_max) × (up ≡ uint64_max))
    ⊎ ((v : ℕ) × P v
        × ((get_or v blank_info info).node_id ≡ local)
        × (down ≡ (get_or v blank_info info).vir_link_id)
        × (up ≡ up_of info local))

module _ (info : Dict PrevNodeInfo) (local : ℕ) (P : ℕ → Type 0) where
  abbrev Walked : ℕ → ℕ → Type 0
  Walked fuel v = (r : ℕ × ℕ) × (trace fuel info local v ≡ some r) × Ends info local P r

  -- The step at the local node or at a node with no predecessor.
  trace_stop :
      (fuel v : ℕ)
      → P v
      → ((get_or v blank_info info).node_id ≡ local)
        ⊎ ((get_or v blank_info info).node_id ≡ uint_max)
      → Walked (suc fuel) v
  unfolding trace
  trace_stop fuel v pv stop = elim (Bool-cases ((get_or v blank_info info).node_id == local)) [
    | inl here ↦
        let same : (get_or v blank_info info).node_id ≡ local = ground arith in
        (
          ((get_or v blank_info info).vir_link_id, up_of info local),
          rw (here, same) refl,
          inr (v, pv, same, refl, refl),
        )
    | inr on ↦
        let last : ((get_or v blank_info info).node_id == uint_max) ≡ true = ground arith in
        ((uint64_max, uint64_max), rw (on, last) refl, inl (refl, refl))
  ]

  -- A walk from a node whose predecessor is among the extracted ones ends within their number.
  trace_lem :
      (done : List ℕ) (fuel v : ℕ)
      → ((w : ℕ) → contains done w ≡ true → P w)
      → Ordered done info
      → P v
      → Traced done info v
      → length done < fuel
      → Walked fuel v
  unfolding trace
  trace_lem done zero v known ord pv t enough = absurd (omega arith)
  trace_lem [] (suc fuel) v known ord pv t enough = trace_stop fuel v pv (inr (ground arith))
  trace_lem (x ∷ rest) (suc fuel) v known ord pv (inl t) enough = trace_stop fuel v pv (inr t)
  trace_lem (x ∷ rest) (suc fuel) v known ord pv (inr t) enough =
      elim (Bool-cases (x == (get_or v blank_info info).node_id)) [
        | inr other ↦
            trace_lem rest (suc fuel) v (λ w p. known w (ground arith)) ord.1 pv
              (inr (rw other at t)) (omega arith)
        | inl same ↦
            let prev = (get_or v blank_info info).node_id in
            let e : x ≡ prev = ground arith in
            let on =
              trace_lem rest fuel prev (λ w p. known w (ground arith)) ord.1 (known prev t)
                (rw e at ord.0) (omega arith) in
            elim (Bool-cases (prev == local)) [
              | inl here ↦ trace_stop fuel v pv (inl (ground arith))
              | inr away ↦ elim (Bool-cases (prev == uint_max)) [
                | inl last ↦ trace_stop fuel v pv (inr (ground arith))
                | inr more ↦ (on.0, rw (away, more) on.1, on.2)
              ]
            ]
      ]

path_of_null : (prim : ℕ) → path_of_link prim uint64_max ≡ uint_max
unfolding path_of_link
path_of_null prim = refl

module _ (d : DoubleOps) (q : MaxQueue) (rsg : Rsg d.Double) (comps : Dict ℕ) (local : ℕ) where
  -- The given path is that of a usable link from u to v, or there is none.
  abbrev pub GivesPath : ℕ → (ℕ → ℕ → ℕ → Type 0) → Type 0
  GivesPath path ends =
      (path ≡ uint_max)
      ⊎ ((u v : ℕ) × (link : VirLink d.Double) × ends u v local
          × Usable rsg.link_status_map comps rsg.nodes u v link
          × (path ≡ path_of_link rsg.prim_path_id (link_key link)))

  abbrev pub Leaves : ℕ → ℕ → ℕ → Type 0
  Leaves u v node = u ≡ node

  abbrev pub Enters : ℕ → ℕ → ℕ → Type 0
  Enters u v node = v ≡ node

  abbrev pub IsPreferred : PreferredLink → Type 0
  IsPreferred pl = GivesPath pl.down_link_id Leaves × GivesPath pl.up_link_id Enters

  Ends-IsPreferred :
      (done : List ℕ) (info : Dict PrevNodeInfo) (r : ℕ × ℕ)
      → ((v : ℕ)
          → contains (node_ids rsg.nodes) v ≡ true
          → Justified d q rsg.link_status_map comps rsg.nodes info v)
      → ((v : ℕ) → contains (node_ids rsg.nodes) v ≡ true → Traced done info v)
      → ((v : ℕ) → contains done v ≡ true → contains (node_ids rsg.nodes) v ≡ true)
      → local ≢ uint_max
      → Ends info local (λ v. contains (node_ids rsg.nodes) v ≡ true) r
      → IsPreferred (record {
        down_link_id = path_of_link rsg.prim_path_id r.0;
        up_link_id = path_of_link rsg.prim_path_id r.1;
      })
  Ends-IsPreferred done info r justified traced settled real (inl (e, f)) =
      (inl (rw e (path_of_null _)), inl (rw f (path_of_null _)))
  Ends-IsPreferred done info r justified traced settled real (inr (v, known, at, e, f)) = (
    elim (justified v known) [
      | inl none_before ↦ absurd (real (ground arith))
      | inr (link, usable, key) ↦ inr (_, v, link, at, usable, rw (e, key) refl)
    ],
    elim (Bool-cases ((get_or local blank_info info).node_id == uint_max)) [
      | inl first ↦ inl (rw (f, first) (path_of_null _))
      | inr later ↦ elim (justified local (settled local reached)) [
        | inl none_before ↦ absurd (ground arith)
        | inr (link, usable, key) ↦ inr (_, local, link, refl, usable, rw (f, later, key) refl)
      ]
    ],
  )
    where
      reached : contains done local ≡ true
      reached = elim (traced v known) [
        | inl none_before ↦ absurd (real (ground arith))
        | inr p ↦ rw at at p
      ]

components_lem :
    (statuses : Dict ℕ) (path : List ℕ) (first : ℕ) (later : List ℕ)
    → path ≡ first ∷ later
    → components statuses path ≡ some (components_from statuses 0 first later ((first, 0) ∷ []))
unfolding components
components_lem statuses path first later e = rw e refl

some-nodes :
    {F : Type 0} (nodes : List (RsgNode F)) (id : ℕ)
    → contains (node_ids nodes) id ≡ true
    → 0 < length nodes
some-nodes [] id h = cc
some-nodes (node ∷ nodes) id h = omega arith

-- The search for the preferred path is stuck in an operation of its heap.
abbrev pub HeapStuck : (d : DoubleOps) (q : MaxQueue) → Rsg d.Double → Type 0
HeapStuck d q rsg =
    (comps : Dict ℕ) × (components rsg.link_status_map rsg.prim_path.node_ids ≡ some comps)
    × SearchStuck d q rsg.link_status_map comps rsg.nodes (length rsg.nodes) (start d q rsg)

-- For a sub-graph with a primary path and its destination among its nodes, and a local node that is
-- not UINT_MAX: the computation returns a pair of paths, unless a removeMax or an updateKey that the search
-- comes to is stuck in the heap, and then it gives no result. The downstream path is UINT_MAX, or that of
-- a virtual link that leaves the local node; the upstream path is UINT_MAX, or that of a virtual link that enters it. Such a link is
-- listed at the node it leaves, its own ID is not marked as failed, and if it is a sub-path it joins two
-- different components of the primary path.
pub compute_preferred_path_id_lem :
    (d : DoubleOps) (q : MaxQueue) (rsg : Rsg d.Double) (local first : ℕ) (later : List ℕ)
    → rsg.prim_path.node_ids ≡ first ∷ later
    → contains (node_ids rsg.nodes) rsg.dst_node_id ≡ true
    → local ≢ uint_max
    → HeapStuck d q rsg × (compute_preferred_path_id d q rsg local ≡ none)
      ⊎ ((comps : Dict ℕ) × (pl : PreferredLink) × (components rsg.link_status_map
              rsg.prim_path.node_ids
            ≡ some comps)
          × (compute_preferred_path_id d q rsg local ≡ some pl)
          × IsPreferred d q rsg comps local pl)
unfolding compute_preferred_path_id
compute_preferred_path_id_lem d q rsg local first later path dst real =
    let comps = components_from rsg.link_status_map 0 first later ((first, 0) ∷ []) in
    let found = components_lem rsg.link_status_map rsg.prim_path.node_ids first later path in
    let (h, full) =
      start-Inv d q rsg.link_status_map comps rsg (some-nodes rsg.nodes rsg.dst_node_id dst) in
    elim (search_lem d q rsg.link_status_map comps rsg.nodes (length rsg.nodes) [] (start d q rsg) h
      (omega arith)) [
        | inl stuck ↦
            let no_result =
              SearchStuck-none d q rsg.link_status_map comps rsg.nodes (length rsg.nodes)
                (start d q rsg) stuck in
            inl ((comps, found, stuck), rw (found, no_result) refl)
        | inr (done, s, e, inv, short) ↦
            let known = λ (v : ℕ). contains (node_ids rsg.nodes) v ≡ true in
            let (r, w, ends) =
              trace_lem s.info local known done (length rsg.nodes + 2) rsg.dst_node_id inv.settled
                inv.ordered dst (inv.traced rsg.dst_node_id dst) (omega arith) in
            inr (
              comps,
              record {
                down_link_id = path_of_link rsg.prim_path_id r.0;
                up_link_id = path_of_link rsg.prim_path_id r.1;
              },
              found,
              rw (found, e, w) refl,
              Ends-IsPreferred d q rsg comps local done s.info r inv.justified inv.traced
                  inv.settled real ends,
            )
      ]
