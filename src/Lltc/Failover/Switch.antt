-- ===== src/Lltc/Failover/Switch.antt =====
-- What updatePreferredPathWithLSA makes of the preferred paths of a router.
use tafrr.Prelude.{
  ℕ, ◌≡◌, refl, ◌≢◌, ◌⊎◌, inl, inr, ◌++◌, true, false, not, ◌&&◌, some, List, [], ◌∷◌, ◌==◌,
  if◌then◌else◌, ◌>>=◌, All, contains, Bool-cases, Option-cases, arith,
}
use tafrr.Prelude.Dict.{Dict}
use tafrr.Double.{DoubleOps}
use tafrr.MaxQueue.{MaxQueue}
use tafrr.Rsg.{Rsg, uint_max}
use tafrr.Rsg.Status.{update_link_status}
use tafrr.Rsg.Preferred.{PreferredLink, compute_preferred_path_id}
use tafrr.Rsg.Preferred.Invariant.{node_ids}
use tafrr.Rsg.Preferred.Route.{HeapStuck, compute_preferred_path_id_lem}
use tafrr.Lltc.{ForwardingStateForRsg, LinkState}
use tafrr.Lltc.Failover.{
  has_retrans_point, vir_link_status, apply_link_states, switch_down, switch_up, update_rsg,
  update_preferred_path_with_lsa,
}

-- The sub-graph has a primary path, and its destination is one of its nodes.
abbrev pub IsReady : {F : Type 0} → Rsg F → Type 0
IsReady rsg =
    (first : ℕ) × (later : List ℕ) × (rsg.prim_path.node_ids ≡ first ∷ later)
    × (contains (node_ids rsg.nodes) rsg.dst_node_id ≡ true)

-- The state flags say which preferred paths are not the primary path.
abbrev pub IsConsistent : {F : Type 0} → ForwardingStateForRsg F → Type 0
IsConsistent fs =
    (fs.is_down_path_in_rsp_state ≡ not (fs.preferred_down_path_id == fs.primary_path_id))
    × (fs.is_up_path_in_rsp_state ≡ not (fs.preferred_up_path_id == fs.primary_path_id))

apply_link_states-IsReady :
    {F : Type 0} (source : ℕ) (ls_list : List LinkState) (rsg : Rsg F)
    → IsReady rsg
    → IsReady (apply_link_states source ls_list rsg)
unfolding apply_link_states update_link_status
apply_link_states-IsReady source [] rsg h = h
apply_link_states-IsReady source (ls ∷ rest) rsg h =
    apply_link_states-IsReady source rest
      (update_link_status rsg source ls.neighbored_node_id (vir_link_status ls)) h

-- The preferred path after `computed`: the old one where it is UINT_MAX.
abbrev pub chosen : ℕ → ℕ → ℕ
chosen computed old = if computed == uint_max then old else computed

switches :
    {F : Type 0} (p : PreferredLink) (fs : ForwardingStateForRsg F)
    → IsConsistent fs
    → ((switch_up p (switch_down p fs)).preferred_down_path_id
        ≡ chosen p.down_link_id fs.preferred_down_path_id)
      × ((switch_up p (switch_down p fs)).preferred_up_path_id
          ≡ chosen p.up_link_id fs.preferred_up_path_id)
      × ((switch_up p (switch_down p fs)).rsg ≡ fs.rsg)
      × ((switch_up p (switch_down p fs)).fib_entries ≡ fs.fib_entries)
      × ((switch_up p (switch_down p fs)).primary_path_id ≡ fs.primary_path_id)
      × IsConsistent (switch_up p (switch_down p fs))
unfolding switch_down switch_up
switches p fs h =
    elim (Bool-cases
      (not (p.down_link_id == uint_max) && not (p.down_link_id == fs.preferred_down_path_id))) [
        | inl down ↦
            elim (Bool-cases
              (not (p.up_link_id == uint_max) && not (p.up_link_id == fs.preferred_up_path_id))) [
                | inl up ↦ ground arith
                | inr up ↦ ground arith
              ]
        | inr down ↦
            elim (Bool-cases
              (not (p.up_link_id == uint_max) && not (p.up_link_id == fs.preferred_up_path_id))) [
                | inl up ↦ ground arith
                | inr up ↦ ground arith
              ]
      ]

module _ (d : DoubleOps) (q : MaxQueue) (local source : ℕ) (ls_list : List LinkState) where
  -- The link states are in the sub-graph, and the preferred paths are those computed on it.
  abbrev pub IsSwitched : ForwardingStateForRsg d.Double → ForwardingStateForRsg d.Double → Type 0
  IsSwitched fs fs' =
      (p : PreferredLink) × (compute_preferred_path_id d q fs'.rsg local ≡ some p)
      × (fs'.rsg ≡ apply_link_states source ls_list fs.rsg)
      × (fs'.preferred_down_path_id ≡ chosen p.down_link_id fs.preferred_down_path_id)
      × (fs'.preferred_up_path_id ≡ chosen p.up_link_id fs.preferred_up_path_id)
      × (fs'.fib_entries ≡ fs.fib_entries)
      × (fs'.primary_path_id ≡ fs.primary_path_id)
      × IsConsistent fs'

  -- The sub-graphs before the first one without a retransmission point have switched, and the others
  -- are as before.
  abbrev pub AreSwitched :
      Dict (ForwardingStateForRsg d.Double) → Dict (ForwardingStateForRsg d.Double) → Type 0
  AreSwitched [] m' = m' ≡ []
  AreSwitched ((id, fs) ∷ rest) m' =
      (has_retrans_point fs.fib_entries ≡ false) × (m' ≡ (id, fs) ∷ rest)
      ⊎ (has_retrans_point fs.fib_entries ≡ true)
        × ((fs' : ForwardingStateForRsg d.Double) × (rest' : Dict (ForwardingStateForRsg d.Double))
            × (m' ≡ (id, fs') ∷ rest')
            × IsSwitched fs fs'
            × AreSwitched rest rest')

  -- On the way up to the first sub-graph without a retransmission point there is one on which, with the
  -- link states put in, the search for the preferred path is stuck in its heap.
  abbrev pub AreStuck : Dict (ForwardingStateForRsg d.Double) → Type 0
  AreStuck [] = ⊥
  AreStuck ((id, fs) ∷ rest) =
      (has_retrans_point fs.fib_entries ≡ true)
      × (HeapStuck d q (apply_link_states source ls_list fs.rsg) ⊎ AreStuck rest)

  update_rsg_lem :
      (fs : ForwardingStateForRsg d.Double)
      → local ≢ uint_max
      → IsReady fs.rsg
      → IsConsistent fs
      → HeapStuck d q (apply_link_states source ls_list fs.rsg)
        ⊎ ((fs' : ForwardingStateForRsg d.Double) × (update_rsg d q local source ls_list fs
              ≡ some fs')
            × IsSwitched fs fs')
  unfolding update_rsg
  update_rsg_lem fs real ready ok =
      let rsg = apply_link_states source ls_list fs.rsg in
      let (first, later, path, dst) = apply_link_states-IsReady source ls_list fs.rsg ready in
      elim (compute_preferred_path_id_lem d q rsg local first later path dst real) [
        | inl stuck ↦ inl stuck.0
        | inr (comps, p, c, e, r) ↦
            let (a1, a2, a3, a4, a5, a6) = switches p (record fs { rsg = rsg }) ok in
            inr (
              switch_up p (switch_down p (record fs { rsg = rsg })),
              rw e refl,
              (p, rw (a3, e) refl, a3, a1, a2, a4, a5, a6),
            )
      ]

  -- For sub-graphs that have a primary path and their destination among their nodes, whose flags
  -- agree with their preferred paths, and a local node that is not UINT_MAX: the update returns,
  -- unless on one of the sub-graphs that it comes to the search is stuck in its heap. Up to the first sub-graph without a retransmission point it has put the link states into each
  -- sub-graph, and each preferred path is the computed one, or the old one where none was computed,
  -- with the flags in agreement; the others are unchanged.
  pub update_preferred_path_with_lsa_lem :
      (m : Dict (ForwardingStateForRsg d.Double))
      → local ≢ uint_max
      → All (λ e. IsReady (e.1).rsg × IsConsistent e.1) m
      → AreStuck m
        ⊎ ((m' : Dict (ForwardingStateForRsg d.Double)) × (update_preferred_path_with_lsa d q local
                source ls_list m
              ≡ some m')
            × AreSwitched m m')
  unfolding update_preferred_path_with_lsa
  update_preferred_path_with_lsa_lem [] real h = inr ([], refl, refl)
  update_preferred_path_with_lsa_lem ((id, fs) ∷ rest) real h =
      elim (Bool-cases (has_retrans_point fs.fib_entries)) [
        | inl found ↦ elim (update_rsg_lem fs real h.0.0 h.0.1) [
          | inl stuck ↦ inl (found, inl stuck)
          | inr (fs', e, switched) ↦ elim (update_preferred_path_with_lsa_lem rest real h.1) [
            | inl stuck ↦ inl (found, inr stuck)
            | inr (rest', f, others) ↦ inr (
              (id, fs') ∷ rest',
              rw (found, e, f) refl,
              inr (found, (fs', rest', refl, switched, others)),
            )
          ]
        ]
        | inr lacking ↦ inr ((id, fs) ∷ rest, rw lacking refl, inl (lacking, refl))
      ]

  -- A sub-graph without a retransmission point ends the update: it and the sub-graphs after it are
  -- left as they are, whatever their own FIB entries.
  pub update_preferred_path_with_lsa-stops :
      (before after : Dict (ForwardingStateForRsg d.Double)) (id : ℕ)
      (fs : ForwardingStateForRsg d.Double)
      → has_retrans_point fs.fib_entries ≡ false
      → update_preferred_path_with_lsa d q local source ls_list (before ++ (id, fs) ∷ after) ≡ (
          update_preferred_path_with_lsa d q local source ls_list before >>= λ before'.
          some (before' ++ (id, fs) ∷ after))
  unfolding update_preferred_path_with_lsa
  update_preferred_path_with_lsa-stops [] after id fs lacking = rw lacking refl
  update_preferred_path_with_lsa-stops ((i, f) ∷ before) after id fs lacking =
      elim (Bool-cases (has_retrans_point f.fib_entries)) [
        | inl found ↦ elim (Option-cases (update_rsg d q local source ls_list f)) [
          | inl e ↦ rw (found, e) refl
          | inr (f', e) ↦
              elim (Option-cases (update_preferred_path_with_lsa d q local source ls_list before)) [
                | inl u ↦
                    rw
                      (found, e, update_preferred_path_with_lsa-stops before after id fs lacking, u)
                      refl
                | inr (m, u) ↦
                    rw
                      (found, e, update_preferred_path_with_lsa-stops before after id fs lacking, u)
                      refl
              ]
        ]
        | inr stop ↦ rw stop refl
      ]

  pub AreSwitched-IsReady :
      (m m' : Dict (ForwardingStateForRsg d.Double))
      → All (λ e. IsReady (e.1).rsg × IsConsistent e.1) m
      → AreSwitched m m'
      → All (λ e. IsReady (e.1).rsg × IsConsistent e.1) m'
  AreSwitched-IsReady [] m' h s = rw s tt
  AreSwitched-IsReady ((id, fs) ∷ rest) m' h (inl (lacking, same)) = rw same h
  AreSwitched-IsReady ((id, fs) ∷ rest) m' h
        (inr (found, (fs', rest', same, (p, e, r, a1, a2, a3, a4, ok), others))) =
      rw same (
        (rw r (apply_link_states-IsReady source ls_list fs.rsg h.0.0), ok),
        AreSwitched-IsReady rest rest' h.1 others,
      )
