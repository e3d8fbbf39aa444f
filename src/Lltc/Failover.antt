-- ===== src/Lltc/Failover.antt =====
-- LltcStrategy::updatePreferredPathWithLSA, and the reset of the preferred paths in the constructor:
-- which path a router prefers in each sub-graph. `none` is undefined behaviour of
-- rsgComputePreferredPathID, that is, an empty primary path.
pub mod Switch
use tafrr.Prelude.{
  ℕ, Bool, true, false, not, ◌&&◌, ◌||◌, Option, none, some, List, [], ◌∷◌, ◌==◌, if◌then◌else◌,
  ◌>>=◌,
}
use tafrr.Prelude.Dict.{Dict}
use tafrr.Double.{DoubleOps}
use tafrr.MaxQueue.{MaxQueue}
use tafrr.Rsg.{Rsg, status_normal, status_failure, uint_max}
use tafrr.Rsg.Status.{update_link_status}
use tafrr.Rsg.Preferred.{PreferredLink, compute_preferred_path_id}
use tafrr.Lltc.{LltcFibEntry, ForwardingStateForRsg, LinkState, face_status_failure}

abbrev pub has_retrans_point : List LltcFibEntry → Bool
has_retrans_point [] = false
has_retrans_point (fe ∷ rest) = fe.is_retrans_point || has_retrans_point rest

abbrev pub vir_link_status : LinkState → ℕ
vir_link_status ls = if ls.status == face_status_failure then status_failure else status_normal

unfoldable pub apply_link_states : {F : Type 0} → ℕ → List LinkState → Rsg F → Rsg F
apply_link_states source [] rsg = rsg
apply_link_states source (ls ∷ rest) rsg =
    apply_link_states source rest
      (update_link_status rsg source ls.neighbored_node_id (vir_link_status ls))

unfoldable pub switch_down :
    {F : Type 0} → PreferredLink → ForwardingStateForRsg F → ForwardingStateForRsg F
switch_down p fs =
    if not (p.down_link_id == uint_max) && not (p.down_link_id == fs.preferred_down_path_id)
    then record fs {
      preferred_down_path_id = p.down_link_id;
      is_down_path_in_rsp_state = not (p.down_link_id == fs.primary_path_id);
    }
    else fs

unfoldable pub switch_up :
    {F : Type 0} → PreferredLink → ForwardingStateForRsg F → ForwardingStateForRsg F
switch_up p fs =
    if not (p.up_link_id == uint_max) && not (p.up_link_id == fs.preferred_up_path_id)
    then record fs {
      preferred_up_path_id = p.up_link_id;
      is_up_path_in_rsp_state = not (p.up_link_id == fs.primary_path_id);
    }
    else fs

module _ (d : DoubleOps) (q : MaxQueue) (local source : ℕ) (ls_list : List LinkState) where
  -- The body of the loop over the sub-graphs, for one with a retransmission point.
  unfoldable pub update_rsg :
      ForwardingStateForRsg d.Double → Option (ForwardingStateForRsg d.Double)
  unfolding switch_down switch_up apply_link_states
  update_rsg fs = do
    let rsg = apply_link_states source ls_list fs.rsg
    p ← compute_preferred_path_id d q rsg local
    some (switch_up p (switch_down p (record fs { rsg = rsg })))

  -- A sub-graph without a retransmission point makes the function return, so that those after it are
  -- not updated.
  unfoldable pub update_preferred_path_with_lsa :
      Dict (ForwardingStateForRsg d.Double) → Option (Dict (ForwardingStateForRsg d.Double))
  unfolding update_rsg
  update_preferred_path_with_lsa [] = some []
  update_preferred_path_with_lsa ((id, fs) ∷ rest) =
      let later = update_preferred_path_with_lsa rest in
      if not (has_retrans_point fs.fib_entries)
      then some ((id, fs) ∷ rest)
      else update_rsg fs >>= λ fs'. later >>= λ rest'. some ((id, fs') ∷ rest')
