-- ===== src/Lltc/Lsa.antt =====
-- The link state advertisements (LSAs) of lltc-strategy-forwarding-sublayer-path-control.cpp:
-- broadcastingLsaTask, onReceiveLsa, and the checks that end in them (runLinkTestsAndDoUpdate,
-- checkLinkConnectivityInPeriodic, checkLinkConnectivityInActiveManner). `none` is undefined
-- behaviour of rsgComputePreferredPathID.
pub mod Flood
pub mod Report
use tafrr.Prelude.{
  ℕ, zero, suc, ◌+◌, ◌%◌, ◌^◌, Bool, true, false, not, Option, none, some, List, [], ◌∷◌, ◌==◌,
  if◌then◌else◌, contains, ◌>>=◌,
}
use tafrr.Prelude.Dict.{insert, get_or}
use tafrr.Double.{DoubleOps}
use tafrr.MaxQueue.{MaxQueue}
use tafrr.Lltc.{
  LltcFaceEntry, LinkState, Message, Router, Config, send_non_pit_data, face_status_failure,
}
use tafrr.Lltc.Message.{lsa}
use tafrr.Lltc.Task.{check_in_periodic, run_link_tests}
use tafrr.Lltc.Failover.{update_preferred_path_with_lsa}
use tafrr.Lltc.LinkTest.{broadcast_echos, update_face_stats}

-- The loops that send a message on every face entry.
abbrev pub send_all : {F : Type 0} → Message → List LltcFaceEntry → Router F → Router F
send_all message [] r = r
send_all message (entry ∷ rest) r =
    send_all message rest (send_non_pit_data entry.face_next_hop message r)

-- The link states of the entries that lead to routers.
unfoldable pub link_states : List LltcFaceEntry → List LinkState
link_states [] = []
link_states (entry ∷ rest) =
    let later = link_states rest in
    elim entry.remote_lltc_node_id [
      | none ↦ later
      | some node ↦ (record { neighbored_node_id = node; status = entry.status }) ∷ later
    ]

-- Whether a link state is not as in the previous LSA: the first one of its neighbour counts.
unfoldable pub differs_from : List LinkState → ℕ → ℕ → Bool
differs_from [] node status = true
differs_from (prev ∷ rest) node status =
    let later = differs_from rest node status in
    if prev.neighbored_node_id == node then not (prev.status == status) else later

unfoldable pub is_changed : Option (List LinkState) → ℕ → ℕ → Bool
unfolding differs_from
is_changed none node status = status == face_status_failure
is_changed (some prev) node status = differs_from prev node status

-- `diff` after the loop over the face entries.
unfoldable pub diff_after : Option (List LinkState) → Bool → List LltcFaceEntry → Bool
unfolding is_changed
diff_after prev diff [] = diff
diff_after prev diff (entry ∷ rest) = elim entry.remote_lltc_node_id [
  | none ↦ diff_after prev diff rest
  | some node ↦ diff_after prev (if diff then true else is_changed prev node entry.status) rest
]

module _ (d : DoubleOps) (q : MaxQueue) where
  unfoldable pub update_preferred : ℕ → List LinkState → Router d.Double → Option (Router d.Double)
  update_preferred source ls_list r = do
    fss ← update_preferred_path_with_lsa d q r.coll.local_node_id source ls_list r.coll.fss_map
    some (record r { coll = record r.coll { fss_map = fss } })

  unfoldable pub broadcasting_lsa_task : (ℕ → ℕ) → Bool → Router d.Double → Option (Router d.Double)
  unfolding update_preferred link_states diff_after
  broadcasting_lsa_task draws is_active r =
      let ls_list = link_states r.coll.face_entries in
      let local = r.coll.local_node_id in
      if not (diff_after r.lms.prev_lsa false r.coll.face_entries)
      then some r
      else update_preferred local ls_list r >>= λ r1. some (
          send_all (lsa (draws r1.drawn) local r1.lms.lsa_update_seq_no ls_list is_active)
            r1.coll.face_entries
            (record r1 {
              lms = record r1.lms {
                prev_lsa = some ls_list;
                lsa_update_seq_no = (r1.lms.lsa_update_seq_no + 1) % 2 ^ 32;
              };
              drawn = suc r1.drawn;
            }))

  unfoldable pub on_receive_lsa :
      ℕ → ℕ → ℕ → List LinkState → Bool → Router d.Double → Option (Router d.Double)
  unfolding update_preferred
  on_receive_lsa lsa_id source seq_no ls_list is_active r =
      if contains r.lms.recent_lsa_ids lsa_id
      then some r
      else update_preferred source ls_list (
          send_all (lsa lsa_id source seq_no ls_list is_active) r.coll.face_entries
            (record r { lms = record r.lms { recent_lsa_ids = lsa_id ∷ r.lms.recent_lsa_ids } }))

  module _ (config : Config) (draws : ℕ → ℕ) where
    -- One call of runLinkTestsAndDoUpdate, at the time `now`.
    unfoldable pub run_link_tests_and_do_update :
        ℕ → ℕ → ℕ → Bool → ℕ → Bool → Router d.Double → Option (Router d.Double)
    unfolding broadcasting_lsa_task
    run_link_tests_and_do_update now zero test is_full face_id is_active r =
        broadcasting_lsa_task draws is_active (update_face_stats now test r)
    run_link_tests_and_do_update now (suc times) test is_full face_id is_active r =
        let r1 = broadcast_echos draws now test is_full face_id r in
        some (record r1 {
          scheduled =
              (
                config.interval_time_for_check_path_qos,
                run_link_tests times test is_full face_id is_active,
              )
              ∷ r1.scheduled;
        })

    -- `nextLinkTestID++`, and the entry that `EchoIDsInLinkTest[id]` creates.
    unfoldable pub new_link_test : Router d.Double → Router d.Double
    new_link_test r =
        let test = r.lms.next_link_test_id in
        record r {
          lms = record r.lms {
            next_link_test_id = (test + 1) % 2 ^ 32;
            echo_ids_in_link_test =
                insert test (get_or test [] r.lms.echo_ids_in_link_test)
                  r.lms.echo_ids_in_link_test;
          };
        }

    unfoldable pub check_link_connectivity_in_periodic :
        ℕ → Router d.Double → Option (Router d.Double)
    unfolding run_link_tests_and_do_update new_link_test
    check_link_connectivity_in_periodic now r = do
      r1 ←
          run_link_tests_and_do_update now config.times_for_check_path_connectivity
            r.lms.next_link_test_id true 0 false (new_link_test r)
      some (record r1 {
        scheduled =
            (config.waiting_time_for_check_link_connectivity, check_in_periodic) ∷ r1.scheduled;
      })

    unfoldable pub check_link_connectivity_in_active_manner :
        ℕ → ℕ → Router d.Double → Option (Router d.Double)
    unfolding run_link_tests_and_do_update new_link_test
    check_link_connectivity_in_active_manner now face_id r =
        run_link_tests_and_do_update now config.times_for_check_path_connectivity
          r.lms.next_link_test_id false face_id true (new_link_test r)
