-- ===== src/Tests/Lltc.antt =====
-- The router's strategy: link tests, LSAs, failover and forwarding at node 0 of the sample.
use tafrr.Prelude.{
  ◌+◌, ◌≡◌, ◌⊎◌, refl, none, some, true, false, [], ◌∷◌, ◌++◌, arith, All, get_elem?, contains,
  if◌then◌else◌, ◌>>=◌,
}
use tafrr.Prelude.Int.{ℤ}
use tafrr.Prelude.Dict.{Dict}
use tafrr.Lltc.{ForwardingStateForRsg, Router, LltcFibEntry}
use tafrr.Lltc.Message.{capsule, capsule_on_rsp}
use tafrr.Lltc.Task.{check_in_periodic}
use tafrr.Lltc.Start.{init, init_lem}
use tafrr.Lltc.Failover.{update_preferred_path_with_lsa}
use tafrr.Lltc.Failover.Switch.{
  AreStuck, AreSwitched, update_preferred_path_with_lsa_lem, update_preferred_path_with_lsa-stops,
}
use tafrr.Lltc.LinkTest.{broadcast_echos, update_face_stats, on_receive_back}
use tafrr.Lltc.LinkTest.Statuses.{echoed, answered, judged, update_face_stats-entry}
use tafrr.Lltc.LinkTest.Echos.{on_receive_back-update_face_stats, broadcast_echos-update_face_stats}
use tafrr.Lltc.Lsa.Flood.{Arrival}
use tafrr.Lltc.Forward.{
  PitEntry, Packet, tagged, extract_rsg_id, after_receive_data, after_receive_non_pit_data,
}
use tafrr.Lltc.Forward.Capsules.{
  IsDownEntry, after_receive_data-capsule, after_receive_data-capsule_on_rsp,
}
use tafrr.Heap.Queue.{fibonacci_queue}
use tafrr.Tests.Samples.{scaled, state, router, to_node_1, to_node_3, down_primary}

-- An echo with the number 100 in test 1, on the face to node 1.
abbrev tested : Router ℤ
tested = record router {
  lms = record router.lms {
    echo_ids_in_link_test = (1, 100 ∷ []) ∷ [];
    echo_msg_state_map = (100, (record { requested_time = 4; rtt = 0; fe = 1; status = 1 })) ∷ [];
  };
}

update_face_stats-entry_example :
    get_elem? (update_face_stats 9 1 tested).coll.face_entries 0
    ≡ some (
        judged
          (echoed tested.lms.echo_msg_state_map (100 ∷ []) 1)
          (answered tested.lms.echo_msg_state_map (100 ∷ []) 1)
          9
          to_node_1)
update_face_stats-entry_example = update_face_stats-entry 9 1 0 tested to_node_1 refl

on_receive_back-update_face_stats_example :
    get_elem? (update_face_stats 9 1 (on_receive_back 6 100 tested)).coll.face_entries 0
    ≡ some (record to_node_1 { status = 0; last_check_time = 9 })
on_receive_back-update_face_stats_example =
    on_receive_back-update_face_stats 6 9 1 100 0 1 tested to_node_1 refl refl refl refl refl

broadcast_echos-update_face_stats_example :
    get_elem?
      (update_face_stats 9 1 (broadcast_echos (λ n. n + 100) 4 1 true 0 router)).coll.face_entries
      1
    ≡ some (record to_node_3 { status = 1; last_check_time = 9 })
broadcast_echos-update_face_stats_example =
    broadcast_echos-update_face_stats (λ n. n + 100) 4 9 1 0 1 true router to_node_3
      (λ i j hi hj e. omega (arith, e)) refl refl refl

-- Node 1 reports that its link to node 2 has failed.
update_preferred_path_with_lsa_lem_example :
    AreStuck scaled fibonacci_queue 0 1
      ((record { neighbored_node_id = 2; status = 1 }) ∷ [])
      ((3, state) ∷ [])
    ⊎ ((m' : Dict (ForwardingStateForRsg ℤ)) × (update_preferred_path_with_lsa scaled
            fibonacci_queue 0 1
            ((record { neighbored_node_id = 2; status = 1 }) ∷ [])
            ((3, state) ∷ [])
          ≡ some m')
        × AreSwitched scaled fibonacci_queue 0 1
            ((record { neighbored_node_id = 2; status = 1 }) ∷ [])
            ((3, state) ∷ [])
            m')
update_preferred_path_with_lsa_lem_example =
    update_preferred_path_with_lsa_lem scaled fibonacci_queue 0 1
      ((record { neighbored_node_id = 2; status = 1 }) ∷ []) ((3, state) ∷ []) (omega arith)
      (((0, 1 ∷ 2 ∷ [], refl, refl), (refl, refl)), tt)

-- A sub-graph that the router is no retransmission point of.
abbrev transit : ForwardingStateForRsg ℤ
transit = record state { fib_entries = down_primary ∷ [] }

update_preferred_path_with_lsa-stops_example :
    update_preferred_path_with_lsa scaled fibonacci_queue 0 1
      ((record { neighbored_node_id = 2; status = 1 }) ∷ [])
      ([] ++ (2, transit) ∷ (3, state) ∷ [])
    ≡ (update_preferred_path_with_lsa scaled fibonacci_queue 0 1
          ((record { neighbored_node_id = 2; status = 1 }) ∷ [])
          []
        >>= λ before'. some (before' ++ (2, transit) ∷ (3, state) ∷ []))
update_preferred_path_with_lsa-stops_example =
    update_preferred_path_with_lsa-stops scaled fibonacci_queue 0 1
      ((record { neighbored_node_id = 2; status = 1 }) ∷ []) [] ((3, state) ∷ []) 2 transit refl

abbrev arrival : Arrival
arrival = record {
  lsa_id = 77;
  source = 1;
  seq_no = 0;
  states = (record { neighbored_node_id = 2; status = 1 }) ∷ [];
  is_active = false;
}

-- The link to node 1 has failed, and there is no LSA before.
abbrev cut : Router ℤ
cut = record router {
  coll = record router.coll { face_entries = (record to_node_1 { status = 1 }) ∷ to_node_3 ∷ [] };
}

abbrev pit : PitEntry
pit = record { has_pending_out_records = false; in_records = 29 ∷ []; next_hops = [] }

abbrev incoming : Packet
incoming = record { name = 40; rsg_id_tag = some 3; path_id_tag = none; message = capsule 12 }

after_receive_data-capsule_example :
    IsDownEntry down_primary 5
    × (after_receive_data router.coll pit incoming ≡ some (tagged 0 21 3 5 (capsule 12) ∷ []))
unfolding after_receive_data
after_receive_data-capsule_example =
    after_receive_data-capsule router.coll pit incoming 12 state down_primary refl (omega arith)
      refl (refl, refl) refl

abbrev on_detour : Packet
on_detour = record {
  name = 40;
  rsg_id_tag = some 3;
  path_id_tag = some 7;
  message = capsule_on_rsp 12;
}

after_receive_data-capsule_on_rsp_example :
    (after_receive_data router.coll pit on_detour
      ≡ some (after_receive_non_pit_data router.coll on_detour))
    × All
        (λ sent.
          (sent.message ≡ capsule_on_rsp 12)
          × (sent.path_id_tag ≡ some 7)
          × ((fe : LltcFibEntry) × (sent.face ≡ fe.face_next_hop) × IsDownEntry fe 7))
        (after_receive_non_pit_data router.coll on_detour)
unfolding extract_rsg_id
after_receive_data-capsule_on_rsp_example =
    after_receive_data-capsule_on_rsp router.coll pit on_detour 12 7 state refl refl refl

init_lem_example :
    ((init true 30 router).coll.fss_map ≡ router.coll.fss_map)
    × All (λ e. e.status ≡ 0) (init true 30 router).coll.face_entries
    × ((init true 30 router).scheduled
        ≡ (if contains (0 ∷ 1 ∷ 2 ∷ 2 ∷ 3 ∷ 0 ∷ []) 0 then (30, check_in_periodic) ∷ [] else []))
init_lem_example = init_lem true 30 router
