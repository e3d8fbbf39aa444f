-- ===== src/Lltc.antt =====
-- NFD/daemon/fw/lltc-fs.hpp and lltc-strategy.hpp: the state of the strategy at one router. A `Face*`
-- is its face ID, a time is a number.
-- `F` is the type of the C++ doubles in the sub-graph.
pub mod Failover
pub mod LinkTest
pub mod Lsa
pub mod Forward
pub mod Start
pub mod Manager
use tafrr.Prelude.{
  ℕ, Bool, false, ◌&&◌, Option, none, some, List, [], ◌∷◌, ◌++◌, ◌==◌, if◌then◌else◌,
}
use tafrr.Prelude.Dict.{Dict, lookup}
use tafrr.Rsg.{Rsg}

-- `direction` is 0 for downstream and 1 for upstream.
pub record LltcFibEntry : Type 0 where
  pub path_id : ℕ
  pub face_next_hop : ℕ
  pub metric : ℕ
  pub direction : ℕ
  pub retrans_timeout : ℕ
  pub is_retrans_point : Bool

-- `none` stands for the -1 of `remoteLltcNodeId` and of `last_count_secs`.
pub record LltcFaceEntry : Type 0 where
  pub face_next_hop : ℕ
  pub remote_lltc_node_id : Option ℕ
  pub status : ℕ
  pub last_check_time : ℕ
  pub num_received_capsules_in_recent_secs : List ℕ
  pub last_count_secs : Option ℕ
  pub init_secs : ℕ

-- FACE_STATUS_NORMAL, FACE_STATUS_FAILURE
abbrev pub face_status_normal : ℕ
face_status_normal = 0

abbrev pub face_status_failure : ℕ
face_status_failure = 1

-- Names are numbers here: the strategy only compares them.
pub record ForwardingStateForRsg (F : Type 0) : Type 0 where
  pub prefix_list : List ℕ
  pub fib_entries : List LltcFibEntry
  pub primary_path_id : ℕ
  pub preferred_down_path_id : ℕ
  pub preferred_up_path_id : ℕ
  pub is_down_path_in_rsp_state : Bool
  pub is_up_path_in_rsp_state : Bool
  pub rsg : Rsg F

pub record ForwardingStateCollection (F : Type 0) : Type 0 where
  pub fss_map : Dict (ForwardingStateForRsg F)
  pub face_entries : List LltcFaceEntry
  pub app_face : Option ℕ
  pub local_node_id : ℕ

pub record LinkState : Type 0 where
  pub neighbored_node_id : ℕ
  pub status : ℕ

-- ECHO_MSG_STATUS_WAITING, ECHO_MSG_STATUS_NORMAL
abbrev pub echo_msg_status_waiting : ℕ
echo_msg_status_waiting = 1

abbrev pub echo_msg_status_normal : ℕ
echo_msg_status_normal = 0

-- `fe` is 0 for the null pointer, and otherwise one more than the place of a face entry.
pub record EchoMessageState : Type 0 where
  pub requested_time : ℕ
  pub rtt : ℕ
  pub fe : ℕ
  pub status : ℕ

pub record LinkMeasurementState : Type 0 where
  pub next_link_test_id : ℕ
  pub echo_ids_in_link_test : Dict (List ℕ)
  pub echo_msg_state_map : Dict EchoMessageState
  pub lsa_update_seq_no : ℕ
  pub prev_lsa : Option (List LinkState)
  pub recent_lsa_ids : List ℕ

-- The messages: those without data, a capsule with its data ID, a capsule that goes over a redundant
-- sub-path, and an interest.
pub data Message : Type 0 where
  echo : ℕ → ℕ → Message
  back : ℕ → ℕ → ℕ → Message
  lsa : ℕ → ℕ → ℕ → List LinkState → Bool → Message
  capsule : ℕ → Message
  capsule_on_rsp : ℕ → Message
  interest : Message

-- A message on a face, with the tags that are set on it.
pub record Sent : Type 0 where
  pub face : ℕ
  pub rsg_id_tag : Option ℕ
  pub path_id_tag : Option ℕ
  pub transient_tag : Option ℕ
  pub message : Message

abbrev pub first_entry : List LltcFibEntry → ℕ → ℕ → Option LltcFibEntry
first_entry [] path_id direction = none
first_entry (fe ∷ rest) path_id direction =
    let later = first_entry rest path_id direction in
    if fe.path_id == path_id && fe.direction == direction then some fe else later

-- LltcStrategyConfig: how often a link is tested in one check, and the delays between the steps.
pub record Config : Type 0 where
  pub times_for_check_path_connectivity : ℕ
  pub interval_time_for_check_path_qos : ℕ
  pub waiting_time_for_check_link_connectivity : ℕ

-- What the strategy schedules: the member functions that the simulator calls later.
pub data Task : Type 0 where
  check_in_periodic : Task
  check_in_active_manner : ℕ → Task
  run_link_tests : ℕ → ℕ → Bool → ℕ → Bool → Task

-- A router with what it has sent, what it has scheduled (with the delay) and how many random numbers
-- it has drawn.
pub record Router (F : Type 0) : Type 0 where
  pub coll : ForwardingStateCollection F
  pub lms : LinkMeasurementState
  pub sent : List Sent
  pub scheduled : List (ℕ × Task)
  pub drawn : ℕ

abbrev pub put_sent : {F : Type 0} → Sent → Router F → Router F
put_sent sent r = record r { sent = r.sent ++ sent ∷ [] }

-- Strategy::sendNonPitData, of a message without tags.
abbrev pub send_non_pit_data : {F : Type 0} → ℕ → Message → Router F → Router F
send_non_pit_data face message r =
    put_sent
      (record {
        face = face;
        rsg_id_tag = none;
        path_id_tag = none;
        transient_tag = none;
        message = message;
      })
      r

-- LltcStrategy::sendLltcNonPitData without RSG and path.
abbrev pub send_lltc_non_pit_data : {F : Type 0} → ℕ → Message → Router F → Router F
send_lltc_non_pit_data face message r =
    put_sent
      (record {
        face = face;
        rsg_id_tag = none;
        path_id_tag = none;
        transient_tag = some 1;
        message = message;
      })
      r
