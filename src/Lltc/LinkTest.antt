-- ===== src/Lltc/LinkTest.antt =====
-- The link tests of lltc-strategy-forwarding-sublayer-path-control.cpp: onReceiveEcho, onReceiveBack,
-- broadcastEchos and updateFaceStatsWithLinkTestStates. A router sends an echo on each tested face,
-- notes the answers and then sets the statuses of the faces. `draws n` is the n-th random number.
pub mod Statuses
pub mod Echos
use tafrr.Prelude.{
  ℕ, suc, ◌+◌, ◌-◌, ◌%◌, ◌^◌, Bool, false, not, ◌&&◌, Option, none, some, List, [], ◌∷◌, ◌++◌, ◌==◌,
  if◌then◌else◌,
}
use tafrr.Prelude.Dict.{Dict, has, insert, erase, get_or}
use tafrr.Lltc.{
  LltcFaceEntry, EchoMessageState, LinkMeasurementState, Message, Router, send_lltc_non_pit_data,
  face_status_normal, face_status_failure, echo_msg_status_waiting, echo_msg_status_normal,
}
use tafrr.Lltc.Message.{echo, back}

-- What `echoMsgStateMap[id]` reads at a key that it creates.
abbrev pub blank_echo : EchoMessageState
blank_echo = record { requested_time = 0; rtt = 0; fe = 0; status = echo_msg_status_normal }

unfoldable pub on_receive_echo : {F : Type 0} → ℕ → ℕ → ℕ → Router F → Router F
on_receive_echo ingress echo_id source r =
    send_lltc_non_pit_data ingress (back echo_id r.coll.local_node_id source) r

unfoldable pub answer : ℕ → EchoMessageState → EchoMessageState
answer now ems = record ems { rtt = now - ems.requested_time; status = echo_msg_status_normal }

unfoldable pub on_receive_back : {F : Type 0} → ℕ → ℕ → Router F → Router F
unfolding answer
on_receive_back now echo_id r =
    let echos = r.lms.echo_msg_state_map in
    if has echo_id echos
    then record r {
      lms = record r.lms {
        echo_msg_state_map = insert echo_id (answer now (get_or echo_id blank_echo echos)) echos;
      };
    }
    else r

-- The body of the loop of broadcastEchos, past its guards, for the face entry with the pointer `fe`.
unfoldable pub send_echo : {F : Type 0} → (ℕ → ℕ) → ℕ → ℕ → ℕ → LltcFaceEntry → Router F → Router F
send_echo draws now test fe entry r =
    let echo_id = draws r.drawn in
    let r1 = send_lltc_non_pit_data entry.face_next_hop (echo echo_id r.coll.local_node_id) r in
    let tests = r.lms.echo_ids_in_link_test in
    record r1 {
      lms = record r.lms {
        echo_msg_state_map =
            insert echo_id
              (record { requested_time = now; rtt = 0; fe = fe; status = echo_msg_status_waiting })
              r.lms.echo_msg_state_map;
        echo_ids_in_link_test = insert test (get_or test [] tests ++ echo_id ∷ []) tests;
      };
      drawn = suc r.drawn;
    }

-- Whether broadcastEchos tests the face entry.
abbrev pub is_tested : Bool → ℕ → LltcFaceEntry → Bool
is_tested is_full face_id entry = elim entry.remote_lltc_node_id [
  | none ↦ false
  | some _ ↦ not (not is_full && not (entry.face_next_hop == face_id))
]

unfoldable pub broadcast_from :
    {F : Type 0} → (ℕ → ℕ) → ℕ → ℕ → Bool → ℕ → ℕ → List LltcFaceEntry → Router F → Router F
unfolding send_echo
broadcast_from draws now test is_full face_id fe [] r = r
broadcast_from draws now test is_full face_id fe (entry ∷ rest) r =
    broadcast_from draws now test is_full face_id (suc fe) rest
      (if is_tested is_full face_id entry then send_echo draws now test fe entry r else r)

unfoldable pub broadcast_echos : {F : Type 0} → (ℕ → ℕ) → ℕ → ℕ → Bool → ℕ → Router F → Router F
unfolding broadcast_from
broadcast_echos draws now test is_full face_id r =
    broadcast_from draws now test is_full face_id 1 r.coll.face_entries r

pub record FaceStatusInternal : Type 0 where
  pub face_status : ℕ
  pub n_backs : ℕ

-- One echo of a test counted into the statuses of the faces.
unfoldable pub count_echo : EchoMessageState → Dict FaceStatusInternal → Dict FaceStatusInternal
count_echo ems faces =
    let answered = ems.status == echo_msg_status_normal in
    let old = get_or ems.fe (record { face_status = 0; n_backs = 0 }) faces in
    if not (has ems.fe faces)
    then insert ems.fe
        (if answered
          then record { face_status = face_status_normal; n_backs = 1 }
          else record { face_status = face_status_failure; n_backs = 0 })
        faces
    else if answered
    then insert ems.fe
        (record { face_status = face_status_normal; n_backs = (old.n_backs + 1) % 2 ^ 32 }) faces
    else faces

-- The loop over the echos of a test: the statuses, and the echos that are left.
unfoldable pub count_echos :
    List ℕ
    → Dict EchoMessageState
    → Dict FaceStatusInternal
    → Dict FaceStatusInternal × Dict EchoMessageState
unfolding count_echo
count_echos [] echos faces = (faces, echos)
count_echos (id ∷ ids) echos faces =
    count_echos ids (erase id echos) (count_echo (get_or id blank_echo echos) faces)

-- The body of the loop over the face entries.
unfoldable pub set_status : ℕ → Dict FaceStatusInternal → ℕ → LltcFaceEntry → LltcFaceEntry
set_status now faces fe entry = elim entry.remote_lltc_node_id [
  | none ↦ entry
  | some _ ↦
      if has fe faces
      then record entry {
        status = (get_or fe (record { face_status = 0; n_backs = 0 }) faces).face_status;
        last_check_time = now;
      }
      else entry
]

unfoldable pub set_statuses :
    ℕ → Dict FaceStatusInternal → ℕ → List LltcFaceEntry → List LltcFaceEntry
unfolding set_status
set_statuses now faces fe [] = []
set_statuses now faces fe (entry ∷ rest) =
    set_status now faces fe entry ∷ set_statuses now faces (suc fe) rest

unfoldable pub update_face_stats : {F : Type 0} → ℕ → ℕ → Router F → Router F
unfolding count_echos set_statuses
update_face_stats now test r =
    let ids = get_or test [] r.lms.echo_ids_in_link_test in
    let counted = count_echos ids r.lms.echo_msg_state_map [] in
    record r {
      lms = record r.lms {
        echo_msg_state_map = counted.1;
        echo_ids_in_link_test = erase test r.lms.echo_ids_in_link_test;
      };
      coll = record r.coll { face_entries = set_statuses now counted.0 1 r.coll.face_entries };
    }
