-- ===== src/Lltc/LinkTest/Statuses.antt =====
-- The statuses that a link test gives the faces.
use tafrr.Prelude.{
  ℕ, zero, suc, ◌+◌, ◌≡◌, refl, Bool, true, false, ◌&&◌, ◌||◌, Option, none, some, List, [], ◌∷◌,
  ◌==◌, if◌then◌else◌, arith, get_elem?, inl, inr, Bool-cases, ap,
}
use tafrr.Prelude.Dict.{Dict, lookup, has, insert, erase, get_or, lookup-insert, lookup-erase}
use tafrr.Lltc.{
  LltcFaceEntry, EchoMessageState, Router, face_status_normal, face_status_failure,
  echo_msg_status_normal,
}
use tafrr.Lltc.LinkTest.{
  FaceStatusInternal, blank_echo, count_echo, count_echos, set_status, set_statuses,
  update_face_stats,
}

-- Whether one of the echos went out on the face entry `fe`, and whether one of those was answered.
abbrev pub echoed : Dict EchoMessageState → List ℕ → ℕ → Bool
echoed echos [] fe = false
echoed echos (id ∷ ids) fe = (get_or id blank_echo echos).fe == fe || echoed echos ids fe

abbrev pub answered : Dict EchoMessageState → List ℕ → ℕ → Bool
answered echos [] fe = false
answered echos (id ∷ ids) fe =
    ((get_or id blank_echo echos).fe == fe
      && (get_or id blank_echo echos).status == echo_msg_status_normal)
    || answered echos ids fe

-- Erasing an echo that was counted loses nothing: for a real entry the blank one counts as no echo.
echoed-erase :
    (echos : Dict EchoMessageState) (id : ℕ) (ids : List ℕ) (n : ℕ)
    → ((get_or id blank_echo echos).fe == suc n || echoed (erase id echos) ids (suc n))
      ≡ ((get_or id blank_echo echos).fe == suc n || echoed echos ids (suc n))
echoed-erase echos id [] n = refl
echoed-erase echos id (j ∷ ids) n =
    ground (arith, lookup-erase j id echos, echoed-erase echos id ids n)

abbrev hit : Dict EchoMessageState → ℕ → ℕ → Bool
hit echos id fe =
    (get_or id blank_echo echos).fe == fe
    && (get_or id blank_echo echos).status == echo_msg_status_normal

answered-erase :
    (echos : Dict EchoMessageState) (id : ℕ) (ids : List ℕ) (n : ℕ)
    → (hit echos id (suc n) || answered (erase id echos) ids (suc n))
      ≡ (hit echos id (suc n) || answered echos ids (suc n))
answered-erase echos id [] n = refl
answered-erase echos id (j ∷ ids) n =
    ground (arith, lookup-erase j id echos, answered-erase echos id ids n)

-- The status that a face has in the map, if it has one.
abbrev face_of : ℕ → Dict FaceStatusInternal → Option ℕ
face_of fe faces = elim (lookup fe faces) [ none ↦ none | some f ↦ some f.face_status ]

face_of-insert :
    (fe k : ℕ) (v : FaceStatusInternal) (faces : Dict FaceStatusInternal)
    → face_of fe (insert k v faces) ≡ (if k == fe then some v.face_status else face_of fe faces)
face_of-insert fe k v faces = ground (arith, lookup-insert fe k v faces)

has-face_of :
    (fe : ℕ) (faces : Dict FaceStatusInternal)
    → has fe faces ≡ elim (face_of fe faces) [ none ↦ false | some _ ↦ true ]
has-face_of fe faces = ground arith

-- The status that one more echo leaves a face with.
abbrev counted : EchoMessageState → ℕ → Option ℕ → Option ℕ
counted ems fe face =
    if ems.fe == fe
    then (if ems.status == echo_msg_status_normal
        then some face_status_normal
        else elim face [ none ↦ some face_status_failure | some s ↦ some s ])
    else face

count_echo-face :
    (ems : EchoMessageState) (faces : Dict FaceStatusInternal) (fe : ℕ)
    → face_of fe (count_echo ems faces) ≡ counted ems fe (face_of fe faces)
unfolding count_echo
count_echo-face ems faces fe = elim (Bool-cases (ems.status == echo_msg_status_normal)) [
  | inl normal ↦ elim (Bool-cases (has ems.fe faces)) [
    | inl there ↦ rw (normal, there, face_of-insert fe ems.fe _ faces) refl
    | inr fresh ↦ rw (normal, fresh, face_of-insert fe ems.fe _ faces) refl
  ]
  | inr waiting ↦ elim (Bool-cases (has ems.fe faces)) [
    | inl there ↦ rw (waiting, there) (ground arith)
    | inr fresh ↦ rw (waiting, fresh, face_of-insert fe ems.fe _ faces) (ground arith)
  ]
]

count_echos-face :
    (ids : List ℕ) (echos : Dict EchoMessageState) (faces : Dict FaceStatusInternal) (n : ℕ)
    → face_of (suc n) (count_echos ids echos faces).0 ≡ (
        if answered echos ids (suc n)
        then some face_status_normal
        else elim (face_of (suc n) faces) [
          | none ↦ if echoed echos ids (suc n) then some face_status_failure else none
          | some s ↦ some s
        ])
unfolding count_echos
count_echos-face [] echos faces n = ground arith
count_echos-face (id ∷ ids) echos faces n =
    let rest =
      count_echos-face ids (erase id echos) (count_echo (get_or id blank_echo echos) faces) n in
    let one = count_echo-face (get_or id blank_echo echos) faces (suc n) in
    let a = answered-erase echos id ids n in
    let b = echoed-erase echos id ids n in
    elim (Bool-cases ((get_or id blank_echo echos).fe == suc n)) [
      | inl here ↦
          elim (Bool-cases ((get_or id blank_echo echos).status == echo_msg_status_normal)) [
            | inl normal ↦ rw (rest, one, here, normal) (ground arith)
            | inr waiting ↦ rw (rest, one, here, waiting, (rw (here, waiting) at a)) (ground arith)
          ]
      | inr away ↦
          let b' : echoed (erase id echos) ids (suc n) ≡ echoed echos ids (suc n) = rw away at b in
          let a' : answered (erase id echos) ids (suc n) ≡ answered echos ids (suc n) =
            rw away at a in
          rw (rest, one, away, a') (ground (arith, b'))
    ]

get_elem?-set_statuses :
    (now : ℕ) (faces : Dict FaceStatusInternal) (fe i : ℕ) (entries : List LltcFaceEntry)
    (entry : LltcFaceEntry)
    → get_elem? entries i ≡ some entry
    → get_elem? (set_statuses now faces fe entries) i ≡ some (set_status now faces (fe + i) entry)
unfolding set_statuses
get_elem?-set_statuses now faces fe i [] entry h = ground arith
get_elem?-set_statuses now faces fe zero (e ∷ entries) entry h = ground arith
get_elem?-set_statuses now faces fe (suc i) (e ∷ entries) entry h =
    rw (get_elem?-set_statuses now faces (suc fe) i entries entry h)
      (ap (λ n. some (set_status now faces n entry)) (omega arith))

-- The entry after a test: failed if it was tested and no echo on it was answered.
abbrev pub judged : Bool → Bool → ℕ → LltcFaceEntry → LltcFaceEntry
judged was_echoed was_answered now entry = elim entry.remote_lltc_node_id [
  | none ↦ entry
  | some _ ↦
      if was_answered
      then record entry { status = face_status_normal; last_check_time = now }
      else if was_echoed
      then record entry { status = face_status_failure; last_check_time = now }
      else entry
]

-- updateFaceStatsWithLinkTestStates leaves the face entry at each place i that leads to a router as
-- follows: normal if one of the echos of the test that went out on it was answered, failed if there
-- were such echos and none was answered, and unchanged if there were none. An entry that leads to
-- no router is unchanged.
pub update_face_stats-entry :
    {F : Type 0} (now test i : ℕ) (r : Router F) (entry : LltcFaceEntry)
    → get_elem? r.coll.face_entries i ≡ some entry
    → get_elem? (update_face_stats now test r).coll.face_entries i
      ≡ some (
          judged
            (echoed r.lms.echo_msg_state_map (get_or test [] r.lms.echo_ids_in_link_test) (suc i))
            (answered r.lms.echo_msg_state_map (get_or test [] r.lms.echo_ids_in_link_test) (suc i))
            now
            entry)
unfolding update_face_stats set_status
update_face_stats-entry now test i r entry h =
    let ids = get_or test [] r.lms.echo_ids_in_link_test in
    let faces = (count_echos ids r.lms.echo_msg_state_map []).0 in
    let face = count_echos-face ids r.lms.echo_msg_state_map [] i in
    let same = has-face_of (suc i) faces in
    rw (get_elem?-set_statuses now faces 1 i r.coll.face_entries entry h) (ground arith)
