-- ===== src/Sdatp.antt =====
-- NFD/daemon/fw/sdatp-strategy.cpp: the strategy that requests lost data from the routers upstream. A
-- router sends on each data ID once, requests (RR) the IDs that it missed, and repeats a request when
-- no answer (RD) comes in time. A `RetranEventState*` is its place in `states`, an event of the
-- simulator is its key in `events`; `recentDataID` is held as `next_data_id`, which is one more and
-- starts at 0. `draws n` is the n-th random number, `in_cs` says which data are in the content store.
pub mod Once
pub mod Gaps
use tafrr.Prelude.{
  ℕ, zero, suc, ◌+◌, ◌-◌, ◌%◌, ◌^◌, Bool, Option, none, some, List, [], ◌∷◌, ◌++◌, ltb, ◌==◌,
  if◌then◌else◌, contains, get_elem?, set, length,
}
use tafrr.Prelude.Dict.{Dict, lookup, insert, erase}

pub record GenericFibEntry : Type 0 where
  pub face_next_hop : ℕ
  pub direction : ℕ

pub record GenericRoutes : Type 0 where
  pub fib_entries : List GenericFibEntry
  pub round_trip_timeout : ℕ
  pub max_piat : ℕ
  pub max_csyn_times : ℕ
  -- The face of the application, which the code takes to be set where the router has no next hop.
  pub app_face : ℕ

pub record RetranEventState : Type 0 where
  pub data_id : ℕ
  pub retran_event_id : ℕ
  pub times : ℕ

-- The arguments of a scheduled waitingRD, and its delay.
pub record Waiting : Type 0 where
  pub es : ℕ
  pub uid : ℕ
  pub data_id : ℕ
  pub delay : ℕ

pub data SdatpMessage : Type 0 where
  data_msg : ℕ → SdatpMessage
  rd : List ℕ → ℕ → SdatpMessage
  rr : List ℕ → ℕ → SdatpMessage

pub record Sdatp : Type 0 where
  pub trans_data_ids : List ℕ
  pub received_data_ids : List ℕ
  pub next_data_id : ℕ
  pub retran_states : Dict ℕ
  pub states : List RetranEventState
  pub events : Dict Waiting
  pub next_event : ℕ
  pub drawn : ℕ
  pub sent : List (ℕ × SdatpMessage)

unfoldable pub lookup_face : List GenericFibEntry → ℕ → Option ℕ
lookup_face [] direction = none
lookup_face (fe ∷ rest) direction =
    let later = lookup_face rest direction in
    if fe.direction == direction then some fe.face_next_hop else later

abbrev pub send : ℕ → SdatpMessage → Sdatp → Sdatp
send face message r = record r { sent = r.sent ++ (face, message) ∷ [] }

-- A message on the face of a direction, where there is one.
abbrev pub send_if : Option ℕ → SdatpMessage → Sdatp → Sdatp
send_if none message r = r
send_if (some face) message r = send face message r

module _ (routes : GenericRoutes) (draws : ℕ → ℕ) where
  -- A new RetranEventState under a new UID, with its waitingRD scheduled.
  unfoldable pub wait_for : ℕ → ℕ → ℕ → ℕ → Sdatp → Sdatp
  wait_for uid es_data_id data_id delay r = record r {
    states =
        r.states
        ++ (record { data_id = es_data_id; retran_event_id = r.next_event; times = 1 }) ∷ [];
    retran_states = insert uid (length r.states) r.retran_states;
    events =
        insert r.next_event
          (record { es = length r.states; uid = uid; data_id = data_id; delay = delay }) r.events;
    next_event = suc r.next_event;
  }

  -- The body of the loop over the IDs that were missed.
  unfoldable pub request : ℕ → ℕ → Sdatp → Sdatp
  unfolding lookup_face wait_for
  request missed data_id r =
      let uid = draws r.drawn in
      wait_for uid missed data_id routes.round_trip_timeout (
        send_if (lookup_face routes.fib_entries 0) (rr (missed ∷ []) uid)
          (record r { drawn = suc r.drawn }))

  -- `n` rounds of that loop, from the ID `missed`.
  unfoldable pub request_all : ℕ → ℕ → ℕ → Sdatp → Sdatp
  unfolding request
  request_all zero missed data_id r = r
  request_all (suc n) missed data_id r =
      request_all n (suc missed) data_id (request missed data_id r)

  -- The first entry of `retranStates` whose state has the data ID: its key and its event.
  unfoldable pub waiting_for : Dict ℕ → List RetranEventState → ℕ → Option (ℕ × ℕ)
  waiting_for [] states data_id = none
  waiting_for ((uid, p) ∷ rest) states data_id =
      let later = waiting_for rest states data_id in
      elim (get_elem? states p) [
        | none ↦ none
        | some es ↦ if data_id == es.data_id then some (uid, es.retran_event_id) else later
      ]

  unfoldable pub stop_waiting_for : ℕ → Sdatp → Sdatp
  unfolding waiting_for
  stop_waiting_for data_id r = elim (waiting_for r.retran_states r.states data_id) [
    | none ↦ r
    | some found ↦ record r {
      events = erase found.1 r.events;
      retran_states = erase found.0 r.retran_states;
    }
  ]

  -- A new data ID at the last router, and at one that has a next hop.
  unfoldable pub deliver : ℕ → Sdatp → Sdatp
  deliver data_id r =
      let r1 = send routes.app_face (data_msg data_id) r in
      record r1 { trans_data_ids = data_id ∷ r1.trans_data_ids }

  unfoldable pub pass_on : ℕ → ℕ → Sdatp → Sdatp
  unfolding request_all wait_for
  pass_on face data_id r =
      let r1 = send face (data_msg data_id) r in
      let r2 : Sdatp = record r1 {
        trans_data_ids = data_id ∷ r1.trans_data_ids;
        received_data_ids = data_id ∷ r1.received_data_ids;
      } in
      let r3 = request_all (data_id - r2.next_data_id) r2.next_data_id data_id r2 in
      let r4 : Sdatp = record r3 { next_data_id = suc data_id; drawn = suc r3.drawn } in
      wait_for (draws r3.drawn) (suc data_id % 2 ^ 32) data_id routes.max_piat r4

  unfoldable pub on_data : ℕ → Sdatp → Sdatp
  unfolding lookup_face stop_waiting_for deliver pass_on
  on_data data_id r =
      if contains r.trans_data_ids data_id then r else elim (lookup_face routes.fib_entries 1) [
        | none ↦ deliver data_id (stop_waiting_for data_id r)
        | some face ↦ pass_on face data_id (stop_waiting_for data_id r)
      ]

  -- The request that an RD answers is over.
  unfoldable pub finish_request : ℕ → Sdatp → Sdatp
  finish_request uid r = elim (lookup uid r.retran_states) [
    | none ↦ r
    | some p ↦ record r {
      events = elim (get_elem? r.states p) [
        | none ↦ r.events
        | some es ↦ erase es.retran_event_id r.events
      ];
      retran_states = erase uid r.retran_states;
    }
  ]

  -- An RD with a lost ID that was not sent on: the last router sends the RD itself to the
  -- application.
  unfoldable pub recover : ℕ → List ℕ → ℕ → Sdatp → Sdatp
  unfolding lookup_face
  recover lost rest uid r =
      let r1 : Sdatp = record r { trans_data_ids = lost ∷ r.trans_data_ids } in
      elim (lookup_face routes.fib_entries 1) [
        | some face ↦ send face (data_msg lost) r1
        | none ↦ send routes.app_face (rd (lost ∷ rest) uid) r1
      ]

  unfoldable pub on_rd : ℕ → List ℕ → ℕ → Sdatp → Sdatp
  unfolding finish_request recover
  on_rd lost rest uid r =
      let r1 = finish_request uid r in
      if contains r1.trans_data_ids lost then r1 else recover lost rest uid r1

  unfoldable pub on_rr : (ℕ → Bool) → ℕ → ℕ → Sdatp → Sdatp
  unfolding lookup_face
  on_rr in_cs lost uid r =
      if in_cs lost then send_if (lookup_face routes.fib_entries 1) (rd (lost ∷ []) uid) r else r

  -- afterReceiveData: `none` is the read of the first element of an empty list.
  unfoldable pub after_receive_sdatp_data : (ℕ → Bool) → SdatpMessage → Sdatp → Option Sdatp
  unfolding on_data on_rd on_rr
  after_receive_sdatp_data in_cs (data_msg data_id) r = some (on_data data_id r)
  after_receive_sdatp_data in_cs (rd [] uid) r = none
  after_receive_sdatp_data in_cs (rd (lost ∷ rest) uid) r = some (on_rd lost rest uid r)
  after_receive_sdatp_data in_cs (rr [] uid) r = none
  after_receive_sdatp_data in_cs (rr (lost ∷ rest) uid) r = some (on_rr in_cs lost uid r)

  -- waitingRD, with the place `p` of its state: it requests the ID that it was scheduled with.
  unfoldable pub waiting_rd : ℕ → ℕ → ℕ → Sdatp → Sdatp
  unfolding lookup_face
  waiting_rd p uid data_id r = elim (lookup_face routes.fib_entries 1) [
    | none ↦ r
    | some _ ↦ elim (get_elem? r.states p) [
      | none ↦ r
      | some es ↦
          let times = suc es.times in
          let r1 = send_if (lookup_face routes.fib_entries 0) (rr (data_id ∷ []) uid) r in
          if ltb times routes.max_csyn_times
          then record r1 {
            states = set r1.states p (record es { times = times; retran_event_id = r1.next_event });
            events =
                insert r1.next_event
                  (record {
                    es = p;
                    uid = uid;
                    data_id = data_id;
                    delay = routes.round_trip_timeout;
                  })
                  r1.events;
            next_event = suc r1.next_event;
          }
          else record r1 { states = set r1.states p (record es { times = times }) }
    ]
  ]

  -- The simulator runs an event: it is no longer scheduled.
  unfoldable pub run_event : ℕ → Sdatp → Sdatp
  unfolding waiting_rd
  run_event event r = elim (lookup event r.events) [
    | none ↦ r
    | some w ↦ waiting_rd w.es w.uid w.data_id (record r { events = erase event r.events })
  ]
