-- ===== src/R2t.antt =====
-- NFD/daemon/fw/r2t-strategy.cpp, with the routes of NFD/daemon/fw/generic-routes-manager.hpp: every
-- router passes a packet of data on once, acknowledges it upstream by a CACK, and sends it again while
-- the CACK of the next router does not come. Faces are numbers. `none` stands for undefined behaviour:
-- a null CsynEventState, a packet that the content store has lost, no face of an application.
pub mod Counted
pub mod Bound
pub mod Retransmit
use tafrr.Prelude.{
  ℕ, ◌+◌, ◌-◌, ◌%◌, ◌^◌, Bool, true, false, Option, none, some, List, [], ◌∷◌, ◌++◌, map, ◌==◌,
  if◌then◌else◌, leb, contains, ◌>>=◌,
}
use tafrr.Prelude.Dict.{Dict, lookup, insert, erase}

abbrev pub uint32_mod : ℕ
uint32_mod = 2 ^ 32

-- `direction` is 0 downstream, towards the consumer, as the header has it.
pub record GenericFibEntry : Type 0 where
  pub face_next_hop : ℕ
  pub direction : ℕ

pub record GenericRoutes : Type 0 where
  pub fib_entries : List GenericFibEntry
  pub node_id : ℕ
  pub round_trip_timeout : ℕ
  pub max_csyn_times : ℕ
  pub app_face : Option ℕ

-- `retran_event_id` is the time of the pending call of waitingCACK.
pub record CsynEventState : Type 0 where
  pub data_id : ℕ
  pub retran_event_id : Option ℕ
  pub times : ℕ

pub record R2tStrategy : Type 0 where
  pub trans_data_ids : List ℕ
  pub csyn_states : Dict CsynEventState

-- The packets that leave.
pub data Action : Type 0 where
  send_data : ℕ → ℕ → Action
  send_cack : ℕ → ℕ → Action
  send_interest : ℕ → Action
  reject_pending_interest : Action

abbrev pub Outcome : Type 0
Outcome = Option (R2tStrategy × List Action)

-- What happens at the router, at a time where that matters.
pub data Event : Type 0 where
  data_comes : ℕ → ℕ → Event
  cack_comes : ℕ → Event
  timer : ℕ → ℕ → Event

unfoldable pub find_direction : ℕ → List GenericFibEntry → Option ℕ
find_direction direction [] = none
find_direction direction (fe ∷ entries) =
    if fe.direction == direction then some fe.face_next_hop else find_direction direction entries

-- The routes of the router, and whether its content store has the packet of an ID.
module _ (routes : GenericRoutes) (in_cs : ℕ → Bool) where
  unfoldable pub lookup_forwarding_entry : ℕ → Option ℕ
  unfolding find_direction
  lookup_forwarding_entry direction = find_direction direction routes.fib_entries

  -- `next_hops` are those that lookupFib gives for the local application.
  unfoldable pub after_receive_interest : Bool → List ℕ → List Action
  unfolding lookup_forwarding_entry
  after_receive_interest has_pending_out_records next_hops =
      if has_pending_out_records then [] else elim (lookup_forwarding_entry 0) [
        | none ↦ elim next_hops [
          | [] ↦ reject_pending_interest ∷ []
          | hop ∷ hops ↦ map send_interest (hop ∷ hops)
        ]
        | some face ↦ send_interest face ∷ []
      ]

  -- The new CsynEventState.
  unfoldable pub new_csyn : ℕ → ℕ → CsynEventState
  new_csyn now data_id =
      let wait = leb 1 routes.max_csyn_times in
      record {
        data_id = data_id;
        retran_event_id = if wait then some (now + routes.round_trip_timeout) else none;
        times = if wait then 1 else uint32_mod - 1;
      }

  unfoldable pub cack_up : ℕ → List Action
  unfolding lookup_forwarding_entry
  cack_up data_id = elim (lookup_forwarding_entry 0) [
    | none ↦ []
    | some face ↦ send_cack face data_id ∷ []
  ]

  -- The branch of afterReceiveData for "Data"; `number` is what stoull reads.
  unfoldable pub receive_data : ℕ → ℕ → R2tStrategy → Outcome
  unfolding lookup_forwarding_entry new_csyn cack_up
  receive_data now number s =
      let data_id = number % uint32_mod in
      let seen = data_id ∷ s.trans_data_ids in
      if contains s.trans_data_ids data_id then some (s, []) else elim (lookup_forwarding_entry 1) [
        | none ↦ routes.app_face >>= λ face.
            some (record s { trans_data_ids = seen }, send_data face data_id ∷ cack_up data_id)
        | some face ↦ some (
          record {
            trans_data_ids = seen;
            csyn_states = insert data_id (new_csyn now data_id) s.csyn_states;
          },
          send_data face data_id ∷ cack_up data_id,
        )
      ]

  -- The branch of afterReceiveData for "CACK".
  unfoldable pub receive_cack : ℕ → R2tStrategy → Outcome
  receive_cack number s =
      let data_id = number % uint32_mod in
      let rest = record s { csyn_states = erase data_id s.csyn_states } in
      if leb 1 routes.max_csyn_times
      then (lookup data_id s.csyn_states >>= λ es. some (rest, []))
      else some (rest, [])

  abbrev pub resend : ℕ → CsynEventState → CsynEventState
  resend now es =
      let times = (es.times + 1) % uint32_mod in
      record es {
        retran_event_id =
            if leb times routes.max_csyn_times
            then some (now + routes.round_trip_timeout)
            else none;
        times = times;
      }

  -- waitingCACK for the state `es`; the event that called it has passed.
  unfoldable pub waiting_cack : ℕ → CsynEventState → R2tStrategy → Outcome
  unfolding lookup_forwarding_entry
  waiting_cack now es s = elim (lookup_forwarding_entry 1) [
    | none ↦ some (
      record s {
        csyn_states = insert es.data_id (record es { retran_event_id = none }) s.csyn_states;
      },
      [],
    )
    | some face ↦
        if in_cs es.data_id
        then some (
          record s { csyn_states = insert es.data_id (resend now es) s.csyn_states },
          send_data face es.data_id ∷ [],
        )
        else none
  ]

  -- A timer that is not pending does not fire.
  unfoldable pub fire : ℕ → ℕ → R2tStrategy → Outcome
  unfolding waiting_cack
  fire now data_id s = elim (lookup data_id s.csyn_states) [
    | none ↦ some (s, [])
    | some es ↦ elim es.retran_event_id [ none ↦ some (s, []) | some due ↦ waiting_cack now es s ]
  ]

  unfoldable pub step : R2tStrategy → Event → Outcome
  unfolding receive_data receive_cack fire
  step s (data_comes now number) = receive_data now number s
  step s (cack_comes number) = receive_cack number s
  step s (timer now data_id) = fire now data_id s

  unfoldable pub run : R2tStrategy → List Event → Outcome
  unfolding step
  run s [] = some (s, [])
  run s (e ∷ es) = do (s1, out1) ← step s e; (s2, out2) ← run s1 es; some (s2, out1 ++ out2)
