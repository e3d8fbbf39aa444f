-- ===== src/Tests/R2t.antt =====
-- R2tStrategy and LltcDataIdQueue on samples.
use tafrr.Prelude.{ℕ, ◌≤◌, ◌≡◌, refl, Bool, true, some, [], ◌∷◌, List, arith}
use tafrr.Prelude.Dict.{Dict, has, get_or}
use tafrr.R2t.{
  GenericRoutes, R2tStrategy, Action, send_data, send_cack, data_comes, cack_comes, timer, Event,
  run, lookup_forwarding_entry, find_direction, step, receive_data, new_csyn, cack_up, receive_cack,
  fire, waiting_cack,
}
use tafrr.R2t.Counted.{sends}
use tafrr.R2t.Bound.{run-sends_le}
use tafrr.R2t.Retransmit.{run-retransmits, timers}
use tafrr.DataIdQueue.{
  DataIdQueue, new_queue, set_len, has_id, get_data_id_add_time, size, size_mod, pushes, pops, Op,
}
use tafrr.DataIdQueue.Refine.{run-refines}

abbrev middle : GenericRoutes
middle = record {
  fib_entries =
      (record { face_next_hop = 10; direction = 0 })
      ∷ (record { face_next_hop = 11; direction = 1 })
      ∷ [];
  node_id = 3;
  round_trip_timeout = 5;
  max_csyn_times = 2;
  app_face = some 9;
}

abbrev stores_all : ℕ → Bool
stores_all id = true

abbrev empty_state : R2tStrategy
empty_state = record { trans_data_ids = []; csyn_states = [] }

abbrev sample : List Event
sample = data_comes 1 7 ∷ timer 6 7 ∷ cack_comes 7 ∷ []

abbrev sample_end : R2tStrategy
sample_end = record { trans_data_ids = 7 ∷ []; csyn_states = [] }

run-sample :
    run middle stores_all empty_state sample
    ≡ some (sample_end, send_data 11 7 ∷ send_cack 10 7 ∷ send_data 11 7 ∷ [])
unfolding run step receive_data receive_cack fire waiting_cack new_csyn cack_up
    lookup_forwarding_entry find_direction
run-sample = refl

run-sends_le_example : sends 7 (send_data 11 7 ∷ send_cack 10 7 ∷ send_data 11 7 ∷ []) ≤ 3
run-sends_le_example =
    run-sends_le middle stores_all 7 (omega arith) sample sample_end
      (send_data 11 7 ∷ send_cack 10 7 ∷ send_data 11 7 ∷ []) run-sample

middle-up : lookup_forwarding_entry middle stores_all 1 ≡ some 11
unfolding lookup_forwarding_entry find_direction
middle-up = refl

run-retransmits_example :
    (s' : R2tStrategy) × (out : List Action) × (run middle stores_all empty_state
        (data_comes 1 7 ∷ timers 7 (6 ∷ 11 ∷ 16 ∷ []))
      ≡ some (s', out))
    × (sends 7 out ≡ 3)
run-retransmits_example =
    run-retransmits middle stores_all 11 7 (omega arith) middle-up refl 1 7 (6 ∷ 11 ∷ 16 ∷ [])
      empty_state (omega arith) refl (omega arith)

abbrev two_pushes : List Op
two_pushes = pushes 5 50 ∷ pushes 6 60 ∷ pushes 5 70 ∷ pops ∷ []

abbrev left_over : Dict ℕ
left_over = (6, 60) ∷ []

run-refines_example :
    (s : DataIdQueue) × (tafrr.DataIdQueue.run (set_len 1 (new_queue 0)) two_pushes ≡ some s)
    × (s.q ≡ 6 ∷ [])
    × ((x : ℕ) → has_id x s ≡ has x left_over)
    × ((x : ℕ) → get_data_id_add_time x s ≡ get_or x 0 left_over)
    × (size s ≡ 2)
run-refines_example = run-refines 0 1 two_pushes left_over (omega arith) (omega arith) refl
