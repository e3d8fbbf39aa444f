-- ===== src/Tests/Sdatp.antt =====
-- SDATP: a router with next hops in both directions that gets the data IDs 0 and 3.
use tafrr.Prelude.{◌+◌, ◌-◌, ◌≤◌, ◌≡◌, refl, false, [], ◌∷◌, ◌++◌}
use tafrr.Sdatp.{GenericRoutes, Sdatp, lookup_face, on_data, after_receive_sdatp_data}
use tafrr.Sdatp.SdatpMessage.{data_msg}
use tafrr.Sdatp.Once.{times_sent, times_sent-le_one}
use tafrr.Sdatp.Once.Step.{receive}
use tafrr.Sdatp.Once.Steps.{start, next}
use tafrr.Sdatp.Gaps.{requested, numbers, on_data-requested}

abbrev routes : GenericRoutes
routes = record {
  fib_entries =
      (record { face_next_hop = 11; direction = 0 })
      ∷ (record { face_next_hop = 12; direction = 1 })
      ∷ [];
  round_trip_timeout = 50;
  max_piat = 20;
  max_csyn_times = 3;
  app_face = 9;
}

abbrev fresh : Sdatp
fresh = record {
  trans_data_ids = [];
  received_data_ids = [];
  next_data_id = 0;
  retran_states = [];
  states = [];
  events = [];
  next_event = 0;
  drawn = 0;
  sent = [];
}

on_data-requested_example :
    (requested (on_data routes (λ n. n + 700) 3 fresh).sent ≡ requested [] ++ numbers 0 (3 - 0))
    × ((on_data routes (λ n. n + 700) 3 fresh).next_data_id ≡ 4)
unfolding lookup_face
on_data-requested_example = on_data-requested routes (λ n. n + 700) 11 12 3 fresh refl refl refl

abbrev later : Sdatp
later = on_data routes (λ n. n + 700) 3 (on_data routes (λ n. n + 700) 3 fresh)

-- The same ID twice.
times_sent-le_one_example : times_sent 3 later.sent ≤ 1
unfolding after_receive_sdatp_data
times_sent-le_one_example =
    times_sent-le_one routes (λ n. n + 700) (λ n. false) 3 fresh later refl
      (next (next start (receive (data_msg 3) refl)) (receive (data_msg 3) refl))
