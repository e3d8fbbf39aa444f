-- ===== src/R2t/Retransmit.antt =====
-- R2tStrategy: the retransmissions of a packet that the next router does not acknowledge.
use tafrr.Prelude.{
  ℕ, ◌+◌, ◌-◌, ◌%◌, ◌≤◌, ◌<◌, ◌≡◌, refl, ◌⊎◌, inl, inr, Bool, true, false, none, some, List, [],
  ◌∷◌, ◌++◌, arith, if◌then◌else◌, leb, length, contains, Bool-cases,
}
use tafrr.Prelude.Dict.{lookup, insert, lookup-insert}
use tafrr.R2t.{
  uint32_mod, GenericRoutes, CsynEventState, R2tStrategy, Action, send_data,
  lookup_forwarding_entry, new_csyn, cack_up, receive_data, resend, waiting_cack, fire, Event,
  data_comes, timer, step, run,
}
use tafrr.R2t.Counted.{sends, sends-append, sends-cack_up}

-- The timer of the packet `id` at each of the times.
abbrev pub timers : ℕ → List ℕ → List Event
timers id [] = []
timers id (t ∷ ts) = timer t id ∷ timers id ts

module _ (routes : GenericRoutes) (in_cs : ℕ → Bool) (face id : ℕ)
    (small : routes.max_csyn_times + 1 < uint32_mod)
    (up : lookup_forwarding_entry routes in_cs 1 ≡ some face) (stored : in_cs id ≡ true) where
  -- The state waits for a CACK exactly while it may send again.
  abbrev pub Waits : CsynEventState → Type 0
  Waits es =
      (es.data_id ≡ id)
      × (1 ≤ es.times)
      × (es.times ≤ routes.max_csyn_times + 1)
      × (((es.times ≤ routes.max_csyn_times) × (due : ℕ) × (es.retran_event_id ≡ some due))
          ⊎ ((es.times ≡ routes.max_csyn_times + 1) × (es.retran_event_id ≡ none)))

  resend-Waits :
      (now : ℕ) (es : CsynEventState)
      → (es.data_id ≡ id)
      → es.times ≤ routes.max_csyn_times
      → Waits (resend routes in_cs now es)
  resend-Waits now es e le =
      elim (Bool-cases (leb ((es.times + 1) % uint32_mod) routes.max_csyn_times)) [
        | inl more ↦ (
          e,
          omega arith,
          omega arith,
          inl (ground (arith, more), now + routes.round_trip_timeout, rw more refl),
        )
        | inr last ↦ (e, omega arith, omega arith, inr (ground (arith, last), rw last refl))
      ]

  abbrev after_timer : ℕ → CsynEventState → R2tStrategy → R2tStrategy
  after_timer t es s = record s { csyn_states = insert id (resend routes in_cs t es) s.csyn_states }

  waiting_cack_lem :
      (t : ℕ) (es : CsynEventState) (s : R2tStrategy)
      → es.data_id ≡ id
      → waiting_cack routes in_cs t es s ≡ some (after_timer t es s, send_data face id ∷ [])
  unfolding waiting_cack
  waiting_cack_lem t es s e = ground (arith, up, stored)

  fire_lem :
      (t due : ℕ) (es : CsynEventState) (s : R2tStrategy)
      → lookup id s.csyn_states ≡ some es
      → es.data_id ≡ id
      → es.retran_event_id ≡ some due
      → fire routes in_cs t id s ≡ some (after_timer t es s, send_data face id ∷ [])
  unfolding fire
  fire_lem t due es s found e pending = ground (arith, waiting_cack_lem t es s e)

  fire_idle :
      (t : ℕ) (es : CsynEventState) (s : R2tStrategy)
      → lookup id s.csyn_states ≡ some es
      → es.retran_event_id ≡ none
      → fire routes in_cs t id s ≡ some (s, [])
  unfolding fire
  fire_idle t es s found idle = ground arith

  abbrev pub least : ℕ → ℕ → ℕ
  least a b = if leb a b then a else b

  -- The timers send again up to the configured number.
  run-timers :
      (ts : List ℕ) (s : R2tStrategy) (es : CsynEventState)
      → lookup id s.csyn_states ≡ some es
      → Waits es
      → (s' : R2tStrategy) × (out : List Action) × (run routes in_cs s (timers id ts)
          ≡ some (s', out))
        × (sends id out ≡ least (length ts) (routes.max_csyn_times + 1 - es.times))
  unfolding run step
  run-timers [] s es found h = (s, [], refl, ground arith)
  run-timers (t ∷ ts) s es found h = elim h.3 [
    | inl (le, due, pending) ↦
        let es' = resend routes in_cs t es in
        let stepped = fire_lem t due es s found h.0 pending in
        let (s2, out, e, n) =
          run-timers ts (after_timer t es s) es'
            (ground (arith, lookup-insert id id es' s.csyn_states)) (resend-Waits t es h.0 le) in
        (s2, send_data face id ∷ out, simp (stepped, e) refl, ground (arith, n))
    | inr (last, idle) ↦
        let stepped = fire_idle t es s found idle in
        let (s2, out, e, n) = run-timers ts s es found h in
        (s2, out, simp (stepped, e) refl, ground (arith, n, last))
  ]

  abbrev after_data : ℕ → R2tStrategy → R2tStrategy
  after_data now s = record {
    trans_data_ids = id ∷ s.trans_data_ids;
    csyn_states = insert id (new_csyn routes in_cs now id) s.csyn_states;
  }

  receive_data_lem :
      (now number : ℕ) (s : R2tStrategy)
      → number % uint32_mod ≡ id
      → contains s.trans_data_ids id ≡ false
      → receive_data routes in_cs now number s
        ≡ some (after_data now s, send_data face id ∷ cack_up routes in_cs id)
  unfolding receive_data
  receive_data_lem now number s e new = ground (arith, up)

  new_csyn-Waits :
      (now : ℕ)
      → 1 ≤ routes.max_csyn_times
      → Waits (new_csyn routes in_cs now id) × ((new_csyn routes in_cs now id).times ≡ 1)
  unfolding new_csyn
  new_csyn-Waits now h =
      let waits : leb 1 routes.max_csyn_times ≡ true = ground arith in
      (
        (
          refl,
          rw waits (omega arith),
          rw waits (omega arith),
          inl (rw waits (omega arith), now + routes.round_trip_timeout, rw waits refl),
        ),
        rw waits refl,
      )

  -- A router with a next router, and at least one but fewer than 2^32 - 1 retransmissions configured,
  -- gets a new packet, which its content store keeps. Without a CACK, its timers, however often they
  -- run out, send the packet again as often as they run, but not more often than configured.
  pub run-retransmits :
      (now number : ℕ) (ts : List ℕ) (s : R2tStrategy)
      → number % uint32_mod ≡ id
      → contains s.trans_data_ids id ≡ false
      → 1 ≤ routes.max_csyn_times
      → (s' : R2tStrategy) × (out : List Action) × (run routes in_cs s
            (data_comes now number ∷ timers id ts)
          ≡ some (s', out))
        × (sends id out ≡ 1 + least (length ts) routes.max_csyn_times)
  unfolding run step
  run-retransmits now number ts s e new some_wait =
      let es = new_csyn routes in_cs now id in
      let (waits, one) = new_csyn-Waits now some_wait in
      let (s2, out, ran, n) =
        run-timers ts (after_data now s) es (ground (arith, lookup-insert id id es s.csyn_states))
          waits in
      (
        s2,
        (send_data face id ∷ cack_up routes in_cs id) ++ out,
        simp (receive_data_lem now number s e new, ran) refl,
        ground (
          arith,
          sends-append id (cack_up routes in_cs id) out,
          sends-cack_up routes in_cs id small id,
          n,
          one,
        ),
      )
