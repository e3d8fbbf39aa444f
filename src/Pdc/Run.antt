-- ===== src/Pdc/Run.antt =====
-- LltcResequenceQueue over any order of arrivals and of autoDequeueTask: no step fails, no packet is
-- lost or passed on twice, and a run of the task leaves nothing that waited for the maximum.
use tafrr.Prelude.{
  ℕ, ◌≤◌, ◌<◌, ◌≡◌, refl, inl, inr, Bool, some, List, [], ◌∷◌, arith, ◌==◌, Bool-cases,
}
use tafrr.Pdc.{
  DataElement, ResequenceQueue, Event, packet, auto_dequeue_task, release_queue, pass_on, enqueue,
  receive_data, step, run, new_queue,
}
use tafrr.Pdc.Conserved.{total, came, total-run}
use tafrr.Pdc.Valid.{
  IsValid, Fresh, release_queue-IsValid, IsValid-mono, pass_on-IsValid, make_room_lem,
  enqueue-IsValid, schedule_dequeue_lem,
}

module _ {X : Type 0} where
  abbrev pub time_of : Event X → ℕ
  time_of (packet now id x) = now
  time_of (auto_dequeue_task now) = now

  -- The events come in the order of their times, from `now` on and not after `last`.
  abbrev pub Runs : ℕ → List (Event X) → ℕ → Type 0
  Runs now [] last = now ≤ last
  Runs now (e ∷ es) last = (now ≤ time_of e) × Runs (time_of e) es last

  receive_data_lem :
      (t now id : ℕ) (x : X) (s : ResequenceQueue X)
      → t ≤ now
      → IsValid t s
      → (s' : ResequenceQueue X) × (receive_data now id x s ≡ some s') × IsValid now s'
  unfolding receive_data
  receive_data_lem t now id x s le h = elim (Bool-cases (s.last_plus_one == 0)) [
    | inl first ↦
        (pass_on id x s, simp first refl, pass_on-IsValid now id x s (IsValid-mono t now s le h))
    | inr later ↦ elim (Bool-cases (id == s.last_plus_one)) [
      | inl next ↦ (
        pass_on id x s,
        simp (later, next) refl,
        pass_on-IsValid now id x s (IsValid-mono t now s le h),
      )
      | inr gap ↦
          let (s1, made, h1) = make_room_lem t s h in
          let de : DataElement X = record { data_id = id; payload = x; arrive_time = now } in
          let (h2, fresh) = release_queue-IsValid now _ (enqueue-IsValid t now de s1 le refl h1) in
          let (s2, e2, h3) = schedule_dequeue_lem now (release_queue now (enqueue de s1)) h2 in
          (s2, simp (later, gap, made, e2) refl, h3)
    ]
  ]

  step_lem :
      (t : ℕ) (e : Event X) (s : ResequenceQueue X)
      → t ≤ time_of e
      → IsValid t s
      → (s' : ResequenceQueue X) × (step s e ≡ some s') × IsValid (time_of e) s'
  unfolding step
  step_lem t (packet now id x) s le h = receive_data_lem t now id x s le h
  step_lem t (auto_dequeue_task now) s le h =
      (release_queue now s, refl, (release_queue-IsValid now s (IsValid-mono t now s le h)).0)

  run-IsValid :
      (t last : ℕ) (es : List (Event X)) (s : ResequenceQueue X)
      → Runs t es last
      → IsValid t s
      → (s' : ResequenceQueue X) × (run s es ≡ some s') × IsValid last s'
  unfolding run
  run-IsValid t last [] s r h = (s, refl, IsValid-mono t last s r h)
  run-IsValid t last (e ∷ es) s r h =
      let (s1, e1, h1) = step_lem t e s r.0 h in
      let (s2, e2, h2) = run-IsValid (time_of e) last es s1 r.1 h1 in (s2, rw (e1) e2, h2)

  new_queue-IsValid : (size wait : ℕ) → 0 < size → IsValid 0 (new_queue {X = X} size wait)
  unfolding new_queue
  new_queue-IsValid size wait h = record { sized = h; by_id = tt; by_time = tt; both = λ d m. m }

  -- A queue with room for at least one packet gets through every sequence of arrivals and runs of
  -- autoDequeueTask whose times do not fall: no step takes the first element of an empty queue, and
  -- in the end, of the packets that pass any given test, as many were passed on or wait as came.
  pub run-total :
      (size wait last : ℕ) (es : List (Event X))
      → 0 < size
      → Runs 0 es last
      → (s : ResequenceQueue X) × (run (new_queue size wait) es ≡ some s)
        × ((p : ℕ × X → Bool) → total p s ≡ came p es)
  unfolding new_queue
  run-total size wait last es h r =
      let (s, e, v) =
        run-IsValid 0 last es (new_queue size wait) r (new_queue-IsValid size wait h) in
      (s, e, λ p. omega (arith, total-run p es (new_queue size wait) s e))

  -- After any sequence of arrivals and runs of autoDequeueTask whose times do not fall, a run of the
  -- task leaves no packet in the queue that arrived the maximal wait, or longer, ago.
  pub run-Fresh :
      (size wait last : ℕ) (es : List (Event X))
      → 0 < size
      → Runs 0 es last
      → (s : ResequenceQueue X) × (run (new_queue size wait) es ≡ some s)
        × Fresh last (release_queue last s)
  run-Fresh size wait last es h r =
      let (s, e, v) =
        run-IsValid 0 last es (new_queue size wait) r (new_queue-IsValid size wait h) in
      (s, e, (release_queue-IsValid last s v).1)
