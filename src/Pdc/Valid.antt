-- ===== src/Pdc/Valid.antt =====
-- The invariant of LltcResequenceQueue: what waits by its ID also waits by its time, so that neither
-- `top()` nor `front()` meets an empty queue, and nothing waits longer than the maximum.
use tafrr.Prelude.{
  ℕ, ◌+◌, ◌≤◌, ◌<◌, ◌≡◌, ◌⊎◌, refl, inl, inr, some, [], ◌∷◌, ◌++◌, arith, ◌==◌, length, Bool-cases,
  List-cases,
}
use tafrr.Pdc.{
  DataElement, ResequenceQueue, release_in_order, expire, release_expired, release_queue, pass_on,
  make_room, enqueue, schedule_dequeue,
}
use tafrr.Pdc.Queues.{
  Has, Sorted, Timed, push_seq-Sorted, Has-push_seq, Has-append, All-Has, Timed-append,
  release_in_order-Has, release_in_order-Sorted, release_expired-Sorted, release_expired-Has,
  expire-Timed, expire-Has, Timed-mono,
}

module _ {X : Type 0} where
  pub record IsValid (now : ℕ) (s : ResequenceQueue X) : Type 0 where
    pub sized : 0 < s.size
    pub by_id : Sorted s.q_seq
    pub by_time : Timed now s.q_time
    pub both : (d : DataElement X) → Has d s.q_seq → Has d s.q_time

  -- No packet waits that has been here for the maximum.
  abbrev pub Fresh : ℕ → ResequenceQueue X → Type 0
  Fresh now s = (d : DataElement X) → Has d s.q_seq → now < d.arrive_time + s.max_wait_time

  pub release_queue-IsValid :
      (now : ℕ) (s : ResequenceQueue X)
      → IsValid now s
      → IsValid now (release_queue now s) × Fresh now (release_queue now s)
  unfolding release_queue
  release_queue-IsValid now s h =
      let r = release_in_order s.q_seq s.last_plus_one s.sent in
      let old = expire now s.max_wait_time s.q_time 0 in
      let sorted = release_in_order-Sorted s.q_seq s.last_plus_one s.sent h.by_id in
      let (timed, fresh) = expire-Timed now s.max_wait_time s.q_time 0 h.by_time in
      let kept : (d : DataElement X) → Has d r.queue → (d.data_id < old.1) ⊎ Has d old.0 = λ d m.
        expire-Has now s.max_wait_time d s.q_time 0
          (h.both d (release_in_order-Has d s.q_seq s.last_plus_one s.sent m)) in
      elim (List-cases r.queue) [
        | inl e ↦
            rw (e, release_queue)
              (
                record {
                  sized = h.sized;
                  by_id = sorted;
                  by_time = h.by_time;
                  both = λ d m. elim (rw e at m) [ ];
                },
                λ d m. elim (rw e at m) [ ],
              )
        | inr (x, q, e) ↦ elim (Bool-cases (old.1 == 0)) [
          | inl none_old ↦
              let zero_old : old.1 ≡ 0 = ground arith in
              let both : (d : DataElement X) → Has d r.queue → Has d old.0 = λ d m.
                elim (kept d m) [ inl lt ↦ absurd (omega (arith, lt, zero_old)) | inr m' ↦ m' ] in
              rw (e, release_queue, none_old)
                (
                  record { sized = h.sized; by_id = sorted; by_time = timed; both = both },
                  λ d m. All-Has _ old.0 d fresh (both d m),
                )
          | inr some_old ↦
              let sorted' : Sorted (x ∷ q) = rw e at sorted in
              let both : (d : DataElement X)
                  → Has d (release_expired old.1 (x ∷ q) r.last_plus_one r.sent).queue
                  → Has d old.0 =
                λ d m.
                  let (m', ge) =
                    release_expired-Has old.1 d (x ∷ q) r.last_plus_one r.sent sorted' m in
                  elim (kept d (rw e m')) [
                    | inl lt ↦ absurd (omega (arith, lt, ge))
                    | inr m'' ↦ m''
                  ] in
              rw (e, release_queue, some_old)
                (
                  record {
                    sized = h.sized;
                    by_id = release_expired-Sorted old.1 (x ∷ q) r.last_plus_one r.sent sorted';
                    by_time = timed;
                    both = both;
                  },
                  λ d m. All-Has _ old.0 d fresh (both d m),
                )
        ]
      ]

  pub IsValid-mono : (t now : ℕ) (s : ResequenceQueue X) → t ≤ now → IsValid t s → IsValid now s
  IsValid-mono t now s le h = record {
    sized = h.sized;
    by_id = h.by_id;
    by_time = Timed-mono t now s.q_time le h.by_time;
    both = h.both;
  }

  pub pass_on-IsValid :
      (now id : ℕ) (x : X) (s : ResequenceQueue X) → IsValid now s → IsValid now (pass_on id x s)
  unfolding pass_on
  pass_on-IsValid now id x s h = record {
    sized = h.sized;
    by_id = h.by_id;
    by_time = h.by_time;
    both = h.both;
  }

  pub make_room_lem :
      (now : ℕ) (s : ResequenceQueue X)
      → IsValid now s
      → (s' : ResequenceQueue X) × (make_room s ≡ some s') × IsValid now s'
  unfolding make_room
  make_room_lem now s h = elim (Bool-cases (length s.q_seq == s.size)) [
    | inl full ↦ elim (List-cases s.q_seq) [
      | inl empty ↦
          let none_held : length s.q_seq ≡ 0 = rw empty refl in
          absurd (ground (arith, full, none_held, h.sized))
      | inr (d, q, e) ↦
          let by_id : Sorted (d ∷ q) = rw e at h.by_id in
          let popped : IsValid now (record s { q_seq = q }) = record {
            sized = h.sized;
            by_id = by_id.1;
            by_time = h.by_time;
            both = λ x m. h.both x (rw e (inr m));
          } in
          (
            pass_on d.data_id d.payload (record s { q_seq = q }),
            rw (full, e) refl,
            pass_on-IsValid now d.data_id d.payload _ popped,
          )
    ]
    | inr room ↦ (s, rw room refl, h)
  ]

  pub enqueue-IsValid :
      (t now : ℕ) (de : DataElement X) (s : ResequenceQueue X)
      → t ≤ now
      → de.arrive_time ≡ now
      → IsValid t s
      → IsValid now (enqueue de s)
  unfolding enqueue
  enqueue-IsValid t now de s le e h = record {
    sized = h.sized;
    by_id = push_seq-Sorted de s.q_seq h.by_id;
    by_time = Timed-append t now de s.q_time le e h.by_time;
    both = λ d m.
        Has-append d de s.q_time (elim (Has-push_seq de d s.q_seq m) [
          | inl same ↦ inl same
          | inr old ↦ inr (h.both d old)
        ]);
  }

  pub schedule_dequeue_lem :
      (now : ℕ) (s : ResequenceQueue X)
      → IsValid now s
      → (s' : ResequenceQueue X) × (schedule_dequeue s ≡ some s') × IsValid now s'
  unfolding schedule_dequeue
  schedule_dequeue_lem now s h = elim (List-cases s.q_seq) [
    | inl empty ↦ (s, rw empty refl, h)
    | inr (d, q, e) ↦ elim (List-cases s.q_time) [
      | inl empty ↦ elim (rw empty at (h.both d (rw e (inl refl)))) [ ]
      | inr (d', q', e') ↦ (
        record s { tasks = s.tasks ++ (d'.arrive_time + s.max_wait_time) ∷ [] },
        ground (arith, e, e'),
        record { sized = h.sized; by_id = h.by_id; by_time = h.by_time; both = h.both },
      )
    ]
  ]
