-- ===== src/Pdc/Conserved.antt =====
-- LltcResequenceQueue passes on each packet as often as it came, or still holds it.
use tafrr.Prelude.{
  ℕ, ◌+◌, ◌≡◌, refl, inl, inr, Bool, some, List, [], ◌∷◌, ◌++◌, map, arith, ◌==◌, if◌then◌else◌,
  length, Bool-cases, Option-cases, List-cases, ap,
}
use tafrr.Pdc.{
  DataElement, ResequenceQueue, Release, Event, packet, auto_dequeue_task, item, push_seq,
  release_in_order, expire, release_expired, release_queue, pass_on, make_room, enqueue,
  schedule_dequeue, receive_data, step, run,
}

module _ {X : Type 0} (p : ℕ × X → Bool) where
  -- How many packets pass the test `p`.
  abbrev pub count : List (ℕ × X) → ℕ
  count [] = 0
  count (x ∷ xs) = (if p x then 1 else 0) + count xs

  -- The packets that were passed on or wait, and those that came.
  abbrev pub total : ResequenceQueue X → ℕ
  total s = count s.sent + count (map item s.q_seq)

  abbrev pub came : List (Event X) → ℕ
  came [] = 0
  came (packet now id x ∷ es) = (if p (id, x) then 1 else 0) + came es
  came (auto_dequeue_task now ∷ es) = came es

  count-append : (xs ys : List (ℕ × X)) → count (xs ++ ys) ≡ count xs + count ys
  count-append [] ys = omega arith
  count-append (x ∷ xs) ys = omega (arith, count-append xs ys)

  count-push_seq :
      (de : DataElement X) (q : List (DataElement X))
      → count (map item (push_seq de q)) ≡ (if p (item de) then 1 else 0) + count (map item q)
  unfolding push_seq
  count-push_seq de [] = refl
  count-push_seq de (d ∷ q) = ground (arith, count-push_seq de q)

  abbrev release_total : Release X → ℕ
  release_total r = count r.sent + count (map item r.queue)

  count-release_in_order :
      (q : List (DataElement X)) (last : ℕ) (sent : List (ℕ × X))
      → release_total (release_in_order q last sent) ≡ count sent + count (map item q)
  unfolding release_in_order
  count-release_in_order [] last sent = refl
  count-release_in_order (d ∷ q) last sent = ground (
    arith,
    count-release_in_order q (last + 1) (sent ++ item d ∷ []),
    count-append sent (item d ∷ []),
  )

  count-release_expired :
      (max : ℕ) (q : List (DataElement X)) (last : ℕ) (sent : List (ℕ × X))
      → release_total (release_expired max q last sent) ≡ count sent + count (map item q)
  unfolding release_expired
  count-release_expired max [] last sent = refl
  count-release_expired max (d ∷ q) last sent = ground (
    arith,
    count-release_expired max q (d.data_id + 1) (sent ++ item d ∷ []),
    count-append sent (item d ∷ []),
  )

  total-release_queue : (now : ℕ) (s : ResequenceQueue X) → total (release_queue now s) ≡ total s
  unfolding release_queue
  total-release_queue now s =
      let r = release_in_order s.q_seq s.last_plus_one s.sent in
      let old = expire now s.max_wait_time s.q_time 0 in
      let first = count-release_in_order s.q_seq s.last_plus_one s.sent in
      elim (List-cases r.queue) [
        | inl e ↦ rw (e, release_queue) first
        | inr (d, q, e) ↦ elim (Bool-cases (old.1 == 0)) [
          | inl none_old ↦ rw (e, release_queue, none_old) first
          | inr some_old ↦
              rw
                (
                  e,
                  release_queue,
                  some_old,
                  count-release_expired old.1 (d ∷ q) r.last_plus_one r.sent,
                )
                (rw e at first)
        ]
      ]

  total-make_room : (s s' : ResequenceQueue X) → make_room s ≡ some s' → total s' ≡ total s
  unfolding make_room pass_on
  total-make_room s s' e = elim (Bool-cases (length s.q_seq == s.size)) [
    | inl full ↦ elim (List-cases s.q_seq) [
      | inl empty ↦ ground (arith, full, empty)
      | inr (d, q, h) ↦
          let same : pass_on d.data_id d.payload (record s { q_seq = q }) ≡ s' =
            ground (arith, full, h) in
          ground (arith, same, h, count-append s.sent (item d ∷ []))
    ]
    | inr room ↦ ground (arith, room)
  ]

  total-schedule_dequeue :
      (s s' : ResequenceQueue X) → schedule_dequeue s ≡ some s' → total s' ≡ total s
  unfolding schedule_dequeue
  total-schedule_dequeue s s' e = elim (List-cases s.q_seq) [
    | inl empty ↦ ground (arith, empty)
    | inr (d, q, h) ↦ elim (List-cases s.q_time) [
      | inl empty ↦ ground (arith, h, empty)
      | inr (d', q', h') ↦ ground (arith, h, h')
    ]
  ]

  total-enqueue :
      (de : DataElement X) (s : ResequenceQueue X)
      → total (enqueue de s) ≡ (if p (item de) then 1 else 0) + total s
  unfolding enqueue
  total-enqueue de s = omega (arith, count-push_seq de s.q_seq)

  total-pass_on :
      (id : ℕ) (x : X) (s : ResequenceQueue X)
      → total (pass_on id x s) ≡ (if p (id, x) then 1 else 0) + total s
  unfolding pass_on
  total-pass_on id x s = omega (arith, count-append s.sent ((id, x) ∷ []))

  total-receive_data :
      (now id : ℕ) (x : X) (s s' : ResequenceQueue X)
      → receive_data now id x s ≡ some s'
      → total s' ≡ (if p (id, x) then 1 else 0) + total s
  unfolding receive_data
  total-receive_data now id x s s' e = elim (Bool-cases (s.last_plus_one == 0)) [
    | inl first ↦
        let same : pass_on id x s ≡ s' = ground (arith, first) in
        omega (arith, ap (λ (t : ResequenceQueue X). total t) same, total-pass_on id x s)
    | inr later ↦ elim (Bool-cases (id == s.last_plus_one)) [
      | inl next ↦
          let same : pass_on id x s ≡ s' = ground (arith, later, next) in
          omega (arith, ap (λ (t : ResequenceQueue X). total t) same, total-pass_on id x s)
      | inr gap ↦ elim (Option-cases (make_room s)) [
        | inl stuck ↦ ground (arith, later, gap, stuck)
        | inr (s1, made) ↦
            let de : DataElement X = record { data_id = id; payload = x; arrive_time = now } in
            let e1 : schedule_dequeue (release_queue now (enqueue de s1)) ≡ some s' =
              ground (arith, later, gap, made) in
            omega (
              arith,
              total-schedule_dequeue (release_queue now (enqueue de s1)) s' e1,
              total-release_queue now (enqueue de s1),
              total-enqueue de s1,
              total-make_room s s1 made,
            )
      ]
    ]
  ]

  pub total-run :
      (es : List (Event X)) (s s' : ResequenceQueue X)
      → run s es ≡ some s'
      → total s' ≡ came es + total s
  unfolding run step
  total-run [] s s' e = ground arith
  total-run (auto_dequeue_task now ∷ es) s s' e =
      omega (arith, total-run es (release_queue now s) s' e, total-release_queue now s)
  total-run (packet now id x ∷ es) s s' e = elim (Option-cases (receive_data now id x s)) [
    | inl stuck ↦ ground (arith, stuck)
    | inr (s1, h) ↦
        let rest : run s1 es ≡ some s' = ground (arith, h) in
        omega (arith, total-run es s1 s' rest, total-receive_data now id x s s1 h)
  ]
