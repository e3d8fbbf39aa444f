-- ===== src/Pdc/Queues.antt =====
-- The two queues of LltcResequenceQueue: the orders that their elements keep, and what is left of them
-- after each loop.
use tafrr.Prelude.{
  ℕ, ◌+◌, ◌≤◌, ◌<◌, ◌≡◌, ◌⊎◌, inl, inr, List, [], ◌∷◌, ◌++◌, arith, ◌==◌, if◌then◌else◌, ltb, leb,
  Bool-cases, All, All-map, All-append,
}
use tafrr.Pdc.{DataElement, item, push_seq, release_in_order, expire, release_expired}

module _ {X : Type 0} where
  abbrev pub Has : DataElement X → List (DataElement X) → Type 0
  Has d [] = ⊥
  Has d (e ∷ q) = (d ≡ e) ⊎ Has d q

  -- The IDs do not fall.
  abbrev pub Sorted : List (DataElement X) → Type 0
  Sorted [] = Unit
  Sorted (d ∷ q) = All (λ e. d.data_id ≤ e.data_id) q × Sorted q

  -- The arrivals do not fall, and none is later than `now`.
  abbrev pub Timed : ℕ → List (DataElement X) → Type 0
  Timed now [] = Unit
  Timed now (d ∷ q) =
      (d.arrive_time ≤ now) × All (λ e. d.arrive_time ≤ e.arrive_time) q × Timed now q

  pub All-push_seq :
      (P : DataElement X → Type 0) (de : DataElement X) (q : List (DataElement X))
      → P de
      → All P q
      → All P (push_seq de q)
  unfolding push_seq
  All-push_seq P de [] h hq = (h, tt)
  All-push_seq P de (d ∷ q) h hq = elim (Bool-cases (ltb de.data_id d.data_id)) [
    | inl here ↦ rw here (h, hq)
    | inr later ↦ rw later (hq.0, All-push_seq P de q h hq.1)
  ]

  pub push_seq-Sorted :
      (de : DataElement X) (q : List (DataElement X)) → Sorted q → Sorted (push_seq de q)
  unfolding push_seq
  push_seq-Sorted de [] h = (tt, tt)
  push_seq-Sorted de (d ∷ q) h = elim (Bool-cases (ltb de.data_id d.data_id)) [
    | inl here ↦
        let lt : de.data_id ≤ d.data_id = ground arith in
        rw here (
          (lt, All-map _ _ (λ (e : DataElement X) (le : d.data_id ≤ e.data_id). omega arith) q h.0),
          h,
        )
    | inr later ↦
        let le : d.data_id ≤ de.data_id = ground arith in
        rw later (All-push_seq _ de q le h.0, push_seq-Sorted de q h.1)
  ]

  pub Has-push_seq :
      (de d : DataElement X) (q : List (DataElement X)) → Has d (push_seq de q) → (d ≡ de) ⊎ Has d q
  unfolding push_seq
  Has-push_seq de d [] m = m
  Has-push_seq de d (x ∷ q) m = elim (Bool-cases (ltb de.data_id x.data_id)) [
    | inl here ↦ rw here at m
    | inr later ↦ elim (rw later at m) [
      | inl e ↦ inr (inl e)
      | inr m' ↦ elim (Has-push_seq de d q m') [ inl e ↦ inl e | inr h ↦ inr (inr h) ]
    ]
  ]

  pub Has-append :
      (d de : DataElement X) (q : List (DataElement X)) → (d ≡ de) ⊎ Has d q → Has d (q ++ de ∷ [])
  Has-append d de [] (inl e) = inl e
  Has-append d de [] (inr m) = elim m [ ]
  Has-append d de (x ∷ q) (inl e) = inr (Has-append d de q (inl e))
  Has-append d de (x ∷ q) (inr (inl e)) = inl e
  Has-append d de (x ∷ q) (inr (inr h)) = inr (Has-append d de q (inr h))

  pub All-Has :
      (P : DataElement X → Type 0) (q : List (DataElement X)) (d : DataElement X)
      → All P q
      → Has d q
      → P d
  All-Has P [] d h m = elim m [ ]
  All-Has P (x ∷ q) d h (inl e) = rw e h.0
  All-Has P (x ∷ q) d h (inr m) = All-Has P q d h.1 m

  pub Timed-append :
      (t now : ℕ) (de : DataElement X) (q : List (DataElement X))
      → t ≤ now
      → de.arrive_time ≡ now
      → Timed t q
      → Timed now (q ++ de ∷ [])
  Timed-append t now de [] le e h = (omega (arith, e), tt, tt)
  Timed-append t now de (x ∷ q) le e h = (
    omega (arith, h.0),
    All-append _ q (de ∷ []) h.1 (omega (arith, h.0, e), tt),
    Timed-append t now de q le e h.2,
  )

  -- What is left of a queue by IDs after releases.
  pub release_in_order-Has :
      (d : DataElement X) (q : List (DataElement X)) (last : ℕ) (sent : List (ℕ × X))
      → Has d (release_in_order q last sent).queue
      → Has d q
  unfolding release_in_order
  release_in_order-Has d [] last sent m = m
  release_in_order-Has d (x ∷ q) last sent m = elim (Bool-cases (x.data_id == last)) [
    | inl next ↦ inr (release_in_order-Has d q (last + 1) (sent ++ item x ∷ []) (rw next at m))
    | inr gap ↦ rw gap at m
  ]

  pub release_in_order-Sorted :
      (q : List (DataElement X)) (last : ℕ) (sent : List (ℕ × X))
      → Sorted q
      → Sorted (release_in_order q last sent).queue
  unfolding release_in_order
  release_in_order-Sorted [] last sent h = tt
  release_in_order-Sorted (x ∷ q) last sent h = elim (Bool-cases (x.data_id == last)) [
    | inl next ↦ rw next (release_in_order-Sorted q (last + 1) (sent ++ item x ∷ []) h.1)
    | inr gap ↦ rw gap h
  ]

  pub release_expired-Sorted :
      (max : ℕ) (q : List (DataElement X)) (last : ℕ) (sent : List (ℕ × X))
      → Sorted q
      → Sorted (release_expired max q last sent).queue
  unfolding release_expired
  release_expired-Sorted max [] last sent h = tt
  release_expired-Sorted max (x ∷ q) last sent h = elim (Bool-cases (ltb x.data_id max)) [
    | inl old ↦ rw old (release_expired-Sorted max q (x.data_id + 1) (sent ++ item x ∷ []) h.1)
    | inr new ↦ rw new h
  ]

  pub release_expired-Has :
      (max : ℕ) (d : DataElement X) (q : List (DataElement X)) (last : ℕ) (sent : List (ℕ × X))
      → Sorted q
      → Has d (release_expired max q last sent).queue
      → Has d q × (max ≤ d.data_id)
  unfolding release_expired
  release_expired-Has max d [] last sent h m = elim m [ ]
  release_expired-Has max d (x ∷ q) last sent h m = elim (Bool-cases (ltb x.data_id max)) [
    | inl old ↦
        let (p, le) =
          release_expired-Has max d q (x.data_id + 1) (sent ++ item x ∷ []) h.1 (rw old at m) in
        (inr p, le)
    | inr new ↦
        let m' : Has d (x ∷ q) = rw new at m in
        let le : max ≤ x.data_id = ground arith in
        (
          m',
          elim m' [
            | inl e ↦ rw e le
            | inr p ↦ let ge = All-Has _ q d h.0 p in omega (arith, ge, le)
          ],
        )
  ]

  pub expire-Timed :
      (now wait : ℕ) (q : List (DataElement X)) (max : ℕ)
      → Timed now q
      → Timed now (expire now wait q max).0
        × All (λ d. now < d.arrive_time + wait) (expire now wait q max).0
  unfolding expire
  expire-Timed now wait [] max h = (tt, tt)
  expire-Timed now wait (x ∷ q) max h = elim (Bool-cases (leb (x.arrive_time + wait) now)) [
    | inl old ↦
        rw old (expire-Timed now wait q (if leb max x.data_id then x.data_id + 1 else max) h.2)
    | inr new ↦
        let lt : now < x.arrive_time + wait = ground arith in
        let later =
          All-map _ _ (λ (e : DataElement X) (le : x.arrive_time ≤ e.arrive_time). omega arith) q
            h.1 in
        rw new (h, (lt, later))
  ]

  pub expire-max :
      (now wait : ℕ) (q : List (DataElement X)) (max : ℕ) → max ≤ (expire now wait q max).1
  unfolding expire
  expire-max now wait [] max = omega arith
  expire-max now wait (x ∷ q) max =
      ground (arith, expire-max now wait q (if leb max x.data_id then x.data_id + 1 else max))

  -- A packet that leaves the queue by times has an ID below the bound.
  pub expire-Has :
      (now wait : ℕ) (d : DataElement X) (q : List (DataElement X)) (max : ℕ)
      → Has d q
      → (d.data_id < (expire now wait q max).1) ⊎ Has d (expire now wait q max).0
  unfolding expire
  expire-Has now wait d [] max m = elim m [ ]
  expire-Has now wait d (x ∷ q) max m = elim (Bool-cases (leb (x.arrive_time + wait) now)) [
    | inl old ↦
        let max' : ℕ = if leb max x.data_id then x.data_id + 1 else max in
        elim m [
          | inl e ↦
              let le = expire-max now wait q max' in
              let lt : x.data_id < (expire now wait q max').1 = ground (arith, le) in
              rw (old, e) (inl lt)
          | inr p ↦ rw old (expire-Has now wait d q max' p)
        ]
    | inr new ↦ rw new (inr m)
  ]

  pub Timed-mono : (t now : ℕ) (q : List (DataElement X)) → t ≤ now → Timed t q → Timed now q
  Timed-mono t now [] le h = tt
  Timed-mono t now (x ∷ q) le h = (omega (arith, h.0), h.1, Timed-mono t now q le h.2)
