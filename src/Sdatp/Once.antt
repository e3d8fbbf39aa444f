-- ===== src/Sdatp/Once.antt =====
-- Every data ID is sent on at most once, whatever arrives and whichever timers run out.
use mathlib.Core.Option.{some-injective, none-ne-some}
use tafrr.Prelude.{
  ℕ, zero, suc, ◌+◌, ◌-◌, ◌≤◌, ◌≡◌, refl, Bool, false, Option, none, some, List, [], ◌∷◌, ◌++◌,
  ◌==◌, if◌then◌else◌, contains, get_elem?, arith, Bool-cases, Option-cases, inl, inr, ltb, ap, sym,
  ◌∙◌,
}
use tafrr.Prelude.Dict.{lookup, erase}
use tafrr.Sdatp.{
  GenericRoutes, SdatpMessage, Sdatp, lookup_face, send, send_if, wait_for, request, request_all,
  stop_waiting_for, deliver, pass_on, finish_request, recover, after_receive_sdatp_data, on_data,
  on_rd, on_rr, waiting_rd, run_event, waiting_for,
}
use tafrr.Sdatp.SdatpMessage.{data_msg, rd, rr}

-- How often the data ID was sent, on any face.
abbrev pub times_sent : ℕ → List (ℕ × SdatpMessage) → ℕ
times_sent x [] = 0
times_sent x ((face, data_msg y) ∷ rest) = (if y == x then 1 else 0) + times_sent x rest
times_sent x ((face, rd _ _) ∷ rest) = times_sent x rest
times_sent x ((face, rr _ _) ∷ rest) = times_sent x rest

times_sent-append :
    (x : ℕ) (xs ys : List (ℕ × SdatpMessage))
    → times_sent x (xs ++ ys) ≡ times_sent x xs + times_sent x ys
times_sent-append x [] ys = omega arith
times_sent-append x ((face, data_msg y) ∷ xs) ys = omega (arith, times_sent-append x xs ys)
times_sent-append x ((face, rd _ _) ∷ xs) ys = times_sent-append x xs ys
times_sent-append x ((face, rr _ _) ∷ xs) ys = times_sent-append x xs ys

-- No data ID was sent twice, and those that were sent are in `transDataIDs`.
abbrev pub IsOnce : Sdatp → Type 0
IsOnce r = (x : ℕ) → times_sent x r.sent ≤ (if contains r.trans_data_ids x then 1 else 0)

-- What a step that sends no data leaves as it is.
abbrev IsQuiet : Sdatp → Sdatp → Type 0
IsQuiet r r' =
    ((x : ℕ) → times_sent x r'.sent ≡ times_sent x r.sent) × (r'.trans_data_ids ≡ r.trans_data_ids)

quiet-IsOnce : (r r' : Sdatp) → IsQuiet r r' → IsOnce r → IsOnce r'
quiet-IsOnce r r' q h x = rw (q.0 x, q.1) (h x)

send_if-rr :
    (face : Option ℕ) (ids : List ℕ) (uid : ℕ) (r : Sdatp) → IsQuiet r (send_if face (rr ids uid) r)
send_if-rr none ids uid r = ((λ x. refl), refl)
send_if-rr (some face) ids uid r =
    ((λ x. omega (arith, times_sent-append x r.sent ((face, rr ids uid) ∷ []))), refl)

send_if-rd :
    (face : Option ℕ) (ids : List ℕ) (uid : ℕ) (r : Sdatp) → IsQuiet r (send_if face (rd ids uid) r)
send_if-rd none ids uid r = ((λ x. refl), refl)
send_if-rd (some face) ids uid r =
    ((λ x. omega (arith, times_sent-append x r.sent ((face, rd ids uid) ∷ []))), refl)

-- Sending a data ID that was not sent, and noting it.
abbrev Sends : ℕ → Sdatp → Sdatp → Type 0
Sends y r r' =
    ((x : ℕ) → times_sent x r'.sent ≡ (if y == x then 1 else 0) + times_sent x r.sent)
    × (r'.trans_data_ids ≡ y ∷ r.trans_data_ids)

Sends-IsOnce :
    (y : ℕ) (r r' : Sdatp)
    → contains r.trans_data_ids y ≡ false
    → Sends y r r'
    → IsOnce r
    → IsOnce r'
Sends-IsOnce y r r' fresh s h x =
    rw (s.0 x, s.1)
      (elim (Bool-cases (y == x)) [
        | inl same ↦
            let e : y ≡ x = ground arith in
            let unsent : contains r.trans_data_ids x ≡ false =
              ap (contains r.trans_data_ids) (sym e) ∙ fresh in
            ground (arith, h x)
        | inr other ↦ ground (arith, h x)
      ])

module _ (routes : GenericRoutes) (draws : ℕ → ℕ) (in_cs : ℕ → Bool) where
  request-IsQuiet :
      (missed data_id : ℕ) (r : Sdatp) → IsQuiet r (request routes draws missed data_id r)
  unfolding request wait_for
  request-IsQuiet missed data_id r =
      send_if-rr (lookup_face routes.fib_entries 0) (missed ∷ []) (draws r.drawn)
        (record r { drawn = suc r.drawn })

  request_all-IsQuiet :
      (n missed data_id : ℕ) (r : Sdatp) → IsQuiet r (request_all routes draws n missed data_id r)
  unfolding request_all
  request_all-IsQuiet zero missed data_id r = ((λ x. refl), refl)
  request_all-IsQuiet (suc n) missed data_id r =
      let (a, b) = request-IsQuiet missed data_id r in
      let (c, e) =
        request_all-IsQuiet n (suc missed) data_id (request routes draws missed data_id r) in
      ((λ x. c x ∙ a x), e ∙ b)

  stop_waiting_for-IsQuiet :
      (data_id : ℕ) (r : Sdatp) → IsQuiet r (stop_waiting_for routes draws data_id r)
  unfolding stop_waiting_for
  stop_waiting_for-IsQuiet data_id r =
      elim (Option-cases (waiting_for routes draws r.retran_states r.states data_id)) [
        | inl none_there ↦ rw (none_there, stop_waiting_for) ((λ x. refl), refl)
        | inr (found, e) ↦ rw (e, stop_waiting_for) ((λ x. refl), refl)
      ]

  deliver-Sends : (data_id : ℕ) (r : Sdatp) → Sends data_id r (deliver routes draws data_id r)
  unfolding deliver
  deliver-Sends data_id r = (
    (λ x. omega (arith, times_sent-append x r.sent ((routes.app_face, data_msg data_id) ∷ []))),
    refl,
  )

  pass_on-Sends :
      (face data_id : ℕ) (r : Sdatp) → Sends data_id r (pass_on routes draws face data_id r)
  unfolding pass_on wait_for
  pass_on-Sends face data_id r =
      let r2 : Sdatp = record r {
        sent = r.sent ++ (face, data_msg data_id) ∷ [];
        trans_data_ids = data_id ∷ r.trans_data_ids;
        received_data_ids = data_id ∷ r.received_data_ids;
      } in
      let (q, kept) = request_all-IsQuiet (data_id - r.next_data_id) r.next_data_id data_id r2 in
      ((λ x. omega (arith, q x, times_sent-append x r.sent ((face, data_msg data_id) ∷ []))), kept)

  on_data-IsOnce : (data_id : ℕ) (r : Sdatp) → IsOnce r → IsOnce (on_data routes draws data_id r)
  unfolding on_data
  on_data-IsOnce data_id r h =
      let r1 = stop_waiting_for routes draws data_id r in
      let quiet = stop_waiting_for-IsQuiet data_id r in
      let h1 = quiet-IsOnce r r1 quiet h in
      elim (Bool-cases (contains r.trans_data_ids data_id)) [
        | inl known ↦ rw (known, on_data) h
        | inr fresh ↦
            let fresh1 : contains r1.trans_data_ids data_id ≡ false = rw quiet.1 fresh in
            elim (Option-cases (lookup_face routes.fib_entries 1)) [
              | inl last ↦
                  rw (fresh, last, on_data)
                    (Sends-IsOnce data_id r1 (deliver routes draws data_id r1) fresh1
                      (deliver-Sends data_id r1) h1)
              | inr (face, down) ↦
                  rw (fresh, down, on_data)
                    (Sends-IsOnce data_id r1 (pass_on routes draws face data_id r1) fresh1
                      (pass_on-Sends face data_id r1) h1)
            ]
      ]

  finish_request-IsQuiet : (uid : ℕ) (r : Sdatp) → IsQuiet r (finish_request routes draws uid r)
  unfolding finish_request
  finish_request-IsQuiet uid r = elim (Option-cases (lookup uid r.retran_states)) [
    | inl none_there ↦ rw (none_there, finish_request) ((λ x. refl), refl)
    | inr (p, e) ↦ rw (e, finish_request) ((λ x. refl), refl)
  ]

  recover-IsOnce :
      (lost : ℕ) (rest : List ℕ) (uid : ℕ) (r : Sdatp)
      → contains r.trans_data_ids lost ≡ false
      → IsOnce r
      → IsOnce (recover routes draws lost rest uid r)
  unfolding recover
  recover-IsOnce lost rest uid r fresh h = elim (Option-cases (lookup_face routes.fib_entries 1)) [
    | inl last ↦
        rw (last, recover)
          (λ x.
            ground (
              arith,
              h x,
              times_sent-append x r.sent ((routes.app_face, rd (lost ∷ rest) uid) ∷ []),
            ))
    | inr (face, down) ↦
        rw (down, recover)
          (Sends-IsOnce lost r
            (send face (data_msg lost) (record r { trans_data_ids = lost ∷ r.trans_data_ids }))
            fresh
            ((λ x. omega (arith, times_sent-append x r.sent ((face, data_msg lost) ∷ []))), refl) h)
  ]

  on_rd-IsOnce :
      (lost : ℕ) (rest : List ℕ) (uid : ℕ) (r : Sdatp)
      → IsOnce r
      → IsOnce (on_rd routes draws lost rest uid r)
  unfolding on_rd
  on_rd-IsOnce lost rest uid r h =
      let r1 = finish_request routes draws uid r in
      let h1 = quiet-IsOnce r r1 (finish_request-IsQuiet uid r) h in
      elim (Bool-cases (contains r1.trans_data_ids lost)) [
        | inl known ↦ rw (known, on_rd) h1
        | inr fresh ↦ rw (fresh, on_rd) (recover-IsOnce lost rest uid r1 fresh h1)
      ]

  on_rr-IsQuiet : (lost uid : ℕ) (r : Sdatp) → IsQuiet r (on_rr routes draws in_cs lost uid r)
  unfolding on_rr
  on_rr-IsQuiet lost uid r = elim (Bool-cases (in_cs lost)) [
    | inl stored ↦
        rw (stored, on_rr) (send_if-rd (lookup_face routes.fib_entries 1) (lost ∷ []) uid r)
    | inr missed ↦ rw (missed, on_rr) ((λ x. refl), refl)
  ]

  waiting_rd-IsQuiet :
      (p uid data_id : ℕ) (r : Sdatp) → IsQuiet r (waiting_rd routes draws p uid data_id r)
  unfolding waiting_rd
  waiting_rd-IsQuiet p uid data_id r = elim (Option-cases (lookup_face routes.fib_entries 1)) [
    | inl last ↦ rw (last, waiting_rd) ((λ x. refl), refl)
    | inr (face, down) ↦ elim (Option-cases (get_elem? r.states p)) [
      | inl none_there ↦ rw (down, none_there, waiting_rd) ((λ x. refl), refl)
      | inr (es, e) ↦ elim (Bool-cases (ltb (suc es.times) routes.max_csyn_times)) [
        | inl again ↦
            rw (down, e, again, waiting_rd)
              (send_if-rr (lookup_face routes.fib_entries 0) (data_id ∷ []) uid r)
        | inr stop ↦
            rw (down, e, stop, waiting_rd)
              (send_if-rr (lookup_face routes.fib_entries 0) (data_id ∷ []) uid r)
      ]
    ]
  ]

  run_event-IsQuiet : (event : ℕ) (r : Sdatp) → IsQuiet r (run_event routes draws event r)
  unfolding run_event
  run_event-IsQuiet event r = elim (Option-cases (lookup event r.events)) [
    | inl none_there ↦ rw (none_there, run_event) ((λ x. refl), refl)
    | inr (w, e) ↦
        rw (e, run_event)
          (waiting_rd-IsQuiet w.es w.uid w.data_id (record r { events = erase event r.events }))
  ]

  -- One step of the router: a message with an ID arrives, or a scheduled event runs.
  pub data Step : Sdatp → Sdatp → Type 0 where
    receive :
        {r r' : Sdatp} (m : SdatpMessage)
        → after_receive_sdatp_data routes draws in_cs m r ≡ some r'
        → Step r r'
    run : {r : Sdatp} (event : ℕ) → Step r (run_event routes draws event r)

  pub data Steps : Sdatp → Sdatp → Type 0 where
    start : {r : Sdatp} → Steps r r
    next : {r r' r'' : Sdatp} → Steps r r' → Step r' r'' → Steps r r''

  receive-IsOnce :
      (m : SdatpMessage) (r r' : Sdatp)
      → after_receive_sdatp_data routes draws in_cs m r ≡ some r'
      → IsOnce r
      → IsOnce r'
  unfolding after_receive_sdatp_data
  receive-IsOnce (data_msg data_id) r r' e h =
      rw⁻¹ (some-injective _ _ e) (on_data-IsOnce data_id r h)
  receive-IsOnce (rd [] uid) r r' e h = absurd (none-ne-some r' e)
  receive-IsOnce (rd (lost ∷ rest) uid) r r' e h =
      rw⁻¹ (some-injective _ _ e) (on_rd-IsOnce lost rest uid r h)
  receive-IsOnce (rr [] uid) r r' e h = absurd (none-ne-some r' e)
  receive-IsOnce (rr (lost ∷ rest) uid) r r' e h =
      rw⁻¹ (some-injective _ _ e)
        (quiet-IsOnce r (on_rr routes draws in_cs lost uid r) (on_rr-IsQuiet lost uid r) h)

  Steps-IsOnce : {r r' : Sdatp} → Steps r r' → IsOnce r → IsOnce r'
  Steps-IsOnce start h = h
  Steps-IsOnce (next {r} {r'} {r''} before (receive m e)) h =
      receive-IsOnce m r' r'' e (Steps-IsOnce before h)
  Steps-IsOnce (next {r} {r'} {r''} before (run event)) h =
      quiet-IsOnce r' (run_event routes draws event r') (run_event-IsQuiet event r')
        (Steps-IsOnce before h)

-- A router that starts with nothing sent has sent each data ID at most once after any sequence of
-- steps, in which messages with IDs arrive and scheduled events run.
pub times_sent-le_one :
    (routes : GenericRoutes) (draws : ℕ → ℕ) (in_cs : ℕ → Bool) (x : ℕ) (r r' : Sdatp)
    → r.sent ≡ []
    → Steps routes draws in_cs r r'
    → times_sent x r'.sent ≤ 1
times_sent-le_one routes draws in_cs x r r' new steps =
    let h = Steps-IsOnce routes draws in_cs steps (λ y. rw new (omega arith)) x in
    elim (Bool-cases (contains r'.trans_data_ids x)) [
      | inl known ↦ ground (arith, h)
      | inr fresh ↦ ground (arith, h)
    ]
