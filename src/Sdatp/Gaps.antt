-- ===== src/Sdatp/Gaps.antt =====
-- What a router requests when data IDs were missed.
use tafrr.Prelude.{
  ℕ, zero, suc, ◌-◌, ◌≡◌, refl, ap, sym, ◌∙◌, false, some, List, [], ◌∷◌, ◌++◌, contains,
  Option-cases, inl, inr,
}
use mathlib.Core.List.{append_assoc, append-nil}
use tafrr.Sdatp.{
  GenericRoutes, SdatpMessage, Sdatp, lookup_face, wait_for, request, request_all, stop_waiting_for,
  waiting_for, pass_on, on_data,
}
use tafrr.Sdatp.SdatpMessage.{data_msg, rd, rr}

-- The IDs that were requested, in order.
abbrev pub requested : List (ℕ × SdatpMessage) → List ℕ
requested [] = []
requested ((face, data_msg y) ∷ rest) = requested rest
requested ((face, rd _ _) ∷ rest) = requested rest
requested ((face, rr ids _) ∷ rest) = ids ++ requested rest

-- `n` numbers from `k`.
abbrev pub numbers : ℕ → ℕ → List ℕ
numbers k zero = []
numbers k (suc n) = k ∷ numbers (suc k) n

requested-append :
    (xs ys : List (ℕ × SdatpMessage)) → requested (xs ++ ys) ≡ requested xs ++ requested ys
requested-append [] ys = refl
requested-append ((face, data_msg y) ∷ xs) ys = requested-append xs ys
requested-append ((face, rd _ _) ∷ xs) ys = requested-append xs ys
requested-append ((face, rr ids _) ∷ xs) ys =
    ap (λ l. ids ++ l) (requested-append xs ys)
    ∙ sym (append_assoc ids (requested xs) (requested ys))

module _ (routes : GenericRoutes) (draws : ℕ → ℕ) (up : ℕ)
    (leads_up : lookup_face routes.fib_entries 0 ≡ some up) where
  request-requested :
      (missed data_id : ℕ) (r : Sdatp)
      → requested (request routes draws missed data_id r).sent ≡ requested r.sent ++ missed ∷ []
  unfolding request wait_for
  request-requested missed data_id r = rw (leads_up, request) (requested-append r.sent _)

  request_all-requested :
      (n missed data_id : ℕ) (r : Sdatp)
      → requested (request_all routes draws n missed data_id r).sent
        ≡ requested r.sent ++ numbers missed n
  unfolding request_all
  request_all-requested zero missed data_id r = sym (append-nil (requested r.sent))
  request_all-requested (suc n) missed data_id r =
      request_all-requested n (suc missed) data_id (request routes draws missed data_id r)
      ∙ ap (λ l. l ++ numbers (suc missed) n) (request-requested missed data_id r)
      ∙ append_assoc (requested r.sent) (missed ∷ []) (numbers (suc missed) n)

  stop_waiting_for-sent :
      (data_id : ℕ) (r : Sdatp)
      → ((stop_waiting_for routes draws data_id r).sent ≡ r.sent)
        × ((stop_waiting_for routes draws data_id r).next_data_id ≡ r.next_data_id)
  unfolding stop_waiting_for
  stop_waiting_for-sent data_id r =
      elim (Option-cases (waiting_for routes draws r.retran_states r.states data_id)) [
        | inl none_there ↦ rw (none_there, stop_waiting_for) (refl, refl)
        | inr (found, e) ↦ rw (e, stop_waiting_for) (refl, refl)
      ]

  pass_on-requested :
      (face data_id : ℕ) (r : Sdatp)
      → (requested (pass_on routes draws face data_id r).sent
          ≡ requested r.sent ++ numbers r.next_data_id (data_id - r.next_data_id))
        × ((pass_on routes draws face data_id r).next_data_id ≡ suc data_id)
  unfolding pass_on wait_for
  pass_on-requested face data_id r =
      let r2 : Sdatp = record r {
        sent = r.sent ++ (face, data_msg data_id) ∷ [];
        trans_data_ids = data_id ∷ r.trans_data_ids;
        received_data_ids = data_id ∷ r.received_data_ids;
      } in
      (
        request_all-requested (data_id - r.next_data_id) r.next_data_id data_id r2
            ∙ ap (λ l. l ++ numbers r.next_data_id (data_id - r.next_data_id))
                (requested-append r.sent ((face, data_msg data_id) ∷ [])
                  ∙ append-nil (requested r.sent)),
        refl,
      )

-- At a router with next hops in both directions, a data ID that was not sent on before makes it
-- request, in order, exactly the IDs from the one after the last data up to this one, and expect
-- the next ID.
pub on_data-requested :
    (routes : GenericRoutes) (draws : ℕ → ℕ) (up down data_id : ℕ) (r : Sdatp)
    → lookup_face routes.fib_entries 0 ≡ some up
    → lookup_face routes.fib_entries 1 ≡ some down
    → contains r.trans_data_ids data_id ≡ false
    → (requested (on_data routes draws data_id r).sent
        ≡ requested r.sent ++ numbers r.next_data_id (data_id - r.next_data_id))
      × ((on_data routes draws data_id r).next_data_id ≡ suc data_id)
unfolding on_data
on_data-requested routes draws up down data_id r leads_up leads_down fresh =
    let (a, b) =
      pass_on-requested routes draws up leads_up down data_id
        (stop_waiting_for routes draws data_id r) in
    let (c, e) = stop_waiting_for-sent routes draws up leads_up data_id r in
    let r1 = stop_waiting_for routes draws data_id r in
    let same : requested r1.sent ++ numbers r1.next_data_id (data_id - r1.next_data_id)
        ≡ requested r.sent ++ numbers r.next_data_id (data_id - r.next_data_id) =
      rw (c, e) refl in
    rw (fresh, leads_down, on_data) (a ∙ same, b)
