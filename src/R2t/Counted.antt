-- ===== src/R2t/Counted.antt =====
-- R2tStrategy: the count of a packet's sends in its CsynEventState.
use tafrr.Prelude.{
  ℕ, ◌+◌, ◌≤◌, ◌<◌, ◌≡◌, refl, inl, inr, ◌∙◌, Bool, false, none, some, List, [], ◌∷◌, ◌++◌, arith,
  ◌==◌, if◌then◌else◌, contains, Bool-cases, Option-cases,
}
use tafrr.Prelude.Dict.{Dict, lookup, insert, lookup-insert}
use tafrr.R2t.{
  uint32_mod, GenericRoutes, CsynEventState, R2tStrategy, Action, send_data, send_cack,
  send_interest, reject_pending_interest, Outcome, lookup_forwarding_entry, new_csyn, cack_up,
  resend,
}

-- How often the packet `k` leaves among the actions.
abbrev pub sends : ℕ → List Action → ℕ
sends k [] = 0
sends k (send_data face id ∷ out) = (if id == k then 1 else 0) + sends k out
sends k (send_cack face id ∷ out) = sends k out
sends k (send_interest face ∷ out) = sends k out
sends k (reject_pending_interest ∷ out) = sends k out

pub sends-append : (k : ℕ) (xs ys : List Action) → sends k (xs ++ ys) ≡ sends k xs + sends k ys
sends-append k [] ys = omega arith
sends-append k (send_data face id ∷ xs) ys = omega (arith, sends-append k xs ys)
sends-append k (send_cack face id ∷ xs) ys = sends-append k xs ys
sends-append k (send_interest face ∷ xs) ys = sends-append k xs ys
sends-append k (reject_pending_interest ∷ xs) ys = sends-append k xs ys

module _ (routes : GenericRoutes) (in_cs : ℕ → Bool) (k : ℕ)
    (small : routes.max_csyn_times + 1 < uint32_mod) where
  -- A state that may send `k` again has counted all its sends.
  abbrev pub Counted : ℕ → CsynEventState → Type 0
  Counted n es =
      (due : ℕ)
      → es.retran_event_id ≡ some due
      → (n ≤ es.times) × (es.times ≤ routes.max_csyn_times)

  abbrev pub Keyed : Dict CsynEventState → Type 0
  Keyed csyn = (j : ℕ) (es : CsynEventState) → lookup j csyn ≡ some es → es.data_id ≡ j

  -- After `n` sends of `k`.
  pub record Bounded (n : ℕ) (s : R2tStrategy) : Type 0 where
    pub fresh : contains s.trans_data_ids k ≡ false → (n ≡ 0) × (lookup k s.csyn_states ≡ none)
    pub keyed : Keyed s.csyn_states
    pub counted : (es : CsynEventState) → lookup k s.csyn_states ≡ some es → Counted n es
    pub total : n ≤ 1 + routes.max_csyn_times

  pub sends-cack_up : (id : ℕ) → sends k (cack_up routes in_cs id) ≡ 0
  unfolding cack_up
  sends-cack_up id = elim (Option-cases (lookup_forwarding_entry routes in_cs 0)) [
    | inl e ↦ rw (e, cack_up) refl
    | inr (face, e) ↦ rw (e, cack_up) refl
  ]

  pub Keyed-insert :
      (es : CsynEventState) (csyn : Dict CsynEventState) (id : ℕ)
      → es.data_id ≡ id
      → Keyed csyn
      → Keyed (insert id es csyn)
  Keyed-insert es csyn id e h j es' p = elim (Bool-cases (j == id)) [
    | inl same ↦
        let found : es ≡ es' = ground (arith, lookup-insert j id es csyn, same) in
        let at_j : id ≡ j = ground arith in rw (found) at (e ∙ at_j)
    | inr other ↦ h j es' (ground (arith, lookup-insert j id es csyn, other))
  ]

  pub new_csyn-Counted : (now n : ℕ) → n ≤ 1 → Counted n (new_csyn routes in_cs now k)
  unfolding new_csyn
  new_csyn-Counted now n le due e = ground arith

  pub new_csyn-id : (now id : ℕ) → (new_csyn routes in_cs now id).data_id ≡ id
  unfolding new_csyn
  new_csyn-id now id = refl

  pub resend-Counted :
      (now n : ℕ) (es : CsynEventState)
      → n ≤ es.times
      → es.times ≤ routes.max_csyn_times
      → Counted (n + 1) (resend routes in_cs now es)
  resend-Counted now n es le le' due h = ground arith

  -- Fewer sends are counted as well.
  pub Counted-le : (m n : ℕ) (es : CsynEventState) → m ≤ n → Counted n es → Counted m es
  Counted-le m n es le c due q = (omega (arith, le, (c due q).0), (c due q).1)

  -- What holds after an operation that is defined.
  abbrev pub After : ℕ → Outcome → Type 0
  After n none = Unit
  After n (some (s, out)) = Bounded (n + sends k out) s

  pub Bounded-same : (m n : ℕ) (s : R2tStrategy) → m ≡ n → Bounded n s → Bounded m s
  Bounded-same m n s e h = record {
    fresh = λ p. (omega (arith, (h.fresh p).0, e), (h.fresh p).1);
    keyed = h.keyed;
    counted = λ es p. Counted-le m n es (omega (arith, e)) (h.counted es p);
    total = omega (arith, h.total, e);
  }
