-- ===== src/R2t/Bound.antt =====
-- R2tStrategy: how often a router sends one packet.
use mathlib.Core.Path.{subst}
use tafrr.Prelude.{
  ℕ, ◌+◌, ◌%◌, ◌≤◌, ◌<◌, ◌≡◌, refl, inl, inr, ◌∙◌, sym, Bool, false, none, some, List, [], ◌∷◌,
  arith, ◌==◌, leb, contains, Bool-cases, Option-cases,
}
use tafrr.Prelude.Dict.{Dict, lookup, insert, erase, lookup-insert, lookup-erase}
use tafrr.R2t.{
  uint32_mod, GenericRoutes, CsynEventState, R2tStrategy, Action, send_data,
  lookup_forwarding_entry, new_csyn, cack_up, receive_data, receive_cack, resend, waiting_cack,
  fire, Event, data_comes, cack_comes, timer, step, run,
}
use tafrr.R2t.Counted.{
  sends, sends-append, Counted, Keyed, Bounded, sends-cack_up, Keyed-insert, new_csyn-Counted,
  new_csyn-id, resend-Counted, Counted-le, After, Bounded-same,
}

module _ (routes : GenericRoutes) (in_cs : ℕ → Bool) (k : ℕ)
    (small : routes.max_csyn_times + 1 < uint32_mod) where
  abbrev Held : ℕ → R2tStrategy → Type 0
  Held = Bounded routes in_cs k small

  -- A new packet leaves by `face`, with the states `csyn`.
  pub first_send :
      (n id face : ℕ) (s : R2tStrategy) (csyn : Dict CsynEventState)
      → Held n s
      → contains s.trans_data_ids id ≡ false
      → Keyed routes in_cs k small csyn
      → (id ≡ k
          → (es : CsynEventState) → lookup k csyn ≡ some es
          → Counted routes in_cs k small 1 es)
      → ((id == k) ≡ false → lookup k csyn ≡ lookup k s.csyn_states)
      → Held
          (n + sends k (send_data face id ∷ cack_up routes in_cs id))
          (record { trans_data_ids = id ∷ s.trans_data_ids; csyn_states = csyn })
  first_send n id face s csyn h new keyed c1 c2 = elim (Bool-cases (id == k)) [
    | inl mine ↦
        let same : id ≡ k = ground arith in
        let (zero_sent, no_state) = h.fresh (rw same at new) in
        Bounded-same routes in_cs k small _ 1 _
          (ground (arith, sends-cack_up routes in_cs k small id, zero_sent, mine))
          (record {
            fresh = λ p. absurd (ground (arith, mine));
            keyed = keyed;
            counted = c1 same;
            total = omega arith;
          })
    | inr other ↦
        Bounded-same routes in_cs k small _ n _
          (ground (arith, sends-cack_up routes in_cs k small id, other))
          (record {
            fresh = λ p.
                let old : contains s.trans_data_ids k ≡ false = ground (arith, other) in
                ((h.fresh old).0, c2 other ∙ (h.fresh old).1);
            keyed = keyed;
            counted = λ es p. h.counted es (sym (c2 other) ∙ p);
            total = h.total;
          })
  ]

  pub receive_data-Bounded :
      (now number n : ℕ) (s : R2tStrategy)
      → Held n s
      → After routes in_cs k small n (receive_data routes in_cs now number s)
  unfolding receive_data
  receive_data-Bounded now number n s h =
      let id = number % uint32_mod in
      let csyn = new_csyn routes in_cs now id in
      elim (Bool-cases (contains s.trans_data_ids id)) [
        | inl old ↦
            rw (old, receive_data) (Bounded-same routes in_cs k small (n + 0) n s (omega arith) h)
        | inr new ↦ elim (Option-cases (lookup_forwarding_entry routes in_cs 1)) [
          | inl up ↦ elim (Option-cases routes.app_face) [
            | inl off ↦ rw (new, receive_data, up) (simp (off) tt)
            | inr (face, on) ↦
                rw (new, receive_data, up)
                  (simp (on) (
                    first_send n id face s s.csyn_states h new h.keyed
                      (λ same es p.
                        let gone : lookup k s.csyn_states ≡ none = (h.fresh (rw same at new)).1 in
                        absurd (ground (arith, gone, p)))
                      (λ other. refl)))
          ]
          | inr (face, up) ↦
              rw (new, receive_data, up)
                (first_send n id face s (insert id csyn s.csyn_states) h new
                  (Keyed-insert routes in_cs k small csyn s.csyn_states id
                    (new_csyn-id routes in_cs k small now id) h.keyed)
                  (λ same es p.
                    let e : csyn ≡ es =
                      ground (arith, lookup-insert k id csyn s.csyn_states, same) in
                    let e' : new_csyn routes in_cs now k ≡ es = rw same at e in
                    subst (λ (x : CsynEventState). Counted routes in_cs k small 1 x) e'
                      (new_csyn-Counted routes in_cs k small now 1 (omega arith)))
                  (λ other. ground (arith, lookup-insert k id csyn s.csyn_states, other)))
        ]
      ]

  pub receive_cack-Bounded :
      (number n : ℕ) (s : R2tStrategy)
      → Held n s
      → After routes in_cs k small n (receive_cack routes in_cs number s)
  unfolding receive_cack
  receive_cack-Bounded number n s h =
      let id = number % uint32_mod in
      let gone : (j : ℕ) (es : CsynEventState)
          → lookup j (erase id s.csyn_states) ≡ some es
          → lookup j s.csyn_states ≡ some es =
        λ j es p. ground (arith, lookup-erase j id s.csyn_states) in
      let rest : Held (n + 0) (record s { csyn_states = erase id s.csyn_states }) = record {
        fresh = λ p. (
          omega (arith, (h.fresh p).0),
          ground (arith, lookup-erase k id s.csyn_states, (h.fresh p).1),
        );
        keyed = λ j es p. h.keyed j es (gone j es p);
        counted = λ es p.
            Counted-le routes in_cs k small (n + 0) n es (omega arith) (h.counted es (gone k es p));
        total = omega (arith, h.total);
      } in
      elim (Bool-cases (leb 1 routes.max_csyn_times)) [
        | inl waits ↦ elim (Option-cases (lookup id s.csyn_states)) [
          | inl null ↦ rw (waits, receive_cack, null) tt
          | inr (es, found) ↦ rw (waits, receive_cack, found) rest
        ]
        | inr never ↦ rw (never, receive_cack) rest
      ]

  -- A state of `id` in place of another, after which `m` sends are counted.
  replaced :
      (n m id : ℕ) (es es' : CsynEventState) (s : R2tStrategy)
      → Held n s
      → lookup id s.csyn_states ≡ some es
      → es'.data_id ≡ es.data_id
      → ((id == k) ≡ false → m ≡ n)
      → (id ≡ k → Counted routes in_cs k small m es' × (m ≤ 1 + routes.max_csyn_times))
      → Held m (record s { csyn_states = insert es.data_id es' s.csyn_states })
  replaced n m id es es' s h found same_id unsent sent =
      let key : es.data_id ≡ id = h.keyed id es found in
      let keyed = Keyed-insert routes in_cs k small es' s.csyn_states es.data_id same_id h.keyed in
      let law = lookup-insert k es.data_id es' s.csyn_states in
      elim (Bool-cases (id == k)) [
        | inl mine ↦
            let at_k : id ≡ k = ground arith in
            record {
              fresh = λ p.
                  let gone : lookup k s.csyn_states ≡ none = (h.fresh p).1 in
                  absurd (ground (arith, gone, found, at_k));
              keyed = keyed;
              counted = λ x p.
                  let e : es' ≡ x = ground (arith, law, key, at_k, p) in
                  subst (λ (x : CsynEventState). Counted routes in_cs k small m x) e (sent at_k).0;
              total = (sent at_k).1;
            }
        | inr other ↦ record {
          fresh = λ p. (
            omega (arith, (h.fresh p).0, unsent other),
            ground (arith, law, key, other, (h.fresh p).1),
          );
          keyed = keyed;
          counted = λ x p.
              Counted-le routes in_cs k small m n x (omega (arith, unsent other))
                (h.counted x (ground (arith, law, key, other, p)));
          total = omega (arith, h.total, unsent other);
        }
      ]

  waiting_cack-Bounded :
      (now id n due : ℕ) (es : CsynEventState) (s : R2tStrategy)
      → Held n s
      → lookup id s.csyn_states ≡ some es
      → es.retran_event_id ≡ some due
      → After routes in_cs k small n (waiting_cack routes in_cs now es s)
  unfolding waiting_cack
  waiting_cack-Bounded now id n due es s h found pending =
      let key : es.data_id ≡ id = h.keyed id es found in
      let mine : id ≡ k → Counted routes in_cs k small n es =
        λ at_k. h.counted es (rw at_k at found) in
      elim (Option-cases (lookup_forwarding_entry routes in_cs 1)) [
        | inl up ↦
            rw (up, waiting_cack)
              (replaced n (n + 0) id es (record es { retran_event_id = none }) s h found refl
                (λ other. omega arith) (λ at_k. ((λ d e. cc), omega (arith, h.total))))
        | inr (face, up) ↦ elim (Bool-cases (in_cs es.data_id)) [
          | inl kept ↦
              rw (up, waiting_cack, kept)
                (replaced n _ id es (resend routes in_cs now es) s h found refl
                  (λ other. ground (arith, key, other))
                  (λ at_k.
                    let (le, le') = mine at_k due pending in
                    let once : n + sends k (send_data face es.data_id ∷ []) ≡ n + 1 =
                      ground (arith, key, at_k) in
                    (
                      Counted-le routes in_cs k small _ (n + 1) (resend routes in_cs now es)
                          (omega (arith, once))
                          (resend-Counted routes in_cs k small now n es le le'),
                      omega (arith, once, le, le'),
                    )))
          | inr lost ↦ rw (up, waiting_cack, lost) tt
        ]
      ]

  fire-Bounded :
      (now id n : ℕ) (s : R2tStrategy)
      → Held n s
      → After routes in_cs k small n (fire routes in_cs now id s)
  unfolding fire
  fire-Bounded now id n s h = elim (Option-cases (lookup id s.csyn_states)) [
    | inl null ↦ rw (null, fire) (Bounded-same routes in_cs k small (n + 0) n s (omega arith) h)
    | inr (es, found) ↦ elim (Option-cases es.retran_event_id) [
      | inl idle ↦
          rw (found, fire, idle) (Bounded-same routes in_cs k small (n + 0) n s (omega arith) h)
      | inr (due, pending) ↦
          rw (found, fire) (simp (pending) (waiting_cack-Bounded now id n due es s h found pending))
    ]
  ]

  step-Bounded :
      (n : ℕ) (s : R2tStrategy) (e : Event)
      → Held n s
      → After routes in_cs k small n (step routes in_cs s e)
  unfolding step
  step-Bounded n s (data_comes now number) h = receive_data-Bounded now number n s h
  step-Bounded n s (cack_comes number) h = receive_cack-Bounded number n s h
  step-Bounded n s (timer now id) h = fire-Bounded now id n s h

  run-Bounded :
      (n : ℕ) (s : R2tStrategy) (es : List Event)
      → Held n s
      → After routes in_cs k small n (run routes in_cs s es)
  unfolding run
  run-Bounded n s [] h = Bounded-same routes in_cs k small (n + 0) n s (omega arith) h
  run-Bounded n s (e ∷ es) h = elim (Option-cases (step routes in_cs s e)) [
    | inl undefined ↦ rw (undefined) tt
    | inr ((s1, out1), e1) ↦
        let h1 : After routes in_cs k small n (some (s1, out1)) = rw e1 at (step-Bounded n s e h) in
        elim (Option-cases (run routes in_cs s1 es)) [
          | inl undefined ↦ rw (e1, undefined) tt
          | inr ((s2, out2), e2) ↦
              rw (e1, e2)
                (Bounded-same routes in_cs k small _ (n + sends k out1 + sends k out2) s2
                  (omega (arith, sends-append k out1 out2))
                  (rw e2 at (run-Bounded (n + sends k out1) s1 es h1)))
        ]
  ]

  -- With fewer than 2^32 - 1 retransmissions configured, a router that starts with no state sends a
  -- packet at most once and then once for each retransmission, over every sequence of packets, CACKs
  -- and timers that is defined, whatever the other packets are.
  pub run-sends_le :
      (es : List Event) (s : R2tStrategy) (out : List Action)
      → run routes in_cs (record { trans_data_ids = []; csyn_states = [] }) es ≡ some (s, out)
      → sends k out ≤ 1 + routes.max_csyn_times
  run-sends_le es s out e =
      let start : Held 0 (record { trans_data_ids = []; csyn_states = [] }) = record {
        fresh = λ p. (refl, refl);
        keyed = λ j es p. cc;
        counted = λ es p. cc;
        total = omega arith;
      } in
      let h : Held (0 + sends k out) s = rw e at (run-Bounded 0 _ es start) in
      omega (arith, h.total)
