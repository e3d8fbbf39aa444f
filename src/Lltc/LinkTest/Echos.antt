-- ===== src/Lltc/LinkTest/Echos.antt =====
-- A test from its echos to the statuses: with an answer a face is normal, without one it has failed.
use mathlib.Core.Option.{some-injective}
use tafrr.Prelude.{
  ℕ, zero, suc, ◌+◌, ◌≤◌, ◌<◌, ◌≡◌, refl, ◌≢◌, inl, inr, Bool, true, false, ◌||◌, some, List, [],
  ◌∷◌, ◌++◌, ◌==◌, All, All-append, All-map, arith, get_elem?, length, Bool-cases, contains,
  ==_refl, sym, ◌∙◌,
}
use tafrr.Prelude.Dict.{Dict, has, insert, get_or, get_or-insert}
use tafrr.Lltc.{
  LltcFaceEntry, EchoMessageState, Router, face_status_normal, face_status_failure,
  echo_msg_status_waiting,
}
use tafrr.Lltc.LinkTest.{
  blank_echo, answer, on_receive_back, is_tested, send_echo, broadcast_from, broadcast_echos,
  update_face_stats,
}
use tafrr.Lltc.LinkTest.Statuses.{echoed, answered, update_face_stats-entry}

abbrev pub test_ids : {F : Type 0} → ℕ → Router F → List ℕ
test_ids test r = get_or test [] r.lms.echo_ids_in_link_test

answered-insert :
    (echos : Dict EchoMessageState) (id now : ℕ) (ids : List ℕ) (fe : ℕ)
    → contains ids id ≡ true
    → (get_or id blank_echo echos).fe ≡ fe
    → answered (insert id (answer now (get_or id blank_echo echos)) echos) ids fe ≡ true
unfolding answer
answered-insert echos id now [] fe h e = ground arith
answered-insert echos id now (j ∷ ids) fe h e =
    let at = get_or-insert j id blank_echo (answer now (get_or id blank_echo echos)) echos in
    elim (Bool-cases (j == id)) [
      | inl same ↦ rw (at, same, e) (ground arith)
      | inr other ↦
          rw (at, other, answered-insert echos id now ids fe (ground arith) e) (ground arith)
    ]

-- Once a Back has come for a waiting echo of the test that went out on the face entry at place i,
-- which leads to a router, the update of the statuses leaves that entry normal.
pub on_receive_back-update_face_stats :
    {F : Type 0} (now later test echo_id i n : ℕ) (r : Router F) (entry : LltcFaceEntry)
    → has echo_id r.lms.echo_msg_state_map ≡ true
    → (get_or echo_id blank_echo r.lms.echo_msg_state_map).fe ≡ suc i
    → contains (test_ids test r) echo_id ≡ true
    → get_elem? r.coll.face_entries i ≡ some entry
    → entry.remote_lltc_node_id ≡ some n
    → get_elem? (update_face_stats later test (on_receive_back now echo_id r)).coll.face_entries i
      ≡ some (record entry { status = face_status_normal; last_check_time = later })
unfolding on_receive_back
on_receive_back-update_face_stats now later test echo_id i n r entry known out listed at leads =
    let hit =
      answered-insert r.lms.echo_msg_state_map echo_id now (test_ids test r) (suc i) listed out in
    rw
      (
        update_face_stats-entry later test i (on_receive_back now echo_id r) entry (rw known at),
        leads,
        known,
        hit,
      )
      refl

-- The echos of the test wait for their answers, and have drawn numbers.
abbrev IsOpen : {F : Type 0} → (ℕ → ℕ) → ℕ → Router F → Type 0
IsOpen draws test r =
    All (λ id. (get_or id blank_echo r.lms.echo_msg_state_map).status ≡ echo_msg_status_waiting)
      (test_ids test r)
    × All (λ id. (j : ℕ) × (j < r.drawn) × (id ≡ draws j)) (test_ids test r)

-- The first `n` numbers drawn are different.
abbrev pub AreDistinct : (ℕ → ℕ) → ℕ → Type 0
AreDistinct draws n = (i j : ℕ) → i < n → j < n → draws i ≡ draws j → i ≡ j

waiting-answered :
    (echos : Dict EchoMessageState) (ids : List ℕ) (fe : ℕ)
    → All (λ id. (get_or id blank_echo echos).status ≡ echo_msg_status_waiting) ids
    → answered echos ids fe ≡ false
waiting-answered echos [] fe h = refl
waiting-answered echos (id ∷ ids) fe h = rw (h.0, waiting-answered echos ids fe h.1) (ground arith)

echoed-append :
    (echos : Dict EchoMessageState) (ids : List ℕ) (id fe : ℕ)
    → echoed echos (ids ++ id ∷ []) fe
      ≡ (echoed echos ids fe || (get_or id blank_echo echos).fe == fe)
echoed-append echos [] id fe = ground arith
echoed-append echos (j ∷ ids) id fe = ground (arith, echoed-append echos ids id fe)

echoed-insert :
    (echos : Dict EchoMessageState) (v : EchoMessageState) (ids : List ℕ) (id fe : ℕ)
    → All (λ j. j ≢ id) ids
    → echoed (insert id v echos) ids fe ≡ echoed echos ids fe
echoed-insert echos v [] id fe h = refl
echoed-insert echos v (j ∷ ids) id fe h =
    ground (arith, get_or-insert j id blank_echo v echos, echoed-insert echos v ids id fe h.1, h.0)

-- The echo that `send_echo` notes.
abbrev noted : ℕ → ℕ → EchoMessageState
noted now fe = record { requested_time = now; rtt = 0; fe = fe; status = echo_msg_status_waiting }

all_from :
    (is_full : Bool) (face_id : ℕ) (has_echo : ℕ → Bool) (fe : ℕ) (e : LltcFaceEntry)
    (entries : List LltcFaceEntry)
    → (is_tested is_full face_id e ≡ true → has_echo fe ≡ true)
    → ((i : ℕ) (entry : LltcFaceEntry)
        → get_elem? entries i ≡ some entry
        → is_tested is_full face_id entry ≡ true
        → has_echo (suc fe + i) ≡ true)
    → (i : ℕ) (entry : LltcFaceEntry) → get_elem? (e ∷ entries) i ≡ some entry
    → is_tested is_full face_id entry ≡ true
    → has_echo (fe + i) ≡ true
all_from is_full face_id has_echo fe e entries first later zero entry at t =
    let same : e ≡ entry = some-injective e entry at in
    let place : fe + zero ≡ fe = omega arith in rw place (first (rw same t))
all_from is_full face_id has_echo fe e entries first later (suc i) entry at t =
    let place : fe + suc i ≡ suc fe + i = omega arith in rw place (later i entry at t)

module _ {F : Type 0} (draws : ℕ → ℕ) (now test : ℕ) where
  test_ids-send_echo :
      (fe : ℕ) (entry : LltcFaceEntry) (r : Router F)
      → test_ids test (send_echo draws now test fe entry r) ≡ test_ids test r ++ draws r.drawn ∷ []
  unfolding send_echo
  test_ids-send_echo fe entry r =
      rw
        (
          get_or-insert test test [] (test_ids test r ++ draws r.drawn ∷ [])
              r.lms.echo_ids_in_link_test,
          ==_refl test,
        )
        refl

  send_echo-IsOpen :
      (fe : ℕ) (entry : LltcFaceEntry) (r : Router F)
      → IsOpen draws test r
      → IsOpen draws test (send_echo draws now test fe entry r)
  unfolding send_echo
  send_echo-IsOpen fe entry r h =
      let at = λ (j : ℕ).
        get_or-insert j (draws r.drawn) blank_echo (noted now fe) r.lms.echo_msg_state_map in
      rw (test_ids-send_echo fe entry r) (
        All-append _ (test_ids test r) _
            (All-map _ _ (λ j e. ground (arith, at j)) (test_ids test r) h.0)
            (ground (arith, at (draws r.drawn)), tt),
        All-append _ (test_ids test r) _
            (All-map _ _ (λ j e. (e.0, omega (arith, e.1), e.2)) (test_ids test r) h.1)
            ((r.drawn, omega arith, refl), tt),
      )

  send_echo-echoed :
      (n fe p : ℕ) (entry : LltcFaceEntry) (r : Router F)
      → AreDistinct draws n
      → r.drawn < n
      → IsOpen draws test r
      → echoed
          (send_echo draws now test fe entry r).lms.echo_msg_state_map
          (test_ids test (send_echo draws now test fe entry r))
          p
        ≡ (echoed r.lms.echo_msg_state_map (test_ids test r) p || fe == p)
  unfolding send_echo
  send_echo-echoed n fe p entry r distinct room h =
      let id = draws r.drawn in
      let echos = r.lms.echo_msg_state_map in
      let fresh =
        All-map _ (λ j. j ≢ id)
          (λ j e same.
            ground (arith, distinct e.0 r.drawn (omega (arith, e.1)) room (sym e.2 ∙ same)))
          (test_ids test r) h.1 in
      rw
        (
          test_ids-send_echo fe entry r,
          echoed-append (insert id (noted now fe) echos) (test_ids test r) id p,
          echoed-insert echos (noted now fe) (test_ids test r) id p fresh,
          get_or-insert id id blank_echo (noted now fe) echos,
          ==_refl id,
        )
        refl

  send_echo-drawn :
      (fe : ℕ) (entry : LltcFaceEntry) (r : Router F)
      → (send_echo draws now test fe entry r).drawn ≡ suc r.drawn
  unfolding send_echo
  send_echo-drawn fe entry r = refl

  send_echo-face_entries :
      (fe : ℕ) (entry : LltcFaceEntry) (r : Router F)
      → (send_echo draws now test fe entry r).coll.face_entries ≡ r.coll.face_entries
  unfolding send_echo
  send_echo-face_entries fe entry r = refl

  module _ (is_full : Bool) (face_id n : ℕ) (distinct : AreDistinct draws n) where
    -- The echos still wait in `s`, those noted in `r` count as before, and every tested entry has
    -- one.
    abbrev Covers : ℕ → List LltcFaceEntry → Router F → Router F → Type 0
    Covers fe entries r s =
        IsOpen draws test s
        × (s.coll.face_entries ≡ r.coll.face_entries)
        × ((p : ℕ)
            → echoed r.lms.echo_msg_state_map (test_ids test r) p ≡ true
            → echoed s.lms.echo_msg_state_map (test_ids test s) p ≡ true)
        × ((i : ℕ) (entry : LltcFaceEntry)
            → get_elem? entries i ≡ some entry
            → is_tested is_full face_id entry ≡ true
            → echoed s.lms.echo_msg_state_map (test_ids test s) (fe + i) ≡ true)

    broadcast_from-Covers :
        (fe : ℕ) (entries : List LltcFaceEntry) (r : Router F)
        → r.drawn + length entries ≤ n
        → IsOpen draws test r
        → Covers fe entries r (broadcast_from draws now test is_full face_id fe entries r)
    unfolding broadcast_from
    broadcast_from-Covers fe [] r room h = (h, refl, (λ p e. e), λ i entry at. ground arith)
    broadcast_from-Covers fe (e ∷ entries) r room h =
        elim (Bool-cases (is_tested is_full face_id e)) [
          | inl tested ↦
              let sent = send_echo draws now test fe e r in
              let drawn : sent.drawn ≡ suc r.drawn = send_echo-drawn fe e r in
              let (a, b, c, d) =
                broadcast_from-Covers (suc fe) entries sent (omega (arith, drawn))
                  (send_echo-IsOpen fe e r h) in
              let one = λ (p : ℕ). send_echo-echoed n fe p e r distinct (omega arith) h in
              let step : broadcast_from draws now test is_full face_id fe (e ∷ entries) r
                  ≡ broadcast_from draws now test is_full face_id (suc fe) entries sent =
                rw tested refl in
              rw step (
                a,
                b ∙ send_echo-face_entries fe e r,
                (λ p old. c p (rw (one p, old) refl)),
                all_from is_full face_id
                    (λ p.
                      echoed
                        (broadcast_from draws now test is_full face_id (suc fe) entries
                          sent).lms.echo_msg_state_map
                        (test_ids test
                          (broadcast_from draws now test is_full face_id (suc fe) entries sent))
                        p)
                    fe e entries (λ t. c fe (rw (one fe, ==_refl fe) (ground arith))) d,
              )
          | inr skipped ↦
              let (a, b, c, d) = broadcast_from-Covers (suc fe) entries r (omega arith) h in
              let step : broadcast_from draws now test is_full face_id fe (e ∷ entries) r
                  ≡ broadcast_from draws now test is_full face_id (suc fe) entries r =
                rw skipped refl in
              rw step (
                a,
                b,
                c,
                all_from is_full face_id
                    (λ p.
                      echoed
                        (broadcast_from draws now test is_full face_id (suc fe) entries
                          r).lms.echo_msg_state_map
                        (test_ids test
                          (broadcast_from draws now test is_full face_id (suc fe) entries r))
                        p)
                    fe e entries (λ t. ground arith) d,
              )
        ]

-- With different random numbers: when the echos of a test, which has none before, are broadcast and
-- no Back comes, the update of the statuses fails every face entry that the test covers.
pub broadcast_echos-update_face_stats :
    {F : Type 0} (draws : ℕ → ℕ) (now later test face_id i : ℕ) (is_full : Bool) (r : Router F)
    (entry : LltcFaceEntry)
    → AreDistinct draws (r.drawn + length r.coll.face_entries)
    → test_ids test r ≡ []
    → get_elem? r.coll.face_entries i ≡ some entry
    → is_tested is_full face_id entry ≡ true
    → get_elem?
        (update_face_stats later test
          (broadcast_echos draws now test is_full face_id r)).coll.face_entries
        i
      ≡ some (record entry { status = face_status_failure; last_check_time = later })
unfolding broadcast_echos
broadcast_echos-update_face_stats draws now later test face_id i is_full r entry distinct new at t =
    let s = broadcast_echos draws now test is_full face_id r in
    let (waits, same, c, d) =
      broadcast_from-Covers draws now test is_full face_id _ distinct 1 r.coll.face_entries r
        (omega arith) (rw new (tt, tt)) in
    let quiet = waiting-answered s.lms.echo_msg_state_map (test_ids test s) (suc i) waits.0 in
    let hit : echoed s.lms.echo_msg_state_map (test_ids test s) (suc i) ≡ true =
      (let place : suc i ≡ 1 + i = omega arith in rw place (d i entry at t)) in
    rw (update_face_stats-entry later test i s entry (rw same at), quiet, hit) (ground arith)
