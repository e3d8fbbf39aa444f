-- ===== src/Lltc/Forward/Capsules.antt =====
-- Where the capsules go.
use tafrr.Prelude.{
  ℕ, ◌≡◌, refl, ◌≢◌, inl, inr, All, ◌&&◌, true, false, Option, none, some, List, [], ◌∷◌, ◌==◌,
  if◌then◌else◌, Bool-cases, Option-cases, arith, ◌>>=◌, ◌∙◌, ap, sym,
}
use tafrr.Prelude.Dict.{lookup}
use tafrr.Rsg.{uint_max}
use tafrr.Lltc.{LltcFibEntry, ForwardingStateForRsg, ForwardingStateCollection, first_entry}
use tafrr.Lltc.Message.{capsule, capsule_on_rsp}
use tafrr.Lltc.Failover.Switch.{IsConsistent}
use tafrr.Lltc.Forward.{
  Packet, PitEntry, to_uint32, tagged, lookup_forwarding_entry, get_forwarding_state,
  extract_rsg_id, extract_path_id, deliver_by, deliver_capsule, forward_in_non_pit_region,
  after_receive_data, after_receive_non_pit_data,
}

-- The entry leads down the path.
abbrev pub IsDownEntry : LltcFibEntry → ℕ → Type 0
IsDownEntry fe path_id = (fe.path_id ≡ path_id) × (fe.direction ≡ 0)

first_entry-IsDownEntry :
    (fibs : List LltcFibEntry) (path_id : ℕ) (fe : LltcFibEntry)
    → first_entry fibs path_id 0 ≡ some fe
    → IsDownEntry fe path_id
first_entry-IsDownEntry [] path_id fe h = ground arith
first_entry-IsDownEntry (e ∷ rest) path_id fe h =
    elim (Bool-cases (e.path_id == path_id && e.direction == 0)) [
      | inl hit ↦ ground arith
      | inr miss ↦ first_entry-IsDownEntry rest path_id fe (ground arith)
    ]

-- The sub-graph is unknown, or the preferred path is a sub-path without a downstream FIB entry.
abbrev pub HasNoWay : {F : Type 0} → Option (ForwardingStateForRsg F) → Type 0
HasNoWay none = Unit
HasNoWay (some fs) =
    (fs.is_down_path_in_rsp_state ≡ true)
    × (first_entry fs.fib_entries fs.preferred_down_path_id 0 ≡ none)

module _ {F : Type 0} (coll : ForwardingStateCollection F) (pit : PitEntry) where
  deliver_capsule-at :
      (data_id rsg_id : ℕ) (fs : ForwardingStateForRsg F)
      → lookup rsg_id coll.fss_map ≡ some fs
      → deliver_capsule coll pit data_id rsg_id ≡ deliver_by coll pit data_id rsg_id fs
  unfolding deliver_capsule get_forwarding_state
  deliver_capsule-at data_id rsg_id fs at = ap (λ o. o >>= deliver_by coll pit data_id rsg_id) at

  lookup_forwarding_entry-at :
      (rsg_id path_id direction : ℕ) (fs : ForwardingStateForRsg F)
      → lookup rsg_id coll.fss_map ≡ some fs
      → lookup_forwarding_entry coll rsg_id path_id direction
        ≡ first_entry fs.fib_entries path_id direction
  unfolding lookup_forwarding_entry
  lookup_forwarding_entry-at rsg_id path_id direction fs at = rw (at, lookup_forwarding_entry) refl

  forward_in_non_pit_region-lem :
      (data_id rsg_id path_id : ℕ) (fs : ForwardingStateForRsg F)
      → lookup rsg_id coll.fss_map ≡ some fs
      → All
          (λ sent.
            (sent.message ≡ capsule_on_rsp data_id)
            × (sent.path_id_tag ≡ some path_id)
            × ((fe : LltcFibEntry) × (sent.face ≡ fe.face_next_hop) × IsDownEntry fe path_id))
          (forward_in_non_pit_region coll (capsule_on_rsp data_id) rsg_id path_id 0)
  unfolding forward_in_non_pit_region
  forward_in_non_pit_region-lem data_id rsg_id path_id fs at =
      let hop = lookup_forwarding_entry-at rsg_id path_id 0 fs at in
      elim (Option-cases (first_entry fs.fib_entries path_id 0)) [
        | inl last ↦ rw (hop ∙ last, forward_in_non_pit_region, All) tt
        | inr (fe, e) ↦
            rw (hop ∙ e, forward_in_non_pit_region, All)
              ((refl, refl, (fe, refl, first_entry-IsDownEntry fs.fib_entries path_id fe e)), tt)
      ]

  after_receive_data-at :
      (p : Packet) (data_id : ℕ) (fs : ForwardingStateForRsg F)
      → p.message ≡ capsule data_id
      → (extract_rsg_id coll p == uint_max) ≡ false
      → lookup (extract_rsg_id coll p) coll.fss_map ≡ some fs
      → after_receive_data coll pit p ≡ deliver_capsule coll pit data_id (extract_rsg_id coll p)
  unfolding after_receive_data extract_path_id get_forwarding_state
  after_receive_data-at p data_id fs m known at = simp (known, at, m) refl

  -- A router that knows the sub-graph of a capsule, with flags in agreement with its preferred
  -- paths, and has a downstream FIB entry for the preferred path: it sends one message, through an
  -- entry of that path and tagged with it; it is a plain capsule if that path is the primary path,
  -- and else a capsule on a sub-path.
  pub after_receive_data-capsule :
      (p : Packet) (data_id : ℕ) (fs : ForwardingStateForRsg F) (fe : LltcFibEntry)
      → p.message ≡ capsule data_id
      → extract_rsg_id coll p ≢ uint_max
      → lookup (extract_rsg_id coll p) coll.fss_map ≡ some fs
      → IsConsistent fs
      → first_entry fs.fib_entries fs.preferred_down_path_id 0 ≡ some fe
      → IsDownEntry fe fs.preferred_down_path_id
        × (after_receive_data coll pit p
            ≡ some (
                (if fs.preferred_down_path_id == fs.primary_path_id
                  then tagged 0 fe.face_next_hop
                      (extract_rsg_id coll p)
                      fs.preferred_down_path_id
                      (capsule data_id)
                  else tagged 1 fe.face_next_hop
                      (extract_rsg_id coll p)
                      fs.preferred_down_path_id
                      (capsule_on_rsp data_id))
                ∷ []))
  unfolding after_receive_data extract_path_id get_forwarding_state deliver_by
  after_receive_data-capsule p data_id fs fe m known at ok hop =
      let known' : (extract_rsg_id coll p == uint_max) ≡ false = ground arith in
      (
        first_entry-IsDownEntry fs.fib_entries fs.preferred_down_path_id fe hop,
        after_receive_data-at p data_id fs m known' at
            ∙ deliver_capsule-at data_id (extract_rsg_id coll p) fs at
            ∙ rw
                (
                  lookup_forwarding_entry-at (extract_rsg_id coll p) fs.preferred_down_path_id 0 fs
                      at,
                  hop,
                  ok.0,
                )
                (ground arith),
      )

  -- A capsule on a sub-path of a known sub-graph is handled alike with and without a PIT entry: all
  -- that is sent is the same message, along a downstream FIB entry of the path whose ID is the low 32 bits
  -- of its tag, and tagged with that ID, so that it never becomes a plain capsule again.
  pub after_receive_data-capsule_on_rsp :
      (p : Packet) (data_id tag : ℕ) (fs : ForwardingStateForRsg F)
      → p.message ≡ capsule_on_rsp data_id
      → p.path_id_tag ≡ some tag
      → lookup (extract_rsg_id coll p) coll.fss_map ≡ some fs
      → (after_receive_data coll pit p ≡ some (after_receive_non_pit_data coll p))
        × All
            (λ sent.
              (sent.message ≡ capsule_on_rsp data_id)
              × (sent.path_id_tag ≡ some (to_uint32 tag))
              × ((fe : LltcFibEntry) × (sent.face ≡ fe.face_next_hop)
                  × IsDownEntry fe (to_uint32 tag)))
            (after_receive_non_pit_data coll p)
  unfolding after_receive_data extract_path_id get_forwarding_state after_receive_non_pit_data
      forward_in_non_pit_region
  after_receive_data-capsule_on_rsp p data_id tag fs m tagged_with at =
      let path_id = to_uint32 tag in
      let rsg_id = extract_rsg_id coll p in
      let sent = forward_in_non_pit_region coll (capsule_on_rsp data_id) rsg_id path_id 0 in
      elim (Bool-cases (rsg_id == uint_max)) [
        | inl unknown ↦
            let with_pit : after_receive_data coll pit p ≡ some [] = simp unknown refl in
            let without : after_receive_non_pit_data coll p ≡ [] =
              simp (tagged_with, unknown, after_receive_non_pit_data) refl in
            (with_pit ∙ ap some (sym without), rw without tt)
        | inr known ↦
            let with_pit : after_receive_data coll pit p ≡ some sent =
              simp (tagged_with, known, at, m) refl in
            let without : after_receive_non_pit_data coll p ≡ sent =
              simp (tagged_with, known, m, after_receive_non_pit_data) refl in
            (
              with_pit ∙ ap some (sym without),
              rw without (forward_in_non_pit_region-lem data_id rsg_id path_id fs at),
            )
      ]
