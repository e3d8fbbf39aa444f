-- ===== src/Lltc/Forward.antt =====
-- lltc-strategy-forwarding-sublayer-packet-forwarding.cpp and
-- lltc-strategy-service-sublayer-forwarding.cpp: what a router sends for an interest and for the data
-- that comes in. A result of `none` is a null dereference; otherwise it is what is sent, in order.
pub mod Capsules
use tafrr.Prelude.{
  ℕ, ◌%◌, ◌^◌, Bool, true, false, not, ◌&&◌, Option, none, some, List, [], ◌∷◌, ◌==◌, if◌then◌else◌,
  contains, map, ◌>>=◌,
}
use tafrr.Prelude.Dict.{Dict, lookup}
use tafrr.Rsg.{uint_max}
use tafrr.Lltc.{
  LltcFibEntry, ForwardingStateForRsg, ForwardingStateCollection, Message, Sent, first_entry,
}
use tafrr.Lltc.Message.{capsule, capsule_on_rsp, interest}

-- What the forwarder knows of a PIT entry: the interfaces that the interest came from, and the next
-- hops that NFD's own FIB has for its name.
pub record PitEntry : Type 0 where
  pub has_pending_out_records : Bool
  pub in_records : List ℕ
  pub next_hops : List ℕ

pub record Packet : Type 0 where
  pub name : ℕ
  pub rsg_id_tag : Option ℕ
  pub path_id_tag : Option ℕ
  pub message : Message

-- The cast of a tag, which has 64 bits.
abbrev pub to_uint32 : ℕ → ℕ
to_uint32 tag = tag % 2 ^ 32

-- What sendLltcData (`transient` 0) and sendLltcNonPitData (1) put on a face.
abbrev pub tagged : ℕ → ℕ → ℕ → ℕ → Message → Sent
tagged transient face rsg_id path_id message = record {
  face = face;
  rsg_id_tag = some rsg_id;
  path_id_tag = some path_id;
  transient_tag = some transient;
  message = message;
}

module _ {F : Type 0} where
  unfoldable pub lookup_forwarding_entry :
      ForwardingStateCollection F → ℕ → ℕ → ℕ → Option LltcFibEntry
  lookup_forwarding_entry coll rsg_id path_id direction = elim (lookup rsg_id coll.fss_map) [
    | none ↦ none
    | some fs ↦ first_entry fs.fib_entries path_id direction
  ]

  unfoldable pub get_forwarding_state :
      ForwardingStateCollection F → ℕ → Option (ForwardingStateForRsg F)
  get_forwarding_state coll rsg_id = lookup rsg_id coll.fss_map

  unfoldable pub lookup_rsg_id : Dict (ForwardingStateForRsg F) → ℕ → ℕ
  lookup_rsg_id [] prefix = uint_max
  lookup_rsg_id ((id, fs) ∷ rest) prefix =
      let later = lookup_rsg_id rest prefix in if contains fs.prefix_list prefix then id else later

  unfoldable pub extract_rsg_id : ForwardingStateCollection F → Packet → ℕ
  unfolding lookup_rsg_id
  extract_rsg_id coll p = elim p.rsg_id_tag [
    | none ↦ lookup_rsg_id coll.fss_map p.name
    | some tag ↦ to_uint32 tag
  ]

  unfoldable pub extract_path_id : ForwardingStateCollection F → Packet → ℕ → Option ℕ
  unfolding get_forwarding_state
  extract_path_id coll p rsg_id = do
    fs ← get_forwarding_state coll rsg_id
    some (elim p.path_id_tag [ none ↦ fs.primary_path_id | some tag ↦ to_uint32 tag ])

  -- deliverCapsule past its look-up of the sub-graph.
  unfoldable pub deliver_by :
      ForwardingStateCollection F → PitEntry → ℕ → ℕ → ForwardingStateForRsg F → Option (List Sent)
  unfolding lookup_forwarding_entry
  deliver_by coll pit data_id rsg_id fs =
      let fe_down = lookup_forwarding_entry coll rsg_id fs.preferred_down_path_id 0 in
      if fs.is_down_path_in_rsp_state
      then elim fe_down [
        | none ↦ none
        | some fe ↦ some (
            tagged 1 fe.face_next_hop rsg_id fs.preferred_down_path_id (capsule_on_rsp data_id)
            ∷ [])
      ]
      else elim fe_down [
        | some fe ↦
            some (tagged 0 fe.face_next_hop rsg_id fs.preferred_down_path_id (capsule data_id) ∷ [])
        | none ↦ elim pit.in_records [
          | [] ↦ some []
          | face ∷ _ ↦ some (tagged 0 face rsg_id fs.primary_path_id (capsule data_id) ∷ [])
        ]
      ]

  unfoldable pub deliver_capsule :
      ForwardingStateCollection F → PitEntry → ℕ → ℕ → Option (List Sent)
  unfolding get_forwarding_state deliver_by
  deliver_capsule coll pit data_id rsg_id =
      get_forwarding_state coll rsg_id >>= deliver_by coll pit data_id rsg_id

  unfoldable pub deliver_non_pit_message :
      ForwardingStateCollection F → Message → ℕ → ℕ → Option (List Sent)
  unfolding lookup_forwarding_entry get_forwarding_state
  deliver_non_pit_message coll message direction rsg_id = get_forwarding_state coll rsg_id >>= λ fs.
      let down = direction == 0 in
      let in_rsp_state =
        if down then fs.is_down_path_in_rsp_state else fs.is_up_path_in_rsp_state in
      let preferred = if down then fs.preferred_down_path_id else fs.preferred_up_path_id in
      let path_id = if in_rsp_state then preferred else fs.primary_path_id in
      elim (lookup_forwarding_entry coll rsg_id path_id direction) [
        | some fe ↦ some (tagged 1 fe.face_next_hop rsg_id path_id message ∷ [])
        | none ↦ elim coll.app_face [
          | none ↦ some []
          | some face ↦ some (tagged 1 face rsg_id fs.primary_path_id message ∷ [])
        ]
      ]

  -- forwardInNonPitRegionIfNecessary: what is sent, and nothing where it returns false.
  unfoldable pub forward_in_non_pit_region :
      ForwardingStateCollection F → Message → ℕ → ℕ → ℕ → List Sent
  unfolding lookup_forwarding_entry
  forward_in_non_pit_region coll message rsg_id path_id direction =
      elim (lookup_forwarding_entry coll rsg_id path_id direction) [
        | none ↦ []
        | some fe ↦ tagged 1 fe.face_next_hop rsg_id path_id message ∷ []
      ]

  -- What is sent, and whether the pending interest is rejected.
  unfoldable pub after_receive_interest :
      ForwardingStateCollection F → PitEntry → Packet → List Sent × Bool
  unfolding lookup_forwarding_entry get_forwarding_state extract_rsg_id
  after_receive_interest coll pit p =
      let rsg_id = extract_rsg_id coll p in
      if pit.has_pending_out_records
      then ([], false)
      else if rsg_id == uint_max
      then ([], false)
      else elim (get_forwarding_state coll rsg_id) [
        | none ↦ ([], false)
        | some fs ↦ elim (lookup_forwarding_entry coll rsg_id fs.primary_path_id 1) [
          | some fe ↦ (
            (record {
              face = fe.face_next_hop;
              rsg_id_tag = some rsg_id;
              path_id_tag = p.path_id_tag;
              transient_tag = none;
              message = interest;
            })
                ∷ [],
            false,
          )
          | none ↦ elim pit.next_hops [
            | [] ↦ ([], true)
            | _ ∷ _ ↦ (
              map
                  (λ face. record {
                    face = face;
                    rsg_id_tag = p.rsg_id_tag;
                    path_id_tag = p.path_id_tag;
                    transient_tag = none;
                    message = interest;
                  })
                  pit.next_hops,
              false,
            )
          ]
        ]
      ]

  -- The forwarding of afterReceiveData, past the count of a capsule at its face.
  unfoldable pub after_receive_data :
      ForwardingStateCollection F → PitEntry → Packet → Option (List Sent)
  unfolding extract_rsg_id extract_path_id deliver_capsule forward_in_non_pit_region
  after_receive_data coll pit p =
      let rsg_id = extract_rsg_id coll p in
      if rsg_id == uint_max
      then some []
      else extract_path_id coll p rsg_id >>= λ path_id. elim p.message [
        | capsule data_id ↦ deliver_capsule coll pit data_id rsg_id
        | capsule_on_rsp data_id ↦
            some (forward_in_non_pit_region coll (capsule_on_rsp data_id) rsg_id path_id 0)
        | _ ↦ some []
      ]

  -- afterReceiveNonPitData for a message that is no echo, back or LSA.
  unfoldable pub after_receive_non_pit_data : ForwardingStateCollection F → Packet → List Sent
  unfolding extract_rsg_id lookup_forwarding_entry
  after_receive_non_pit_data coll p = elim p.path_id_tag [
    | none ↦ []
    | some tag ↦
        let path_id = to_uint32 tag in
        let rsg_id = extract_rsg_id coll p in
        if rsg_id == uint_max then [] else elim p.message [
          | capsule_on_rsp data_id ↦ elim (lookup_forwarding_entry coll rsg_id path_id 0) [
            | none ↦ []
            | some fe ↦ tagged 1 fe.face_next_hop rsg_id path_id (capsule_on_rsp data_id) ∷ []
          ]
          | _ ↦ []
        ]
  ]
