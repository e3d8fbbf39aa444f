-- ===== src/Lltc/Lsa/Flood.antt =====
-- The flooding of LSAs: a router passes each of them on once.
use tafrr.Prelude.{
  ℕ, ◌+◌, ◌*◌, ◌≡◌, refl, ◌≢◌, ◌⊎◌, inl, inr, Bool, false, Option, none, some, List, [], ◌∷◌,
  length, length-append, contains, All, ◌>>=◌, arith,
}
use tafrr.Double.{DoubleOps}
use tafrr.MaxQueue.{MaxQueue}
use tafrr.Rsg.{uint_max}
use tafrr.Lltc.{LltcFaceEntry, LinkState, Message, Router, send_non_pit_data}
use tafrr.Lltc.Failover.Switch.{
  AreStuck, IsReady, IsConsistent, update_preferred_path_with_lsa_lem, AreSwitched-IsReady,
}
use tafrr.Lltc.Lsa.{send_all, update_preferred, on_receive_lsa}

-- An LSA as it arrives: its ID, its source, its sequence number, its link states and its type.
pub record Arrival : Type 0 where
  pub lsa_id : ℕ
  pub source : ℕ
  pub seq_no : ℕ
  pub states : List LinkState
  pub is_active : Bool

pub send_all-sent :
    {F : Type 0} (message : Message) (entries : List LltcFaceEntry) (r : Router F)
    → (length (send_all message entries r).sent ≡ length entries + length r.sent)
      × ((send_all message entries r).lms ≡ r.lms)
      × ((send_all message entries r).coll ≡ r.coll)
send_all-sent message [] r = (omega arith, refl, refl)
send_all-sent message (e ∷ rest) r =
    let (a, b, c) = send_all-sent message rest (send_non_pit_data e.face_next_hop message r) in
    (
      ground (
        arith,
        a,
        length-append r.sent (
            (record {
              face = e.face_next_hop;
              rsg_id_tag = none;
              path_id_tag = none;
              transient_tag = none;
              message = message;
            })
            ∷ []),
      ),
      b,
      c,
    )

-- The router can compute preferred paths for every sub-graph.
abbrev pub IsSound : {F : Type 0} → Router F → Type 0
IsSound r =
    (r.coll.local_node_id ≢ uint_max)
    × All (λ e. IsReady (e.1).rsg × IsConsistent e.1) r.coll.fss_map

abbrev pub NoRepeats : List ℕ → Type 0
NoRepeats [] = Unit
NoRepeats (x ∷ xs) = (contains xs x ≡ false) × NoRepeats xs

module _ (d : DoubleOps) (q : MaxQueue) where
  pub update_preferred-IsSound :
      (source : ℕ) (states : List LinkState) (r : Router d.Double)
      → IsSound r
      → AreStuck d q r.coll.local_node_id source states r.coll.fss_map
        ⊎ ((r' : Router d.Double) × (update_preferred d q source states r ≡ some r')
            × IsSound r'
            × (r'.sent ≡ r.sent)
            × (r'.lms ≡ r.lms)
            × (r'.coll.face_entries ≡ r.coll.face_entries))
  unfolding update_preferred
  update_preferred-IsSound source states r h =
      elim (update_preferred_path_with_lsa_lem d q r.coll.local_node_id source states r.coll.fss_map
        h.0 h.1) [
          | inl stuck ↦ inl stuck
          | inr (m', e, switched) ↦ inr (
            record r { coll = record r.coll { fss_map = m' } },
            rw e refl,
            (
              h.0,
              AreSwitched-IsReady d q r.coll.local_node_id source states r.coll.fss_map m' h.1
                  switched,
            ),
            refl,
            refl,
            refl,
          )
        ]

  abbrev pub receive : Arrival → Router d.Double → Option (Router d.Double)
  receive a r = on_receive_lsa d q a.lsa_id a.source a.seq_no a.states a.is_active r

  abbrev pub receive_all : List Arrival → Router d.Double → Option (Router d.Double)
  receive_all [] r = some r
  receive_all (a ∷ rest) r = receive a r >>= λ r'. receive_all rest r'

  -- An LSA that is new to the router when it comes gets the search on a sub-graph stuck in its heap.
  abbrev pub ReceiptStuck : Arrival → Router d.Double → Type 0
  ReceiptStuck a r =
      (contains r.lms.recent_lsa_ids a.lsa_id ≡ false)
      × AreStuck d q r.coll.local_node_id a.source a.states r.coll.fss_map

  abbrev pub ReceiptsStuck : List Arrival → Router d.Double → Type 0
  ReceiptsStuck [] r = ⊥
  ReceiptsStuck (a ∷ rest) r =
      ReceiptStuck a r ⊎ ((r' : Router d.Double) × (receive a r ≡ some r') × ReceiptsStuck rest r')

  -- `r'` is `r` after `k` LSAs that are new, each of which was sent once on every face.
  abbrev pub IsFlooded : ℕ → Router d.Double → Router d.Double → Type 0
  IsFlooded k r r' =
      IsSound r'
      × (r'.coll.face_entries ≡ r.coll.face_entries)
      × NoRepeats r'.lms.recent_lsa_ids
      × (length r'.lms.recent_lsa_ids ≡ k + length r.lms.recent_lsa_ids)
      × (length r'.sent ≡ k * length r.coll.face_entries + length r.sent)
