-- ===== src/Routes/Found.antt =====
-- genPath on a network: it returns, unless its heap is stuck, restores the network, and finds paths to the
-- given nodes.
use tafrr.Prelude.{
  ℕ, ◌<◌, ◌≡◌, ◌≢◌, true, false, Option, none, some, List, [], All, length, get_elem?, contains,
}
use tafrr.Double.{DoubleOps}
use tafrr.MaxQueue.{MaxQueue}
use tafrr.Graph.{LltcLink, LltcGraph, get_link_op_side}
use tafrr.Graph.Restore.{virt_linked}
use tafrr.Graph.Remove.{OldLinks}
use tafrr.Rsg.Build.{RedundantSubPath}
use tafrr.Routes.Vectors.{last_of}
use tafrr.Routes.Network.{AllAt}

module _ (d : DoubleOps) where
  open d use {Double}

  -- A link of the network leads to a node that is not the virtual one.
  abbrev pub SoundLink : LltcGraph Double → ℕ → ℕ → Type 0
  SoundLink g u p =
      (l : LltcLink Double) × (get_elem? g.store p ≡ some l)
      × (w : ℕ) × (get_link_op_side l u ≡ some w)
      × (w < length g.nodes)
      × (w ≢ g.vir_dst_node)

  -- A network whose links lead to its nodes, with a virtual node that has no links.
  pub record IsSound (g : LltcGraph Double) : Type 0 where
    pub leads : AllAt (SoundLink g) g.nodes
    pub empty : get_elem? g.nodes g.vir_dst_node ≡ some (record { e_links = []; i_links = [] })
    pub old : OldLinks d (length g.store) g.nodes

  -- A link of the extended network, which leads to the virtual node only from its neighbours.
  abbrev ExtendedLink : List ℕ → LltcGraph Double → LltcGraph Double → ℕ → ℕ → Type 0
  ExtendedLink ids g g1 u p =
      (l : LltcLink Double) × (get_elem? g1.store p ≡ some l)
      × (w : ℕ) × (get_link_op_side l u ≡ some w)
      × (w < length g.nodes)
      × (w ≡ g.vir_dst_node → contains ids u ≡ true)

  module _ (ids : List ℕ) (g : LltcGraph Double) (sound : IsSound g)
      (small : All (λ id. id < length g.nodes) ids)
      (out : contains ids g.vir_dst_node ≡ false) where
    abbrev extended : LltcGraph Double
    extended = virt_linked d ids g

  -- The last node of what was found is one of `dsts`.
  abbrev pub EndsIn : List ℕ → Option (RedundantSubPath Double) → Type 0
  EndsIn dsts none = Unit
  EndsIn dsts (some rsp) = (u : ℕ) × (last_of rsp.node_ids ≡ some u) × (contains dsts u ≡ true)
