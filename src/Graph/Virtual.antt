-- ===== src/Graph/Virtual.antt =====
-- LltcGraph::addVirtNode and removeVirtNode: a node beyond the network that is a neighbour of each of
-- the given nodes for the time of a search; and the smallest ratio of a link.
use tafrr.Prelude.{ℕ, Bool, Option, some, List, [], ◌∷◌, if◌then◌else◌, get_elem?, ◌>>=◌}
use tafrr.Prelude.Int.{pos}
use tafrr.Double.{DoubleOps}
use tafrr.Graph.{
  LltcNode, LltcLink, LltcGraph, update, erase_at, erase_e_at, erase_i_at, add_virt_link_dual,
  get_link_op_side,
}

module _ (d : DoubleOps) where
  open d use {Double, of_int, gtb}

  -- `none` where `nodes[neighborNodeId]` is out of range.
  unfoldable pub add_virt_node : List ℕ → LltcGraph Double → Option (LltcGraph Double)
  unfolding add_virt_link_dual
  add_virt_node [] g = some g
  add_virt_node (id ∷ ids) g = get_elem? g.nodes id >>= λ n.
      add_virt_node ids (add_virt_link_dual d (of_int (pos 1)) id g.vir_dst_node g)

  -- `std::min`
  abbrev least : Double → Double → Double
  least a b = if gtb a b then b else a

  unfoldable pub min_link_relia_from :
      Bool → List (LltcLink Double) → List ℕ → Double → Option Double
  min_link_relia_from in_log store [] min = some min
  min_link_relia_from in_log store (p ∷ ps) min =
      let later = λ (r : Double). min_link_relia_from in_log store ps r in
      get_elem? store p >>= λ l. later (
        least
          (if in_log
            then least l.ab_relia_in_log l.ba_relia_in_log
            else least l.ab_relia l.ba_relia)
          min)

  unfoldable pub get_min_link_relia : Bool → LltcGraph Double → Option Double
  unfolding min_link_relia_from
  get_min_link_relia in_log g = min_link_relia_from in_log g.store g.links (of_int (pos 1))

abbrev pub no_links : LltcNode → LltcNode
no_links n = record { e_links = []; i_links = [] }

module _ {F : Type 0} where
  -- The loops of removeVirtNode over the links of the virtual node.
  unfoldable pub drop_links :
      List (LltcLink F)
      → (ℕ → ℕ → List LltcNode → Option (List LltcNode))
      → ℕ
      → List ℕ
      → List LltcNode
      → Option (List LltcNode)
  drop_links store drop vir [] ns = some ns
  drop_links store drop vir (p ∷ ps) ns = do
    l ← get_elem? store p
    b ← get_link_op_side l vir
    ns' ← drop p b ns
    drop_links store drop vir ps ns'

  unfoldable pub remove_virt_node : LltcGraph F → Option (LltcGraph F)
  unfolding drop_links get_link_op_side erase_at
  remove_virt_node g = do
    v ← get_elem? g.nodes g.vir_dst_node
    ns1 ← drop_links g.store erase_i_at g.vir_dst_node v.e_links g.nodes
    ns2 ← drop_links g.store erase_e_at g.vir_dst_node v.i_links ns1
    some (record g { nodes = update ns2 g.vir_dst_node no_links; max_virt_link_id = g.max_link_id })
