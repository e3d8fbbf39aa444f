-- ===== src/Tests/Routes.antt =====
-- Route generation on a network of two nodes, 0 and 1, with one link, and the virtual node 2.
use tafrr.Prelude.{
  ◌>>=◌, ◌≡◌, refl, Bool, true, false, Option, none, some, [], ◌∷◌, arith, ◌==◌, if◌then◌else◌,
}
use tafrr.Prelude.Int.{ℤ, pos, ◌+ℤ◌, ltb_ℤ, ◌==ℤ◌}
use tafrr.Double.{DoubleOps}
use tafrr.Graph.{LltcNode, LltcLink, LltcGraph, get_link_op_side}
use tafrr.Graph.Virtual.{add_virt_node, remove_virt_node}
use tafrr.Graph.Remove.{OldLinks, remove_virt_node-add_virt_node}
use tafrr.Routes.{PrevArray, convert_prev_array_to_path_node_ids_array}
use tafrr.Routes.GenPath.{gen_path}
use tafrr.Routes.Paths.{convert_prev_array_lem}
use tafrr.Heap.{
  insert_object, insert_node, new_node, new_heap, size, unlink, link_after, make_child, update_key,
  increase_key, cut_above, cascading_cut, cut,
}
use tafrr.Heap.RemoveMax.{
  remove_max_object, remove_max, free_children, degreewise_merge, count_roots, merge_roots,
  merge_at, collect,
}
use tafrr.Heap.Queue.{fibonacci_queue}

abbrev plus : Option ℤ → Option ℤ → Option ℤ
plus (some a) (some b) = some (a +ℤ b)
plus (some a) none = none
plus none b = none

abbrev exceeds : Option ℤ → Option ℤ → Bool
exceeds none b = false
exceeds (some a) none = true
exceeds (some a) (some b) = ltb_ℤ b a

abbrev equals : Option ℤ → Option ℤ → Bool
equals none none = true
equals none (some b) = false
equals (some a) none = false
equals (some a) (some b) = a ==ℤ b

abbrev to_ℤ : Option ℤ → ℤ
to_ℤ none = pos 0
to_ℤ (some a) = a

-- Integers with minus infinity.
abbrev with_infinity : DoubleOps
with_infinity = record {
  Double = Option ℤ;
  add = plus;
  sub = λ a b. a;
  mul = λ a b. a;
  div = λ a b. a;
  neg = λ a. a;
  gtb = exceeds;
  eqb = equals;
  exp = λ a. a;
  log = λ a. a;
  of_int = λ a. some a;
  to_int = to_ℤ;
  to_int32 = to_ℤ;
  neg_inf = none;
}

abbrev link_01 : LltcLink (Option ℤ)
link_01 = record {
  link_id = 0;
  node_a = 0;
  node_b = 1;
  ab_delay_total = pos 3;
  ba_delay_total = pos 3;
  ab_delay_trans = pos 1;
  ba_delay_trans = pos 1;
  ab_delay_queue = pos 1;
  ba_delay_queue = pos 1;
  ab_delay_process = pos 1;
  ba_delay_process = pos 1;
  ab_relia = some (pos 1);
  ab_relia_in_log = some (pos 0);
  ba_relia = some (pos 1);
  ba_relia_in_log = some (pos 0);
}

abbrev at_link : LltcNode
at_link = record { e_links = 0 ∷ []; i_links = 0 ∷ [] }

abbrev no_link : LltcNode
no_link = record { e_links = []; i_links = [] }

abbrev two_nodes : LltcGraph (Option ℤ)
two_nodes = record {
  nodes = at_link ∷ at_link ∷ no_link ∷ [];
  store = link_01 ∷ [];
  links = 0 ∷ [];
  max_link_id = 1;
  max_virt_link_id = 1;
  vir_dst_node = 2;
}

two_nodes-old : OldLinks with_infinity 1 two_nodes.nodes
two_nodes-old = omega arith

remove_virt_node-add_virt_node_example :
    (g1 : LltcGraph (Option ℤ)) × (g' : LltcGraph (Option ℤ)) × (add_virt_node with_infinity
        (0 ∷ 1 ∷ [])
        two_nodes
      ≡ some g1)
    × (remove_virt_node g1 ≡ some g')
    × (g'.nodes ≡ two_nodes.nodes)
    × (g'.links ≡ 0 ∷ [])
    × (g'.vir_dst_node ≡ 2)
    × (g'.max_virt_link_id ≡ 1)
remove_virt_node-add_virt_node_example =
    remove_virt_node-add_virt_node with_infinity (0 ∷ 1 ∷ []) two_nodes refl refl two_nodes-old
      (omega arith, (omega arith, tt))

abbrev back_to_0 : PrevArray
back_to_0 i = if i == 2 then some 1 else if i == 1 then some 0 else none

convert_prev_array_lem_example :
    convert_prev_array_to_path_node_ids_array 3 back_to_0 0 2 ≡ some (0 ∷ 1 ∷ 2 ∷ [])
convert_prev_array_lem_example =
    convert_prev_array_lem back_to_0 0 3 2 (1 ∷ 0 ∷ [])
      (omega arith, refl, (omega arith, refl, refl)) (omega arith)

-- The search with the heap is not stuck here: it finds the path 1, 0.
found_path :
    (gen_path with_infinity fibonacci_queue two_nodes 1 (0 ∷ []) [] [] (some (pos 50)) >>= λ r.
    r.1 >>= λ rsp. some rsp.node_ids)
    ≡ some (1 ∷ 0 ∷ [])
unfolding gen_path get_link_op_side ◌+ℤ◌ insert_object insert_node new_node new_heap size unlink
    link_after make_child update_key increase_key cut_above cascading_cut cut remove_max_object
    remove_max free_children degreewise_merge count_roots merge_roots merge_at collect
found_path = refl
