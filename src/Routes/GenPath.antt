-- ===== src/Routes/GenPath.antt =====
-- ResilientRouteGenerationForReroute::genPath, with FHKeyFuncNodeRelias: the most reliable way from a
-- node to one of several others. The doubles of the keys are also those of the search, since setKey
-- writes them back.
use tafrr.Prelude.{
  ℕ, zero, suc, ◌+◌, ◌-◌, ◌^◌, Bool, true, false, not, ◌||◌, Option, none, some, List, [], ◌∷◌,
  ◌==◌, if◌then◌else◌, length, get_elem?, set, replicate, contains, ◌>>=◌,
}
use tafrr.Prelude.Int.{ℤ, pos, negsuc, ◌+ℤ◌}
use tafrr.Double.{DoubleOps}
use tafrr.MaxQueue.{MaxQueue}
use tafrr.Graph.{LltcLink, LltcGraph, get_link_op_side, get_link_delay_total, get_link_succ_ratio}
use tafrr.Graph.Virtual.{add_virt_node, remove_virt_node}
use tafrr.Rsg.Build.{RedundantSubPath}
use tafrr.Routes.{PrevArray, put}

module _ (d : DoubleOps) (q : MaxQueue) where
  open d use {Double, add, sub, mul, div, gtb, eqb, exp, of_int, to_int32, neg_inf}
  open q use {Heap, size, remove_max, update_key, insert, new}

  abbrev precision : Double
  precision = of_int (pos 1000000)

  -- INT_MIN
  abbrev int_min : ℤ
  int_min = negsuc (2 ^ 31 - 1)

  -- FHKeyFuncNodeRelias::getKey, with the array that the key function holds.
  unfoldable pub get_key : (ℕ → Double) → ℕ → ℤ
  get_key relias i = if eqb (relias i) neg_inf then int_min else to_int32 (mul (relias i) precision)

  -- FHKeyFuncNodeRelias::setKey: the value that it writes.
  unfoldable pub of_key : ℤ → Double
  of_key key = div (of_int key) precision

  pub record PathSearch : Type 0 where
    pub log_node_relias : ℕ → Double
    pub exact_log_node_relias : ℕ → Double
    pub down_delays : ℕ → ℤ
    pub is_node_id_in_q : ℕ → Bool
    pub prev_node_idx : PrevArray
    pub heap : Heap

  -- The `n` calls of `insert`, for the nodes from the i-th.
  unfoldable pub insert_nodes : (ℕ → ℤ) → ℕ → ℕ → Heap → Heap
  insert_nodes key zero i h = h
  insert_nodes key (suc n) i h = insert_nodes key n (suc i) (insert key i h)

  unfoldable pub start : ℕ → ℕ → PathSearch
  unfolding get_key insert_nodes
  start n src =
      let relias = put src (of_int (pos 0)) (λ i. neg_inf) in
      record {
        log_node_relias = relias;
        exact_log_node_relias = relias;
        down_delays = λ i. pos 0;
        is_node_id_in_q = λ i. true;
        prev_node_idx = λ i. none;
        heap = insert_nodes (get_key relias) n 0 new;
      }

  -- The array after the value of `v` has become `alt` and updateKey has written its key back.
  abbrev pub rewritten : ℕ → Double → (ℕ → Double) → ℕ → Double
  rewritten v alt relias =
      let written = put v alt relias in put v (of_key (get_key written v)) written

  abbrev pub improved : ℕ → ℕ → Double → ℤ → PathSearch → Heap → PathSearch
  improved u v log_link down_delay s heap = record s {
    log_node_relias = rewritten v (add log_link (s.log_node_relias u)) s.log_node_relias;
    exact_log_node_relias =
        put v (add log_link (s.exact_log_node_relias u)) s.exact_log_node_relias;
    down_delays = put v down_delay s.down_delays;
    prev_node_idx = put v (some u) s.prev_node_idx;
    heap = heap;
  }

  -- A better way to `v`, over a link with the ratio `log_link` from `u`.
  unfoldable pub improve : ℕ → ℕ → Double → ℤ → PathSearch → Option PathSearch
  unfolding get_key of_key
  improve u v log_link down_delay s =
      update_key (get_key (rewritten v (add log_link (s.log_node_relias u)) s.log_node_relias)) v
        s.heap
      >>= λ heap. some (improved u v log_link down_delay s heap)

  unfoldable pub get_link_relia : LltcLink Double → ℕ → ℕ → Double
  unfolding get_link_succ_ratio
  get_link_relia l a b = get_link_succ_ratio (of_int (negsuc 0)) l a b true

  module _ (barred : ℕ → Bool) (max_allowed_delay : Double) where
    -- The body of the loop over the links of `u`, past the check of the link's ID and of the queue.
    unfoldable pub relax_to : ℕ → ℕ → LltcLink Double → PathSearch → Option PathSearch
    unfolding improve get_link_relia get_link_delay_total
    relax_to u v l s =
        let down_delay = get_link_delay_total l v u +ℤ s.down_delays u in
        let log_link = add (get_link_relia l u v) (get_link_relia l v u) in
        if gtb (of_int (s.down_delays u +ℤ down_delay)) max_allowed_delay
        then some s
        else if gtb (add log_link (s.log_node_relias u)) (s.log_node_relias v)
        then improve u v log_link down_delay s
        else some s

    unfoldable pub relax : ℕ → LltcLink Double → PathSearch → Option PathSearch
    unfolding relax_to get_link_op_side
    relax u l s = if barred l.link_id then some s else elim (get_link_op_side l u) [
      | none ↦ none
      | some v ↦ if not (s.is_node_id_in_q v) then some s else relax_to u v l s
    ]

    unfoldable pub relax_all : List (LltcLink Double) → ℕ → List ℕ → PathSearch → Option PathSearch
    unfolding relax
    relax_all store u [] s = some s
    relax_all store u (p ∷ ps) s = do
      l ← get_elem? store p
      s' ← relax u l s
      relax_all store u ps s'

    abbrev pub taken : ℕ → Heap → PathSearch → PathSearch
    taken u heap s = record s { heap = heap; is_node_id_in_q = put u false s.is_node_id_in_q }

    unfoldable pub round : LltcGraph Double → PathSearch → Option PathSearch
    unfolding relax_all
    round g s = do
      (u, heap) ← remove_max (get_key s.log_node_relias) s.heap
      node ← get_elem? g.nodes u
      relax_all g.store u node.e_links (taken u heap s)

    unfoldable pub search : ℕ → LltcGraph Double → PathSearch → Option PathSearch
    unfolding round
    search zero g s = elim (size s.heap) [ zero ↦ some s | suc _ ↦ none ]
    search (suc fuel) g s = elim (size s.heap) [
      | zero ↦ some s
      | suc _ ↦ round g s >>= λ s'. search fuel g s'
    ]

-- The loop that counts the nodes from the virtual node back to the source.
unfoldable pub count_nodes : ℕ → PrevArray → ℕ → ℕ → ℕ → Option ℕ
count_nodes zero prev src v n = if v == src then some n else none
count_nodes (suc fuel) prev src v n =
    let later = λ (w : ℕ). count_nodes fuel prev src w (n + 1) in
    if v == src then some n else prev v >>= later

-- The loop that fills the path from the index `p` down; `last` is the index of the virtual node.
unfoldable pub fill_back : PrevArray → ℕ → ℕ → ℕ → ℕ → List ℕ → Option (List ℕ)
fill_back prev src last zero v path = none
fill_back prev src last (suc p) v path =
    let path' = if suc p == last then path else set path (suc p) v in
    let later = λ (w : ℕ). if w == src then some path' else fill_back prev src last p w path' in
    prev v >>= later

-- The nodes of the path to the virtual node, without it.
unfoldable pub path_nodes : ℕ → PrevArray → ℕ → ℕ → Option (List ℕ)
unfolding count_nodes fill_back
path_nodes fuel prev src vir = do
  n ← count_nodes fuel prev src vir 1
  path ← fill_back prev src (n - 1) (n - 1) vir (set (replicate (n - 1) 0) 0 src)
  some (set path 0 src)

module _ (d : DoubleOps) (q : MaxQueue) where
  open d use {Double, sub, exp, of_int}

  abbrev pub sub_path : List ℕ → ℕ → PathSearch d q → RedundantSubPath Double
  sub_path path vir s = record {
    path_id = 0;
    node_ids = path;
    retrans_source_node_idx = 0;
    retrans_dst_node_idx = length path - 1;
    link_down_delay = s.down_delays vir;
    one_way_data_delivery_loss_rate = sub (of_int (pos 1)) (exp (s.exact_log_node_relias vir));
  }

  -- From the end of the search: the sub-path, or none where the virtual node was not reached.
  unfoldable pub finish :
      LltcGraph Double
      → ℕ
      → PathSearch d q
      → Option (LltcGraph Double × Option (RedundantSubPath Double))
  unfolding path_nodes remove_virt_node
  finish g src s = elim (s.prev_node_idx g.vir_dst_node) [
    | none ↦ remove_virt_node g >>= λ g'. some (g', none)
    | some _ ↦ do
      path ← path_nodes (length g.nodes) s.prev_node_idx src g.vir_dst_node
      g' ← remove_virt_node g
      some (g', some (sub_path path g.vir_dst_node s))
  ]

  -- The network, which has the virtual node as its last, and the sub-path from `src` to one of the
  -- nodes of `dsts`.
  unfoldable pub gen_path :
      LltcGraph Double
      → ℕ
      → List ℕ
      → List ℕ
      → List ℕ
      → Double
      → Option (LltcGraph Double × Option (RedundantSubPath Double))
  unfolding search start finish add_virt_node
  gen_path g src dsts expelled invalid max_allowed_delay = add_virt_node d dsts g >>= λ g1.
      let barred : ℕ → Bool = λ id. contains invalid id || contains expelled id in
      search d q barred max_allowed_delay (length g1.nodes) g1 (start d q (length g1.nodes) src)
      >>= λ s. finish g1 src s
