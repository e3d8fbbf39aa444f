-- ===== src/Rsg/Preferred.antt =====
-- LltcRrSubgraph::rsgComputePreferredPathID, with RsgFHKeyFunc: the most reliable route over the
-- sub-graph from its source to its destination, and the paths before and behind the local node on it.
-- `none` stands for undefined behaviour (an empty primary path, a null node); it also stands for
-- spent fuel, which is one unit for each node and two for the walk back.
pub mod Invariant
pub mod Loop
pub mod Stuck
pub mod Start
pub mod Route
pub mod Statuses
use tafrr.Prelude.{
  ℕ, zero, suc, ◌+◌, ◌*◌, ◌-◌, ◌^◌, bit_and, Bool, true, false, not, ◌&&◌, Option, none, some, List,
  [], ◌∷◌, ◌++◌, ◌==◌, if◌then◌else◌, length, get_elem?, set, contains, remove, ◌>>=◌,
}
use tafrr.Prelude.Int.{ℤ, pos}
use tafrr.Prelude.Dict.{Dict, insert, get_or}
use tafrr.Double.{DoubleOps}
use tafrr.MaxQueue.{MaxQueue}
use tafrr.Rsg.{
  Rsg, RsgNode, VirLink, status_normal, status_failure, uint_max, uint64_max, link_id_mark,
}
use tafrr.Rsg.LinkId.{get_link_id}

pub record FiboNode (F : Type 0) : Type 0 where
  pub node_id : ℕ
  pub succ_ratio_in_log : F

pub record PrevNodeInfo : Type 0 where
  pub node_id : ℕ
  pub vir_link_id : ℕ

pub record PreferredLink : Type 0 where
  pub down_link_id : ℕ
  pub up_link_id : ℕ

-- What `rrNodeInfo[id]` reads at a missing key.
abbrev pub blank_info : PrevNodeInfo
blank_info = record { node_id = 0; vir_link_id = 0 }

-- The stretches of the primary path between its failed links, numbered from the source.
unfoldable pub components_from : Dict ℕ → ℕ → ℕ → List ℕ → Dict ℕ → Dict ℕ
components_from statuses id prev [] comps = comps
components_from statuses id prev (node ∷ rest) comps =
    let id' =
      if get_or (get_link_id prev node) status_normal statuses == status_failure
      then id + 1
      else id in
    components_from statuses id' node rest (insert node id' comps)

unfoldable pub components : Dict ℕ → List ℕ → Option (Dict ℕ)
unfolding components_from
components statuses [] = none
components statuses (node ∷ rest) = some (components_from statuses 0 node rest ((node, 0) ∷ []))

-- rsgGetSubGraphNodeByID
unfoldable pub find_node : {F : Type 0} → ℕ → List (RsgNode F) → Option (RsgNode F)
find_node id [] = none
find_node id (node ∷ nodes) = if node.node_id == id then some node else find_node id nodes

-- rsgGetFiboRRNodeByID: the node, and its index for the pointer to it.
unfoldable pub find_fibo_from : {F : Type 0} → ℕ → ℕ → List (FiboNode F) → Option (ℕ × FiboNode F)
find_fibo_from i id [] = none
find_fibo_from i id (node ∷ nodes) =
    if node.node_id == id then some (i, node) else find_fibo_from (i + 1) id nodes

unfoldable pub find_fibo : {F : Type 0} → ℕ → List (FiboNode F) → Option (ℕ × FiboNode F)
unfolding find_fibo_from
find_fibo = find_fibo_from 0

-- The walk back from the destination: the virtual links behind and before the local node.
unfoldable pub trace : ℕ → Dict PrevNodeInfo → ℕ → ℕ → Option (ℕ × ℕ)
trace zero info local id = none
trace (suc fuel) info local id =
    let prev = get_or id blank_info info in
    let before = get_or prev.node_id blank_info info in
    let on = trace fuel info local prev.node_id in
    if prev.node_id == local
    then some
        (prev.vir_link_id, if before.node_id == uint_max then uint64_max else before.vir_link_id)
    else if prev.node_id == uint_max
    then some (uint64_max, uint64_max)
    else on

-- A virtual link's ID as the ID of a path.
unfoldable pub path_of_link : ℕ → ℕ → ℕ
path_of_link prim id =
    if id == uint64_max
    then uint_max
    else if bit_and link_id_mark id == link_id_mark
    then prim
    else id

-- The ID under which a virtual link is remembered.
abbrev pub link_key : {F : Type 0} → VirLink F → ℕ
link_key link = if link.is_on_prim_path then link.link_id else link.path_id

module _ (d : DoubleOps) (q : MaxQueue) where
  open d use {Double, add, mul, div, gtb, of_int, to_int, neg_inf}
  open q use {Heap, size, remove_max, update_key}

  abbrev precision : Double
  precision = of_int (pos 10000000000)

  -- RsgFHKeyFunc::getKey and setKey.
  unfoldable pub get_key : FiboNode Double → ℤ
  get_key node = to_int (mul node.succ_ratio_in_log precision)

  unfoldable pub set_key : FiboNode Double → ℤ → FiboNode Double
  set_key node key = record node { succ_ratio_in_log = div (of_int key) precision }

  unfoldable pub key_at : List (FiboNode Double) → ℕ → ℤ
  unfolding get_key
  key_at fibo i = elim (get_elem? fibo i) [ none ↦ pos 0 | some node ↦ get_key node ]

  pub record Search : Type 0 where
    pub fibo : List (FiboNode Double)
    pub info : Dict PrevNodeInfo
    pub in_fh : List ℕ
    pub heap : Heap

  unfoldable pub seed : ℕ → RsgNode Double → FiboNode Double
  seed src node = record {
    node_id = node.node_id;
    succ_ratio_in_log = if node.node_id == src then of_int (pos 0) else neg_inf;
  }

  -- The body of the loop that fills the arrays and the heap.
  unfoldable pub push : ℕ → RsgNode Double → Search → Search
  unfolding key_at seed
  push src node s =
      let fibo = s.fibo ++ seed src node ∷ [] in
      record {
        fibo = fibo;
        info = insert node.node_id (record { node_id = uint_max; vir_link_id = 0 }) s.info;
        in_fh = node.node_id ∷ s.in_fh;
        heap = q.insert (key_at fibo) (length s.fibo) s.heap;
      }

  unfoldable pub setup : ℕ → List (RsgNode Double) → Search → Search
  unfolding push
  setup src [] s = s
  setup src (node ∷ nodes) s = setup src nodes (push src node s)

  unfoldable pub start : Rsg Double → Search
  unfolding setup
  start rsg =
      setup rsg.src_node_id rsg.nodes (record { fibo = []; info = []; in_fh = []; heap = q.new })

  -- The array after the ratio of `v` at `j` has become `alt` and updateKey has written its key back.
  abbrev pub rewritten :
      ℕ → FiboNode Double → Double → List (FiboNode Double) → List (FiboNode Double)
  rewritten j v alt fibo =
      let better = record v { succ_ratio_in_log = alt } in
      set fibo j (set_key better (get_key better))

  abbrev pub improved :
      FiboNode Double → VirLink Double → ℕ → FiboNode Double → Double → Search → Heap → Search
  improved u link j v alt s heap = record s {
    fibo = rewritten j v alt s.fibo;
    info = insert v.node_id (record { node_id = u.node_id; vir_link_id = link_key link }) s.info;
    heap = heap;
  }

  -- A better ratio for the node `v` at index `j`, reached from `u` over `link`.
  unfoldable pub improve :
      FiboNode Double → VirLink Double → ℕ → FiboNode Double → Double → Search → Option Search
  unfolding get_key set_key key_at
  improve u link j v alt s = update_key (key_at (rewritten j v alt s.fibo)) j s.heap >>= λ heap.
      some (improved u link j v alt s heap)

  module _ (statuses comps : Dict ℕ) where
    -- The body of the loop over the egress links of `u`.
    unfoldable pub relax : FiboNode Double → Search → VirLink Double → Option Search
    unfolding improve
    relax u s link =
        if not (contains s.in_fh link.node_egress)
        then some s
        else if get_or link.link_id status_normal statuses == status_failure
        then some s
        else elim (find_fibo link.node_egress s.fibo) [
          | none ↦ none
          | some (j, v) ↦
              let alt = add u.succ_ratio_in_log link.succ_ratio_in_log in
              if get_or v.node_id 0 comps == get_or u.node_id 0 comps && not link.is_on_prim_path
              then some s
              else if gtb alt v.succ_ratio_in_log
              then improve u link j v alt s
              else some s
        ]

    unfoldable pub relax_all : FiboNode Double → Search → List (VirLink Double) → Option Search
    unfolding relax
    relax_all u s [] = some s
    relax_all u s (link ∷ links) = relax u s link >>= λ s'. relax_all u s' links

    -- One round of `while (fh.size() > 0)`.
    unfoldable pub round : List (RsgNode Double) → Search → Option Search
    unfolding relax_all
    round nodes s = do
      (i, heap) ← remove_max (key_at s.fibo) s.heap
      u ← get_elem? s.fibo i
      node ← find_node u.node_id nodes
      relax_all u (record s { heap = heap; in_fh = remove u.node_id s.in_fh }) node.egress_vir_links

    unfoldable pub search : ℕ → List (RsgNode Double) → Search → Option Search
    unfolding round
    search zero nodes s = elim (size s.heap) [ zero ↦ some s | suc _ ↦ none ]
    search (suc fuel) nodes s = elim (size s.heap) [
      | zero ↦ some s
      | suc _ ↦ round nodes s >>= λ s'. search fuel nodes s'
    ]

  unfoldable pub compute_preferred_path_id : Rsg Double → ℕ → Option PreferredLink
  unfolding components start search trace path_of_link
  compute_preferred_path_id rsg local = do
    comps ← components rsg.link_status_map rsg.prim_path.node_ids
    s ← search rsg.link_status_map comps (length rsg.nodes) rsg.nodes (start rsg)
    (down, up) ← trace (length rsg.nodes + 2) s.info local rsg.dst_node_id
    some (record {
      down_link_id = path_of_link rsg.prim_path_id down;
      up_link_id = path_of_link rsg.prim_path_id up;
    })
