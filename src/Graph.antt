-- ===== src/Graph.antt =====
-- model/lltc/lltc-graph.cpp: the network as nodes and two-way links. A `LltcNode*` is its place in
-- `nodes`, which is its ID (createNode gives the i-th node the ID i); a `LltcLink*` is its place in
-- `store`, which holds every link that createLink made. `none` is undefined behaviour, or the null
-- pointer where the source returns it. `F` is the type of the C++ doubles.
pub mod Links
pub mod Symmetry
pub mod Virtual
pub mod Spread
pub mod Marks
pub mod Restore
pub mod Remove
use tafrr.Prelude.{
  ℕ, zero, suc, ◌+◌, Bool, ◌&&◌, ◌||◌, Option, none, some, List, [], ◌∷◌, ◌++◌, ◌==◌, if◌then◌else◌,
  length, get_elem?, contains, ◌>>=◌,
}
use tafrr.Prelude.Int.{ℤ, pos, negsuc}
use tafrr.Double.{DoubleOps}

pub record LltcNode : Type 0 where
  pub e_links : List ℕ
  pub i_links : List ℕ

pub record LltcLink (F : Type 0) : Type 0 where
  pub link_id : ℕ
  pub node_a : ℕ
  pub node_b : ℕ
  pub ab_delay_total : ℤ
  pub ba_delay_total : ℤ
  pub ab_delay_trans : ℤ
  pub ba_delay_trans : ℤ
  pub ab_delay_queue : ℤ
  pub ba_delay_queue : ℤ
  pub ab_delay_process : ℤ
  pub ba_delay_process : ℤ
  pub ab_relia : F
  pub ab_relia_in_log : F
  pub ba_relia : F
  pub ba_relia_in_log : F

-- The delays of one direction of a link.
pub record Delays : Type 0 where
  pub total : ℤ
  pub trans : ℤ
  pub process : ℤ
  pub queue : ℤ

pub record LltcGraph (F : Type 0) : Type 0 where
  pub nodes : List LltcNode
  pub store : List (LltcLink F)
  pub links : List ℕ
  pub max_link_id : ℕ
  pub max_virt_link_id : ℕ
  pub vir_dst_node : ℕ

-- The node at a place changed by `f`.
abbrev pub update : List LltcNode → ℕ → (LltcNode → LltcNode) → List LltcNode
update [] i f = []
update (n ∷ ns) zero f = f n ∷ ns
update (n ∷ ns) (suc i) f = n ∷ update ns i f

abbrev pub push_e : ℕ → LltcNode → LltcNode
push_e l n = record n { e_links = n.e_links ++ l ∷ [] }

abbrev pub push_i : ℕ → LltcNode → LltcNode
push_i l n = record n { i_links = n.i_links ++ l ∷ [] }

-- The list without the first `l`.
abbrev pub erase_first : ℕ → List ℕ → List ℕ
erase_first l [] = []
erase_first l (k ∷ ks) = let rest = erase_first l ks in if k == l then ks else k ∷ rest

abbrev pub erase_e : ℕ → LltcNode → LltcNode
erase_e l n = record n { e_links = erase_first l n.e_links }

abbrev pub erase_i : ℕ → LltcNode → LltcNode
erase_i l n = record n { i_links = erase_first l n.i_links }

-- `links->erase(find(begin, end, p))` at the node `i`: `none` where `p` is not found, as erasing the end
-- is undefined behaviour, and out of range.
unfoldable pub erase_at :
    (LltcNode → List ℕ) → (ℕ → LltcNode → LltcNode) → ℕ → ℕ → List LltcNode → Option (List LltcNode)
erase_at links drop p i ns =
    get_elem? ns i >>= λ n. (if contains (links n) p then some (update ns i (drop p)) else none)

abbrev pub erase_e_at : ℕ → ℕ → List LltcNode → Option (List LltcNode)
erase_e_at = erase_at (λ n. n.e_links) erase_e

abbrev pub erase_i_at : ℕ → ℕ → List LltcNode → Option (List LltcNode)
erase_i_at = erase_at (λ n. n.i_links) erase_i

-- The four `push_back` calls that attach a link to its ends.
unfoldable pub attach : ℕ → ℕ → ℕ → List LltcNode → List LltcNode
attach a b l ns =
    update (update (update (update ns a (push_e l)) b (push_i l)) b (push_e l)) a (push_i l)

module _ (d : DoubleOps) where
  -- createLink, with the ends that its callers set.
  unfoldable pub create_link : ℕ → ℕ → ℕ → d.Double → d.Double → Delays → Delays → LltcLink d.Double
  create_link id a b ab_relia ba_relia ab ba = record {
    link_id = id;
    node_a = a;
    node_b = b;
    ab_delay_total = ab.total;
    ba_delay_total = ba.total;
    ab_delay_trans = ab.trans;
    ba_delay_trans = ba.trans;
    ab_delay_queue = ab.queue;
    ba_delay_queue = ba.queue;
    ab_delay_process = ab.process;
    ba_delay_process = ba.process;
    ab_relia = ab_relia;
    ab_relia_in_log = d.log ab_relia;
    ba_relia = ba_relia;
    ba_relia_in_log = d.log ba_relia;
  }

  -- The call of createLink passes `abRelia` for both directions.
  unfoldable pub add_link_dual :
      ℕ → ℕ → d.Double → d.Double → Delays → Delays → LltcGraph d.Double → LltcGraph d.Double
  unfolding attach create_link
  add_link_dual a b ab_relia ba_relia ab ba g = record g {
    nodes = attach a b (length g.store) g.nodes;
    store = g.store ++ create_link g.max_link_id a b ab_relia ab_relia ab ba ∷ [];
    links = g.links ++ length g.store ∷ [];
    max_link_id = g.max_link_id + 1;
  }

  unfoldable pub add_virt_link_dual : d.Double → ℕ → ℕ → LltcGraph d.Double → LltcGraph d.Double
  unfolding attach create_link
  add_virt_link_dual one a b g =
      let no_delay : Delays = record {
        total = pos 0;
        trans = pos 0;
        process = pos 0;
        queue = pos 0;
      } in
      record g {
        nodes = attach a b (length g.store) g.nodes;
        store = g.store ++ create_link g.max_virt_link_id a b one one no_delay no_delay ∷ [];
        max_virt_link_id = g.max_virt_link_id + 1;
      }

module _ {F : Type 0} where
  -- The four `erase` calls of removeLinkDual.
  unfoldable pub detach : ℕ → LltcLink F → List LltcNode → Option (List LltcNode)
  unfolding erase_at
  detach p l ns = do
    ns1 ← erase_e_at p l.node_a ns
    ns2 ← erase_i_at p l.node_a ns1
    ns3 ← erase_e_at p l.node_b ns2
    erase_i_at p l.node_b ns3

  -- `(*links)[linkId]` is the place of the link among `links`, which keep it.
  unfoldable pub remove_link_dual : ℕ → LltcGraph F → Option (LltcGraph F)
  unfolding detach
  remove_link_dual id g = do
    p ← get_elem? g.links id
    l ← get_elem? g.store p
    ns ← detach p l g.nodes
    some (record g { nodes = ns })

  -- The loop of getLinkByNodeIds and getLink.
  unfoldable pub first_link : List (LltcLink F) → List ℕ → ℕ → Option (LltcLink F)
  first_link store [] b = none
  first_link store (p ∷ ps) b =
      let later = first_link store ps b in
      get_elem? store p >>= λ l. (if l.node_b == b || l.node_a == b then some l else later)

  unfoldable pub get_link_by_node_ids : LltcGraph F → ℕ → ℕ → Option (LltcLink F)
  unfolding first_link
  get_link_by_node_ids g a b = get_elem? g.nodes a >>= λ n. first_link g.store n.e_links b

  unfoldable pub find_link_by_id_in : List (LltcLink F) → List ℕ → ℕ → Option (LltcLink F)
  find_link_by_id_in store [] id = none
  find_link_by_id_in store (p ∷ ps) id =
      let later = find_link_by_id_in store ps id in
      get_elem? store p >>= λ l. (if l.link_id == id then some l else later)

  unfoldable pub find_link_by_id : LltcGraph F → ℕ → Option (LltcLink F)
  unfolding find_link_by_id_in
  find_link_by_id g id = find_link_by_id_in g.store g.links id

  unfoldable pub get_link_op_side : LltcLink F → ℕ → Option ℕ
  get_link_op_side l c =
      if c == l.node_a then some l.node_b else if c == l.node_b then some l.node_a else none

  -- The getters: the value of the direction from `a` to `b`, and `other` for ends of another link.
  abbrev pub directed {ℓ} : {A : Type ℓ} → LltcLink F → ℕ → ℕ → A → A → A → A
  directed l a b ab ba other =
      if l.node_a == a && l.node_b == b
      then ab
      else if l.node_b == a && l.node_a == b
      then ba
      else other

  unfoldable pub get_link_delay_total : LltcLink F → ℕ → ℕ → ℤ
  get_link_delay_total l a b = directed l a b l.ab_delay_total l.ba_delay_total (negsuc 0)

  unfoldable pub get_link_delay_trans : LltcLink F → ℕ → ℕ → ℤ
  get_link_delay_trans l a b = directed l a b l.ab_delay_trans l.ba_delay_trans (negsuc 0)

  unfoldable pub get_link_delay_queue : LltcLink F → ℕ → ℕ → ℤ
  get_link_delay_queue l a b = directed l a b l.ab_delay_queue l.ba_delay_queue (negsuc 0)

  unfoldable pub get_link_delay_process : LltcLink F → ℕ → ℕ → ℤ
  get_link_delay_process l a b = directed l a b l.ab_delay_process l.ba_delay_process (negsuc 0)

  -- `minus_one` is the double -1.0.
  unfoldable pub get_link_succ_ratio : F → LltcLink F → ℕ → ℕ → Bool → F
  get_link_succ_ratio minus_one l a b in_log =
      directed l a b (if in_log then l.ab_relia_in_log else l.ab_relia)
        (if in_log then l.ba_relia_in_log else l.ba_relia) minus_one
