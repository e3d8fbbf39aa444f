-- ===== src/Graph/Remove.antt =====
-- LltcGraph::removeVirtNode after addVirtNode: the nodes have the links that they had.
use tafrr.Prelude.{
  ℕ, zero, suc, ◌<◌, ◌≡◌, refl, ◌∙◌, sym, ap, true, false, some, List, [], ◌∷◌, ◌++◌, All, arith,
  ◌==◌, length, get_elem?, contains, All-map,
}
use tafrr.Double.{DoubleOps}
use tafrr.Graph.{
  LltcNode, LltcLink, LltcGraph, update, push_e, push_i, erase_e, erase_i, erase_at, erase_e_at,
  erase_i_at,
}
use tafrr.Graph.Virtual.{add_virt_node, drop_links, no_links, remove_virt_node}
use tafrr.Graph.Spread.{
  each, places, erase_first-append, Below, erase_first-undo, Undoes, each-undo, each_comm, at_vir,
  each-at_vir, spread,
}
use tafrr.Graph.Marks.{
  Marked, Marked-map, Marked-each, Marked-erase, Lists-at_vir, Lists-each, erase_at_lem,
  contains-push, contains-pushed, contains-erase_first,
}
use tafrr.Graph.Restore.{Stored, virt_linked, add_virt_node_known, add_virt_node-Extended}

get_elem?-ne :
    (ns : List LltcNode) (i j : ℕ) (f : LltcNode → LltcNode)
    → (i == j) ≡ false
    → get_elem? (update ns i f) j ≡ get_elem? ns j
get_elem?-ne [] i j f ne = refl
get_elem?-ne (n ∷ ns) zero zero f ne = absurd (ground arith)
get_elem?-ne (n ∷ ns) zero (suc j) f ne = refl
get_elem?-ne (n ∷ ns) (suc i) zero f ne = refl
get_elem?-ne (n ∷ ns) (suc i) (suc j) f ne = get_elem?-ne ns i j f (ground arith)

get_elem?-update :
    (ns : List LltcNode) (i : ℕ) (f : LltcNode → LltcNode) (n : LltcNode)
    → get_elem? ns i ≡ some n
    → get_elem? (update ns i f) i ≡ some (f n)
get_elem?-update [] i f n h = cc
get_elem?-update (m ∷ ns) zero f n h = ground arith
get_elem?-update (m ∷ ns) (suc i) f n h = get_elem?-update ns i f n h

get_elem?-each :
    (h : ℕ → LltcNode → LltcNode) (ids : List ℕ) (p v : ℕ) (ns : List LltcNode)
    → contains ids v ≡ false
    → get_elem? (each h ids p ns) v ≡ get_elem? ns v
get_elem?-each h [] p v ns out = refl
get_elem?-each h (id ∷ ids) p v ns out =
    get_elem?-each h ids (suc p) v (update ns id (h p)) (ground arith)
    ∙ get_elem?-ne ns id v (h p) (ground arith)

snoc-append : (l : List ℕ) (p : ℕ) (ys : List ℕ) → (l ++ p ∷ []) ++ ys ≡ l ++ p ∷ ys
snoc-append [] p ys = refl
snoc-append (k ∷ l) p ys = ap (λ r. k ∷ r) (snoc-append l p ys)

append-nil : (l : List ℕ) → l ++ [] ≡ l
append-nil [] = refl
append-nil (k ∷ l) = ap (λ r. k ∷ r) (append-nil l)

abbrev node_with : List ℕ → List ℕ → LltcNode
node_with e i = record { e_links = e; i_links = i }

get_elem?-at_vir :
    (v : ℕ) (ids : List ℕ) (p : ℕ) (ns : List LltcNode) (e i : List ℕ)
    → get_elem? ns v ≡ some (node_with e i)
    → get_elem? (at_vir v ids p ns) v ≡ some (node_with (e ++ places ids p) (i ++ places ids p))
get_elem?-at_vir v [] p ns e i h =
    h
    ∙ ap (λ k. some (node_with k i)) (sym (append-nil e))
    ∙ ap (λ k. some (node_with (e ++ []) k)) (sym (append-nil i))
get_elem?-at_vir v (id ∷ ids) p ns e i h =
    let pushed =
      get_elem?-update (update ns v (push_e p)) v (push_i p) (node_with (e ++ p ∷ []) i)
        (get_elem?-update ns v (push_e p) (node_with e i) h) in
    get_elem?-at_vir v ids (suc p) _ (e ++ p ∷ []) (i ++ p ∷ []) pushed
    ∙ ap (λ k. some (node_with k ((i ++ p ∷ []) ++ places ids (suc p))))
        (snoc-append e p (places ids (suc p)))
    ∙ ap (λ k. some (node_with (e ++ p ∷ places ids (suc p)) k))
        (snoc-append i p (places ids (suc p)))

clear-update :
    (ns : List LltcNode) (v : ℕ) (f : LltcNode → LltcNode)
    → update (update ns v f) v no_links ≡ update ns v no_links
clear-update [] v f = refl
clear-update (n ∷ ns) zero f = refl
clear-update (n ∷ ns) (suc v) f = ap (λ l. n ∷ l) (clear-update ns v f)

clear-at_vir :
    (v : ℕ) (ids : List ℕ) (p : ℕ) (ns : List LltcNode)
    → update (at_vir v ids p ns) v no_links ≡ update ns v no_links
clear-at_vir v [] p ns = refl
clear-at_vir v (id ∷ ids) p ns =
    clear-at_vir v ids (suc p) _
    ∙ clear-update (update ns v (push_e p)) v (push_i p)
    ∙ clear-update ns v (push_e p)

clear_lem :
    (ns : List LltcNode) (v : ℕ)
    → get_elem? ns v ≡ some (node_with [] [])
    → update ns v no_links ≡ ns
clear_lem [] v h = refl
clear_lem (n ∷ ns) zero h = ground arith
clear_lem (n ∷ ns) (suc v) h = ap (λ l. n ∷ l) (clear_lem ns v h)

Undoes_e : Undoes push_e erase_e (λ p n. Below p n.e_links)
Undoes_e = record {
  undo = λ p n h. ap (λ l. record n { e_links = l }) (erase_first-undo p n.e_links h);
  past = λ p q n lt. ap (λ l. record n { e_links = l }) (erase_first-append p q n.e_links lt);
  later = λ p n h. All-map _ _ (λ (k : ℕ) (lt : k < p). omega arith) n.e_links h;
}

Undoes_i : Undoes push_i erase_i (λ p n. Below p n.i_links)
Undoes_i = record {
  undo = λ p n h. ap (λ l. record n { i_links = l }) (erase_first-undo p n.i_links h);
  past = λ p q n lt. ap (λ l. record n { i_links = l }) (erase_first-append p q n.i_links lt);
  later = λ p n h. All-map _ _ (λ (k : ℕ) (lt : k < p). omega arith) n.i_links h;
}

module _ (d : DoubleOps) where
  open d use {Double}

  drop_links_lem :
      (store : List (LltcLink Double)) (links : LltcNode → List ℕ) (drop : ℕ → LltcNode → LltcNode)
      (v : ℕ) (ids : List ℕ) (p : ℕ) (ns : List LltcNode)
      → ((q r : ℕ) (n : LltcNode)
          → q < r
          → contains (links n) r ≡ true
          → contains (links (drop q n)) r ≡ true)
      → Marked links ids p ns
      → Stored d v store ids p
      → drop_links store (erase_at links drop) v (places ids p) ns ≡ some (each drop ids p ns)
  unfolding drop_links
  drop_links_lem store links drop v [] p ns keeps marked h = refl
  drop_links_lem store links drop v (id ∷ ids) p ns keeps marked h =
      let (l, stored, leads, back) = h.0 in
      let erased = erase_at_lem links drop p id ns marked.0 in
      simp (stored, leads, erased)
        (drop_links_lem store links drop v ids (suc p) (update ns id (drop p)) keeps
          (Marked-erase links drop keeps id ids p ns marked) h.1)

  -- The place of every link of a node is one of the first `p`.
  abbrev pub OldLinks : ℕ → List LltcNode → Type 0
  OldLinks p = All (λ n. Below p n.e_links × Below p n.i_links)

  drop_entering :
      (v : ℕ) (ids : List ℕ) (p : ℕ) (ns : List LltcNode)
      → contains ids v ≡ false
      → OldLinks p ns
      → each erase_i ids p (spread v ids p ns) ≡ at_vir v ids p (each push_e ids p ns)
  drop_entering v ids p ns out old =
      each-at_vir erase_i ids p v ids p (each push_e ids p (each push_i ids p ns)) out
      ∙ ap (λ l. at_vir v ids p l)
          (each_comm erase_i push_e ids p p ids (each push_i ids p ns) (λ r q n. refl)
            ∙ ap (λ l. each push_e ids p l)
                (each-undo push_i erase_i _ Undoes_i ids p ns (
                  All-map _ _ (λ (n : LltcNode) (h : Below p n.e_links × Below p n.i_links). h.1) ns
                    old)))

  drop_leaving :
      (v : ℕ) (ids : List ℕ) (p : ℕ) (ns : List LltcNode)
      → contains ids v ≡ false
      → OldLinks p ns
      → each erase_e ids p (at_vir v ids p (each push_e ids p ns)) ≡ at_vir v ids p ns
  drop_leaving v ids p ns out old =
      each-at_vir erase_e ids p v ids p (each push_e ids p ns) out
      ∙ ap (λ l. at_vir v ids p l)
          (each-undo push_e erase_e _ Undoes_e ids p ns (
            All-map _ _ (λ (n : LltcNode) (h : Below p n.e_links × Below p n.i_links). h.0) ns old))

  -- The neighbours list the links that enter them, and those that leave them.
  Marked-entering :
      (v : ℕ) (ids : List ℕ) (p : ℕ) (ns : List LltcNode)
      → All (λ id. id < length ns) ids
      → Marked (λ n. n.i_links) ids p (spread v ids p ns)
  Marked-entering v ids p ns small =
      let entered = each push_i ids p ns in
      Marked-map (λ n. n.i_links) ids p entered (spread v ids p ns)
        (λ i q le l.
          Lists-at_vir (λ n. n.i_links) v ids p (each push_e ids p entered) i q (λ r n c. c)
            (λ r n c. contains-push q r n.i_links c)
            (Lists-each (λ n. n.i_links) push_e ids p entered i q (λ r n c. c) l))
        (Marked-each (λ n. n.i_links) push_i (λ r n. contains-pushed r n.i_links)
          (λ q r n c. contains-push q r n.i_links c) ids p ns small)

  Marked-leaving :
      (v : ℕ) (ids : List ℕ) (p : ℕ) (ns : List LltcNode)
      → All (λ id. id < length ns) ids
      → Marked (λ n. n.e_links) ids p (at_vir v ids p (each push_e ids p ns))
  Marked-leaving v ids p ns small =
      Marked-map (λ n. n.e_links) ids p (each push_e ids p ns)
        (at_vir v ids p (each push_e ids p ns))
        (λ i q le l.
          Lists-at_vir (λ n. n.e_links) v ids p (each push_e ids p ns) i q
            (λ r n c. contains-push q r n.e_links c) (λ r n c. c) l)
        (Marked-each (λ n. n.e_links) push_e (λ r n. contains-pushed r n.e_links)
          (λ q r n c. contains-push q r n.e_links c) ids p ns small)

  -- In a network whose virtual node exists and has no links, and whose other links are all stored,
  -- addVirtNode with other nodes of the network as neighbours returns, and removeVirtNode after it
  -- returns and gives the nodes the links that they had before. The links of the network stay, and the IDs of virtual
  -- links start again from the largest ID of a link.
  pub remove_virt_node-add_virt_node :
      (ids : List ℕ) (g : LltcGraph Double)
      → contains ids g.vir_dst_node ≡ false
      → get_elem? g.nodes g.vir_dst_node ≡ some (record { e_links = []; i_links = [] })
      → OldLinks (length g.store) g.nodes
      → All (λ id. id < length g.nodes) ids
      → (g1 : LltcGraph Double) × (g' : LltcGraph Double) × (add_virt_node d ids g ≡ some g1)
        × (remove_virt_node g1 ≡ some g')
        × (g'.nodes ≡ g.nodes)
        × (g'.links ≡ g.links)
        × (g'.vir_dst_node ≡ g.vir_dst_node)
        × (g'.max_virt_link_id ≡ g.max_link_id)
  unfolding remove_virt_node
  remove_virt_node-add_virt_node ids g out empty old small =
      let v = g.vir_dst_node in
      let p = length g.store in
      let g1 = virt_linked d ids g in
      let x = add_virt_node-Extended d ids g out in
      let here : get_elem? g1.nodes g1.vir_dst_node
          ≡ some (node_with (places ids p) (places ids p)) =
        ap (λ k. get_elem? k g1.vir_dst_node) x.nodes
        ∙ ap (λ k. get_elem? (spread v ids p g.nodes) k) x.same_vir
        ∙ get_elem?-at_vir v ids p (each push_e ids p (each push_i ids p g.nodes)) [] [] (
            get_elem?-each push_e ids p v (each push_i ids p g.nodes) out
            ∙ get_elem?-each push_i ids p v g.nodes out
            ∙ empty) in
      let first : drop_links g1.store erase_i_at g1.vir_dst_node (places ids p) g1.nodes
          ≡ some (at_vir v ids p (each push_e ids p g.nodes)) =
        ap (λ k. drop_links g1.store erase_i_at k (places ids p) g1.nodes) x.same_vir
        ∙ drop_links_lem g1.store (λ n. n.i_links) erase_i v ids p g1.nodes
            (λ q r n lt c. contains-erase_first q r n.i_links lt c)
            (rw x.nodes (Marked-entering v ids p g.nodes small)) x.stored
        ∙ ap (λ k. some (each erase_i ids p k)) x.nodes
        ∙ ap (λ k. some k) (drop_entering v ids p g.nodes out old) in
      let second : drop_links g1.store erase_e_at g1.vir_dst_node (places ids p)
            (at_vir v ids p (each push_e ids p g.nodes))
          ≡ some (at_vir v ids p g.nodes) =
        ap
          (λ k.
            drop_links g1.store erase_e_at k (places ids p)
              (at_vir v ids p (each push_e ids p g.nodes)))
          x.same_vir
        ∙ drop_links_lem g1.store (λ n. n.e_links) erase_e v ids p
            (at_vir v ids p (each push_e ids p g.nodes))
            (λ q r n lt c. contains-erase_first q r n.e_links lt c)
            (Marked-leaving v ids p g.nodes small) x.stored
        ∙ ap (λ k. some k) (drop_leaving v ids p g.nodes out old) in
      (
        g1,
        record g1 {
          nodes = update (at_vir v ids p g.nodes) g1.vir_dst_node no_links;
          max_virt_link_id = g1.max_link_id;
        },
        add_virt_node_known d ids g small,
        simp (here, first, second) refl,
        ap (λ k. update (at_vir v ids p g.nodes) k no_links) x.same_vir
            ∙ clear-at_vir v ids p g.nodes
            ∙ clear_lem g.nodes v empty,
        x.same_links,
        x.same_vir,
        x.same_max,
      )
