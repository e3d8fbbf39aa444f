-- ===== src/Graph/Restore.antt =====
-- LltcGraph::removeVirtNode after addVirtNode: the network is as it was.
use mathlib.Core.Path.{subst}
use tafrr.Prelude.{
  ℕ, zero, suc, ◌≡◌, refl, ◌∙◌, ap, false, some, List, [], ◌∷◌, ◌++◌, arith, ◌==◌, length,
  get_elem?, length-append, contains, All, ◌<◌, ◌>>=◌,
}
use tafrr.Prelude.Int.{pos}
use tafrr.Double.{DoubleOps}
use tafrr.Graph.{
  update, push_e, push_i, Delays, LltcLink, LltcGraph, attach, create_link, add_virt_link_dual,
  get_link_op_side,
}
use tafrr.Graph.Virtual.{add_virt_node}
use tafrr.Graph.Marks.{node_at, length-update}
use tafrr.Graph.Spread.{spread, spread-cons}

module _ (d : DoubleOps) where
  open d use {Double}

  -- A virtual link at its place.
  abbrev pub Stored : ℕ → List (LltcLink Double) → List ℕ → ℕ → Type 0
  Stored v store [] p = Unit
  Stored v store (id ∷ ids) p =
      ((l : LltcLink Double) × (get_elem? store p ≡ some l)
        × (get_link_op_side l v ≡ some id)
        × (get_link_op_side l id ≡ some v))
      × Stored v store ids (suc p)

  get_elem?-append :
      (xs ys : List (LltcLink Double)) (i : ℕ) (x : LltcLink Double)
      → get_elem? xs i ≡ some x
      → get_elem? (xs ++ ys) i ≡ some x
  get_elem?-append [] ys i x h = cc
  get_elem?-append (y ∷ xs) ys zero x h = h
  get_elem?-append (y ∷ xs) ys (suc i) x h = get_elem?-append xs ys i x h

  get_elem?-last :
      (xs : List (LltcLink Double)) (x : LltcLink Double)
      → get_elem? (xs ++ x ∷ []) (length xs) ≡ some x
  get_elem?-last [] x = refl
  get_elem?-last (y ∷ xs) x = get_elem?-last xs x

  abbrev add_virt_link_dual_link : ℕ → LltcGraph Double → LltcLink Double
  unfolding create_link
  add_virt_link_dual_link id g =
      let no_delay : Delays = record {
        total = pos 0;
        trans = pos 0;
        process = pos 0;
        queue = pos 0;
      } in
      create_link d g.max_virt_link_id id g.vir_dst_node (d.of_int (pos 1)) (d.of_int (pos 1))
        no_delay no_delay

  -- The network after addVirtNode.
  pub record Extended (ids : List ℕ) (g g' : LltcGraph Double) : Type 0 where
    pub nodes : g'.nodes ≡ spread g.vir_dst_node ids (length g.store) g.nodes
    pub kept :
        (i : ℕ) (l : LltcLink Double) → get_elem? g.store i ≡ some l → get_elem? g'.store i ≡ some l
    pub stored : Stored g.vir_dst_node g'.store ids (length g.store)
    pub same_links : g'.links ≡ g.links
    pub same_vir : g'.vir_dst_node ≡ g.vir_dst_node
    pub same_max : g'.max_link_id ≡ g.max_link_id

  length-snoc :
      (xs : List (LltcLink Double)) (x : LltcLink Double) → length (xs ++ x ∷ []) ≡ suc (length xs)
  length-snoc xs x = omega (arith, length-append xs (x ∷ []))

  link-Extended :
      (id : ℕ) (ids : List ℕ) (g g' : LltcGraph Double)
      → (id == g.vir_dst_node) ≡ false
      → contains ids g.vir_dst_node ≡ false
      → Extended ids (add_virt_link_dual d (d.of_int (pos 1)) id g.vir_dst_node g) g'
      → Extended (id ∷ ids) g g'
  unfolding add_virt_link_dual create_link get_link_op_side
  link-Extended id ids g g' ne out h =
      let v = g.vir_dst_node in
      let l = add_virt_link_dual_link id g in
      let len = length-snoc g.store l in
      record {
        nodes =
            h.nodes
            ∙ ap (λ k. spread v ids k (attach id v (length g.store) g.nodes)) len
            ∙ spread-cons v id (length g.store) ids g.nodes ne out;
        kept = λ i x e. h.kept i x (get_elem?-append g.store (l ∷ []) i x e);
        stored = (
          (l, h.kept (length g.store) l (get_elem?-last g.store l), ground arith, ground arith),
          subst (λ (k : ℕ). Stored v g'.store ids k) len h.stored,
        );
        same_links = h.same_links;
        same_vir = h.same_vir;
        same_max = h.same_max;
      }

  -- The virtual links to each of the neighbours.
  abbrev pub virt_linked : List ℕ → LltcGraph Double → LltcGraph Double
  virt_linked [] g = g
  virt_linked (id ∷ ids) g =
      virt_linked ids (add_virt_link_dual d (d.of_int (pos 1)) id g.vir_dst_node g)

  length-add_virt_link_dual :
      (one : Double) (a b : ℕ) (g : LltcGraph Double)
      → length (add_virt_link_dual d one a b g).nodes ≡ length g.nodes
  unfolding add_virt_link_dual attach
  length-add_virt_link_dual one a b g =
      let l = length g.store in
      let ns1 = update g.nodes a (push_e l) in
      let ns2 = update ns1 b (push_i l) in
      length-update (update ns2 b (push_e l)) a (push_i l)
      ∙ length-update ns2 b (push_e l)
      ∙ length-update ns1 b (push_i l)
      ∙ length-update g.nodes a (push_e l)

  pub add_virt_node_known :
      (ids : List ℕ) (g : LltcGraph Double)
      → All (λ id. id < length g.nodes) ids
      → add_virt_node d ids g ≡ some (virt_linked ids g)
  unfolding add_virt_node
  add_virt_node_known [] g small = refl
  add_virt_node_known (id ∷ ids) g small =
      let (n, at) = node_at g.nodes id small.0 in
      let g1 = add_virt_link_dual d (d.of_int (pos 1)) id g.vir_dst_node g in
      let len = length-add_virt_link_dual (d.of_int (pos 1)) id g.vir_dst_node g in
      ap (λ o. o >>= λ m. add_virt_node d ids g1) at ∙ add_virt_node_known ids g1 (rw len small.1)

  pub add_virt_node-Extended :
      (ids : List ℕ) (g : LltcGraph Double)
      → contains ids g.vir_dst_node ≡ false
      → Extended ids g (virt_linked ids g)
  unfolding add_virt_link_dual
  add_virt_node-Extended [] g out = record {
    nodes = refl;
    kept = λ i l h. h;
    stored = tt;
    same_links = refl;
    same_vir = refl;
    same_max = refl;
  }
  add_virt_node-Extended (id ∷ ids) g out =
      let ne : (id == g.vir_dst_node) ≡ false = ground arith in
      let out' : contains ids g.vir_dst_node ≡ false = ground arith in
      let g1 = add_virt_link_dual d (d.of_int (pos 1)) id g.vir_dst_node g in
      let ih : Extended ids g1 (virt_linked ids g1) =
        add_virt_node-Extended ids g1 (ground arith) in
      link-Extended id ids g (virt_linked ids g1) ne out' ih
