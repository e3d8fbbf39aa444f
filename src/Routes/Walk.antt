-- ===== src/Routes/Walk.antt =====
-- genPath from its start to the path that it reads off the search.
use tafrr.Prelude.{
  ℕ, zero, suc, ◌+◌, ◌≤◌, ◌<◌, ◌≡◌, ◌⊎◌, refl, inl, inr, ap, Bool, true, false, ◌||◌, Option, none,
  some, List, [], ◌∷◌, arith, ◌==◌, length, contains, Bool-cases, Option-cases,
}
use tafrr.Prelude.Int.{ℤ}
use tafrr.Double.{DoubleOps}
use tafrr.MaxQueue.{MaxQueue}
use tafrr.Graph.{LltcGraph}
use tafrr.Graph.Virtual.{add_virt_node, remove_virt_node}
use tafrr.Rsg.Build.{RedundantSubPath}
use tafrr.Routes.{PrevArray}
use tafrr.Routes.GenPath.{PathSearch, insert_nodes, start, finish, gen_path, path_nodes, sub_path}
use tafrr.Routes.Paths.{Back, onto, path_to, path_nodes_lem}
use tafrr.Routes.Stuck.{SearchStuck-none}
use tafrr.Routes.Search.{Ordered, WellFormed, Edge, Reached, Inv, SearchStuck, search_lem}

-- Each node of a path has a link to the next that is not barred, the last one to `t`.
abbrev pub LeadsTo : {F : Type 0} → LltcGraph F → (ℕ → Bool) → List ℕ → ℕ → Type 0
LeadsTo g barred [] t = Unit
LeadsTo g barred (x ∷ []) t = Edge g barred x t
LeadsTo g barred (x ∷ y ∷ rest) t = Edge g barred x y × LeadsTo g barred (y ∷ rest) t

module _ (q : MaxQueue) (key : ℕ → ℤ) where
  size-insert_nodes :
      (d : DoubleOps) (n i : ℕ) (h : q.Heap) → q.size (insert_nodes d q key n i h) ≡ n + q.size h
  unfolding insert_nodes
  size-insert_nodes d zero i h = omega arith
  size-insert_nodes d (suc n) i h =
      omega (arith, size-insert_nodes d n (suc i) (q.insert key i h), q.size-insert key i h)

  Has-insert_nodes :
      (d : DoubleOps) (n i j : ℕ) (h : q.Heap)
      → q.Has (insert_nodes d q key n i h) j
      → q.Has h j ⊎ (j < n + i)
  unfolding insert_nodes
  Has-insert_nodes d zero i j h m = inl m
  Has-insert_nodes d (suc n) i j h m = elim (Has-insert_nodes d n (suc i) j (q.insert key i h) m) [
    | inr lt ↦ inr (omega (arith, lt))
    | inl m' ↦ elim (q.has-insert key i j h m') [
      | inl same ↦ inr (omega (arith, same))
      | inr old ↦ inl old
    ]
  ]

module _ (d : DoubleOps) (q : MaxQueue) (g : LltcGraph d.Double) (barred : ℕ → Bool)
    (max_allowed : d.Double) (src : ℕ) where
  start-Inv :
      0 < length g.nodes → Inv d q g barred max_allowed src [] (start d q (length g.nodes) src)
  unfolding start
  start-Inv some_node = record {
    queued = λ v. refl;
    held = λ i p. elim (Has-insert_nodes q _ d (length g.nodes) 0 i q.new p) [
      | inl m ↦ omega (arith, q.has-new i m, some_node)
      | inr lt ↦ omega (arith, lt)
    ];
    via = λ v u e. cc;
    unreached = λ v ne e. ground arith;
    ordered = tt;
  }

  size-start : q.size (start d q (length g.nodes) src).heap ≡ length g.nodes
  unfolding start
  size-start = omega (arith, size-insert_nodes q _ d (length g.nodes) 0 q.new, q.size-new)

  -- The way back from a removed node that was reached.
  walk :
      (all : List ℕ) (s : PathSearch d q) (done : List ℕ) (u : ℕ)
      → Inv d q g barred max_allowed src all s
      → Ordered s.prev_node_idx done
      → contains done u ≡ true
      → Reached d q g barred max_allowed src s.prev_node_idx u
      → (us : List ℕ) × Back s.prev_node_idx src u us × (suc (length us) ≤ length done)
  walk all s [] u h o m r = cc
  walk all s (x ∷ rest) u h o m r = elim (Bool-cases (u == src)) [
    | inl home ↦ ([], ground arith, omega arith)
    | inr away ↦ elim (Bool-cases (x == u)) [
      | inr later ↦
          let (us, b, len) = walk all s rest u h o.1 (ground (arith, later)) r in
          (us, b, omega (arith, len))
      | inl first ↦ elim r [
        | inl e ↦ absurd (ground (arith, away, e))
        | inr (w, e) ↦
            let here : x ≡ u = ground arith in
            let behind : contains rest w ≡ true = o.0 w (rw here e) in
            let (us, b, len) = walk all s rest w h o.1 behind (h.via u w e).reached in
            (w ∷ us, (ground (arith, away), e, b), omega (arith, len))
      ]
    ]
  ]

  -- The links along the way back lead to what follows it.
  onto-LeadsTo :
      (done : List ℕ) (s : PathSearch d q) (u t : ℕ) (us ys : List ℕ)
      → Inv d q g barred max_allowed src done s
      → Back s.prev_node_idx src u us
      → LeadsTo g barred (u ∷ ys) t
      → LeadsTo g barred (onto us (u ∷ ys)) t
  onto-LeadsTo done s u t [] ys h b w = w
  onto-LeadsTo done s u t (v ∷ us) ys h b w =
      onto-LeadsTo done s v t us (u ∷ ys) h b.2 ((h.via u v b.1).edge, w)

onto-first :
    (prev : PrevArray) (src u : ℕ) (us ys : List ℕ)
    → Back prev src u us
    → (rest : List ℕ) × (onto us (u ∷ ys) ≡ src ∷ rest)
onto-first prev src u [] ys b = (ys, ap (λ x. x ∷ ys) b)
onto-first prev src u (v ∷ us) ys b = onto-first prev src v us (u ∷ ys) b.2

-- What genPath finds: a path of the network with its virtual node, from `src` to that node, over links
-- that are not barred; the delay and the loss rate are not looked at.
pub record IsSubPath {F : Type 0} (g : LltcGraph F) (barred : ℕ → Bool) (src : ℕ)
    (rsp : RedundantSubPath F) : Type 0 where
  pub later : List ℕ
  pub begins : rsp.node_ids ≡ src ∷ later
  pub linked : LeadsTo g barred rsp.node_ids g.vir_dst_node
  pub source_idx : rsp.retrans_source_node_idx ≡ 0
  pub dst_idx : suc rsp.retrans_dst_node_idx ≡ length rsp.node_ids

abbrev pub MaybeSubPath :
    {F : Type 0} → LltcGraph F → (ℕ → Bool) → ℕ → Option (RedundantSubPath F) → Type 0
MaybeSubPath g barred src none = Unit
MaybeSubPath g barred src (some rsp) = IsSubPath g barred src rsp

module _ (d : DoubleOps) (q : MaxQueue)
    (law : (x y : d.Double) → d.gtb (d.add x d.neg_inf) y ≡ false) where
  finish_lem :
      (g g' : LltcGraph d.Double) (barred : ℕ → Bool) (max_allowed : d.Double) (src : ℕ)
      (done : List ℕ) (s : PathSearch d q)
      → remove_virt_node g ≡ some g'
      → Inv d q g barred max_allowed src done s
      → length done ≡ length g.nodes
      → (r : Option (RedundantSubPath d.Double)) × (finish d q g src s ≡ some (g', r))
        × MaybeSubPath g barred src r
  unfolding finish
  finish_lem g g' barred max_allowed src done s removed h len =
      elim (Option-cases (s.prev_node_idx g.vir_dst_node)) [
        | inl off ↦ (none, rw (off, finish) (simp (removed) refl), tt)
        | inr (u, on) ↦
            let via = h.via g.vir_dst_node u on in
            let (us, b, short) =
              walk d q g barred max_allowed src done s done u h h.ordered via.removed via.reached in
            let found : path_nodes (length g.nodes) s.prev_node_idx src g.vir_dst_node
                ≡ some (path_to u us) =
              path_nodes_lem s.prev_node_idx src (length g.nodes) g.vir_dst_node u us
                (via.not_src, on, b) (omega (arith, short, len)) in
            let (rest, first) = onto-first s.prev_node_idx src u us [] b in
            (
              some (sub_path d q (path_to u us) g.vir_dst_node s),
              rw (on, finish) (simp (found, removed) refl),
              record {
                later = rest;
                begins = first;
                linked =
                    onto-LeadsTo d q g barred max_allowed src done s u g.vir_dst_node us [] h b
                      via.edge;
                source_idx = refl;
                dst_idx = ground (arith, first);
              },
            )
      ]

  -- genPath returns where the network with the virtual node is well formed and the node can be taken
  -- out again, unless the search is stuck in its heap. What it finds, if it does, is a path from `src` to
  -- the virtual node.
  pub gen_path_found :
      (g g1 g' : LltcGraph d.Double) (src : ℕ) (dsts expelled invalid : List ℕ)
      (max_allowed : d.Double)
      → add_virt_node d dsts g ≡ some g1
      → 0 < length g1.nodes
      → WellFormed g1
      → remove_virt_node g1 ≡ some g'
      → SearchStuck d q g1
            (λ id. contains invalid id || contains expelled id)
            max_allowed
            src
            (length g1.nodes)
            (start d q (length g1.nodes) src)
          × (gen_path d q g src dsts expelled invalid max_allowed ≡ none)
        ⊎ ((r : Option (RedundantSubPath d.Double)) × (gen_path d q g src dsts expelled invalid
                max_allowed
              ≡ some (g', r))
            × MaybeSubPath g1 (λ id. contains invalid id || contains expelled id) src r)
  unfolding gen_path
  gen_path_found g g1 g' src dsts expelled invalid max_allowed added some_node whole removed =
      let barred : ℕ → Bool = λ id. contains invalid id || contains expelled id in
      elim (search_lem d q g1 barred max_allowed src law whole (length g1.nodes) []
        (start d q (length g1.nodes) src) (start-Inv d q g1 barred max_allowed src some_node)
        (size-start d q g1 barred max_allowed src)) [
          | inl stuck ↦
              let no_result =
                SearchStuck-none d q g1 barred max_allowed src (length g1.nodes)
                  (start d q (length g1.nodes) src) stuck in
              inl (stuck, simp (added, no_result) refl)
          | inr (done, s, ran, h, len) ↦
              let (r, e, p) =
                finish_lem g1 g' barred max_allowed src done s removed h (omega (arith, len)) in
              inr (r, simp (added, ran) e, p)
        ]
