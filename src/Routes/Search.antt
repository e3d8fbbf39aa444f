-- ===== src/Routes/Search.antt =====
-- The search of genPath: each round keeps the invariant, and none fails outside of the heap.
use mathlib.Core.Path.{subst}
use tafrr.Prelude.{
  ℕ, zero, suc, ◌+◌, ◌<◌, ◌≡◌, ◌≢◌, ◌⊎◌, refl, Option, ap, ◌>>=◌, inl, inr, ◌∙◌, sym, Bool, true,
  false, not, none, some, List, [], ◌∷◌, All, arith, ◌==◌, if◌then◌else◌, length, get_elem?,
  contains, Bool-cases, Option-cases,
}
use tafrr.Prelude.Int.{ℤ, ◌+ℤ◌}
use tafrr.Double.{DoubleOps}
use tafrr.MaxQueue.{MaxQueue}
use tafrr.Graph.{LltcNode, LltcLink, LltcGraph, get_link_op_side, get_link_delay_total}
use tafrr.Routes.{PrevArray, put}
use tafrr.Routes.GenPath.{
  PathSearch, get_link_relia, rewritten, improved, improve, relax_to, relax, relax_all, taken,
  round, search, get_key,
}

-- In the order of removal, newest first, each previous node was removed before.
abbrev pub Ordered : PrevArray → List ℕ → Type 0
Ordered prev [] = Unit
Ordered prev (x ∷ rest) = ((u : ℕ) → prev x ≡ some u → contains rest u ≡ true) × Ordered prev rest

put_lem {ℓ} : {A : Type ℓ} (i j : ℕ) (v : A) (a : ℕ → A) → put i v a j ≡ (if j == i then v else a j)
put_lem i j v a = refl

Ordered-put :
    (prev : PrevArray) (v u : ℕ) (done : List ℕ)
    → contains done v ≡ false
    → Ordered prev done
    → Ordered (put v (some u) prev) done
Ordered-put prev v u [] new h = tt
Ordered-put prev v u (x ∷ rest) new h =
    let other : (x == v) ≡ false = ground arith in
    (λ w e. h.0 w (ground (arith, other)), Ordered-put prev v u rest (ground arith) h.1)

-- Every link that leaves a node leads to a node.
abbrev pub LinkLeads : {F : Type 0} → LltcGraph F → ℕ → ℕ → Type 0
LinkLeads {F} g u p =
    (l : LltcLink F) × (get_elem? g.store p ≡ some l)
    × (v : ℕ) × (get_link_op_side l u ≡ some v)
    × (v < length g.nodes)

abbrev pub WellFormed : {F : Type 0} → LltcGraph F → Type 0
WellFormed g =
    (u : ℕ) (node : LltcNode) → get_elem? g.nodes u ≡ some node → All (LinkLeads g u) node.e_links

-- A link that leads from `u` to `v` and is not barred.
pub record Edge {F : Type 0} (g : LltcGraph F) (barred : ℕ → Bool) (u v : ℕ) : Type 0 where
  pub node : LltcNode
  pub place : ℕ
  pub link : LltcLink F
  pub at_u : get_elem? g.nodes u ≡ some node
  pub leaves : contains node.e_links place ≡ true
  pub stored : get_elem? g.store place ≡ some link
  pub allowed : barred link.link_id ≡ false
  pub leads : get_link_op_side link u ≡ some v

module _ (d : DoubleOps) (q : MaxQueue) (g : LltcGraph d.Double) (barred : ℕ → Bool)
    (max_allowed : d.Double) (src : ℕ) where
  -- The node `u` was reached.
  abbrev pub Reached : PrevArray → ℕ → Type 0
  Reached prev u = (u ≡ src) ⊎ ((w : ℕ) × (prev u ≡ some w))

  pub record Via (done : List ℕ) (prev : PrevArray) (v u : ℕ) : Type 0 where
    pub removed : contains done u ≡ true
    pub begun : contains done src ≡ true
    pub edge : Edge g barred u v
    pub not_src : v ≢ src
    pub reached : Reached prev u

  pub record Inv (done : List ℕ) (s : PathSearch d q) : Type 0 where
    pub queued : (v : ℕ) → s.is_node_id_in_q v ≡ not (contains done v)
    pub held : (i : ℕ) → q.Has s.heap i → i < length g.nodes
    pub via : (v u : ℕ) → s.prev_node_idx v ≡ some u → Via done s.prev_node_idx v u
    pub unreached : (v : ℕ) → v ≢ src → s.prev_node_idx v ≡ none → s.log_node_relias v ≡ d.neg_inf
    pub ordered : Ordered s.prev_node_idx done

  Reached-put : (prev : PrevArray) (v u w : ℕ) → Reached prev w → Reached (put v (some u) prev) w
  Reached-put prev v u w (inl e) = inl e
  Reached-put prev v u w (inr (x, e)) = elim (Bool-cases (w == v)) [
    | inl same ↦ inr (u, rw same refl)
    | inr other ↦ inr (x, rw other e)
  ]

  improved-Inv :
      (done : List ℕ) (u v : ℕ) (log_link : d.Double) (delay : ℤ) (s : PathSearch d q)
      (heap : q.Heap)
      → Inv done s
      → contains done v ≡ false
      → Via done s.prev_node_idx v u
      → ((i : ℕ) → q.Has heap i → q.Has s.heap i)
      → Inv done (improved d q u v log_link delay s heap)
  improved-Inv done u v log_link delay s heap h new via sub = record {
    queued = h.queued;
    held = λ i p. h.held i (sub i p);
    via = λ w x e. elim (Bool-cases (w == v)) [
      | inl same ↦
          let at_v : w ≡ v = ground arith in
          let from_u : u ≡ x = ground (arith, same) in
          let via' : Via done (put v (some u) s.prev_node_idx) v u = record {
            removed = via.removed;
            begun = via.begun;
            edge = via.edge;
            not_src = via.not_src;
            reached = Reached-put s.prev_node_idx v u u via.reached;
          } in
          subst (λ (y : ℕ). Via done (put v (some u) s.prev_node_idx) y x) (sym at_v)
            (subst (λ (y : ℕ). Via done (put v (some u) s.prev_node_idx) v y) from_u via')
      | inr other ↦
          let old = h.via w x (ground (arith, other)) in
          record {
            removed = old.removed;
            begun = old.begun;
            edge = old.edge;
            not_src = old.not_src;
            reached = Reached-put s.prev_node_idx v u x old.reached;
          }
    ];
    unreached = λ w ne e. elim (Bool-cases (w == v)) [
      | inl same ↦ absurd (ground (arith, same))
      | inr other ↦ rw other (h.unreached w ne (ground (arith, other)))
    ];
    ordered = Ordered-put s.prev_node_idx v u done new h.ordered;
  }

  -- A step from `s` that does not get stuck in the heap.
  abbrev pub Step : List ℕ → PathSearch d q → Option (PathSearch d q) → ℕ → Type 0
  Step done s o n = (s' : PathSearch d q) × (o ≡ some s') × Inv done s' × (q.size s'.heap ≡ n)

  -- updateKey is stuck for the node `v`, reached over `l` from `u`.
  abbrev pub KeyStuck : ℕ → ℕ → LltcLink d.Double → PathSearch d q → Type 0
  KeyStuck u v l s =
      let log_link = d.add (get_link_relia d q l u v) (get_link_relia d q l v u) in
      q.update_key
        (get_key d q (rewritten d q v (d.add log_link (s.log_node_relias u)) s.log_node_relias)) v
        s.heap
      ≡ none

  abbrev pub LinkStuck : ℕ → LltcLink d.Double → PathSearch d q → Type 0
  LinkStuck u l s =
      (v : ℕ) × (get_link_op_side l u ≡ some v)
      × KeyStuck u v l s
      × (relax d q barred max_allowed u l s ≡ none)

  -- Where an operation of the heap is stuck: updateKey at a link, removeMax or a link in a round, and
  -- in a round of the loop.
  abbrev pub LinksStuck : ℕ → List ℕ → PathSearch d q → Type 0
  LinksStuck u [] s = ⊥
  LinksStuck u (p ∷ ps) s =
      (l : LltcLink d.Double) × (get_elem? g.store p ≡ some l)
      × (LinkStuck u l s
          ⊎ ((s' : PathSearch d q) × (relax d q barred max_allowed u l s ≡ some s')
              × LinksStuck u ps s'))

  abbrev pub RoundStuck : PathSearch d q → Type 0
  RoundStuck s =
      (q.remove_max (get_key d q s.log_node_relias) s.heap ≡ none)
      ⊎ ((u : ℕ) × (heap : q.Heap) × (node : LltcNode) × (q.remove_max
              (get_key d q s.log_node_relias) s.heap
            ≡ some (u, heap))
          × (get_elem? g.nodes u ≡ some node)
          × LinksStuck u node.e_links (taken d q barred max_allowed u heap s))

  abbrev pub SearchStuck : ℕ → PathSearch d q → Type 0
  SearchStuck zero s = ⊥
  SearchStuck (suc n) s =
      (q.size s.heap ≢ 0)
      × (RoundStuck s
          ⊎ ((s' : PathSearch d q) × (round d q barred max_allowed g s ≡ some s')
              × SearchStuck n s'))

  improve-stuck :
      (u v : ℕ) (log_link : d.Double) (delay : ℤ) (s : PathSearch d q)
      → q.update_key
          (get_key d q (rewritten d q v (d.add log_link (s.log_node_relias u)) s.log_node_relias))
          v
          s.heap
        ≡ none
      → improve d q u v log_link delay s ≡ none
  unfolding improve
  improve-stuck u v log_link delay s stuck =
      ap (λ o. o >>= λ hp. some (improved d q u v log_link delay s hp)) stuck

  improve-Inv :
      (done : List ℕ) (u v : ℕ) (log_link : d.Double) (delay : ℤ) (s : PathSearch d q)
      → Inv done s
      → contains done v ≡ false
      → Via done s.prev_node_idx v u
      → (q.update_key
            (get_key d q (rewritten d q v (d.add log_link (s.log_node_relias u)) s.log_node_relias))
            v
            s.heap
          ≡ none)
        ⊎ Step done s (improve d q u v log_link delay s) (q.size s.heap)
  unfolding improve
  improve-Inv done u v log_link delay s h new via =
      let key =
        get_key d q (rewritten d q v (d.add log_link (s.log_node_relias u)) s.log_node_relias) in
      elim (Option-cases (q.update_key key v s.heap)) [
        | inl stuck ↦ inl stuck
        | inr (heap, moved) ↦ inr (
          improved d q u v log_link delay s heap,
          ap (λ o. o >>= λ hp. some (improved d q u v log_link delay s hp)) moved,
          improved-Inv done u v log_link delay s heap h new via
              (λ i. q.has-update_key key v i s.heap heap moved),
          q.size-update_key key v s.heap heap moved,
        )
      ]

  -- A sum with the logarithm of no reliability exceeds nothing.
  module _ (law : (x y : d.Double) → d.gtb (d.add x d.neg_inf) y ≡ false)
      (whole : WellFormed g) where
    reach :
        (done : List ℕ) (u : ℕ) (x y : d.Double) (s : PathSearch d q)
        → Inv done s
        → d.gtb (d.add x (s.log_node_relias u)) y ≡ true
        → Reached s.prev_node_idx u
    reach done u x y s h more = elim (Bool-cases (u == src)) [
      | inl same ↦ inl (ground arith)
      | inr other ↦ elim (Option-cases (s.prev_node_idx u)) [
        | inl off ↦
            let low : s.log_node_relias u ≡ d.neg_inf = h.unreached u (ground arith) off in
            absurd (ground (arith, low, law x y, more))
        | inr on ↦ inr on
      ]
    ]

    relax_to-Inv :
        (done : List ℕ) (u v : ℕ) (l : LltcLink d.Double) (s : PathSearch d q)
        → Inv done s
        → contains done u ≡ true
        → contains done v ≡ false
        → Edge g barred u v
        → KeyStuck u v l s × (relax_to d q barred max_allowed u v l s ≡ none)
          ⊎ Step done s (relax_to d q barred max_allowed u v l s) (q.size s.heap)
    unfolding relax_to
    relax_to-Inv done u v l s h removed new edge =
        let delay = get_link_delay_total l v u +ℤ s.down_delays u in
        let log_link = d.add (get_link_relia d q l u v) (get_link_relia d q l v u) in
        elim (Bool-cases (d.gtb (d.of_int (s.down_delays u +ℤ delay)) max_allowed)) [
          | inl late ↦ inr (s, rw (late, relax_to) refl, h, refl)
          | inr soon ↦
              elim (Bool-cases
                (d.gtb (d.add log_link (s.log_node_relias u)) (s.log_node_relias v))) [
                  | inl more ↦
                      let reached = reach done u log_link (s.log_node_relias v) s h more in
                      let begun : contains done src ≡ true = elim reached [
                        | inl e ↦ rw e at removed
                        | inr (w, e) ↦ (h.via u w e).begun
                      ] in
                      elim (improve-Inv done u v log_link delay s h new (record {
                        removed = removed;
                        begun = begun;
                        edge = edge;
                        not_src = λ e. cc;
                        reached = reached;
                      })) [
                        | inl stuck ↦ inl (
                          stuck,
                          rw (soon, relax_to, more) (improve-stuck u v log_link delay s stuck),
                        )
                        | inr (s', done_so, h', n') ↦
                            inr (s', rw (soon, relax_to, more) done_so, h', n')
                      ]
                  | inr less ↦ inr (s, rw (soon, relax_to, less) refl, h, refl)
                ]
        ]

    relax_lem :
        (done : List ℕ) (u p : ℕ) (node : LltcNode) (s : PathSearch d q)
        → Inv done s
        → contains done u ≡ true
        → get_elem? g.nodes u ≡ some node
        → contains node.e_links p ≡ true
        → LinkLeads g u p
        → (l : LltcLink d.Double) × (get_elem? g.store p ≡ some l)
          × (LinkStuck u l s ⊎ Step done s (relax d q barred max_allowed u l s) (q.size s.heap))
    unfolding relax
    relax_lem done u p node s h removed at_u leaves (l, stored, v, leads, lt) =
        elim (Bool-cases (barred l.link_id)) [
          | inl out ↦ (l, stored, inr (s, rw (out, relax) refl, h, refl))
          | inr ok ↦ elim (Bool-cases (s.is_node_id_in_q v)) [
            | inr gone ↦ (l, stored, inr (s, rw (ok, relax, leads, gone) refl, h, refl))
            | inl waits ↦
                let new : contains done v ≡ false = ground (arith, h.queued v, waits) in
                let edge : Edge g barred u v = record {
                  node = node;
                  place = p;
                  link = l;
                  at_u = at_u;
                  leaves = leaves;
                  stored = stored;
                  allowed = ok;
                  leads = leads;
                } in
                (
                  l,
                  stored,
                  elim (relax_to-Inv done u v l s h removed new edge) [
                    | inl stuck ↦ inl (v, leads, stuck.0, rw (ok, relax, leads, waits) stuck.1)
                    | inr (s', done_so, h', n') ↦
                        inr (s', rw (ok, relax, leads, waits) done_so, h', n')
                  ],
                )
          ]
        ]

    relax_all_lem :
        (done : List ℕ) (u : ℕ) (node : LltcNode) (ps : List ℕ) (s : PathSearch d q)
        → Inv done s
        → contains done u ≡ true
        → get_elem? g.nodes u ≡ some node
        → ((p : ℕ) → contains ps p ≡ true → contains node.e_links p ≡ true)
        → All (LinkLeads g u) ps
        → LinksStuck u ps s
          ⊎ Step done s (relax_all d q barred max_allowed g.store u ps s) (q.size s.heap)
    unfolding relax_all
    relax_all_lem done u node [] s h removed at_u sub leads = inr (s, refl, h, refl)
    relax_all_lem done u node (p ∷ ps) s h removed at_u sub leads =
        let (l, stored, step) =
          relax_lem done u p node s h removed at_u (sub p (ground arith)) leads.0 in
        elim step [
          | inl stuck ↦ inl (l, stored, inl stuck)
          | inr (s1, e1, h1, n1) ↦
              elim (relax_all_lem done u node ps s1 h1 removed at_u
                (λ r m. sub r (ground (arith, m))) leads.1) [
                  | inl stuck ↦ inl (l, stored, inr (s1, e1, stuck))
                  | inr (s2, e2, h2, n2) ↦ inr (s2, simp (stored, e1) e2, h2, n2 ∙ n1)
                ]
        ]

    taken-Inv :
        (done : List ℕ) (u : ℕ) (heap : q.Heap) (s : PathSearch d q)
        → Inv done s
        → ((j : ℕ) → q.Has heap j → q.Has s.heap j)
        → Inv (u ∷ done) (taken d q barred max_allowed u heap s)
    taken-Inv done u heap s h sub = record {
      queued = λ v. ground (arith, h.queued v);
      held = λ i p. h.held i (sub i p);
      via = λ v w e.
          let old = h.via v w e in
          record {
            removed = ground (arith, old.removed);
            begun = ground (arith, old.begun);
            edge = old.edge;
            not_src = old.not_src;
            reached = old.reached;
          };
      unreached = h.unreached;
      ordered = (λ w e. (h.via u w e).removed, h.ordered);
    }

    at_place :
        {A : Type 0} (xs : List A) (i : ℕ) → i < length xs → (x : A) × (get_elem? xs i ≡ some x)
    at_place [] i h = absurd (omega arith)
    at_place (x ∷ xs) zero h = (x, refl)
    at_place (x ∷ xs) (suc i) h = at_place xs i (omega arith)

    round_lem :
        (done : List ℕ) (n : ℕ) (s : PathSearch d q)
        → Inv done s
        → q.size s.heap ≡ suc n
        → RoundStuck s ⊎ ((u : ℕ) × Step (u ∷ done) s (round d q barred max_allowed g s) n)
    unfolding round
    round_lem done n s h e =
        let key = get_key d q s.log_node_relias in
        elim (Option-cases (q.remove_max key s.heap)) [
          | inl stuck ↦ inl (inl stuck)
          | inr ((u, heap), popped) ↦
              let (node, at_u) =
                at_place g.nodes u (h.held u (q.has-removed key s.heap heap u popped)) in
              let left = q.size-remove_max key s.heap heap u n popped e in
              let h1 =
                taken-Inv done u heap s h (λ j. q.has-remove_max key s.heap heap u j popped) in
              elim (relax_all_lem (u ∷ done) u node node.e_links
                (taken d q barred max_allowed u heap s) h1 (ground arith) at_u (λ p m. m)
                (whole u node at_u)) [
                  | inl stuck ↦ inl (inr (u, heap, node, popped, at_u, stuck))
                  | inr (s', done_all, h', same) ↦
                      inr (u, (s', simp (popped, at_u) done_all, h', same ∙ left))
                ]
        ]

    pub search_lem :
        (n : ℕ) (done : List ℕ) (s : PathSearch d q)
        → Inv done s
        → q.size s.heap ≡ n
        → SearchStuck n s
          ⊎ ((done' : List ℕ) × (s' : PathSearch d q) × (search d q barred max_allowed n g s
                ≡ some s')
              × Inv done' s'
              × (length done' ≡ n + length done))
    unfolding search
    search_lem zero done s h e = inr (done, s, rw (e, search) refl, h, omega arith)
    search_lem (suc n) done s h e = elim (round_lem done n s h e) [
      | inl stuck ↦ inl (λ z. absurd (omega (arith, z, e)), inl stuck)
      | inr (u, (s1, r, h1, e1)) ↦ elim (search_lem n (u ∷ done) s1 h1 e1) [
        | inl stuck ↦ inl (λ z. absurd (omega (arith, z, e)), inr (s1, r, stuck))
        | inr (done', s2, r2, h2, len) ↦
            inr (done', s2, rw (e, search) (simp (r) r2), h2, omega (arith, len))
      ]
    ]
