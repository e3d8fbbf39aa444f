-- ===== src/Rsg/Preferred/Loop.antt =====
-- The rounds of the search for the preferred path: none fails outside of the heap, each keeps the
-- invariant, and the heap is empty after as many rounds as it held nodes.
use mathlib.Core.List.{Memᴰ}
use tafrr.Prelude.{
  ℕ, zero, suc, ◌+◌, ◌≤◌, ◌<◌, ◌≡◌, refl, ◌⊎◌, ◌≢◌, none, Option, Option-cases, ◌>>=◌, inl, inr,
  true, false, not, ◌&&◌, some, List, [], ◌∷◌, arith, ◌==◌, length, get_elem?, set, contains,
  remove, ap, Bool-cases, ℕ-cases, contains-remove_self, sym, ◌∙◌,
}
use tafrr.Prelude.Dict.{Dict, get_or, get_or-insert}
use tafrr.Double.{DoubleOps}
use tafrr.MaxQueue.{MaxQueue}
use tafrr.Rsg.{RsgNode, VirLink, status_normal, status_failure, uint_max}
use tafrr.Rsg.Preferred.{
  FiboNode, PrevNodeInfo, blank_info, find_node, find_fibo, find_fibo_from, link_key, Search,
  improve, improved, rewritten, set_key, relax, relax_all, round, search, key_at,
}
use tafrr.Rsg.Preferred.Invariant.{Traced, Ordered, Ordered-insert, node_ids, fibo_ids, Usable}

find_fibo_from_lem :
    {F : Type 0} (i v : ℕ) (fibo : List (FiboNode F))
    → contains (fibo_ids fibo) v ≡ true
    → (j k : ℕ) × (node : FiboNode F) × (find_fibo_from i v fibo ≡ some (j, node))
      × (j ≡ i + k)
      × (node.node_id ≡ v)
      × (get_elem? fibo k ≡ some node)
unfolding find_fibo_from
find_fibo_from_lem i v [] h = cc
find_fibo_from_lem i v (node ∷ fibo) h = elim (Bool-cases (node.node_id == v)) [
  | inl here ↦ (i, 0, node, rw here, omega arith, ground arith, refl)
  | inr later ↦
      let (j, k, found, e, p, id, g) = find_fibo_from_lem (i + 1) v fibo (rw later at h) in
      (j, suc k, found, rw later e, omega arith, id, g)
]

find_fibo_lem :
    {F : Type 0} (v : ℕ) (fibo : List (FiboNode F))
    → contains (fibo_ids fibo) v ≡ true
    → (j : ℕ) × (node : FiboNode F) × (find_fibo v fibo ≡ some (j, node))
      × (node.node_id ≡ v)
      × (get_elem? fibo j ≡ some node)
unfolding find_fibo
find_fibo_lem v fibo h =
    let (j, k, node, e, p, id, g) = find_fibo_from_lem 0 v fibo h in
    let same : k ≡ j = omega arith in (j, node, e, id, rw same at g)

fibo_ids-set :
    {F : Type 0} (fibo : List (FiboNode F)) (j : ℕ) (node x : FiboNode F)
    → get_elem? fibo j ≡ some node
    → x.node_id ≡ node.node_id
    → fibo_ids (set fibo j x) ≡ fibo_ids fibo
fibo_ids-set [] j node x g e = refl
fibo_ids-set (y ∷ fibo) zero node x g e = ground arith
fibo_ids-set (y ∷ fibo) (suc j) node x g e =
    ap (λ l. y.node_id ∷ l) (fibo_ids-set fibo j node x g e)

get_elem?-lt :
    {F : Type 0} (nodes : List (RsgNode F)) (fibo : List (FiboNode F)) (i : ℕ)
    → fibo_ids fibo ≡ node_ids nodes
    → i < length nodes
    → (u : FiboNode F) × (get_elem? fibo i ≡ some u) × (contains (node_ids nodes) u.node_id ≡ true)
get_elem?-lt [] fibo i e h = absurd (omega arith)
get_elem?-lt (node ∷ nodes) [] i e h = cc
get_elem?-lt (node ∷ nodes) (u ∷ fibo) zero e h = (u, refl, ground arith)
get_elem?-lt (node ∷ nodes) (u ∷ fibo) (suc i) e h =
    let (w, g, c) = get_elem?-lt nodes fibo i (cc) (omega arith) in (w, g, ground arith)

find_node_lem :
    {F : Type 0} (v : ℕ) (nodes : List (RsgNode F))
    → contains (node_ids nodes) v ≡ true
    → (node : RsgNode F) × (find_node v nodes ≡ some node)
unfolding find_node
find_node_lem v [] h = cc
find_node_lem v (node ∷ nodes) h = elim (Bool-cases (node.node_id == v)) [
  | inl here ↦ (node, rw here)
  | inr later ↦ let (found, e) = find_node_lem v nodes (rw later at h) in (found, rw later e)
]

contains-remove_sub :
    (a v : ℕ) (xs : List ℕ) → contains (remove a xs) v ≡ true → contains xs v ≡ true
contains-remove_sub a v [] h = cc
contains-remove_sub a v (x ∷ xs) h = ground (arith, contains-remove_sub a v xs)

contains-remove_ne : (a v : ℕ) (xs : List ℕ) → contains (remove a xs) v ≡ true → (a == v) ≡ false
contains-remove_ne a v xs h = elim (Bool-cases (a == v)) [
  | inl same ↦ ground (arith, contains-remove_self a xs)
  | inr other ↦ other
]

module _ (d : DoubleOps) (q : MaxQueue) (statuses comps : Dict ℕ)
    (nodes : List (RsgNode d.Double)) where
  open q use {Has, size}

  -- The info of `v` comes from a usable link.
  abbrev pub Justified : Dict PrevNodeInfo → ℕ → Type 0
  Justified info v =
      let prev = get_or v blank_info info in
      (prev.node_id ≡ uint_max)
      ⊎ ((link : VirLink d.Double) × Usable statuses comps nodes prev.node_id v link
          × (prev.vir_link_id ≡ link_key link))

  pub record Inv (done : List ℕ) (s : Search d q) : Type 0 where
    pub ids : fibo_ids s.fibo ≡ node_ids nodes
    pub queued : (v : ℕ) → contains s.in_fh v ≡ true → contains (node_ids nodes) v ≡ true
    pub fresh : (v : ℕ) → contains s.in_fh v ≡ true → contains done v ≡ false
    pub held : (i : ℕ) → Has s.heap i → i < length nodes
    pub traced : (v : ℕ) → contains (node_ids nodes) v ≡ true → Traced done s.info v
    pub justified : (v : ℕ) → contains (node_ids nodes) v ≡ true → Justified s.info v
    pub ordered : Ordered done s.info
    pub settled : (v : ℕ) → contains done v ≡ true → contains (node_ids nodes) v ≡ true

  improved-Inv :
      (done : List ℕ) (u : FiboNode d.Double) (link : VirLink d.Double) (j : ℕ)
      (v : FiboNode d.Double) (alt : d.Double) (s : Search d q) (heap : q.Heap)
      → Inv done s
      → contains done u.node_id ≡ true
      → contains s.in_fh v.node_id ≡ true
      → get_elem? s.fibo j ≡ some v
      → Usable statuses comps nodes u.node_id v.node_id link
      → ((i : ℕ) → Has heap i → Has s.heap i)
      → Inv done (improved d q u link j v alt s heap)
  unfolding set_key
  improved-Inv done u link j v alt s heap h seen waiting g usable sub = record {
    ids = fibo_ids-set s.fibo j v _ g refl ∙ h.ids;
    queued = h.queued;
    fresh = h.fresh;
    held = λ i p. h.held i (sub i p);
    traced = λ w p. elim (Bool-cases (w == v.node_id)) [
      | inl e ↦ rw (get_or-insert w v.node_id blank_info _ s.info, e) (inr seen)
      | inr e ↦ rw (get_or-insert w v.node_id blank_info _ s.info, e) (h.traced w p)
    ];
    justified = λ w p. elim (Bool-cases (w == v.node_id)) [
      | inl e ↦
          let same : w ≡ v.node_id = ground arith in
          rw (get_or-insert w v.node_id blank_info _ s.info, e) (inr (link, rw same usable, refl))
      | inr e ↦ rw (get_or-insert w v.node_id blank_info _ s.info, e) (h.justified w p)
    ];
    ordered = Ordered-insert done v.node_id _ s.info (h.fresh v.node_id waiting) h.ordered;
    settled = h.settled;
  }

  -- The search `s` after a step that may get stuck in the heap.
  abbrev pub Step : List ℕ → Search d q → Option (Search d q) → ℕ → Type 0
  Step done s o n = (s' : Search d q) × (o ≡ some s') × Inv done s' × (size s'.heap ≡ n)

  improve-stuck :
      (u : FiboNode d.Double) (link : VirLink d.Double) (j : ℕ) (v : FiboNode d.Double)
      (alt : d.Double) (s : Search d q)
      → q.update_key (key_at d q (rewritten d q j v alt s.fibo)) j s.heap ≡ none
      → improve d q u link j v alt s ≡ none
  unfolding improve
  improve-stuck u link j v alt s stuck =
      ap (λ o. o >>= λ hp. some (improved d q u link j v alt s hp)) stuck

  improve-Inv :
      (done : List ℕ) (u : FiboNode d.Double) (link : VirLink d.Double) (j : ℕ)
      (v : FiboNode d.Double) (alt : d.Double) (s : Search d q)
      → Inv done s
      → contains done u.node_id ≡ true
      → contains s.in_fh v.node_id ≡ true
      → get_elem? s.fibo j ≡ some v
      → Usable statuses comps nodes u.node_id v.node_id link
      → (q.update_key (key_at d q (rewritten d q j v alt s.fibo)) j s.heap ≡ none)
        ⊎ Step done s (improve d q u link j v alt s) (size s.heap)
  unfolding improve
  improve-Inv done u link j v alt s h seen waiting g usable =
      let key = key_at d q (rewritten d q j v alt s.fibo) in
      elim (Option-cases (q.update_key key j s.heap)) [
        | inl stuck ↦ inl stuck
        | inr (heap, moved) ↦ inr (
          improved d q u link j v alt s heap,
          ap (λ o. o >>= λ hp. some (improved d q u link j v alt s hp)) moved,
          improved-Inv done u link j v alt s heap h seen waiting g usable
              (λ i. q.has-update_key key j i s.heap heap moved),
          q.size-update_key key j s.heap heap moved,
        )
      ]

  -- Where an operation of the heap is stuck: updateKey at a link, removeMax or a link in a round, and
  -- in a round of the loop.
  abbrev pub RelaxStuck : FiboNode d.Double → Search d q → VirLink d.Double → Type 0
  RelaxStuck u s link =
      (j : ℕ) × (v : FiboNode d.Double) × (find_fibo link.node_egress s.fibo ≡ some (j, v))
      × (q.update_key
            (key_at d q
              (rewritten d q j v (d.add u.succ_ratio_in_log link.succ_ratio_in_log) s.fibo))
            j s.heap
          ≡ none)
      × (relax d q statuses comps u s link ≡ none)

  abbrev pub LinksStuck : FiboNode d.Double → Search d q → List (VirLink d.Double) → Type 0
  LinksStuck u s [] = ⊥
  LinksStuck u s (link ∷ links) =
      RelaxStuck u s link
      ⊎ ((s' : Search d q) × (relax d q statuses comps u s link ≡ some s') × LinksStuck u s' links)

  abbrev pub RoundStuck : Search d q → Type 0
  RoundStuck s =
      (q.remove_max (key_at d q s.fibo) s.heap ≡ none)
      ⊎ ((i : ℕ) × (heap : q.Heap) × (u : FiboNode d.Double) × (node : RsgNode d.Double)
          × (q.remove_max (key_at d q s.fibo) s.heap ≡ some (i, heap))
          × (get_elem? s.fibo i ≡ some u)
          × (find_node u.node_id nodes ≡ some node)
          × LinksStuck u (record s { heap = heap; in_fh = remove u.node_id s.in_fh })
              node.egress_vir_links)

  abbrev pub SearchStuck : ℕ → Search d q → Type 0
  SearchStuck zero s = ⊥
  SearchStuck (suc fuel) s =
      (size s.heap ≢ 0)
      × (RoundStuck s
          ⊎ ((s' : Search d q) × (round d q statuses comps nodes s ≡ some s')
              × SearchStuck fuel s'))

  module _ (done : List ℕ) (u : FiboNode d.Double) (node : RsgNode d.Double)
      (link : VirLink d.Double) (s : Search d q) (h : Inv done s)
      (seen : contains done u.node_id ≡ true) (found : find_node u.node_id nodes ≡ some node)
      (listed : Memᴰ link node.egress_vir_links) where
    abbrev Kept : Type 0
    Kept = RelaxStuck u s link ⊎ Step done s (relax d q statuses comps u s link) (size s.heap)

    -- A link to a waiting node that is not marked as failed.
    relax_open :
        contains s.in_fh link.node_egress ≡ true
        → (get_or link.link_id status_normal statuses == status_failure) ≡ false
        → Kept
    unfolding relax
    relax_open waiting sound =
        let known : contains (fibo_ids s.fibo) link.node_egress ≡ true =
          rw h.ids (h.queued link.node_egress waiting) in
        let (j, v, e, id, g) = find_fibo_lem link.node_egress s.fibo known in
        let alt = d.add u.succ_ratio_in_log link.succ_ratio_in_log in
        let usable =
          λ (bridge : (get_or v.node_id 0 comps == get_or u.node_id 0 comps
                && not link.is_on_prim_path)
              ≡ false).
            let r : Usable statuses comps nodes u.node_id v.node_id link = record {
              node = node;
              found = found;
              listed = listed;
              ends = sym id;
              not_failed = ground arith;
              bridges = ground arith;
            } in
            r in
        elim (Bool-cases
          (get_or v.node_id 0 comps == get_or u.node_id 0 comps && not link.is_on_prim_path)) [
            | inl skip ↦ inr (s, rw (waiting, sound, e, skip) refl, h, refl)
            | inr bridge ↦ elim (Bool-cases (d.gtb alt v.succ_ratio_in_log)) [
              | inr worse ↦ inr (s, rw (waiting, sound, e, bridge, worse) refl, h, refl)
              | inl better ↦
                  elim (improve-Inv done u link j v alt s h seen (rw id waiting) g
                    (usable bridge)) [
                      | inl stuck ↦ inl (
                        j,
                        v,
                        e,
                        stuck,
                        rw (waiting, sound, e, bridge, better)
                            (improve-stuck u link j v alt s stuck),
                      )
                      | inr (s', done_so, h', n') ↦
                          inr (s', rw (waiting, sound, e, bridge, better) done_so, h', n')
                    ]
            ]
          ]

    -- One link: the body fails only in updateKey, and keeps the invariant and the size of the heap.
    relax_lem : Kept
    unfolding relax
    relax_lem = elim (Bool-cases (contains s.in_fh link.node_egress)) [
      | inr gone ↦ inr (s, rw gone refl, h, refl)
      | inl waiting ↦
          elim (Bool-cases (get_or link.link_id status_normal statuses == status_failure)) [
            | inl failed ↦ inr (s, rw (waiting, failed) refl, h, refl)
            | inr sound ↦ relax_open waiting sound
          ]
    ]

  relax_all_lem :
      (done : List ℕ) (u : FiboNode d.Double) (node : RsgNode d.Double)
      (links : List (VirLink d.Double)) (s : Search d q)
      → Inv done s
      → contains done u.node_id ≡ true
      → find_node u.node_id nodes ≡ some node
      → ((link : VirLink d.Double) → Memᴰ link links → Memᴰ link node.egress_vir_links)
      → LinksStuck u s links ⊎ Step done s (relax_all d q statuses comps u s links) (size s.heap)
  unfolding relax_all
  relax_all_lem done u node [] s h seen found sub = inr (s, refl, h, refl)
  relax_all_lem done u node (link ∷ links) s h seen found sub =
      elim (relax_lem done u node link s h seen found (sub link (Memᴰ.head refl))) [
        | inl stuck ↦ inl (inl stuck)
        | inr (s1, e1, h1, n1) ↦
            elim (relax_all_lem done u node links s1 h1 seen found (λ l m. sub l (Memᴰ.tail m))) [
              | inl stuck ↦ inl (inr (s1, e1, stuck))
              | inr (s2, e2, h2, n2) ↦ inr (s2, rw e1 e2, h2, n2 ∙ n1)
            ]
      ]

  -- One round fails only in the heap: it takes one node off it and puts it before those taken so far.
  round_lem :
      (done : List ℕ) (s : Search d q) (n : ℕ)
      → Inv done s
      → size s.heap ≡ suc n
      → RoundStuck s ⊎ ((u : ℕ) × Step (u ∷ done) s (round d q statuses comps nodes s) n)
  unfolding round
  round_lem done s n h full = elim (Option-cases (q.remove_max (key_at d q s.fibo) s.heap)) [
    | inl stuck ↦ inl (inl stuck)
    | inr ((i, heap), e) ↦
        let inside = q.has-removed (key_at d q s.fibo) s.heap heap i e in
        let smaller = q.size-remove_max (key_at d q s.fibo) s.heap heap i n e full in
        let (u, g, known) = get_elem?-lt nodes s.fibo i h.ids (h.held i inside) in
        let (node, found) = find_node_lem u.node_id nodes known in
        let s1 = record s { heap = heap; in_fh = remove u.node_id s.in_fh } in
        let h1 : Inv (u.node_id ∷ done) s1 = record {
          ids = h.ids;
          queued = λ v p. h.queued v (contains-remove_sub u.node_id v s.in_fh p);
          fresh = λ v p.
              rw (contains-remove_ne u.node_id v s.in_fh p)
                (h.fresh v (contains-remove_sub u.node_id v s.in_fh p));
          held = λ j p. h.held j (q.has-remove_max (key_at d q s.fibo) s.heap heap i j e p);
          traced = λ v p. ground (arith, h.traced v p);
          justified = h.justified;
          ordered = (h.traced u.node_id known, h.ordered);
          settled = λ v p. settled_cons v u.node_id known p;
        } in
        elim (relax_all_lem (u.node_id ∷ done) u node node.egress_vir_links s1 h1 (ground arith)
          found (λ l m. m)) [
            | inl stuck ↦ inl (inr (i, heap, u, node, e, g, found, stuck))
            | inr (s2, e2, h2, n2) ↦ inr (u.node_id, (s2, rw (e, g, found) e2, h2, n2 ∙ smaller))
          ]
  ]
    where
      settled_cons :
          (v u : ℕ)
          → contains (node_ids nodes) u ≡ true
          → contains (u ∷ done) v ≡ true
          → contains (node_ids nodes) v ≡ true
      settled_cons v u known p = elim (Bool-cases (u == v)) [
        | inl same ↦ let e : u ≡ v = ground arith in rw e at known
        | inr other ↦ h.settled v (rw other at p)
      ]

  -- With as much fuel as the heap has nodes the loop ends, and extracts no more than those, unless an
  -- operation of the heap is stuck.
  pub search_lem :
      (fuel : ℕ) (done : List ℕ) (s : Search d q)
      → Inv done s
      → size s.heap ≤ fuel
      → SearchStuck fuel s
        ⊎ ((done' : List ℕ) × (s' : Search d q) × (search d q statuses comps fuel nodes s ≡ some s')
            × Inv done' s'
            × (length done' ≤ length done + size s.heap))
  unfolding search
  search_lem zero done s h enough =
      let empty : size s.heap ≡ 0 = omega arith in
      inr (done, s, rw (empty, search) refl, h, omega arith)
  search_lem (suc fuel) done s h enough = elim (ℕ-cases (size s.heap)) [
    | inl empty ↦ inr (done, s, rw (empty, search) refl, h, omega arith)
    | inr (n, full) ↦ elim (round_lem done s n h full) [
      | inl stuck ↦ inl (λ e. absurd (omega (arith, e, full)), inl stuck)
      | inr (u, (s1, e1, h1, n1)) ↦ elim (search_lem fuel (u ∷ done) s1 h1 (omega arith)) [
        | inl stuck ↦ inl (λ e. absurd (omega (arith, e, full)), inr (s1, e1, stuck))
        | inr (done', s2, e2, h2, n2) ↦
            inr (done', s2, rw (full, search) (rw e1 e2), h2, omega arith)
      ]
    ]
  ]
