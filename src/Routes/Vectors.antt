-- ===== src/Routes/Vectors.antt =====
-- ResilientRouteGenerationForReroute::genResilientRoutesVectors and genRedundantSubPaths, with
-- FHKeyFuncLossRate: the primary paths from one source with the sub-paths of each node. As in genPath,
-- setKey writes the key back into the array of the search.
use tafrr.Prelude.{
  ℕ, zero, suc, ◌-◌, ◌^◌, Bool, true, false, not, Option, none, some, List, [], ◌∷◌, ◌++◌,
  if◌then◌else◌, length, get_elem?, ◌>>=◌, ltb, ◌||◌,
}
use tafrr.Prelude.Int.{ℤ, pos, negsuc}
use tafrr.Double.{DoubleOps}
use tafrr.MaxQueue.{MaxQueue}
use tafrr.Graph.{LltcLink, LltcGraph, get_link_op_side, get_link_delay_total, get_link_succ_ratio}
use tafrr.Rsg.Build.{RedundantSubPath}
use tafrr.Routes.{
  LltcConfiguration, PrevArray, put, convert_prev_array_to_path_node_ids_array,
  convert_path_node_ids_array_to_link_ids_set, link_ids_from, is_in_array,
}
use tafrr.Routes.GenPath.{gen_path, insert_nodes}

pub record ResilientRouteVectors (F : Type 0) : Type 0 where
  pub src_node_id : ℕ
  pub n : ℕ
  pub expected_loss_rates : ℕ → F
  pub max_delays : ℕ → F
  pub max_prim_path_delays : ℕ → F
  pub prev_node_idx : PrevArray
  pub rsps_map : ℕ → Option (List (RedundantSubPath F))

abbrev pub last_of : List ℕ → Option ℕ
last_of [] = none
last_of (x ∷ []) = some x
last_of (x ∷ y ∷ xs) = last_of (y ∷ xs)

module _ (d : DoubleOps) (q : MaxQueue) where
  open d use {Double, add, sub, mul, div, neg, gtb, eqb, of_int, to_int}
  open q use {Heap, size, remove_max, update_key, new}

  abbrev Rsp : Type 0
  Rsp = RedundantSubPath Double

  -- The links of a new sub-path are kept from the next searches, unless it was the last.
  unfoldable pub expel : ℕ → LltcGraph Double → List ℕ → List ℕ → Option (List ℕ)
  unfolding link_ids_from
  expel zero g path expelled = some expelled
  expel (suc k) g [] expelled = some expelled
  expel (suc k) g (node ∷ rest) expelled = link_ids_from g node rest expelled

  -- The loop of genRedundantSubPaths with at most the given number of rounds to go.
  unfoldable pub gen_rsps_from :
      ℕ
      → LltcGraph Double
      → ℕ
      → List ℕ
      → List ℕ
      → List ℕ
      → Double
      → List Rsp
      → Option (LltcGraph Double × List Rsp)
  unfolding gen_path is_in_array expel
  gen_rsps_from zero g src dsts expelled invalid max_allowed r = some (g, r)
  gen_rsps_from (suc k) g src dsts expelled invalid max_allowed r =
      let later = λ (g' : LltcGraph Double) (sp : Rsp) (ids : List ℕ).
        gen_rsps_from k g' src dsts ids invalid max_allowed (r ++ sp ∷ []) in
      gen_path d q g src dsts expelled invalid max_allowed >>= λ found. elim found.1 [
        | none ↦ some (found.0, r)
        | some sp ↦
            if is_in_array r sp
            then some (found.0, r)
            else (expel k found.0 sp.node_ids expelled >>= λ ids. later found.0 sp ids)
      ]

  unfoldable pub gen_redundant_sub_paths :
      LltcGraph Double
      → ℕ
      → List ℕ
      → List ℕ
      → LltcConfiguration Double
      → Double
      → Option (LltcGraph Double × List Rsp)
  unfolding gen_rsps_from
  gen_redundant_sub_paths g src dsts invalid config max_allowed =
      gen_rsps_from config.beta g src dsts [] invalid max_allowed []

  abbrev one : Double
  one = of_int (pos 1)

  abbrev zero_double : Double
  zero_double = of_int (pos 0)

  -- FHKeyFuncLossRate::getKey and the value that setKey writes.
  abbrev loss_precision : Double
  loss_precision = of_int (pos (10 ^ 18))

  abbrev neg_ℤ : ℤ → ℤ
  neg_ℤ (pos zero) = pos zero
  neg_ℤ (pos (suc n)) = negsuc n
  neg_ℤ (negsuc n) = pos (suc n)

  unfoldable pub loss_key : (ℕ → Double) → ℕ → ℤ
  loss_key rates i = neg_ℤ (to_int (mul (rates i) loss_precision))

  unfoldable pub of_loss_key : ℤ → Double
  of_loss_key key = div (neg (of_int key)) loss_precision

  pub record VectorSearch : Type 0 where
    pub rrv : ResilientRouteVectors Double
    pub graph : LltcGraph Double
    pub is_node_id_in_q : ℕ → Bool
    pub prim_path_relias : ℕ → Double
    pub reroute_loss_rates : ℕ → Double
    pub heap : Heap

  unfoldable pub start : LltcGraph Double → ℕ → VectorSearch
  unfolding loss_key insert_nodes
  start g src =
      let n = length g.nodes - 1 in
      let rates = put src zero_double (λ i. one) in
      record {
        rrv = record {
          src_node_id = src;
          n = n;
          expected_loss_rates = rates;
          max_delays = λ i. zero_double;
          max_prim_path_delays = λ i. zero_double;
          prev_node_idx = λ i. none;
          rsps_map = λ i. none;
        };
        graph = g;
        is_node_id_in_q = λ i. true;
        prim_path_relias = put src one (λ i. zero_double);
        reroute_loss_rates = λ i. zero_double;
        heap = insert_nodes d q (loss_key rates) n 0 new;
      }

  -- The loop over the sub-paths: the loss rate with all of them, and the largest delay.
  unfoldable pub over_rsps : VectorSearch → List Rsp → Double → Double → Option (Double × Double)
  over_rsps s [] loss delay = some (loss, delay)
  over_rsps s (rsp ∷ rsps) loss delay =
      let later = λ (dst : ℕ).
        let reroute_delay = add (of_int rsp.link_down_delay) (s.rrv.max_delays dst) in
        over_rsps s rsps
          (mul loss (
            sub one (
              mul (sub one rsp.one_way_data_delivery_loss_rate)
                (sub one (s.reroute_loss_rates dst)))))
          (if gtb reroute_delay delay then reroute_delay else delay) in
      last_of rsp.node_ids >>= later

  -- What the search has found of a way over `u` to `v`.
  pub record Candidate : Type 0 where
    pub prim_path_delay : Double
    pub prim_path_relia : Double
    pub reroute_loss_rate : Double
    pub overall_loss_rate : Double
    pub max_delay : Double
    pub rsps : List Rsp

  unfoldable pub accept : ℕ → ℕ → Candidate → VectorSearch → Option VectorSearch
  unfolding loss_key of_loss_key
  accept u v c s =
      let written = put v c.overall_loss_rate s.rrv.expected_loss_rates in
      let rates = put v (of_loss_key (loss_key written v)) written in
      let rsps_map =
        if ltb 0 (length c.rsps) then put v (some c.rsps) s.rrv.rsps_map else s.rrv.rsps_map in
      update_key (loss_key rates) v s.heap >>= λ heap. some (record s {
        rrv = record s.rrv {
          expected_loss_rates = rates;
          max_delays = put v c.max_delay s.rrv.max_delays;
          max_prim_path_delays = put v c.prim_path_delay s.rrv.max_prim_path_delays;
          prev_node_idx = put v (some u) s.rrv.prev_node_idx;
          rsps_map = rsps_map;
        };
        prim_path_relias = put v c.prim_path_relia s.prim_path_relias;
        reroute_loss_rates = put v c.reroute_loss_rate s.reroute_loss_rates;
        heap = heap;
      })

  -- `alpha` is LLTC_REROUTE_PATH_GEN_ALPHA.
  module _ (config : LltcConfiguration Double) (alpha : Double) where
    -- The body of the loop over the links of `u`, past its first two checks.
    unfoldable pub relax_over :
        ℕ → ℕ → LltcLink Double → Double → ℤ → VectorSearch → Option VectorSearch
    unfolding get_link_succ_ratio convert_prev_array_to_path_node_ids_array
        convert_path_node_ids_array_to_link_ids_set gen_redundant_sub_paths over_rsps accept
    relax_over u v l prim_path_delay link_delay s =
        let link_relia = get_link_succ_ratio (of_int (negsuc 0)) l u v false in
        let relia = mul (s.prim_path_relias u) link_relia in
        let max_delay = add (s.rrv.max_delays u) (of_int link_delay) in
        do
          dsts ←
              convert_prev_array_to_path_node_ids_array (length s.graph.nodes) s.rrv.prev_node_idx
                s.rrv.src_node_id u
          invalid ← convert_path_node_ids_array_to_link_ids_set s.graph dsts []
          (g, rsps) ←
              gen_redundant_sub_paths s.graph v dsts (l.link_id ∷ invalid) config
                (sub config.max_path_delay max_delay)
          (loss, delay) ←
              over_rsps s rsps (sub one (mul (sub one (s.reroute_loss_rates u)) link_relia))
                max_delay
          let overall = add (mul alpha (sub one relia)) (mul (sub one alpha) loss)
          let s' : VectorSearch = record s { graph = g }
          let c : Candidate = record {
            prim_path_delay = prim_path_delay;
            prim_path_relia = relia;
            reroute_loss_rate = loss;
            overall_loss_rate = overall;
            max_delay = delay;
            rsps = rsps;
          }
          if gtb (s.rrv.expected_loss_rates v) overall then accept u v c s' else some s'

    unfoldable pub relax : ℕ → LltcLink Double → VectorSearch → Option VectorSearch
    unfolding get_link_op_side get_link_delay_total relax_over
    relax u l s = elim (get_link_op_side l u) [
      | none ↦ none
      | some v ↦
          let link_delay = get_link_delay_total l u v in
          let prim_path_delay = add (s.rrv.max_prim_path_delays u) (of_int link_delay) in
          if not (s.is_node_id_in_q v) || gtb prim_path_delay config.max_path_delay
          then some s
          else relax_over u v l prim_path_delay link_delay s
    ]

    -- The links of `u` do not change in the loop, as each search takes its virtual links away again.
    unfoldable pub relax_all : ℕ → List ℕ → VectorSearch → Option VectorSearch
    unfolding relax
    relax_all u [] s = some s
    relax_all u (p ∷ ps) s = do l ← get_elem? s.graph.store p; s' ← relax u l s; relax_all u ps s'

    abbrev pub taken : ℕ → Heap → VectorSearch → VectorSearch
    taken u heap s = record s { heap = heap; is_node_id_in_q = put u false s.is_node_id_in_q }

    -- A node that was not reached ends the loop.
    unfoldable pub search : ℕ → VectorSearch → Option VectorSearch
    unfolding relax_all
    search zero s = elim (size s.heap) [ zero ↦ some s | suc _ ↦ none ]
    search (suc fuel) s =
        let later = λ (s' : VectorSearch). search fuel s' in
        elim (size s.heap) [
          | zero ↦ some s
          | suc _ ↦ do
            (u, heap) ← remove_max (loss_key s.rrv.expected_loss_rates) s.heap
            node ← get_elem? s.graph.nodes u
            if eqb (s.rrv.expected_loss_rates u) one
                then some (taken u heap s)
                else (relax_all u node.e_links (taken u heap s) >>= later)
        ]

    unfoldable pub gen_resilient_routes_vectors :
        LltcGraph Double → ℕ → Option (ResilientRouteVectors Double × LltcGraph Double)
    unfolding search start
    gen_resilient_routes_vectors g src =
        search (length g.nodes) (start g src) >>= λ s. some (s.rrv, s.graph)
