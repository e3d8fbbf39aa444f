-- ===== src/Lltc/Start.antt =====
-- NFD/daemon/fw/lltc-strategy.cpp: the constructor of the strategy, isPPNode and isRSPNode. The
-- logs that the constructor opens and writes are left out.
use tafrr.Prelude.{
  ℕ, ◌≡◌, refl, ap, sym, Bool, true, false, ◌&&◌, ◌||◌, List, [], ◌∷◌, ◌++◌, ◌==◌, if◌then◌else◌,
  All, contains, contains-append, none, arith,
}
use tafrr.Prelude.Dict.{Dict}
use tafrr.Rsg.{RsgNode, PathCompact}
use tafrr.Rsg.Preferred.Invariant.{node_ids}
use tafrr.Lltc.{LltcFaceEntry, ForwardingStateForRsg, Router, face_status_normal}
use tafrr.Lltc.Task.{check_in_periodic}

unfoldable pub any_path : List PathCompact → ℕ → Bool
any_path [] local = false
any_path (path ∷ rest) local = contains path.node_ids local || any_path rest local

unfoldable pub any_rsp : Dict (List PathCompact) → ℕ → Bool
unfolding any_path
any_rsp [] local = false
any_rsp ((node, paths) ∷ rest) local = any_path paths local || any_rsp rest local

unfoldable pub set_normal : List LltcFaceEntry → List LltcFaceEntry
set_normal [] = []
set_normal (entry ∷ rest) = record entry { status = face_status_normal } ∷ set_normal rest

abbrev pub path_nodes : List PathCompact → List ℕ
path_nodes [] = []
path_nodes (path ∷ rest) = path.node_ids ++ path_nodes rest

abbrev pub hrsp_nodes : Dict (List PathCompact) → List ℕ
hrsp_nodes [] = []
hrsp_nodes ((node, paths) ∷ rest) = path_nodes paths ++ hrsp_nodes rest

module _ {F : Type 0} where
  unfoldable pub any_node : List (RsgNode F) → ℕ → Bool
  any_node [] local = false
  any_node (node ∷ rest) local = node.node_id == local || any_node rest local

  unfoldable pub is_pp_node : Dict (ForwardingStateForRsg F) → ℕ → Bool
  unfolding any_node
  is_pp_node [] local = false
  is_pp_node ((id, fs) ∷ rest) local = any_node fs.rsg.nodes local || is_pp_node rest local

  unfoldable pub is_rsp_node : Dict (ForwardingStateForRsg F) → ℕ → Bool
  unfolding any_rsp
  is_rsp_node [] local = false
  is_rsp_node ((id, fs) ∷ rest) local = any_rsp fs.rsg.hrsp local || is_rsp_node rest local

  abbrev is_empty : Dict (ForwardingStateForRsg F) → Bool
  is_empty [] = true
  is_empty (_ ∷ _) = false

  -- `fssMap` stays as it is: the loop that sets the preferred paths runs over copies of its entries.
  unfoldable pub init : Bool → ℕ → Router F → Router F
  unfolding is_pp_node is_rsp_node set_normal
  init enable_failover delay r =
      let local = r.coll.local_node_id in
      let fss = r.coll.fss_map in
      record r {
        coll = record r.coll { face_entries = set_normal r.coll.face_entries };
        lms = record r.lms { prev_lsa = none; next_link_test_id = 0 };
        scheduled =
            if enable_failover
              && (if is_empty fss then false else true)
              && (is_pp_node fss local || is_rsp_node fss local)
            then (delay, check_in_periodic) ∷ r.scheduled
            else r.scheduled;
      }

  -- All nodes of the primary paths, and all nodes of the sub-paths.
  abbrev pub primary_nodes : Dict (ForwardingStateForRsg F) → List ℕ
  primary_nodes [] = []
  primary_nodes ((id, fs) ∷ rest) = node_ids fs.rsg.nodes ++ primary_nodes rest

  abbrev pub sub_path_nodes : Dict (ForwardingStateForRsg F) → List ℕ
  sub_path_nodes [] = []
  sub_path_nodes ((id, fs) ∷ rest) = hrsp_nodes fs.rsg.hrsp ++ sub_path_nodes rest

any_node-contains :
    {F : Type 0} (nodes : List (RsgNode F)) (local : ℕ)
    → any_node nodes local ≡ contains (node_ids nodes) local
unfolding any_node
any_node-contains [] local = refl
any_node-contains (node ∷ rest) local =
    ap (λ b. node.node_id == local || b) (any_node-contains rest local)

is_pp_node-contains :
    {F : Type 0} (fss : Dict (ForwardingStateForRsg F)) (local : ℕ)
    → is_pp_node fss local ≡ contains (primary_nodes fss) local
unfolding is_pp_node
is_pp_node-contains [] local = refl
is_pp_node-contains ((id, fs) ∷ rest) local =
    rw (any_node-contains fs.rsg.nodes local, is_pp_node-contains rest local)
      (sym (contains-append (node_ids fs.rsg.nodes) (primary_nodes rest) local))

any_path-contains :
    (paths : List PathCompact) (local : ℕ)
    → any_path paths local ≡ contains (path_nodes paths) local
unfolding any_path
any_path-contains [] local = refl
any_path-contains (path ∷ rest) local =
    rw (any_path-contains rest local) (sym (contains-append path.node_ids (path_nodes rest) local))

any_rsp-contains :
    (hrsp : Dict (List PathCompact)) (local : ℕ)
    → any_rsp hrsp local ≡ contains (hrsp_nodes hrsp) local
unfolding any_rsp
any_rsp-contains [] local = refl
any_rsp-contains ((node, paths) ∷ rest) local =
    rw (any_path-contains paths local, any_rsp-contains rest local)
      (sym (contains-append (path_nodes paths) (hrsp_nodes rest) local))

is_rsp_node-contains :
    {F : Type 0} (fss : Dict (ForwardingStateForRsg F)) (local : ℕ)
    → is_rsp_node fss local ≡ contains (sub_path_nodes fss) local
unfolding is_rsp_node
is_rsp_node-contains [] local = refl
is_rsp_node-contains ((id, fs) ∷ rest) local =
    rw (any_rsp-contains fs.rsg.hrsp local, is_rsp_node-contains rest local)
      (sym (contains-append (hrsp_nodes fs.rsg.hrsp) (sub_path_nodes rest) local))

set_normal-All :
    (entries : List LltcFaceEntry) → All (λ e. e.status ≡ face_status_normal) (set_normal entries)
unfolding set_normal
set_normal-All [] = tt
set_normal-All (entry ∷ rest) = (refl, set_normal-All rest)

guard-contains :
    {F : Type 0} (on : Bool) (fss : Dict (ForwardingStateForRsg F)) (local : ℕ)
    → (on
        && (if is_empty fss then false else true)
        && (is_pp_node fss local || is_rsp_node fss local))
      ≡ (on && contains (primary_nodes fss ++ sub_path_nodes fss) local)
unfolding is_pp_node is_rsp_node
guard-contains on [] local = ground arith
guard-contains on (e ∷ rest) local =
    rw
      (
        contains-append (primary_nodes (e ∷ rest)) (sub_path_nodes (e ∷ rest)) local,
        sym (is_pp_node-contains (e ∷ rest) local),
        sym (is_rsp_node-contains (e ∷ rest) local),
      )
      (ground arith)

-- The constructor leaves every sub-graph's state as it is, its preferred paths and flags included,
-- makes every face normal, and schedules the periodic check exactly if failover is enabled and the
-- router is on the primary path or on a sub-path of one of its sub-graphs.
pub init_lem :
    {F : Type 0} (enable_failover : Bool) (delay : ℕ) (r : Router F)
    → ((init enable_failover delay r).coll.fss_map ≡ r.coll.fss_map)
      × All (λ e. e.status ≡ face_status_normal) (init enable_failover delay r).coll.face_entries
      × ((init enable_failover delay r).scheduled ≡ (
          if enable_failover
            && contains
                (primary_nodes r.coll.fss_map ++ sub_path_nodes r.coll.fss_map)
                r.coll.local_node_id
          then (delay, check_in_periodic) ∷ r.scheduled
          else r.scheduled))
unfolding init
init_lem on delay r = (
  refl,
  set_normal-All r.coll.face_entries,
  ap (λ b. if b then (delay, check_in_periodic) ∷ r.scheduled else r.scheduled)
      (guard-contains on r.coll.fss_map r.coll.local_node_id),
)
