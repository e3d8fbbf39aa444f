-- ===== src/Lltc/Manager.antt =====
-- LltcFsManager in NFD/daemon/fw/lltc-fs.cpp: the collections of forwarding states by forwarder and by
-- node. A `ForwardingStateCollection*` is a number into the store, which both maps share; `none` stands
-- for the null pointer as a result.
use tafrr.Prelude.{ℕ, true, refl, ◌≡◌, Option, none, some, arith, ◌==◌, if◌then◌else◌}
use tafrr.Prelude.Dict.{Dict, lookup, insert, lookup-insert}
use tafrr.Lltc.{ForwardingStateCollection}

pub record LltcFsManager (F : Type 0) : Type 0 where
  pub store : ℕ → ForwardingStateCollection F
  pub fs_coll_map : Dict ℕ
  pub fs_coll_map_by_node_id : Dict ℕ

module _ {F : Type 0} where
  unfoldable pub bound_forwarder_with_lltc_fs : ℕ → ℕ → ℕ → LltcFsManager F → LltcFsManager F
  bound_forwarder_with_lltc_fs forwarder node_id fs m = record m {
    fs_coll_map = insert forwarder fs m.fs_coll_map;
    fs_coll_map_by_node_id = insert node_id fs m.fs_coll_map_by_node_id;
  }

  abbrev pub set_app_face : ℕ → ForwardingStateCollection F → ForwardingStateCollection F
  set_app_face app_face c = record c { app_face = some app_face }

  abbrev with_app_face : ℕ → ℕ → LltcFsManager F → LltcFsManager F
  with_app_face p app_face m = record m {
    store = λ j. if j == p then set_app_face app_face (m.store j) else m.store j;
  }

  unfoldable pub register_non_pit_app : ℕ → ℕ → LltcFsManager F → LltcFsManager F
  register_non_pit_app node_id app_face m = elim (lookup node_id m.fs_coll_map_by_node_id) [
    | none ↦ m
    | some p ↦ with_app_face p app_face m
  ]

  abbrev read : LltcFsManager F → Option ℕ → Option (ForwardingStateCollection F)
  read m none = none
  read m (some p) = some (m.store p)

  unfoldable pub get_lltc_fs_collection_by_forwarder :
      ℕ → LltcFsManager F → Option (ForwardingStateCollection F)
  get_lltc_fs_collection_by_forwarder forwarder m = read m (lookup forwarder m.fs_coll_map)

  unfoldable pub get_lltc_fs_collection_by_node_id :
      ℕ → LltcFsManager F → Option (ForwardingStateCollection F)
  get_lltc_fs_collection_by_node_id node_id m = read m (lookup node_id m.fs_coll_map_by_node_id)

  register_non_pit_app-at :
      (m : LltcFsManager F) (node_id app_face p : ℕ)
      → lookup node_id m.fs_coll_map_by_node_id ≡ some p
      → register_non_pit_app node_id app_face m ≡ with_app_face p app_face m
  unfolding register_non_pit_app
  register_non_pit_app-at m node_id app_face p e = rw (e, register_non_pit_app) refl

  -- After a collection was bound to a forwarder and a node, and the node's application registered its
  -- face, both the forwarder and the node lead to that collection with the face.
  pub register_non_pit_app-bound_forwarder :
      (m : LltcFsManager F) (forwarder node_id fs app_face : ℕ)
      → (get_lltc_fs_collection_by_forwarder forwarder (
            register_non_pit_app node_id app_face
              (bound_forwarder_with_lltc_fs forwarder node_id fs m))
          ≡ some (set_app_face app_face (m.store fs)))
        × (get_lltc_fs_collection_by_node_id node_id (
              register_non_pit_app node_id app_face
                (bound_forwarder_with_lltc_fs forwarder node_id fs m))
            ≡ some (set_app_face app_face (m.store fs)))
  unfolding bound_forwarder_with_lltc_fs get_lltc_fs_collection_by_forwarder
      get_lltc_fs_collection_by_node_id
  register_non_pit_app-bound_forwarder m forwarder node_id fs app_face =
      let m1 = bound_forwarder_with_lltc_fs forwarder node_id fs m in
      let at_node : lookup node_id m1.fs_coll_map_by_node_id ≡ some fs =
        ground (arith, lookup-insert node_id node_id fs m.fs_coll_map_by_node_id) in
      let at_forwarder : lookup forwarder m1.fs_coll_map ≡ some fs =
        ground (arith, lookup-insert forwarder forwarder fs m.fs_coll_map) in
      let same : (fs == fs) ≡ true = ground arith in
      let stepped = register_non_pit_app-at m1 node_id app_face fs at_node in
      (rw (stepped, at_forwarder, same) refl, rw (stepped, at_node, same) refl)
