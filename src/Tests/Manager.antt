-- ===== src/Tests/Manager.antt =====
-- A router's collection, bound and given a face.
use tafrr.Prelude.{◌≡◌, some, []}
use tafrr.Prelude.Int.{ℤ}
use tafrr.Lltc.Manager.{
  LltcFsManager, bound_forwarder_with_lltc_fs, set_app_face, register_non_pit_app,
  get_lltc_fs_collection_by_forwarder, get_lltc_fs_collection_by_node_id,
  register_non_pit_app-bound_forwarder,
}
use tafrr.Tests.Samples.{router}

abbrev manager : LltcFsManager ℤ
manager = record { store = λ j. router.coll; fs_coll_map = []; fs_coll_map_by_node_id = [] }

register_non_pit_app-bound_forwarder_example :
    (get_lltc_fs_collection_by_forwarder 7
        (register_non_pit_app 3 9 (bound_forwarder_with_lltc_fs 7 3 1 manager))
      ≡ some (set_app_face 9 router.coll))
    × (get_lltc_fs_collection_by_node_id 3
          (register_non_pit_app 3 9 (bound_forwarder_with_lltc_fs 7 3 1 manager))
        ≡ some (set_app_face 9 router.coll))
register_non_pit_app-bound_forwarder_example = register_non_pit_app-bound_forwarder manager 7 3 1 9
