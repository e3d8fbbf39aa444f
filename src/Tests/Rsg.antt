-- ===== src/Tests/Rsg.antt =====
-- The sub-graph: status updates and preferred paths.
use tafrr.Prelude.{
  ℕ, ◌+◌, ◌-◌, ◌^◌, ◌≡◌, refl, ◌↔◌, ◌⊎◌, ◌&&◌, none, some, [], ◌∷◌, arith, ◌==◌, if◌then◌else◌, All,
}
use tafrr.Prelude.Int.{◌+ℤ◌}
use tafrr.Prelude.Dict.{Dict, get_or}
use tafrr.Rsg.{status_normal, status_failure}
use tafrr.Rsg.LinkId.{get_link_id, get_link_id-eq_iff, search_vir_link}
use tafrr.Rsg.Status.{update_statuses, update_link_status}
use tafrr.Rsg.Status.Frame.{update_statuses-link, any_crosses, updated_paths}
use tafrr.Rsg.Status.SubPaths.{update_statuses-rsp, IsUpdated}
use tafrr.Rsg.Preferred.{PreferredLink, components, find_node, find_fibo, compute_preferred_path_id}
use tafrr.Rsg.Preferred.Route.{HeapStuck, compute_preferred_path_id_lem, IsPreferred}
use tafrr.Rsg.Preferred.Statuses.{compute_preferred_path_id-same}
use tafrr.Heap.{
  insert_object, insert_node, new_node, new_heap, size, unlink, link_after, make_child, update_key,
  increase_key, cut_above, cascading_cut, cut,
}
use tafrr.Heap.RemoveMax.{
  remove_max_object, remove_max, free_children, degreewise_merge, count_roots, merge_roots,
  merge_at, collect,
}
use tafrr.Heap.Queue.{fibonacci_queue}
use tafrr.Tests.Samples.{scaled, sample, sub_path}

-- With no failure the primary path is preferred.
preferred_before :
    compute_preferred_path_id scaled fibonacci_queue sample 0
    ≡ some (record { down_link_id = 5; up_link_id = 2 ^ 32 - 1 })
unfolding compute_preferred_path_id get_link_id find_node find_fibo ◌+ℤ◌ insert_object insert_node
    new_node new_heap size unlink link_after make_child update_key increase_key cut_above
    cascading_cut cut remove_max_object remove_max free_children degreewise_merge count_roots
    merge_roots merge_at collect
preferred_before = refl

-- The failure of the hop from 1 to 2 moves node 0 to the sub-path.
preferred_after :
    compute_preferred_path_id scaled fibonacci_queue
      (update_link_status sample 1 2 status_failure)
      0
    ≡ some (record { down_link_id = 7; up_link_id = 2 ^ 32 - 1 })
unfolding compute_preferred_path_id update_link_status get_link_id search_vir_link find_node
    find_fibo ◌+ℤ◌ insert_object insert_node new_node new_heap size unlink link_after make_child
    update_key increase_key cut_above cascading_cut cut remove_max_object remove_max free_children
    degreewise_merge count_roots merge_roots merge_at collect
preferred_after = refl

get_link_id-eq_iff_example :
    (get_link_id 3 4 ≡ get_link_id 4 3)
    ↔ ((◌≡◌ {A = ℕ} 3 4) × (◌≡◌ {A = ℕ} 4 3) ⊎ (◌≡◌ {A = ℕ} 3 3) × (◌≡◌ {A = ℕ} 4 4))
get_link_id-eq_iff_example =
    get_link_id-eq_iff 3 4 4 3 (omega arith) (omega arith) (omega arith) (omega arith)

update_statuses-link_example :
    get_or (2 ^ 63 + 3) status_normal (update_statuses sample 0 3 status_failure) ≡ (
      if any_crosses (updated_paths sample) 0 3 && 2 ^ 63 + 3 == get_link_id 0 3
      then status_failure
      else get_or (2 ^ 63 + 3) status_normal sample.link_status_map)
update_statuses-link_example =
    update_statuses-link sample 0 3 status_failure (2 ^ 63 + 3) (omega arith) (omega arith)
      (omega arith) (omega arith)

update_statuses-rsp_example :
    All
      (IsUpdated 0 3 sample.link_status_map (update_statuses sample 0 3 status_failure))
      (sub_path ∷ [])
update_statuses-rsp_example =
    update_statuses-rsp sample 0 3 status_failure (omega arith) (omega arith) (omega arith)
      (omega arith)

compute_preferred_path_id_lem_example :
    HeapStuck scaled fibonacci_queue sample
      × (compute_preferred_path_id scaled fibonacci_queue sample 0 ≡ none)
    ⊎ ((comps : Dict ℕ) × (pl : PreferredLink) × (components sample.link_status_map
            sample.prim_path.node_ids
          ≡ some comps)
        × (compute_preferred_path_id scaled fibonacci_queue sample 0 ≡ some pl)
        × IsPreferred scaled fibonacci_queue sample comps 0 pl)
compute_preferred_path_id_lem_example =
    compute_preferred_path_id_lem scaled fibonacci_queue sample 0 0 (1 ∷ 2 ∷ []) refl refl
      (omega arith)

-- A failed sub-path, at its ID 7, does not change what is preferred.
compute_preferred_path_id-same_example :
    compute_preferred_path_id scaled fibonacci_queue sample 0
    ≡ compute_preferred_path_id scaled fibonacci_queue
        (record sample { link_status_map = (7, status_failure) ∷ [] })
        0
compute_preferred_path_id-same_example =
    compute_preferred_path_id-same scaled fibonacci_queue sample ((7, status_failure) ∷ []) 0
      (λ k r. ground arith) (omega arith)
