-- ===== src/Tests/Samples.antt =====
-- A sub-graph with the primary path 0, 1, 2 (ID 5) and one sub-path from 2 over 3 to 0 (ID 7), in
-- scaled arithmetic.
use tafrr.Prelude.{◌+◌, ◌^◌, true, false, none, some, [], ◌∷◌}
use tafrr.Prelude.Int.{ℤ, pos, negsuc, ◌+ℤ◌, ◌-ℤ◌, ltb_ℤ, ◌==ℤ◌}
use tafrr.Double.{DoubleOps}
use tafrr.Rsg.{Rsg, VirLink, PathCompact}
use tafrr.Lltc.{LltcFaceEntry, LltcFibEntry, ForwardingStateForRsg, Router}

-- Ratios in units of the key's precision, which multiplying by it leaves as they are.
abbrev pub scaled : DoubleOps
scaled = record {
  Double = ℤ;
  add = ◌+ℤ◌;
  sub = ◌-ℤ◌;
  mul = λ a b. a;
  div = λ a b. a;
  neg = λ a. pos 0 -ℤ a;
  gtb = λ a b. ltb_ℤ b a;
  eqb = ◌==ℤ◌;
  exp = λ a. a;
  log = λ a. a;
  of_int = λ a. a;
  to_int = λ a. a;
  to_int32 = λ a. a;
  neg_inf = negsuc (10 ^ 18);
}

abbrev pub hop_01 : VirLink ℤ
hop_01 = record {
  is_on_prim_path = true;
  link_id = 2 ^ 63 + 1;
  path_id = 5;
  node_ingress = 0;
  node_egress = 1;
  succ_ratio_in_log = negsuc 9;
  delay = pos 1;
}

abbrev pub hop_12 : VirLink ℤ
hop_12 = record {
  is_on_prim_path = true;
  link_id = 2 ^ 63 + 2 ^ 32 + 2;
  path_id = 5;
  node_ingress = 1;
  node_egress = 2;
  succ_ratio_in_log = negsuc 9;
  delay = pos 1;
}

abbrev pub detour : VirLink ℤ
detour = record {
  is_on_prim_path = false;
  link_id = 0;
  path_id = 7;
  node_ingress = 0;
  node_egress = 2;
  succ_ratio_in_log = negsuc 99;
  delay = pos 3;
}

abbrev pub sub_path : PathCompact
sub_path = record { node_ids = 2 ∷ 3 ∷ 0 ∷ []; path_id = 7 }

abbrev pub sample : Rsg ℤ
sample = record {
  rsg_id = 0;
  nodes =
      (record { node_id = 0; egress_vir_links = hop_01 ∷ detour ∷ []; ingress_vir_links = [] })
      ∷ (record { node_id = 1; egress_vir_links = hop_12 ∷ []; ingress_vir_links = [] })
      ∷ (record { node_id = 2; egress_vir_links = []; ingress_vir_links = detour ∷ [] })
      ∷ [];
  links = hop_01 ∷ hop_12 ∷ detour ∷ [];
  link_status_map = [];
  src_node_id = 0;
  dst_node_id = 2;
  prim_path_id = 5;
  prim_path = record { node_ids = 0 ∷ 1 ∷ 2 ∷ []; path_id = 5 };
  hrsp = (2, sub_path ∷ []) ∷ [];
}

-- Node 0 of the sample: one face to node 1, one face to node 3 and one to no router.
abbrev pub to_node_1 : LltcFaceEntry
to_node_1 = record {
  face_next_hop = 21;
  remote_lltc_node_id = some 1;
  status = 0;
  last_check_time = 0;
  num_received_capsules_in_recent_secs = [];
  last_count_secs = none;
  init_secs = 0;
}

abbrev pub to_node_3 : LltcFaceEntry
to_node_3 = record to_node_1 { face_next_hop = 23; remote_lltc_node_id = some 3 }

abbrev pub to_app : LltcFaceEntry
to_app = record to_node_1 { face_next_hop = 29; remote_lltc_node_id = none }

abbrev pub down_primary : LltcFibEntry
down_primary = record {
  path_id = 5;
  face_next_hop = 21;
  metric = 1;
  direction = 0;
  retrans_timeout = 0;
  is_retrans_point = false;
}

abbrev pub down_detour : LltcFibEntry
down_detour = record down_primary { path_id = 7; face_next_hop = 23; is_retrans_point = true }

abbrev pub state : ForwardingStateForRsg ℤ
state = record {
  prefix_list = 40 ∷ [];
  fib_entries = down_primary ∷ down_detour ∷ [];
  primary_path_id = 5;
  preferred_down_path_id = 5;
  preferred_up_path_id = 5;
  is_down_path_in_rsp_state = false;
  is_up_path_in_rsp_state = false;
  rsg = sample;
}

abbrev pub router : Router ℤ
router = record {
  coll = record {
    fss_map = (3, state) ∷ [];
    face_entries = to_node_1 ∷ to_node_3 ∷ to_app ∷ [];
    app_face = none;
    local_node_id = 0;
  };
  lms = record {
    next_link_test_id = 1;
    echo_ids_in_link_test = [];
    echo_msg_state_map = [];
    lsa_update_seq_no = 0;
    prev_lsa = none;
    recent_lsa_ids = [];
  };
  sent = [];
  scheduled = [];
  drawn = 0;
}
