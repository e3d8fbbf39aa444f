-- ===== src/Tests/Messages.antt =====
-- Names of messages under the prefix "7", built and read.
use tafrr.Prelude.{◌≡◌, true, none, some, [], ◌∷◌, List, arith}
use tafrr.Lltc.{LinkState}
use tafrr.Messages.{
  number, word, normal, Name, CapsuleUri, construct_echo, construct_back, parse_echo_uri,
  parse_back_uri, construct_lsa, parse_lsa_uri, extract_lsa, parsed, construct_capsule_on_rsp,
  parse_capsule_on_rsp_uri,
}
use tafrr.Messages.RoundTrip.{
  parse-construct_back, parse-construct_lsa, parse-construct_capsule_on_rsp,
}

abbrev prefix_7 : Name
prefix_7 = number 7 ∷ []

abbrev two_states : List LinkState
two_states =
    (record { neighbored_node_id = 1; status = 0 })
    ∷ (record { neighbored_node_id = 2; status = 1 })
    ∷ []

abbrev no_uri : CapsuleUri
no_uri = parsed [] 0 true 0

parse-construct_back_example :
    (parse_echo_uri prefix_7 (construct_echo prefix_7 5 1)
      ≡ some (record { echo_id = 5; source_node_id = 1 }))
    × (parse_back_uri prefix_7 (construct_back prefix_7 5 1 2)
        ≡ some (record { echo_id = 5; source_node_id = 1; dest_node_id = 2 }))
parse-construct_back_example =
    parse-construct_back prefix_7 5 1 2 (omega arith) (omega arith) (omega arith)

parse-construct_lsa_example :
    (parse_lsa_uri prefix_7 (construct_lsa prefix_7 5 1 3 two_states normal).0
      ≡ some (record { lsa_id = 5; source_node_id = 1; update_seq_no = 3; type = word normal }))
    × (extract_lsa (construct_lsa prefix_7 5 1 3 two_states normal).1 ≡ some two_states)
parse-construct_lsa_example =
    parse-construct_lsa prefix_7 5 1 3 two_states normal (omega arith) (omega arith) (omega arith)

parse-construct_capsule_on_rsp_example :
    parse_capsule_on_rsp_uri no_uri prefix_7 (construct_capsule_on_rsp prefix_7 9 true 4) ≡ none
parse-construct_capsule_on_rsp_example =
    parse-construct_capsule_on_rsp no_uri prefix_7 9 4 true (omega arith)
