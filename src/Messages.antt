-- ===== src/Messages.antt =====
-- NFD/daemon/fw/lltc-messages-helper.cpp: the names of the messages, as lists of components. A component
-- is a number in decimal digits, a word, or a number and a word with a dash between them; the printing
-- and reading of digits is the C++ library's. `none` stands for a component that is not there, and for
-- the exceptions of stoll and stoull. Signing, freshness and the copied content are left out.
pub mod RoundTrip
use tafrr.Prelude.{
  ℕ, zero, suc, ◌+◌, ◌-◌, ◌%◌, ◌^◌, Bool, true, false, Option, none, some, List, [], ◌∷◌, ◌++◌,
  ◌==◌, if◌then◌else◌, ltb, length, get_elem?, ◌>>=◌,
}
use tafrr.Lltc.{LinkState}

-- The words of the operations, those behind the data ID, and any other text by a number.
pub data Word : Type 0 where
  echo : Word
  back : Word
  capsule : Word
  capsule_on_rsp : Word
  lsa : Word
  retrans : Word
  normal : Word
  unused : Word
  other : ℕ → Word

pub data Component : Type 0 where
  number : ℕ → Component
  word : Word → Component
  dashed : ℕ → Word → Component

abbrev pub Name : Type 0
Name = List Component

-- std::stoll and std::stoull, which stop at the first character that is no digit.
unfoldable pub parse_below : ℕ → Component → Option ℕ
parse_below bound (number n) = if ltb n bound then some n else none
parse_below bound (word w) = none
parse_below bound (dashed n w) = if ltb n bound then some n else none

abbrev pub uint32 : ℕ → ℕ
uint32 n = n % 2 ^ 32

-- `(uint32_t) stoll(dataName.get(i).toUri())`, and with stoull.
unfoldable pub get_stoll : Name → ℕ → Option ℕ
unfolding parse_below
get_stoll name i = do c ← get_elem? name i; n ← parse_below (2 ^ 63) c; some (uint32 n)

unfoldable pub get_stoull : Name → ℕ → Option ℕ
unfolding parse_below
get_stoull name i = do c ← get_elem? name i; n ← parse_below (2 ^ 64) c; some (uint32 n)

pub record EchoUri : Type 0 where
  pub echo_id : ℕ
  pub source_node_id : ℕ

pub record BackUri : Type 0 where
  pub echo_id : ℕ
  pub source_node_id : ℕ
  pub dest_node_id : ℕ

pub record LsaUri : Type 0 where
  pub lsa_id : ℕ
  pub source_node_id : ℕ
  pub update_seq_no : ℕ
  pub type : Component

-- CapsuleUri and CapsuleOnRSPUri
pub record CapsuleUri : Type 0 where
  pub prefix : Name
  pub data_id : ℕ
  pub is_retrans : Bool
  pub requested_data_id : ℕ

pub record ChangePathUri : Type 0 where
  pub prefix : Name
  pub node_id_to_change_path : ℕ
  pub new_path_id : ℕ
  pub ununused : Component

unfoldable pub construct_echo : Name → ℕ → ℕ → Name
construct_echo prefix echo_id source =
    prefix ++ word echo ∷ number echo_id ∷ number source ∷ word unused ∷ []

unfoldable pub construct_back : Name → ℕ → ℕ → ℕ → Name
construct_back prefix echo_id source dest =
    prefix ++ word back ∷ number echo_id ∷ number source ∷ number dest ∷ []

unfoldable pub get_capsule_uri : Name → ℕ → Name
get_capsule_uri prefix data_id = prefix ++ word capsule ∷ number data_id ∷ []

-- Both branches of the code build the same name.
unfoldable pub construct_capsule : Name → ℕ → Bool → ℕ → Name
construct_capsule prefix data_id is_retrans orig =
    if is_retrans
    then prefix ++ word capsule ∷ number data_id ∷ []
    else prefix ++ word capsule ∷ number data_id ∷ []

unfoldable pub construct_capsule_on_rsp : Name → ℕ → Bool → ℕ → Name
construct_capsule_on_rsp prefix data_id is_retrans orig =
    if is_retrans
    then prefix ++ word capsule_on_rsp ∷ number data_id ∷ word retrans ∷ number orig ∷ []
    else prefix ++ word capsule_on_rsp ∷ number data_id ∷ word normal ∷ word unused ∷ []

-- The payload of an LSA: the number of the link states, and the region behind it.
pub record LsaContent : Type 0 where
  pub n : ℕ
  pub region : List LinkState

unfoldable pub construct_lsa : Name → ℕ → ℕ → ℕ → List LinkState → Word → Name × LsaContent
construct_lsa prefix lsa_id source update_seq_no ls_list type = (
  prefix ++ word lsa ∷ number lsa_id ∷ number source ∷ dashed update_seq_no type ∷ [],
  record { n = length ls_list; region = ls_list },
)

unfoldable pub parse_echo_uri : Name → Name → Option EchoUri
unfolding get_stoll
parse_echo_uri prefix name = do
  echo_id ← get_stoll name (length prefix + 1)
  source ← get_stoll name (length prefix + 2)
  some (record { echo_id = echo_id; source_node_id = source })

unfoldable pub parse_back_uri : Name → Name → Option BackUri
unfolding get_stoll
parse_back_uri prefix name = do
  echo_id ← get_stoll name (length prefix + 1)
  source ← get_stoll name (length prefix + 2)
  dest ← get_stoll name (length prefix + 3)
  some (record { echo_id = echo_id; source_node_id = source; dest_node_id = dest })

unfoldable pub parse_change_path_uri : Name → Name → Option ChangePathUri
unfolding get_stoll
parse_change_path_uri prefix name = do
  node ← get_stoll name (length prefix + 1)
  path ← get_stoll name (length prefix + 2)
  rest ← get_elem? name (length prefix + 3)
  some (record {
    prefix = prefix;
    node_id_to_change_path = node;
    new_path_id = path;
    ununused = rest;
  })

abbrev pub parsed : Name → ℕ → Bool → ℕ → CapsuleUri
parsed prefix data_id is_retrans requested = record {
  prefix = prefix;
  data_id = data_id;
  is_retrans = is_retrans;
  requested_data_id = requested;
}

-- The fields that the code leaves as they are have the value of `junk`.
unfoldable pub parse_capsule_uri : CapsuleUri → Name → Name → Option CapsuleUri
unfolding get_stoll get_stoull
parse_capsule_uri junk prefix name = get_stoull name (length prefix + 1) >>= λ data_id.
    (if length name == length prefix + 4
      then (get_elem? name (length prefix + 2) >>= λ type. elim type [
        | word retrans ↦ get_stoll name (length prefix + 3) >>= λ requested.
            some (parsed prefix data_id true requested)
        | _ ↦ some (parsed prefix data_id junk.is_retrans junk.requested_data_id)
      ])
      else some (parsed prefix data_id false data_id))

-- The requested ID is read from the component behind the last.
unfoldable pub parse_capsule_on_rsp_uri : CapsuleUri → Name → Name → Option CapsuleUri
unfolding get_stoll get_stoull
parse_capsule_on_rsp_uri junk prefix name = get_stoull name (length prefix + 1) >>= λ data_id.
    (if length name == length prefix + 4
      then (get_elem? name (length prefix + 2) >>= λ type. elim type [
        | word retrans ↦ get_stoll name (length prefix + 4) >>= λ requested.
            some (parsed prefix data_id true requested)
        | word normal ↦ some (parsed prefix data_id false data_id)
        | _ ↦ some (parsed prefix data_id junk.is_retrans junk.requested_data_id)
      ])
      else some (parsed prefix data_id false data_id))

-- Without a dash, the whole text is the number and also the type.
unfoldable pub parse_lsa_uri : Name → Name → Option LsaUri
unfolding get_stoll
parse_lsa_uri prefix name = do
  lsa_id ← get_stoll name (length prefix + 1)
  source ← get_stoll name (length prefix + 2)
  c ← get_elem? name (length prefix + 3)
  seq ← get_stoll name (length prefix + 3)
  some (record {
    lsa_id = lsa_id;
    source_node_id = source;
    update_seq_no = seq;
    type = elim c [ dashed n w ↦ word w | whole ↦ whole ];
  })

-- The loop of extractLsa over the region.
unfoldable pub extract_from : ℕ → List LinkState → Option (List LinkState)
extract_from zero region = some []
extract_from (suc n) [] = none
extract_from (suc n) (ls ∷ region) = extract_from n region >>= λ rest. some (ls ∷ rest)

unfoldable pub extract_lsa : LsaContent → Option (List LinkState)
unfolding extract_from
extract_lsa content = extract_from content.n content.region
