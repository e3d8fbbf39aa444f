-- ===== src/Messages/RoundTrip.antt =====
-- The names that the messages helper builds, read again by it.
use tafrr.Prelude.{
  ℕ, suc, ◌+◌, ◌<◌, ◌^◌, ◌≡◌, refl, ◌∙◌, ap, Bool, true, false, none, some, List, [], ◌∷◌, ◌++◌,
  arith, ◌==◌, if◌then◌else◌, length, get_elem?, length-append,
}
use tafrr.Lltc.{LinkState}
use tafrr.Messages.{
  Word, echo, back, capsule_on_rsp, lsa, retrans, normal, unused, number, word, dashed, Name,
  parse_below, get_stoll, get_stoull, CapsuleUri, construct_echo, construct_back,
  construct_capsule_on_rsp, construct_lsa, parse_echo_uri, parse_back_uri, parsed,
  parse_capsule_on_rsp_uri, parse_lsa_uri, extract_from, extract_lsa,
}

get_elem?-append : (xs ys : Name) (k : ℕ) → get_elem? (xs ++ ys) (length xs + k) ≡ get_elem? ys k
get_elem?-append [] ys k = let same : 0 + k ≡ k = omega arith in ap (λ i. get_elem? ys i) same
get_elem?-append (x ∷ xs) ys k =
    let same : suc (length xs) + k ≡ suc (length xs + k) = omega arith in
    ap (λ i. get_elem? (x ∷ (xs ++ ys)) i) same ∙ get_elem?-append xs ys k

get_stoll_lem :
    (xs ys : Name) (k n : ℕ)
    → get_elem? ys k ≡ some (number n)
    → n < 2 ^ 32
    → get_stoll (xs ++ ys) (length xs + k) ≡ some n
unfolding get_stoll parse_below
get_stoll_lem xs ys k n e lt = ground (arith, get_elem?-append xs ys k, e)

get_stoll-dashed :
    (xs ys : Name) (k n : ℕ) (w : Word)
    → get_elem? ys k ≡ some (dashed n w)
    → n < 2 ^ 32
    → get_stoll (xs ++ ys) (length xs + k) ≡ some n
unfolding get_stoll parse_below
get_stoll-dashed xs ys k n w e lt = ground (arith, get_elem?-append xs ys k, e)

get_stoll-past :
    (xs ys : Name) (k : ℕ) → get_elem? ys k ≡ none → get_stoll (xs ++ ys) (length xs + k) ≡ none
unfolding get_stoll
get_stoll-past xs ys k e = ground (arith, get_elem?-append xs ys k, e)

get_stoull_lem :
    (xs ys : Name) (k n : ℕ)
    → get_elem? ys k ≡ some (number n)
    → n < 2 ^ 32
    → get_stoull (xs ++ ys) (length xs + k) ≡ some n
unfolding get_stoull parse_below
get_stoull_lem xs ys k n e lt = ground (arith, get_elem?-append xs ys k, e)

-- What is read of a built Echo and of a built Back are the IDs that went in, below 2^32.
pub parse-construct_back :
    (prefix : Name) (echo_id source dest : ℕ)
    → echo_id < 2 ^ 32
    → source < 2 ^ 32
    → dest < 2 ^ 32
    → (parse_echo_uri prefix (construct_echo prefix echo_id source)
        ≡ some (record { echo_id = echo_id; source_node_id = source }))
      × (parse_back_uri prefix (construct_back prefix echo_id source dest)
          ≡ some (record { echo_id = echo_id; source_node_id = source; dest_node_id = dest }))
unfolding construct_echo construct_back parse_echo_uri parse_back_uri
parse-construct_back prefix echo_id source dest le ls ld =
    let ys : Name = word echo ∷ number echo_id ∷ number source ∷ word unused ∷ [] in
    let zs : Name = word back ∷ number echo_id ∷ number source ∷ number dest ∷ [] in
    (
      simp (get_stoll_lem prefix ys 1 echo_id refl le, get_stoll_lem prefix ys 2 source refl ls)
          refl,
      simp
          (
            get_stoll_lem prefix zs 1 echo_id refl le,
            get_stoll_lem prefix zs 2 source refl ls,
            get_stoll_lem prefix zs 3 dest refl ld,
          )
          refl,
    )

extract_from_lem : (l : List LinkState) → extract_from (length l) l ≡ some l
unfolding extract_from
extract_from_lem [] = refl
extract_from_lem (ls ∷ l) = simp (extract_from_lem l) refl

-- What is read of a built LSA are its IDs and its sequence number, below 2^32, its type, and the link
-- states in their order.
pub parse-construct_lsa :
    (prefix : Name) (lsa_id source seq : ℕ) (l : List LinkState) (type : Word)
    → lsa_id < 2 ^ 32
    → source < 2 ^ 32
    → seq < 2 ^ 32
    → (parse_lsa_uri prefix (construct_lsa prefix lsa_id source seq l type).0
        ≡ some (record {
          lsa_id = lsa_id;
          source_node_id = source;
          update_seq_no = seq;
          type = word type;
        }))
      × (extract_lsa (construct_lsa prefix lsa_id source seq l type).1 ≡ some l)
unfolding construct_lsa parse_lsa_uri extract_lsa
parse-construct_lsa prefix lsa_id source seq l type ll ls lq =
    let ys : Name = word lsa ∷ number lsa_id ∷ number source ∷ dashed seq type ∷ [] in
    (
      simp
          (
            get_stoll_lem prefix ys 1 lsa_id refl ll,
            get_stoll_lem prefix ys 2 source refl ls,
            get_stoll-dashed prefix ys 3 seq type refl lq,
          )
          (simp (get_elem?-append prefix ys 3) refl),
      extract_from_lem l,
    )

-- A capsule that goes over a sub-path is read with its data ID, below 2^32, where it was built as a
-- normal one. Where it was built as a retransmission, the reading goes past the end of the name.
pub parse-construct_capsule_on_rsp :
    (junk : CapsuleUri) (prefix : Name) (data_id orig : ℕ) (is_retrans : Bool)
    → data_id < 2 ^ 32
    → parse_capsule_on_rsp_uri junk prefix (construct_capsule_on_rsp prefix data_id is_retrans orig)
      ≡ (if is_retrans then none else some (parsed prefix data_id false data_id))
unfolding construct_capsule_on_rsp parse_capsule_on_rsp_uri
parse-construct_capsule_on_rsp junk prefix data_id orig true lt =
    let ys : Name = word capsule_on_rsp ∷ number data_id ∷ word retrans ∷ number orig ∷ [] in
    let all : (length (prefix ++ ys) == length prefix + 4) ≡ true =
      ground (arith, length-append prefix ys) in
    simp
      (
        get_stoull_lem prefix ys 1 data_id refl lt,
        all,
        get_elem?-append prefix ys 2,
        get_stoll-past prefix ys 4 refl,
      )
      refl
parse-construct_capsule_on_rsp junk prefix data_id orig false lt =
    let ys : Name = word capsule_on_rsp ∷ number data_id ∷ word normal ∷ word unused ∷ [] in
    let all : (length (prefix ++ ys) == length prefix + 4) ≡ true =
      ground (arith, length-append prefix ys) in
    simp (get_stoull_lem prefix ys 1 data_id refl lt, all, get_elem?-append prefix ys 2) refl
