-- ===== src/Rsg/LinkId.antt =====
-- LltcRrSubgraph::rsgGetLinkID and rsgSearchVirLink.
use tafrr.Prelude.{
  ℕ, ◌+◌, ◌*◌, ◌%◌, ◌^◌, ◌≤◌, ◌<◌, bit_or, ◌≡◌, refl, ◌≢◌, ◌↔◌, ◌⊎◌, Bool, false, ◌&&◌, ◌||◌, List,
  [], ◌∷◌, arith, ltb, ◌==◌, if◌then◌else◌,
}
use tafrr.Prelude.Bits.{bit_or-shifted, bit_or-over, le-bit_or}
use tafrr.Rsg.{uint64_max, link_id_mark}

-- `((uint64_t) node_a) << 32 | (uint64_t) node_b | RSG_PRIM_PATH_LINK_ID_MARK`
pack : ℕ → ℕ → ℕ
pack a b = bit_or (bit_or ((a * 2 ^ 32) % 2 ^ 64) b) link_id_mark

unfoldable pub get_link_id : ℕ → ℕ → ℕ
unfolding pack
get_link_id a b = if ltb b a then pack b a else pack a b

pack-eq_sum : (a b : ℕ) → a < 2 ^ 31 → b < 2 ^ 32 → pack a b ≡ 2 ^ 63 + a * 2 ^ 32 + b
unfolding pack
pack-eq_sum a b ha hb =
    let whole : (a * 2 ^ 32) % 2 ^ 64 ≡ a * 2 ^ 32 = omega arith in
    let low : bit_or (a * 2 ^ 32) b ≡ a * 2 ^ 32 + b = bit_or-shifted 32 a b hb in
    let top : bit_or (a * 2 ^ 32 + b) link_id_mark ≡ 2 ^ 63 + (a * 2 ^ 32 + b) =
      bit_or-over 63 1 (a * 2 ^ 32 + b) (omega arith) in
    rw whole (rw low (omega (arith, top)))

mark-le-pack : (a b : ℕ) → link_id_mark ≤ pack a b
unfolding pack
mark-le-pack a b = le-bit_or _ link_id_mark

-- Every link ID carries the mark.
pub mark-le-get_link_id : (a b : ℕ) → link_id_mark ≤ get_link_id a b
unfolding get_link_id
mark-le-get_link_id a b = ground (arith, mark-le-pack a b, mark-le-pack b a)

pub get_link_id_comm : (a b : ℕ) → get_link_id a b ≡ get_link_id b a
unfolding get_link_id
get_link_id_comm a b = ground arith

-- For node IDs below 2^31 the ID of a link determines its two ends, up to their order.
pub get_link_id-eq_iff :
    (a b c d : ℕ)
    → a < 2 ^ 31
    → b < 2 ^ 31
    → c < 2 ^ 31
    → d < 2 ^ 31
    → (get_link_id a b ≡ get_link_id c d) ↔ ((a ≡ c) × (b ≡ d) ⊎ (a ≡ d) × (b ≡ c))
unfolding get_link_id
get_link_id-eq_iff a b c d ha hb hc hd = ground (
  arith,
  pack-eq_sum a b ha (omega arith),
  pack-eq_sum b a hb (omega arith),
  pack-eq_sum c d hc (omega arith),
  pack-eq_sum d c hd (omega arith),
)

-- Below 2^31 no link ID is the null ID.
pub get_link_id-ne-null : (a b : ℕ) → a < 2 ^ 31 → b < 2 ^ 31 → get_link_id a b ≢ uint64_max
unfolding get_link_id
get_link_id-ne-null a b ha hb =
    ground (arith, pack-eq_sum a b ha (omega arith), pack-eq_sum b a hb (omega arith))

-- `(nodeID_prev == a && nodeID == b) || (nodeID == a && nodeID_prev == b)`
abbrev pub joins : ℕ → ℕ → ℕ → ℕ → Bool
joins prev node a b = prev == a && node == b || node == a && prev == b

-- The loop of rsgSearchVirLink, at the node before the rest of the path.
search_from : ℕ → List ℕ → ℕ → ℕ → ℕ
search_from prev [] a b = uint64_max
search_from prev (node ∷ rest) a b =
    let later = search_from node rest a b in
    if joins prev node a b then get_link_id prev node else later

unfoldable pub search_vir_link : List ℕ → ℕ → ℕ → ℕ
unfolding search_from
search_vir_link [] a b = uint64_max
search_vir_link (node ∷ rest) a b = search_from node rest a b

-- Whether two neighbours of the path are the ends a and b, in either order.
abbrev crosses_from : ℕ → List ℕ → ℕ → ℕ → Bool
crosses_from prev [] a b = false
crosses_from prev (node ∷ rest) a b = joins prev node a b || crosses_from node rest a b

abbrev pub crosses : List ℕ → ℕ → ℕ → Bool
crosses [] a b = false
crosses (node ∷ rest) a b = crosses_from node rest a b

search_from-eq :
    (prev : ℕ) (rest : List ℕ) (a b : ℕ)
    → search_from prev rest a b
      ≡ (if crosses_from prev rest a b then get_link_id a b else uint64_max)
unfolding search_from
search_from-eq prev [] a b = refl
search_from-eq prev (node ∷ rest) a b =
    ground (arith, get_link_id_comm a b, search_from-eq node rest a b)

-- The search finds the link exactly on the paths that cross it, in either direction, and gives the
-- ID of its two ends.
pub search_vir_link-eq :
    (path : List ℕ) (a b : ℕ)
    → search_vir_link path a b ≡ (if crosses path a b then get_link_id a b else uint64_max)
unfolding search_vir_link
search_vir_link-eq [] a b = refl
search_vir_link-eq (node ∷ rest) a b = search_from-eq node rest a b
