-- ===== src/Rsg/Preferred/Invariant.antt =====
-- What holds of the search for the preferred path between two rounds.
use mathlib.Core.List.{Memᴰ}
use tafrr.Prelude.{ℕ, ◌≡◌, ◌≢◌, ◌⊎◌, true, false, some, List, [], ◌∷◌, arith, contains}
use tafrr.Prelude.Dict.{Dict, insert, get_or, get_or-insert}
use tafrr.Rsg.{RsgNode, VirLink, status_normal, status_failure, uint_max}
use tafrr.Rsg.Preferred.{FiboNode, PrevNodeInfo, blank_info, find_node}

-- The info of a node is blank, or names a node of the list.
abbrev pub Traced : List ℕ → Dict PrevNodeInfo → ℕ → Type 0
Traced done info v =
    let prev = (get_or v blank_info info).node_id in (prev ≡ uint_max) ⊎ (contains done prev ≡ true)

-- The nodes extracted so far, the last one first: each one's predecessor was extracted before it.
abbrev pub Ordered : List ℕ → Dict PrevNodeInfo → Type 0
Ordered [] info = Unit
Ordered (v ∷ done) info = Traced done info v × Ordered done info

pub Ordered-insert :
    (done : List ℕ) (v : ℕ) (prev : PrevNodeInfo) (info : Dict PrevNodeInfo)
    → contains done v ≡ false
    → Ordered done info
    → Ordered done (insert v prev info)
Ordered-insert [] v prev info new h = tt
Ordered-insert (x ∷ done) v prev info new h = (
  ground (arith, get_or-insert x v blank_info prev info),
  Ordered-insert done v prev info (ground arith) h.1,
)

-- The ids of a list of nodes.
abbrev pub node_ids : {F : Type 0} → List (RsgNode F) → List ℕ
node_ids [] = []
node_ids (node ∷ nodes) = node.node_id ∷ node_ids nodes

abbrev pub fibo_ids : {F : Type 0} → List (FiboNode F) → List ℕ
fibo_ids [] = []
fibo_ids (node ∷ nodes) = node.node_id ∷ fibo_ids nodes

-- A virtual link from the node `u` to `v` that may be on the route: it is not marked as failed, and a
-- sub-path joins two different components.
pub record Usable {F : Type 0} (statuses comps : Dict ℕ) (nodes : List (RsgNode F)) (u v : ℕ)
    (link : VirLink F) : Type 0 where
  pub node : RsgNode F
  pub found : find_node u nodes ≡ some node
  pub listed : Memᴰ link node.egress_vir_links
  pub ends : link.node_egress ≡ v
  pub not_failed : get_or link.link_id status_normal statuses ≢ status_failure
  pub bridges : link.is_on_prim_path ≡ false → get_or v 0 comps ≢ get_or u 0 comps
