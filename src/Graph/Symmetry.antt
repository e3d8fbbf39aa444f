-- ===== src/Graph/Symmetry.antt =====
-- A link that leaves a node also enters it: the network is undirected.
use tafrr.Prelude.{
  ℕ, zero, suc, ◌≡◌, refl, ◌∙◌, false, ◌==◌, some, List, [], ◌∷◌, ◌++◌, All, length, get_elem?, ap,
}
use tafrr.Double.{DoubleOps}
use tafrr.Graph.{
  LltcNode, LltcLink, LltcGraph, Delays, update, push_e, push_i, erase_first, attach, detach,
  add_link_dual, add_virt_link_dual, remove_link_dual, erase_e, erase_i,
}
use tafrr.Graph.Spread.{update_comm}
use tafrr.Graph.Marks.{Lists, Lists-update, erase_at_lem, update-ne_at}

-- Each node has the same links leaving it as entering it, in the same order.
abbrev pub IsSymmetric : List LltcNode → Type 0
IsSymmetric ns = All (λ n. n.e_links ≡ n.i_links) ns

-- Two updates of the same node, one of its leaving and one of its entering links.
update-twice :
    (ns : List LltcNode) (i : ℕ) (f : List ℕ → List ℕ)
    → IsSymmetric ns
    → IsSymmetric (
        update
          (update ns i (λ n. record n { e_links = f n.e_links }))
          i
          (λ n. record n { i_links = f n.i_links }))
update-twice [] i f h = tt
update-twice (n ∷ ns) zero f h = (ap f h.0, h.1)
update-twice (n ∷ ns) (suc i) f h = (h.0, update-twice ns i f h.1)

attach-IsSymmetric :
    (a b l : ℕ) (ns : List LltcNode) → IsSymmetric ns → IsSymmetric (attach a b l ns)
unfolding attach
attach-IsSymmetric a b l ns h =
    let start = update ns a (push_e l) in
    rw (update_comm start b b (push_i l) (push_e l) (λ n. refl)) (
      rw (update_comm (update start b (push_e l)) b a (push_i l) (push_i l) (λ n. refl)) (
        rw (update_comm start b a (push_e l) (push_i l) (λ n. refl))
          (update-twice _ b (λ ps. ps ++ l ∷ []) (update-twice ns a (λ ps. ps ++ l ∷ []) h))))

-- A node that lists a link as leaving it lists it as entering it.
IsSymmetric-Lists :
    (ns : List LltcNode) (i p : ℕ)
    → IsSymmetric ns
    → Lists (λ n. n.e_links) ns i p
    → Lists (λ n. n.i_links) ns i p
IsSymmetric-Lists ns i p h (n, at, has) = (n, at, rw (both ns i h at) at has)
  where
    both :
        (ns : List LltcNode) (i : ℕ)
        → IsSymmetric ns
        → get_elem? ns i ≡ some n
        → n.e_links ≡ n.i_links
    both [] i h e = cc
    both (m ∷ ns) zero h e = let same : m ≡ n = cc in rw same at h.0
    both (m ∷ ns) (suc i) h e = both ns i h.1 e

-- The erasing at another node leaves the lists of a node.
Lists-past :
    (links : LltcNode → List ℕ) (p : ℕ) (ns : List LltcNode) (a b : ℕ)
    → (a == b) ≡ false
    → Lists links ns b p
    → Lists links (update (update ns a (erase_e p)) a (erase_i p)) b p
Lists-past links p ns a b apart (n, at, has) = (
  n,
  update-ne_at (update ns a (erase_e p)) a b (erase_i p) apart
      ∙ update-ne_at ns a b (erase_e p) apart
      ∙ at,
  has,
)

-- A link that both of its ends list is taken from them.
detach-IsSymmetric :
    {F : Type 0} (p : ℕ) (l : LltcLink F) (ns : List LltcNode)
    → IsSymmetric ns
    → (l.node_a == l.node_b) ≡ false
    → Lists (λ n. n.e_links) ns l.node_a p
    → Lists (λ n. n.e_links) ns l.node_b p
    → (ns' : List LltcNode) × (detach p l ns ≡ some ns') × IsSymmetric ns'
unfolding detach
detach-IsSymmetric p l ns h apart has_a has_b =
    let a = l.node_a in
    let b = l.node_b in
    let ns1 = update ns a (erase_e p) in
    let ns2 = update ns1 a (erase_i p) in
    let ns3 = update ns2 b (erase_e p) in
    let ns4 = update ns3 b (erase_i p) in
    let enters_a =
      Lists-update (λ n. n.i_links) (erase_e p) ns a a p (λ n c. c)
        (IsSymmetric-Lists ns a p h has_a) in
    let stays =
      λ (links : LltcNode → List ℕ) (k : Lists links ns b p). Lists-past links p ns a b apart k in
    let enters_b =
      Lists-update (λ n. n.i_links) (erase_e p) ns2 b b p (λ n c. c)
        (stays (λ n. n.i_links) (IsSymmetric-Lists ns b p h has_b)) in
    let e1 = erase_at_lem (λ n. n.e_links) erase_e p a ns has_a in
    let e2 = erase_at_lem (λ n. n.i_links) erase_i p a ns1 enters_a in
    let e3 = erase_at_lem (λ n. n.e_links) erase_e p b ns2 (stays (λ n. n.e_links) has_b) in
    let e4 = erase_at_lem (λ n. n.i_links) erase_i p b ns3 enters_b in
    (
      ns4,
      simp (e1, e2, e3, e4) refl,
      update-twice ns2 b (erase_first p) (update-twice ns a (erase_first p) h),
    )

module _ (d : DoubleOps) where
  -- Adding a link and adding a virtual link keep the network undirected. Removing a link of the network
  -- that has different ends, which both list it, returns and keeps it undirected.
  pub graph-IsSymmetric :
      (a b id p : ℕ) (ab_relia ba_relia one : d.Double) (ab ba : Delays) (g : LltcGraph d.Double)
      (l : LltcLink d.Double)
      → IsSymmetric g.nodes
      → get_elem? g.links id ≡ some p
      → get_elem? g.store p ≡ some l
      → (l.node_a == l.node_b) ≡ false
      → Lists (λ n. n.e_links) g.nodes l.node_a p
      → Lists (λ n. n.e_links) g.nodes l.node_b p
      → IsSymmetric (add_link_dual d a b ab_relia ba_relia ab ba g).nodes
        × IsSymmetric (add_virt_link_dual d one a b g).nodes
        × ((g' : LltcGraph d.Double) × (remove_link_dual id g ≡ some g') × IsSymmetric g'.nodes)
  unfolding add_link_dual add_virt_link_dual remove_link_dual
  graph-IsSymmetric a b id p ab_relia ba_relia one ab ba g l h listed stored apart has_a has_b =
      let (ns, detached, left) = detach-IsSymmetric p l g.nodes h apart has_a has_b in
      (
        attach-IsSymmetric a b (length g.store) g.nodes h,
        attach-IsSymmetric a b (length g.store) g.nodes h,
        (record g { nodes = ns }, simp (listed, stored, detached) refl, left),
      )
