-- ===== src/Graph/Marks.antt =====
-- Where the erasing of a link finds it.
use tafrr.Prelude.{
  ℕ, zero, suc, ◌<◌, ◌≤◌, ◌≡◌, refl, ◌∙◌, ap, true, false, inl, inr, some, List, [], ◌∷◌, ◌++◌, All,
  arith, ◌==◌, contains, contains-append, length, get_elem?, Bool-cases,
}
use tafrr.Graph.{LltcNode, update, push_e, push_i, erase_first, erase_at}
use tafrr.Graph.Spread.{each, at_vir}

pub update-same :
    (ns : List LltcNode) (i : ℕ) (f : LltcNode → LltcNode) (n : LltcNode)
    → get_elem? ns i ≡ some n
    → get_elem? (update ns i f) i ≡ some (f n)
update-same [] i f n h = cc
update-same (m ∷ ns) zero f n h = ground arith
update-same (m ∷ ns) (suc i) f n h = update-same ns i f n h

pub update-ne_at :
    (ns : List LltcNode) (i j : ℕ) (f : LltcNode → LltcNode)
    → (i == j) ≡ false
    → get_elem? (update ns i f) j ≡ get_elem? ns j
update-ne_at [] i j f ne = refl
update-ne_at (n ∷ ns) zero zero f ne = absurd (ground arith)
update-ne_at (n ∷ ns) zero (suc j) f ne = refl
update-ne_at (n ∷ ns) (suc i) zero f ne = refl
update-ne_at (n ∷ ns) (suc i) (suc j) f ne = update-ne_at ns i j f (ground arith)

pub node_at :
    (ns : List LltcNode) (i : ℕ) → i < length ns → (n : LltcNode) × (get_elem? ns i ≡ some n)
node_at [] i h = absurd (omega arith)
node_at (n ∷ ns) zero h = (n, refl)
node_at (n ∷ ns) (suc i) h = node_at ns i (omega arith)

pub length-update :
    (ns : List LltcNode) (i : ℕ) (f : LltcNode → LltcNode) → length (update ns i f) ≡ length ns
length-update [] i f = refl
length-update (n ∷ ns) zero f = refl
length-update (n ∷ ns) (suc i) f = ap suc (length-update ns i f)

module _ (links : LltcNode → List ℕ) where
  -- The node `i` lists the link `p`.
  abbrev pub Lists : List LltcNode → ℕ → ℕ → Type 0
  Lists ns i p = (n : LltcNode) × (get_elem? ns i ≡ some n) × (contains (links n) p ≡ true)

  pub erase_at_lem :
      (drop : ℕ → LltcNode → LltcNode) (p i : ℕ) (ns : List LltcNode)
      → Lists ns i p
      → erase_at links drop p i ns ≡ some (update ns i (drop p))
  unfolding erase_at
  erase_at_lem drop p i ns (n, at, has) = rw (at, erase_at, has) refl

  pub Lists-update :
      (f : LltcNode → LltcNode) (ns : List LltcNode) (i j p : ℕ)
      → ((n : LltcNode) → contains (links n) p ≡ true → contains (links (f n)) p ≡ true)
      → Lists ns i p
      → Lists (update ns j f) i p
  Lists-update f ns i j p keeps (n, at, has) = elim (Bool-cases (j == i)) [
    | inl same ↦
        let here : j ≡ i = ground arith in
        (f n, ap (λ k. get_elem? (update ns k f) i) here ∙ update-same ns i f n at, keeps n has)
    | inr other ↦ (n, update-ne_at ns j i f other ∙ at, has)
  ]

  pub Lists-each :
      (h : ℕ → LltcNode → LltcNode) (ids : List ℕ) (q : ℕ) (ns : List LltcNode) (i p : ℕ)
      → ((r : ℕ) (n : LltcNode) → contains (links n) p ≡ true → contains (links (h r n)) p ≡ true)
      → Lists ns i p
      → Lists (each h ids q ns) i p
  Lists-each h [] q ns i p keeps l = l
  Lists-each h (id ∷ ids) q ns i p keeps l =
      Lists-each h ids (suc q) (update ns id (h q)) i p keeps
        (Lists-update (h q) ns i id p (keeps q) l)

  pub Lists-at_vir :
      (v : ℕ) (ids : List ℕ) (q : ℕ) (ns : List LltcNode) (i p : ℕ)
      → ((r : ℕ) (n : LltcNode)
          → contains (links n) p ≡ true
          → contains (links (push_e r n)) p ≡ true)
      → ((r : ℕ) (n : LltcNode)
          → contains (links n) p ≡ true
          → contains (links (push_i r n)) p ≡ true)
      → Lists ns i p
      → Lists (at_vir v ids q ns) i p
  Lists-at_vir v [] q ns i p e k l = l
  Lists-at_vir v (id ∷ ids) q ns i p e k l =
      Lists-at_vir v ids (suc q) (update (update ns v (push_e q)) v (push_i q)) i p e k (
        Lists-update (push_i q) (update ns v (push_e q)) i v p (k q)
          (Lists-update (push_e q) ns i v p (e q) l))

  -- The nodes `ids` list the links from `p` on.
  abbrev pub Marked : List ℕ → ℕ → List LltcNode → Type 0
  Marked [] p ns = Unit
  Marked (id ∷ ids) p ns = Lists ns id p × Marked ids (suc p) ns

  pub Marked-map :
      (ids : List ℕ) (p : ℕ) (ns ns' : List LltcNode)
      → ((i q : ℕ) → p ≤ q → Lists ns i q → Lists ns' i q)
      → Marked ids p ns
      → Marked ids p ns'
  Marked-map [] p ns ns' f h = tt
  Marked-map (id ∷ ids) p ns ns' f h = (
    f id p (omega arith) h.0,
    Marked-map ids (suc p) ns ns' (λ i q le. f i q (omega (arith, le))) h.1,
  )

  pub Marked-each :
      (push : ℕ → LltcNode → LltcNode)
      → ((r : ℕ) (n : LltcNode) → contains (links (push r n)) r ≡ true)
      → ((p r : ℕ) (n : LltcNode)
          → contains (links n) p ≡ true
          → contains (links (push r n)) p ≡ true)
      → (ids : List ℕ) (p : ℕ) (ns : List LltcNode) → All (λ id. id < length ns) ids
      → Marked ids p (each push ids p ns)
  Marked-each push new keeps [] p ns small = tt
  Marked-each push new keeps (id ∷ ids) p ns small =
      let (n, at) = node_at ns id small.0 in
      let len = length-update ns id (push p) in
      (
        Lists-each push ids (suc p) (update ns id (push p)) id p (keeps p)
            (push p n, update-same ns id (push p) n at, new p n),
        Marked-each push new keeps ids (suc p) (update ns id (push p)) (rw len small.1),
      )

  -- The erasing of one link after the other finds each of them.
  pub Marked-erase :
      (drop : ℕ → LltcNode → LltcNode)
      → ((p q : ℕ) (n : LltcNode)
          → p < q
          → contains (links n) q ≡ true
          → contains (links (drop p n)) q ≡ true)
      → (id : ℕ) (ids : List ℕ) (p : ℕ) (ns : List LltcNode) → Marked (id ∷ ids) p ns
      → Marked ids (suc p) (update ns id (drop p))
  Marked-erase drop keeps id ids p ns h =
      Marked-map ids (suc p) ns (update ns id (drop p))
        (λ i q le. Lists-update (drop p) ns i id q (λ n. keeps p q n (omega (arith, le)))) h.1

pub contains-erase_first :
    (p q : ℕ) (l : List ℕ) → p < q → contains l q ≡ true → contains (erase_first p l) q ≡ true
contains-erase_first p q [] lt h = cc
contains-erase_first p q (k ∷ l) lt h = ground (arith, contains-erase_first p q l lt)

pub contains-push : (p r : ℕ) (l : List ℕ) → contains l p ≡ true → contains (l ++ r ∷ []) p ≡ true
contains-push p r l h = rw (contains-append l) (ground (arith, h))

pub contains-pushed : (r : ℕ) (l : List ℕ) → contains (l ++ r ∷ []) r ≡ true
contains-pushed r l = rw (contains-append l) (ground arith)
