-- ===== src/Graph/Spread.antt =====
-- LltcGraph::addVirtNode on the nodes, put in order by the lists that its links stand in.
use tafrr.Prelude.{
  ℕ, zero, suc, ◌<◌, ◌≡◌, refl, ◌∙◌, sym, ap, false, List, [], ◌∷◌, ◌++◌, All, arith, ◌==◌,
  contains, All-map,
}
use tafrr.Graph.{LltcNode, update, push_e, push_i, erase_first, attach}

-- Updates of different nodes, and of the two lists of one node, can be swapped.
pub update_comm :
    (ns : List LltcNode) (i j : ℕ) (f g : LltcNode → LltcNode)
    → ((n : LltcNode) → f (g n) ≡ g (f n))
    → update (update ns i f) j g ≡ update (update ns j g) i f
update_comm [] i j f g h = refl
update_comm (n ∷ ns) zero zero f g h = ap (λ m. m ∷ ns) (sym (h n))
update_comm (n ∷ ns) zero (suc j) f g h = refl
update_comm (n ∷ ns) (suc i) zero f g h = refl
update_comm (n ∷ ns) (suc i) (suc j) f g h = ap (λ l. n ∷ l) (update_comm ns i j f g h)

-- A change of each of the nodes `ids`, that of the k-th with the place `p + k`.
abbrev pub each : (ℕ → LltcNode → LltcNode) → List ℕ → ℕ → List LltcNode → List LltcNode
each h [] p ns = ns
each h (id ∷ ids) p ns = each h ids (suc p) (update ns id (h p))

-- The places that the virtual node has its links at.
abbrev pub places : List ℕ → ℕ → List ℕ
places [] p = []
places (id ∷ ids) p = p ∷ places ids (suc p)

abbrev pub Commutes : (ℕ → LltcNode → LltcNode) → (LltcNode → LltcNode) → Type 0
Commutes h f = (p : ℕ) (n : LltcNode) → h p (f n) ≡ f (h p n)

pub each-update :
    (h : ℕ → LltcNode → LltcNode) (f : LltcNode → LltcNode) (ids : List ℕ) (p j : ℕ)
    (ns : List LltcNode)
    → Commutes h f
    → each h ids p (update ns j f) ≡ update (each h ids p ns) j f
each-update h f [] p j ns c = refl
each-update h f (id ∷ ids) p j ns c =
    ap (λ l. each h ids (suc p) l) (update_comm ns j id f (h p) (λ n. sym (c p n)))
    ∙ each-update h f ids (suc p) j (update ns id (h p)) c

pub each_comm :
    (h k : ℕ → LltcNode → LltcNode) (ids : List ℕ) (p q : ℕ) (js : List ℕ) (ns : List LltcNode)
    → ((r : ℕ) → Commutes h (k r))
    → each h ids p (each k js q ns) ≡ each k js q (each h ids p ns)
each_comm h k ids p q [] ns c = refl
each_comm h k ids p q (j ∷ js) ns c =
    each_comm h k ids p (suc q) js (update ns j (k q)) c
    ∙ ap (λ l. each k js (suc q) l) (each-update h (k q) ids p j ns (c q))

pub update-ne :
    (ns : List LltcNode) (i j : ℕ) (f g : LltcNode → LltcNode)
    → (i == j) ≡ false
    → update (update ns i f) j g ≡ update (update ns j g) i f
update-ne [] i j f g ne = refl
update-ne (n ∷ ns) zero zero f g ne = absurd (ground arith)
update-ne (n ∷ ns) zero (suc j) f g ne = refl
update-ne (n ∷ ns) (suc i) zero f g ne = refl
update-ne (n ∷ ns) (suc i) (suc j) f g ne = ap (λ l. n ∷ l) (update-ne ns i j f g (ground arith))

pub each-ne :
    (h : ℕ → LltcNode → LltcNode) (f : LltcNode → LltcNode) (ids : List ℕ) (p v : ℕ)
    (ns : List LltcNode)
    → contains ids v ≡ false
    → each h ids p (update ns v f) ≡ update (each h ids p ns) v f
each-ne h f [] p v ns ne = refl
each-ne h f (id ∷ ids) p v ns ne =
    ap (λ l. each h ids (suc p) l) (update-ne ns v id f (h p) (ground arith))
    ∙ each-ne h f ids (suc p) v (update ns id (h p)) (ground arith)

pub erase_first-append :
    (p q : ℕ) (l : List ℕ) → p < q → erase_first p (l ++ q ∷ []) ≡ erase_first p l ++ q ∷ []
erase_first-append p q [] lt = ground arith
erase_first-append p q (k ∷ l) lt = ground (arith, erase_first-append p q l lt)

-- The list does not hold the place `p` or a later one.
abbrev pub Below : ℕ → List ℕ → Type 0
Below p l = All (λ k. k < p) l

pub erase_first-undo : (p : ℕ) (l : List ℕ) → Below p l → erase_first p (l ++ p ∷ []) ≡ l
erase_first-undo p [] h = ground arith
erase_first-undo p (k ∷ l) h = ground (arith, erase_first-undo p l h.1, h.0)

-- A pair of changes where the second undoes the first, and can be moved past later ones.
pub record Undoes (push erase : ℕ → LltcNode → LltcNode) (old : ℕ → LltcNode → Type 0)
    : Type 0 where
  pub undo : (p : ℕ) (n : LltcNode) → old p n → erase p (push p n) ≡ n
  pub past : (p q : ℕ) (n : LltcNode) → p < q → erase p (push q n) ≡ push q (erase p n)
  pub later : (p : ℕ) (n : LltcNode) → old p n → old (suc p) n

module _ (push erase : ℕ → LltcNode → LltcNode) (old : ℕ → LltcNode → Type 0)
    (u : Undoes push erase old) where
  update-undo :
      (ns : List LltcNode) (i p : ℕ)
      → All (old p) ns
      → update (update ns i (push p)) i (erase p) ≡ ns
  update-undo [] i p h = refl
  update-undo (n ∷ ns) zero p h = ap (λ m. m ∷ ns) (u.undo p n h.0)
  update-undo (n ∷ ns) (suc i) p h = ap (λ l. n ∷ l) (update-undo ns i p h.1)

  each-past :
      (ids : List ℕ) (p q i : ℕ) (ns : List LltcNode)
      → p < q
      → update (each push ids q ns) i (erase p) ≡ each push ids q (update ns i (erase p))
  each-past [] p q i ns lt = refl
  each-past (id ∷ ids) p q i ns lt =
      each-past ids p (suc q) i (update ns id (push q)) (omega arith)
      ∙ ap (λ l. each push ids (suc q) l)
          (update_comm ns id i (push q) (erase p) (λ n. sym (u.past p q n lt)))

  pub each-undo :
      (ids : List ℕ) (p : ℕ) (ns : List LltcNode)
      → All (old p) ns
      → each erase ids p (each push ids p ns) ≡ ns
  each-undo [] p ns h = refl
  each-undo (id ∷ ids) p ns h =
      ap (λ l. each erase ids (suc p) l)
        (each-past ids p (suc p) id (update ns id (push p)) (omega arith)
          ∙ ap (λ l. each push ids (suc p) l) (update-undo ns id p h))
      ∙ each-undo ids (suc p) ns (All-map _ _ (λ (n : LltcNode). u.later p n) ns h)

-- The links of the virtual node itself.
abbrev pub at_vir : ℕ → List ℕ → ℕ → List LltcNode → List LltcNode
at_vir v [] p ns = ns
at_vir v (id ∷ ids) p ns = at_vir v ids (suc p) (update (update ns v (push_e p)) v (push_i p))

pub each-at_vir :
    (h : ℕ → LltcNode → LltcNode) (ids : List ℕ) (p v : ℕ) (js : List ℕ) (q : ℕ)
    (ns : List LltcNode)
    → contains ids v ≡ false
    → each h ids p (at_vir v js q ns) ≡ at_vir v js q (each h ids p ns)
each-at_vir h ids p v [] q ns ne = refl
each-at_vir h ids p v (j ∷ js) q ns ne =
    each-at_vir h ids p v js (suc q) (update (update ns v (push_e q)) v (push_i q)) ne
    ∙ ap (λ l. at_vir v js (suc q) l)
        (each-ne h (push_i q) ids p v (update ns v (push_e q)) ne
          ∙ ap (λ l. update l v (push_i q)) (each-ne h (push_e q) ids p v ns ne))

pub at_vir-ne :
    (v : ℕ) (js : List ℕ) (q i : ℕ) (f : LltcNode → LltcNode) (ns : List LltcNode)
    → (i == v) ≡ false
    → at_vir v js q (update ns i f) ≡ update (at_vir v js q ns) i f
at_vir-ne v [] q i f ns ne = refl
at_vir-ne v (j ∷ js) q i f ns ne =
    ap (λ l. at_vir v js (suc q) (update l v (push_i q))) (update-ne ns i v f (push_e q) ne)
    ∙ ap (λ l. at_vir v js (suc q) l) (update-ne (update ns v (push_e q)) i v f (push_i q) ne)
    ∙ at_vir-ne v js (suc q) i f (update (update ns v (push_e q)) v (push_i q)) ne

-- addVirtNode on the nodes: the links that leave the neighbours, those that enter them, and those of
-- the virtual node.
abbrev pub spread : ℕ → List ℕ → ℕ → List LltcNode → List LltcNode
spread v ids p ns = at_vir v ids p (each push_e ids p (each push_i ids p ns))

pub attach-first :
    (v id p : ℕ) (ns : List LltcNode)
    → (id == v) ≡ false
    → attach id v p ns
      ≡ update (update (update (update ns id (push_i p)) id (push_e p)) v (push_e p)) v (push_i p)
unfolding attach
attach-first v id p ns ne =
    let y = update ns id (push_e p) in
    let z = update (update ns id (push_i p)) id (push_e p) in
    let ne' : (v == id) ≡ false = ground arith in
    update-ne (update y v (push_i p)) v id (push_e p) (push_i p) ne'
    ∙ ap (λ l. update l v (push_e p)) (update-ne y v id (push_i p) (push_i p) ne')
    ∙ ap (λ l. update (update l v (push_i p)) v (push_e p))
        (update_comm ns id id (push_e p) (push_i p) (λ n. refl))
    ∙ update_comm z v v (push_i p) (push_e p) (λ n. refl)

pub spread-cons :
    (v id p : ℕ) (ids : List ℕ) (ns : List LltcNode)
    → (id == v) ≡ false
    → contains ids v ≡ false
    → spread v ids (suc p) (attach id v p ns) ≡ spread v (id ∷ ids) p ns
spread-cons v id p ids ns ne out =
    let z = update ns id (push_i p) in
    let w = update (update (update z id (push_e p)) v (push_e p)) v (push_i p) in
    let k = suc p in
    ap (λ l. spread v ids k l) (attach-first v id p ns ne)
    ∙ ap (λ l. at_vir v ids k (each push_e ids k l))
        (each-at_vir push_i ids k v (id ∷ []) p (update z id (push_e p)) out)
    ∙ ap (λ l. at_vir v ids k l)
        (each-at_vir push_e ids k v (id ∷ []) p (each push_i ids k (update z id (push_e p))) out)
    ∙ ap (λ l. at_vir v (id ∷ ids) p (each push_e ids k l))
        (each-update push_i (push_e p) ids k id z (λ r n. refl))
