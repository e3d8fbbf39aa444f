-- ===== src/Routes/Network.antt =====
-- genPath on a network: with the virtual node every link still leads to a node, and only the
-- neighbours have links to the virtual node.
use mathlib.Core.Path.{subst}
use tafrr.Prelude.{
  ℕ, zero, suc, ◌≡◌, refl, ◌∙◌, ap, some, List, [], ◌∷◌, All, arith, length, get_elem?, All-append,
}
use tafrr.Graph.{LltcNode, update, push_e, push_i}
use tafrr.Graph.Spread.{each, at_vir}

abbrev pub AllAt : (ℕ → ℕ → Type 0) → List LltcNode → Type 0
AllAt P ns = (u : ℕ) (n : LltcNode) → get_elem? ns u ≡ some n → All (P u) n.e_links

-- A property of each neighbour with the place of its link.
abbrev pub AtPlaces : (ℕ → ℕ → Type 0) → List ℕ → ℕ → Type 0
AtPlaces P [] p = Unit
AtPlaces P (id ∷ ids) p = P id p × AtPlaces P ids (suc p)

AllAt-push_e :
    (P : ℕ → ℕ → Type 0) (ns : List LltcNode) (i p : ℕ)
    → AllAt P ns
    → P i p
    → AllAt P (update ns i (push_e p))
AllAt-push_e P [] i p h q u n e = cc
AllAt-push_e P (m ∷ ns) zero p h q zero n e =
    let same : push_e p m ≡ n = ground arith in
    subst (λ (k : LltcNode). All (P 0) k.e_links) same
      (All-append (P 0) m.e_links (p ∷ []) (h 0 m refl) (q, tt))
AllAt-push_e P (m ∷ ns) zero p h q (suc u) n e = h (suc u) n e
AllAt-push_e P (m ∷ ns) (suc i) p h q zero n e = h 0 n e
AllAt-push_e P (m ∷ ns) (suc i) p h q (suc u) n e =
    AllAt-push_e (λ v r. P (suc v) r) ns i p (λ v k r. h (suc v) k r) q u n e

AllAt-push_i :
    (P : ℕ → ℕ → Type 0) (ns : List LltcNode) (i p : ℕ)
    → AllAt P ns
    → AllAt P (update ns i (push_i p))
AllAt-push_i P [] i p h u n e = cc
AllAt-push_i P (m ∷ ns) zero p h zero n e =
    let same : push_i p m ≡ n = ground arith in
    subst (λ (k : LltcNode). All (P 0) k.e_links) same (h 0 m refl)
AllAt-push_i P (m ∷ ns) zero p h (suc u) n e = h (suc u) n e
AllAt-push_i P (m ∷ ns) (suc i) p h zero n e = h 0 n e
AllAt-push_i P (m ∷ ns) (suc i) p h (suc u) n e =
    AllAt-push_i (λ v r. P (suc v) r) ns i p (λ v k r. h (suc v) k r) u n e

module _ (P : ℕ → ℕ → Type 0) where
  pub AllAt-each_e :
      (ids : List ℕ) (p : ℕ) (ns : List LltcNode)
      → AllAt P ns
      → AtPlaces P ids p
      → AllAt P (each push_e ids p ns)
  AllAt-each_e [] p ns h q = h
  AllAt-each_e (id ∷ ids) p ns h q =
      AllAt-each_e ids (suc p) (update ns id (push_e p)) (AllAt-push_e P ns id p h q.0) q.1

  pub AllAt-each_i :
      (ids : List ℕ) (p : ℕ) (ns : List LltcNode) → AllAt P ns → AllAt P (each push_i ids p ns)
  AllAt-each_i [] p ns h = h
  AllAt-each_i (id ∷ ids) p ns h =
      AllAt-each_i ids (suc p) (update ns id (push_i p)) (AllAt-push_i P ns id p h)

  pub AllAt-at_vir :
      (v : ℕ) (ids : List ℕ) (p : ℕ) (ns : List LltcNode)
      → AllAt P ns
      → AtPlaces (λ id r. P v r) ids p
      → AllAt P (at_vir v ids p ns)
  AllAt-at_vir v [] p ns h q = h
  AllAt-at_vir v (id ∷ ids) p ns h q =
      AllAt-at_vir v ids (suc p) (update (update ns v (push_e p)) v (push_i p))
        (AllAt-push_i P (update ns v (push_e p)) v p (AllAt-push_e P ns v p h q.0)) q.1

length-update :
    (ns : List LltcNode) (i : ℕ) (f : LltcNode → LltcNode) → length (update ns i f) ≡ length ns
length-update [] i f = refl
length-update (n ∷ ns) zero f = refl
length-update (n ∷ ns) (suc i) f = ap suc (length-update ns i f)

pub length-each :
    (h : ℕ → LltcNode → LltcNode) (ids : List ℕ) (p : ℕ) (ns : List LltcNode)
    → length (each h ids p ns) ≡ length ns
length-each h [] p ns = refl
length-each h (id ∷ ids) p ns = length-each h ids (suc p) _ ∙ length-update ns id (h p)

pub length-at_vir :
    (v : ℕ) (ids : List ℕ) (p : ℕ) (ns : List LltcNode) → length (at_vir v ids p ns) ≡ length ns
length-at_vir v [] p ns = refl
length-at_vir v (id ∷ ids) p ns =
    length-at_vir v ids (suc p) _
    ∙ length-update (update ns v (push_e p)) v (push_i p)
    ∙ length-update ns v (push_e p)
