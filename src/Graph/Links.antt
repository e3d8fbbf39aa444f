-- ===== src/Graph/Links.antt =====
-- Looking up the links that were added.
use mathlib.Core.Option.{none-ne-some}
use tafrr.Prelude.{
  ℕ, zero, suc, ◌≡◌, refl, ◌≢◌, ◌<◌, false, none, some, List, [], ◌∷◌, ◌++◌, ◌==◌, if◌then◌else◌,
  All, length, get_elem?, arith, Bool-cases, inl, inr, ==_refl, ◌>>=◌, ◌∙◌, ap, sym, ◌||◌,
}
use tafrr.Double.{DoubleOps}
use tafrr.Graph.{
  LltcNode, LltcLink, LltcGraph, Delays, update, push_e, push_i, attach, create_link, add_link_dual,
  first_link, get_link_by_node_ids, get_link_delay_total, get_link_succ_ratio,
}

get_elem?-append :
    {A : Type 0} (xs ys : List A) (i : ℕ) → i < length xs → get_elem? (xs ++ ys) i ≡ get_elem? xs i
get_elem?-append [] ys i h = ground arith
get_elem?-append (x ∷ xs) ys zero h = refl
get_elem?-append (x ∷ xs) ys (suc i) h = get_elem?-append xs ys i (omega arith)

get_elem?-last : {A : Type 0} (xs : List A) (y : A) → get_elem? (xs ++ y ∷ []) (length xs) ≡ some y
get_elem?-last [] y = refl
get_elem?-last (x ∷ xs) y = get_elem?-last xs y

get_elem?-some :
    {A : Type 0} (xs : List A) (i : ℕ) → i < length xs → (x : A) × (get_elem? xs i ≡ some x)
get_elem?-some [] i h = ground arith
get_elem?-some (x ∷ xs) zero h = (x, refl)
get_elem?-some (x ∷ xs) (suc i) h = get_elem?-some xs i (omega arith)

pub update_self :
    (ns : List LltcNode) (i : ℕ) (f : LltcNode → LltcNode) (n : LltcNode)
    → get_elem? ns i ≡ some n
    → get_elem? (update ns i f) i ≡ some (f n)
update_self [] i f n h = ground arith
update_self (m ∷ ns) zero f n h = ap (λ o. o >>= λ k. some (f k)) h
update_self (m ∷ ns) (suc i) f n h = update_self ns i f n h

pub update_other :
    (ns : List LltcNode) (i j : ℕ) (f : LltcNode → LltcNode)
    → i ≢ j
    → get_elem? (update ns i f) j ≡ get_elem? ns j
update_other [] i j f h = refl
update_other (m ∷ ns) zero zero f h = absurd (h refl)
update_other (m ∷ ns) zero (suc j) f h = refl
update_other (m ∷ ns) (suc i) zero f h = refl
update_other (m ∷ ns) (suc i) (suc j) f h = update_other ns i j f (λ e. h (ap suc e))

-- A node with a link put behind the others.
abbrev pub with_link : ℕ → LltcNode → LltcNode
with_link l n = record { e_links = n.e_links ++ l ∷ []; i_links = n.i_links ++ l ∷ [] }

pub attach-first :
    (a b l : ℕ) (ns : List LltcNode) (n : LltcNode)
    → a ≢ b
    → get_elem? ns a ≡ some n
    → get_elem? (attach a b l ns) a ≡ some (with_link l n)
unfolding attach
attach-first a b l ns n other at = update_self _ a (push_i l) (push_e l n) (
    update_other _ b a (push_e l) (λ e. other (sym e))
    ∙ update_other _ b a (push_i l) (λ e. other (sym e))
    ∙ update_self ns a (push_e l) n at)

pub attach-second :
    (a b l : ℕ) (ns : List LltcNode) (n : LltcNode)
    → a ≢ b
    → get_elem? ns b ≡ some n
    → get_elem? (attach a b l ns) b ≡ some (with_link l n)
unfolding attach
attach-second a b l ns n other at =
    update_other _ a b (push_i l) other
    ∙ update_self _ b (push_e l) (push_i l n)
        (update_self _ b (push_i l) n (update_other ns a b (push_e l) other ∙ at))

-- A link put behind others is found where those do not lead to b.
first_link-append :
    {F : Type 0} (store : List (LltcLink F)) (l : LltcLink F) (ps : List ℕ) (b : ℕ)
    → All (λ p. p < length store) ps
    → first_link store ps b ≡ none
    → first_link (store ++ l ∷ []) (ps ++ length store ∷ []) b
      ≡ (if l.node_b == b then some l else if l.node_a == b then some l else none)
unfolding first_link
first_link-append store l [] b h e = rw (get_elem?-last store l) (ground arith)
first_link-append store l (p ∷ ps) b h e =
    let (m, at) = get_elem?-some store p h.0 in
    let later = first_link-append store l ps b h.1 in
    elim (Bool-cases (m.node_b == b || m.node_a == b)) [
      | inl hit ↦
          let found : first_link store (p ∷ ps) b ≡ some m = rw (at, hit) refl in
          absurd (none-ne-some m (sym e ∙ found))
      | inr miss ↦
          let same : first_link store (p ∷ ps) b ≡ first_link store ps b = rw (at, miss) refl in
          rw (get_elem?-append store (l ∷ []) p h.0, at, miss) (later (sym same ∙ e))
    ]

-- The pointers of a node's links are in the store.
abbrev pub IsLinked : {F : Type 0} → LltcGraph F → LltcNode → Type 0
IsLinked g n = All (λ p. p < length g.store) n.e_links

module _ (d : DoubleOps) where
  -- For two different nodes without a link between them, whose links are in the store: after
  -- addLinkDual both directions find the new link; its total delay is that given for the direction,
  -- and its success ratio is the one given for a to b, in both directions.
  pub add_link_dual-get_link :
      (a b : ℕ) (ab_relia ba_relia minus_one : d.Double) (ab ba : Delays) (g : LltcGraph d.Double)
      (m n : LltcNode)
      → a ≢ b
      → get_elem? g.nodes a ≡ some m
      → get_elem? g.nodes b ≡ some n
      → IsLinked g m
      → IsLinked g n
      → get_link_by_node_ids g a b ≡ none
      → get_link_by_node_ids g b a ≡ none
      → (l : LltcLink d.Double) × (get_link_by_node_ids
            (add_link_dual d a b ab_relia ba_relia ab ba g)
            a
            b
          ≡ some l)
        × (get_link_by_node_ids (add_link_dual d a b ab_relia ba_relia ab ba g) b a ≡ some l)
        × (get_link_delay_total l a b ≡ ab.total)
        × (get_link_delay_total l b a ≡ ba.total)
        × (get_link_succ_ratio minus_one l a b false ≡ ab_relia)
        × (get_link_succ_ratio minus_one l b a false ≡ ab_relia)
  unfolding add_link_dual create_link get_link_by_node_ids get_link_delay_total get_link_succ_ratio
  add_link_dual-get_link a b ab_relia ba_relia minus_one ab ba g m n other at_a at_b links_m links_n
        no_ab no_ba =
      let l = create_link d g.max_link_id a b ab_relia ab_relia ab ba in
      let differ : (a == b) ≡ false = ground arith in
      let old_ab : first_link g.store m.e_links b ≡ none = (sym (rw at_a refl) ∙ no_ab) in
      let old_ba : first_link g.store n.e_links a ≡ none = (sym (rw at_b refl) ∙ no_ba) in
      (
        l,
        rw
            (
              attach-first a b (length g.store) g.nodes m other at_a,
              first_link-append g.store l m.e_links b links_m old_ab,
              ==_refl b,
            )
            refl,
        rw
            (
              attach-second a b (length g.store) g.nodes n other at_b,
              first_link-append g.store l n.e_links a links_n old_ba,
              ==_refl a,
            )
            (ground arith),
        rw (==_refl a, ==_refl b) refl,
        rw (differ, ==_refl a, ==_refl b) refl,
        rw (==_refl a, ==_refl b) refl,
        rw (differ, ==_refl a, ==_refl b) refl,
      )
