-- ===== src/Rsg/Preferred/Start.antt =====
-- The search for the preferred path starts in the invariant, with every node in the heap.
use mathlib.Core.List.{append_assoc, append-nil}
use tafrr.Prelude.{
  ℕ, suc, ◌<◌, ◌≡◌, refl, ◌⊎◌, inl, inr, true, ◌||◌, List, [], ◌∷◌, ◌++◌, arith, ◌==◌, length,
  length-append, contains, contains-append, ap, ◌∙◌,
}
use tafrr.Prelude.Dict.{Dict, get_or, get_or-insert}
use tafrr.Double.{DoubleOps}
use tafrr.MaxQueue.{MaxQueue}
use tafrr.Rsg.{Rsg, RsgNode, uint_max}
use tafrr.Rsg.Preferred.{FiboNode, blank_info, Search, seed, key_at, push, setup, start}
use tafrr.Rsg.Preferred.Invariant.{node_ids, fibo_ids}
use tafrr.Rsg.Preferred.Loop.{Inv}

fibo_ids-append :
    {F : Type 0} (xs ys : List (FiboNode F)) → fibo_ids (xs ++ ys) ≡ fibo_ids xs ++ fibo_ids ys
fibo_ids-append [] ys = refl
fibo_ids-append (x ∷ xs) ys = ap (λ l. x.node_id ∷ l) (fibo_ids-append xs ys)

length-fibo_ids : {F : Type 0} (fibo : List (FiboNode F)) → length (fibo_ids fibo) ≡ length fibo
length-fibo_ids [] = refl
length-fibo_ids (x ∷ fibo) = ap suc (length-fibo_ids fibo)

length-node_ids : {F : Type 0} (nodes : List (RsgNode F)) → length (node_ids nodes) ≡ length nodes
length-node_ids [] = refl
length-node_ids (x ∷ nodes) = ap suc (length-node_ids nodes)

module _ (d : DoubleOps) (q : MaxQueue) where
  -- While the arrays are filled every known node is blank and waiting.
  record Filled (s : Search d q) : Type 0 where
    blank :
        (v : ℕ)
        → contains (fibo_ids s.fibo) v ≡ true
        → (get_or v blank_info s.info).node_id ≡ uint_max
    queued : (v : ℕ) → contains s.in_fh v ≡ true → contains (fibo_ids s.fibo) v ≡ true
    held : (i : ℕ) → q.Has s.heap i → (i ≡ 0) ⊎ (i < length s.fibo)
    sized : q.size s.heap ≡ length s.fibo

  contains-push :
      (src : ℕ) (node : RsgNode d.Double) (s : Search d q) (v : ℕ)
      → contains (fibo_ids (push d q src node s).fibo) v
        ≡ (contains (fibo_ids s.fibo) v || node.node_id == v)
  unfolding push
  contains-push src node s v =
      rw (fibo_ids-append s.fibo, contains-append (fibo_ids s.fibo)) (ground arith)

  push-Filled :
      (src : ℕ) (node : RsgNode d.Double) (s : Search d q) → Filled s → Filled (push d q src node s)
  unfolding push
  push-Filled src node s h = record {
    blank = λ v p. ground (
      arith,
      contains-push src node s v,
      h.blank v,
      get_or-insert v node.node_id blank_info (record { node_id = uint_max; vir_link_id = 0 })
          s.info,
    );
    queued = λ v p. ground (arith, contains-push src node s v, h.queued v);
    held = λ i p.
        let more = length-append s.fibo (seed d q src node ∷ []) in
        elim (q.has-insert (key_at d q (s.fibo ++ seed d q src node ∷ [])) (length s.fibo) i s.heap
          p) [
            | inl last ↦ inr (omega (arith, last, more))
            | inr old ↦ elim (h.held i old) [
              | inl first ↦ inl first
              | inr inside ↦ inr (omega (arith, inside, more))
            ]
          ];
    sized = omega (
      arith,
      q.size-insert (key_at d q (s.fibo ++ seed d q src node ∷ [])) (length s.fibo) s.heap,
      length-append s.fibo (seed d q src node ∷ []),
    );
  }

  setup-Filled :
      (src : ℕ) (nodes : List (RsgNode d.Double)) (s : Search d q)
      → Filled s
      → Filled (setup d q src nodes s)
        × (fibo_ids (setup d q src nodes s).fibo ≡ fibo_ids s.fibo ++ node_ids nodes)
  unfolding setup
  setup-Filled src [] s h = (h, rw append-nil refl)
  setup-Filled src (node ∷ nodes) s h =
      let (filled, ids) = setup-Filled src nodes (push d q src node s) (push-Filled src node s h) in
      (
        filled,
        ids
            ∙ rw (fibo_ids-append s.fibo (seed d q src node ∷ []))
                (append_assoc (fibo_ids s.fibo) (node.node_id ∷ []) (node_ids nodes)),
      )

  pub start-Inv :
      (statuses comps : Dict ℕ) (rsg : Rsg d.Double)
      → 0 < length rsg.nodes
      → Inv d q statuses comps rsg.nodes [] (start d q rsg)
        × (q.size (start d q rsg).heap ≡ length rsg.nodes)
  unfolding start
  start-Inv statuses comps rsg some_node =
      let s0 : Search d q = record { fibo = []; info = []; in_fh = []; heap = q.new } in
      let empty : Filled s0 = record {
        blank = λ v p. cc;
        queued = λ v p. p;
        held = λ i p. inl (q.has-new i p);
        sized = q.size-new;
      } in
      let (h, ids) = setup-Filled rsg.src_node_id rsg.nodes s0 empty in
      let same : length (start d q rsg).fibo ≡ length rsg.nodes =
        omega
          (arith, ap length ids, length-fibo_ids (start d q rsg).fibo, length-node_ids rsg.nodes) in
      (
        record {
          ids = ids;
          queued = λ v p. rw ids at (h.queued v p);
          fresh = λ v p. refl;
          held = λ i p. elim (h.held i p) [
            | inl first ↦ omega (arith, first, some_node)
            | inr inside ↦ omega (arith, same, inside)
          ];
          traced = λ v p. inl (h.blank v (rw ids p));
          justified = λ v p. inl (h.blank v (rw ids p));
          ordered = tt;
          settled = λ v p. cc;
        },
        h.sized ∙ same,
      )
