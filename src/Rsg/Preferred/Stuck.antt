-- ===== src/Rsg/Preferred/Stuck.antt =====
-- A search for the preferred path that is stuck in its heap gives no result.
use tafrr.Prelude.{ℕ, zero, suc, ◌≡◌, refl, inl, inr, none, List, [], ◌∷◌, ℕ-cases}
use tafrr.Prelude.Dict.{Dict}
use tafrr.Double.{DoubleOps}
use tafrr.MaxQueue.{MaxQueue}
use tafrr.Rsg.{RsgNode, VirLink}
use tafrr.Rsg.Preferred.{FiboNode, Search, relax_all, round, search}
use tafrr.Rsg.Preferred.Loop.{LinksStuck, RoundStuck, SearchStuck}

module _ (d : DoubleOps) (q : MaxQueue) (statuses comps : Dict ℕ)
    (nodes : List (RsgNode d.Double)) where
  LinksStuck-none :
      (u : FiboNode d.Double) (s : Search d q) (links : List (VirLink d.Double))
      → LinksStuck d q statuses comps nodes u s links
      → relax_all d q statuses comps u s links ≡ none
  unfolding relax_all
  LinksStuck-none u s [] h = absurd h
  LinksStuck-none u s (link ∷ links) (inl (j, v, e, k, stuck)) = rw stuck refl
  LinksStuck-none u s (link ∷ links) (inr (s', e, h)) = rw e (LinksStuck-none u s' links h)

  RoundStuck-none :
      (s : Search d q)
      → RoundStuck d q statuses comps nodes s
      → round d q statuses comps nodes s ≡ none
  unfolding round
  RoundStuck-none s (inl e) = rw e refl
  RoundStuck-none s (inr (i, heap, u, node, e, g, f, h)) =
      rw (e, g, f) (LinksStuck-none u _ node.egress_vir_links h)

  pub SearchStuck-none :
      (fuel : ℕ) (s : Search d q)
      → SearchStuck d q statuses comps nodes fuel s
      → search d q statuses comps fuel nodes s ≡ none
  unfolding search
  SearchStuck-none zero s h = absurd h
  SearchStuck-none (suc fuel) s (ne, h) = elim (ℕ-cases (q.size s.heap)) [
    | inl empty ↦ absurd (ne empty)
    | inr (n, full) ↦ elim h [
      | inl stuck ↦ rw (full, search, RoundStuck-none s stuck) refl
      | inr (s', e, later) ↦ rw (full, search, e) (SearchStuck-none fuel s' later)
    ]
  ]
