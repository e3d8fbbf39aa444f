-- ===== src/Routes/Stuck.antt =====
-- A search of genPath that is stuck in its heap gives no result.
use tafrr.Prelude.{ℕ, zero, suc, Bool, ◌≡◌, refl, inl, inr, none, List, [], ◌∷◌, ℕ-cases}
use tafrr.Double.{DoubleOps}
use tafrr.MaxQueue.{MaxQueue}
use tafrr.Graph.{LltcGraph}
use tafrr.Routes.GenPath.{PathSearch, relax_all, round, search}
use tafrr.Routes.Search.{LinksStuck, RoundStuck, SearchStuck}

module _ (d : DoubleOps) (q : MaxQueue) (g : LltcGraph d.Double) (barred : ℕ → Bool)
    (max_allowed : d.Double) (src : ℕ) where
  LinksStuck-none :
      (u : ℕ) (ps : List ℕ) (s : PathSearch d q)
      → LinksStuck d q g barred max_allowed src u ps s
      → relax_all d q barred max_allowed g.store u ps s ≡ none
  unfolding relax_all
  LinksStuck-none u [] s h = absurd h
  LinksStuck-none u (p ∷ ps) s (l, stored, inl (v, e, k, stuck)) = simp (stored, stuck) refl
  LinksStuck-none u (p ∷ ps) s (l, stored, inr (s', e, h)) =
      simp (stored, e) (LinksStuck-none u ps s' h)

  RoundStuck-none :
      (s : PathSearch d q)
      → RoundStuck d q g barred max_allowed src s
      → round d q barred max_allowed g s ≡ none
  unfolding round
  RoundStuck-none s (inl e) = simp (e) refl
  RoundStuck-none s (inr (u, heap, node, e, at_u, h)) =
      simp (e, at_u) (LinksStuck-none u node.e_links _ h)

  pub SearchStuck-none :
      (n : ℕ) (s : PathSearch d q)
      → SearchStuck d q g barred max_allowed src n s
      → search d q barred max_allowed n g s ≡ none
  unfolding search
  SearchStuck-none zero s h = absurd h
  SearchStuck-none (suc n) s (ne, h) = elim (ℕ-cases (q.size s.heap)) [
    | inl empty ↦ absurd (ne empty)
    | inr (k, full) ↦ elim h [
      | inl stuck ↦ rw (full, search, RoundStuck-none s stuck) refl
      | inr (s', e, later) ↦ rw (full, search, e) (SearchStuck-none n s' later)
    ]
  ]
