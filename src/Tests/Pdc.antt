-- ===== src/Tests/Pdc.antt =====
-- The resequencing of LltcResequenceQueue on samples.
use tafrr.Prelude.{ℕ, ◌≡◌, some, Bool, [], ◌∷◌, List, arith}
use tafrr.Pdc.{ResequenceQueue, Event, packet, auto_dequeue_task, run, new_queue, release_queue}
use tafrr.Pdc.Conserved.{total, came}
use tafrr.Pdc.Valid.{Fresh}
use tafrr.Pdc.Run.{run-total, run-Fresh}
use tafrr.Pdc.Stranded.{run-strands, holds_b}

abbrev swapped : List (Event ℕ)
swapped = packet 0 7 70 ∷ packet 1 9 90 ∷ packet 2 8 80 ∷ auto_dequeue_task 5 ∷ []

run-total_example :
    (s : ResequenceQueue ℕ) × (run (new_queue 4 3) swapped ≡ some s)
    × ((p : ℕ × ℕ → Bool) → total p s ≡ came p swapped)
run-total_example = run-total 4 3 5 swapped (omega arith) (omega arith)

run-Fresh_example :
    (s : ResequenceQueue ℕ) × (run (new_queue 4 3) swapped ≡ some s) × Fresh 5 (release_queue 5 s)
run-Fresh_example = run-Fresh 4 3 5 swapped (omega arith) (omega arith)

run-strands_example :
    run {X = ℕ}
      (new_queue 4 10)
      (packet 0 7 70 ∷ packet 1 9 90 ∷ packet 2 12 120 ∷ auto_dequeue_task 11 ∷ [])
    ≡ some (holds_b 4 10 7 9 12 0 1 2 70 90 120)
run-strands_example =
    run-strands 4 10 7 9 12 0 1 2 70 90 120 (omega arith) (omega arith) (omega arith) (omega arith)
      (omega arith)
