-- ===== src/Lltc/Lsa/Report.antt =====
-- When broadcastingLsaTask has something to report.
use tafrr.Prelude.{◌≢◌, Bool, false, ◌||◌, Option, List, [], ◌∷◌, All}
use tafrr.MaxQueue.{MaxQueue}
use tafrr.Lltc.{LinkState}
use tafrr.Lltc.Lsa.{is_changed}

-- Whether one of the link states is not as in the previous LSA.
abbrev pub any_changed : Option (List LinkState) → List LinkState → Bool
any_changed prev [] = false
any_changed prev (ls ∷ rest) =
    is_changed prev ls.neighbored_node_id ls.status || any_changed prev rest

-- The neighbours are different from each other.
abbrev pub HasDistinctNeighbours : List LinkState → Type 0
HasDistinctNeighbours [] = Unit
HasDistinctNeighbours (ls ∷ rest) =
    All (λ other. other.neighbored_node_id ≢ ls.neighbored_node_id) rest
    × HasDistinctNeighbours rest
