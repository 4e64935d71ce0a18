-- ===== src/Graph/Tests.antt =====
-- Searches in small graphs.
use slice_db.Prelude.{ℕ, ◌≡◌, refl, List, [], ◌∷◌, ◌==◌, if◌then◌else◌}
use slice_db.Graph.Sound.{IsCycle, check_cycle-IsCycle}
use slice_db.Graph.{searched, cycle, check_cycle, search_from, from_node}

-- 1 needs 2, 2 needs 1.
abbrev pair : ℕ → List ℕ
pair n = if n == 1 then 2 ∷ [] else 1 ∷ []

pair_found : check_cycle pair 10 (1 ∷ []) ≡ cycle (1 ∷ 2 ∷ [])
unfolding check_cycle search_from from_node
pair_found = refl

-- 1 needs 2, and 3 needs itself: after 1, the node 2 is visited, and the search ends before 3.
abbrev loop_behind : ℕ → List ℕ
loop_behind n = if n == 1 then 2 ∷ [] else if n == 3 then 3 ∷ [] else []

loop_missed : check_cycle loop_behind 10 (1 ∷ 2 ∷ 3 ∷ []) ≡ searched (1 ∷ 2 ∷ [])
unfolding check_cycle search_from from_node
loop_missed = refl

check_cycle-IsCycle_example : IsCycle pair (1 ∷ 2 ∷ [])
check_cycle-IsCycle_example = check_cycle-IsCycle pair 10 (1 ∷ []) (1 ∷ 2 ∷ []) pair_found
