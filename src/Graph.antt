-- ===== src/Graph.antt =====
-- slice_db/graph/__init__.py: the search for a cycle among the dependencies of nodes.
pub mod Sound
mod Tests
use slice_db.Prelude.{
  ℕ, zero, suc, List, [], ◌∷◌, ◌++◌, Bool, true, false, any, drop, Option, none, some, ◌==◌,
  if◌then◌else◌,
}

-- How a search ends: with the set `visited`, with CycleError(nodes), or, in the model, out of rounds.
pub data Search : Type 0 where
  searched : (visited : List ℕ) → Search
  cycle : (nodes : List ℕ) → Search
  no_rounds : Search

-- node in visited
abbrev pub contains : List ℕ → ℕ → Bool
contains xs n = any (λ x. x == n) xs

-- stack[stack.index(node):]
unfoldable pub from_node : List ℕ → ℕ → List ℕ
from_node [] n = []
from_node (x ∷ xs) n = if x == n then x ∷ xs else from_node xs n

abbrev pub and_then : Search → (List ℕ → Search) → Search
and_then (searched visited) next = next visited
and_then (cycle nodes) next = cycle nodes
and_then no_rounds next = no_rounds

-- The inner function `f`, with `visited` and `stack` passed on: a node that was visited ends the
-- whole call (`return`), so the nodes behind it are not searched.
unfoldable pub search_from : (ℕ → List ℕ) → ℕ → List ℕ → List ℕ → List ℕ → Search
unfolding from_node
search_from deps zero nodes visited stack = no_rounds
search_from deps (suc rounds) [] visited stack = searched visited
search_from deps (suc rounds) (n ∷ nodes) visited stack = elim (contains visited n) [
  | true ↦ searched visited
  | false ↦ elim (contains stack n) [
    | true ↦ cycle (from_node stack n)
    | false ↦
        and_then (search_from deps rounds (deps n) visited (stack ++ n ∷ []))
          (λ after. search_from deps rounds nodes (n ∷ after) stack)
  ]
]

-- check_cycle
unfoldable pub check_cycle : (ℕ → List ℕ) → ℕ → List ℕ → Search
unfolding search_from
check_cycle deps rounds nodes = search_from deps rounds nodes [] []
