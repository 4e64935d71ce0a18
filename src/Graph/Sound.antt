-- ===== src/Graph/Sound.antt =====
-- What a CycleError reports.
use mathlib.Core.Path.{subst}
use mathlib.Core.List.{Memᴰ}
use slice_db.Prelude.{
  ℕ, zero, suc, ◌≡◌, ◌≢◌, refl, sym, List, [], ◌∷◌, ◌++◌, true, false, ◌==◌, ==_iff, Bool-cases,
  inl, inr, arith,
}
use slice_db.Graph.{
  Search, searched, cycle, no_rounds, contains, from_node, and_then, search_from, check_cycle,
}

module _ (deps : ℕ → List ℕ) where
  -- From x along the nodes, each a dependency of the one before, to n.
  abbrev pub Walk : ℕ → List ℕ → ℕ → Type 0
  Walk x [] n = Memᴰ n (deps x)
  Walk x (y ∷ ys) n = Memᴰ y (deps x) × Walk y ys n

  abbrev WalkTo : List ℕ → ℕ → Type 0
  WalkTo [] n = Unit
  WalkTo (x ∷ xs) n = Walk x xs n

  -- A cycle: its last node depends on its first.
  abbrev pub IsCycle : List ℕ → Type 0
  IsCycle [] = ⊥
  IsCycle (x ∷ xs) = Walk x xs x

  abbrev Good : Search → Type 0
  Good (searched visited) = Unit
  Good (cycle nodes) = IsCycle nodes
  Good no_rounds = Unit

  Walk-push :
      (x : ℕ) (xs : List ℕ) (n m : ℕ) → Walk x xs n → Memᴰ m (deps n) → Walk x (xs ++ n ∷ []) m
  Walk-push x [] n m w e = (w, e)
  Walk-push x (y ∷ ys) n m w e = (w.0, Walk-push y ys n m w.1 e)

  WalkTo-push :
      (stack : List ℕ) (n m : ℕ) → WalkTo stack n → Memᴰ m (deps n) → WalkTo (stack ++ n ∷ []) m
  WalkTo-push [] n m w e = e
  WalkTo-push (x ∷ xs) n m w e = Walk-push x xs n m w e

  WalkTo-drop : (x : ℕ) (xs : List ℕ) (n : ℕ) → Walk x xs n → WalkTo xs n
  WalkTo-drop x [] n w = tt
  WalkTo-drop x (y ∷ ys) n w = w.1

  false-true : false ≢ true
  false-true h = cc

  from_node-IsCycle :
      (stack : List ℕ) (n : ℕ)
      → WalkTo stack n
      → contains stack n ≡ true
      → IsCycle (from_node stack n)
  unfolding from_node
  from_node-IsCycle [] n w h = absurd (false-true h)
  from_node-IsCycle (x ∷ xs) n w h = elim (Bool-cases (x == n)) [
    | inl e ↦ rw e (subst (λ y. Walk x xs y) (sym ((==_iff x n).0 e)) w)
    | inr e ↦ rw e (from_node-IsCycle xs n (WalkTo-drop x xs n w) (ground (arith, e, h)))
  ]

  and_then-Good :
      (m : Search) (next : List ℕ → Search)
      → Good m
      → ((visited : List ℕ) → Good (next visited))
      → Good (and_then m next)
  and_then-Good (searched visited) next g f = f visited
  and_then-Good (cycle nodes) next g f = g
  and_then-Good no_rounds next g f = tt

  search_from-Good :
      (rounds : ℕ) (nodes visited stack : List ℕ)
      → ((n : ℕ) → Memᴰ n nodes → WalkTo stack n)
      → Good (search_from deps rounds nodes visited stack)
  unfolding search_from
  search_from-Good zero nodes visited stack w = tt
  search_from-Good (suc rounds) [] visited stack w = tt
  search_from-Good (suc rounds) (n ∷ nodes) visited stack w =
      elim (Bool-cases (contains visited n)) [
        | inl e ↦ rw (search_from, e) tt
        | inr e ↦ elim (Bool-cases (contains stack n)) [
          | inl f ↦ rw (search_from, e, f) (from_node-IsCycle stack n (w n (Memᴰ.head refl)) f)
          | inr f ↦
              rw (search_from, e, f)
                (and_then-Good (search_from deps rounds (deps n) visited (stack ++ n ∷ []))
                  (λ after. search_from deps rounds nodes (n ∷ after) stack)
                  (search_from-Good rounds (deps n) visited (stack ++ n ∷ [])
                    (λ m e. WalkTo-push stack n m (w n (Memᴰ.head refl)) e))
                  (λ after.
                    search_from-Good rounds nodes (n ∷ after) stack (λ m e. w m (Memᴰ.tail e))))
        ]
      ]

  -- When the search reports a cycle, each of its nodes but the first is a dependency of the node
  -- before, and the first one is a dependency of the last.
  pub check_cycle-IsCycle :
      (rounds : ℕ) (nodes found : List ℕ)
      → check_cycle deps rounds nodes ≡ cycle found
      → IsCycle found
  unfolding check_cycle
  check_cycle-IsCycle rounds nodes found h =
      subst Good h (search_from-Good rounds nodes [] [] (λ n e. tt))
