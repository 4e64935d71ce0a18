-- ===== src/Dump/Output/Found.antt =====
-- Which segments a sum over the written ones shows.
use slice_db.Prelude.{
  Bool, map, ℕ, zero, suc, ◌+◌, ◌≤◌, ◌<◌, ◌≡◌, refl, ap, List, [], ◌∷◌, ◌++◌, length, get_elem?,
  ◌&&◌, some, ltb, ◌==◌, ==_iff, if◌then◌else◌, Bool-cases, inl, inr, arith,
}
use slice_db.Formats.{ManifestTableSegment}
use slice_db.Dump.Discovery.{TableSegment}
use slice_db.Dump.Discovery.Numbers.{listed_weight}
use slice_db.Dump.Tasks.{TableTask}
use slice_db.Dump.Output.{Write, segment, statement, weave}
use slice_db.Dump.Tasks.Ops.{written_weight}

-- The measures that find an index, and an index with a row count.
abbrev pub at_index : ℕ → ℕ → ℕ → ℕ
at_index i a b = if a == i then 1 else 0

abbrev pub at_both : ℕ → ℕ → ℕ → ℕ → ℕ
at_both i n a b = if a == i && b == n then 1 else 0

pub listed_weight-ge :
    (g : ℕ → ℕ → ℕ) (i k : ℕ) (ss : List ManifestTableSegment) (s : ManifestTableSegment)
    → get_elem? ss k ≡ some s
    → g (i + k) s.row_count ≤ listed_weight g i ss
listed_weight-ge g i k [] s h = cc
listed_weight-ge g i zero (x ∷ ss) s h =
    let e : i + 0 ≡ i = omega arith in
    let same : s ≡ x = (cc) in
    rw e (omega (arith, ap (λ (t : ManifestTableSegment). g i t.row_count) same))
listed_weight-ge g i (suc k) (x ∷ ss) s h =
    let e : i + suc k ≡ suc i + k = omega arith in
    rw e (omega (arith, listed_weight-ge g (suc i) k ss s h))

listed_weight-below :
    (i j : ℕ) (ss : List ManifestTableSegment) → i < j → listed_weight (at_index i) j ss ≡ 0
listed_weight-below i j [] h = refl
listed_weight-below i j (s ∷ ss) h = ground (arith, listed_weight-below i (suc j) ss)

-- An index is listed once, where it is below the length.
pub listed_weight-index :
    (i j : ℕ) (ss : List ManifestTableSegment)
    → (listed_weight (at_index i) j ss ≤ 1)
      × (j + length ss ≤ i → listed_weight (at_index i) j ss ≡ 0)
listed_weight-index i j [] = (omega arith, λ h. refl)
listed_weight-index i j (s ∷ ss) =
    let (most, none_in) = listed_weight-index i (suc j) ss in
    elim (Bool-cases (j == i)) [
      | inl e ↦
          let same : j ≡ i = (==_iff j i).0 e in
          rw e (
            omega (arith, listed_weight-below i (suc j) ss (omega (arith, same))),
            λ far. absurd (omega (arith, same)),
          )
      | inr e ↦ rw e (omega (arith, most), λ far. omega (arith, none_in (omega arith)))
    ]

-- A measure of the writes, summed.
abbrev pub write_weight : (Write → ℕ) → List Write → ℕ
write_weight m [] = 0
write_weight m (w ∷ ws) = m w + write_weight m ws

-- A measure of segments on the segments among the writes.
abbrev pub on_segments : (TableSegment → ℕ) → Write → ℕ
on_segments m (segment w) = m w.segment
on_segments m (statement section i text) = 0

pub write_weight-append :
    (m : Write → ℕ) (xs ys : List Write)
    → write_weight m (xs ++ ys) ≡ write_weight m xs + write_weight m ys
write_weight-append m [] ys = omega arith
write_weight-append m (x ∷ xs) ys = omega (arith, write_weight-append m xs ys)

pub write_weight-weave :
    (m : Write → ℕ) (bs : List Bool) (xs ys : List Write)
    → write_weight m (weave bs xs ys) ≡ write_weight m xs + write_weight m ys
unfolding weave
write_weight-weave m [] xs ys = write_weight-append m xs ys
write_weight-weave m (b ∷ bs) [] ys = omega arith
write_weight-weave m (b ∷ bs) (x ∷ xs) [] = omega arith
write_weight-weave m (b ∷ bs) (x ∷ xs) (y ∷ ys) =
    ground (arith, write_weight-weave m bs xs (y ∷ ys), write_weight-weave m bs (x ∷ xs) ys)

pub write_weight-map :
    (m : TableSegment → ℕ) (ws : List TableTask)
    → write_weight (on_segments m) (map segment ws) ≡ written_weight m ws
write_weight-map m [] = refl
write_weight-map m (w ∷ ws) = omega (arith, write_weight-map m ws)

pub find_write :
    (m : Write → ℕ) (ws : List Write)
    → 0 < write_weight m ws
    → (front : List Write) × (w : Write) × (back : List Write) × (ws ≡ front ++ (w ∷ back))
      × (0 < m w)
find_write m [] h = absurd (omega arith)
find_write m (w ∷ ws) h = elim (Bool-cases (ltb 0 (m w))) [
  | inl e ↦ ([], w, ws, refl, ground (arith, e))
  | inr e ↦
      let (front, v, back, same, pos) = find_write m ws (ground (arith, e, h)) in
      (w ∷ front, v, back, ap (λ l. w ∷ l) same, pos)
]
