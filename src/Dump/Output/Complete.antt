-- ===== src/Dump/Output/Complete.antt =====
-- The slice holds what the manifest lists.
use slice_db.Prelude.{
  ◌∙◌, map, false, refl, inl, inr, Bool-cases, ℕ, ◌+◌, ◌≤◌, ◌<◌, ◌≡◌, refl, ap, Str, List, [], ◌∷◌,
  length, get_elem?, Bool, true, some, ok, str_eq, str_eq_iff, ◌==◌, ==_iff, Bool-cases, inl, inr,
  arith,
}
use slice_db.Prelude.Dict.{Dict, get}
use slice_db.Formats.{ManifestTableSegment}
use slice_db.Collection.Numpy.{Numpy, IsNumpy}
use slice_db.Transform.{Counts, FieldTransform}
use slice_db.Slice.{schema_path, Archive, open_segment, open_entry, entry_or_raise, segment_path}
use slice_db.Slice.Frame.{schema_path-segment_path}
use slice_db.Slice.Paths.{segment_path_inj}
use slice_db.Dump.Schema.{Schema}
use slice_db.Dump.Discovery.{TableSegment}
use slice_db.Dump.Discovery.Numbers.{segments, number_weight}
use slice_db.Dump.Tasks.{Database, Root, TableTask, System, run, start}
use slice_db.Dump.Tasks.Ops.{written_weight}
use slice_db.Dump.Tasks.Numbers.{written-listed}
use slice_db.Dump.Output.Found.{
  at_index, at_both, listed_weight-ge, listed_weight-index, write_weight, on_segments,
  write_weight-weave, write_weight-map,
}
use slice_db.Dump.Output.Entries.{writes_to, path_of, entry_of_found}
use slice_db.Dump.Output.{Write, segment, statement, weave, segment_text, text_of, write_all}

-- Whether a segment has an index of a table.
abbrev has_place : Str → ℕ → TableSegment → ℕ
has_place id i = number_weight (at_index i) id

both_one : (i n : ℕ) → at_both i n (0 + i) n ≡ 1
both_one i n =
    let a : (i == i) ≡ true = (==_iff i i).1 refl in
    let b : (n == n) ≡ true = (==_iff n n).1 refl in ground (arith, a, b)

-- What a slice has for a segment that the manifest lists: a written segment of the table, with the
-- index and the number of rows of the list, whose text is the slice's entry.
pub record IsHeld (lines : TableTask → List Str) (transformers : Dict (List FieldTransform))
    (fork : Bool) (a : Archive) (id : Str) (i : ℕ) (s : ManifestTableSegment) : Type 0 where
  pub task : TableTask
  pub of_table : task.segment.table.id ≡ id
  pub at : task.segment.index ≡ i
  pub size : length task.segment.row_ids ≡ s.row_count
  pub before : Counts
  pub after : Counts
  pub text : Str
  pub made : segment_text lines transformers fork task before ≡ ok (text, after)
  pub entry : open_segment a id i ≡ ok text

has_both :
    (s : TableSegment) (id : Str) (i n : ℕ)
    → 0 < number_weight (at_both i n) id s
    → (s.table.id ≡ id) × (s.index ≡ i) × (length s.row_ids ≡ n)
has_both s id i n h =
    let t : str_eq s.table.id id ≡ true = ground (arith, h) in
    let j : (s.index == i) ≡ true = ground (arith, h) in
    let k : (length s.row_ids == n) ≡ true = ground (arith, h) in
    ((str_eq_iff s.table.id id).0 t, (==_iff s.index i).0 j, (==_iff (length s.row_ids) n).0 k)

writes_to-at :
    (id : Str) (i : ℕ) (w : Write)
    → writes_to (segment_path id i) w ≤ on_segments (has_place id i) w
writes_to-at id i (segment w) =
    elim (Bool-cases
      (str_eq (segment_path w.segment.table.id w.segment.index) (segment_path id i))) [
        | inl e ↦
            let (t, j) = segment_path_inj w.segment.table.id id w.segment.index i (
              (str_eq_iff (segment_path w.segment.table.id w.segment.index) (segment_path id i)).0
                e) in
            let same_table : str_eq w.segment.table.id id ≡ true =
              (str_eq_iff w.segment.table.id id).1 t in
            let same_index : (w.segment.index == i) ≡ true = (==_iff w.segment.index i).1 j in
            ground (arith, same_table, same_index)
        | inr e ↦ ground (arith, e)
      ]
writes_to-at id i (statement section j text) =
    let other : str_eq (schema_path section j) (segment_path id i) ≡ false =
      (schema_path-segment_path section j id i).0 in
    ground (arith, other)

writes_to-places :
    (id : Str) (i : ℕ) (ws : List Write)
    → write_weight (writes_to (segment_path id i)) ws
      ≤ write_weight (on_segments (has_place id i)) ws
writes_to-places id i [] = omega arith
writes_to-places id i (w ∷ ws) = omega (arith, writes_to-at id i w, writes_to-places id i ws)

-- Only statements are written.
unfoldable pub HasNoSegment : List Write → Type 0
HasNoSegment [] = Unit
HasNoSegment (segment w ∷ ws) = ⊥
HasNoSegment (statement section i text ∷ ws) = HasNoSegment ws

HasNoSegment-weight :
    (m : TableSegment → ℕ) (ws : List Write) → HasNoSegment ws → write_weight (on_segments m) ws ≡ 0
unfolding HasNoSegment
HasNoSegment-weight m [] h = refl
HasNoSegment-weight m (segment w ∷ ws) h = absurd h
HasNoSegment-weight m (statement section i text ∷ ws) h = omega (arith, HasNoSegment-weight m ws h)

module _ (lines : TableTask → List Str) (transformers : Dict (List FieldTransform))
    (fork : Bool) where
  of_write :
      (w : Write) (a : Archive) (id : Str) (i : ℕ) (s : ManifestTableSegment)
      (before after : Counts) (text : Str)
      → 0 < on_segments (number_weight (at_both i s.row_count) id) w
      → text_of lines transformers fork w before ≡ ok (text, after)
      → get a (segment_path id i) ≡ some text
      → IsHeld lines transformers fork a id i s
  unfolding open_entry text_of
  of_write (segment w) a id i s before after text pos made e =
      let (t, j, k) = has_both w.segment id i s.row_count pos in
      record {
        task = w;
        of_table = t;
        at = j;
        size = k;
        before = before;
        after = after;
        text = text;
        made = made;
        entry = ap entry_or_raise e;
      }
  of_write (statement section j t) a id i s before after text pos made e =
      absurd (omega (arith, pos))

  place_of :
      (id : Str) (i n : ℕ) (w : Write)
      → 0 < on_segments (number_weight (at_both i n) id) w
      → path_of w ≡ segment_path id i
  place_of id i n (segment w) pos = let (t, j, k) = has_both w.segment id i n pos in rw (t, j)
  place_of id i n (statement section j t) pos = absurd (omega (arith, pos))

  -- One written segment with a place, and no other, is what the slice holds there.
  held :
      (ws : List Write) (a b : Archive) (c d : Counts) (id : Str) (i : ℕ) (s : ManifestTableSegment)
      → write_all lines transformers fork a c ws ≡ ok (b, d)
      → 0 < write_weight (on_segments (number_weight (at_both i s.row_count) id)) ws
      → write_weight (on_segments (has_place id i)) ws ≤ 1
      → IsHeld lines transformers fork b id i s
  held ws a b c d id i s h some_one one =
      let (w, pos, before, text, after, made, e) =
        entry_of_found lines transformers fork
          (on_segments (number_weight (at_both i s.row_count) id)) (segment_path id i) ws a b c d h
          (place_of id i s.row_count) some_one (omega (arith, one, writes_to-places id i ws)) in
      of_write w b id i s before after text pos made e

  pub slice_complete :
      (schema : Schema) (db : Database) {np : Numpy} (laws : IsNumpy np) (roots : List Root)
      (schedule : List ℕ) (choices : List Bool) (statements : List Write) (a b : Archive)
      (c d : Counts)
      → (run schema db np (start schema db roots) schedule).pool ≡ []
      → HasNoSegment statements
      → write_all lines transformers fork a c (
          weave choices
            (map segment (run schema db np (start schema db roots) schedule).output)
            statements)
        ≡ ok (b, d)
      → (id : Str) (i : ℕ) (s : ManifestTableSegment)
      → get_elem? (segments (run schema db np (start schema db roots) schedule).result id) i
        ≡ some s
      → IsHeld lines transformers fork b id i s
  slice_complete schema db {np} laws roots schedule choices statements a b c d e apart h id i s l =
      let r : System = run schema db np (start schema db roots) schedule in
      let ws : List Write = map segment r.output in
      let sums : (m : TableSegment → ℕ)
          → write_weight (on_segments m) (weave choices ws statements) ≡ written_weight m r.output =
        λ m. omega (
          arith,
          write_weight-weave (on_segments m) choices ws statements,
          write_weight-map m r.output,
          HasNoSegment-weight m statements apart,
        ) in
      held (weave choices ws statements) a b c d id i s h
        (omega (
          arith,
          sums (number_weight (at_both i s.row_count) id),
          written-listed schema db laws roots schedule (at_both i s.row_count) id e,
          listed_weight-ge (at_both i s.row_count) 0 i (segments r.result id) s l,
          both_one i s.row_count,
        ))
        (omega (
          arith,
          sums (has_place id i),
          written-listed schema db laws roots schedule (at_index i) id e,
          (listed_weight-index i 0 (segments r.result id)).0,
        ))

-- The record stands for another archive with the same entry.
pub IsHeld-same :
    (lines : TableTask → List Str) (transformers : Dict (List FieldTransform)) (fork : Bool)
    (a b : Archive) (id : Str) (i : ℕ) (s : ManifestTableSegment)
    → open_segment b id i ≡ open_segment a id i
    → IsHeld lines transformers fork a id i s
    → IsHeld lines transformers fork b id i s
IsHeld-same lines transformers fork a b id i s e h = record {
  task = h.task;
  of_table = h.of_table;
  at = h.at;
  size = h.size;
  before = h.before;
  after = h.after;
  text = h.text;
  made = h.made;
  entry = e ∙ h.entry;
}
