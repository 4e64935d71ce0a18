-- ===== src/Dump/Output/Entries.antt =====
-- Which write an entry of the slice has.
use mathlib.Core.Path.{subst}
use slice_db.Prelude.{
  ℕ, ◌≤◌, ◌<◌, ◌≡◌, sym, ap, ◌∙◌, Str, List, [], ◌∷◌, ◌++◌, Bool, true, false, some, ok, ok_inj,
  returned-bind, str_eq, str_eq_refl, if◌then◌else◌, arith,
}
use slice_db.Prelude.Dict.{Dict, get, get-put}
use slice_db.Transform.{Counts, FieldTransform}
use slice_db.Slice.{Archive, segment_path, schema_path}
use slice_db.Dump.Tasks.{TableTask}
use slice_db.Dump.Output.{Write, segment, statement, write_entry, text_of, write_all}
use slice_db.Dump.Output.Found.{write_weight, write_weight-append, find_write}

abbrev pub path_of : Write → Str
path_of (segment w) = segment_path w.segment.table.id w.segment.index
path_of (statement section i text) = schema_path section i

-- Whether the write is to a path.
abbrev pub writes_to : Str → Write → ℕ
writes_to path w = if str_eq (path_of w) path then 1 else 0

get-write_entry :
    (a : Archive) (w : Write) (text path : Str)
    → get (write_entry a w text) path ≡ (if str_eq (path_of w) path then some text else get a path)
unfolding write_entry
get-write_entry a (segment w) text path =
    get-put a (segment_path w.segment.table.id w.segment.index) path text
get-write_entry a (statement section i t) text path = get-put a (schema_path section i) path text

module _ (lines : TableTask → List Str) (transformers : Dict (List FieldTransform))
    (fork : Bool) where
  write_all-other :
      (ws : List Write) (a b : Archive) (c d : Counts) (path : Str)
      → write_all lines transformers fork a c ws ≡ ok (b, d)
      → write_weight (writes_to path) ws ≡ 0
      → get b path ≡ get a path
  unfolding write_all
  write_all-other [] a b c d path h z = ap (λ p. get p.0 path) (sym (ok_inj h))
  write_all-other (w ∷ ws) a b c d path h z =
      let (written, e, rest) = returned-bind (text_of lines transformers fork w c) _ h in
      let other : str_eq (path_of w) path ≡ false = ground (arith, z) in
      write_all-other ws (write_entry a w written.0) b written.1 d path rest (omega arith)
      ∙ (get-write_entry a w written.0 path
          ∙ ap (λ b. if b then some written.0 else get a path) other)

  write_all-split :
      (front back : List Write) (w : Write) (a b : Archive) (c d : Counts)
      → write_all lines transformers fork a c (front ++ (w ∷ back)) ≡ ok (b, d)
      → (a' : Archive) × (c' : Counts) × (text : Str) × (d' : Counts) × (text_of lines transformers
            fork w c'
          ≡ ok (text, d'))
        × (write_all lines transformers fork (write_entry a' w text) d' back ≡ ok (b, d))
  unfolding write_all
  write_all-split [] back w a b c d h =
      let (written, e, rest) = returned-bind (text_of lines transformers fork w c) _ h in
      (a, c, written.0, written.1, e, rest)
  write_all-split (v ∷ front) back w a b c d h =
      let (written, e, rest) = returned-bind (text_of lines transformers fork v c) _ h in
      write_all-split front back w (write_entry a v written.0) b written.1 d rest

  -- Where one write only is to its path, the slice has its text there.
  pub entry_of_write :
      (front back : List Write) (w : Write) (a b : Archive) (c d : Counts)
      → write_all lines transformers fork a c (front ++ (w ∷ back)) ≡ ok (b, d)
      → write_weight (writes_to (path_of w)) (front ++ (w ∷ back)) ≤ 1
      → (before : Counts) × (text : Str) × (after : Counts) × (text_of lines transformers fork w
            before
          ≡ ok (text, after))
        × (get b (path_of w) ≡ some text)
  entry_of_write front back w a b c d h one =
      let path : Str = path_of w in
      let (a', c', text, d', made, rest) = write_all-split front back w a b c d h in
      let own : str_eq path path ≡ true = str_eq_refl path in
      let none_after : write_weight (writes_to path) back ≡ 0 =
        ground (arith, one, own, write_weight-append (writes_to path) front (w ∷ back)) in
      (
        c',
        text,
        d',
        made,
        write_all-other back (write_entry a' w text) b d' d path rest none_after
            ∙ (get-write_entry a' w text path ∙ ap (λ b. if b then some text else get a' path) own),
      )

  -- The same for a write that a measure finds.
  pub entry_of_found :
      (m : Write → ℕ) (path : Str) (ws : List Write) (a b : Archive) (c d : Counts)
      → write_all lines transformers fork a c ws ≡ ok (b, d)
      → ((w : Write) → 0 < m w → path_of w ≡ path)
      → 0 < write_weight m ws
      → write_weight (writes_to path) ws ≤ 1
      → (w : Write) × (0 < m w)
        × (before : Counts) × (text : Str) × (after : Counts) × (text_of lines transformers fork w
              before
            ≡ ok (text, after))
        × (get b path ≡ some text)
  entry_of_found m path ws a b c d h there some_one one =
      let (front, w, back, same, pos) = find_write m ws some_one in
      let here : path_of w ≡ path = there w pos in
      let (before, text, after, made, e) =
        entry_of_write front back w a b c d
          (subst (λ l. write_all lines transformers fork a c l ≡ ok (b, d)) same h)
          (omega (
            arith,
            one,
            ap (λ p. write_weight (writes_to p) (front ++ (w ∷ back))) here,
            ap (write_weight (writes_to path)) same,
          )) in
      (w, pos, before, text, after, made, ap (get b) (sym here) ∙ e)
