-- ===== src/Transform.antt =====
-- slice_db/transform.py and transforms/common.py: transformers, and the transformation of the rows
-- of a table. A transformer is an object with its own state: the counters of all the transformers
-- stand in `Counts`, by their names.
pub mod Rows
mod Tests
use slice_db.Prelude.{
  ℕ, zero, suc, ◌+◌, ◌/◌, ◌%◌, Str, codes, List, [], ◌∷◌, ◌++◌, map, Bool, true, false, Option,
  none, some, Result, ok, err, exception, index_error, key_error, value_error, fuel, ◌>>=◌, map_ok,
  get_elem?, ltb, str_eq, if◌then◌else◌,
}
use slice_db.Prelude.Decimal.{decimal_loop, decimal}
use slice_db.Prelude.Dict.{Dict, get}
use slice_db.Pg.Copy.{
  Field, RawRow, newline, parse_field, serialize_field, parse_raw_row, serialize_raw_row,
}

-- The `_count` of each transformer.
abbrev pub Counts : Type 0
Counts = Str → ℕ

-- What a call of a transformer returns, and the counters after it.
abbrev pub Answer : Type 0
Answer = Result (Field × Counts)

unfoldable pub starts_with : Str → Str → Bool
starts_with [] s = true
starts_with (c ∷ p) [] = false
starts_with (c ∷ p) (d ∷ s) = if str_eq (c ∷ []) (d ∷ []) then starts_with p s else false

-- p in s
unfoldable pub is_in : Str → Str → Bool
unfolding starts_with
is_in p [] = starts_with p []
is_in p (c ∷ s) = if starts_with p (c ∷ s) then true else is_in p s

-- The transformers that `create` makes, by their classes. `other` is one of another module.
pub data Transformer : Type 0 where
  compose : (names : List Str) → Transformer
  const : (value : Field) → Transformer
  replace : (old new : Str) → Transformer
  incrementing_const : (value : Str) (exclude : Option Str) → Transformer
  null : Transformer
  other : (transform : Field → Result Field) → Transformer

abbrev pub is_excluded : Option Str → Str → Bool
is_excluded none text = false
is_excluded (some exclude) text = is_in exclude text

unfoldable pub increment : Str → Counts → Counts
increment name counts j = if str_eq name j then suc (counts j) else counts j

-- _IncrementingConstTransform.transform: None and the empty text are left alone.
unfoldable pub transform_incrementing : Str → Str → Option Str → Field → Counts → Answer
unfolding increment is_in decimal_loop
transform_incrementing name value exclude none counts = ok (none, counts)
transform_incrementing name value exclude (some []) counts = ok (some [], counts)
transform_incrementing name value exclude (some (c ∷ text)) counts =
    if is_excluded exclude (c ∷ text)
    then ok (some (c ∷ text), counts)
    else ok (some (value ++ (codes " " ++ decimal (suc (counts name)))), increment name counts)

-- The loop of ComposeTransformer.transform, over the transformers' calls.
unfoldable pub in_turn : List (Field → Counts → Answer) → Field → Counts → Answer
in_turn [] text counts = ok (text, counts)
in_turn (f ∷ fs) text counts =
    f text counts >>= λ answer. let (new, after) = answer in in_turn fs new after

abbrev pub unless_null : Field → Field → Field
unless_null none value = none
unless_null (some text) value = value

abbrev pub if_present : (Str → Str) → Field → Field
if_present f none = none
if_present f (some text) = some (f text)

-- `sub old new text` is re.compile(re.escape(old), re.IGNORECASE).sub(new, text).
module _ (sub : Str → Str → Str → Str) where
  -- The method `transform` of each class; `again` is a call of another transformer by its name.
  unfoldable pub transform_by :
      (Str → Field → Counts → Answer) → Str → Transformer → Field → Counts → Answer
  unfolding transform_incrementing in_turn
  transform_by again name (compose names) text counts = in_turn (map again names) text counts
  transform_by again name (const value) text counts = ok (unless_null text value, counts)
  transform_by again name (replace old new) text counts = ok (if_present (sub old new) text, counts)
  transform_by again name (incrementing_const value exclude) text counts =
      transform_incrementing name value exclude text counts
  transform_by again name null text counts = ok (none, counts)
  transform_by again name (other f) text counts = map_ok (λ new. (new, counts)) (f text)

  -- The transformer of a name: the object of the dict `_transforms`, also where the object that
  -- calls holds the DeferredTransformer that stands for it. A transformer that is composed of
  -- itself calls itself for ever; `rounds` bounds the depth of the calls.
  unfoldable pub transform : Dict Transformer → ℕ → Str → Field → Counts → Answer
  unfolding transform_by
  transform transforms zero name text counts = err fuel
  transform transforms (suc rounds) name text counts = elim (get transforms name) [
    | none ↦ err exception
    | some t ↦ transform_by (transform transforms rounds) name t text counts
  ]

-- _Field: a place in the row, and the call of its transformer.
pub record FieldTransform : Type 0 where
  pub index : ℕ
  pub transform : Field → Counts → Answer

-- row[index] = value, for an index of the row
unfoldable pub set_elem {ℓ} : {A : Type ℓ} → List A → ℕ → A → List A
set_elem [] i v = []
set_elem (x ∷ xs) zero v = v ∷ xs
set_elem (x ∷ xs) (suc i) v = x ∷ set_elem xs i v

-- _Field.apply
unfoldable pub apply : FieldTransform → RawRow → Counts → Result (RawRow × Counts)
unfolding set_elem
apply f row counts = elim (get_elem? row f.index) [
  | none ↦ err index_error
  | some raw ↦ parse_field raw >>= λ field. f.transform field counts >>= λ answer.
      let (new, after) = answer in ok (set_elem row f.index (serialize_field new), after)
]

-- for field in self._fields: field.apply(row)
unfoldable pub apply_fields : List FieldTransform → RawRow → Counts → Result (RawRow × Counts)
unfolding apply
apply_fields [] row counts = ok (row, counts)
apply_fields (f ∷ fs) row counts =
    apply f row counts >>= λ done. let (new, after) = done in apply_fields fs new after

-- line[:-1]
unfoldable pub without_last : Str → Str
without_last [] = []
without_last (c ∷ []) = []
without_last (c ∷ d ∷ s) = c ∷ without_last (d ∷ s)

-- output.write of a row and its newline, before what is written later
abbrev pub write_line : RawRow → Str × Counts → Str × Counts
write_line row (text, counts) = (serialize_raw_row row ++ (newline ∷ text), counts)

-- TableTransformer.transform: the lines of the input, and what is written.
unfoldable pub transform_table : List FieldTransform → List Str → Counts → Result (Str × Counts)
unfolding apply_fields without_last
transform_table fields [] counts = ok ([], counts)
transform_table fields (line ∷ lines) counts =
    apply_fields fields (parse_raw_row (without_last line)) counts >>= λ done.
    let (row, after) = done in map_ok (write_line row) (transform_table fields lines after)

-- list.index(name), with None for ValueError
unfoldable pub index_of : Str → List Str → Option ℕ
index_of name [] = none
index_of name (c ∷ columns) =
    let rest = index_of name columns in
    if str_eq c name then some 0 else elim rest [ none ↦ none | some i ↦ some (suc i) ]

-- Transforms.table, with `call` for a call of a transformer of the dict
unfoldable pub table_fields :
    Dict Transformer
    → (Str → Field → Counts → Answer)
    → Dict Str
    → List Str
    → Result (List FieldTransform)
unfolding index_of
table_fields transforms call [] columns = ok []
table_fields transforms call ((name, column) ∷ more) columns = elim (index_of name columns) [
  | none ↦ err value_error
  | some i ↦ elim (get transforms column) [
    | none ↦ err key_error
    | some _ ↦
        map_ok (λ fields. record { index = i; transform = call column } ∷ fields)
          (table_fields transforms call more columns)
  ]
]
