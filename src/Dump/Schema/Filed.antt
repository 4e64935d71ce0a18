-- ===== src/Dump/Schema/Filed.antt =====
-- The sequences of the tables are those of the schema.
use mathlib.Core.Path.{subst}
use mathlib.Core.List.{Memᴰ}
use mathlib.Core.List.Memᴰ
use slice_db.Prelude.{
  ◌≡◌, ◌≢◌, refl, sym, ap, ◌∙◌, Str, List, [], ◌∷◌, Bool-cases, inl, inr, Option, none, some,
  Result, ok, err, ok_inj, err-ne-ok, returned-bind, key_error, str_eq, str_eq_iff, if◌then◌else◌,
}
use slice_db.Prelude.Dict.{Dict, get, put, get-put}
use slice_db.Formats.{DumpReference, DumpTable, DumpSchema, DumpSequence}
use slice_db.Dump.Schema.{
  Sequence, Reference, Table, Schema, item, find_sequences, init_sequences, init_tables,
  table_of_reference, new_reference, attach, init_references, init,
}
use slice_db.Dump.Schema.Linked.{from_table, to_table, linked, none-ne-some, init_references-tables}

-- Each sequence stands under its id.
abbrev pub IsKeyed : Dict Sequence → Type 0
IsKeyed sequences = (id : Str) (x : Sequence) → get sequences id ≡ some x → x.id ≡ id

-- The dictionary has each sequence of the tables, under its id.
abbrev pub IsFiled : Dict Sequence → Dict Table → Type 0
IsFiled sequences tables =
    (id : Str) (t : Table) (x : Sequence)
    → get tables id ≡ some t
    → Memᴰ x t.sequences
    → get sequences x.id ≡ some x

abbrev found : Option Sequence → Result Sequence
found o = elim o [ none ↦ err key_error | some v ↦ ok v ]

no_sequence : {x : Sequence} → none ≢ some x
no_sequence e = cc

some_sequence : {x y : Sequence} → some x ≡ some y → x ≡ y
some_sequence e = cc

some_table : {t u : Table} → some t ≡ some u → t ≡ u
some_table e = cc

nothing_IsKeyed : IsKeyed []
unfolding get
nothing_IsKeyed id x e = absurd (no_sequence e)

nothing_IsFiled : (sequences : Dict Sequence) → IsFiled sequences []
unfolding get
nothing_IsFiled sequences id t x e m = absurd (none-ne-some e)

init_sequences-IsKeyed :
    (made : Dict Sequence) (configs : Dict DumpSequence)
    → IsKeyed made
    → IsKeyed (init_sequences made configs)
unfolding init_sequences
init_sequences-IsKeyed made [] h = h
init_sequences-IsKeyed made ((k, c) ∷ rest) h =
    let new : Sequence = record { id = k; schema = c.schema; name = c.name } in
    init_sequences-IsKeyed (put made k new) rest (λ id x e. elim (Bool-cases (str_eq k id)) [
      | inl same ↦
          ap (λ (y : Sequence). y.id)
            (some_sequence (
              sym e ∙ (get-put made k id new ∙ ap (λ b. if b then some new else get made id) same)))
          ∙ (str_eq_iff k id).0 same
      | inr other ↦ h id x (
          ap (λ b. if b then some new else get made id) (sym other)
          ∙ (sym (get-put made k id new) ∙ e))
    ])

item-get : (o : Option Sequence) (x : Sequence) → found o ≡ ok x → o ≡ some x
item-get none x h = absurd (err-ne-ok h)
item-get (some y) x h = ap some (ok_inj h)

find_sequences-IsFiled :
    (made : Dict Sequence) (ids : List Str) (ss : List Sequence) (x : Sequence)
    → IsKeyed made
    → find_sequences made ids ≡ ok ss
    → Memᴰ x ss
    → get made x.id ≡ some x
unfolding find_sequences
find_sequences-IsFiled made [] ss x keyed h m =
    absurd (Memᴰ.not-nil (subst (Memᴰ x) (sym (ok_inj h)) m))
find_sequences-IsFiled made (id ∷ ids) ss x keyed h m =
    let (s, es, h1) = returned-bind (item made id) _ h in
    let (more, em, h2) = returned-bind (find_sequences made ids) _ h1 in
    elim (Memᴰ.cases_cons (subst (Memᴰ x) (sym (ok_inj h2)) m)) [
      | inl e ↦
          let there : get made id ≡ some s = item-get (get made id) s es in
          ap (get made) (ap (λ (y : Sequence). y.id) e ∙ keyed id s there)
          ∙ (there ∙ ap some (sym e))
      | inr later ↦ find_sequences-IsFiled made ids more x keyed em later
    ]

put-IsFiled :
    (sequences : Dict Sequence) (tables : Dict Table) (k : Str) (new : Table)
    → IsFiled sequences tables
    → ((x : Sequence) → Memᴰ x new.sequences → get sequences x.id ≡ some x)
    → IsFiled sequences (put tables k new)
put-IsFiled sequences tables k new b own id t x et m = elim (Bool-cases (str_eq k id)) [
  | inl same ↦
      let new_one : some t ≡ some new =
        sym et ∙ (get-put tables k id new ∙ ap (λ b. if b then some new else get tables id) same) in
      own x (subst (λ (u : Table). Memᴰ x u.sequences) (some_table new_one) m)
  | inr other ↦
      let old_one : get tables id ≡ some t =
        ap (λ b. if b then some new else get tables id) (sym other)
        ∙ (sym (get-put tables k id new) ∙ et) in
      b id t x old_one m
]

init_tables-IsFiled :
    (sequences : Dict Sequence) (configs : Dict DumpTable) (made tables : Dict Table)
    → IsKeyed sequences
    → init_tables sequences made configs ≡ ok tables
    → IsFiled sequences made
    → IsFiled sequences tables
unfolding init_tables
init_tables-IsFiled sequences [] made tables keyed h b = subst (IsFiled sequences) (ok_inj h) b
init_tables-IsFiled sequences ((k, config) ∷ rest) made tables keyed h b =
    let (ss, e, h1) = returned-bind (find_sequences sequences config.sequences) _ h in
    init_tables-IsFiled sequences rest _ tables keyed h1 (
      put-IsFiled sequences made k _ b
        (λ x m. find_sequences-IsFiled sequences config.sequences ss x keyed e m))

init_references-sequences :
    (s s' : Schema) (rest : Dict DumpReference)
    → init_references s rest ≡ ok s'
    → s'.sequences ≡ s.sequences
unfolding init_references
init_references-sequences s s' [] h = ap (λ (m : Schema). m.sequences) (sym (ok_inj h))
init_references-sequences s s' ((k, c) ∷ rest) h =
    let (t, et, h1) = returned-bind (table_of_reference s.tables c.table) _ h in
    let (u, eu, h2) = returned-bind (table_of_reference s.tables c.reference_table) _ h1 in
    let r : Reference = new_reference k c in
    init_references-sequences
      (record s { tables = attach s.tables r; references = put s.references k r }) s' rest h2

of_linked :
    (out back : List Reference) (o : Option Table) (t : Table)
    → some t ≡ linked out back o
    → (u : Table) × (o ≡ some u) × (t.sequences ≡ u.sequences)
of_linked out back none t e = absurd (none-ne-some (sym e))
of_linked out back (some u) t e = (u, refl, ap (λ (v : Table). v.sequences) (some_table e))

-- The schema that is made of a configuration has each sequence of each of its tables, under the
-- sequence's id.
pub init-IsFiled :
    (config : DumpSchema) (s : Schema) → init config ≡ ok s → IsFiled s.sequences s.tables
unfolding init
init-IsFiled config s h id t x e m =
    let sequences = init_sequences [] config.sequences in
    let (made, em, h1) = returned-bind (init_tables sequences [] config.tables) _ h in
    let bare : Schema = record { sequences = sequences; tables = made; references = [] } in
    let (u, eu, same) =
      of_linked (from_table id config.references) (to_table id config.references) (get made id) t
        (sym e ∙ init_references-tables bare s config.references id h1) in
    ap (λ d. get d x.id) (init_references-sequences bare s config.references h1)
    ∙ init_tables-IsFiled sequences config.tables [] made
        (init_sequences-IsKeyed [] config.sequences nothing_IsKeyed) em (nothing_IsFiled sequences)
        id u x eu (subst (Memᴰ x) same m)
