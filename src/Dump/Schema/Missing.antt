-- ===== src/Dump/Schema/Missing.antt =====
-- What `Schema.__init__` raises when a reference names a table that is not there.
use mathlib.Core.Path.{subst}
use mathlib.Core.List.{Memᴰ}
use mathlib.Core.List.Memᴰ
use slice_db.Prelude.{
  ◌≡◌, sym, ap, ◌∙◌, ◌⊎◌, inl, inr, Str, [], ◌∷◌, none, some, ok, err, attribute_error, ◌>>=◌,
  Option-cases,
}
use slice_db.Prelude.Dict.{Dict, get, put}
use slice_db.Formats.{DumpReference, DumpSchema}
use slice_db.Dump.Schema.{
  Reference, Table, Schema, init_sequences, init_tables, table_of_reference, new_reference, attach,
  init_references, init,
}
use slice_db.Dump.Schema.Linked.{get-attach, linked, one_if, none-ne-some}

-- A reference that names a table which is not there.
abbrev pub IsDangling : Dict Table → DumpReference → Type 0
IsDangling tables c = (get tables c.table ≡ none) ⊎ (get tables c.reference_table ≡ none)

attach-none :
    (tables : Dict Table) (r : Reference) (id : Str)
    → get tables id ≡ none
    → get (attach tables r) id ≡ none
attach-none tables r id e =
    get-attach tables r id ∙ ap (linked (one_if r.table id r) (one_if r.reference_table id r)) e

attach-IsDangling :
    (tables : Dict Table) (r : Reference) (c : DumpReference)
    → IsDangling tables c
    → IsDangling (attach tables r) c
attach-IsDangling tables r c (inl e) = inl (attach-none tables r c.table e)
attach-IsDangling tables r c (inr e) = inr (attach-none tables r c.reference_table e)

resolved :
    (tables : Dict Table) (c : DumpReference) (t u : Table)
    → get tables c.table ≡ some t
    → get tables c.reference_table ≡ some u
    → IsDangling tables c
    → ⊥
resolved tables c t u e f (inl missing) = none-ne-some (sym missing ∙ e)
resolved tables c t u e f (inr missing) = none-ne-some (sym missing ∙ f)

init_references-dangling :
    (s : Schema) (rest : Dict DumpReference) (k : Str) (c : DumpReference)
    → Memᴰ (k, c) rest
    → IsDangling s.tables c
    → init_references s rest ≡ err attribute_error
unfolding init_references table_of_reference
init_references-dangling s [] k c m d = absurd (Memᴰ.not-nil m)
init_references-dangling s ((j, x) ∷ rest) k c m d = elim (Option-cases (get s.tables x.table)) [
  | inl e ↦ rw (e, ◌>>=◌)
  | inr (t, e) ↦ elim (Option-cases (get s.tables x.reference_table)) [
    | inl f ↦ rw (e, f, ◌>>=◌)
    | inr (u, f) ↦ elim (Memᴰ.cases_cons m) [
      | inl same ↦
          absurd (resolved s.tables x t u e f (subst (IsDangling s.tables) (ap (λ p. p.1) same) d))
      | inr later ↦
          rw (e, f, ◌>>=◌)
            (init_references-dangling
              (record s {
                tables = attach s.tables (new_reference j x);
                references = put s.references j (new_reference j x);
              })
              rest k c later (attach-IsDangling s.tables (new_reference j x) c d))
    ]
  ]
]

-- Where the tables and their sequences are made, and a reference of the configuration names a table
-- that is not among them, `init` raises an AttributeError, whatever else the configuration has.
pub init-dangling :
    (config : DumpSchema) (made : Dict Table) (k : Str) (c : DumpReference)
    → init_tables (init_sequences [] config.sequences) [] config.tables ≡ ok made
    → Memᴰ (k, c) config.references
    → IsDangling made c
    → init config ≡ err attribute_error
unfolding init
init-dangling config made k c e m d =
    rw (e, ◌>>=◌)
      (init_references-dangling
        (record { sequences = init_sequences [] config.sequences; tables = made; references = [] })
        config.references k c m d)
