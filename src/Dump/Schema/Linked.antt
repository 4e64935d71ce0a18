-- ===== src/Dump/Schema/Linked.antt =====
-- What `Schema.__init__` makes of a configuration: which references a table lists, and what it raises.
use mathlib.Core.Path.{subst}
use mathlib.Core.List.{append_assoc, append-nil}
use slice_db.Prelude.{
  Bool, true, false, ◌≡◌, ◌≢◌, refl, sym, ap, ◌∙◌, inl, inr, Str, List, [], ◌∷◌, ◌++◌, Option, none,
  some, ok, ok_inj, returned-bind, str_eq, str_eq_iff, if◌then◌else◌, Option-cases, arith,
}
use slice_db.Prelude.Dict.{Dict, get, put, get-put}
use slice_db.Formats.{DumpReference, DumpTable, DumpSchema}
use slice_db.Dump.Schema.{
  Sequence, Reference, Table, Schema, change, append_reference, append_reverse, find_sequences,
  init_sequences, init_tables, table_of_reference, new_reference, attach, init_references, init,
}

-- The references of a configuration that start at a table, and those that lead to it, in order.
abbrev pub from_table : Str → Dict DumpReference → List Reference
from_table id [] = []
from_table id ((k, c) ∷ rest) =
    let more = from_table id rest in if str_eq c.table id then new_reference k c ∷ more else more

abbrev pub to_table : Str → Dict DumpReference → List Reference
to_table id [] = []
to_table id ((k, c) ∷ rest) =
    let more = to_table id rest in
    if str_eq c.reference_table id then new_reference k c ∷ more else more

-- A table with more references.
abbrev pub link : List Reference → List Reference → Table → Table
link out back t = record t {
  references = t.references ++ out;
  reverse_references = t.reverse_references ++ back;
}

abbrev pub linked : List Reference → List Reference → Option Table → Option Table
linked out back none = none
linked out back (some t) = some (link out back t)

abbrev pub one_if : Str → Str → Reference → List Reference
one_if a b r = if str_eq a b then r ∷ [] else []

abbrev changed : (Table → Table) → Option Table → Option Table
changed f none = none
changed f (some t) = some (f t)

at_none :
    (f : Table → Table) (o : Option Table) (b : Bool)
    → (b ≡ true → o ≡ none)
    → o ≡ (if b then changed f o else o)
at_none f o true h = rw (h refl)
at_none f o false h = refl

at_some :
    (f : Table → Table) (o : Option Table) (b : Bool) (t : Table)
    → (b ≡ true → o ≡ some t)
    → (if b then some (f t) else o) ≡ (if b then changed f o else o)
at_some f o true t h = rw (h refl)
at_some f o false t h = refl

attach-cases :
    (r : Reference) (a b : Bool) (o : Option Table)
    → (if b
        then changed (append_reverse r) (if a then changed (append_reference r) o else o)
        else (if a then changed (append_reference r) o else o))
      ≡ linked (if a then r ∷ [] else []) (if b then r ∷ [] else []) o
attach-cases r true true none = refl
attach-cases r true false none = refl
attach-cases r false true none = refl
attach-cases r false false none = refl
attach-cases r true true (some t) = refl
attach-cases r true false (some t) =
    ap (λ l. some (record (append_reference r t) { reverse_references = l }))
      (sym (append-nil t.reverse_references))
attach-cases r false true (some t) =
    ap (λ l. some (record (append_reverse r t) { references = l })) (sym (append-nil t.references))
attach-cases r false false (some t) = rw (append-nil t.references, append-nil t.reverse_references)

get-change :
    (tables : Dict Table) (k : Str) (f : Table → Table) (id : Str)
    → get (change tables k f) id
      ≡ (if str_eq k id then changed f (get tables id) else get tables id)
get-change tables k f id = elim (Option-cases (get tables k)) [
  | inl e ↦ rw (change, e) (at_none f (get tables id) (str_eq k id) (same e))
  | inr (t, e) ↦
      rw (change, e)
        (get-put tables k id (f t) ∙ at_some f (get tables id) (str_eq k id) t (same e))
]
  where
    same : {o : Option Table} → get tables k ≡ o → str_eq k id ≡ true → get tables id ≡ o
    same e h = ap (get tables) (sym ((str_eq_iff k id).0 h)) ∙ e

pub get-attach :
    (tables : Dict Table) (r : Reference) (id : Str)
    → get (attach tables r) id
      ≡ linked (one_if r.table id r) (one_if r.reference_table id r) (get tables id)
get-attach tables r id =
    get-change (change tables r.table (append_reference r)) r.reference_table (append_reverse r) id
    ∙ (ap (λ o. if str_eq r.reference_table id then changed (append_reverse r) o else o)
          (get-change tables r.table (append_reference r) id)
        ∙ attach-cases r (str_eq r.table id) (str_eq r.reference_table id) (get tables id))

linked_twice :
    (a b c d : List Reference) (o : Option Table)
    → linked c d (linked a b o) ≡ linked (a ++ c) (b ++ d) o
linked_twice a b c d none = refl
linked_twice a b c d (some t) =
    rw (append_assoc t.references a c, append_assoc t.reverse_references b d)

linked_nil : (o : Option Table) → linked [] [] o ≡ o
linked_nil none = refl
linked_nil (some t) = rw (append-nil t.references, append-nil t.reverse_references)

one_if-append :
    (k : Str) (c : DumpReference) (rest : Dict DumpReference) (id : Str)
    → (one_if c.table id (new_reference k c) ++ from_table id rest ≡ from_table id ((k, c) ∷ rest))
      × (one_if c.reference_table id (new_reference k c) ++ to_table id rest
          ≡ to_table id ((k, c) ∷ rest))
one_if-append k c rest id = (ground arith, ground arith)

-- What the loop over the references does to each table.
pub init_references-tables :
    (s s' : Schema) (rest : Dict DumpReference) (id : Str)
    → init_references s rest ≡ ok s'
    → get s'.tables id ≡ linked (from_table id rest) (to_table id rest) (get s.tables id)
unfolding init_references
init_references-tables s s' [] id h =
    ap (λ m. get m.tables id) (sym (ok_inj h)) ∙ sym (linked_nil (get s.tables id))
init_references-tables s s' ((k, c) ∷ rest) id h =
    let (t, et, h1) = returned-bind (table_of_reference s.tables c.table) _ h in
    let (u, eu, h2) = returned-bind (table_of_reference s.tables c.reference_table) _ h1 in
    let r : Reference = new_reference k c in
    init_references-tables
      (record s { tables = attach s.tables r; references = put s.references k r }) s' rest id h2
    ∙ (ap (linked (from_table id rest) (to_table id rest)) (get-attach s.tables r id)
        ∙ (linked_twice (one_if c.table id r) (one_if c.reference_table id r) (from_table id rest)
              (to_table id rest) (get s.tables id)
            ∙ rw ((one_if-append k c rest id).0, (one_if-append k c rest id).1)))

-- The tables before their references: each stands under its id.
abbrev IsBare : Dict Table → Type 0
IsBare tables =
    (id : Str) (t : Table)
    → get tables id ≡ some t
    → (t.id ≡ id) × (t.references ≡ []) × (t.reverse_references ≡ [])

put-IsBare :
    (tables : Dict Table) (k : Str) (t : Table)
    → t.id ≡ k
    → t.references ≡ []
    → t.reverse_references ≡ []
    → IsBare tables
    → IsBare (put tables k t)
put-IsBare tables k t a b c h id u e =
    ground (arith, get-put tables k id t, str_eq_iff k id, h id u)

init_tables-IsBare :
    (sequences : Dict Sequence) (configs : Dict DumpTable) (made tables : Dict Table)
    → init_tables sequences made configs ≡ ok tables
    → IsBare made
    → IsBare tables
unfolding init_tables
init_tables-IsBare sequences [] made tables h b = subst IsBare (ok_inj h) b
init_tables-IsBare sequences ((id, config) ∷ rest) made tables h b =
    let (ss, e, h1) = returned-bind (find_sequences sequences config.sequences) _ h in
    init_tables-IsBare sequences rest _ tables h1 (put-IsBare made id _ refl refl refl b)

pub none-ne-some : {t : Table} → none ≢ some t
none-ne-some e = cc

nothing_IsBare : IsBare []
unfolding get
nothing_IsBare id t e = absurd (none-ne-some e)

of_linked :
    (id : Str) (out back : List Reference) (o : Option Table) (t : Table)
    → ((u : Table) → o ≡ some u → (u.id ≡ id) × (u.references ≡ []) × (u.reverse_references ≡ []))
    → some t ≡ linked out back o
    → (t.id ≡ id) × (t.references ≡ out) × (t.reverse_references ≡ back)
of_linked id out back none t bare e = absurd (none-ne-some (sym e))
of_linked id out back (some u) t bare e = ground (arith, bare u refl)

-- In the schema that is made of a configuration, each table stands under its id and lists exactly
-- the references of the configuration that start at it, and as reverse references exactly those
-- that lead to it, in the configuration's order; one that leads from a table to itself is in both.
pub init-references :
    (config : DumpSchema) (s : Schema) (id : Str) (t : Table)
    → init config ≡ ok s
    → get s.tables id ≡ some t
    → (t.id ≡ id)
      × (t.references ≡ from_table id config.references)
      × (t.reverse_references ≡ to_table id config.references)
unfolding init
init-references config s id t h e =
    let sequences = init_sequences [] config.sequences in
    let (made, em, h1) = returned-bind (init_tables sequences [] config.tables) _ h in
    let bare : IsBare made = init_tables-IsBare sequences config.tables [] made em nothing_IsBare in
    let after =
      init_references-tables (record { sequences = sequences; tables = made; references = [] }) s
        config.references id h1 in
    of_linked id (from_table id config.references) (to_table id config.references) (get made id) t
      (bare id) (sym e ∙ after)
