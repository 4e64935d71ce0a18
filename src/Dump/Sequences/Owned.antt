-- ===== src/Dump/Sequences/Owned.antt =====
-- Which sequences are dumped.
use mathlib.Core.Path.{subst}
use mathlib.Core.List.{Memᴰ}
use mathlib.Core.List.Memᴰ
use slice_db.Prelude.{
  ◌≡◌, refl, sym, ap, ◌∙◌, ◌⊎◌, inl, inr, Str, List, [], ◌∷◌, ◌++◌, map, any, Bool, true, false,
  ◌||◌, Bool-cases, Option, none, some, Result, ok, err, key_error, map_ok, ◌>>=◌, str_eq,
  str_eq_iff, arith,
}
use slice_db.Prelude.Dict.{get}
use slice_db.Dump.Schema.{Sequence, Table, Schema, get_table}
use slice_db.Dump.Sequences.{id_of, sequence_ids}

abbrev pub is_listed : Str → List Str → Bool
is_listed id ids = any (str_eq id) ids

-- One of the named tables has the sequence.
pub record IsOwned (schema : Schema) (table_ids : List Str) (s : Sequence) : Type 0 where
  pub table_id : Str
  pub table : Table
  pub named : Memᴰ table_id table_ids
  pub stands : get schema.tables table_id ≡ some table
  pub inside : Memᴰ s table.sequences

-- The schema has the named tables.
abbrev pub HasTables : Schema → List Str → Type 0
HasTables schema table_ids =
    (id : Str) → Memᴰ id table_ids → (t : Table) × (get schema.tables id ≡ some t)

abbrev OwnsId : Schema → List Str → Str → Type 0
OwnsId schema table_ids id = (s : Sequence) × IsOwned schema table_ids s × (s.id ≡ id)

false-ne-true : false ≡ true → ⊥
false-ne-true e = cc

listed_in_map :
    (ss : List Sequence) (id : Str)
    → is_listed id (map id_of ss) ≡ true
    → (s : Sequence) × Memᴰ s ss × (s.id ≡ id)
listed_in_map [] id h = cc
listed_in_map (s ∷ ss) id h = elim (Bool-cases (str_eq id s.id)) [
  | inl e ↦ (s, Memᴰ.head refl, sym ((str_eq_iff id s.id).0 e))
  | inr e ↦ let (t, m, i) = listed_in_map ss id (ground (arith, h, e)) in (t, Memᴰ.tail m, i)
]

map_listed : (ss : List Sequence) (s : Sequence) → Memᴰ s ss → is_listed s.id (map id_of ss) ≡ true
map_listed [] s m = absurd (Memᴰ.not-nil m)
map_listed (t ∷ ss) s m = elim (Memᴰ.cases_cons m) [
  | inl e ↦
      let same : str_eq s.id t.id ≡ true = (str_eq_iff s.id t.id).1 (ap id_of e) in
      ground (arith, same)
  | inr later ↦ let rest = map_listed ss s later in ground (arith, rest)
]

is_listed-append :
    (id : Str) (xs ys : List Str) → is_listed id (xs ++ ys) ≡ (is_listed id xs || is_listed id ys)
is_listed-append id [] ys = refl
is_listed-append id (x ∷ xs) ys = ground (arith, is_listed-append id xs ys)

found_item :
    (o : Option Table) (t : Table)
    → o ≡ some t
    → ◌≡◌ {A = Result Table} (elim o [ none ↦ err key_error | some v ↦ ok v ]) (ok t)
found_item o t e = rw e

get_table-found :
    (schema : Schema) (id : Str) (t : Table)
    → get schema.tables id ≡ some t
    → get_table schema id ≡ ok t
unfolding get_table
get_table-found schema id t e = found_item (get schema.tables id) t e

same_table : {t u : Table} {o : Option Table} → o ≡ some t → o ≡ some u → t ≡ u
same_table e f = cc

or-cases : (a b : Bool) → (a || b) ≡ true → (a ≡ true) ⊎ (b ≡ true)
or-cases true b h = inl refl
or-cases false b h = inr h

-- The ids are found, and are those of the sequences of the named tables.
pub sequence_ids-lem :
    (schema : Schema) (table_ids : List Str)
    → HasTables schema table_ids
    → (ids : List Str) × (sequence_ids schema table_ids ≡ ok ids)
      × ((id : Str) → is_listed id ids ≡ true → OwnsId schema table_ids id)
      × ((s : Sequence) → IsOwned schema table_ids s → is_listed s.id ids ≡ true)
unfolding sequence_ids
sequence_ids-lem schema [] has =
    ([], refl, λ id l. absurd (false-ne-true l), λ s o. absurd (Memᴰ.not-nil o.named))
sequence_ids-lem schema (k ∷ ks) has =
    let (t, there) = has k (Memᴰ.head refl) in
    let (ids, e, owned, listed) = sequence_ids-lem schema ks (λ id m. has id (Memᴰ.tail m)) in
    let own : List Str = map id_of t.sequences in
    (
      own ++ ids,
      ap
            (λ o. o >>= λ (table : Table).
              map_ok (λ more. map id_of table.sequences ++ more) (sequence_ids schema ks))
            (get_table-found schema k t there)
          ∙ ap (map_ok (λ more. own ++ more)) e,
      λ id l.
          elim (or-cases (is_listed id own) (is_listed id ids)
            (sym (is_listed-append id own ids) ∙ l)) [
              | inl here ↦
                  let (s, m, i) = listed_in_map t.sequences id here in
                  (
                    s,
                    record {
                      table_id = k;
                      table = t;
                      named = Memᴰ.head refl;
                      stands = there;
                      inside = m;
                    },
                    i,
                  )
              | inr later ↦
                  let (s, o, i) = owned id later in
                  (
                    s,
                    record {
                      table_id = o.table_id;
                      table = o.table;
                      named = Memᴰ.tail o.named;
                      stands = o.stands;
                      inside = o.inside;
                    },
                    i,
                  )
            ],
      λ s o. is_listed-append s.id own ids ∙ (elim (Memᴰ.cases_cons o.named) [
        | inl here ↦
            let same : o.table ≡ t = same_table o.stands (ap (get schema.tables) here ∙ there) in
            let m : is_listed s.id own ≡ true =
              map_listed t.sequences s (subst (λ (u : Table). Memᴰ s u.sequences) same o.inside) in
            ground (arith, m)
        | inr later ↦
            let m : is_listed s.id ids ≡ true = listed s (record {
              table_id = o.table_id;
              table = o.table;
              named = later;
              stands = o.stands;
              inside = o.inside;
            }) in
            ground (arith, m)
      ]),
    )
