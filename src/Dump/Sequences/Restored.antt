-- ===== src/Dump/Sequences/Restored.antt =====
-- A restore finds the values of the sequences.
use mathlib.Core.Path.{subst}
use mathlib.Core.List.{append_cancel_right}
use slice_db.Prelude.{
  ◌≡◌, ◌≢◌, refl, sym, ap, ◌∙◌, inl, inr, Str, codes, List, [], ◌∷◌, true, false, Bool-cases,
  Option, none, some, Result, ok, err, key_error, ◌>>=◌, str_eq, str_eq_iff, str_eq_refl,
  if◌then◌else◌, arith,
}
use slice_db.Prelude.Int.{ℤ}
use slice_db.Prelude.Dict.{get, get-put, keys}
use slice_db.Formats.{ManifestSequence, DumpSchema}
use slice_db.Slice.{Archive, sequence_path, write_sequence, read_sequence, parse_int}
use slice_db.Slice.Sequences.{read_sequence-write_sequence}
use slice_db.Dump.Schema.{Sequence, Schema, get_sequence, init}
use slice_db.Dump.Schema.Filed.{IsFiled, init-IsFiled}
use slice_db.Dump.Discovery.{DiscoveryResult, add_sequence}
use slice_db.Dump.Sequences.Owned.{is_listed, IsOwned, HasTables, sequence_ids-lem}
use slice_db.Dump.Sequences.{id_of, write_sequences, dump_sequences}

abbrev pub manifest_of : Sequence → ManifestSequence
manifest_of s = record { name = s.name; schema = s.schema }

sequence_path_inj : (id id' : Str) → sequence_path id ≡ sequence_path id' → id ≡ id'
unfolding sequence_path
sequence_path_inj id id' e = append_cancel_right id id' (codes ".txt") e

different : {s t : Str} → s ≡ t → str_eq s t ≡ false → ⊥
different {s} {t} e ne = ground (arith, (str_eq_iff s t).1 e, ne)

-- The schema has the listed ids.
abbrev IsKnown : Schema → List Str → Type 0
IsKnown schema ids =
    (id : Str)
    → is_listed id ids ≡ true
    → (x : Sequence) × (get schema.sequences id ≡ some x) × (x.id ≡ id)

found_item :
    (o : Option Sequence) (x : Sequence)
    → o ≡ some x
    → ◌≡◌ {A = Result Sequence} (elim o [ none ↦ err key_error | some v ↦ ok v ]) (ok x)
found_item o x e = rw e

get_sequence-found :
    (schema : Schema) (id : Str) (x : Sequence)
    → get schema.sequences id ≡ some x
    → get_sequence schema id ≡ ok x
unfolding get_sequence
get_sequence-found schema id x e = found_item (get schema.sequences id) x e

false-ne-true : false ≡ true → ⊥
false-ne-true e = cc

listed_head : (id : Str) (ids : List Str) → is_listed id (id ∷ ids) ≡ true
listed_head id ids = rw (str_eq_refl id)

same_sequence : {x y : Sequence} {o : Option Sequence} → o ≡ some x → o ≡ some y → x ≡ y
same_sequence e f = cc

module _ (last_value : Sequence → ℤ) where
  -- What the slice and the manifest have of a sequence.
  abbrev pub IsWritten : Sequence → DiscoveryResult × Archive → Type 0
  IsWritten s end =
      (get end.0.sequence_manifests s.id ≡ some (manifest_of s))
      × (read_sequence end.1 s.id ≡ ok (last_value s))

  -- What they have of a sequence that is not written: what they had.
  abbrev pub IsKept : Str → DiscoveryResult → Archive → DiscoveryResult × Archive → Type 0
  IsKept id r a end =
      (get end.0.sequence_manifests id ≡ get r.sequence_manifests id)
      × (read_sequence end.1 id ≡ read_sequence a id)

  pub first-IsWritten :
      (s : Sequence) (r : DiscoveryResult) (a : Archive)
      → IsWritten s (add_sequence r s, write_sequence a s.id (last_value s))
  unfolding add_sequence
  first-IsWritten s r a = (
    get-put r.sequence_manifests s.id s.id (manifest_of s)
        ∙ ap (λ b. if b then some (manifest_of s) else get r.sequence_manifests s.id)
            (str_eq_refl s.id),
    (read_sequence-write_sequence a s.id (last_value s)).0,
  )

  pub first-IsKept :
      (s : Sequence) (id : Str) (r : DiscoveryResult) (a : Archive)
      → str_eq s.id id ≡ false
      → IsKept id r a (add_sequence r s, write_sequence a s.id (last_value s))
  unfolding add_sequence read_sequence
  first-IsKept s id r a ne = (
    get-put r.sequence_manifests s.id id (manifest_of s)
        ∙ ap (λ b. if b then some (manifest_of s) else get r.sequence_manifests id) ne,
    ap (λ o. o >>= parse_int)
        ((read_sequence-write_sequence a s.id (last_value s)).1 (sequence_path id)
          (λ e. different (sequence_path_inj s.id id e) ne)),
  )

  trans_IsKept :
      (id : Str) (r q : DiscoveryResult) (a b : Archive) (end : DiscoveryResult × Archive)
      → IsKept id q b end
      → IsKept id r a (q, b)
      → IsKept id r a end
  trans_IsKept id r q a b end later first = (later.0 ∙ first.0, later.1 ∙ first.1)

  -- What the loop makes of ids that the schema has: it ends, the sequences with these ids are
  -- written, and all else is kept.
  write_sequences-ends :
      (schema : Schema) (ids : List Str) (r : DiscoveryResult) (a : Archive)
      → IsKnown schema ids
      → (end : DiscoveryResult × Archive) × (write_sequences last_value schema ids r a ≡ ok end)
        × ((id : Str) → is_listed id ids ≡ false → IsKept id r a end)
        × ((s : Sequence)
            → get schema.sequences s.id ≡ some s
            → is_listed s.id ids ≡ true
            → IsWritten s end)
  unfolding write_sequences get_sequence
  write_sequences-ends schema [] r a known =
      ((r, a), refl, λ id _. (refl, refl), λ s e l. absurd (false-ne-true l))
  write_sequences-ends schema (i ∷ ids) r a known =
      let (x, there, own) = known i (listed_head i ids) in
      let q : DiscoveryResult = add_sequence r x in
      let b : Archive = write_sequence a x.id (last_value x) in
      let (end, e, kept, written) =
        write_sequences-ends schema ids q b (λ id l. known id (ground (arith, l))) in
      (
        end,
        ap
              (λ o. o >>= λ (y : Sequence).
                write_sequences last_value schema ids (add_sequence r y)
                  (write_sequence a y.id (last_value y)))
              (get_sequence-found schema i x there)
            ∙ e,
        λ id l.
            trans_IsKept id r q a b end (kept id (ground (arith, l)))
              (first-IsKept x id r a (ground (arith, l, own, str_eq_iff x.id id, str_eq_iff id i))),
        λ s known_s l. elim (Bool-cases (is_listed s.id ids)) [
          | inl later ↦ written s known_s later
          | inr only ↦
              let here : s.id ≡ i = (str_eq_iff s.id i).0 (ground (arith, l, only)) in
              let same : x ≡ s =
                same_sequence there (ap (get schema.sequences) (sym here) ∙ known_s) in
              let (m, v) = kept s.id only in
              let (m', v') = first-IsWritten x r a in
              subst (λ y. IsWritten y end) same
                (
                  ap (get end.0.sequence_manifests) (ap id_of same)
                      ∙ (m ∙ (ap (get q.sequence_manifests) (ap id_of (sym same)) ∙ m')),
                  ap (read_sequence end.1) (ap id_of same)
                      ∙ (v ∙ (ap (read_sequence b) (ap id_of (sym same)) ∙ v')),
                )
        ],
      )

  -- The sequences are dumped, in whatever order Python goes through the set of their ids, if the
  -- schema has the tables of the manifest. The manifest then has every sequence of these tables,
  -- with its name and schema, and a restore reads its last value from the slice. Of a sequence of
  -- no such table the manifest and the slice have what they had.
  pub dump_sequences-read :
      (config : DumpSchema) (schema : Schema) (in_set_order : List Str → List Str)
      (r : DiscoveryResult) (a : Archive)
      → init config ≡ ok schema
      → ((ids : List Str) (id : Str) → is_listed id (in_set_order ids) ≡ is_listed id ids)
      → HasTables schema (keys r.table_manifests)
      → (end : DiscoveryResult × Archive) × (dump_sequences last_value in_set_order schema r a
          ≡ ok end)
        × ((s : Sequence) → IsOwned schema (keys r.table_manifests) s → IsWritten s end)
        × ((id : Str)
            → ((s : Sequence) → IsOwned schema (keys r.table_manifests) s → s.id ≢ id)
            → IsKept id r a end)
  unfolding dump_sequences
  dump_sequences-read config schema in_set_order r a made order has =
      let (ids, e, owned, listed) = sequence_ids-lem schema (keys r.table_manifests) has in
      let filed : IsFiled schema.sequences schema.tables = init-IsFiled config schema made in
      let (end, done, kept, written) = write_sequences-ends schema (in_set_order ids) r a (λ id l.
        let (s, o, i) = owned id (sym (order ids id) ∙ l) in
        (s, ap (get schema.sequences) (sym i) ∙ filed o.table_id o.table s o.stands o.inside, i)) in
      (
        end,
        ap (λ o. o >>= λ l. write_sequences last_value schema (in_set_order l) r a) e ∙ done,
        λ s o.
            written s (filed o.table_id o.table s o.stands o.inside) (order ids s.id ∙ listed s o),
        λ id none_owned. kept id (
            order ids id ∙ (elim (Bool-cases (is_listed id ids)) [
              | inl l ↦ let (s, o, i) = owned id l in absurd (none_owned s o i)
              | inr l ↦ l
            ])),
      )
