-- ===== src/Dump/Entry/Frame.antt =====
-- What writing the sequences and the manifest leaves alone, and what the sequences' values are.
use mathlib.Core.Path.{subst}
use slice_db.Prelude.{
  ◌≡◌, ◌≢◌, sym, ap, ◌∙◌, Str, List, [], ◌∷◌, false, Option, none, some, ok, ok_inj, returned-bind,
  str_eq, str_eq_iff, str_eq_refl, if◌then◌else◌, Bool-cases, inl, inr,
}
use slice_db.Prelude.Int.{ℤ}
use slice_db.Prelude.Dict.{get, get-put}
use slice_db.Formats.{ManifestSequence}
use slice_db.Slice.{
  Archive, manifest_path, sequence_path, open_entry, entry_or_raise, open_manifest, write_sequence,
  write_manifest, read_sequence,
}
use slice_db.Slice.Sequences.{read_sequence-write_sequence}
use slice_db.Dump.Schema.{Sequence, Schema, get_sequence}
use slice_db.Dump.Discovery.{DiscoveryResult, add_sequence}
use slice_db.Dump.Sequences.{write_sequences}
use slice_db.Dump.Sequences.Restored.{manifest_of, first-IsWritten, first-IsKept}

same_manifest :
    {m n : ManifestSequence} {o : Option ManifestSequence} → o ≡ some m → o ≡ some n → m ≡ n
same_manifest e f = cc

nothing_found : {m : ManifestSequence} → none ≢ some m
nothing_found e = cc

module _ (last_value : Sequence → ℤ) where
  -- Each sequence of the manifest has its last value in the slice.
  abbrev pub HasValues : DiscoveryResult → Archive → Type 0
  HasValues r a =
      (id : Str) (m : ManifestSequence)
      → get r.sequence_manifests id ≡ some m
      → (s : Sequence) × (s.id ≡ id)
        × (m ≡ manifest_of s)
        × (read_sequence a id ≡ ok (last_value s))

  values-step :
      (s : Sequence) (r : DiscoveryResult) (a : Archive)
      → HasValues r a
      → HasValues (add_sequence r s) (write_sequence a s.id (last_value s))
  values-step s r a h id m e = elim (Bool-cases (str_eq s.id id)) [
    | inl same ↦
        let i : s.id ≡ id = (str_eq_iff s.id id).0 same in
        let (there, value) = first-IsWritten last_value s r a in
        (
          s,
          i,
          same_manifest e (ap (get (add_sequence r s).sequence_manifests) (sym i) ∙ there),
          ap (read_sequence (write_sequence a s.id (last_value s))) (sym i) ∙ value,
        )
    | inr other ↦
        let (there, value) = first-IsKept last_value s id r a other in
        let (x, i, e', v) = h id m (sym there ∙ e) in (x, i, e', value ∙ v)
  ]

  pub write_sequences-HasValues :
      (schema : Schema) (ids : List Str) (r q : DiscoveryResult) (a b : Archive)
      → write_sequences last_value schema ids r a ≡ ok (q, b)
      → HasValues r a
      → HasValues q b
  unfolding write_sequences
  write_sequences-HasValues schema [] r q a b h v =
      let e : ◌≡◌ {A = DiscoveryResult × Archive} (r, a) (q, b) = ok_inj h in
      subst (λ (p : DiscoveryResult × Archive). HasValues p.0 p.1) e v
  write_sequences-HasValues schema (id ∷ ids) r q a b h v =
      let (s, e, rest) = returned-bind (get_sequence schema id) _ h in
      write_sequences-HasValues schema ids (add_sequence r s) q
        (write_sequence a s.id (last_value s)) b rest (values-step s r a v)

  pub write_sequences-frame :
      (schema : Schema) (ids : List Str) (r q : DiscoveryResult) (a b : Archive)
      → write_sequences last_value schema ids r a ≡ ok (q, b)
      → (q.table_manifests ≡ r.table_manifests)
        × (q.section_counts ≡ r.section_counts)
        × ((path : Str)
            → ((id : Str) → sequence_path id ≢ path)
            → open_entry b path ≡ open_entry a path)
  unfolding write_sequences add_sequence
  write_sequences-frame schema [] r q a b h =
      let e : ◌≡◌ {A = DiscoveryResult × Archive} (r, a) (q, b) = ok_inj h in
      (
        ap (λ (p : DiscoveryResult × Archive). p.0.table_manifests) (sym e),
        ap (λ (p : DiscoveryResult × Archive). p.0.section_counts) (sym e),
        λ path ne. ap (λ (p : DiscoveryResult × Archive). open_entry p.1 path) (sym e),
      )
  write_sequences-frame schema (id ∷ ids) r q a b h =
      let (s, e, rest) = returned-bind (get_sequence schema id) _ h in
      let (tables, counts, frame) =
        write_sequences-frame schema ids (add_sequence r s) q (write_sequence a s.id (last_value s))
          b rest in
      (
        tables,
        counts,
        λ path ne.
            frame path ne ∙ (read_sequence-write_sequence a s.id (last_value s)).1 path (ne s.id),
      )

  pub nothing_HasValues :
      (r : DiscoveryResult) (a : Archive) → r.sequence_manifests ≡ [] → HasValues r a
  unfolding get
  nothing_HasValues r a e id m h = absurd (nothing_found (sym (ap (λ d. get d id) e) ∙ h))

-- The manifest is read as it was written, and all else as before.
pub write_manifest-frame :
    (a : Archive) (bytes : Str)
    → (open_manifest (write_manifest a bytes) ≡ ok bytes)
      × ((path : Str)
          → manifest_path ≢ path
          → open_entry (write_manifest a bytes) path ≡ open_entry a path)
unfolding open_entry write_manifest
write_manifest-frame a bytes = (
  ap entry_or_raise (
      get-put a manifest_path manifest_path bytes
      ∙ ap (λ b. if b then some bytes else get a manifest_path) (str_eq_refl manifest_path)),
  λ path ne. ap entry_or_raise (
      get-put a manifest_path path bytes
      ∙ ap (λ b. if b then some bytes else get a path) (other path ne)),
)
  where
    other : (path : Str) → manifest_path ≢ path → str_eq manifest_path path ≡ false
    other path ne = elim (Bool-cases (str_eq manifest_path path)) [
      | inl e ↦ absurd (ne ((str_eq_iff manifest_path path).0 e))
      | inr e ↦ e
    ]
