-- ===== src/Dump/Entry/Rows.antt =====
-- What a slice has after the rows and the schema are dumped.
use mathlib.Core.Path.{subst}
use slice_db.Prelude.{
  err, fuel, ℕ, ◌≡◌, refl, sym, ap, ◌∙◌, Str, codes, List, [], ◌∷◌, map, Bool, some, Result, ok,
  get_elem?, err-ne-ok, ok_inj, returned-bind,
}
use slice_db.Prelude.Dict.{Dict, get}
use slice_db.Collection.Numpy.{IsNumpy}
use slice_db.Formats.{ManifestTableSegment}
use slice_db.Transform.{FieldTransform}
use slice_db.Slice.{Archive}
use slice_db.Dump.Schema.{Schema}
use slice_db.Dump.Discovery.{DiscoveryResult}
use slice_db.Dump.Discovery.Numbers.{segments, listed_segments}
use slice_db.Dump.Tasks.{Root, Task, System, run, start}
use slice_db.Dump.Output.{segment, weave, write_all}
use slice_db.Dump.Output.Complete.{IsHeld, slice_complete}
use slice_db.Dump.Sections.{section_count}
use slice_db.Dump.Entry.{Environment, Choices, if_all_ended, schema_tasks, dump_rows}
use slice_db.Dump.Entry.SectionTasks.{IsSection, sections_of}
use slice_db.Dump.Entry.Fresh.{IsFresh, run-IsFresh}

pub record HasRows (env : Environment) (transformers : Dict (List FieldTransform)) (include : Bool)
    (q : DiscoveryResult) (a : Archive) : Type 0 where
  pub held :
      (id : Str) (i : ℕ) (s : ManifestTableSegment)
      → get_elem? (segments q id) i ≡ some s
      → IsHeld env.lines transformers env.fork a id i s
  pub pre_data :
      IsSection env.pg_dump include (codes "pre-data") (section_count q (codes "pre-data")) a
  pub post_data :
      IsSection env.pg_dump include (codes "post-data") (section_count q (codes "post-data")) a
  pub no_sequence : q.sequence_manifests ≡ []

ended :
    (tasks : List Task) (s t : System)
    → ◌≡◌ {A = Result System} (elim tasks [ [] ↦ ok s | task ∷ more ↦ err fuel ]) (ok t)
    → (s ≡ t) × (tasks ≡ [])
ended [] s t h = (ok_inj h, refl)
ended (task ∷ tasks) s t h = absurd (err-ne-ok h)

-- After the rows are dumped, and the schema when it is included, the slice holds the segments that
-- the result lists, and a restore executes for each section as many schema files as were counted:
-- the statements that pg_dump wrote but the last. No sequence is in the result.
pub dump_rows-HasRows :
    (env : Environment) (laws : IsNumpy env.np) (choices : Choices) (schema : Schema)
    (roots : List Root) (transformers : Dict (List FieldTransform)) (include : Bool)
    (q : DiscoveryResult) (b : Archive)
    → dump_rows env choices schema roots transformers include ≡ ok (q, b)
    → HasRows env transformers include q b
unfolding dump_rows
dump_rows-HasRows env laws choices schema roots transformers include q b h =
    let s : System = run schema env.db env.np (start schema env.db roots) choices.schedule in
    let (t, e1, h1) = returned-bind (if_all_ended s) _ h in
    let (tasks, e2, h2) =
      returned-bind (schema_tasks env.pg_dump include choices.sections t.result) _ h1 in
    let (written, e3, h3) =
      returned-bind
        (write_all env.lines transformers env.fork [] (λ _. 0)
          (weave choices.writes (map segment t.output) tasks.1))
        _ h2 in
    let (same, all) = ended s.pool s t e1 in
    let fresh : IsFresh t.result =
      subst (λ x. IsFresh x.result) same
        (run-IsFresh schema env.db env.np roots choices.schedule) in
    let last : ◌≡◌ {A = DiscoveryResult × Archive} (tasks.0, written.0) (q, b) = ok_inj h3 in
    let (sections, apart) =
      sections_of env transformers include t.result tasks.0 tasks.1 choices.sections choices.writes
        t.output [] written.0 (λ _. 0) written.1 fresh e2 e3 in
    subst (λ (p : DiscoveryResult × Archive). HasRows env transformers include p.0 p.1) last
      (record {
        held = λ id i x l.
            slice_complete env.lines transformers env.fork schema env.db laws roots choices.schedule
              choices.writes tasks.1 [] written.0 (λ _. 0) written.1 all apart
              (ap
                  (λ (x : System).
                    write_all env.lines transformers env.fork [] (λ _. 0)
                      (weave choices.writes (map segment x.output) tasks.1))
                  same
                ∙ e3)
              id i x
              (ap (λ d. get_elem? (listed_segments (get d id)) i)
                  (ap (λ (x : System). x.result.table_manifests) same ∙ sym sections.same_tables)
                ∙ l);
        pre_data = sections.pre_data;
        post_data = sections.post_data;
        no_sequence = sections.same_sequences ∙ fresh.0;
      })
