-- ===== src/Dump/Entry/SectionTasks.antt =====
-- What a slice has of the sections of the schema.
use mathlib.Core.Path.{subst}
use slice_db.Prelude.{
  map_ok, ◌>>=◌, none, ℕ, zero, suc, ◌+◌, ◌≡◌, ◌≢◌, refl, sym, ap, ◌∙◌, Str, codes, List, [], ◌∷◌,
  ◌++◌, map, Bool, true, false, some, Result, ok, ok_inj, returned-bind, length, str_eq, arith,
}
use slice_db.Prelude.Dict.{Dict, get}
use slice_db.Transform.{Counts, FieldTransform}
use slice_db.Slice.{Archive, open_schema}
use slice_db.Restore.{execute_all}
use slice_db.Restore.Reads.{scripts}
use slice_db.Dump.Discovery.{DiscoveryResult}
use slice_db.Dump.Tasks.{TableTask}
use slice_db.Dump.Output.{Write, segment, statement, weave, write_all}
use slice_db.Dump.Output.Found.{write_weight, write_weight-weave, write_weight-append}
use slice_db.Dump.Output.Complete.{HasNoSegment}
use slice_db.Dump.Sections.{
  section_count, all_but_last, count_statements, statement_writes, statements, schema_task,
}
use slice_db.Dump.Sections.Counts.{
  schema_task-made, count_statements-keeps, section_count-count_statements,
}
use slice_db.Dump.Sections.Restored.{IsApart, scripts-statement_writes}
use slice_db.Dump.Entry.{Environment, schema_tasks}
use slice_db.Dump.Entry.Fresh.{IsFresh}

-- What a restore executes for a section: nothing, or the statements that pg_dump wrote but the last.
pub IsSection : (Str → Result Str) → Bool → Str → ℕ → Archive → Type 0
IsSection pg_dump false section n a = scripts a (execute_all section 0 n) ≡ ok []
IsSection pg_dump true section n a =
    (text : Str) × (pieces : List Str) × (pg_dump section ≡ ok text)
    × (statements text ≡ ok pieces)
    × (scripts a (execute_all section 0 n) ≡ ok (all_but_last pieces))

scripts-same :
    (section : Str) (a b : Archive) (i n : ℕ)
    → ((j : ℕ) → open_schema b section j ≡ open_schema a section j)
    → scripts b (execute_all section i n) ≡ scripts a (execute_all section i n)
unfolding scripts
scripts-same section a b i zero h = refl
scripts-same section a b i (suc n) h =
    ap
      (λ o.
        o >>= λ text. map_ok (λ texts. text ∷ texts) (scripts b (execute_all section (suc i) n)))
      (h i)
    ∙ ap (λ more. open_schema a section i >>= λ text. map_ok (λ texts. text ∷ texts) more)
        (scripts-same section a b (suc i) n h)

pub IsSection-same :
    (pg_dump : Str → Result Str) (include : Bool) (section : Str) (n : ℕ) (a b : Archive)
    → ((j : ℕ) → open_schema b section j ≡ open_schema a section j)
    → IsSection pg_dump include section n a
    → IsSection pg_dump include section n b
unfolding IsSection
IsSection-same pg_dump false section n a b h s = scripts-same section a b 0 n h ∙ s
IsSection-same pg_dump true section n a b h (text, pieces, dumped, split, s) =
    (text, pieces, dumped, split, scripts-same section a b 0 n h ∙ s)

HasNoSegment-statement_writes :
    (section : Str) (i : ℕ) (ss : List Str) → HasNoSegment (statement_writes section i ss)
unfolding HasNoSegment statement_writes
HasNoSegment-statement_writes section i [] = tt
HasNoSegment-statement_writes section i (s ∷ ss) = HasNoSegment-statement_writes section (suc i) ss

HasNoSegment-append :
    (xs ys : List Write) → HasNoSegment xs → HasNoSegment ys → HasNoSegment (xs ++ ys)
unfolding HasNoSegment
HasNoSegment-append [] ys h k = k
HasNoSegment-append (segment w ∷ xs) ys h k = absurd h
HasNoSegment-append (statement s i t ∷ xs) ys h k = HasNoSegment-append xs ys h k

HasNoSegment-weave :
    (bs : List Bool) (xs ys : List Write)
    → HasNoSegment xs
    → HasNoSegment ys
    → HasNoSegment (weave bs xs ys)
unfolding HasNoSegment weave
HasNoSegment-weave [] xs ys h k = HasNoSegment-append xs ys h k
HasNoSegment-weave (b ∷ bs) [] ys h k = k
HasNoSegment-weave (b ∷ bs) (x ∷ xs) [] h k = h
HasNoSegment-weave (b ∷ bs) (segment w ∷ xs) (y ∷ ys) h k = absurd h
HasNoSegment-weave (b ∷ bs) (statement s i t ∷ xs) (segment w ∷ ys) h k = absurd k
HasNoSegment-weave (true ∷ bs) (statement s i t ∷ xs) (statement s' i' t' ∷ ys) h k =
    HasNoSegment-weave bs xs (statement s' i' t' ∷ ys) h k
HasNoSegment-weave (false ∷ bs) (statement s i t ∷ xs) (statement s' i' t' ∷ ys) h k =
    HasNoSegment-weave bs (statement s i t ∷ xs) ys h k

IsApart-statement_writes :
    (section other : Str) (i : ℕ) (ss : List Str)
    → other ≢ section
    → IsApart section (statement_writes other i ss)
unfolding IsApart statement_writes
IsApart-statement_writes section other i [] ne = tt
IsApart-statement_writes section other i (s ∷ ss) ne =
    (ne, IsApart-statement_writes section other (suc i) ss ne)

IsApart-segments :
    (section : Str) (ws : List TableTask) (more : List Write)
    → IsApart section more
    → IsApart section (map segment ws ++ more)
unfolding IsApart
IsApart-segments section [] more h = h
IsApart-segments section (w ∷ ws) more h = IsApart-segments section ws more h

pre-ne-post : codes "pre-data" ≢ codes "post-data"
pre-ne-post e = true-ne-false (ap (λ s. str_eq s (codes "pre-data")) e)
  where
    true-ne-false : true ≡ false → ⊥
    true-ne-false h = cc

fresh_count : (r : DiscoveryResult) (section : Str) → IsFresh r → section_count r section ≡ 0
unfolding section_count get
fresh_count r section h = ap (λ d. elim (get d section) [ none ↦ 0 | some n ↦ n ]) h.1

-- The result and the writes of both tasks, by the statements of their sections.
abbrev both_counted : DiscoveryResult → List Str → List Str → DiscoveryResult
both_counted r ss1 ss2 =
    count_statements (count_statements r (codes "pre-data") ss1) (codes "post-data") ss2

abbrev both_written : List Bool → List Str → List Str → List Write
both_written cs ss1 ss2 =
    weave cs (statement_writes (codes "pre-data") 0 ss1)
      (statement_writes (codes "post-data") 0 ss2)

module _ (env : Environment) (transformers : Dict (List FieldTransform)) where
  -- pg_dump's text for a section is split into these statements.
  abbrev IsSplit : Str → List Str → Type 0
  IsSplit section pieces =
      (text : Str) × (env.pg_dump section ≡ ok text) × (statements text ≡ ok pieces)

  -- The result and the writes of the sections, and what the slice has of them.
  pub record HasSections (include : Bool) (r q : DiscoveryResult) (ws : List Write) (b : Archive)
      : Type 0 where
    pub same_tables : q.table_manifests ≡ r.table_manifests
    pub same_sequences : q.sequence_manifests ≡ r.sequence_manifests
    pub pre_data :
        IsSection env.pg_dump include (codes "pre-data") (section_count q (codes "pre-data")) b
    pub post_data :
        IsSection env.pg_dump include (codes "post-data") (section_count q (codes "post-data")) b

  no_schema :
      (r q : DiscoveryResult) (ws : List Write) (choices : List Bool) (b : Archive)
      → IsFresh r
      → schema_tasks env.pg_dump false choices r ≡ ok (q, ws)
      → HasSections false r q ws b
  unfolding schema_tasks IsSection scripts
  no_schema r q ws choices b fresh h =
      let same : ◌≡◌ {A = DiscoveryResult × List Write} (r, []) (q, ws) = ok_inj h in
      let result : q ≡ r = ap (λ (p : DiscoveryResult × List Write). p.0) (sym same) in
      let none_of : (section : Str) → section_count q section ≡ 0 =
        λ section. ap (λ x. section_count x section) result ∙ fresh_count r section fresh in
      record {
        same_tables = ap (λ (x : DiscoveryResult). x.table_manifests) result;
        same_sequences = ap (λ (x : DiscoveryResult). x.sequence_manifests) result;
        pre_data =
            ap (λ n. scripts b (execute_all (codes "pre-data") 0 n)) (none_of (codes "pre-data"));
        post_data =
            ap (λ n. scripts b (execute_all (codes "post-data") 0 n)) (none_of (codes "post-data"));
      }

  -- The sum over the woven writes of the rows and of both sections.
  woven :
      (bs cs : List Bool) (rows first second : List Write) (m : Write → ℕ)
      → (write_weight m (weave bs rows (weave cs first second))
          ≡ write_weight m (rows ++ second) + write_weight m first)
        × (write_weight m (weave bs rows (weave cs first second))
            ≡ write_weight m (rows ++ first) + write_weight m second)
  woven bs cs rows first second m =
      let outer = write_weight-weave m bs rows (weave cs first second) in
      let inner = write_weight-weave m cs first second in
      (
        omega (arith, outer, inner, write_weight-append m rows second),
        omega (arith, outer, inner, write_weight-append m rows first),
      )

  -- What both tasks have counted and write.
  tasks-made :
      (r q : DiscoveryResult) (ws : List Write) (cs : List Bool)
      → schema_tasks env.pg_dump true cs r ≡ ok (q, ws)
      → (p1 p2 : List Str) × IsSplit (codes "pre-data") p1
        × IsSplit (codes "post-data") p2
        × (q ≡ both_counted r (all_but_last p1) (all_but_last p2))
        × (ws ≡ both_written cs (all_but_last p1) (all_but_last p2))
  unfolding schema_tasks
  tasks-made r q ws cs h =
      let (first, e1, h1) = returned-bind (schema_task env.pg_dump (codes "pre-data") r) _ h in
      let (second, e2, h2) =
        returned-bind (schema_task env.pg_dump (codes "post-data") first.0) _ h1 in
      let (t1, p1, d1, s1, q1, w1) =
        schema_task-made env.pg_dump (codes "pre-data") r first.0 first.1 e1 in
      let (t2, p2, d2, s2, q2, w2) =
        schema_task-made env.pg_dump (codes "post-data") first.0 second.0 second.1 e2 in
      let same : ◌≡◌ {A = DiscoveryResult × List Write} (second.0, weave cs first.1 second.1)
          (q, ws) =
        ok_inj h2 in
      let x1 : List Write = statement_writes (codes "pre-data") 0 (all_but_last p1) in
      (
        p1,
        p2,
        (t1, d1, s1),
        (t2, d2, s2),
        ap (λ (p : DiscoveryResult × List Write). p.0) (sym same)
            ∙ (q2 ∙ ap (λ x. count_statements x (codes "post-data") (all_but_last p2)) q1),
        ap (λ (p : DiscoveryResult × List Write). p.1) (sym same)
            ∙ (ap (λ x. weave cs x second.1) w1 ∙ ap (weave cs x1) w2),
      )

  -- What is counted for each section is the number of its statements.
  both-counts :
      (r : DiscoveryResult) (ss1 ss2 : List Str)
      → IsFresh r
      → (section_count (both_counted r ss1 ss2) (codes "pre-data") ≡ length ss1)
        × (section_count (both_counted r ss1 ss2) (codes "post-data") ≡ length ss2)
  both-counts r ss1 ss2 fresh =
      let pre : Str = codes "pre-data" in
      let post : Str = codes "post-data" in
      let r1 : DiscoveryResult = count_statements r pre ss1 in
      (
        (count_statements-keeps r1 post ss2).2 pre (λ e. pre-ne-post (sym e))
            ∙ omega (arith, section_count-count_statements r pre ss1, fresh_count r pre fresh),
        omega (
          arith,
          section_count-count_statements r1 post ss2,
          (count_statements-keeps r pre ss1).2 post pre-ne-post,
          fresh_count r post fresh,
        ),
      )

  with_schema :
      (r q : DiscoveryResult) (ws : List Write) (cs bs : List Bool) (output : List TableTask)
      (a b : Archive) (c d : Counts)
      → IsFresh r
      → schema_tasks env.pg_dump true cs r ≡ ok (q, ws)
      → write_all env.lines transformers env.fork a c (weave bs (map segment output) ws) ≡ ok (b, d)
      → HasSections true r q ws b × HasNoSegment ws
  unfolding IsSection
  with_schema r q ws cs bs output a b c d fresh h written =
      let (p1, p2, (t1, d1, s1), (t2, d2, s2), result, writes) = tasks-made r q ws cs h in
      let pre : Str = codes "pre-data" in
      let post : Str = codes "post-data" in
      let ss1 : List Str = all_but_last p1 in
      let ss2 : List Str = all_but_last p2 in
      let x1 : List Write = statement_writes pre 0 ss1 in
      let x2 : List Write = statement_writes post 0 ss2 in
      let (n1, n2) = both-counts r ss1 ss2 fresh in
      let (k1t, k1q, _) = count_statements-keeps r pre ss1 in
      let (k2t, k2q, _) = count_statements-keeps (count_statements r pre ss1) post ss2 in
      let rows : List Write = map segment output in
      let all : write_all env.lines transformers env.fork a c (weave bs rows (weave cs x1 x2))
          ≡ ok (b, d) =
        ap (λ l. write_all env.lines transformers env.fork a c (weave bs rows l)) (sym writes)
        ∙ written in
      let read1 : scripts b (execute_all pre 0 (length ss1)) ≡ ok ss1 =
        scripts-statement_writes env.lines transformers env.fork pre ss1 (rows ++ x2)
          (weave bs rows (weave cs x1 x2)) a b c d (λ m. (woven bs cs rows x1 x2 m).0)
          (IsApart-segments pre output x2
            (IsApart-statement_writes pre post 0 ss2 (λ e. pre-ne-post (sym e))))
          all in
      let read2 : scripts b (execute_all post 0 (length ss2)) ≡ ok ss2 =
        scripts-statement_writes env.lines transformers env.fork post ss2 (rows ++ x1)
          (weave bs rows (weave cs x1 x2)) a b c d (λ m. (woven bs cs rows x1 x2 m).1)
          (IsApart-segments post output x1 (IsApart-statement_writes post pre 0 ss1 pre-ne-post))
          all in
      (
        record {
          same_tables = ap (λ (x : DiscoveryResult). x.table_manifests) result ∙ (k2t ∙ k1t);
          same_sequences = ap (λ (x : DiscoveryResult). x.sequence_manifests) result ∙ (k2q ∙ k1q);
          pre_data = (
            t1,
            p1,
            d1,
            s1,
            ap (λ n. scripts b (execute_all pre 0 n)) (ap (λ x. section_count x pre) result ∙ n1)
                ∙ read1,
          );
          post_data = (
            t2,
            p2,
            d2,
            s2,
            ap (λ n. scripts b (execute_all post 0 n)) (ap (λ x. section_count x post) result ∙ n2)
                ∙ read2,
          );
        },
        subst HasNoSegment (sym writes) (
            HasNoSegment-weave cs x1 x2 (HasNoSegment-statement_writes pre 0 ss1)
              (HasNoSegment-statement_writes post 0 ss2)),
      )

  pub sections_of :
      (include : Bool) (r q : DiscoveryResult) (ws : List Write) (cs bs : List Bool)
      (output : List TableTask) (a b : Archive) (c d : Counts)
      → IsFresh r
      → schema_tasks env.pg_dump include cs r ≡ ok (q, ws)
      → write_all env.lines transformers env.fork a c (weave bs (map segment output) ws) ≡ ok (b, d)
      → HasSections include r q ws b × HasNoSegment ws
  unfolding schema_tasks HasNoSegment
  sections_of true r q ws cs bs output a b c d fresh h written =
      with_schema r q ws cs bs output a b c d fresh h written
  sections_of false r q ws cs bs output a b c d fresh h written =
      let same : ◌≡◌ {A = DiscoveryResult × List Write} (r, []) (q, ws) = ok_inj h in
      (
        no_schema r q ws cs b fresh h,
        subst HasNoSegment (ap (λ (p : DiscoveryResult × List Write). p.1) same) tt,
      )
