-- ===== src/Dump/Sections/Restored.antt =====
-- A restore executes the statements that pg_dump wrote.
use slice_db.Prelude.{
  ℕ, zero, suc, ◌+◌, ◌*◌, ◌≤◌, ◌<◌, ◌≡◌, ◌≢◌, refl, sym, ap, ◌∙◌, Str, List, [], ◌∷◌, length, Bool,
  true, false, ◌&&◌, Bool-cases, some, Result, ok, map_ok, ◌>>=◌, ok_inj, str_eq, str_eq_iff,
  str_eq_refl, if◌then◌else◌, inl, inr, arith, get_elem?, ◌==◌, ==_iff,
}
use slice_db.Prelude.Dict.{Dict, get}
use slice_db.Pg.Token.{other, comment, parse_statements}
use slice_db.Pg.Token.Grammar.{ends}
use slice_db.Pg.Token.Pieces.{rejoin, IsEnded, rejoin-parse_statements}
use slice_db.Transform.{Counts, FieldTransform}
use slice_db.Slice.{Archive, open_entry, entry_or_raise, schema_path, segment_path}
use slice_db.Slice.Paths.{schema_path_inj}
use slice_db.Slice.Frame.{schema_path-segment_path}
use slice_db.Dump.Discovery.{DiscoveryResult}
use slice_db.Dump.Tasks.{TableTask}
use slice_db.Dump.Output.{Write, segment, statement, weave, text_of, write_all}
use slice_db.Dump.Output.Found.{write_weight, write_weight-weave}
use slice_db.Dump.Output.Entries.{path_of, writes_to, entry_of_found}
use slice_db.Restore.{execute_all}
use slice_db.Restore.Reads.{scripts}
use slice_db.Dump.Sections.Counts.{
  section_count-count_statements, schema_task-made, returned_pieces-done,
}
use slice_db.Dump.Sections.{section_count, all_but_last, statement_writes, statements, schema_task}

-- Whether a write is that of a statement, with its index and text.
abbrev is_that : Str → ℕ → Str → Write → ℕ
is_that section i text (segment w) = 0
is_that section i text (statement s j t) =
    if str_eq s section && (j == i && str_eq t text) then 1 else 0

is_that-lem :
    (section : Str) (i : ℕ) (text : Str) (s : Str) (j : ℕ) (t : Str)
    → 0 < is_that section i text (statement s j t)
    → (s ≡ section) × (j ≡ i) × (t ≡ text)
is_that-lem section i text s j t h =
    let a : str_eq s section ≡ true = ground (arith, h) in
    let b : (j == i) ≡ true = ground (arith, h) in
    let c : str_eq t text ≡ true = ground (arith, h) in
    ((str_eq_iff s section).0 a, (==_iff j i).0 b, (str_eq_iff t text).0 c)

statement_found :
    (section : Str) (i k : ℕ) (ss : List Str) (text : Str)
    → get_elem? ss k ≡ some text
    → 1 ≤ write_weight (is_that section (i + k) text) (statement_writes section i ss)
unfolding statement_writes
statement_found section i k [] text h = cc
statement_found section i zero (s ∷ ss) text h =
    let e : i + 0 ≡ i = omega arith in
    let a : str_eq section section ≡ true = str_eq_refl section in
    let b : (i == i) ≡ true = (==_iff i i).1 refl in
    let c : str_eq s text ≡ true = (str_eq_iff s text).1 (cc) in rw e (ground (arith, a, b, c))
statement_found section i (suc k) (s ∷ ss) text h =
    let e : i + suc k ≡ suc i + k = omega arith in
    omega (
      arith,
      ap (λ n. write_weight (is_that section n text) (statement_writes section (suc i) ss)) e,
      statement_found section (suc i) k ss text h,
    )

writes_to-statement :
    (section : Str) (k j : ℕ) (text : Str)
    → writes_to (schema_path section k) (statement section j text) ≤ (if j == k then 1 else 0)
writes_to-statement section k j text =
    elim (Bool-cases (str_eq (schema_path section j) (schema_path section k))) [
      | inl e ↦
          let same : j ≡ k =
            (schema_path_inj section section j k
              ((str_eq_iff (schema_path section j) (schema_path section k)).0 e)).1 in
          let same_index : (j == k) ≡ true = (==_iff j k).1 same in ground (arith, same_index)
      | inr e ↦ ground (arith, e)
    ]

-- The task writes one statement to an index, and none below its first index.
statement_once :
    (section : Str) (k i : ℕ) (ss : List Str)
    → (write_weight (writes_to (schema_path section k)) (statement_writes section i ss) ≤ 1)
      × (k < i
          → write_weight (writes_to (schema_path section k)) (statement_writes section i ss) ≡ 0)
unfolding statement_writes
statement_once section k i [] = (omega arith, λ h. refl)
statement_once section k i (s ∷ ss) =
    let (most, below) = statement_once section k (suc i) ss in
    elim (Bool-cases (i == k)) [
      | inl e ↦
          let same : i ≡ k = (==_iff i k).0 e in
          (
            ground (arith, writes_to-statement section k i s, below, same, e),
            λ h. absurd (omega (arith, same)),
          )
      | inr e ↦
          let none_here : writes_to (schema_path section k) (statement section i s) ≡ 0 =
            ground (arith, writes_to-statement section k i s, e) in
          (omega (arith, none_here, most), λ h. omega (arith, none_here, below (omega arith)))
    ]

-- None of the writes is a statement of the section.
unfoldable pub IsApart : Str → List Write → Type 0
IsApart section [] = Unit
IsApart section (segment w ∷ ws) = IsApart section ws
IsApart section (statement s i text ∷ ws) = (s ≢ section) × IsApart section ws

IsApart-weight :
    (section : Str) (k : ℕ) (ws : List Write)
    → IsApart section ws
    → write_weight (writes_to (schema_path section k)) ws ≡ 0
unfolding IsApart
IsApart-weight section k [] h = refl
IsApart-weight section k (segment w ∷ ws) h =
    let other : str_eq (segment_path w.segment.table.id w.segment.index) (schema_path section k)
        ≡ false =
      (schema_path-segment_path section k w.segment.table.id w.segment.index).1 in
    ground (arith, other, IsApart-weight section k ws h)
IsApart-weight section k (statement s i text ∷ ws) h =
    elim (Bool-cases (str_eq (schema_path s i) (schema_path section k))) [
      | inl e ↦ absurd (
          h.0
            (schema_path_inj s section i k
              ((str_eq_iff (schema_path s i) (schema_path section k)).0 e)).0)
      | inr e ↦ ground (arith, e, IsApart-weight section k ws h.1)
    ]

scripts-all :
    (b : Archive) (section : Str) (i : ℕ) (ss : List Str)
    → ((k : ℕ) (text : Str)
        → get_elem? ss k ≡ some text
        → get b (schema_path section (i + k)) ≡ some text)
    → scripts b (execute_all section i (length ss)) ≡ ok ss
unfolding scripts open_entry
scripts-all b section i [] h = refl
scripts-all b section i (s ∷ ss) h =
    let e : i + 0 ≡ i = omega arith in
    let first : get b (schema_path section i) ≡ some s =
      ap (λ n. get b (schema_path section n)) (sym e) ∙ h 0 s refl in
    ap
      (λ o. entry_or_raise o >>= λ text.
        map_ok (λ texts. text ∷ texts) (scripts b (execute_all section (suc i) (length ss))))
      first
    ∙ ap (map_ok (λ texts. s ∷ texts)) (
        scripts-all b section (suc i) ss (λ k text g.
          let shift : suc i + k ≡ i + suc k = omega arith in
          ap (λ n. get b (schema_path section n)) shift ∙ h (suc k) text g))

module _ (lines : TableTask → List Str) (transformers : Dict (List FieldTransform))
    (fork : Bool) where
  that_path :
      (section : Str) (i : ℕ) (text : Str) (w : Write)
      → 0 < is_that section i text w
      → path_of w ≡ schema_path section i
  that_path section i text (segment w) h = absurd (omega (arith, h))
  that_path section i text (statement s j t) h =
      let (a, b, c) = is_that-lem section i text s j t h in rw (a, b)

  that_text :
      (section : Str) (i : ℕ) (text : Str) (w : Write) (before after : Counts) (made : Str)
      → 0 < is_that section i text w
      → text_of lines transformers fork w before ≡ ok (made, after)
      → made ≡ text
  unfolding text_of
  that_text section i text (segment w) before after made h e = absurd (omega (arith, h))
  that_text section i text (statement s j t) before after made h e =
      let (_, _, c) = is_that-lem section i text s j t h in
      ap (λ (p : Str × Counts). p.0) (sym (ok_inj e)) ∙ c

  statement_entry :
      (section : Str) (ss : List Str) (others ws : List Write) (a b : Archive) (c d : Counts)
      → ((m : Write → ℕ)
          → write_weight m ws
            ≡ write_weight m others + write_weight m (statement_writes section 0 ss))
      → IsApart section others
      → write_all lines transformers fork a c ws ≡ ok (b, d)
      → (k : ℕ) (text : Str) → get_elem? ss k ≡ some text
      → get b (schema_path section (0 + k)) ≡ some text
  statement_entry section ss others ws a b c d sums apart h k text g =
      let (w, pos, before, made, after, e, there) =
        entry_of_found lines transformers fork (is_that section (0 + k) text)
          (schema_path section (0 + k)) ws a b c d h (that_path section (0 + k) text)
          (omega
            (arith, sums (is_that section (0 + k) text), statement_found section 0 k ss text g))
          (omega (
            arith,
            sums (writes_to (schema_path section (0 + k))),
            IsApart-weight section (0 + k) others apart,
            (statement_once section (0 + k) 0 ss).0,
          )) in
      there ∙ ap some (that_text section (0 + k) text w before after made pos e)

  -- The statements of a section are read in their order, when the writes are these statements and
  -- others that are none of the section.
  pub scripts-statement_writes :
      (section : Str) (ss : List Str) (others ws : List Write) (a b : Archive) (c d : Counts)
      → ((m : Write → ℕ)
          → write_weight m ws
            ≡ write_weight m others + write_weight m (statement_writes section 0 ss))
      → IsApart section others
      → write_all lines transformers fork a c ws ≡ ok (b, d)
      → scripts b (execute_all section 0 (length ss)) ≡ ok ss
  scripts-statement_writes section ss others ws a b c d sums apart h =
      scripts-all b section 0 ss (statement_entry section ss others ws a b c d sums apart h)

  -- The task of a section, when it has counted no statement of it before, and its writes, with any
  -- other writes between them that are no statements of this section. If pg_dump's text does not end
  -- in a comment without a newline, and all is written, then a restore that executes as many schema
  -- files of the section as were counted executes all statements of the text but the last, in their
  -- order; with that last one they make up the text, except that one semicolon may be missing at its
  -- end.
  pub schema_task-scripts :
      (pg_dump : Str → Result Str) (section text : Str) (r q : DiscoveryResult)
      (ws others : List Write) (choices : List Bool) (a b : Archive) (c d : Counts)
      → pg_dump section ≡ ok text
      → ends other text ≢ comment
      → section_count r section ≡ 0
      → schema_task pg_dump section r ≡ ok (q, ws)
      → IsApart section others
      → write_all lines transformers fork a c (weave choices others ws) ≡ ok (b, d)
      → (pieces : List Str) × (statements text ≡ ok pieces)
        × IsEnded (rejoin pieces) text
        × (scripts b (execute_all section 0 (section_count q section)) ≡ ok (all_but_last pieces))
  schema_task-scripts pg_dump section text r q ws others choices a b c d given whole none_before h
        apart written =
      let (t, pieces, dumped, split, counts, made) = schema_task-made pg_dump section r q ws h in
      let same : t ≡ text = ok_inj (sym dumped ∙ given) in
      let parsed : statements text ≡ ok pieces = ap statements (sym same) ∙ split in
      let ss : List Str = all_but_last pieces in
      let counted : section_count q section ≡ length ss = omega (
        arith,
        none_before,
        ap (λ p. section_count p section) counts,
        section_count-count_statements r section ss,
      ) in
      (
        pieces,
        parsed,
        rejoin-parse_statements text (2 * length text + 2) pieces whole (omega arith)
            (returned_pieces-done (parse_statements text (2 * length text + 2)) pieces parsed),
        ap (λ n. scripts b (execute_all section 0 n)) counted
            ∙ scripts-statement_writes section ss others
                (weave choices others (statement_writes section 0 ss)) a b c d
                (λ m. write_weight-weave m choices others (statement_writes section 0 ss)) apart
                (ap (λ l. write_all lines transformers fork a c (weave choices others l)) (sym made)
                  ∙ written),
      )
