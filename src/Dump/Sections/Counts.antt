-- ===== src/Dump/Sections/Counts.antt =====
-- What the task of a section counts, and what it writes.
use slice_db.Prelude.{
  ◌+◌, ◌≡◌, ◌≢◌, refl, sym, ap, ◌∙◌, Str, List, [], ◌∷◌, length, Bool-cases, none, some, Result, ok,
  ok_inj, returned-bind, str_eq, str_eq_iff, str_eq_refl, if◌then◌else◌, inl, inr, arith,
}
use slice_db.Prelude.Dict.{get, get-put}
use slice_db.Pg.Token.{Outcome, done, raised, out_of_fuel}
use slice_db.Dump.Discovery.{DiscoveryResult}
use slice_db.Dump.Output.{Write}
use slice_db.Dump.Sections.{
  section_count, count_statement, all_but_last, count_statements, statement_writes, returned_pieces,
  statements, schema_task,
}

section_count-count_statement :
    (r : DiscoveryResult) (section : Str)
    → section_count (count_statement r section) section ≡ section_count r section + 1
unfolding section_count count_statement
section_count-count_statement r section =
    ap (λ o. elim o [ none ↦ 0 | some n ↦ n ])
      (get-put r.section_counts section section (section_count r section + 1)
        ∙ ap (λ b. if b then some (section_count r section + 1) else get r.section_counts section)
            (str_eq_refl section))

section_count-other :
    (r : DiscoveryResult) (section s : Str)
    → section ≢ s
    → section_count (count_statement r section) s ≡ section_count r s
unfolding section_count count_statement
section_count-other r section s ne = elim (Bool-cases (str_eq section s)) [
  | inl e ↦ absurd (ne ((str_eq_iff section s).0 e))
  | inr e ↦
      ap (λ o. elim o [ none ↦ 0 | some n ↦ n ])
        (get-put r.section_counts section s (section_count r section + 1)
          ∙ ap (λ b. if b then some (section_count r section + 1) else get r.section_counts s) e)
]

-- What a count of statements leaves alone.
pub count_statements-keeps :
    (r : DiscoveryResult) (section : Str) (ss : List Str)
    → ((count_statements r section ss).table_manifests ≡ r.table_manifests)
      × ((count_statements r section ss).sequence_manifests ≡ r.sequence_manifests)
      × ((s : Str)
          → section ≢ s
          → section_count (count_statements r section ss) s ≡ section_count r s)
unfolding count_statements count_statement
count_statements-keeps r section [] = (refl, refl, λ s ne. refl)
count_statements-keeps r section (x ∷ ss) =
    let (t, q, c) = count_statements-keeps (count_statement r section) section ss in
    (t, q, λ s ne. c s ne ∙ section_count-other r section s ne)

pub section_count-count_statements :
    (r : DiscoveryResult) (section : Str) (ss : List Str)
    → section_count (count_statements r section ss) section ≡ section_count r section + length ss
unfolding count_statements
section_count-count_statements r section [] = omega arith
section_count-count_statements r section (s ∷ ss) = omega (
  arith,
  section_count-count_statements (count_statement r section) section ss,
  section_count-count_statement r section,
)

pub returned_pieces-done :
    (o : Outcome) (pieces : List Str) → returned_pieces o ≡ ok pieces → o ≡ done pieces
returned_pieces-done (done p) pieces h = cc
returned_pieces-done (raised e) pieces h = cc
returned_pieces-done out_of_fuel pieces h = cc

-- What a task that ends has counted and writes.
pub schema_task-made :
    (pg_dump : Str → Result Str) (section : Str) (r q : DiscoveryResult) (ws : List Write)
    → schema_task pg_dump section r ≡ ok (q, ws)
    → (text : Str) × (pieces : List Str) × (pg_dump section ≡ ok text)
      × (statements text ≡ ok pieces)
      × (q ≡ count_statements r section (all_but_last pieces))
      × (ws ≡ statement_writes section 0 (all_but_last pieces))
unfolding schema_task
schema_task-made pg_dump section r q ws h =
    let (text, dumped, rest) = returned-bind (pg_dump section) _ h in
    let (pieces, split, last) = returned-bind (statements text) _ rest in
    let ss : List Str = all_but_last pieces in
    let made : ◌≡◌ {A = DiscoveryResult × List Write}
        (count_statements r section ss, statement_writes section 0 ss) (q, ws) =
      ok_inj last in
    (
      text,
      pieces,
      dumped,
      split,
      ap (λ (p : DiscoveryResult × List Write). p.0) (sym made),
      ap (λ (p : DiscoveryResult × List Write). p.1) (sym made),
    )
