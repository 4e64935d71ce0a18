-- ===== src/Restore/Copied.antt =====
-- slice_db/restore.py: which segments a run has copied, and when.
use mathlib.Core.Path.{subst}
use mathlib.Core.List.{Memᴰ, append-nil}
use slice_db.Prelude.{
  ℕ, zero, suc, ◌≤◌, ◌≡◌, ◌≢◌, refl, sym, ap, ◌∙◌, Str, List, [], ◌∷◌, ◌++◌, length, true, false,
  none, some, ok, ltb, str_eq, str_eq_iff, str_eq_refl, if◌then◌else◌, Bool-cases, Option-cases,
  inl, inr, arith,
}
use slice_db.Prelude.Dict.{Dict, get}
use slice_db.Formats.{ManifestTable}
use slice_db.Restore.{
  ForeignKey, RestoreItem, items_of, add_deps, Phase, waiting, restoring, finished, Progress,
  is_finished, all_finished, advance, resume, run_items, created,
}
use slice_db.Restore.Order.{
  is_waiting, IsOrdered, run_items-IsOrdered, created-IsOrdered, all_finished-Memᴰ, WaitsFor,
  constraint-WaitsFor,
}

-- The segments of a table in a log, in order.
unfoldable pub copies : Str → List (Str × ℕ) → List ℕ
copies id [] = []
copies id ((j, i) ∷ log) = let rest = copies id log in if str_eq j id then i ∷ rest else rest

-- 0, 1, …, n - 1
abbrev pub upto : ℕ → List ℕ
upto zero = []
upto (suc n) = upto n ++ n ∷ []

copies-append : (id : Str) (a b : List (Str × ℕ)) → copies id (a ++ b) ≡ copies id a ++ copies id b
unfolding copies
copies-append id [] b = refl
copies-append id ((j, i) ∷ a) b = ground (arith, copies-append id a b)

unfoldable pub CopiedBy : RestoreItem → Phase → List (Str × ℕ) → Str → Type 0
CopiedBy item waiting log id = copies id log ≡ []
CopiedBy item (restoring i) log id = (i ≤ length item.table.segments) × (copies id log ≡ upto i)
CopiedBy item finished log id = copies id log ≡ upto (length item.table.segments)

abbrev IsCopied : Dict RestoreItem → Progress → Type 0
IsCopied items s =
    (id : Str) (item : RestoreItem)
    → get items id ≡ some item
    → CopiedBy item (s.phases id) s.copied id

copies_other :
    (j id : Str) (i : ℕ) (log : List (Str × ℕ))
    → str_eq j id ≡ false
    → copies id (log ++ (j, i) ∷ []) ≡ copies id log
unfolding copies
copies_other j id i log e =
    let alone : copies id ((j, i) ∷ []) ≡ [] = ground arith in
    copies-append id log ((j, i) ∷ [])
    ∙ (ap (λ t. copies id log ++ t) alone ∙ append-nil (copies id log))

copies_same :
    (id : Str) (i : ℕ) (log : List (Str × ℕ))
    → copies id (log ++ (id, i) ∷ []) ≡ copies id log ++ i ∷ []
unfolding copies
copies_same id i log =
    let alone : copies id ((id, i) ∷ []) ≡ i ∷ [] = ground (arith, str_eq_refl id) in
    copies-append id log ((id, i) ∷ []) ∙ ap (λ t. copies id log ++ t) alone

advance_own :
    (s : Progress) (id : Str) (item : RestoreItem) (p : Phase)
    → s.phases id ≡ p
    → CopiedBy item p s.copied id
    → CopiedBy item ((advance s id item p).phases id) (advance s id item p).copied id
unfolding advance CopiedBy
advance_own s id item waiting e h = elim (Bool-cases (all_finished s.phases item.deps)) [
  | inl t ↦ rw (t, str_eq_refl id) (omega arith, h)
  | inr f ↦ rw (f, e) h
]
advance_own s id item (restoring i) e h = elim (Bool-cases (ltb i (length item.table.segments))) [
  | inl t ↦
      rw (t, str_eq_refl id) (ground arith, copies_same id i s.copied ∙ ap (λ l. l ++ i ∷ []) h.1)
  | inr f ↦
      let all : i ≡ length item.table.segments = ground (arith, h.0) in
      rw (f, str_eq_refl id) (h.1 ∙ ap upto all)
]
advance_own s id item finished e h = rw e h

CopiedBy-cong :
    (item : RestoreItem) (p : Phase) (log new : List (Str × ℕ)) (id : Str)
    → copies id new ≡ copies id log
    → CopiedBy item p log id
    → CopiedBy item p new id
unfolding CopiedBy
CopiedBy-cong item waiting log new id e h = e ∙ h
CopiedBy-cong item (restoring i) log new id e h = (h.0, e ∙ h.1)
CopiedBy-cong item finished log new id e h = e ∙ h

advance_other :
    (s : Progress) (id j : Str) (item : RestoreItem) (p : Phase)
    → str_eq id j ≡ false
    → ((advance s id item p).phases j ≡ s.phases j)
      × (copies j (advance s id item p).copied ≡ copies j s.copied)
unfolding advance
advance_other s id j item waiting e = ground arith
advance_other s id j item (restoring i) e = ground (arith, copies_other id j i s.copied e)
advance_other s id j item finished e = (refl, refl)

resume-IsCopied :
    (items : Dict RestoreItem) (s : Progress) (id : Str)
    → IsCopied items s
    → IsCopied items (resume items s id)
unfolding resume
resume-IsCopied items s id h = elim (Option-cases (get items id)) [
  | inl e ↦ rw (e, resume) h
  | inr (item, e) ↦
      rw (e, resume)
        (λ j other found. elim (Bool-cases (str_eq id j)) [
          | inl same ↦
              let at_j : id ≡ j = (str_eq_iff id j).0 same in
              let own = advance_own s id item (s.phases id) refl (h id item e) in
              subst
                (λ o. elim o [
                  | none ↦ Unit {0}
                  | some x ↦
                      CopiedBy x ((advance s id item (s.phases id)).phases j)
                        (advance s id item (s.phases id)).copied j
                ])
                (sym e ∙ (ap (get items) at_j ∙ found))
                (subst
                  (λ x.
                    CopiedBy item ((advance s id item (s.phases id)).phases x)
                      (advance s id item (s.phases id)).copied x)
                  at_j own)
          | inr differ ↦
              let (p, c) = advance_other s id j item (s.phases id) differ in
              subst (λ q. CopiedBy other q (advance s id item (s.phases id)).copied j) (sym p)
                (CopiedBy-cong other (s.phases j) s.copied (advance s id item (s.phases id)).copied
                  j c (h j other found))
        ])
]

pub run_items-IsCopied :
    (items : Dict RestoreItem) (s : Progress) (schedule : List Str)
    → IsCopied items s
    → IsCopied items (run_items items s schedule)
unfolding run_items
run_items-IsCopied items s [] h = h
run_items-IsCopied items s (id ∷ schedule) h =
    run_items-IsCopied items (resume items s id) schedule (resume-IsCopied items s id h)

created-IsCopied : (items : Dict RestoreItem) → IsCopied items created
unfolding CopiedBy copies
created-IsCopied items id item e = refl

-- Who copied has begun, and who is done has copied everything.
copies-begun :
    (item : RestoreItem) (p : Phase) (log : List (Str × ℕ)) (id : Str)
    → CopiedBy item p log id
    → copies id log ≢ []
    → is_waiting p ≡ false
unfolding CopiedBy
copies-begun item waiting log id h ne = absurd (ne h)
copies-begun item (restoring i) log id h ne = refl
copies-begun item finished log id h ne = refl

copies-finished :
    (item : RestoreItem) (p : Phase) (log : List (Str × ℕ)) (id : Str)
    → CopiedBy item p log id
    → is_finished p ≡ true
    → copies id log ≡ upto (length item.table.segments)
unfolding CopiedBy
copies-finished item waiting log id h e = cc
copies-finished item (restoring i) log id h e = cc
copies-finished item finished log id h e = h

-- In every run: once a segment of the table of a constraint that cannot be deferred is copied, each
-- segment of the table that it references has been copied, once and in order.
pub parents_first :
    (tables : Dict ManifestTable) (constraints : List ForeignKey) (items : Dict RestoreItem)
    (c : ForeignKey) (parent : RestoreItem) (schedule : List Str)
    → add_deps (items_of tables) constraints ≡ ok items
    → Memᴰ c constraints
    → c.deferrable ≡ false
    → get items c.reference_table ≡ some parent
    → copies c.table (run_items items created schedule).copied ≢ []
    → copies c.reference_table (run_items items created schedule).copied
      ≡ upto (length parent.table.segments)
unfolding WaitsFor
parents_first tables constraints items c parent schedule h m hard there ne =
    let s : Progress = run_items items created schedule in
    let copied : IsCopied items s =
      run_items-IsCopied items created schedule (created-IsCopied items) in
    let ordered : IsOrdered items s =
      run_items-IsOrdered items created schedule (created-IsOrdered items) in
    let (child, found, d) = constraint-WaitsFor (items_of tables) items constraints c h m hard in
    let begun : is_waiting (s.phases c.table) ≡ false =
      copies-begun child (s.phases c.table) s.copied c.table (copied c.table child found) ne in
    let done =
      all_finished-Memᴰ s.phases child.deps c.reference_table (ordered c.table child found begun)
        d in
    copies-finished parent (s.phases c.reference_table) s.copied c.reference_table
      (copied c.reference_table parent there) done

waiting_restoring : {i : ℕ} → waiting ≢ restoring i
waiting_restoring h = cc

waiting_finished : false ≢ true
waiting_finished h = cc

-- A table that waits for itself.
advance_stuck :
    (s : Progress) (j id : Str) (other : RestoreItem) (p : Phase)
    → s.phases j ≡ p
    → s.phases id ≡ waiting
    → (j ≡ id → all_finished s.phases other.deps ≡ false)
    → (advance s j other p).phases id ≡ waiting
unfolding advance
advance_stuck s j id other waiting e h f = ground (arith, str_eq_iff j id)
advance_stuck s j id other (restoring i) e h f = elim (Bool-cases (str_eq j id)) [
  | inl same ↦
      absurd (waiting_restoring (sym h ∙ (ap s.phases (sym ((str_eq_iff j id).0 same)) ∙ e)))
  | inr differ ↦ ground (arith, differ, h)
]
advance_stuck s j id other finished e h f = h

self_unfinished :
    (p : Str → Phase) (deps : List Str) (id : Str)
    → Memᴰ id deps
    → p id ≡ waiting
    → all_finished p deps ≡ false
self_unfinished p deps id m h = elim (Bool-cases (all_finished p deps)) [
  | inl t ↦ absurd (waiting_finished (ap is_finished (sym h) ∙ all_finished-Memᴰ p deps id t m))
  | inr f ↦ f
]

resume_stuck :
    (items : Dict RestoreItem) (s : Progress) (j id : Str)
    → WaitsFor items id id
    → s.phases id ≡ waiting
    → (resume items s j).phases id ≡ waiting
unfolding WaitsFor resume
resume_stuck items s j id (item, found, d) h = elim (Option-cases (get items j)) [
  | inl e ↦ rw (e, resume) h
  | inr (other, e) ↦
      rw (e, resume)
        (advance_stuck s j id other (s.phases j) refl h (λ same.
          self_unfinished s.phases other.deps id
            (subst (λ o. elim o [ none ↦ Unit {0} | some x ↦ Memᴰ id x.deps ])
              (sym found ∙ (ap (get items) (sym same) ∙ e)) d)
            h))
]

run_stuck :
    (items : Dict RestoreItem) (s : Progress) (schedule : List Str) (id : Str)
    → WaitsFor items id id
    → s.phases id ≡ waiting
    → (run_items items s schedule).phases id ≡ waiting
unfolding run_items
run_stuck items s [] id w h = h
run_stuck items s (j ∷ schedule) id w h =
    run_stuck items (resume items s j) schedule id w (resume_stuck items s j id w h)

-- In every run: a table with a constraint to itself that cannot be deferred is never begun.
pub self_reference_waits :
    (tables : Dict ManifestTable) (constraints : List ForeignKey) (items : Dict RestoreItem)
    (c : ForeignKey) (schedule : List Str)
    → add_deps (items_of tables) constraints ≡ ok items
    → Memᴰ c constraints
    → c.deferrable ≡ false
    → c.table ≡ c.reference_table
    → (run_items items created schedule).phases c.table ≡ waiting
self_reference_waits tables constraints items c schedule h m hard same =
    run_stuck items created schedule c.table
      (subst (λ d. WaitsFor items c.table d) (sym same)
        (constraint-WaitsFor (items_of tables) items constraints c h m hard))
      refl
