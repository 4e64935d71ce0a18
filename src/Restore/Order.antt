-- ===== src/Restore/Order.antt =====
-- slice_db/restore.py: in which order the tasks copy the tables.
use mathlib.Core.Path.{subst}
use mathlib.Core.List.{Memᴰ}
use mathlib.Core.List.Memᴰ
use slice_db.Prelude.{
  suc, ◌≡◌, ◌≢◌, refl, sym, ap, ◌∙◌, Str, List, [], ◌∷◌, ◌++◌, Bool, true, false, none, some, Exn,
  Result, ok, err, ◌>>=◌, str_eq, str_eq_iff, str_eq_refl, Bool-cases, Option-cases, inl, inr, ◌⊎◌,
  arith,
}
use slice_db.Prelude.Dict.{Dict, get, put, get-put}
use slice_db.Restore.{
  ForeignKey, RestoreItem, add_dep, add_deps, Phase, waiting, restoring, finished, Progress,
  is_finished, all_finished, set_phase, advance, resume, run_items, created,
}

abbrev pub is_waiting : Phase → Bool
is_waiting waiting = true
is_waiting (restoring i) = false
is_waiting finished = false

all_finished_mono :
    (p q : Str → Phase) (deps : List Str)
    → ((d : Str) → is_finished (p d) ≡ true → is_finished (q d) ≡ true)
    → all_finished p deps ≡ true
    → all_finished q deps ≡ true
unfolding all_finished
all_finished_mono p q [] f h = refl
all_finished_mono p q (d ∷ deps) f h = ground (arith, f d, all_finished_mono p q deps f)

pub all_finished-Memᴰ :
    (p : Str → Phase) (deps : List Str) (d : Str)
    → all_finished p deps ≡ true
    → Memᴰ d deps
    → is_finished (p d) ≡ true
unfolding all_finished
all_finished-Memᴰ p [] d h m = absurd (Memᴰ.not-nil m)
all_finished-Memᴰ p (x ∷ deps) d h m = elim (Memᴰ.cases_cons m) [
  | inl e ↦ rw e (ground arith)
  | inr k ↦ all_finished-Memᴰ p deps d (ground arith) k
]

true-false : true ≢ false
true-false e = cc

set_phase_keeps :
    (phases : Str → Phase) (id : Str) (q : Phase) (d : Str)
    → is_finished (phases id) ≡ false
    → is_finished (phases d) ≡ true
    → is_finished (set_phase phases id q d) ≡ true
set_phase_keeps phases id q d hid hd = elim (Bool-cases (str_eq id d)) [
  | inl e ↦
      let same : id ≡ d = (str_eq_iff id d).0 e in
      absurd (true-false (sym (subst (λ x. is_finished (phases x) ≡ true) (sym same) hd) ∙ hid))
  | inr e ↦ rw e hd
]

-- Who is done stays done.
advance_keeps :
    (s : Progress) (id : Str) (item : RestoreItem) (p : Phase) (d : Str)
    → s.phases id ≡ p
    → is_finished (s.phases d) ≡ true
    → is_finished ((advance s id item p).phases d) ≡ true
unfolding advance
advance_keeps s id item waiting d e h =
    let f : is_finished (s.phases id) ≡ false = rw e refl in
    ground (arith, set_phase_keeps s.phases id (restoring 0) d f h)
advance_keeps s id item (restoring i) d e h =
    let f : is_finished (s.phases id) ≡ false = rw e refl in
    ground (
      arith,
      set_phase_keeps s.phases id (restoring (suc i)) d f h,
      set_phase_keeps s.phases id finished d f h,
    )
advance_keeps s id item finished d e h = h

-- Whoever has begun has waited for what it depends on.
abbrev pub IsOrdered : Dict RestoreItem → Progress → Type 0
IsOrdered items s =
    (id : Str) (item : RestoreItem)
    → get items id ≡ some item
    → is_waiting (s.phases id) ≡ false
    → all_finished s.phases item.deps ≡ true

begun :
    (s : Progress) (id : Str) (item : RestoreItem) (p : Phase) (j : Str)
    → s.phases id ≡ p
    → is_waiting ((advance s id item p).phases j) ≡ false
    → (is_waiting (s.phases j) ≡ false) ⊎ ((id ≡ j) × (all_finished s.phases item.deps ≡ true))
unfolding advance
begun s id item waiting j e h = ground (arith, str_eq_iff id j)
begun s id item (restoring i) j e h =
    let f : is_waiting (s.phases id) ≡ false = rw e refl in
    elim (Bool-cases (str_eq id j)) [
      | inl same ↦ inl (subst (λ x. is_waiting (s.phases x) ≡ false) ((str_eq_iff id j).0 same) f)
      | inr differ ↦ inl (ground arith)
    ]
begun s id item finished j e h = inl h

resume-IsOrdered :
    (items : Dict RestoreItem) (s : Progress) (id : Str) (item : RestoreItem)
    → get items id ≡ some item
    → IsOrdered items s
    → IsOrdered items (advance s id item (s.phases id))
resume-IsOrdered items s id item found ordered j other e h =
    all_finished_mono s.phases (advance s id item (s.phases id)).phases other.deps
      (λ d. advance_keeps s id item (s.phases id) d refl)
      (elim (begun s id item (s.phases id) j refl h) [
        | inl before ↦ ordered j other e before
        | inr (same, done) ↦
            subst (λ o. elim o [ none ↦ Unit {0} | some x ↦ all_finished s.phases x.deps ≡ true ])
              (sym found ∙ (ap (get items) same ∙ e)) done
      ])

resume_keeps :
    (items : Dict RestoreItem) (s : Progress) (id : Str)
    → IsOrdered items s
    → IsOrdered items (resume items s id)
unfolding resume
resume_keeps items s id h = elim (Option-cases (get items id)) [
  | inl e ↦ rw (e, resume) h
  | inr (item, e) ↦ rw (e, resume) (resume-IsOrdered items s id item e h)
]

pub run_items-IsOrdered :
    (items : Dict RestoreItem) (s : Progress) (schedule : List Str)
    → IsOrdered items s
    → IsOrdered items (run_items items s schedule)
unfolding run_items
run_items-IsOrdered items s [] h = h
run_items-IsOrdered items s (id ∷ schedule) h =
    run_items-IsOrdered items (resume items s id) schedule (resume_keeps items s id h)

pub created-IsOrdered : (items : Dict RestoreItem) → IsOrdered items created
created-IsOrdered items id item e h = absurd (true-false h)

-- What the constraints ask of the items: a child waits for its parent.
abbrev with_dep : RestoreItem → Str → RestoreItem
with_dep item d = record item { deps = item.deps ++ d ∷ [] }

add_dep-cases :
    (items more : Dict RestoreItem) (c : ForeignKey)
    → add_dep items c ≡ ok more
    → ((c.deferrable ≡ true) × (items ≡ more))
      ⊎ ((child : RestoreItem) × (get items c.table ≡ some child)
          × (more ≡ put items c.table (with_dep child c.reference_table)))
unfolding add_dep
add_dep-cases items more c h = ground arith

unfoldable pub WaitsFor : Dict RestoreItem → Str → Str → Type 0
WaitsFor items id d = (item : RestoreItem) × (get items id ≡ some item) × Memᴰ d item.deps

mem-append_left : (d : Str) (xs ys : List Str) → Memᴰ d xs → Memᴰ d (xs ++ ys)
mem-append_left d [] ys m = absurd (Memᴰ.not-nil m)
mem-append_left d (x ∷ xs) ys m = elim (Memᴰ.cases_cons m) [
  | inl e ↦ Memᴰ.head e
  | inr k ↦ Memᴰ.tail (mem-append_left d xs ys k)
]

mem-append_last : (d : Str) (xs : List Str) → Memᴰ d (xs ++ d ∷ [])
mem-append_last d [] = Memᴰ.head refl
mem-append_last d (x ∷ xs) = Memᴰ.tail (mem-append_last d xs)

put-WaitsFor :
    (items : Dict RestoreItem) (k p id d : Str) (child : RestoreItem)
    → get items k ≡ some child
    → WaitsFor items id d
    → WaitsFor (put items k (with_dep child p)) id d
unfolding WaitsFor
put-WaitsFor items k p id d child found (item, e, m) = elim (Bool-cases (str_eq k id)) [
  | inl same ↦ (
    with_dep child p,
    ground (arith, get-put items k id (with_dep child p)),
    mem-append_left d child.deps (p ∷ []) (
        subst (λ o. elim o [ none ↦ Unit {0} | some x ↦ Memᴰ d x.deps ])
          (sym e ∙ (ap (get items) (sym ((str_eq_iff k id).0 same)) ∙ found)) m),
  )
  | inr differ ↦ (item, ground (arith, e, get-put items k id (with_dep child p)), m)
]

ok_inj : {a b : Dict RestoreItem} → ok a ≡ ok b → a ≡ b
ok_inj h = cc

err_ok : {A : Type 0} {e : Exn} {a : A} → err e ≢ ok a
err_ok h = cc

Result-cases : {A : Type 0} (m : Result A) → ((a : A) × (m ≡ ok a)) ⊎ ((e : Exn) × (m ≡ err e))
Result-cases (ok a) = inl (a, refl)
Result-cases (err e) = inr (e, refl)

add_dep-WaitsFor :
    (items more : Dict RestoreItem) (c : ForeignKey) (id d : Str)
    → add_dep items c ≡ ok more
    → WaitsFor items id d
    → WaitsFor more id d
add_dep-WaitsFor items more c id d h w = elim (add_dep-cases items more c h) [
  | inl (e, same) ↦ subst (λ x. WaitsFor x id d) same w
  | inr (child, found, e) ↦
      subst (λ x. WaitsFor x id d) (sym e)
        (put-WaitsFor items c.table c.reference_table id d child found w)
]

add_deps-WaitsFor :
    (items more : Dict RestoreItem) (constraints : List ForeignKey) (id d : Str)
    → add_deps items constraints ≡ ok more
    → WaitsFor items id d
    → WaitsFor more id d
unfolding add_deps
add_deps-WaitsFor items more [] id d h w = subst (λ x. WaitsFor x id d) (ok_inj h) w
add_deps-WaitsFor items more (c ∷ constraints) id d h w = elim (Result-cases (add_dep items c)) [
  | inl (next, e) ↦
      add_deps-WaitsFor next more constraints id d
        (subst (λ m. (m >>= λ x. add_deps x constraints) ≡ ok more) e h)
        (add_dep-WaitsFor items next c id d e w)
  | inr (raised, e) ↦
      absurd (err_ok (subst (λ m. (m >>= λ x. add_deps x constraints) ≡ ok more) e h))
]

new-WaitsFor :
    (items more : Dict RestoreItem) (c : ForeignKey)
    → add_dep items c ≡ ok more
    → c.deferrable ≡ false
    → WaitsFor more c.table c.reference_table
unfolding WaitsFor
new-WaitsFor items more c h hard = elim (add_dep-cases items more c h) [
  | inl (e, same) ↦ absurd (true-false (sym e ∙ hard))
  | inr (child, found, e) ↦ (
    with_dep child c.reference_table,
    ap (λ m. get m c.table) e
        ∙ ground (
          arith,
          str_eq_refl c.table,
          get-put items c.table c.table (with_dep child c.reference_table),
        ),
    mem-append_last c.reference_table child.deps,
  )
]

pub constraint-WaitsFor :
    (items more : Dict RestoreItem) (constraints : List ForeignKey) (c : ForeignKey)
    → add_deps items constraints ≡ ok more
    → Memᴰ c constraints
    → c.deferrable ≡ false
    → WaitsFor more c.table c.reference_table
unfolding add_deps
constraint-WaitsFor items more [] c h m hard = absurd (Memᴰ.not-nil m)
constraint-WaitsFor items more (k ∷ constraints) c h m hard =
    elim (Result-cases (add_dep items k)) [
      | inl (next, e) ↦
          let rest : add_deps next constraints ≡ ok more =
            subst (λ m. (m >>= λ x. add_deps x constraints) ≡ ok more) e h in
          elim (Memᴰ.cases_cons m) [
            | inl same ↦ add_deps-WaitsFor next more constraints c.table c.reference_table rest (
                new-WaitsFor items next c (subst (λ x. add_dep items x ≡ ok next) (sym same) e)
                  hard)
            | inr later ↦ constraint-WaitsFor next more constraints c rest later hard
          ]
      | inr (raised, e) ↦
          absurd (err_ok (subst (λ m. (m >>= λ x. add_deps x constraints) ≡ ok more) e h))
    ]
