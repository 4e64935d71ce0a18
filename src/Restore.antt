-- ===== src/Restore.antt =====
-- slice_db/restore.py: what a restore sends to the database, and the tasks that copy the rows.
pub mod Order
pub mod Copied
pub mod Reads
mod Tests
use slice_db.Prelude.{
  ℕ, zero, suc, ◌+◌, Str, codes, List, [], ◌∷◌, ◌++◌, map, length, Bool, true, false, not, ◌&&◌,
  Option, none, some, Result, ok, err, exception, key_error, map_ok, ◌>>=◌, ltb, str_eq,
  if◌then◌else◌,
}
use slice_db.Prelude.Dict.{Dict, get, put, keys}
use slice_db.Formats.{Manifest, ManifestSchema, ManifestTable}

-- RestoreParams
pub record RestoreParams : Type 0 where
  pub include_schema : Bool
  pub parallelism : ℕ
  pub transaction : Bool

-- ForeignKey
pub record ForeignKey : Type 0 where
  pub deferrable : Bool
  pub name : Str
  pub schema : Str
  pub table : Str
  pub reference_table : Str

-- RestoreItem: the tasks that it waits for are named by their tables.
pub record RestoreItem : Type 0 where
  pub table : ManifestTable
  pub deps : List Str

-- The dict `items`; `tasks` has the same keys.
unfoldable pub items_of : Dict ManifestTable → Dict RestoreItem
items_of [] = []
items_of ((id, t) ∷ tables) = (id, record { table = t; deps = [] }) ∷ items_of tables

-- items[constraint.table].deps.append(tasks[constraint.reference_table])
unfoldable pub add_dep : Dict RestoreItem → ForeignKey → Result (Dict RestoreItem)
add_dep items c = if c.deferrable then ok items else (elim (get items c.table) [
  | none ↦ err key_error
  | some item ↦ elim (get items c.reference_table) [
    | none ↦ err key_error
    | some _ ↦ ok (put items c.table (record item { deps = item.deps ++ c.reference_table ∷ [] }))
  ]
])

unfoldable pub add_deps : Dict RestoreItem → List ForeignKey → Result (Dict RestoreItem)
add_deps items [] = ok items
add_deps items (c ∷ constraints) = add_dep items c >>= λ more. add_deps more constraints

unfoldable pub deferrable_constraints : List ForeignKey → List ForeignKey
deferrable_constraints [] = []
deferrable_constraints (c ∷ constraints) =
    let rest = deferrable_constraints constraints in if c.deferrable then c ∷ rest else rest

-- What is sent to the database before and after the rows.
pub data Action : Type 0 where
  execute_schema : (section : Str) (index : ℕ) → Action
  set_sequence : (id : Str) → Action
  defer : List ForeignKey → Action
  restore_items : Dict RestoreItem → Action

-- `if deferrable_constaints:` and its guard
unfoldable pub defer_all : Bool → List ForeignKey → Result (List Action)
defer_all transaction [] = ok []
defer_all transaction (c ∷ constraints) =
    if transaction then ok (defer (c ∷ constraints) ∷ []) else err exception

-- _restore_rows; `constraints` is what get_constaints answers.
unfoldable pub restore_rows :
    List ForeignKey → Bool → Dict ManifestTable → Bool → Result (List Action)
unfolding items_of add_deps deferrable_constraints defer_all
restore_rows constraints true tables transaction = ok (restore_items (items_of tables) ∷ [])
restore_rows constraints false tables transaction =
    defer_all transaction (deferrable_constraints constraints) >>= λ deferred.
    map_ok (λ items. deferred ++ restore_items items ∷ []) (add_deps (items_of tables) constraints)

-- _restore_sequences
abbrev pub restore_sequences : Manifest → List Action
restore_sequences m = map set_sequence (keys m.sequences)

-- for i in range(count), from `i` on
abbrev pub execute_all : Str → ℕ → ℕ → List Action
execute_all section i zero = []
execute_all section i (suc n) = execute_schema section i ∷ execute_all section (suc i) n

unfoldable pub schema_actions : Bool → Str → ManifestSchema → List Action
schema_actions include section m = if include then execute_all section 0 m.count else []

-- restore
unfoldable pub restore : List ForeignKey → Manifest → RestoreParams → Result (List Action)
unfolding restore_rows schema_actions
restore constraints m params =
    if ltb 1 params.parallelism && params.transaction
    then err exception
    else map_ok
        (λ rows.
          schema_actions params.include_schema (codes "pre-data") m.pre_data
          ++ (restore_sequences m
              ++ (rows ++ schema_actions params.include_schema (codes "post-data") m.post_data)))
        (restore_rows constraints params.include_schema m.tables params.transaction)

-- Where a task stands: it waits for its `deps`, copies the segment of an index, or is done.
pub data Phase : Type 0 where
  waiting finished : Phase
  restoring : ℕ → Phase

-- The tasks, and the segments copied to tables so far, as table and index.
pub record Progress : Type 0 where
  pub phases : Str → Phase
  pub copied : List (Str × ℕ)

abbrev pub is_finished : Phase → Bool
is_finished finished = true
is_finished waiting = false
is_finished (restoring i) = false

-- whether asyncio.gather(*self.deps) has returned
unfoldable pub all_finished : (Str → Phase) → List Str → Bool
all_finished phases [] = true
all_finished phases (d ∷ deps) = is_finished (phases d) && all_finished phases deps

abbrev pub set_phase : (Str → Phase) → Str → Phase → Str → Phase
set_phase phases id p j = if str_eq id j then p else phases j

-- RestoreItem.__call__ from one `await` to the next
unfoldable pub advance : Progress → Str → RestoreItem → Phase → Progress
unfolding all_finished
advance s id item waiting =
    if all_finished s.phases item.deps
    then record s { phases = set_phase s.phases id (restoring 0) }
    else s
advance s id item (restoring i) =
    if ltb i (length item.table.segments)
    then record {
      phases = set_phase s.phases id (restoring (suc i));
      copied = s.copied ++ (id, i) ∷ [];
    }
    else record s { phases = set_phase s.phases id finished }
advance s id item finished = s

-- The event loop goes on with the task of a table.
unfoldable pub resume : Dict RestoreItem → Progress → Str → Progress
unfolding advance
resume items s id = elim (get items id) [ none ↦ s | some item ↦ advance s id item (s.phases id) ]

-- A run, by the choices of the event loop.
unfoldable pub run_items : Dict RestoreItem → Progress → List Str → Progress
unfolding resume
run_items items s [] = s
run_items items s (id ∷ schedule) = run_items items (resume items s id) schedule

abbrev pub created : Progress
created = record { phases = λ _. waiting; copied = [] }
