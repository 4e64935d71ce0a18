-- ===== src/Restore/Tests.antt =====
-- The theorems on restores at a parent table and a child table.
use mathlib.Core.List.{Memᴰ}
use slice_db.Prelude.{
  ℕ, ◌≡◌, ◌≢◌, refl, sym, ◌∙◌, Str, codes, List, [], ◌∷◌, length, false, none, some, ok,
}
use slice_db.Prelude.Dict.{Dict, get}
use slice_db.Formats.{ManifestTable, ManifestTableSegment}
use slice_db.Restore.{
  ForeignKey, RestoreItem, items_of, add_dep, add_deps, all_finished, advance, resume, run_items,
  created, waiting,
}
use slice_db.Restore.Copied.{copies, upto, parents_first, self_reference_waits}

abbrev segment : ManifestTableSegment
segment = record { row_count = 3 }

abbrev parent : ManifestTable
parent = record {
  columns = [];
  name = codes "parent";
  schema = some (codes "public");
  segments = segment ∷ segment ∷ [];
}

abbrev child : ManifestTable
child = record {
  columns = [];
  name = codes "child";
  schema = some (codes "public");
  segments = segment ∷ [];
}

abbrev tables : Dict ManifestTable
tables = (codes "c", child) ∷ (codes "p", parent) ∷ []

abbrev key_to : Str → ForeignKey
key_to t = record {
  deferrable = false;
  name = codes "fk";
  schema = codes "public";
  table = codes "c";
  reference_table = t;
}

abbrev parent_item : RestoreItem
parent_item = record { table = parent; deps = [] }

abbrev items_to : Str → Dict RestoreItem
items_to t = (codes "c", record { table = child; deps = t ∷ [] }) ∷ (codes "p", parent_item) ∷ []

wired : (add_deps (items_of tables) (key_to (codes "p") ∷ [])) ≡ ok (items_to (codes "p"))
unfolding add_deps add_dep get items_of slice_db.Prelude.Dict.put
wired = refl

wired_self : (add_deps (items_of tables) (key_to (codes "c") ∷ [])) ≡ ok (items_to (codes "c"))
unfolding add_deps add_dep get items_of slice_db.Prelude.Dict.put
wired_self = refl

abbrev schedule : List Str
schedule =
    codes "c"
    ∷ codes "p"
    ∷ codes "p"
    ∷ codes "p"
    ∷ codes "p"
    ∷ codes "c"
    ∷ codes "c"
    ∷ codes "c"
    ∷ []

parent_found : get (items_to (codes "p")) (codes "p") ≡ some parent_item
unfolding get
parent_found = refl

child_log : copies (codes "c") (run_items (items_to (codes "p")) created schedule).copied ≡ 0 ∷ []
unfolding copies run_items resume advance all_finished get
child_log = refl

one_none : {n : ℕ} → n ∷ [] ≢ []
one_none h = cc

child_copied : copies (codes "c") (run_items (items_to (codes "p")) created schedule).copied ≢ []
child_copied h = one_none (sym child_log ∙ h)

parents_first_example :
    copies (codes "p") (run_items (items_to (codes "p")) created schedule).copied ≡ upto 2
parents_first_example =
    parents_first tables (key_to (codes "p") ∷ []) (items_to (codes "p")) (key_to (codes "p"))
      parent_item schedule wired (Memᴰ.head refl) refl parent_found child_copied

self_reference_waits_example :
    (run_items (items_to (codes "c")) created schedule).phases (codes "c") ≡ waiting
self_reference_waits_example =
    self_reference_waits tables (key_to (codes "c") ∷ []) (items_to (codes "c"))
      (key_to (codes "c")) schedule wired_self (Memᴰ.head refl) refl refl
