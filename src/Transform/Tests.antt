-- ===== src/Transform/Tests.antt =====
-- The transformation of a table at two rows and two transformers.
use slice_db.Prelude.{◌≡◌, refl, Str, codes, List, [], ◌∷◌, none, some, ok, map_ok}
use slice_db.Prelude.Decimal.{decimal_loop}
use slice_db.Prelude.Dict.{Dict, get}
use slice_db.Pg.Copy.{Field}
use slice_db.Transform.{
  Counts, FieldTransform, Transformer, transform, transform_by, in_turn, transform_incrementing,
  increment,
}

abbrev same_text : Str → Str → Str → Str
same_text old new text = text

abbrev transforms : Dict Transformer
transforms =
    (codes "n", Transformer.incrementing_const (codes "User") none)
    ∷ (codes "both", Transformer.compose (codes "n" ∷ codes "n" ∷ []))
    ∷ (codes "x", Transformer.const (some (codes "x\ty")))
    ∷ []

abbrev counts : Counts
counts _ = 0

abbrev text_of : Field × Counts → Field
text_of answer = answer.0

counted_twice :
    map_ok text_of (transform same_text transforms 2 (codes "both") (some (codes "a")) counts)
    ≡ ok (some (codes "User 2"))
unfolding transform transform_by in_turn transform_incrementing increment decimal_loop get
counted_twice = refl

abbrev fields : List FieldTransform
fields =
    record { index = 1; transform = transform same_text transforms 2 (codes "x") }
    ∷ record { index = 0; transform = transform same_text transforms 2 (codes "n") }
    ∷ []

abbrev rows : List (Field × List Field)
rows = (some (codes "a"), none ∷ []) ∷ (some (codes "b"), some (codes "c\\") ∷ []) ∷ []
