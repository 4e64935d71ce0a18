-- ===== src/Slice/Frame.antt =====
-- The segments of a slice do not hide its other entries.
use mathlib.Core.List.{append_assoc}
use slice_db.Prelude.{
  ℕ, ◌+◌, ◌≡◌, ◌≢◌, refl, sym, ap, ◌∙◌, Str, codes, List, [], ◌∷◌, ◌++◌, false, str_eq, str_eq_iff,
  Bool-cases, inl, inr, arith,
}
use slice_db.Prelude.Decimal.{decimal}
use slice_db.Slice.{manifest_path, schema_path, sequence_path, segment_path}

last_char : Str → ℕ
last_char [] = 0
last_char (c ∷ []) = c
last_char (c ∷ d ∷ s) = last_char (d ∷ s)

last_char-append : (s : Str) (c : ℕ) (t : Str) → last_char (s ++ c ∷ t) ≡ last_char (c ∷ t)
unfolding last_char
last_char-append [] c t = refl
last_char-append (d ∷ []) c t = refl
last_char-append (d ∷ e ∷ s) c t = last_char-append (e ∷ s) c t

last_char-segment_path : (t : Str) (i : ℕ) → last_char (segment_path t i) ≡ b'v'
unfolding segment_path last_char
last_char-segment_path t i =
    ap last_char (sym (append_assoc (t ++ codes "/") (decimal (i + 1)) (codes ".tsv")))
    ∙ last_char-append ((t ++ codes "/") ++ decimal (i + 1)) b'.' (codes "tsv")

last_char-schema_path : (t : Str) (i : ℕ) → last_char (schema_path t i) ≡ b'l'
unfolding schema_path last_char
last_char-schema_path t i =
    ap last_char (sym (append_assoc (t ++ codes "/") (decimal (i + 1)) (codes ".sql")))
    ∙ last_char-append ((t ++ codes "/") ++ decimal (i + 1)) b'.' (codes "sql")

last_char-sequence_path : (id : Str) → last_char (sequence_path id) ≡ b't'
unfolding sequence_path last_char
last_char-sequence_path id = last_char-append id b'.' (codes "txt")

last_char-manifest_path : last_char manifest_path ≡ b'n'
unfolding last_char
last_char-manifest_path = refl

differ : (p q : Str) (a b : ℕ) → last_char p ≡ a → last_char q ≡ b → a ≢ b → str_eq p q ≡ false
differ p q a b ep eq ne = elim (Bool-cases (str_eq p q)) [
  | inl e ↦ absurd (ne (sym ep ∙ (ap last_char ((str_eq_iff p q).0 e) ∙ eq)))
  | inr e ↦ e
]

pub schema_path-segment_path :
    (section : Str) (j : ℕ) (table : Str) (i : ℕ)
    → (str_eq (schema_path section j) (segment_path table i) ≡ false)
      × (str_eq (segment_path table i) (schema_path section j) ≡ false)
schema_path-segment_path section j table i = (
  differ (schema_path section j) (segment_path table i) b'l' b'v' (last_char-schema_path section j)
      (last_char-segment_path table i) (λ e. omega arith),
  differ (segment_path table i) (schema_path section j) b'v' b'l' (last_char-segment_path table i)
      (last_char-schema_path section j) (λ e. omega arith),
)

apart : (p q : Str) (a b : ℕ) → last_char p ≡ a → last_char q ≡ b → a ≢ b → p ≢ q
apart p q a b ep eq ne e = ne (sym ep ∙ (ap last_char e ∙ eq))

pub sequence_path-apart :
    (id : Str)
    → ((section : Str) (j : ℕ) → sequence_path id ≢ schema_path section j)
      × ((table : Str) (i : ℕ) → sequence_path id ≢ segment_path table i)
sequence_path-apart id = (
  λ section j.
      apart (sequence_path id) (schema_path section j) b't' b'l' (last_char-sequence_path id)
        (last_char-schema_path section j) (λ e. omega arith),
  λ table i.
      apart (sequence_path id) (segment_path table i) b't' b'v' (last_char-sequence_path id)
        (last_char-segment_path table i) (λ e. omega arith),
)

pub manifest_path-apart :
    ((section : Str) (j : ℕ) → manifest_path ≢ schema_path section j)
    × ((table : Str) (i : ℕ) → manifest_path ≢ segment_path table i)
    × ((id : Str) → manifest_path ≢ sequence_path id)
manifest_path-apart = (
  λ section j.
      apart manifest_path (schema_path section j) b'n' b'l' last_char-manifest_path
        (last_char-schema_path section j) (λ e. omega arith),
  λ table i.
      apart manifest_path (segment_path table i) b'n' b'v' last_char-manifest_path
        (last_char-segment_path table i) (λ e. omega arith),
  λ id.
      apart manifest_path (sequence_path id) b'n' b't' last_char-manifest_path
        (last_char-sequence_path id) (λ e. omega arith),
)
