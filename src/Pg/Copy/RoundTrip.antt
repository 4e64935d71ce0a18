-- ===== src/Pg/Copy/RoundTrip.antt =====
-- What comes back of the fields and rows that are written.
use slice_db.Prelude.{
  ℕ, ◌≡◌, refl, ap, ◌∙◌, ◌≢◌, Str, List, [], ◌∷◌, ◌++◌, map, false, Option, none, some, ok, map_ok,
  All, All-append, All-map, arith, Option-cases, inl, inr, ◌==◌, if◌then◌else◌, str_eq,
}
use slice_db.Pg.Copy.{
  Field, backslash, null_text, escaped, parse_field, serialize_field, backspace, tab, newline,
  vertical_tab, form_feed, carriage_return, split, put_front, join, parse_raw_row,
  serialize_raw_row, escape_by,
}
use slice_db.Pg.Copy.Escape.{
  unescape, unescape-plain, unescape_field, parse_field-eq-unescape, escape_char, escape,
  serialize_field-eq-escape,
}

abbrev pub tabbed_char : ℕ → ℕ
tabbed_char c = if c == vertical_tab then tab else c

-- The text with a tab for each vertical tab.
abbrev pub tabbed : Str → Str
tabbed s = map tabbed_char s

abbrev pub tabbed_field : Field → Field
tabbed_field none = none
tabbed_field (some s) = some (tabbed s)

-- The letter that stands for a character.
letter : ℕ → Option ℕ
letter c =
    if c == backslash
    then some backslash
    else if c == backspace
    then some b'b'
    else if c == form_feed
    then some b'f'
    else if c == newline
    then some b'n'
    else if c == carriage_return
    then some b'r'
    else if c == tab
    then some b't'
    else if c == vertical_tab
    then some b't'
    else none

escape_char-some : (c l : ℕ) → letter c ≡ some l → escape_char c ≡ escape_by l
unfolding letter escape_char
escape_char-some c l h = ground arith

escaped-letter : (c l : ℕ) → letter c ≡ some l → escaped l ≡ tabbed_char c ∷ []
unfolding letter escaped
escaped-letter c l h = ground arith

letter-none :
    (c : ℕ)
    → letter c ≡ none
    → (escape_char c ≡ c ∷ []) × ((c == backslash) ≡ false) × (tabbed_char c ≡ c)
unfolding letter escape_char
letter-none c h = ground arith

unescape-by :
    (l : ℕ) (t : Str) → unescape (escape_by l ++ t) ≡ map_ok (λ r. escaped l ++ r) (unescape t)
unfolding unescape
unescape-by l t = refl

unescape-escape_char :
    (c : ℕ) (t : Str) → unescape (escape_char c ++ t) ≡ map_ok (λ r. tabbed_char c ∷ r) (unescape t)
unescape-escape_char c t = elim (Option-cases (letter c)) [
  | inl e ↦ let (w, plain, same) = letter-none c e in rw (w, same) (unescape-plain c t plain)
  | inr (l, e) ↦ rw (escape_char-some c l e) (unescape-by l t ∙ rw (escaped-letter c l e))
]

unescape-escape : (s : Str) → unescape (escape s) ≡ ok (tabbed s)
unfolding escape
unescape-escape [] = unfold unescape in refl
unescape-escape (c ∷ s) = unescape-escape_char c (escape s) ∙ rw (unescape-escape s)

escape-ne-null : (s : Str) → str_eq (escape s) null_text ≡ false
unfolding escape
escape-ne-null [] = refl
escape-ne-null (c ∷ s) = unfold escape_char in ground arith

-- What is parsed after it was serialized is the field itself, with a tab for each vertical tab: a
-- null stays null, no text becomes null, and nothing is raised.
pub parse_field-serialize_field :
    (f : Field) → parse_field (serialize_field f) ≡ ok (tabbed_field f)
parse_field-serialize_field none =
    unfold serialize_field in parse_field-eq-unescape null_text ∙ (unfold unescape_field in refl)
parse_field-serialize_field (some s) =
    rw (serialize_field-eq-escape s, parse_field-eq-unescape (escape s))
      (unfold unescape_field in rw (escape-ne-null s, unescape-escape s))

-- Neither a tab nor a newline, so a field ends neither its column nor its row.
abbrev pub IsFlat : Str → Type 0
IsFlat = All (λ c. (c ≢ tab) × (c ≢ newline))

escape_char-IsFlat : (c : ℕ) → IsFlat (escape_char c)
unfolding escape_char
escape_char-IsFlat c = ground arith

-- Whatever the field holds, its serialized form has no tab and no newline in it.
pub serialize_field-IsFlat : (f : Field) → IsFlat (serialize_field f)
unfolding serialize_field escape
serialize_field-IsFlat none = omega arith
serialize_field-IsFlat (some s) = rw (serialize_field-eq-escape s) (flat s)
  where
    flat : (s : Str) → IsFlat (escape s)
    flat [] = tt
    flat (c ∷ s) = All-append _ (escape_char c) (escape s) (escape_char-IsFlat c) (flat s)

module _ (c : ℕ) where
  split-plain : (p s : Str) → All (λ d. d ≢ c) p → split c (p ++ (c ∷ s)) ≡ p ∷ split c s
  unfolding split
  split-plain [] s h = ground arith
  split-plain (d ∷ p) s h = ground (arith, split-plain p s h.1)

  split-last : (p : Str) → All (λ d. d ≢ c) p → split c p ≡ p ∷ []
  unfolding split
  split-last [] h = refl
  split-last (d ∷ p) h = ground (arith, split-last p h.1)

  pub split-join :
      (p : Str) (ps : List Str)
      → All (All (λ d. d ≢ c)) (p ∷ ps)
      → split c (join c (p ∷ ps)) ≡ p ∷ ps
  unfolding join
  split-join p [] h = split-last p h.0
  split-join p (q ∷ ps) h =
      split-plain p (join c (q ∷ ps)) h.0 ∙ ap (λ t. p ∷ t) (split-join q ps h.1)

map-cons {ℓ κ} :
    {A : Type ℓ} {B : Type κ} (f : A → B) (x : A) (xs : List A) → map f (x ∷ xs) ≡ f x ∷ map f xs
map-cons f x xs = refl

serialized-flat : (fs : List Field) → All (All (λ d. d ≢ tab)) (map serialize_field fs)
serialized-flat [] = tt
serialized-flat (f ∷ fs) =
    (All-map _ _ (serialize_field f) (λ c h. h.0) (serialize_field-IsFlat f), serialized-flat fs)

parse-serialize_fields :
    (fs : List Field) → map parse_field (map serialize_field fs) ≡ map (λ f. ok (tabbed_field f)) fs
parse-serialize_fields [] = refl
parse-serialize_fields (f ∷ fs) = cc (parse_field-serialize_field f, parse-serialize_fields fs)

-- A row of at least one field, written with `serialize_field` and `serialize_raw_row`, is read back
-- by `parse_raw_row` and `parse_field` column by column, whatever the fields hold (each with a tab
-- for a vertical tab). A row of no fields is excluded: it would come back as one empty field.
pub parse_raw_row-serialize_raw_row :
    (f : Field) (fs : List Field)
    → map parse_field (parse_raw_row (serialize_raw_row (map serialize_field (f ∷ fs))))
      ≡ map (λ g. ok (tabbed_field g)) (f ∷ fs)
unfolding parse_raw_row serialize_raw_row
parse_raw_row-serialize_raw_row f fs =
    ap (map parse_field)
      (split-join tab (serialize_field f) (map serialize_field fs) (serialized-flat (f ∷ fs)))
    ∙ parse-serialize_fields (f ∷ fs)

join-nil-cons : (c : ℕ) (ps : List Str) → ps ≢ [] → join c ([] ∷ ps) ≡ c ∷ join c ps
unfolding join
join-nil-cons c [] h = absurd (h refl)
join-nil-cons c (p ∷ ps) h = refl

join-put_front :
    (c d : ℕ) (ps : List Str)
    → ps ≢ []
    → (join c (put_front d ps) ≡ d ∷ join c ps) × (put_front d ps ≢ [])
unfolding join
join-put_front c d [] h = absurd (h refl)
join-put_front c d (p ∷ []) h = ground arith
join-put_front c d (p ∷ q ∷ ps) h = ground arith

-- The other direction: any line is the join of the columns that it is split into, and there is
-- always a column.
pub serialize_raw_row-parse_raw_row :
    (text : Str) → (serialize_raw_row (parse_raw_row text) ≡ text) × (parse_raw_row text ≢ [])
unfolding parse_raw_row serialize_raw_row
serialize_raw_row-parse_raw_row [] = unfold split join in ground arith
serialize_raw_row-parse_raw_row (c ∷ text) =
    let ih = serialize_raw_row-parse_raw_row text in
    ground (
      arith,
      ih,
      join-nil-cons tab (split tab text) ih.1,
      join-put_front tab c (split tab text) ih.1,
    )

-- The columns of a row of fields that was written.
pub parse_raw_row-written :
    (f : Field) (fs : List Field)
    → parse_raw_row (serialize_raw_row (map serialize_field (f ∷ fs)))
      ≡ map serialize_field (f ∷ fs)
unfolding parse_raw_row serialize_raw_row
parse_raw_row-written f fs =
    split-join tab (serialize_field f) (map serialize_field fs) (serialized-flat (f ∷ fs))
