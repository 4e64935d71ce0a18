-- ===== src/Pg/Copy.antt =====
-- slice_db/pg/copy.py: fields and rows of PostgreSQL's COPY text format.
pub mod Escape
pub mod RoundTrip
mod Tests
use slice_db.Prelude.{
  ℕ, zero, suc, ◌+◌, Str, List, [], ◌∷◌, ◌++◌, Option, none, some, Result, ok, err, index_error,
  fuel, get_elem?, drop, slice, length, str_eq, ltb, ◌==◌, if◌then◌else◌,
}

-- Field: None is SQL's null.
abbrev pub Field : Type 0
Field = Option Str

abbrev pub RawRow : Type 0
RawRow = List Str

abbrev pub backspace : ℕ
backspace = 8

abbrev pub tab : ℕ
tab = 9

abbrev pub newline : ℕ
newline = 10

abbrev pub vertical_tab : ℕ
vertical_tab = 11

abbrev pub form_feed : ℕ
form_feed = 12

abbrev pub carriage_return : ℕ
carriage_return = 13

abbrev pub backslash : ℕ
backslash = 92

-- r"\N"
abbrev pub null_text : Str
null_text = backslash ∷ b'N' ∷ []

-- The position of the first `c`.
unfoldable pub find : ℕ → Str → Option ℕ
find c [] = none
find c (d ∷ s) = if d == c then some 0 else elim (find c s) [ none ↦ none | some k ↦ some (suc k) ]

-- text.index(c, i), with None for ValueError
unfoldable pub index : Str → ℕ → ℕ → Option ℕ
index text c i = elim (find c (drop i text)) [ none ↦ none | some k ↦ some (i + k) ]

-- What the ladder of tests on `text[j + 1]` appends.
unfoldable pub escaped : ℕ → Str
escaped c =
    if c == backslash
    then backslash ∷ []
    else if c == b'b'
    then backspace ∷ []
    else if c == b'f'
    then form_feed ∷ []
    else if c == b'n'
    then newline ∷ []
    else if c == b'r'
    then carriage_return ∷ []
    else if c == b't'
    then tab ∷ []
    else if c == b'v'
    then vertical_tab ∷ []
    else []

-- The `while` loop of `parse_field`.
unfoldable pub parse_loop : Str → ℕ → ℕ → Str → Result Str
unfolding index find escaped
parse_loop text zero i result = err fuel
parse_loop text (suc rounds) i result =
    if ltb i (length text)
    then (elim (index text backslash i) [
      | none ↦ ok (result ++ drop i text)
      | some j ↦ elim (get_elem? text (j + 1)) [
        | none ↦ err index_error
        | some c ↦ parse_loop text rounds (j + 2) (result ++ (slice text i j ++ escaped c))
      ]
    ])
    else ok result

-- `parse_loop` under the name of its outcome: a field that is not null.
abbrev pub present : Result Str → Result Field
present (ok t) = ok (some t)
present (err e) = err e

unfoldable pub parse_field : Str → Result Field
unfolding parse_loop
parse_field text = if str_eq text null_text then ok none else elim (find backslash text) [
  | none ↦ ok (some text)
  | some _ ↦ present (parse_loop text (length text + 1) 0 [])
]

-- text.replace(c, to), for one character `c`
unfoldable pub replace : ℕ → Str → Str → Str
replace c to [] = []
replace c to (d ∷ s) = (if d == c then to else d ∷ []) ++ replace c to s

abbrev pub escape_by : ℕ → Str
escape_by letter = backslash ∷ letter ∷ []

unfoldable pub serialize_field : Field → Str
unfolding replace
serialize_field none = null_text
serialize_field (some field) = replace vertical_tab (escape_by b't') (
    replace tab (escape_by b't') (
      replace carriage_return (escape_by b'r') (
        replace newline (escape_by b'n') (
          replace form_feed (escape_by b'f')
            (replace backspace (escape_by b'b') (replace backslash (escape_by backslash) field))))))

abbrev put_front : ℕ → List Str → List Str
put_front d [] = (d ∷ []) ∷ []
put_front d (p ∷ ps) = (d ∷ p) ∷ ps

-- text.split(c), for one character `c`: never empty
unfoldable pub split : ℕ → Str → List Str
split c [] = [] ∷ []
split c (d ∷ s) = let rest = split c s in if d == c then [] ∷ rest else put_front d rest

-- c.join(parts), for one character `c`
unfoldable pub join : ℕ → List Str → Str
join c [] = []
join c (p ∷ []) = p
join c (p ∷ q ∷ ps) = p ++ (c ∷ join c (q ∷ ps))

unfoldable pub parse_raw_row : Str → RawRow
unfolding split
parse_raw_row text = split tab text

unfoldable pub serialize_raw_row : RawRow → Str
unfolding join
serialize_raw_row row = join tab row
