-- ===== src/Slice.antt =====
-- slice_db/slice.py: the entries of the archive of a slice. The archive is a dict of its entries; of
-- two entries with one name, the last is read.
pub mod Frame
pub mod Paths
pub mod Sequences
mod Tests
use slice_db.Prelude.{
  ℕ, ◌+◌, Str, codes, ◌++◌, List, Option, none, some, Result, ok, err, key_error, value_error, zero,
  suc, [], ◌∷◌, map_ok, ◌>>=◌, ◌==◌, if◌then◌else◌,
}
use slice_db.Prelude.Int.{ℤ, pos, negsuc}
use slice_db.Prelude.Decimal.{decimal_loop, decimal, all_digits, leading}
use slice_db.Prelude.Dict.{Dict, get, put}

abbrev pub Archive : Type 0
Archive = Dict (List ℕ)

-- _MANIFEST_PATH
abbrev pub manifest_path : Str
manifest_path = codes "manifest.json"

-- _schema_path
unfoldable pub schema_path : Str → ℕ → Str
unfolding decimal_loop
schema_path section index = (section ++ codes "/") ++ (decimal (index + 1) ++ codes ".sql")

-- _sequence_path
unfoldable pub sequence_path : Str → Str
sequence_path id = id ++ codes ".txt"

-- _segment_path
unfoldable pub segment_path : Str → ℕ → Str
unfolding decimal_loop
segment_path table index = (table ++ codes "/") ++ (decimal (index + 1) ++ codes ".tsv")

abbrev pub entry_or_raise : Option (List ℕ) → Result (List ℕ)
entry_or_raise none = err key_error
entry_or_raise (some bytes) = ok bytes

-- ZipFile.open(path)
unfoldable pub open_entry : Archive → Str → Result (List ℕ)
unfolding get
open_entry a path = entry_or_raise (get a path)

-- SliceReader
abbrev pub open_manifest : Archive → Result (List ℕ)
open_manifest a = open_entry a manifest_path

abbrev pub open_schema : Archive → Str → ℕ → Result (List ℕ)
open_schema a section index = open_entry a (schema_path section index)

abbrev pub open_segment : Archive → Str → ℕ → Result (List ℕ)
open_segment a table index = open_entry a (segment_path table index)

abbrev pub open_sequence : Archive → Str → Result (List ℕ)
open_sequence a id = open_entry a (sequence_path id)

-- SliceWriter: an entry with what is written to it until it is closed
unfoldable pub write_manifest : Archive → List ℕ → Archive
unfolding put
write_manifest a bytes = put a manifest_path bytes

unfoldable pub write_schema : Archive → Str → ℕ → List ℕ → Archive
unfolding put schema_path
write_schema a section index bytes = put a (schema_path section index) bytes

unfoldable pub write_segment : Archive → Str → ℕ → List ℕ → Archive
unfolding put segment_path
write_segment a table index bytes = put a (segment_path table index) bytes

-- str(value)
unfoldable pub decimal_ℤ : ℤ → Str
unfolding decimal_loop
decimal_ℤ (pos n) = decimal n
decimal_ℤ (negsuc n) = b'-' ∷ decimal (suc n)

unfoldable pub write_sequence : Archive → Str → ℤ → Archive
unfolding put sequence_path decimal_ℤ
write_sequence a id value = put a (sequence_path id) (decimal_ℤ value)

abbrev pub negative : ℕ → ℤ
negative zero = pos 0
negative (suc n) = negsuc n

unfoldable pub parse_digits : Str → Result ℕ
unfolding all_digits leading
parse_digits [] = err value_error
parse_digits (c ∷ s) = if all_digits (c ∷ s) then ok (leading 0 (c ∷ s)) else err value_error

-- int(text), for the texts that `str` makes: of the other forms that `int` takes, such as one with
-- spaces around it, none is written.
unfoldable pub parse_int : Str → Result ℤ
unfolding parse_digits
parse_int [] = err value_error
parse_int (c ∷ s) =
    if c == b'-' then map_ok negative (parse_digits s) else map_ok pos (parse_digits (c ∷ s))

-- SliceReader.read_sequence
unfoldable pub read_sequence : Archive → Str → Result ℤ
unfolding open_entry parse_int
read_sequence a id = open_sequence a id >>= parse_int
