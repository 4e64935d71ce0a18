-- ===== src/Text/Tests.antt =====
-- The theorems on texts at a small model of Python's library.
use slice_db.Text.Address.{area, zfill, geozip}
use slice_db.Text.Address.Geozip.{geozip_lem}
use slice_db.Prelude.{
  any, str_eq, take, true, get_elem?, ◌⊎◌, ℕ, ◌+◌, ◌≤◌, ◌≡◌, ◌≢◌, refl, Str, codes, List, [], ◌∷◌,
  Bool, ◌&&◌, Option, some, ok, leb, if◌then◌else◌, arith,
}
use slice_db.Text.{
  Python, category_of, replace_all, replace_by, alphanumeric, flush, choose, case, all_category,
  apply_case, word_loop, word_transform, digit_or,
}
use slice_db.Text.Alphanumeric.{IsPython, shape, alphanumeric-shape}
use slice_db.Text.Names.{name_transform, name_transform_lem}
use slice_db.Text.Words.{HasWords, word_transform-returns}

abbrev between : ℕ → ℕ → ℕ → Bool
between low high c = leb low c && leb c high

ascii_category : ℕ → Str
ascii_category c =
    if between b'A' b'Z' c
    then codes "Lu"
    else if between b'a' b'z' c
    then codes "Ll"
    else if between b'0' b'9' c
    then codes "Nd"
    else codes "Zs"

abbrev python : Python ℕ
python = record {
  category = ascii_category;
  upper = λ s. s;
  lower = λ s. s;
  encode = λ s. s;
  md5 = λ s. s;
  seeded = λ n. n;
  randint = λ r low high. (low, r + 1);
  choice = λ r n. (0, r + 1);
}

is_upper : (c : ℕ) → b'A' ≤ c → c ≤ b'Z' → ascii_category c ≡ codes "Lu"
unfolding ascii_category
is_upper c low high = ground arith

is_lower : (c : ℕ) → b'a' ≤ c → c ≤ b'z' → ascii_category c ≡ codes "Ll"
unfolding ascii_category
is_lower c low high = ground arith

is_digit : (c : ℕ) → b'0' ≤ c → c ≤ b'9' → ascii_category c ≡ codes "Nd"
unfolding ascii_category
is_digit c low high = ground arith

python-IsPython : IsPython python
python-IsPython = record {
  upper_letter = is_upper;
  lower_letter = is_lower;
  digit = is_digit;
  in_range = λ r low high h. (omega arith, h);
}

abbrev two_words : ℕ → List Str
two_words n = codes "tree" ∷ codes "lake" ∷ []

cons_nil : {c : ℕ} {s : Str} → c ∷ s ≢ []
cons_nil h = cc

words_nil : two_words 4 ≢ []
words_nil h = cc

two_words-HasWords : HasWords python two_words 4
two_words-HasWords = record {
  picked = λ r n h. h;
  default_words = words_nil;
  no_empty = λ n. (cons_nil, (cons_nil, tt));
}

letters_replaced : alphanumeric python [] (some (codes "Ab 7")) ≡ some (codes "Aa 0")
unfolding alphanumeric replace_all replace_by category_of ascii_category
letters_replaced = refl

words_replaced :
    word_transform python two_words 4 [] (some (codes "my cat, 42"))
    ≡ ok (some (codes "tree tree, 00"))
unfolding word_transform word_loop flush choose case all_category apply_case digit_or category_of
    ascii_category
words_replaced = refl

alphanumeric-shape_example :
    shape python (alphanumeric python (7 ∷ []) (some (codes "Ab 7")))
    ≡ shape python (some (codes "Ab 7"))
alphanumeric-shape_example =
    alphanumeric-shape python python-IsPython (7 ∷ []) (some (codes "Ab 7"))

word_transform-returns_example :
    (new : Option Str) × (word_transform python two_words 4 (7 ∷ []) (some (codes "My cat"))
      ≡ ok new)
word_transform-returns_example =
    word_transform-returns python two_words 4 two_words-HasWords (7 ∷ []) (some (codes "My cat"))

abbrev names : List Str
names = codes "Ada" ∷ codes "Max" ∷ []

names_some : names ≢ []
names_some h = cc

name_transform_lem_example :
    (name : Str) × (k : ℕ) × (get_elem? names k ≡ some name)
    × ((name_transform python names (7 ∷ []) (some (codes "EVE")) ≡ ok (some name))
        ⊎ ((name_transform python names (7 ∷ []) (some (codes "EVE"))
              ≡ ok (some (python.upper name)))
            ⊎ (name_transform python names (7 ∷ []) (some (codes "EVE"))
                ≡ ok (some (python.lower name)))))
name_transform_lem_example =
    name_transform_lem python names (7 ∷ []) (codes "EVE") (λ r n h. h) names_some

abbrev postal_codes : List Str
postal_codes = codes "601" ∷ codes "10001" ∷ codes "10002" ∷ []

postal_codes_some : postal_codes ≢ []
postal_codes_some h = cc

geozip_lem_example :
    (option : Str) × (any (str_eq option) postal_codes ≡ true)
    × (geozip python postal_codes (7 ∷ []) (some (codes "10099")) ≡ ok (some (zfill 5 option)))
    × (any (λ x. str_eq (area x) (take 3 (codes "10099"))) postal_codes ≡ true
        → take 3 (zfill 5 option) ≡ take 3 (codes "10099"))
geozip_lem_example =
    geozip_lem python postal_codes (7 ∷ []) (codes "10099") (λ r n h. h) postal_codes_some
