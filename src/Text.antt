-- ===== src/Text.antt =====
-- slice_db/transforms/text.py: the transformers of words and of letters and digits, and
-- create_random of transforms/common.py.
pub mod Alphanumeric
pub mod Words
pub mod Names
pub mod Address
mod Tests
use slice_db.Prelude.{
  ℕ, zero, suc, ◌+◌, ◌*◌, ◌≤◌, ◌≡◌, Str, codes, List, [], ◌∷◌, ◌++◌, map, take, length, Bool, true,
  false, ◌||◌, ◌&&◌, any, Option, none, some, Result, ok, err, key_error, index_error, fuel, ◌>>=◌,
  map_ok, get_elem?, str_eq, if◌then◌else◌,
}
use slice_db.Prelude.Bytes.{from_bytes}
use slice_db.Pg.Copy.{Field}

-- What Python's library gives: the general category of a character, the case of texts, UTF-8, MD5,
-- and generators of random numbers with the states `Random`. `choice r n` is the place at which
-- random.choice picks in a sequence of n.
pub record Python (Random : Type 0) : Type 0 where
  pub category : ℕ → Str
  pub upper : Str → Str
  pub lower : Str → Str
  pub encode : Str → List ℕ
  pub md5 : List ℕ → List ℕ
  pub seeded : ℕ → Random
  pub randint : Random → (low high : ℕ) → ℕ × Random
  pub choice : Random → ℕ → ℕ × Random

-- CharCategory
pub data CharCategory : Type 0 where
  lowercase number other uppercase : CharCategory

abbrev pub category_eq : CharCategory → CharCategory → Bool
category_eq lowercase lowercase = true
category_eq number number = true
category_eq other other = true
category_eq uppercase uppercase = true
category_eq _ _ = false

abbrev pub is_letter : CharCategory → Bool
is_letter k = category_eq k lowercase || category_eq k uppercase

-- WordCase
pub data WordCase : Type 0 where
  uppercase_word lowercase_word titlecase_word other_word : WordCase

abbrev pub uppercase_categories : List Str
uppercase_categories = codes "Lu" ∷ codes "Lt" ∷ codes "Co" ∷ codes "Cs" ∷ codes "So" ∷ []

abbrev pub lowercase_categories : List Str
lowercase_categories = codes "Ll" ∷ codes "Lm" ∷ codes "Lo" ∷ []

abbrev pub numeric_categories : List Str
numeric_categories = codes "Nd" ∷ codes "Nl" ∷ codes "No" ∷ []

-- Char.char_category, of a general category
unfoldable pub category_of : Str → CharCategory
category_of category =
    if any (str_eq category) uppercase_categories
    then uppercase
    else if any (str_eq category) lowercase_categories
    then lowercase
    else if any (str_eq category) numeric_categories
    then number
    else other

module _ {Random : Type 0} (py : Python Random) where
  abbrev pub char_category : ℕ → CharCategory
  char_category c = category_of (py.category c)

  unfoldable pub bytes_hash_int : List ℕ → ℕ
  unfolding from_bytes
  bytes_hash_int input = from_bytes 0 (take 8 (py.md5 input))

  -- create_random(text.upper().encode("utf-8") + self._pepper)
  unfoldable pub create_random : Str → List ℕ → Random
  unfolding bytes_hash_int
  create_random text pepper = py.seeded (bytes_hash_int (py.encode (py.upper text) ++ pepper))

  -- _AlphanumericTransformer._replace
  unfoldable pub replace_by : Random → ℕ → CharCategory → ℕ × Random
  replace_by rnd c uppercase = py.randint rnd b'A' b'Z'
  replace_by rnd c lowercase = py.randint rnd b'a' b'z'
  replace_by rnd c number = py.randint rnd b'0' b'9'
  replace_by rnd c other = (c, rnd)

  -- "".join(self._replace(rnd, c) for c in text)
  unfoldable pub replace_all : Random → Str → Str
  unfolding replace_by
  replace_all rnd [] = []
  replace_all rnd (c ∷ text) =
      let (d, after) = replace_by rnd c (char_category c) in d ∷ replace_all after text

  -- _AlphanumericTransformer.transform, with `unique` not set
  unfoldable pub alphanumeric : List ℕ → Field → Field
  unfolding replace_all create_random
  alphanumeric pepper none = none
  alphanumeric pepper (some text) = some (replace_all (create_random text pepper) text)

  -- Word.case
  unfoldable pub all_category : CharCategory → Str → Bool
  all_category k [] = true
  all_category k (c ∷ s) = category_eq (char_category c) k && all_category k s

  unfoldable pub case : Str → WordCase
  unfolding all_category
  case [] = other_word
  case (c ∷ s) =
      if all_category uppercase (c ∷ s)
      then uppercase_word
      else if all_category lowercase (c ∷ s)
      then lowercase_word
      else if category_eq (char_category c) uppercase && all_category lowercase s
      then titlecase_word
      else other_word

  -- Word.apply_case; s[0] of the empty text raises IndexError.
  unfoldable pub apply_case : Str → WordCase → Result Str
  apply_case s uppercase_word = ok (py.upper s)
  apply_case s lowercase_word = ok (py.lower s)
  apply_case [] titlecase_word = err index_error
  apply_case (c ∷ s) titlecase_word = ok (py.upper (c ∷ []) ++ py.lower s)
  apply_case s other_word = ok s

  -- random.choice(words): IndexError when there are none
  unfoldable pub choose : Random → List Str → Result (Str × Random)
  choose rnd words =
      let (k, after) = py.choice rnd (length words) in
      elim (get_elem? words k) [ none ↦ err index_error | some w ↦ ok (w, after) ]

  -- What a character that is no letter becomes.
  unfoldable pub digit_or : Random → ℕ → CharCategory → ℕ × Random
  digit_or rnd c number = let (k, after) = py.choice rnd 10 in (48 + k, after)
  digit_or rnd c _ = (c, rnd)

  module _ (words : ℕ → List Str) (default_length : ℕ) where
    -- self._words[len(word)] or self._words[self._default_length]
    abbrev pub words_or : List Str → List Str
    words_or [] = words default_length
    words_or (w ∷ ws) = w ∷ ws

    -- `if word:` and its block: what is appended, and the generator after it
    unfoldable pub flush : Random → Str → Result (Str × Random)
    unfolding choose apply_case case
    flush rnd [] = ok ([], rnd)
    flush rnd (c ∷ word) = choose rnd (words_or (words (length (c ∷ word)))) >>= λ chosen.
        map_ok (λ new. (new, chosen.1)) (apply_case chosen.0 (case (c ∷ word)))

    -- The `while` loop of _WordTransformer.transform.
    unfoldable pub word_loop : Str → ℕ → ℕ → Str → Random → Str → Result Str
    unfolding flush digit_or
    word_loop text zero i word rnd new_text = err fuel
    word_loop text (suc rounds) i word rnd new_text = elim (get_elem? text i) [
      | none ↦ map_ok (λ last. new_text ++ last.0) (flush rnd word)
      | some c ↦ elim (is_letter (char_category c)) [
        | true ↦ word_loop text rounds (i + 1) (word ++ c ∷ []) rnd new_text
        | false ↦ flush rnd word >>= λ flushed.
            let (d, after) = digit_or flushed.1 c (char_category c) in
            word_loop text rounds (i + 1) [] after ((new_text ++ flushed.0) ++ d ∷ [])
      ]
    ]

    -- _WordTransformer.transform
    unfoldable pub word_transform : List ℕ → Field → Result Field
    unfolding word_loop create_random
    word_transform pepper none = ok none
    word_transform pepper (some []) = ok (some [])
    word_transform pepper (some (c ∷ text)) =
        map_ok some
          (word_loop (c ∷ text) (suc (length (c ∷ text))) 0 [] (create_random (c ∷ text) pepper) [])
