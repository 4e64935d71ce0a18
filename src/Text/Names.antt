-- ===== src/Text/Names.antt =====
-- slice_db/transforms/person.py: the transformer of names.
use slice_db.Prelude.{
  ℕ, ◌≡◌, ◌≢◌, ◌<◌, refl, Str, List, [], ◌∷◌, length, Bool, ◌&&◌, ◌||◌, leb, none, some, Result, ok,
  get_elem?, map_ok, ◌>>=◌, if◌then◌else◌, ◌⊎◌, inl, inr, zero, suc, arith,
}
use slice_db.Pg.Copy.{Field}
use slice_db.Text.{
  Python, WordCase, titlecase_word, uppercase_word, lowercase_word, other_word, create_random,
  choose, case, apply_case,
}

-- [a-zA-Z]
abbrev pub is_ascii_letter : ℕ → Bool
is_ascii_letter c = (leb b'a' c && leb c b'z') || (leb b'A' c && leb c b'Z')

-- Char.letters
unfoldable pub letters : Str → Str
letters [] = []
letters (c ∷ s) = let rest = letters s in if is_ascii_letter c then c ∷ rest else rest

module _ {Random : Type 0} (py : Python Random) where
  -- name if case == WordCase.TITLECASE else Word.apply_case(name, case)
  unfoldable pub in_case : Str → WordCase → Result Str
  unfolding apply_case
  in_case name titlecase_word = ok name
  in_case name uppercase_word = apply_case py name uppercase_word
  in_case name lowercase_word = apply_case py name lowercase_word
  in_case name other_word = apply_case py name other_word

  -- _NameTransformer.transform
  unfoldable pub name_transform : List Str → List ℕ → Field → Result Field
  unfolding letters in_case choose create_random case
  name_transform names pepper none = ok none
  name_transform names pepper (some text) =
      choose py (create_random py text pepper) names >>= λ chosen.
      map_ok some (in_case chosen.0 (case py (letters text)))

  get_elem?-in : (xs : List Str) (k : ℕ) → k < length xs → (x : Str) × (get_elem? xs k ≡ some x)
  get_elem?-in [] k h = absurd (omega arith)
  get_elem?-in (x ∷ xs) zero h = (x, refl)
  get_elem?-in (x ∷ xs) (suc k) h = get_elem?-in xs k (omega arith)

  length_pos : (xs : List Str) → xs ≢ [] → 0 < length xs
  length_pos [] h = absurd (h refl)
  length_pos (x ∷ xs) h = omega arith

  OneOf : Str → Result Field → Type 0
  OneOf name r =
      (r ≡ ok (some name)) ⊎ ((r ≡ ok (some (py.upper name))) ⊎ (r ≡ ok (some (py.lower name))))

  in_case-OneOf : (name : Str) (k : WordCase) → OneOf name (map_ok some (in_case name k))
  unfolding OneOf in_case apply_case
  in_case-OneOf name titlecase_word = inl refl
  in_case-OneOf name uppercase_word = inr (inl refl)
  in_case-OneOf name lowercase_word = inr (inr refl)
  in_case-OneOf name other_word = inl refl

  -- Any text, also an empty one, becomes one of the names, as it stands in the list or in upper or
  -- lower case, when there are names and `choice` picks a place of the sequence.
  pub name_transform_lem :
      (names : List Str) (pepper : List ℕ) (text : Str)
      → ((r : Random) (n : ℕ) → 0 < n → (py.choice r n).0 < n)
      → names ≢ []
      → (name : Str) × (k : ℕ) × (get_elem? names k ≡ some name)
        × ((name_transform names pepper (some text) ≡ ok (some name))
            ⊎ ((name_transform names pepper (some text) ≡ ok (some (py.upper name)))
                ⊎ (name_transform names pepper (some text) ≡ ok (some (py.lower name)))))
  unfolding name_transform OneOf
  name_transform_lem names pepper text picked some_names =
      let rnd = create_random py text pepper in
      let k = (py.choice rnd (length names)).0 in
      let (name, found) =
        get_elem?-in names k (picked rnd (length names) (length_pos names some_names)) in
      (name, k, found, rw (choose, found) (in_case-OneOf name (case py (letters text))))
