-- ===== src/Text/Words.antt =====
-- The transformer of words ends, and raises nothing.
use slice_db.Prelude.{
  ℕ, zero, suc, ◌+◌, ◌≤◌, ◌<◌, ◌≡◌, ◌≢◌, refl, Str, List, [], ◌∷◌, ◌++◌, length, Option, none, some,
  ok, get_elem?, All, arith, ap, Option-cases, Bool-cases, inl, inr, Result, map_ok,
}
use slice_db.Text.{
  Python, WordCase, uppercase_word, lowercase_word, titlecase_word, other_word, case, apply_case,
  choose, words_or, flush, digit_or, is_letter, char_category, word_loop, word_transform,
  create_random,
}

-- What Python says of random.choice, and what the list of words has: a word of the length that is
-- taken where there is none, and no empty word.
pub record HasWords {Random : Type 0} (py : Python Random) (words : ℕ → List Str)
    (default_length : ℕ) : Type 0 where
  pub picked : (r : Random) (n : ℕ) → 0 < n → (py.choice r n).0 < n
  pub default_words : words default_length ≢ []
  pub no_empty : (n : ℕ) → All (λ w. w ≢ []) (words n)

abbrev Returns {ℓ} : {A : Type ℓ} → Result A → Type ℓ
Returns {A = A} m = (a : A) × (m ≡ ok a)

module _ {Random : Type 0} (py : Python Random) (words : ℕ → List Str) (default_length : ℕ)
    (has : HasWords py words default_length) where
  get_elem?-some :
      (ws : List Str) (k : ℕ)
      → k < length ws
      → All (λ w. w ≢ []) ws
      → (w : Str) × (get_elem? ws k ≡ some w) × (w ≢ [])
  get_elem?-some [] k h all = absurd (omega arith)
  get_elem?-some (w ∷ ws) zero h all = (w, refl, all.0)
  get_elem?-some (w ∷ ws) (suc k) h all = get_elem?-some ws k (omega arith) all.1

  apply_case-Returns : (w : Str) (k : WordCase) → w ≢ [] → Returns (apply_case py w k)
  unfolding apply_case
  apply_case-Returns w uppercase_word h = (_, refl)
  apply_case-Returns w lowercase_word h = (_, refl)
  apply_case-Returns [] titlecase_word h = absurd (h refl)
  apply_case-Returns (c ∷ w) titlecase_word h = (_, refl)
  apply_case-Returns w other_word h = (_, refl)

  words_or-lem :
      (n : ℕ)
      → (words_or py words default_length (words n) ≢ [])
        × All (λ w. w ≢ []) (words_or py words default_length (words n))
  words_or-lem n = pick (words n) (has.no_empty n)
    where
      pick :
          (ws : List Str)
          → All (λ w. w ≢ []) ws
          → (words_or py words default_length ws ≢ [])
            × All (λ w. w ≢ []) (words_or py words default_length ws)
      pick [] all = (has.default_words, has.no_empty default_length)
      pick (w ∷ ws) all = ((λ e. cc), all)

  length_pos : (ws : List Str) → ws ≢ [] → 0 < length ws
  length_pos [] h = absurd (h refl)
  length_pos (w ∷ ws) h = omega arith

  flush-Returns : (rnd : Random) (word : Str) → Returns (flush py words default_length rnd word)
  unfolding flush choose
  flush-Returns rnd [] = (_, refl)
  flush-Returns rnd (c ∷ word) =
      let ws : List Str = words_or py words default_length (words (length (c ∷ word))) in
      let (some_words, all) = words_or-lem (length (c ∷ word)) in
      let (w, found, w_some) =
        get_elem?-some ws (py.choice rnd (length ws)).0
          (has.picked rnd (length ws) (length_pos ws some_words)) all in
      let (new, e) = apply_case-Returns w (case py (c ∷ word)) w_some in
      ((new, (py.choice rnd (length ws)).1), rw (flush, choose, found, e))

  get_elem?-lt : (text : Str) (i c : ℕ) → get_elem? text i ≡ some c → i + 1 ≤ length text
  get_elem?-lt [] i c h = cc
  get_elem?-lt (d ∷ text) zero c h = omega arith
  get_elem?-lt (d ∷ text) (suc i) c h = omega (arith, get_elem?-lt text i c h)

  word_loop-Returns :
      (text : Str) (rounds i : ℕ) (word : Str) (rnd : Random) (new_text : Str)
      → length text < rounds + i
      → i ≤ length text
      → Returns (word_loop py words default_length text rounds i word rnd new_text)
  unfolding word_loop
  word_loop-Returns text zero i word rnd new_text h bound = absurd (omega arith)
  word_loop-Returns text (suc rounds) i word rnd new_text h bound =
      elim (Option-cases (get_elem? text i)) [
        | inl e ↦
            let (last, f) = flush-Returns rnd word in
            rw (word_loop, e, f) (new_text ++ last.0, refl)
        | inr (c, e) ↦ elim (Bool-cases (is_letter (char_category py c))) [
          | inl letter ↦
              rw (word_loop, e, letter)
                (word_loop-Returns text rounds (i + 1) (word ++ c ∷ []) rnd new_text (omega arith)
                  (get_elem?-lt text i c e))
          | inr gap ↦
              let (flushed, f) = flush-Returns rnd word in
              let d = digit_or py flushed.1 c (char_category py c) in
              rw (word_loop, e, gap, f)
                (word_loop-Returns text rounds (i + 1) [] d.1 ((new_text ++ flushed.0) ++ d.0 ∷ [])
                  (omega arith) (get_elem?-lt text i c e))
        ]
      ]

  -- The transformer of words returns a result for every text: its loop ends, and it picks from no
  -- empty list and out of no empty word.
  pub word_transform-returns :
      (pepper : List ℕ) (text : Option Str)
      → (new : Option Str) × (word_transform py words default_length pepper text ≡ ok new)
  unfolding word_transform
  word_transform-returns pepper none = (none, refl)
  word_transform-returns pepper (some []) = (some [], refl)
  word_transform-returns pepper (some (c ∷ text)) =
      let (new, e) =
        word_loop-Returns (c ∷ text) (suc (length (c ∷ text))) 0 []
          (create_random py (c ∷ text) pepper) [] (omega arith) (omega arith) in
      (some new, ap (map_ok some) e)
