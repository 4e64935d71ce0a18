-- ===== src/Text/Alphanumeric.antt =====
-- What the transformer of letters and digits keeps of a text.
use slice_db.Prelude.{
  ℕ, ◌≤◌, ◌≡◌, refl, Str, codes, List, [], ◌∷◌, map, Option, none, some, ap, arith,
}
use slice_db.Text.{
  Python, CharCategory, lowercase, number, other, uppercase, category_of, char_category, replace_by,
  replace_all, alphanumeric, create_random,
}

-- What Unicode says of the ASCII letters and digits, and Python of randint.
pub record IsPython {Random : Type 0} (py : Python Random) : Type 0 where
  pub upper_letter : (c : ℕ) → b'A' ≤ c → c ≤ b'Z' → py.category c ≡ codes "Lu"
  pub lower_letter : (c : ℕ) → b'a' ≤ c → c ≤ b'z' → py.category c ≡ codes "Ll"
  pub digit : (c : ℕ) → b'0' ≤ c → c ≤ b'9' → py.category c ≡ codes "Nd"
  pub in_range :
      (r : Random) (low high : ℕ)
      → low ≤ high
      → (low ≤ (py.randint r low high).0) × ((py.randint r low high).0 ≤ high)

replace_by-category :
    {Random : Type 0} (py : Python Random)
    → IsPython py
    → (rnd : Random) (c : ℕ) (k : CharCategory) → char_category py c ≡ k
    → char_category py (replace_by py rnd c k).0 ≡ k
unfolding replace_by category_of
replace_by-category py laws rnd c uppercase e =
    let (low, high) = laws.in_range rnd b'A' b'Z' (omega arith) in
    rw (laws.upper_letter (py.randint rnd b'A' b'Z').0 low high)
replace_by-category py laws rnd c lowercase e =
    let (low, high) = laws.in_range rnd b'a' b'z' (omega arith) in
    rw (laws.lower_letter (py.randint rnd b'a' b'z').0 low high)
replace_by-category py laws rnd c number e =
    let (low, high) = laws.in_range rnd b'0' b'9' (omega arith) in
    rw (laws.digit (py.randint rnd b'0' b'9').0 low high)
replace_by-category py laws rnd c other e = e

replace_all-categories :
    {Random : Type 0} (py : Python Random)
    → IsPython py
    → (rnd : Random) (text : Str)
    → map (char_category py) (replace_all py rnd text) ≡ map (char_category py) text
unfolding replace_all
replace_all-categories py laws rnd [] = refl
replace_all-categories py laws rnd (c ∷ text) = rw (
  replace_by-category py laws rnd c (char_category py c) refl,
  replace_all-categories py laws (replace_by py rnd c (char_category py c)).1 text,
)

abbrev pub shape : {Random : Type 0} → Python Random → Option Str → Option (List CharCategory)
shape py none = none
shape py (some text) = some (map (char_category py) text)

-- A text that is transformed, without the option `unique`, keeps at each place the category of the
-- character, so also its length; null stays null.
pub alphanumeric-shape :
    {Random : Type 0} (py : Python Random)
    → IsPython py
    → (pepper : List ℕ) (text : Option Str) → shape py (alphanumeric py pepper text) ≡ shape py text
unfolding alphanumeric
alphanumeric-shape py laws pepper none = refl
alphanumeric-shape py laws pepper (some text) =
    ap some (replace_all-categories py laws (create_random py text pepper) text)
