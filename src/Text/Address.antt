-- ===== src/Text/Address.antt =====
-- slice_db/transforms/address.py and collection/dict.py: the transformers of addresses. The lists of
-- streets, cities, postal codes and states are read from data files, and are arguments here.
pub mod Geozip
use slice_db.Prelude.{
  ℕ, ◌+◌, ◌-◌, zero, suc, Str, codes, List, [], ◌∷◌, ◌++◌, take, length, Bool, none, some, Result,
  ok, map_ok, ◌>>=◌, ◌==◌, ◌||◌, if◌then◌else◌,
}
use slice_db.Prelude.Decimal.{decimal_loop, decimal}
use slice_db.Prelude.Dict.{Dict, get, put}
use slice_db.Pg.Copy.{Field}
use slice_db.Text.{
  Python, WordCase, titlecase_word, uppercase_word, lowercase_word, other_word, bytes_hash_int,
  choose, case, apply_case,
}
use slice_db.Text.Names.{letters, in_case}

-- self._by_geozip[key], of a defaultdict
unfoldable pub group_of : Dict (List Str) → Str → List Str
unfolding get
group_of d key = elim (get d key) [ none ↦ [] | some items ↦ items ]

-- groups: the items in the groups of their keys, from `d` on
unfoldable pub groups : (Str → Str) → Dict (List Str) → List Str → Dict (List Str)
unfolding group_of put
groups key d [] = d
groups key d (item ∷ items) =
    groups key (put d (key item) (group_of d (key item) ++ item ∷ [])) items

abbrev pub zeros : ℕ → Str
zeros zero = []
zeros (suc n) = b'0' ∷ zeros n

-- s.zfill(width): zeros on the left, behind a sign
unfoldable pub zfill : ℕ → Str → Str
zfill width [] = zeros width
zfill width (c ∷ s) =
    let fill = zeros (width - length (c ∷ s)) in
    if c == b'+' || c == b'-' then c ∷ (fill ++ s) else fill ++ (c ∷ s)

-- str(x).zfill(5)[0:3]
unfoldable pub area : Str → Str
unfolding zfill
area option = take 3 (zfill 5 option)

-- self._by_geozip[geo] or self._all
abbrev pub or_all : List Str → List Str → List Str
or_all [] all = all
or_all (x ∷ xs) all = x ∷ xs

module _ {Random : Type 0} (py : Python Random) where
  -- create_random(text.encode("utf-8") + self._pepper)
  unfoldable pub random_of : Str → List ℕ → Random
  unfolding bytes_hash_int
  random_of text pepper = py.seeded (bytes_hash_int py (py.encode text ++ pepper))

  -- _AddressLine1Transformer.transform
  unfoldable pub address_line1 : List Str → List ℕ → Field → Result Field
  unfolding random_of choose case letters in_case decimal_loop
  address_line1 streets pepper none = ok none
  address_line1 streets pepper (some []) = ok (some [])
  address_line1 streets pepper (some (c ∷ text)) =
      choose py (random_of (c ∷ text) pepper) streets >>= λ chosen.
      in_case py chosen.0 (case py (letters (c ∷ text))) >>= λ street.
      ok (some (decimal (py.randint chosen.1 1 9999).0 ++ (b' ' ∷ street)))

  -- _AddressLine2Transformer.transform
  unfoldable pub address_line2 : List ℕ → Field → Field
  unfolding random_of decimal_loop
  address_line2 pepper none = none
  address_line2 pepper (some []) = some []
  address_line2 pepper (some (c ∷ text)) =
      some (b'#' ∷ decimal (py.randint (random_of (c ∷ text) pepper) 1 999).0)

  -- _CityTransformer.transform
  unfoldable pub city : List Str → List ℕ → Field → Result Field
  unfolding random_of choose case letters in_case
  city cities pepper none = ok none
  city cities pepper (some []) = ok (some [])
  city cities pepper (some (c ∷ text)) =
      choose py (random_of (c ∷ text) pepper) cities >>= λ chosen.
      map_ok some (in_case py chosen.0 (case py (letters (c ∷ text))))

  -- _GeozipTransformer.transform, with the dict that GeozipTransform.__init__ makes of `all`
  unfoldable pub geozip : List Str → List ℕ → Field → Result Field
  unfolding random_of choose groups area zfill group_of
  geozip all pepper none = ok none
  geozip all pepper (some zip) =
      choose py (random_of zip pepper) (or_all (group_of (groups area [] all) (take 3 zip)) all)
      >>= λ chosen. ok (some (zfill 5 chosen.0))

  -- _UsStateTransformer.transform
  unfoldable pub us_state : List Str → List ℕ → Field → Result Field
  unfolding random_of choose case letters apply_case
  us_state states pepper none = ok none
  us_state states pepper (some []) = ok (some [])
  us_state states pepper (some (c ∷ text)) =
      choose py (random_of (py.upper (c ∷ text)) pepper) states >>= λ chosen.
      map_ok some (apply_case py chosen.0 (case py (letters chosen.0)))
