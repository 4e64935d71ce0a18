-- ===== src/Text/Address/Geozip.antt =====
-- The postal code of a code's area.
use mathlib.Core.List.{append_assoc, append-nil}
use slice_db.Prelude.{
  ℕ, zero, suc, ◌<◌, ◌≡◌, ◌≢◌, refl, sym, ap, ◌∙◌, inl, inr, Str, List, [], ◌∷◌, ◌++◌, take, length,
  Bool, true, false, any, Option, none, some, Result, ok, err, index_error, get_elem?, ◌>>=◌,
  str_eq, str_eq_iff, if◌then◌else◌, Bool-cases, arith,
}
use slice_db.Prelude.Dict.{Dict, get, put, get-put}
use slice_db.Text.{Python, choose}
use slice_db.Text.Address.{group_of, groups, zfill, area, random_of, or_all, geozip}

-- The items with a key, in their order.
abbrev pub with_key : (Str → Str) → Str → List Str → List Str
with_key key k [] = []
with_key key k (x ∷ xs) =
    let rest = with_key key k xs in if str_eq (key x) k then x ∷ rest else rest

group_of-put :
    (d : Dict (List Str)) (j k : Str) (items : List Str)
    → group_of (put d j items) k ≡ (if str_eq j k then items else group_of d k)
unfolding group_of
group_of-put d j k items =
    ap (λ o. elim o [ none ↦ [] | some l ↦ l ]) (get-put d j k items) ∙ of_if (str_eq j k) (get d k)
  where
    of_if :
        (b : Bool) (o : Option (List Str))
        → ◌≡◌ {A = List Str}
            (elim (if b then some items else o) [ none ↦ [] | some l ↦ l ])
            (if b then items else (elim o [ none ↦ [] | some l ↦ l ]))
    of_if true o = refl
    of_if false o = refl

-- Each group has the items with its key, in their order, behind those that it had.
pub group_of-groups :
    (key : Str → Str) (d : Dict (List Str)) (items : List Str) (k : Str)
    → group_of (groups key d items) k ≡ group_of d k ++ with_key key k items
unfolding groups
group_of-groups key d [] k = sym (append-nil (group_of d k))
group_of-groups key d (x ∷ items) k =
    group_of-groups key (put d (key x) (group_of d (key x) ++ x ∷ [])) items k
    ∙ (ap (λ l. l ++ with_key key k items) (group_of-put d (key x) k (group_of d (key x) ++ x ∷ []))
        ∙ (elim (Bool-cases (str_eq (key x) k)) [
          | inl e ↦
              let same : key x ≡ k = (str_eq_iff (key x) k).0 e in
              rw e (
                ap (λ j. (group_of d j ++ x ∷ []) ++ with_key key k items) same
                ∙ append_assoc (group_of d k) (x ∷ []) (with_key key k items))
          | inr e ↦ rw e
        ]))

abbrev is_in : Str → List Str → Bool
is_in x xs = any (str_eq x) xs

in_with_key :
    (key : Str → Str) (k x : Str) (xs : List Str)
    → is_in x (with_key key k xs) ≡ true
    → (str_eq (key x) k ≡ true) × (is_in x xs ≡ true)
in_with_key key k x [] h = cc
in_with_key key k x (y ∷ xs) h = elim (Bool-cases (str_eq (key y) k)) [
  | inl e ↦ elim (Bool-cases (str_eq x y)) [
    | inl same ↦
        let eq : x ≡ y = (str_eq_iff x y).0 same in
        (ap (λ z. str_eq (key z) k) eq ∙ e, ground (arith, same))
    | inr other ↦
        let (a, b) = in_with_key key k x xs (ground (arith, h, e, other)) in (a, ground (arith, b))
  ]
  | inr e ↦ let (a, b) = in_with_key key k x xs (ground (arith, h, e)) in (a, ground (arith, b))
]

with_key-some :
    (key : Str → Str) (k : Str) (xs : List Str)
    → any (λ x. str_eq (key x) k) xs ≡ true
    → with_key key k xs ≢ []
with_key-some key k [] h e = cc
with_key-some key k (y ∷ xs) h e = elim (Bool-cases (str_eq (key y) k)) [
  | inl here ↦
      cons-ne-nil (ap (λ b. if b then y ∷ with_key key k xs else with_key key k xs) (sym here) ∙ e)
  | inr there ↦
      with_key-some key k xs (ground (arith, h, there))
        (ap (λ b. if b then y ∷ with_key key k xs else with_key key k xs) (sym there) ∙ e)
]
  where
    cons-ne-nil : {zs : List Str} → y ∷ zs ≢ []
    cons-ne-nil e = cc

get_elem?-any : (xs : List Str) (i : ℕ) (x : Str) → get_elem? xs i ≡ some x → is_in x xs ≡ true
get_elem?-any [] i x h = cc
get_elem?-any (y ∷ xs) zero x h =
    let same : str_eq x y ≡ true = (str_eq_iff x y).1 (cc) in ground (arith, same)
get_elem?-any (y ∷ xs) (suc i) x h = ground (arith, get_elem?-any xs i x h)

get_elem?-in : (xs : List Str) (i : ℕ) → i < length xs → (x : Str) × (get_elem? xs i ≡ some x)
get_elem?-in [] i h = absurd (omega arith)
get_elem?-in (x ∷ xs) zero h = (x, refl)
get_elem?-in (x ∷ xs) (suc i) h = get_elem?-in xs i (omega arith)

or_all-in :
    (xs all : List Str) (x : Str)
    → (is_in x xs ≡ true → is_in x all ≡ true)
    → is_in x (or_all xs all) ≡ true
    → is_in x all ≡ true
or_all-in [] all x f h = h
or_all-in (y ∷ xs) all x f h = f h

or_all-some : (xs all : List Str) → all ≢ [] → 0 < length (or_all xs all)
or_all-some [] [] h = absurd (h refl)
or_all-some [] (x ∷ all) h = omega arith
or_all-some (x ∷ xs) all h = omega arith

or_all-first : (xs all : List Str) → xs ≢ [] → or_all xs all ≡ xs
or_all-first [] all h = absurd (h refl)
or_all-first (x ∷ xs) all h = refl

module _ {Random : Type 0} (py : Python Random) where
  choose-found :
      (rnd : Random) (words : List Str) (w : Str)
      → get_elem? words (py.choice rnd (length words)).0 ≡ some w
      → choose py rnd words ≡ ok (w, (py.choice rnd (length words)).1)
  unfolding choose
  choose-found rnd words w h = of_found h
    where
      of_found :
          {o : Option Str}
          → o ≡ some w
          → ◌≡◌ {A = Result (Str × Random)}
              (elim o [
                | none ↦ err index_error
                | some v ↦ ok (v, (py.choice rnd (length words)).1)
              ])
              (ok (w, (py.choice rnd (length words)).1))
      of_found e = rw e

  -- A postal code becomes one of the options, with zeros in front up to five characters, when there
  -- are options and `choice` picks a place of the sequence. It has the first three characters of the
  -- code when an option has these.
  pub geozip_lem :
      (all : List Str) (pepper : List ℕ) (zip : Str)
      → ((r : Random) (n : ℕ) → 0 < n → (py.choice r n).0 < n)
      → all ≢ []
      → (option : Str) × (any (str_eq option) all ≡ true)
        × (geozip py all pepper (some zip) ≡ ok (some (zfill 5 option)))
        × (any (λ x. str_eq (area x) (take 3 zip)) all ≡ true
            → take 3 (zfill 5 option) ≡ take 3 zip)
  unfolding geozip area
  geozip_lem all pepper zip picked some_options =
      let geo : Str = take 3 zip in
      let near : List Str = with_key area geo all in
      let grouped : group_of (groups area [] all) geo ≡ near = group_of-groups area [] all geo in
      let options : List Str = or_all near all in
      let rnd : Random = random_of py zip pepper in
      let k : ℕ = (py.choice rnd (length options)).0 in
      let (option, found) =
        get_elem?-in options k (picked rnd (length options) (or_all-some near all some_options)) in
      let inside : is_in option options ≡ true = get_elem?-any options k option found in
      (
        option,
        or_all-in near all option (λ h. (in_with_key area geo option all h).1) inside,
        ap (λ l. choose py rnd (or_all l all) >>= λ chosen. ok (some (zfill 5 chosen.0))) grouped
            ∙ ap (λ o. o >>= λ chosen. ok (some (zfill 5 chosen.0)))
                (choose-found rnd options option found),
        λ h.
            let near_some = with_key-some area geo all h in
            (str_eq_iff (area option) geo).0
              (in_with_key area geo option all
                (ap (is_in option) (sym (or_all-first near all near_some)) ∙ inside)).0,
      )
