-- ===== src/Pg/Copy/Escape.antt =====
-- The escapes of COPY text described one character at a time, and the two methods against it.
use mathlib.Core.List.{append_assoc, append-nil}
use slice_db.Prelude.{
  ℕ, zero, suc, ◌+◌, ◌-◌, ◌<◌, ◌≡◌, refl, sym, ap, ◌∙◌, inl, inr, Str, [], ◌∷◌, ◌++◌, true, false,
  Option, none, some, Result, ok, err, index_error, map_ok, length, get_elem?, slice, arith, ltb,
  Bool-cases, ◌==◌, if◌then◌else◌, ==_iff, str_eq, length-append, take-length, drop-length,
  get_elem?-append,
}
use slice_db.Pg.Copy.{
  Field, backslash, null_text, find, index, escaped, parse_loop, present, parse_field, replace,
  escape_by, serialize_field, backspace, tab, newline, vertical_tab, form_feed, carriage_return,
}

-- COPY text with its escapes taken away. A backslash at the end is an error.
unfoldable pub unescape : Str → Result Str
unescape [] = ok []
unescape (c ∷ []) = if c == backslash then err index_error else ok (c ∷ [])
unescape (c ∷ d ∷ s) =
    let escape = map_ok (λ t. escaped d ++ t) (unescape s) in
    let plain = map_ok (λ t. c ∷ t) (unescape (d ∷ s)) in if c == backslash then escape else plain

pub unescape-plain :
    (c : ℕ) (s : Str)
    → (c == backslash) ≡ false
    → unescape (c ∷ s) ≡ map_ok (λ t. c ∷ t) (unescape s)
unfolding unescape
unescape-plain c [] h = rw h
unescape-plain c (d ∷ s) h = rw h

-- A text without a backslash, or the text up to its first one and what follows.
data Found (s : Str) : Type 0 where
  absent : find backslash s ≡ none → unescape s ≡ ok s → Found s
  at :
      (front rest : Str)
      → s ≡ front ++ (backslash ∷ rest)
      → find backslash s ≡ some (length front)
      → unescape s ≡ map_ok (λ t. front ++ t) (unescape (backslash ∷ rest))
      → Found s

map_ok-map_ok {ℓ} :
    {A : Type ℓ} (f g : A → A) (r : Result A) → map_ok f (map_ok g r) ≡ map_ok (λ x. f (g x)) r
map_ok-map_ok f g (ok a) = refl
map_ok-map_ok f g (err e) = refl

map_ok_id {ℓ} : {A : Type ℓ} (r : Result A) → r ≡ map_ok (λ x. x) r
map_ok_id (ok a) = refl
map_ok_id (err e) = refl

Found-cons : (c : ℕ) (s : Str) → (c == backslash) ≡ false → Found s → Found (c ∷ s)
unfolding find
Found-cons c s h (absent f u) = absent (rw (h, f)) (rw (unescape-plain c s h, u))
Found-cons c s h (at front rest e f u) =
    at (c ∷ front) rest (ap (λ t. c ∷ t) e) (rw (h, f))
      (unescape-plain c s h ∙ rw u (map_ok-map_ok (λ t. c ∷ t) (λ t. front ++ t) _))

found : (s : Str) → Found s
unfolding find
found [] = absent refl (unfold unescape in refl)
found (c ∷ s) = elim (Bool-cases (c == backslash)) [
  | inl equal ↦
      let e = (==_iff c backslash).0 equal in
      at [] s (ap (λ t. t ∷ s) e) (rw equal) (ap (λ t. unescape (t ∷ s)) e ∙ map_ok_id _)
  | inr other ↦ Found-cons c s other (found s)
]

module _ (text before : Str) (i : ℕ) (e : i ≡ length before) where
  index-absent :
      (rest : Str)
      → text ≡ before ++ rest
      → find backslash rest ≡ none
      → index text backslash i ≡ none
  unfolding index
  index-absent rest parts f = rw (parts, e, index, drop-length before rest, f)

  index-at :
      (rest : Str) (k : ℕ)
      → text ≡ before ++ rest
      → find backslash rest ≡ some k
      → index text backslash i ≡ some (i + k)
  unfolding index
  index-at rest k parts f =
      rw (parts, e, index, drop-length before rest, f) (ap (λ n. some (n + k)) e)

  in_range : (c : ℕ) (rest : Str) → text ≡ before ++ (c ∷ rest) → ltb i (length text) ≡ true
  in_range c rest parts =
      let h : i < length text = omega (arith, ap length parts, length-append before (c ∷ rest)) in
      ground arith

  behind_at :
      (front : Str) (c : ℕ) (rest : Str)
      → text ≡ before ++ (front ++ (c ∷ rest))
      → (slice text i (i + length front) ≡ front)
        × (get_elem? text (i + length front + 1) ≡ get_elem? rest 0)
  behind_at front c rest parts =
      let n : i + length front - i ≡ length front = omega arith in
      let m : i + length front + 1 ≡ length before + (length front + 1) = omega arith in
      (
        rw (n, parts, e, drop-length before (front ++ (c ∷ rest))) (take-length front (c ∷ rest)),
        rw (m, parts)
            (get_elem?-append before (front ++ (c ∷ rest)) (length front + 1)
              ∙ get_elem?-append front (c ∷ rest) 1),
      )

-- What a round of the loop finds when there is a backslash ahead, at `front`.
round_at :
    (text result front : Str) (rounds i : ℕ) (o : Option ℕ)
    → ltb i (length text) ≡ true
    → index text backslash i ≡ some (i + length front)
    → slice text i (i + length front) ≡ front
    → get_elem? text (i + length front + 1) ≡ o
    → parse_loop text (suc rounds) i result ≡ (elim o [
      | none ↦ err index_error
      | some c ↦ parse_loop text rounds (i + length front + 2) (result ++ (front ++ escaped c))
    ])
unfolding parse_loop
round_at text result front rounds i none r f sl g = ground arith
round_at text result front rounds i (some c) r f sl g = ground arith

unescape-escape :
    (d : ℕ) (s : Str) → unescape (backslash ∷ d ∷ s) ≡ map_ok (λ t. escaped d ++ t) (unescape s)
unfolding unescape
unescape-escape d s = refl

map_ok-fuse :
    (a b c : Str) (r : Result Str)
    → map_ok (λ t. (a ++ (b ++ c)) ++ t) r
      ≡ map_ok (λ t. a ++ t) (map_ok (λ t. b ++ t) (map_ok (λ t. c ++ t) r))
map_ok-fuse a b c (ok t) = simp append_assoc
map_ok-fuse a b c (err e) = refl

-- The loop over indices takes the escapes away.
parse_loop-eq :
    (rounds : ℕ) (text before rest result : Str) (i : ℕ)
    → text ≡ before ++ rest
    → i ≡ length before
    → length rest < rounds
    → parse_loop text rounds i result ≡ map_ok (λ t. result ++ t) (unescape rest)
unfolding parse_loop
parse_loop-eq zero text before rest result i parts e h = absurd (omega arith)
parse_loop-eq (suc rounds) text before [] result i parts e h =
    let past : ltb i (length text) ≡ false =
      ground (arith, ap length parts, length-append before []) in
    rw past (unfold unescape in ap (λ t. ok t) (sym (append-nil result)))
parse_loop-eq (suc rounds) text before (c ∷ rest) result i parts e h = elim (found (c ∷ rest)) [
  | absent f u ↦
      rw (in_range text before i e c rest parts, index-absent text before i e (c ∷ rest) parts f, u)
        (rw (parts, e, drop-length before (c ∷ rest)))
  | at front [] s f u ↦
      let split = parts ∙ ap (λ t. before ++ t) s in
      let seen = behind_at text before i e front backslash [] split in
      round_at text result front rounds i none (in_range text before i e c rest parts)
        (index-at text before i e (c ∷ rest) (length front) parts f) seen.0 seen.1
      ∙ rw u (unfold unescape in refl)
  | at front (d ∷ tail) s f u ↦
      let split = parts ∙ ap (λ t. before ++ t) s in
      let seen = behind_at text before i e front backslash (d ∷ tail) split in
      let passed = length-append front (backslash ∷ d ∷ []) in
      round_at text result front rounds i (some d) (in_range text before i e c rest parts)
        (index-at text before i e (c ∷ rest) (length front) parts f) seen.0 seen.1
      ∙ parse_loop-eq rounds text (before ++ (front ++ (backslash ∷ d ∷ []))) tail
          (result ++ (front ++ escaped d)) (i + length front + 2) (split ∙ simp append_assoc)
          (omega (arith, passed, length-append before (front ++ (backslash ∷ d ∷ []))))
          (omega (arith, ap length s, length-append front (backslash ∷ d ∷ tail)))
      ∙ (rw (u, unescape-escape d tail) (map_ok-fuse result front (escaped d) (unescape tail)))
]

-- The one-pass description of `parse_field`.
unfoldable pub unescape_field : Str → Result Field
unescape_field text = if str_eq text null_text then ok none else present (unescape text)

-- `parse_field` decides null by the whole text, and for every other text its loop over indices
-- ends and takes away the escapes from left to right; a backslash at the end is an IndexError.
pub parse_field-eq-unescape : (text : Str) → parse_field text ≡ unescape_field text
unfolding parse_field unescape_field
parse_field-eq-unescape text = elim (found text) [
  | absent f u ↦ ground arith
  | at front rest e f u ↦ ground (
    arith,
    parse_loop-eq (length text + 1) text [] text [] 0 refl refl,
    map_ok_id (unescape text),
  )
]

-- What is written for one character.
unfoldable pub escape_char : ℕ → Str
escape_char c =
    if c == backslash
    then escape_by backslash
    else if c == backspace
    then escape_by b'b'
    else if c == form_feed
    then escape_by b'f'
    else if c == newline
    then escape_by b'n'
    else if c == carriage_return
    then escape_by b'r'
    else if c == tab
    then escape_by b't'
    else if c == vertical_tab
    then escape_by b't'
    else c ∷ []

unfoldable pub escape : Str → Str
unfolding escape_char
escape [] = []
escape (c ∷ s) = escape_char c ++ escape s

pub replace-append :
    (c : ℕ) (to s t : Str) → replace c to (s ++ t) ≡ replace c to s ++ replace c to t
unfolding replace
replace-append c to [] t = refl
replace-append c to (d ∷ s) t = simp (replace-append c to s t, append_assoc)

abbrev replace_all : Str → Str
replace_all field = replace vertical_tab (escape_by b't') (
    replace tab (escape_by b't') (
      replace carriage_return (escape_by b'r') (
        replace newline (escape_by b'n') (
          replace form_feed (escape_by b'f')
            (replace backspace (escape_by b'b') (replace backslash (escape_by backslash) field))))))

replace_all-append : (s t : Str) → replace_all (s ++ t) ≡ replace_all s ++ replace_all t
replace_all-append s t = simp replace-append

replace_all_char : (c : ℕ) → replace_all (c ∷ []) ≡ escape_char c
unfolding replace escape_char
replace_all_char c = ground arith

replace_all-eq-escape : (s : Str) → replace_all s ≡ escape s
unfolding escape
replace_all-eq-escape [] = unfold replace in refl
replace_all-eq-escape (c ∷ s) =
    replace_all-append (c ∷ []) s ∙ cc (replace_all_char c, replace_all-eq-escape s)

-- The seven passes of `serialize_field`, one after the other, are one pass: no pass touches what
-- an earlier one wrote.
pub serialize_field-eq-escape : (field : Str) → serialize_field (some field) ≡ escape field
unfolding serialize_field
serialize_field-eq-escape field = replace_all-eq-escape field
