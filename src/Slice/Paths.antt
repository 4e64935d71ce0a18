-- ===== src/Slice/Paths.antt =====
-- The segments and the schema files of a slice have names of their own.
use mathlib.Core.Path.{subst}
use mathlib.Core.List.{append_assoc}
use slice_db.Prelude.{ℕ, ◌+◌, ◌≡◌, ◌≢◌, refl, sym, ap, ◌∙◌, Str, codes, [], ◌∷◌, ◌++◌, true, arith}
use slice_db.Prelude.Decimal.{decimal, all_digits, leading, leading-decimal, all_digits-decimal}
use slice_db.Slice.{segment_path, schema_path}

-- No character of the text is a slash.
unfoldable HasNoSlash : Str → Type 0
HasNoSlash [] = Unit
HasNoSlash (c ∷ s) = (c ≢ b'/') × HasNoSlash s

HasNoSlash-append : (s t : Str) → HasNoSlash s → HasNoSlash t → HasNoSlash (s ++ t)
unfolding HasNoSlash
HasNoSlash-append [] t hs ht = ht
HasNoSlash-append (c ∷ s) t hs ht = (hs.0, HasNoSlash-append s t hs.1 ht)

HasNoSlash-slash : (s t : Str) → HasNoSlash (s ++ (b'/' ∷ t)) → ⊥
unfolding HasNoSlash
HasNoSlash-slash [] t h = h.0 refl
HasNoSlash-slash (c ∷ s) t h = HasNoSlash-slash s t h.1

all_digits-HasNoSlash : (s : Str) → all_digits s ≡ true → HasNoSlash s
unfolding HasNoSlash all_digits
all_digits-HasNoSlash [] h = tt
all_digits-HasNoSlash (c ∷ s) h = (ground (arith, h), all_digits-HasNoSlash s (ground (arith, h)))

-- The last slash cuts a text in one way.
last_slash :
    (s s' t t' : Str)
    → HasNoSlash t
    → HasNoSlash t'
    → s ++ (b'/' ∷ t) ≡ s' ++ (b'/' ∷ t')
    → (s ≡ s') × (t ≡ t')
last_slash [] [] t t' h h' e = (refl, cc)
last_slash [] (c ∷ s') t t' h h' e = absurd (HasNoSlash-slash s' t' (subst HasNoSlash (cc) h))
last_slash (c ∷ s) [] t t' h h' e = absurd (HasNoSlash-slash s t (subst HasNoSlash (cc) h'))
last_slash (c ∷ s) (c' ∷ s') t t' h h' e = let (p, q) = last_slash s s' t t' h h' (cc) in (cc, q)

file-HasNoSlash : (n : ℕ) (ending : Str) → HasNoSlash ending → HasNoSlash (decimal n ++ ending)
file-HasNoSlash n ending h =
    HasNoSlash-append (decimal n) ending (all_digits-HasNoSlash (decimal n) (all_digits-decimal n))
      h

-- The path of a folder and a number, for one ending that begins with a dot.
numbered_inj :
    (ending : Str) (s s' : Str) (n n' : ℕ)
    → HasNoSlash ending
    → ((k : ℕ) → leading k ending ≡ k)
    → (s ++ codes "/") ++ (decimal n ++ ending) ≡ (s' ++ codes "/") ++ (decimal n' ++ ending)
    → (s ≡ s') × (n ≡ n')
numbered_inj ending s s' n n' h stop e =
    let (p, q) =
      last_slash s s' (decimal n ++ ending) (decimal n' ++ ending) (file-HasNoSlash n ending h)
        (file-HasNoSlash n' ending h)
        (sym (append_assoc s (codes "/") (decimal n ++ ending))
          ∙ (e ∙ append_assoc s' (codes "/") (decimal n' ++ ending))) in
    (
      p,
      sym (leading-decimal n ending ∙ stop n)
          ∙ (ap (leading 0) q ∙ (leading-decimal n' ending ∙ stop n')),
    )

-- Two segments that have one name in the slice are of one table, and have one index.
pub segment_path_inj :
    (table table' : Str) (i i' : ℕ)
    → segment_path table i ≡ segment_path table' i'
    → (table ≡ table') × (i ≡ i')
unfolding segment_path
segment_path_inj table table' i i' e =
    let same : (table ≡ table') × (i + 1 ≡ i' + 1) =
      numbered_inj (codes ".tsv") table table' (i + 1) (i' + 1) tsv (λ k. unfold leading in refl)
        e in
    (same.0, omega (arith, same.1))
  where
    tsv : HasNoSlash (codes ".tsv")
    tsv = unfold HasNoSlash in omega arith

-- Two schema files that have one name in the slice are of one section, and have one index.
pub schema_path_inj :
    (section section' : Str) (i i' : ℕ)
    → schema_path section i ≡ schema_path section' i'
    → (section ≡ section') × (i ≡ i')
unfolding schema_path
schema_path_inj section section' i i' e =
    let same : (section ≡ section') × (i + 1 ≡ i' + 1) =
      numbered_inj (codes ".sql") section section' (i + 1) (i' + 1) sql
        (λ k. unfold leading in refl) e in
    (same.0, omega (arith, same.1))
  where
    sql : HasNoSlash (codes ".sql")
    sql = unfold HasNoSlash in omega arith
