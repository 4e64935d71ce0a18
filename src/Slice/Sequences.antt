-- ===== src/Slice/Sequences.antt =====
-- The values of sequences, written to a slice and read back.
use mathlib.Core.List.{append-nil}
use slice_db.Prelude.{
  ℕ, suc, ◌+◌, ◌≡◌, ◌≢◌, refl, sym, ap, ◌∙◌, Str, [], ◌∷◌, ◌++◌, true, false, some, ok, map_ok,
  ◌>>=◌, str_eq, str_eq_refl, str_eq_iff, ◌/◌, ◌%◌, ltb, ◌==◌, if◌then◌else◌, Bool-cases, inl, inr,
  arith,
}
use slice_db.Prelude.Int.{ℤ, pos, negsuc}
use slice_db.Prelude.Decimal.{
  decimal, decimal_loop, all_digits, leading, leading-decimal, all_digits-decimal,
}
use slice_db.Prelude.Dict.{get, get-put}
use slice_db.Slice.{
  Archive, open_entry, entry_or_raise, sequence_path, write_sequence, read_sequence, decimal_ℤ,
  parse_digits, parse_int, negative,
}

append-ne-nil : (s : Str) (c : ℕ) → s ++ c ∷ [] ≢ []
append-ne-nil [] c e = cc
append-ne-nil (d ∷ s) c e = cc

cons-ne-nil : (c : ℕ) → c ∷ [] ≢ []
cons-ne-nil c e = cc

str_ne : (s t : Str) → s ≢ t → str_eq s t ≡ false
str_ne s t ne = elim (Bool-cases (str_eq s t)) [
  | inl e ↦ absurd (ne ((str_eq_iff s t).0 e))
  | inr e ↦ e
]

decimal-ne-nil : (n : ℕ) → decimal n ≢ []
unfolding decimal_loop
decimal-ne-nil n = elim (Bool-cases (ltb n 10)) [
  | inl small ↦ rw small (cons-ne-nil (48 + n))
  | inr large ↦ rw large (append-ne-nil (decimal_loop n (n / 10)) (48 + n % 10))
]

leading-of_decimal : (n : ℕ) → leading 0 (decimal n) ≡ n
unfolding leading
leading-of_decimal n = ap (leading 0) (sym (append-nil (decimal n))) ∙ leading-decimal n []

parse_digits-lem : (s : Str) → s ≢ [] → all_digits s ≡ true → parse_digits s ≡ ok (leading 0 s)
unfolding parse_digits
parse_digits-lem [] ne h = absurd (ne refl)
parse_digits-lem (c ∷ s) ne h = rw h

parse_int-plain : (s : Str) → s ≢ [] → all_digits s ≡ true → parse_int s ≡ ok (pos (leading 0 s))
unfolding parse_int
parse_int-plain [] ne h = absurd (ne refl)
parse_int-plain (c ∷ s) ne h =
    let sign : (c == b'-') ≡ false = (unfold all_digits in ground (arith, h)) in
    rw (sign, parse_digits-lem (c ∷ s) ne h)

parse_int-decimal_ℤ : (z : ℤ) → parse_int (decimal_ℤ z) ≡ ok z
unfolding parse_int decimal_ℤ
parse_int-decimal_ℤ (pos n) =
    parse_int-plain (decimal n) (decimal-ne-nil n) (all_digits-decimal n)
    ∙ ap (λ k. ok (pos k)) (leading-of_decimal n)
parse_int-decimal_ℤ (negsuc n) =
    ap (map_ok negative)
      (parse_digits-lem (decimal (suc n)) (decimal-ne-nil (suc n)) (all_digits-decimal (suc n)))
    ∙ ap (λ k. ok (negative k)) (leading-of_decimal (suc n))

pub read_sequence-write_sequence :
    (a : Archive) (id : Str) (value : ℤ)
    → (read_sequence (write_sequence a id value) id ≡ ok value)
      × ((path : Str)
          → sequence_path id ≢ path
          → open_entry (write_sequence a id value) path ≡ open_entry a path)
unfolding read_sequence write_sequence open_entry
read_sequence-write_sequence a id value = (
  ap (λ o. entry_or_raise o >>= parse_int)
        (get-put a (sequence_path id) (sequence_path id) (decimal_ℤ value)
          ∙ ap (λ b. if b then some (decimal_ℤ value) else get a (sequence_path id))
              (str_eq_refl (sequence_path id)))
      ∙ parse_int-decimal_ℤ value,
  λ path ne. ap entry_or_raise (
      get-put a (sequence_path id) path (decimal_ℤ value)
      ∙ ap (λ b. if b then some (decimal_ℤ value) else get a path)
          (str_ne (sequence_path id) path ne)),
)
