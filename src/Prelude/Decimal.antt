-- ===== src/Prelude/Decimal.antt =====
-- Python's `str` of a natural number.
use Prim.Native.Nat.{ℕ, zero, suc, ◌+◌, ◌/◌, ◌%◌, ◌*◌, ◌-◌, ◌<◌}
use mathlib.Core.List.{[], ◌∷◌, ◌++◌, append_assoc}
use mathlib.Core.Path.{◌≡◌, refl, ◌∙◌}
use mathlib.Core.Logic.{inl, inr}
use mathlib.Core.Bool.{Bool, true, ◌&&◌}
use native.Mathlib.Omega.{arith}
use slice_db.Prelude.Tests.{ltb, leb, if◌then◌else◌, Bool-cases}
use slice_db.Prelude.Text.{Str}

-- str(n)
unfoldable pub decimal_loop : ℕ → ℕ → Str
decimal_loop zero n = []
decimal_loop (suc rounds) n =
    let rest = decimal_loop rounds (n / 10) in
    if ltb n 10 then (48 + n) ∷ [] else rest ++ (48 + n % 10) ∷ []

abbrev pub decimal : ℕ → Str
decimal n = decimal_loop (suc n) n

abbrev pub is_digit : ℕ → Bool
is_digit c = leb 48 c && leb c 57

-- The number that the digits at the front of a text stand for, behind `acc`.
unfoldable pub leading : ℕ → Str → ℕ
leading acc [] = acc
leading acc (c ∷ s) = let more = leading (acc * 10 + (c - 48)) s in if is_digit c then more else acc

-- Whether all characters are digits.
unfoldable pub all_digits : Str → Bool
all_digits [] = true
all_digits (c ∷ s) = is_digit c && all_digits s

leading-decimal_loop :
    (rounds n : ℕ) (s : Str) → n < rounds → leading 0 (decimal_loop rounds n ++ s) ≡ leading n s
unfolding leading decimal_loop
leading-decimal_loop zero n s h = absurd (omega arith)
leading-decimal_loop (suc rounds) n s h = elim (Bool-cases (ltb n 10)) [
  | inl small ↦ rw small (ground (arith, small))
  | inr large ↦
      rw (large, append_assoc (decimal_loop rounds (n / 10)) ((48 + n % 10) ∷ []) s)
        (leading-decimal_loop rounds (n / 10) ((48 + n % 10) ∷ s) (ground (arith, large))
          ∙ ground arith)
]

pub leading-decimal : (n : ℕ) (s : Str) → leading 0 (decimal n ++ s) ≡ leading n s
leading-decimal n s = leading-decimal_loop (suc n) n s (omega arith)

all_digits-append :
    (s t : Str) → all_digits s ≡ true → all_digits t ≡ true → all_digits (s ++ t) ≡ true
unfolding all_digits
all_digits-append [] t hs ht = ht
all_digits-append (c ∷ s) t hs ht = ground (arith, all_digits-append s t)

all_digits-decimal_loop : (rounds n : ℕ) → all_digits (decimal_loop rounds n) ≡ true
unfolding all_digits decimal_loop
all_digits-decimal_loop zero n = refl
all_digits-decimal_loop (suc rounds) n = elim (Bool-cases (ltb n 10)) [
  | inl small ↦ rw small (ground (arith, small))
  | inr large ↦ rw large (
      all_digits-append (decimal_loop rounds (n / 10)) ((48 + n % 10) ∷ [])
        (all_digits-decimal_loop rounds (n / 10)) (ground arith))
]

pub all_digits-decimal : (n : ℕ) → all_digits (decimal n) ≡ true
all_digits-decimal n = all_digits-decimal_loop (suc n) n
