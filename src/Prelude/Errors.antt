-- ===== src/Prelude/Errors.antt =====
-- Python's exceptions as values. `exception` is `raise Exception(...)`; its message is not kept.
-- `fuel` is no exception of the program: a loop of the model that runs out of rounds answers it.
use mathlib.Core.Path.{◌≡◌, refl}

pub data Exn : Type 0 where
  exception index_error key_error value_error attribute_error overflow_error fuel : Exn

-- What a call returns or raises.
pub data Result {ℓ} (Returned : Type ℓ) : Type ℓ where
  err : (raised : Exn) → Result Returned
  ok : (returned : Returned) → Result Returned

abbrev pub map_ok {ℓ κ} : {A : Type ℓ} {B : Type κ} → (A → B) → Result A → Result B
map_ok f (ok a) = ok (f a)
map_ok f (err e) = err e

-- The statement after a call runs when the call returns.
infixl 4 ◌>>=◌
abbrev pub ◌>>=◌ {ℓ μ} : {V : Type ℓ} {W : Type μ} → Result V → (V → Result W) → Result W
err raised >>= next = err raised
ok returned >>= next = next returned

-- What a block of two calls that returns has called.
pub returned-bind {ℓ μ} :
    {V : Type ℓ} {W : Type μ} (call : Result V) (next : V → Result W) {w : W}
    → (call >>= next) ≡ ok w
    → (v : V) × (call ≡ ok v) × (next v ≡ ok w)
returned-bind (err raised) next done = cc
returned-bind (ok v) next done = (v, refl, done)

pub ok_inj {ℓ} : {V : Type ℓ} {v w : V} → ok v ≡ ok w → v ≡ w
ok_inj same = cc

pub err-ne-ok {ℓ} : {V : Type ℓ} {raised : Exn} {v : V} → ◌≡◌ {A = Result V} (err raised) (ok v) → ⊥
err-ne-ok same = cc
