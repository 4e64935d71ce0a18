-- ===== src/Prelude/Bytes.antt =====
-- Python's int.from_bytes and int.to_bytes, in big order.
use Prim.Native.Nat.{ℕ, zero, suc, ◌+◌, ◌*◌, ◌/◌, ◌%◌, ◌^◌, ◌<◌}
use mathlib.Core.Path.{◌≡◌, refl, ◌∙◌}
use mathlib.Core.List.{List, [], ◌∷◌, ◌++◌}
use native.Mathlib.Omega.{arith}

-- int.from_bytes(bytes, "big")
unfoldable pub from_bytes : ℕ → List ℕ → ℕ
from_bytes acc [] = acc
from_bytes acc (b ∷ bytes) = from_bytes (acc * 256 + b) bytes

-- int.to_bytes(n, "big"), of a number that fits
unfoldable pub to_bytes : ℕ → ℕ → List ℕ
to_bytes zero value = []
to_bytes (suc n) value = to_bytes n (value / 256) ++ (value % 256) ∷ []

from_bytes-append :
    (acc : ℕ) (bytes : List ℕ) (b : ℕ)
    → from_bytes acc (bytes ++ b ∷ []) ≡ from_bytes acc bytes * 256 + b
unfolding from_bytes
from_bytes-append acc [] b = refl
from_bytes-append acc (c ∷ bytes) b = from_bytes-append (acc * 256 + c) bytes b

pub from_bytes-to_bytes : (n value : ℕ) → value < 256 ^ n → from_bytes 0 (to_bytes n value) ≡ value
unfolding from_bytes to_bytes
from_bytes-to_bytes zero value h = omega arith
from_bytes-to_bytes (suc n) value h =
    let fits : value / 256 < 256 ^ n = omega arith in
    let ih = from_bytes-to_bytes n (value / 256) fits in
    from_bytes-append 0 (to_bytes n (value / 256)) (value % 256) ∙ omega (arith, ih)
