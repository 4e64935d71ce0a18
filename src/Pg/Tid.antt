-- ===== src/Pg/Tid.antt =====
-- slice_db/pg/__init__.py: the codec of row ids (tid), six bytes.
mod Tests
use slice_db.Prelude.{
  ℕ, ◌^◌, ◌<◌, ◌≡◌, refl, ap, List, Result, ok, err, overflow_error, ltb, if◌then◌else◌, map_ok,
  arith, Bool-cases, inl, inr,
}
use slice_db.Prelude.Bytes.{from_bytes, to_bytes, from_bytes-to_bytes}

-- tid_decoder
unfoldable pub tid_decoder : List ℕ → ℕ
unfolding from_bytes
tid_decoder bytes = from_bytes 0 bytes

-- tid_encoder: OverflowError for a number that needs more than six bytes
unfoldable pub tid_encoder : ℕ → Result (List ℕ)
unfolding to_bytes
tid_encoder int = if ltb int (256 ^ 6) then ok (to_bytes 6 int) else err overflow_error

-- A row id that fits in six bytes is read back as it was written; no other is written.
pub tid_decoder-tid_encoder :
    (int : ℕ)
    → map_ok tid_decoder (tid_encoder int)
      ≡ (if ltb int (256 ^ 6) then ok int else err overflow_error)
unfolding tid_decoder tid_encoder
tid_decoder-tid_encoder int = elim (Bool-cases (ltb int (256 ^ 6))) [
  | inl e ↦
      let fits : int < 256 ^ 6 = ground (arith, e) in rw e (ap ok (from_bytes-to_bytes 6 int fits))
  | inr e ↦ rw e refl
]
