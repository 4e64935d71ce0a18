-- ===== src/Pg/Tid/Tests.antt =====
-- A row id of block 1 and place 2.
use slice_db.Prelude.{◌^◌, ◌≡◌, ok, err, overflow_error, ltb, if◌then◌else◌, map_ok}
use slice_db.Pg.Tid.{tid_decoder, tid_encoder, tid_decoder-tid_encoder}

tid_decoder-tid_encoder_example :
    map_ok tid_decoder (tid_encoder 65538)
    ≡ (if ltb 65538 (256 ^ 6) then ok 65538 else err overflow_error)
tid_decoder-tid_encoder_example = tid_decoder-tid_encoder 65538
