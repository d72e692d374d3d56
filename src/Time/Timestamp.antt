-- ===== src/Time/Timestamp.antt =====
-- `timestamp_from_buf` of src/tb_time.c.
pub mod Laws
use thingsboard_sdk.Base.{◌^◌, ◌%◌, ℕ, ◌+◌, ◌-◌, ◌*◌, [], ◌∷◌, Bytes, ltb, if◌then◌else◌, ◌||◌}
use thingsboard_sdk.Types.{Result, ok, err, ebadmsg}

-- The loop, on an int64 as its 64 bits. Past the range of int64 C leaves the result undefined, and
-- the source says that it takes no care of that; here the bits wrap around.
timestamp_loop : ℕ → Bytes → Result ℕ
timestamp_loop result [] = ok result
timestamp_loop result (c ∷ cs) =
    if ltb c b'0' || ltb b'9' c
    then err ebadmsg
    else timestamp_loop ((result * 10 + (c - b'0')) % 2 ^ 64) cs

unfoldable pub timestamp_from_buf : Bytes → Result ℕ
unfolding timestamp_loop
timestamp_from_buf buf = timestamp_loop 0 buf
