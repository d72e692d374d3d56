-- ===== src/Json.antt =====
-- src/thingsboard_messages_json.c: encoding of telemetry with the generated encoders and Zephyr's
-- JSON library, both of which come in through `Env`.
pub mod Shape
use thingsboard_sdk.Base.{
  ℕ, ◌+◌, ◌-◌, ◌^◌, Bool, true, false, List, [], ◌∷◌, ◌++◌, Bytes, length, ltb, leb, ◌==◌, ◌&&◌,
  if◌then◌else◌,
}
use thingsboard_sdk.Types.{
  Result, ok, err, enomem, einval, efault, Errno, Attributes, Telemetry, Timeseries,
}
use thingsboard_sdk.Platform.{Env}

-- thingsboard_attributes_update, whose pointers are not null and whose buffer is of the right type.
unfoldable pub attributes_update : Env → Attributes → Attributes → Result (ℕ × Attributes)
attributes_update e changes current = elim (e.attributes_update_with_buffer changes current) [
  | err _ ↦ err efault
  | ok r ↦ ok r
]

-- thingsboard_attributes_decode
unfoldable pub attributes_decode : Env → Bytes → Result Attributes
attributes_decode e payload = e.attributes_from_json payload

-- thingsboard_rpc_response_decode: the payload is the buffer, wherever it ends.
unfoldable pub rpc_response_decode : Bytes → Result Bytes
rpc_response_decode buffer = ok buffer

-- thingsboard_rpc_request_encode: the string that is left in a buffer of `len` bytes.
unfoldable pub rpc_request_encode : Env → Bytes → ℕ → Result Bytes
rpc_request_encode e method len = elim (e.rpc_request_to_buf method len) [
  | err _ ↦ err einval
  | ok s ↦ ok s
]

-- thingsboard_telemetry_encode
unfoldable pub telemetry_encode : Env → Telemetry → ℕ → Result Bytes
telemetry_encode e v len = elim (e.telemetry_to_buf v len) [ err _ ↦ err einval | ok s ↦ ok s ]

-- encode_timestamped_telemetry_to_buf: what is written at `buffer`. With no member to describe
-- nothing is written.
unfoldable pub encode_timestamped_telemetry_to_buf : Env → Timeseries → ℕ → Result Bytes
encode_timestamped_telemetry_to_buf e t len = elim (e.telemetry_gen_obj_desc t.values) [
  | err x ↦ err x
  | ok count ↦ if count == 0 then ok [] else e.json_obj_encode_timeseries t len
]

-- A subtraction of type size_t, of 32 bits, wraps around.
abbrev pub size_minus : ℕ → ℕ → ℕ
size_minus a b = if ltb a b then a + 2 ^ 32 - b else a - b

-- The variables of the loop. `pos` is the length of `out`.
pub record Progress : Type 0 where
  pub out : Bytes
  pub left : ℕ
  pub encoded : ℕ

abbrev pub is_enomem : Errno → Bool
is_enomem enomem = true
is_enomem _ = false

-- From the second entry on, a comma.
abbrev pub separator : ℕ → Bytes
separator n = if ltb 0 n then b',' ∷ [] else []

-- The `for` loop. Leaving it at an entry that does not fit takes the comma before it off again.
encode_entries : Env → List Timeseries → Progress → Result Progress
unfolding encode_timestamped_telemetry_to_buf
encode_entries e [] p = ok p
encode_entries e (t ∷ ts) p =
    if ltb 0 p.encoded && leb p.left 2
    then ok p
    else elim (encode_timestamped_telemetry_to_buf e t
        (size_minus (size_minus p.left (length (separator p.encoded))) 2)) [
          | err x ↦ if is_enomem x then ok p else err x
          | ok s ↦ encode_entries e ts (record {
            out = p.out ++ separator p.encoded ++ s;
            left = size_minus (size_minus p.left (length (separator p.encoded))) (length s);
            encoded = p.encoded + 1;
          })
        ]

close_array : Progress → Result (Bytes × ℕ)
close_array p = if ltb p.left 2 then err enomem else ok (p.out ++ b']' ∷ [], p.encoded)

-- thingsboard_timeseries_encode: the string and the new `*ts_count`; `*len` is its length.
unfoldable pub timeseries_encode : Env → List Timeseries → ℕ → Result (Bytes × ℕ)
unfolding encode_entries close_array
timeseries_encode e ts len =
    if ltb len 3
    then err enomem
    else elim (encode_entries e ts
        (record { out = b'[' ∷ []; left = size_minus len 1; encoded = 0 })) [
          | err x ↦ err x
          | ok p ↦ close_array p
        ]
