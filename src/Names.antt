-- ===== src/Names.antt =====
-- The strings of the log messages in src/thingsboard.c: response codes and states.
pub mod Laws
use thingsboard_sdk.Base.{ℕ, ◌+◌, ◌/◌, ◌%◌, [], ◌∷◌, ◌++◌, Bytes, ascii, ltb, if◌then◌else◌}
use thingsboard_sdk.Types.{ThingsboardState, init, connecting, connected, suspended, disconnected}

-- thingsboard_state_to_a
unfoldable pub state_to_a : ThingsboardState → Bytes
state_to_a init = ascii "INIT"
state_to_a connecting = ascii "CONNECTING"
state_to_a connected = ascii "CONNECTED"
state_to_a suspended = ascii "SUSPENDED"
state_to_a disconnected = ascii "DISCONNECTED"

-- coap_decode_response_code, on a uint8_t: the class and the detail
unfoldable pub coap_decode_response_code : ℕ → ℕ × ℕ
coap_decode_response_code code = (code / 32, code % 32)

abbrev digit : ℕ → Bytes
digit n = (b'0' + n) ∷ []

-- The conversion %u of a uint8_t.
abbrev percent_u : ℕ → Bytes
percent_u n =
    if ltb n 10
    then digit n
    else (if ltb n 100
        then digit (n / 10) ++ digit (n % 10)
        else digit (n / 100) ++ digit (n / 10 % 10) ++ digit (n % 10))

-- The conversion %02u of a uint8_t.
abbrev percent_02u : ℕ → Bytes
percent_02u n = if ltb n 10 then digit 0 ++ digit n else percent_u n

-- coap_response_code_to_str
unfoldable pub coap_response_code_to_str : ℕ → Bytes
unfolding coap_decode_response_code
coap_response_code_to_str code =
    let parts = coap_decode_response_code code in
    percent_u parts.0 ++ ascii "." ++ percent_02u parts.1
