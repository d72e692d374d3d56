-- ===== src/Names/Laws.antt =====
-- The text of a response code.
use thingsboard_sdk.Base.{ℕ, ◌/◌, ◌%◌, ◌+◌, ◌*◌, ◌<◌, ◌≡◌, ◌∷◌, [], arith}
use thingsboard_sdk.Names.{coap_decode_response_code, coap_response_code_to_str}

-- The text of the code of a class below 8 and a detail below 32 is the digit of the class, a dot and
-- the two digits of the detail: four characters, so that a buffer of five bytes has room for the NUL.
pub coap_response_code_to_str_lem :
    (c d : ℕ)
    → c < 8
    → d < 32
    → coap_response_code_to_str (c * 32 + d)
      ≡ (b'0' + c) ∷ b'.' ∷ (b'0' + d / 10) ∷ (b'0' + d % 10) ∷ []
unfolding coap_response_code_to_str coap_decode_response_code
coap_response_code_to_str_lem c d h g =
    let p : (c * 32 + d) / 32 ≡ c = omega arith in
    let q : (c * 32 + d) % 32 ≡ d = omega arith in rw (p, q) (ground arith)
