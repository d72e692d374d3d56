-- ===== src/Time/Timestamp/Laws.antt =====
-- Parsing of timestamps, and the clock.
use thingsboard_sdk.Base.{
  inr, inl, ◌∙◌, ap, Bool-cases, ℕ, suc, ◌+◌, ◌-◌, ◌*◌, ◌^◌, ◌/◌, ◌%◌, ◌<◌, ◌≡◌, [], ◌∷◌, Bytes,
  arith, Bool, true, ltb, ◌&&◌, not, if◌then◌else◌, length,
}
use Prim.Native.Nat.pow
use thingsboard_sdk.Types.{ok, err, ebadmsg}
use thingsboard_sdk.Time.Timestamp.{timestamp_loop, timestamp_from_buf}

-- Whether all are the ASCII codes of decimal digits.
abbrev pub all_digits : Bytes → Bool
all_digits [] = true
all_digits (c ∷ cs) = not (ltb c b'0') && not (ltb b'9' c) && all_digits cs

-- The number that a string of decimal digits denotes: the first digit counts most.
abbrev pub decimal : Bytes → ℕ
decimal [] = 0
decimal (c ∷ cs) = (c - b'0') * 10 ^ length cs + decimal cs

shift : (n d l : ℕ) → (n * 10 + d) * 10 ^ l ≡ n * 10 ^ suc l + d * 10 ^ l
shift n d l = rw (pow.suc 10 l) (grind arith)

distribute : (r q k : ℕ) → (r + q * 2 ^ 64) * k ≡ r * k + q * k * 2 ^ 64
distribute r q k = grind arith

wrap : (n k d : ℕ) → (n % 2 ^ 64 * k + d) % 2 ^ 64 ≡ (n * k + d) % 2 ^ 64
wrap n k d =
    let p : n * k ≡ n % 2 ^ 64 * k + n / 2 ^ 64 * k * 2 ^ 64 =
      ap (λ z. z * k) (omega arith) ∙ distribute (n % 2 ^ 64) (n / 2 ^ 64) k in
    omega (arith, p)

timestamp_loop_lem :
    (n : ℕ) (cs : Bytes)
    → n < 2 ^ 64
    → timestamp_loop n cs
      ≡ (if all_digits cs then ok ((n * 10 ^ length cs + decimal cs) % 2 ^ 64) else err ebadmsg)
unfolding timestamp_loop
timestamp_loop_lem n [] h = ground arith
timestamp_loop_lem n (c ∷ cs) h = ground (
  arith,
  timestamp_loop_lem ((n * 10 + (c - b'0')) % 2 ^ 64) cs (omega arith),
  wrap (n * 10 + (c - b'0')) (10 ^ length cs) (decimal cs),
  shift n (c - b'0') (length cs),
)

-- The bits of the result, in and out of the range of int64.
pub timestamp_from_buf-bits :
    (buf : Bytes)
    → timestamp_from_buf buf ≡ (if all_digits buf then ok (decimal buf % 2 ^ 64) else err ebadmsg)
unfolding timestamp_from_buf
timestamp_from_buf-bits buf = ground (arith, timestamp_loop_lem 0 buf (omega arith))

-- If the number that the string denotes is in the range of int64 when all its bytes are decimal
-- digits, then timestamp_from_buf fails exactly if a byte is no decimal digit, and otherwise returns
-- that number.
pub timestamp_from_buf_lem :
    (buf : Bytes)
    → (all_digits buf ≡ true → decimal buf < 2 ^ 63)
    → timestamp_from_buf buf ≡ (if all_digits buf then ok (decimal buf) else err ebadmsg)
timestamp_from_buf_lem buf h = elim (Bool-cases (all_digits buf)) [
  | inl p ↦ let g = h p in ground (arith, timestamp_from_buf-bits buf)
  | inr p ↦ ground (arith, timestamp_from_buf-bits buf)
]
