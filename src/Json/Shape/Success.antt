-- ===== src/Json/Shape/Success.antt =====
-- When `timeseries_encode` succeeds.
use thingsboard_sdk.Base.{
  ap, ◌∙◌, ascii, ℕ, ◌+◌, ◌-◌, ◌≤◌, ◌≡◌, refl, List, [], ◌∷◌, ◌++◌, Bytes, length, arith, true,
  false, Bool-cases, subst, inl, inr, ltb, leb, ◌&&◌,
}
use thingsboard_sdk.Types.{ok, err, enomem, Timeseries, Errno}
use thingsboard_sdk.Types.Cases.{Result-cases}
use thingsboard_sdk.Platform.{Env}
use thingsboard_sdk.Json.{
  size_minus, encode_timestamped_telemetry_to_buf, Progress, separator, is_enomem, encode_entries,
  close_array, timeseries_encode,
}
use thingsboard_sdk.Json.Shape.{
  EncoderFits, Extends, encode_timestamped-length, separator-room, size_minus-twice, size_minus-1,
  step, encode_entries-Extends,
}

-- A generated encoder fails only for want of room.
abbrev pub EncoderFillsUp : Env → Type 0
EncoderFillsUp e =
    (t : Timeseries) (n : ℕ) (x : Errno)
    → encode_timestamped_telemetry_to_buf e t n ≡ err x
    → is_enomem x ≡ true

timeseries_encode-ok :
    (e : Env) (ts : List Timeseries) (len : ℕ) (q : Progress)
    → 3 ≤ len
    → encode_entries e ts (record { out = b'[' ∷ []; left = size_minus len 1; encoded = 0 }) ≡ ok q
    → 2 ≤ q.left
    → timeseries_encode e ts len ≡ ok (q.out ++ b']' ∷ [], q.encoded)
unfolding timeseries_encode close_array
timeseries_encode-ok e ts len q l h m =
    let a : ltb len 3 ≡ false = ground arith in
    let b : ltb q.left 2 ≡ false = ground arith in
    rw (a, h, timeseries_encode) (rw (b, close_array) refl)

module _ (e : Env) (fits : EncoderFits e) (fills : EncoderFillsUp e) where
  encode_entries-ok :
      (ts : List Timeseries) (p : Progress)
      → 2 ≤ p.left
      → (q : Progress) × (encode_entries e ts p ≡ ok q)
  unfolding encode_entries
  encode_entries-ok [] p l = (p, refl)
  encode_entries-ok (t ∷ ts) p l = elim (Bool-cases (ltb 0 p.encoded && leb p.left 2)) [
    | inl b ↦ rw (b, encode_entries) (p, refl)
    | inr b ↦
        (let m = length (separator p.encoded) in
          let n = size_minus (size_minus p.left m) 2 in
          let r = separator-room p.encoded p.left l b in
          let z = size_minus-twice p.left m 2 r in
          elim (Result-cases (encode_timestamped_telemetry_to_buf e t n)) [
            | inl (s, h) ↦
                rw (b, h, encode_entries)
                  (let f = encode_timestamped-length e t n s fits h in
                    let a : m + length s ≤ p.left = omega (arith, f, z, r) in
                    let c : 2 ≤ (step e fits p s).left =
                      omega (arith, f, z, r, size_minus-twice p.left m (length s) a) in
                    encode_entries-ok ts (step e fits p s) c)
            | inr (x, h) ↦ rw (b, h, encode_entries) (let y = fills t n x h in rw y (p, refl))
          ])
  ]

  -- If the encoder stays within its buffer and fails only with -ENOMEM, then
  -- thingsboard_timeseries_encode succeeds with any buffer of three bytes or more.
  pub timeseries_encode-succeeds :
      (ts : List Timeseries) (len : ℕ)
      → 3 ≤ len
      → (r : Bytes × ℕ) × (timeseries_encode e ts len ≡ ok r)
  timeseries_encode-succeeds ts len l =
      let p : Progress = record { out = b'[' ∷ []; left = size_minus len 1; encoded = 0 } in
      let z : 2 ≤ p.left = omega (arith, size_minus-1 len l) in
      let q = encode_entries-ok ts p z in
      let g = subst (λ r. Extends e ts p r) (q.1) (encode_entries-Extends e fits ts p z) in
      ((q.0.out ++ b']' ∷ [], q.0.encoded), timeseries_encode-ok e ts len (q.0) l (q.1) (g.5))

-- Of entries the first of which does not fit, none is encoded, with success.
pub timeseries_encode-empty :
    (e : Env) (t : Timeseries) (ts : List Timeseries) (len : ℕ)
    → 3 ≤ len
    → encode_timestamped_telemetry_to_buf e t (len - 3) ≡ err enomem
    → timeseries_encode e (t ∷ ts) len ≡ ok (ascii "[]", 0)
unfolding timeseries_encode encode_entries close_array
timeseries_encode-empty e t ts len l h =
    let z : size_minus (size_minus (size_minus len 1) 0) 2 ≡ len - 3 = ground arith in
    let q : encode_timestamped_telemetry_to_buf e t (size_minus (size_minus (size_minus len 1) 0) 2)
        ≡ err enomem =
      ap (encode_timestamped_telemetry_to_buf e t) z ∙ h in
    let a : ltb len 3 ≡ false = ground arith in
    let b : ltb (size_minus len 1) 2 ≡ false = ground arith in
    rw (a, q, timeseries_encode, encode_entries) (rw (b, close_array) refl)
