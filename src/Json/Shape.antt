-- ===== src/Json/Shape.antt =====
-- What `timeseries_encode` leaves in the buffer.
pub mod Success
use thingsboard_sdk.Base.{
  ℕ, ◌+◌, ◌-◌, ◌≤◌, ◌<◌, ◌≡◌, refl, sym, ap, ◌∙◌, List, [], ◌∷◌, ◌++◌, Bytes, length, arith,
  length-append, append_assoc, append-nil, Bool, true, false, Bool-cases, ltb→ge, subst, inl, inr,
  ltb, leb, ◌&&◌, if◌then◌else◌,
}
use thingsboard_sdk.Types.{Result, ok, err, Timeseries, Errno}
use thingsboard_sdk.Types.Cases.{Result-cases}
use thingsboard_sdk.Platform.{Env}
use thingsboard_sdk.Json.{
  size_minus, encode_timestamped_telemetry_to_buf, Progress, separator, is_enomem, encode_entries,
  close_array, timeseries_encode,
}

-- The texts are those of the first entries, one each.
abbrev pub Prefix : Env → List Timeseries → List Bytes → Type 0
Prefix e ts [] = Unit {0}
Prefix e [] (s ∷ ss) = ⊥
Prefix e (t ∷ ts) (s ∷ ss) =
    ((n : ℕ) × (encode_timestamped_telemetry_to_buf e t n ≡ ok s)) × Prefix e ts ss

-- The elements of the array: a comma before each but the very first.
abbrev elements : ℕ → List Bytes → Bytes
elements n [] = []
elements n (s ∷ ss) = separator n ++ s ++ elements (n + 1) ss

-- json_obj_encode_buf leaves a string with its NUL within the buffer.
abbrev pub EncoderFits : Env → Type 0
EncoderFits e =
    (t : Timeseries) (n : ℕ) (s : Bytes) → e.json_obj_encode_timeseries t n ≡ ok s → length s < n

-- What the loop adds to `p`.
abbrev Extends : Env → List Timeseries → Progress → Result Progress → Type 0
Extends e ts p (err x) = Unit {0}
Extends e ts p (ok q) =
    (texts : List Bytes) × Prefix e ts texts
    × (q.out ≡ p.out ++ elements p.encoded texts)
    × (q.encoded ≡ p.encoded + length texts)
    × (length q.out + q.left ≡ length p.out + p.left)
    × (2 ≤ q.left)

encode_timestamped-length :
    (e : Env) (t : Timeseries) (n : ℕ) (s : Bytes)
    → EncoderFits e
    → encode_timestamped_telemetry_to_buf e t n ≡ ok s
    → length s ≤ n - 1
unfolding encode_timestamped_telemetry_to_buf
encode_timestamped-length e t n s fits h = ground (arith, fits t n s)

append-regroup : (a b c d q : Bytes) → q ≡ a ++ b ++ c ++ d → q ≡ a ++ (b ++ c ++ d)
append-regroup a b c d q h = h ∙ ap (λ x. x ++ d) (append_assoc a b c) ∙ append_assoc a (b ++ c) d

pub size_minus-twice : (a b c : ℕ) → b + c ≤ a → size_minus (size_minus a b) c ≡ a - b - c
size_minus-twice a b c h = ground arith

pub size_minus-1 : (len : ℕ) → 3 ≤ len → size_minus len 1 ≡ len - 1
size_minus-1 len h = ground arith

-- Behind the guard of the loop there is room for a comma and two bytes.
pub separator-room :
    (n left : ℕ) → 2 ≤ left → (ltb 0 n && leb left 2) ≡ false → length (separator n) + 2 ≤ left
separator-room n left l h = ground arith

length-step :
    (out sep s : Bytes) (left total : ℕ)
    → length sep + length s ≤ left
    → total ≡ length (out ++ sep ++ s) + size_minus (size_minus left (length sep)) (length s)
    → total ≡ length out + left
length-step out sep s left total l k = omega (
  arith,
  length-append (out ++ sep) s,
  length-append out sep,
  size_minus-twice left (length sep) (length s) l,
)

module _ (e : Env) (fits : EncoderFits e) where
  Extends-refl : (ts : List Timeseries) (p : Progress) → 2 ≤ p.left → Extends e ts p (ok p)
  Extends-refl ts p l = ([], tt, sym (append-nil p.out), omega arith, omega arith, l)

  Extends-stop :
      (ts : List Timeseries) (p : Progress) (x : Errno) (b : Bool)
      → 2 ≤ p.left
      → Extends e ts p (if b then ok p else err x)
  Extends-stop ts p x true l = Extends-refl ts p l
  Extends-stop ts p x false l = tt

  -- The progress behind an entry with the text `s`.
  abbrev step : Progress → Bytes → Progress
  step p s = record {
    out = p.out ++ separator p.encoded ++ s;
    left = size_minus (size_minus p.left (length (separator p.encoded))) (length s);
    encoded = p.encoded + 1;
  }

  Extends-step :
      (t : Timeseries) (ts : List Timeseries) (p : Progress) (s : Bytes) (n : ℕ)
      → encode_timestamped_telemetry_to_buf e t n ≡ ok s
      → length (separator p.encoded) + length s ≤ p.left
      → (r : Result Progress) → Extends e ts (step p s) r
      → Extends e (t ∷ ts) p r
  Extends-step t ts p s n h l (err x) g = tt
  Extends-step t ts p s n h l (ok q) (texts, f, o, c, k, m) = (
    s ∷ texts,
    ((n, h), f),
    append-regroup p.out (separator p.encoded) s (elements (p.encoded + 1) texts) q.out o,
    omega (arith, c),
    length-step p.out (separator p.encoded) s p.left (length q.out + q.left) l k,
    m,
  )

  encode_entries-Extends :
      (ts : List Timeseries) (p : Progress) → 2 ≤ p.left → Extends e ts p (encode_entries e ts p)
  unfolding encode_entries
  encode_entries-Extends [] p l = Extends-refl [] p l
  encode_entries-Extends (t ∷ ts) p l = elim (Bool-cases (ltb 0 p.encoded && leb p.left 2)) [
    | inl b ↦ rw (b, encode_entries) (Extends-refl (t ∷ ts) p l)
    | inr b ↦
        (let m = length (separator p.encoded) in
          let n = size_minus (size_minus p.left m) 2 in
          let r = separator-room p.encoded p.left l b in
          let z = size_minus-twice p.left m 2 r in
          elim (Result-cases (encode_timestamped_telemetry_to_buf e t n)) [
            | inl (s, h) ↦
                rw (b, h, encode_entries)
                  (let f = encode_timestamped-length e t n s fits h in
                    let a : m + length s ≤ p.left = omega (arith, f, z, r) in
                    let c : 2 ≤ (step p s).left =
                      omega (arith, f, z, r, size_minus-twice p.left m (length s) a) in
                    Extends-step t ts p s n h a (encode_entries e ts (step p s))
                      (encode_entries-Extends ts (step p s) c))
            | inr (x, h) ↦ rw (b, h, encode_entries) (Extends-stop (t ∷ ts) p x (is_enomem x) l)
          ])
  ]

abbrev pub rest_of : List Bytes → Bytes
rest_of [] = []
rest_of (s ∷ ss) = b',' ∷ s ++ rest_of ss

-- The texts with a comma between any two.
abbrev pub separated : List Bytes → Bytes
separated [] = []
separated (s ∷ ss) = s ++ rest_of ss

elements-suc : (n : ℕ) (ss : List Bytes) → elements (n + 1) ss ≡ rest_of ss
elements-suc n [] = refl
elements-suc n (s ∷ ss) = ground (arith, elements-suc (n + 1) ss)

elements-zero : (ss : List Bytes) → elements 0 ss ≡ separated ss
elements-zero [] = refl
elements-zero (s ∷ ss) = ground (arith, elements-suc 0 ss)

-- What a successful call leaves behind.
abbrev Closed : Env → List Timeseries → ℕ → Result (Bytes × ℕ) → Type 0
Closed e ts len (err x) = Unit {0}
Closed e ts len (ok r) =
    (texts : List Bytes) × Prefix e ts texts
    × (r.0 ≡ b'[' ∷ separated texts ++ b']' ∷ [])
    × (r.1 ≡ length texts)
    × (length (r.0) < len)

close_array-Closed :
    (e : Env) (ts : List Timeseries) (len : ℕ) (r : Result Progress)
    → 3 ≤ len
    → Extends e ts (record { out = b'[' ∷ []; left = size_minus len 1; encoded = 0 }) r
    → Closed e ts len (elim r [ err x ↦ err x | ok p ↦ close_array p ])
unfolding close_array
close_array-Closed e ts len (err x) l g = tt
close_array-Closed e ts len (ok q) l (texts, f, o, c, k, m) = elim (Bool-cases (ltb q.left 2)) [
  | inl b ↦ rw (b, close_array) tt
  | inr b ↦
      rw (b, close_array)
        (
          texts,
          f,
          ap (λ x. x ++ b']' ∷ []) (o ∙ ap (λ x. b'[' ∷ x) (elements-zero texts)),
          omega (arith, c),
          omega (arith, k, m, l, size_minus-1 len l, length-append q.out (b']' ∷ [])),
        )
]

timeseries_encode-Closed :
    (e : Env) (ts : List Timeseries) (len : ℕ)
    → EncoderFits e
    → Closed e ts len (timeseries_encode e ts len)
unfolding timeseries_encode
timeseries_encode-Closed e ts len fits = elim (Bool-cases (ltb len 3)) [
  | inl b ↦ rw (b, timeseries_encode) tt
  | inr b ↦
      rw (b, timeseries_encode)
        (let p : Progress = record { out = b'[' ∷ []; left = size_minus len 1; encoded = 0 } in
          close_array-Closed e ts len (encode_entries e ts p) (ltb→ge len 3 b) (
            encode_entries-Extends e fits ts p
              (let g = ltb→ge len 3 b in omega (arith, size_minus-1 len g))))
]

-- If json_obj_encode_buf stays within the buffer it is given, then what thingsboard_timeseries_encode
-- returns with success is `[`, the encodings of the first `n` entries with a comma between any two,
-- and `]`, for the returned count `n`, and it leaves room for a NUL in `len` bytes.
pub timeseries_encode-shape :
    (e : Env) (ts : List Timeseries) (len : ℕ) (out : Bytes) (n : ℕ)
    → EncoderFits e
    → timeseries_encode e ts len ≡ ok (out, n)
    → (texts : List Bytes) × Prefix e ts texts
      × (out ≡ b'[' ∷ separated texts ++ b']' ∷ [])
      × (n ≡ length texts)
      × (length out < len)
timeseries_encode-shape e ts len out n fits h =
    subst (λ r. Closed e ts len r) h (timeseries_encode-Closed e ts len fits)
