-- ===== src/Protobuf/Entries.antt =====
-- The shape of encoded timeseries.
use thingsboard_sdk.Base.{
  ℕ, ◌+◌, ◌-◌, ◌≤◌, ◌≡◌, ◌∙◌, sym, Option-cases, some, inl, inr, List, [], ◌∷◌, ◌++◌, Bytes, length,
  length-append, append_assoc, append-nil, arith,
}
use thingsboard_sdk.Types.{Timeseries, ok}
use thingsboard_sdk.Platform.{Env}
use thingsboard_sdk.Protobuf.{timeseries_encode_cb, timeseries_encode}

-- nanopb writes no more than there is room for.
abbrev pub EntryEncoderFits : Env → Type 0
EntryEncoderFits e =
    (t : Timeseries) (n : ℕ) (s : Bytes) → e.pb_encode_timeseries_entry t n ≡ some s → length s ≤ n

-- The encodings of the entries, each in the room that the earlier ones leave.
pub data Encodings : Env → ℕ → List Timeseries → List Bytes → Type 0 where
  complete : {e : Env} {room : ℕ} → Encodings e room [] []
  entry :
      {e : Env} {room : ℕ} {t : Timeseries} {ts : List Timeseries} {s : Bytes} {ss : List Bytes}
      → e.pb_encode_timeseries_entry t room ≡ some s
      → Encodings e (room - length s) ts ss
      → Encodings e room (t ∷ ts) (s ∷ ss)

abbrev pub joined : List Bytes → Bytes
joined [] = []
joined (s ∷ ss) = s ++ joined ss

module _ (e : Env) (fits : EntryEncoderFits e) where
  timeseries_encode_cb-Encodings :
      (ts : List Timeseries) (out : Bytes) (left encoded : ℕ) (r : Bytes)
      → (timeseries_encode_cb e ts out left encoded).0 ≡ some r
      → (texts : List Bytes) × Encodings e left ts texts
        × (r ≡ out ++ joined texts)
        × (length r ≤ length out + left)
        × ((timeseries_encode_cb e ts out left encoded).1 ≡ encoded + length ts)
  unfolding timeseries_encode_cb
  timeseries_encode_cb-Encodings [] out left encoded r h =
      let p : r ≡ out = ground arith in
      ([], complete, p ∙ sym (append-nil out), ground (arith, p), omega arith)
  timeseries_encode_cb-Encodings (t ∷ ts) out left encoded r h =
      elim (Option-cases (e.pb_encode_timeseries_entry t left)) [
        | inl p ↦ ground arith
        | inr (s, p) ↦
            let q : (timeseries_encode_cb e ts (out ++ s) (left - length s) (encoded + 1)).0
                ≡ some r =
              ground arith in
            let (texts, f, o, l, c) =
              timeseries_encode_cb-Encodings ts (out ++ s) (left - length s) (encoded + 1) r q in
            (
              s ∷ texts,
              entry p f,
              o ∙ append_assoc out s (joined texts),
              (let a = fits t left s p in let b = length-append out s in omega arith),
              rw (p, timeseries_encode_cb) (omega (arith, c)),
            )
      ]

  -- If nanopb writes no more than it has room for, then what the Protobuf
  -- thingsboard_timeseries_encode returns with success is the encodings of all entries, in order, of
  -- no more than `len` bytes, and the callback's counter is the number of the entries.
  pub timeseries_encode-Encodings :
      (ts : List Timeseries) (len : ℕ) (out : Bytes) (n : ℕ)
      → timeseries_encode e ts len ≡ ok (out, n)
      → (texts : List Bytes) × Encodings e len ts texts
        × (out ≡ joined texts)
        × (n ≡ length ts)
        × (length out ≤ len)
  unfolding timeseries_encode
  timeseries_encode-Encodings ts len out n h =
      elim (Option-cases ((timeseries_encode_cb e ts [] len 0).0)) [
        | inl p ↦ ground arith
        | inr (s, p) ↦
            let (texts, f, o, l, c) = timeseries_encode_cb-Encodings ts [] len 0 s p in
            let q : s ≡ out = ground arith in
            let m : n ≡ (timeseries_encode_cb e ts [] len 0).1 = ground arith in
            (texts, f, sym q ∙ o, omega (arith, m, c), ground (arith, l, q))
      ]
