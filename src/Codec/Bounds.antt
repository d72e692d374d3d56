-- ===== src/Codec/Bounds.antt =====
-- The encoders stay within their buffers.
use thingsboard_sdk.Base.{ℕ, ◌<◌, some, ◌≤◌, ◌≡◌, Bytes, List, length, arith}
use thingsboard_sdk.Types.{Telemetry, Timeseries, ok}
use thingsboard_sdk.Platform.{Env}
use thingsboard_sdk.Json.Shape.{EncoderFits, timeseries_encode-shape}
use thingsboard_sdk.Protobuf.Entries.{EntryEncoderFits, timeseries_encode-Encodings}
use thingsboard_sdk.Json
use thingsboard_sdk.Protobuf
use thingsboard_sdk.Codec.{telemetry_encode, rpc_request_encode, timeseries_encode}

pub timeseries_encode-fits :
    (e : Env) (ts : List Timeseries) (len : ℕ) (out : Bytes) (n : ℕ)
    → EncoderFits e
    → EntryEncoderFits e
    → timeseries_encode e ts len ≡ ok (out, n)
    → length out ≤ len
unfolding timeseries_encode
timeseries_encode-fits e ts len out n f g h =
    ground (
      arith,
      timeseries_encode-shape e ts len out n f,
      timeseries_encode-Encodings e g ts len out n,
    )

-- The code that the encoders call leaves a string with its NUL, or the bytes of a message, within
-- the buffer.
pub record EncodersFit (e : Env) : Type 0 where
  pub timeseries : EncoderFits e
  pub entries : EntryEncoderFits e
  pub telemetry : (v : Telemetry) (n : ℕ) (s : Bytes) → e.telemetry_to_buf v n ≡ ok s → length s < n
  pub rpc_request : (m : Bytes) (n : ℕ) (s : Bytes) → e.rpc_request_to_buf m n ≡ ok s → length s < n
  pub pb_telemetry :
      (v : Telemetry) (n : ℕ) (s : Bytes) → e.pb_encode_telemetry v n ≡ some s → length s ≤ n
  pub pb_rpc_request :
      (m : Bytes) (n : ℕ) (s : Bytes) → e.pb_encode_rpc_request m n ≡ some s → length s ≤ n

module _ (e : Env) (fits : EncodersFit e) where
  pub telemetry_encode-fits :
      (v : Telemetry) (len : ℕ) (out : Bytes) → telemetry_encode e v len ≡ ok out → length out ≤ len
  unfolding telemetry_encode Json.telemetry_encode Protobuf.telemetry_encode
  telemetry_encode-fits v len out h =
      ground (arith, fits.telemetry v len out, fits.pb_telemetry v len out)

  pub rpc_request_encode-fits :
      (m : Bytes) (len : ℕ) (out : Bytes) → rpc_request_encode e m len ≡ ok out → length out ≤ len
  unfolding rpc_request_encode Json.rpc_request_encode Protobuf.rpc_request_encode
  rpc_request_encode-fits m len out h =
      ground (arith, fits.rpc_request m len out, fits.pb_rpc_request m len out)
