-- ===== src/Codec.antt =====
-- The functions that src/tb_internal.h declares for both content formats: JSON or Protobuf, by
-- CONFIG_THINGSBOARD_CONTENT_FORMAT_JSON.
pub mod Bounds
use thingsboard_sdk.Base.{ℕ, List, Bytes, if◌then◌else◌}
use thingsboard_sdk.Types.{
  Result, ok, Attributes, Telemetry, Timeseries, ContentFormat, app_json, app_octet_stream,
}
use thingsboard_sdk.Platform.{Env}
use thingsboard_sdk.Json
use thingsboard_sdk.Protobuf

module _ (e : Env) where
  unfoldable pub default_content_format : ContentFormat
  default_content_format = if e.kconfig.content_format_json then app_json else app_octet_stream

  unfoldable pub attributes_update : Attributes → Attributes → Result (ℕ × Attributes)
  attributes_update changes current =
      if e.kconfig.content_format_json
      then Json.attributes_update e changes current
      else ok (Protobuf.attributes_update e.kconfig changes current)

  unfoldable pub attributes_decode : Bytes → Result Attributes
  attributes_decode payload =
      if e.kconfig.content_format_json
      then Json.attributes_decode e payload
      else Protobuf.attributes_decode e payload

  -- `payload` is the received payload, `memory` what stands at its address, further bytes included.
  unfoldable pub rpc_response_decode : Bytes → Bytes → Result Bytes
  rpc_response_decode payload memory =
      if e.kconfig.content_format_json
      then Json.rpc_response_decode memory
      else Protobuf.rpc_response_decode e payload

  unfoldable pub rpc_request_encode : Bytes → ℕ → Result Bytes
  rpc_request_encode method len =
      if e.kconfig.content_format_json
      then Json.rpc_request_encode e method len
      else Protobuf.rpc_request_encode e method len

  unfoldable pub telemetry_encode : Telemetry → ℕ → Result Bytes
  telemetry_encode v len =
      if e.kconfig.content_format_json
      then Json.telemetry_encode e v len
      else Protobuf.telemetry_encode e v len

  unfoldable pub timeseries_encode : List Timeseries → ℕ → Result (Bytes × ℕ)
  timeseries_encode ts len =
      if e.kconfig.content_format_json
      then Json.timeseries_encode e ts len
      else Protobuf.timeseries_encode e ts len
