-- ===== src/Telemetry.antt =====
-- Sending of telemetry in src/thingsboard.c.
pub mod Post
pub mod Timeseries
pub mod Balance
pub mod Sized
pub mod Frame
pub mod Apart
use thingsboard_sdk.Base.{ℕ, none, some, [], ◌∷◌, Bytes, length, ltb, if◌then◌else◌, true}
use thingsboard_sdk.Types.{ok, err, ReturnCode, eagain, einval, enomem, Telemetry}
use thingsboard_sdk.Platform.{Env}
use thingsboard_sdk.World.{World, M, ◌>>=◌, ◌>>◌, pure, modify_request}
use thingsboard_sdk.Codec.{telemetry_encode}
use thingsboard_sdk.Requests.{is_active, request_alloc, request_free}
use thingsboard_sdk.Time.{time_msec}
use Post.{send_telemetry_request}
use Timeseries.{send_timeseries}

module _ (e : Env) where
  -- thingsboard_send_telemetry with CONFIG_THINGSBOARD_TELEMETRY_ALWAYS_TIMESTAMP
  send_timestamped : Telemetry → M ReturnCode
  send_timestamped telemetry = do
    now ← time_msec e
    send_timeseries e (record { ts = now; has_values = true; values = telemetry } ∷ [])

  -- thingsboard_send_telemetry without it
  send_plain : Telemetry → M ReturnCode
  send_plain telemetry = do
    request ← request_alloc e
    elim request [
      | none ↦ pure (err enomem)
      | some r ↦ elim (telemetry_encode e telemetry e.kconfig.coap_client_message_size) [
        | err x ↦ (do request_free (some r); pure (err x))
        | ok payload ↦ (do
          modify_request r (λ q. record q { payload = payload })
          send_telemetry_request e r (length payload))
      ]
    ]

  -- thingsboard_send_telemetry
  unfoldable pub send_telemetry : Telemetry → M ReturnCode
  unfolding send_timestamped send_plain
  send_telemetry telemetry w =
      if is_active w
      then (if e.kconfig.telemetry_always_timestamp
            then send_timestamped telemetry
            else send_plain telemetry)
          w
      else (w, err eagain)

  copy_and_send : Bytes → M ReturnCode
  copy_and_send payload = do
    request ← request_alloc e
    elim request [
      | none ↦ pure (err enomem)
      | some r ↦ (do
        modify_request r (λ q. record q { payload = payload })
        send_telemetry_request e r (length payload))
    ]

  -- thingsboard_send_telemetry_buf
  unfoldable pub send_telemetry_buf : Bytes → M ReturnCode
  unfolding copy_and_send
  send_telemetry_buf payload w =
      if is_active w
      then if ltb e.kconfig.coap_client_message_size (length payload)
        then (w, err einval)
        else copy_and_send payload w
      else (w, err eagain)
