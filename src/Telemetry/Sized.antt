-- ===== src/Telemetry/Sized.antt =====
-- The requests of telemetry fit into their buffers.
use thingsboard_sdk.Base.{◌≤◌, refl, Option-cases, inl, inr, [], ◌∷◌, Bytes, length, true, arith}
use thingsboard_sdk.Types.{Telemetry}
use thingsboard_sdk.Types.Cases.{Result-cases}
use thingsboard_sdk.Platform.{Env}
use thingsboard_sdk.World.{World}
use thingsboard_sdk.World.Keeps.{Keeps}
use thingsboard_sdk.Codec.{telemetry_encode}
use thingsboard_sdk.Codec.Bounds.{EncodersFit, telemetry_encode-fits}
use thingsboard_sdk.Time.{time_msec}
use thingsboard_sdk.Requests.{request_alloc, request_free}
use thingsboard_sdk.Requests.Sized.{Sized}
use thingsboard_sdk.Telemetry.Post.Sized.{send_telemetry_request-Sized}
use thingsboard_sdk.Telemetry.Timeseries.Sized.{send_timeseries-Sized}
use thingsboard_sdk.Telemetry.{
  send_timestamped, send_plain, send_telemetry, copy_and_send, send_telemetry_buf,
}

module _ (e : Env) where
  copy_and_send-Sized :
      (payload : Bytes) (w : World)
      → length payload ≤ e.kconfig.coap_client_message_size
      → Sized e.kconfig w (copy_and_send e payload w).0
  unfolding copy_and_send request_alloc
  copy_and_send-Sized payload w h = elim (Option-cases (e.mem_slab_alloc w.history)) [
    | inl p ↦ rw (p, copy_and_send, request_alloc) refl
    | inr (r, p) ↦
        rw (p, copy_and_send, request_alloc) (send_telemetry_request-Sized e r (length payload) _ h)
  ]

  pub send_telemetry_buf-Sized :
      (payload : Bytes) → Keeps (Sized e.kconfig) (send_telemetry_buf e payload)
  unfolding send_telemetry_buf
  send_telemetry_buf-Sized payload w = ground (arith, copy_and_send-Sized payload w)

module _ (e : Env) (fits : EncodersFit e) where
  send_plain-Sized : (telemetry : Telemetry) → Keeps (Sized e.kconfig) (send_plain e telemetry)
  unfolding send_plain request_alloc request_free
  send_plain-Sized telemetry w =
      let size = e.kconfig.coap_client_message_size in
      elim (Option-cases (e.mem_slab_alloc w.history)) [
        | inl p ↦ rw (p, send_plain, request_alloc) refl
        | inr (r, p) ↦ elim (Result-cases (telemetry_encode e telemetry size)) [
          | inl (payload, q) ↦
              rw (p, q, send_plain, request_alloc)
                (send_telemetry_request-Sized e r (length payload) _
                  (telemetry_encode-fits e fits telemetry size payload q))
          | inr (x, q) ↦ rw (p, q, send_plain, request_alloc) refl
        ]
      ]

  pub send_telemetry-Sized :
      (telemetry : Telemetry) → Keeps (Sized e.kconfig) (send_telemetry e telemetry)
  unfolding send_telemetry send_timestamped time_msec
  send_telemetry-Sized telemetry w = ground (
    arith,
    send_plain-Sized telemetry w,
    send_timeseries-Sized e fits
        (record { ts = (time_msec e w).1; has_values = true; values = telemetry } ∷ [])
        (time_msec e w).0,
  )
