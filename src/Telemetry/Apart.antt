-- ===== src/Telemetry/Apart.antt =====
-- Sending of telemetry leaves the firmware update alone.
use thingsboard_sdk.Base.{refl, Option-cases, inl, inr, [], ◌∷◌, Bytes, length, true, arith}
use thingsboard_sdk.Types.{Telemetry}
use thingsboard_sdk.Types.Cases.{Result-cases}
use thingsboard_sdk.Platform.{Env}
use thingsboard_sdk.World.Keeps.{Keeps}
use thingsboard_sdk.Codec.{telemetry_encode}
use thingsboard_sdk.Time.{time_msec}
use thingsboard_sdk.Requests.{request_alloc, request_free}
use thingsboard_sdk.Requests.Apart.{Apart}
use thingsboard_sdk.Telemetry.Post.Apart.{send_telemetry_request-Apart}
use thingsboard_sdk.Telemetry.Timeseries.Apart.{send_timeseries-Apart}
use thingsboard_sdk.Telemetry.{
  send_timestamped, send_plain, send_telemetry, copy_and_send, send_telemetry_buf,
}

module _ (e : Env) where
  copy_and_send-Apart : (payload : Bytes) → Keeps Apart (copy_and_send e payload)
  unfolding copy_and_send request_alloc
  copy_and_send-Apart payload w = elim (Option-cases (e.mem_slab_alloc w.history)) [
    | inl p ↦ rw (p, copy_and_send, request_alloc) (refl, refl, refl, refl, refl)
    | inr (r, p) ↦
        rw (p, copy_and_send, request_alloc) (send_telemetry_request-Apart e r (length payload) _)
  ]

  send_plain-Apart : (telemetry : Telemetry) → Keeps Apart (send_plain e telemetry)
  unfolding send_plain request_alloc request_free
  send_plain-Apart telemetry w = elim (Option-cases (e.mem_slab_alloc w.history)) [
    | inl p ↦ rw (p, send_plain, request_alloc) (refl, refl, refl, refl, refl)
    | inr (r, p) ↦
        elim (Result-cases (telemetry_encode e telemetry e.kconfig.coap_client_message_size)) [
          | inl (payload, q) ↦
              rw (p, q, send_plain, request_alloc)
                (send_telemetry_request-Apart e r (length payload) _)
          | inr (x, q) ↦ rw (p, q, send_plain, request_alloc) (refl, refl, refl, refl, refl)
        ]
  ]

  pub send_telemetry-Apart : (telemetry : Telemetry) → Keeps Apart (send_telemetry e telemetry)
  unfolding send_telemetry send_timestamped time_msec
  send_telemetry-Apart telemetry w = ground (
    arith,
    send_plain-Apart telemetry w,
    send_timeseries-Apart e
        (record { ts = (time_msec e w).1; has_values = true; values = telemetry } ∷ [])
        (time_msec e w).0,
  )

  pub send_telemetry_buf-Apart : (payload : Bytes) → Keeps Apart (send_telemetry_buf e payload)
  unfolding send_telemetry_buf
  send_telemetry_buf-Apart payload w = ground (arith, copy_and_send-Apart payload w)
