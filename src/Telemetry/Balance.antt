-- ===== src/Telemetry/Balance.antt =====
-- Sending of telemetry keeps no request block.
use thingsboard_sdk.Base.{ℕ, Option-cases, inl, inr, true, [], ◌∷◌, Bytes, length, arith}
use thingsboard_sdk.Types.Cases.{Result-cases}
use thingsboard_sdk.Types.{Telemetry}
use thingsboard_sdk.Platform.{Env}
use thingsboard_sdk.World.{World}
use thingsboard_sdk.Codec.{telemetry_encode}
use thingsboard_sdk.Time.{time_msec}
use thingsboard_sdk.Requests.{request_alloc, request_free}
use thingsboard_sdk.Requests.Balance.{SlabIsBounded, Balanced}
use thingsboard_sdk.Telemetry.Post.Balance.{send_telemetry_request-spent}
use thingsboard_sdk.Telemetry.Timeseries.Balance.{send_timeseries-Balanced}
use thingsboard_sdk.Telemetry.{
  send_timestamped, send_plain, send_telemetry, copy_and_send, send_telemetry_buf,
}

module _ (e : Env) (k : ℕ) where
  copy_and_send-Balanced :
      (payload : Bytes) (w : World) → Balanced k w (copy_and_send e payload w).0
  unfolding copy_and_send request_alloc
  copy_and_send-Balanced payload w = elim (Option-cases (e.mem_slab_alloc w.history)) [
    | inl p ↦ rw (p, copy_and_send, request_alloc) (omega arith)
    | inr (r, p) ↦
        rw (p, copy_and_send, request_alloc)
          (omega (arith, send_telemetry_request-spent e r (length payload) k))
  ]

  send_plain-Balanced :
      (telemetry : Telemetry) (w : World) → Balanced k w (send_plain e telemetry w).0
  unfolding send_plain request_alloc request_free
  send_plain-Balanced telemetry w = elim (Option-cases (e.mem_slab_alloc w.history)) [
    | inl p ↦ rw (p, send_plain, request_alloc) (omega arith)
    | inr (r, p) ↦
        elim (Result-cases (telemetry_encode e telemetry e.kconfig.coap_client_message_size)) [
          | inl (payload, q) ↦
              rw (p, q, send_plain, request_alloc)
                (omega (arith, send_telemetry_request-spent e r (length payload) k))
          | inr (x, q) ↦ rw (p, q, send_plain, request_alloc) (omega arith)
        ]
  ]

  -- If the slab gives no block while all are in use, `thingsboard_send_telemetry` gives each block
  -- away as often as it gets it, in both of its builds and on every error.
  pub send_telemetry-Balanced :
      (telemetry : Telemetry) (w : World)
      → SlabIsBounded e
      → Balanced k w (send_telemetry e telemetry w).0
  unfolding send_telemetry send_timestamped time_msec
  send_telemetry-Balanced telemetry w bounded = ground (
    arith,
    send_plain-Balanced telemetry w,
    send_timeseries-Balanced e
        (record { ts = (time_msec e w).1; has_values = true; values = telemetry } ∷ [])
        (time_msec e w).0 k bounded,
  )

  -- `thingsboard_send_telemetry_buf` gives each block away as often as it gets it.
  pub send_telemetry_buf-Balanced :
      (payload : Bytes) (w : World) → Balanced k w (send_telemetry_buf e payload w).0
  unfolding send_telemetry_buf
  send_telemetry_buf-Balanced payload w = ground (arith, copy_and_send-Balanced payload w)
