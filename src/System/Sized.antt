-- ===== src/System/Sized.antt =====
-- Every request that the SDK hands to the CoAP client fits into its buffers.
use thingsboard_sdk.Base.{ℕ, refl, ◌≡◌, List, [], ◌∷◌, arith}
use thingsboard_sdk.Types.{
  Handler, attribute_notification, response, rpc_response, fw_chunk, prov_resp,
}
use thingsboard_sdk.Platform.{Env, Delivery, callback}
use thingsboard_sdk.World.{World, emit}
use thingsboard_sdk.World.Keeps.{Keeps}
use thingsboard_sdk.Codec.Bounds.{EncodersFit}
use thingsboard_sdk.Requests.{request_free}
use thingsboard_sdk.Requests.Sized.{freed-Sized, oversized, Sized, Quiet→Sized, Sized-transitive}
use thingsboard_sdk.Telemetry.Sized.{send_telemetry-Sized, send_telemetry_buf-Sized}
use thingsboard_sdk.Telemetry.Timeseries.Sized.{send_timeseries-Sized}
use thingsboard_sdk.Rpc.Sized.{handle_response-Sized, handle_rpc_response-Sized}
use thingsboard_sdk.TimeSync.{run_rpc_callback}
use thingsboard_sdk.TimeSync.Sized.{request_time-Sized}
use thingsboard_sdk.TimeSync.Traffic.{run_rpc_callback-Quiet}
use thingsboard_sdk.Fota.{handle_fw_chunk}
use thingsboard_sdk.Fota.Keeps.{process_chunk-Keeps}
use thingsboard_sdk.Fota.Start.Keeps.{
  fota_init-Keeps, fota_confirm_update-Keeps, fota_on_attributes-Keeps,
}
use thingsboard_sdk.Fota.Start.{fota_on_attributes}
use thingsboard_sdk.Fota.Start.Sized.{fw_request_image-Sized}
use thingsboard_sdk.Provision.{handle_prov_resp}
use thingsboard_sdk.Provision.Keeps.{handle_prov_resp-Keeps}
use thingsboard_sdk.Provision.Sized.{make_provisioning_request-Sized}
use thingsboard_sdk.Attributes.Sized.{
  subscribe_attributes-Sized, unsubscribe_attributes-Sized, handle_attribute_notification-Sized,
}
use thingsboard_sdk.Client.Start.{prov_callback}
use thingsboard_sdk.Client.Api.Keeps.{
  IsApiLaws, prov_callback-Plain, connect-Keeps, disconnect-Keeps, suspend-Keeps, resume-Keeps,
  initialize-Keeps,
}
use thingsboard_sdk.Client.Deliver.{handle, deliver}
use thingsboard_sdk.System.{
  Operation, initializes, connects, disconnects, suspends, resumes, sends_telemetry,
  sends_telemetry_buf, sends_timeseries, delivers, requests_time, operate, run, initial,
}

module _ (e : Env) (fits : EncodersFit e) where
  fota_on_attributes-Sized : Keeps (Sized e.kconfig) (fota_on_attributes e)
  fota_on_attributes-Sized =
      fota_on_attributes-Keeps e (Sized e.kconfig) (Quiet→Sized e.kconfig)
        (Sized-transitive e.kconfig) (send_telemetry-Sized e fits) (fw_request_image-Sized e)

  Sized-IsApiLaws : IsApiLaws e (Sized e.kconfig)
  Sized-IsApiLaws = record {
    quiet = Quiet→Sized e.kconfig;
    transitive = Sized-transitive e.kconfig;
    fota_init =
        fota_init-Keeps e (Sized e.kconfig) (Quiet→Sized e.kconfig) (Sized-transitive e.kconfig)
          (send_telemetry-Sized e fits);
    fota_confirm_update =
        fota_confirm_update-Keeps e (Sized e.kconfig) (Quiet→Sized e.kconfig)
          (Sized-transitive e.kconfig) (send_telemetry-Sized e fits);
    subscribe_attributes = subscribe_attributes-Sized e;
    unsubscribe_attributes = unsubscribe_attributes-Sized e fota_on_attributes-Sized;
    make_provisioning_request = make_provisioning_request-Sized e;
  }

  handle_fw_chunk-Sized : (d : Delivery) (r : ℕ) → Keeps (Sized e.kconfig) (handle_fw_chunk e d r)
  unfolding handle_fw_chunk request_free
  handle_fw_chunk-Sized d r w = ground (
    arith,
    process_chunk-Keeps e (Sized e.kconfig) (Quiet→Sized e.kconfig) (Sized-transitive e.kconfig)
        (send_telemetry-Sized e fits) d w,
  )

  handle_prov_resp-Sized :
      (d : Delivery) (r : ℕ) → Keeps (Sized e.kconfig) (handle_prov_resp e (prov_callback e) d r)
  handle_prov_resp-Sized =
      handle_prov_resp-Keeps e (prov_callback e) (Sized e.kconfig)
        (λ v w c. Quiet→Sized e.kconfig v w (c.1)) (Sized-transitive e.kconfig)
        (prov_callback-Plain Sized-IsApiLaws) (freed-Sized e.kconfig)

  handle-Sized : (h : Handler) (d : Delivery) (r : ℕ) → Keeps (Sized e.kconfig) (handle e h d r)
  unfolding handle
  handle-Sized attribute_notification d r =
      handle_attribute_notification-Sized e fota_on_attributes-Sized d r
  handle-Sized response d r = handle_response-Sized e.kconfig d r
  handle-Sized rpc_response d r =
      handle_rpc_response-Sized e.kconfig (run_rpc_callback e) (run_rpc_callback-Quiet e) d r
  handle-Sized fw_chunk d r = handle_fw_chunk-Sized d r
  handle-Sized prov_resp d r = handle_prov_resp-Sized d r

  deliver-Sized : (h : Handler) (d : Delivery) (r : ℕ) → Keeps (Sized e.kconfig) (deliver e h d r)
  unfolding deliver
  deliver-Sized h d r w = handle-Sized h d r (emit (callback h d.result_code d.last_block r) w).0

  operate-Sized : (o : Operation) (w : World) → Sized e.kconfig w (operate e o w)
  unfolding operate
  operate-Sized (initializes c) w = initialize-Keeps Sized-IsApiLaws c w
  operate-Sized connects w = connect-Keeps Sized-IsApiLaws w
  operate-Sized disconnects w = disconnect-Keeps Sized-IsApiLaws w
  operate-Sized suspends w = suspend-Keeps Sized-IsApiLaws w
  operate-Sized resumes w = resume-Keeps Sized-IsApiLaws w
  operate-Sized (sends_telemetry t) w = send_telemetry-Sized e fits t w
  operate-Sized (sends_telemetry_buf b) w = send_telemetry_buf-Sized e b w
  operate-Sized (sends_timeseries ts) w = send_timeseries-Sized e fits ts w
  operate-Sized (delivers h d r) w = deliver-Sized h d r w
  operate-Sized requests_time w = request_time-Sized e fits w

  run-Sized : (os : List Operation) (w : World) → Sized e.kconfig w (run e os w)
  unfolding run
  run-Sized [] w = refl
  run-Sized (o ∷ os) w =
      Sized-transitive e.kconfig w (operate e o w) (run e os (operate e o w)) (operate-Sized o w)
        (run-Sized os (operate e o w))

-- If the JSON encoders leave their string with its NUL, and nanopb its bytes, within the buffer
-- that they are handed, then no request that any sequence of calls of the application, callbacks
-- of the CoAP client and runs of the time's work item hands to the CoAP client from the program's
-- start on is longer than its buffers: each payload is of at most CONFIG_COAP_CLIENT_MESSAGE_SIZE
-- bytes, and each path with its NUL is within the buffer of the paths, that of a firmware image
-- within the buffer of the payload, that of the provisioning aside.
pub run-initial-oversized :
    (e : Env) (os : List Operation)
    → EncodersFit e
    → oversized e.kconfig (run e os initial).history ≡ 0
run-initial-oversized e os fits = run-Sized e fits os initial
