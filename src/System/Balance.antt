-- ===== src/System/Balance.antt =====
-- No operation of the SDK keeps a request block.
use thingsboard_sdk.Base.{ℕ, ◌≡◌, true, List, [], ◌∷◌, arith}
use thingsboard_sdk.Types.{
  Handler, attribute_notification, response, rpc_response, fw_chunk, prov_resp,
}
use thingsboard_sdk.Platform.{Env, Delivery, callback}
use thingsboard_sdk.World.{World, emit}
use thingsboard_sdk.World.Keeps.{Keeps}
use thingsboard_sdk.Requests.Balance.{
  SlabIsBounded, Balanced, gained, received-gained, is_in_bounds, spent,
}
use thingsboard_sdk.Telemetry.Balance.{send_telemetry-Balanced, send_telemetry_buf-Balanced}
use thingsboard_sdk.Telemetry.Timeseries.Balance.{send_timeseries-Balanced}
use thingsboard_sdk.Rpc.Balance.{handle_response-FreesLast, handle_rpc_response-FreesLast}
use thingsboard_sdk.TimeSync.{run_rpc_callback}
use thingsboard_sdk.TimeSync.Balance.{run_rpc_callback-Balanced, request_time-Balanced}
use thingsboard_sdk.Fota.Balance.{handle_fw_chunk-FreesLast}
use thingsboard_sdk.Provision.Balance.{
  make_provisioning_request-Balanced, handle_prov_resp-FreesLast,
}
use thingsboard_sdk.Attributes.Balance.{
  subscribe_attributes-Balanced, unsubscribe_attributes-Balanced,
  handle_attribute_notification-FreesEnded,
}
use thingsboard_sdk.Fota.Start.Balance.{fota_init-Balanced, fota_confirm_update-Balanced}
use thingsboard_sdk.Requests.Traffic.{Quiet→Balanced, Balanced-transitive}
use thingsboard_sdk.Client.Start.{prov_callback}
use thingsboard_sdk.Client.Api.Keeps.{
  IsApiLaws, prov_callback-Plain, connect-Keeps, disconnect-Keeps, suspend-Keeps, resume-Keeps,
  initialize-Keeps,
}
use thingsboard_sdk.Client.Deliver.{deliver}
use thingsboard_sdk.System.{
  Operation, initializes, connects, disconnects, suspends, resumes, sends_telemetry,
  sends_telemetry_buf, sends_timeseries, delivers, requests_time, operate, run, initial,
}

module _ (e : Env) (bounded : SlabIsBounded e) (k : ℕ) where
  Balanced-IsApiLaws : IsApiLaws e (Balanced k)
  Balanced-IsApiLaws = record {
    quiet = Quiet→Balanced k;
    transitive = Balanced-transitive k;
    fota_init = fota_init-Balanced e bounded k;
    fota_confirm_update = fota_confirm_update-Balanced e bounded k;
    subscribe_attributes = subscribe_attributes-Balanced e k;
    unsubscribe_attributes = unsubscribe_attributes-Balanced e bounded k;
    make_provisioning_request = make_provisioning_request-Balanced e k;
  }

  deliver-Balanced :
      (h : Handler) (d : Delivery) (r : ℕ) → Keeps (Balanced k) (λ w. deliver e h d r w)
  unfolding deliver
  deliver-Balanced attribute_notification d r w =
      let v = (emit (callback attribute_notification d.result_code d.last_block r) w).0 in
      ground (arith, handle_attribute_notification-FreesEnded e bounded k d r v)
  deliver-Balanced response d r w =
      let v = (emit (callback response d.result_code d.last_block r) w).0 in
      ground (arith, handle_response-FreesLast k d r v)
  deliver-Balanced rpc_response d r w =
      let v = (emit (callback rpc_response d.result_code d.last_block r) w).0 in
      ground (
        arith,
        handle_rpc_response-FreesLast k (run_rpc_callback e) (run_rpc_callback-Balanced e k) d r v,
      )
  deliver-Balanced fw_chunk d r w =
      let v = (emit (callback fw_chunk d.result_code d.last_block r) w).0 in
      ground (arith, handle_fw_chunk-FreesLast e bounded k d r v)
  deliver-Balanced prov_resp d r w =
      let v = (emit (callback prov_resp d.result_code d.last_block r) w).0 in
      ground (
        arith,
        handle_prov_resp-FreesLast e k (prov_callback e) (prov_callback-Plain Balanced-IsApiLaws) d
            r v,
      )

  -- If the slab gives no block while all are in use, then after every operation each block was
  -- given away, to the slab or to the CoAP client, as often as it was received.
  pub operate-Balanced : (o : Operation) (w : World) → Balanced k w (operate e o w)
  unfolding operate
  operate-Balanced (initializes c) w = initialize-Keeps Balanced-IsApiLaws c w
  operate-Balanced connects w = connect-Keeps Balanced-IsApiLaws w
  operate-Balanced disconnects w = disconnect-Keeps Balanced-IsApiLaws w
  operate-Balanced suspends w = suspend-Keeps Balanced-IsApiLaws w
  operate-Balanced resumes w = resume-Keeps Balanced-IsApiLaws w
  operate-Balanced (sends_telemetry t) w = send_telemetry-Balanced e k t w bounded
  operate-Balanced (sends_telemetry_buf b) w = send_telemetry_buf-Balanced e k b w
  operate-Balanced (sends_timeseries ts) w = send_timeseries-Balanced e ts w k bounded
  operate-Balanced (delivers h d r) w = deliver-Balanced h d r w
  operate-Balanced requests_time w = request_time-Balanced e k w

  run-Balanced : (os : List Operation) (w : World) → Balanced k w (run e os w)
  unfolding run
  run-Balanced [] w = omega arith
  run-Balanced (o ∷ os) w = omega (arith, operate-Balanced o w, run-Balanced os (operate e o w))

-- If the slab gives no block while all are in use, then after any sequence of calls of the
-- application, callbacks of the CoAP client and runs of the time's work item from the program's
-- start, in which nothing was read or written behind the end of the array `requests` of
-- thingsboard_send_timeseries, each request block was handed back to the slab or to the CoAP client
-- exactly as often as it was obtained from them.
pub run-initial_balance :
    (e : Env) (os : List Operation) (k : ℕ)
    → SlabIsBounded e
    → is_in_bounds (run e os initial).history ≡ true
    → gained k (run e os initial).history ≡ spent k (run e os initial).history
run-initial_balance e os k bounded within = omega (
  arith,
  run-Balanced e bounded k os initial,
  received-gained k (run e os initial).history within,
)
