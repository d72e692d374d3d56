-- ===== src/System/Watching.antt =====
-- Without provisioning, the client knows the observation that the CoAP client has.
use thingsboard_sdk.Base.{ap, sym, ◌∙◌, arith, ℕ, ◌≡◌, refl, true, false, List, [], ◌∷◌}
use thingsboard_sdk.Types.{
  Handler, attribute_notification, response, rpc_response, fw_chunk, prov_resp,
}
use thingsboard_sdk.Platform.{Env, Delivery, callback}
use thingsboard_sdk.World.{World, emit}
use thingsboard_sdk.Telemetry.{send_telemetry, send_telemetry_buf}
use thingsboard_sdk.Telemetry.Frame.{send_telemetry-Still, send_telemetry_buf-Still}
use thingsboard_sdk.Telemetry.Timeseries.{send_timeseries}
use thingsboard_sdk.Telemetry.Timeseries.Frame.{send_timeseries-Still}
use thingsboard_sdk.Rpc.{handle_response, handle_rpc_response}
use thingsboard_sdk.Rpc.Frame.{handle_response-Still, handle_rpc_response-Still}
use thingsboard_sdk.TimeSync.{run_rpc_callback, request_time}
use thingsboard_sdk.TimeSync.Frame.{run_rpc_callback-Still, request_time-Still}
use thingsboard_sdk.Fota.{handle_fw_chunk}
use thingsboard_sdk.Fota.Frame.{handle_fw_chunk-Still}
use thingsboard_sdk.Provision.{handle_prov_resp}
use thingsboard_sdk.Provision.Still.{handle_prov_resp-Still}
use thingsboard_sdk.Attributes.Frame.{handle_attribute_notification-Steady}
use thingsboard_sdk.Attributes.Tracked.{
  CancelFinds, is_live, IsTracked, handle_attribute_notification-IsTracked,
}
use thingsboard_sdk.Client.Start.{prov_callback}
use thingsboard_sdk.Client.Plugged.{IsPlugged}
use thingsboard_sdk.Client.Watching.{may_observe, IsWatching, Still-IsWatching}
use thingsboard_sdk.Client.Api.Watching.{
  connect-IsWatching, disconnect-IsWatching, suspend-IsWatching, resume-IsWatching,
  initialize-IsWatching,
}
use thingsboard_sdk.Client.Deliver.{handle, deliver}
use thingsboard_sdk.System.{
  Operation, initializes, connects, disconnects, suspends, resumes, sends_telemetry,
  sends_telemetry_buf, sends_timeseries, delivers, requests_time, operate, run, initial,
}
use thingsboard_sdk.System.Sockets.{operate-IsPlugged}

-- The CoAP client calls the handler of an observation only while it has that observation.
abbrev pub IsExpected : Operation → World → Type 0
IsExpected (delivers attribute_notification d r) w = is_live r w.history ≡ true
IsExpected o w = Unit {0}

abbrev pub AreExpected : Env → List Operation → World → Type 0
AreExpected e [] w = Unit {0}
AreExpected e (o ∷ os) w = IsExpected o w × AreExpected e os (operate e o w)

module _ (e : Env) (off : e.kconfig.use_provisioning ≡ false) (found : CancelFinds e) where
  deliver_notification-IsWatching :
      (d : Delivery) (r : ℕ) (w : World)
      → is_live r w.history ≡ true
      → IsWatching e w
      → IsWatching e (deliver e attribute_notification d r w).0
  unfolding deliver handle
  deliver_notification-IsWatching d r w l h =
      let v = (emit (callback attribute_notification d.result_code d.last_block r) w).0 in
      let s = (handle_attribute_notification-Steady e d r v).0.0 in
      (
        handle_attribute_notification-IsTracked e d r w l (h.0),
        λ m.
            (let n = h.1 (ap (may_observe e.kconfig.socket_suspend) (sym s) ∙ m) in
              let z = sym (h.0.1 r) ∙ l in ground (arith, n, z)),
      )

  deliver-IsWatching :
      (t : Handler) (d : Delivery) (r : ℕ) (w : World)
      → w.prov_cb ≡ false
      → IsExpected (delivers t d r) w
      → IsWatching e w
      → IsWatching e (deliver e t d r w).0
  unfolding deliver handle
  deliver-IsWatching attribute_notification d r w p l h = deliver_notification-IsWatching d r w l h
  deliver-IsWatching response d r w p l h =
      let v = (emit (callback response d.result_code d.last_block r) w).0 in
      Still-IsWatching e v (handle_response d r v).0 (handle_response-Still d r v) h
  deliver-IsWatching rpc_response d r w p l h =
      let v = (emit (callback rpc_response d.result_code d.last_block r) w).0 in
      Still-IsWatching e v (handle_rpc_response (run_rpc_callback e) d r v).0
        (handle_rpc_response-Still (run_rpc_callback e) (run_rpc_callback-Still e) d r v) h
  deliver-IsWatching fw_chunk d r w p l h =
      let v = (emit (callback fw_chunk d.result_code d.last_block r) w).0 in
      Still-IsWatching e v (handle_fw_chunk e d r v).0 (handle_fw_chunk-Still e d r v) h
  deliver-IsWatching prov_resp d r w p l h =
      let v = (emit (callback prov_resp d.result_code d.last_block r) w).0 in
      Still-IsWatching e v (handle_prov_resp e (prov_callback e) d r v).0
        (handle_prov_resp-Still e (prov_callback e) d r v p) h

  operate-IsWatching :
      (o : Operation) (w : World)
      → w.prov_cb ≡ false
      → IsExpected o w
      → IsWatching e w
      → IsWatching e (operate e o w)
  unfolding operate
  operate-IsWatching (initializes c) w p x h = initialize-IsWatching e off found c w h
  operate-IsWatching connects w p x h = connect-IsWatching e off found w h
  operate-IsWatching disconnects w p x h = disconnect-IsWatching e off found w h
  operate-IsWatching suspends w p x h = suspend-IsWatching e off found w h
  operate-IsWatching resumes w p x h = resume-IsWatching e off found w h
  operate-IsWatching (sends_telemetry t) w p x h =
      Still-IsWatching e w (send_telemetry e t w).0 (send_telemetry-Still e t w) h
  operate-IsWatching (sends_telemetry_buf b) w p x h =
      Still-IsWatching e w (send_telemetry_buf e b w).0 (send_telemetry_buf-Still e b w) h
  operate-IsWatching (sends_timeseries ts) w p x h =
      Still-IsWatching e w (send_timeseries e ts w).0 (send_timeseries-Still e ts w) h
  operate-IsWatching (delivers t d r) w p x h = deliver-IsWatching t d r w p x h
  operate-IsWatching requests_time w p x h =
      Still-IsWatching e w (request_time e w).0 (request_time-Still e w) h

  run-IsWatching :
      (os : List Operation) (w : World)
      → AreExpected e os w
      → IsPlugged e 0 w
      → IsWatching e w
      → IsTracked (run e os w)
  unfolding run
  run-IsWatching [] w x p h = h.0
  run-IsWatching (o ∷ os) w (x, xs) p h =
      run-IsWatching os (operate e o w) xs (operate-IsPlugged e off 0 o w p)
        (operate-IsWatching o w (p.1) x h)

-- Without provisioning, if the CoAP client calls the handler of an observation only while it has
-- that observation, and finds each that it has when it is cancelled, then after any sequence of
-- calls of the application, callbacks of the CoAP client and runs of the time's work item from the
-- program's start no assertion on the observation has failed, and the CoAP client has the
-- observation that the client remembers and no other.
pub run-initial-IsTracked :
    (e : Env) (os : List Operation)
    → e.kconfig.use_provisioning ≡ false
    → CancelFinds e
    → AreExpected e os initial
    → IsTracked (run e os initial)
run-initial-IsTracked e os off found expected =
    run-IsWatching e off found os initial expected (refl, refl, λ t. refl)
      ((refl, λ r. refl), λ m. refl)
