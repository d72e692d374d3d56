-- ===== src/System/Sockets.antt =====
-- Without provisioning, no socket is lost.
use thingsboard_sdk.Base.{ℕ, ◌+◌, ◌≡◌, refl, false, List, [], ◌∷◌}
use thingsboard_sdk.Types.{
  Handler, attribute_notification, response, rpc_response, fw_chunk, prov_resp,
}
use thingsboard_sdk.Platform.{Env, Delivery, callback}
use thingsboard_sdk.World.{World, emit}
use thingsboard_sdk.Requests.Frame.{Steady, Still→Steady}
use thingsboard_sdk.Telemetry.{send_telemetry, send_telemetry_buf}
use thingsboard_sdk.Telemetry.Frame.{send_telemetry-Still, send_telemetry_buf-Still}
use thingsboard_sdk.Telemetry.Timeseries.{send_timeseries}
use thingsboard_sdk.Telemetry.Timeseries.Frame.{send_timeseries-Still}
use thingsboard_sdk.Rpc.{handle_response, handle_rpc_response}
use thingsboard_sdk.Fota.{handle_fw_chunk}
use thingsboard_sdk.Provision.{handle_prov_resp}
use thingsboard_sdk.Rpc.Frame.{handle_response-Still, handle_rpc_response-Still}
use thingsboard_sdk.TimeSync.{run_rpc_callback, request_time}
use thingsboard_sdk.TimeSync.Frame.{run_rpc_callback-Still, request_time-Still}
use thingsboard_sdk.Fota.Frame.{handle_fw_chunk-Still}
use thingsboard_sdk.Provision.Still.{handle_prov_resp-Still}
use thingsboard_sdk.Attributes.Frame.{handle_attribute_notification-Steady}
use thingsboard_sdk.Socket.Owned.{opened, closed}
use thingsboard_sdk.Client.Start.{prov_callback}
use thingsboard_sdk.Client.Plugged.{held, IsPlugged, Still-IsPlugged, Steady-IsPlugged}
use thingsboard_sdk.Client.Api.Plugged.{
  connect-IsPlugged, disconnect-IsPlugged, suspend-IsPlugged, resume-IsPlugged,
  initialize-IsPlugged,
}
use thingsboard_sdk.Client.Deliver.{handle, deliver}
use thingsboard_sdk.System.{
  Operation, initializes, connects, disconnects, suspends, resumes, sends_telemetry,
  sends_telemetry_buf, sends_timeseries, delivers, requests_time, operate, run, initial,
}

module _ (e : Env) (off : e.kconfig.use_provisioning ≡ false) (k : ℕ) where
  handle-Steady :
      (h : Handler) (d : Delivery) (r : ℕ) (w : World)
      → w.prov_cb ≡ false
      → Steady w (handle e h d r w).0
  unfolding handle
  handle-Steady attribute_notification d r w p = handle_attribute_notification-Steady e d r w
  handle-Steady response d r w p =
      Still→Steady w (handle_response d r w).0 (handle_response-Still d r w)
  handle-Steady rpc_response d r w p =
      Still→Steady w (handle_rpc_response (run_rpc_callback e) d r w).0
        (handle_rpc_response-Still (run_rpc_callback e) (run_rpc_callback-Still e) d r w)
  handle-Steady fw_chunk d r w p =
      Still→Steady w (handle_fw_chunk e d r w).0 (handle_fw_chunk-Still e d r w)
  handle-Steady prov_resp d r w p =
      Still→Steady w (handle_prov_resp e (prov_callback e) d r w).0
        (handle_prov_resp-Still e (prov_callback e) d r w p)

  deliver-IsPlugged :
      (h : Handler) (d : Delivery) (r : ℕ) (w : World)
      → IsPlugged e k w
      → IsPlugged e k (deliver e h d r w).0
  unfolding deliver
  deliver-IsPlugged h d r w p =
      let v = (emit (callback h d.result_code d.last_block r) w).0 in
      Steady-IsPlugged e k v (handle e h d r v).0 (handle-Steady h d r v (p.1)) p

  pub operate-IsPlugged :
      (o : Operation) (w : World) → IsPlugged e k w → IsPlugged e k (operate e o w)
  unfolding operate
  operate-IsPlugged (initializes c) w p = initialize-IsPlugged e off k c w p
  operate-IsPlugged connects w p = connect-IsPlugged e off k w p
  operate-IsPlugged disconnects w p = disconnect-IsPlugged e off k w p
  operate-IsPlugged suspends w p = suspend-IsPlugged e off k w p
  operate-IsPlugged resumes w p = resume-IsPlugged e off k w p
  operate-IsPlugged (sends_telemetry t) w p =
      Still-IsPlugged e k w (send_telemetry e t w).0 (send_telemetry-Still e t w) p
  operate-IsPlugged (sends_telemetry_buf b) w p =
      Still-IsPlugged e k w (send_telemetry_buf e b w).0 (send_telemetry_buf-Still e b w) p
  operate-IsPlugged (sends_timeseries ts) w p =
      Still-IsPlugged e k w (send_timeseries e ts w).0 (send_timeseries-Still e ts w) p
  operate-IsPlugged (delivers h d r) w p = deliver-IsPlugged h d r w p
  operate-IsPlugged requests_time w p =
      Still-IsPlugged e k w (request_time e w).0 (request_time-Still e w) p

  run-IsPlugged : (os : List Operation) (w : World) → IsPlugged e k w → IsPlugged e k (run e os w)
  unfolding run
  run-IsPlugged [] w p = p
  run-IsPlugged (o ∷ os) w p = run-IsPlugged os (operate e o w) (operate-IsPlugged o w p)

-- Without provisioning, after any sequence of operations from the program's start, each socket was
-- closed as often as it was opened, but for the socket of a client that is connecting, connected or
-- suspended: that one was opened once more than it was closed.
pub run-sockets :
    (e : Env) (os : List Operation) (k : ℕ)
    → e.kconfig.use_provisioning ≡ false
    → opened k (run e os initial).history
      ≡ closed k (run e os initial).history + held k (run e os initial)
run-sockets e os k off = (run-IsPlugged e off k os initial (refl, refl, λ t. refl)).0
