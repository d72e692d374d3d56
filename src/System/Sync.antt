-- ===== src/System/Sync.antt =====
-- The application knows the state of the client, and the lock is free between the operations.
use thingsboard_sdk.Base.{some, ℕ, ◌≡◌, refl, true, List, [], ◌∷◌, inl, arith}
use thingsboard_sdk.Types.{
  Handler, attribute_notification, response, rpc_response, fw_chunk, prov_resp,
}
use thingsboard_sdk.Platform.{Env, Delivery, callback}
use thingsboard_sdk.World.{World, emit}
use thingsboard_sdk.World.Keeps.{Keeps}
use thingsboard_sdk.Requests.Frame.{depth, reported}
use thingsboard_sdk.Telemetry.{send_telemetry, send_telemetry_buf}
use thingsboard_sdk.Telemetry.Frame.{send_telemetry-Still, send_telemetry_buf-Still}
use thingsboard_sdk.Telemetry.Timeseries.{send_timeseries}
use thingsboard_sdk.Telemetry.Timeseries.Frame.{send_timeseries-Still}
use thingsboard_sdk.Rpc.{handle_response, handle_rpc_response}
use thingsboard_sdk.Rpc.Frame.{handle_response-Still, handle_rpc_response-Still}
use thingsboard_sdk.TimeSync.{run_rpc_callback, request_time}
use thingsboard_sdk.TimeSync.Frame.{run_rpc_callback-Still, request_time-Still}
use thingsboard_sdk.Fota.{handle_fw_chunk}
use thingsboard_sdk.Fota.Frame.{handle_fw_chunk-Still}
use thingsboard_sdk.Requests.{request_free}
use thingsboard_sdk.Requests.Traffic.{freed-Framed}
use thingsboard_sdk.Provision.Keeps.{handle_prov_resp-Keeps}
use thingsboard_sdk.Attributes.{handle_attribute_notification}
use thingsboard_sdk.Attributes.Frame.{handle_attribute_notification-Steady}
use thingsboard_sdk.Client.Settled.{
  Settled, agrees, Framed→Settled, Settled-then, IsAtRest, Settled-IsAtRest, Framed-IsAtRest,
}
use thingsboard_sdk.Client.Start.{prov_callback}
use thingsboard_sdk.Client.Start.Keeps.{prov_callback-Keeps}
use thingsboard_sdk.Client.Start.Settled.{Settled-IsStartLaws}
use thingsboard_sdk.Client.Api.{connect, disconnect, suspend, resume}
use thingsboard_sdk.Client.Api.Settled.{
  connect-Settled, disconnect-Settled, suspend-Settled, resume-Settled,
}
use thingsboard_sdk.Client.Api.Initialize.{initialize-IsAtRest}
use thingsboard_sdk.Requests.{request_free, has_on_event}
use thingsboard_sdk.Client.Deliver.{handle, deliver}
use thingsboard_sdk.System.{
  Operation, initializes, connects, disconnects, suspends, resumes, sends_telemetry,
  sends_telemetry_buf, sends_timeseries, delivers, requests_time, operate, run, initial,
}

module _ (e : Env) where
  handle-Settled : (h : Handler) (d : Delivery) (r : ℕ) → Keeps Settled (handle e h d r)
  unfolding handle
  handle-Settled attribute_notification d r w =
      Framed→Settled w (handle_attribute_notification e d r w).0
        ((handle_attribute_notification-Steady e d r w).0)
  handle-Settled response d r w =
      Framed→Settled w (handle_response d r w).0 ((handle_response-Still d r w).0)
  handle-Settled rpc_response d r w =
      Framed→Settled w (handle_rpc_response (run_rpc_callback e) d r w).0
        ((handle_rpc_response-Still (run_rpc_callback e) (run_rpc_callback-Still e) d r w).0)
  handle-Settled fw_chunk d r w =
      Framed→Settled w (handle_fw_chunk e d r w).0 ((handle_fw_chunk-Still e d r w).0)
  handle-Settled prov_resp d r w =
      handle_prov_resp-Keeps e (prov_callback e) Settled (λ v u c. Framed→Settled v u (c.0))
        Settled-then (prov_callback-Keeps (Settled-IsStartLaws e))
        (λ q v. Framed→Settled v (request_free (some q) v).0 (freed-Framed q v)) d r w

  deliver-Settled : (h : Handler) (d : Delivery) (r : ℕ) → Keeps Settled (deliver e h d r)
  unfolding deliver
  deliver-Settled h d r w =
      let v = (emit (callback h d.result_code d.last_block r) w).0 in
      Settled-then w v (handle e h d r v).0 (refl, refl, inl (refl, refl)) (handle-Settled h d r v)

  -- A client at rest is at rest after any operation.
  pub operate-IsAtRest : (o : Operation) (w : World) → IsAtRest w → IsAtRest (operate e o w)
  unfolding operate
  operate-IsAtRest (initializes c) w h = initialize-IsAtRest e c w h
  operate-IsAtRest connects w h = Settled-IsAtRest w (connect e w).0 (connect-Settled e w) h
  operate-IsAtRest disconnects w h =
      Settled-IsAtRest w (disconnect e w).0 (disconnect-Settled e w) h
  operate-IsAtRest suspends w h = Settled-IsAtRest w (suspend e w).0 (suspend-Settled e w) h
  operate-IsAtRest resumes w h = Settled-IsAtRest w (resume e w).0 (resume-Settled e w) h
  operate-IsAtRest (sends_telemetry t) w h =
      Framed-IsAtRest w (send_telemetry e t w).0 ((send_telemetry-Still e t w).0) h
  operate-IsAtRest (sends_telemetry_buf b) w h =
      Framed-IsAtRest w (send_telemetry_buf e b w).0 ((send_telemetry_buf-Still e b w).0) h
  operate-IsAtRest (sends_timeseries ts) w h =
      Framed-IsAtRest w (send_timeseries e ts w).0 ((send_timeseries-Still e ts w).0) h
  operate-IsAtRest (delivers t d r) w h =
      Settled-IsAtRest w (deliver e t d r w).0 (deliver-Settled t d r w) h
  operate-IsAtRest requests_time w h =
      Framed-IsAtRest w (request_time e w).0 ((request_time-Still e w).0) h

  run-IsAtRest : (os : List Operation) (w : World) → IsAtRest w → IsAtRest (run e os w)
  unfolding run
  run-IsAtRest [] w h = h
  run-IsAtRest (o ∷ os) w h = run-IsAtRest os (operate e o w) (operate-IsAtRest o w h)

-- After any sequence of calls of the application, callbacks of the CoAP client and runs of the
-- time's work item from the program's start, nobody holds the client's lock.
pub run-depth : (e : Env) (os : List Operation) → depth (run e os initial).history ≡ 0
run-depth e os = (run-IsAtRest e os initial (refl, refl)).0

-- After any sequence of calls of the application, callbacks of the CoAP client and runs of the
-- time's work item from the program's start, if the configuration has an event callback then the
-- last connection event that it was given is that of the client's state: ACTIVE if it is connected,
-- SUSPENDED if suspended, DISCONNECTED or none yet if disconnected, none if the client was not
-- initialised, and any if it is connecting.
pub run-report :
    (e : Env) (os : List Operation)
    → has_on_event (run e os initial).client.config ≡ true
    → agrees (run e os initial).client.state (reported (run e os initial).history) ≡ true
run-report e os c = let r = (run-IsAtRest e os initial (refl, refl)).1 in ground arith
