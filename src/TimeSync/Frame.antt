-- ===== src/TimeSync/Frame.antt =====
-- Time synchronization changes no state of the client.
use thingsboard_sdk.Base.{ℕ, ascii, arith}
use thingsboard_sdk.Types.{RpcCallback, time_response}
use thingsboard_sdk.Platform.{Env, Delivery}
use thingsboard_sdk.World.Keeps.{Keeps}
use thingsboard_sdk.Requests.{event}
use thingsboard_sdk.Requests.Frame.{Still}
use thingsboard_sdk.Rpc.Frame.{send_rpc_request-Still}
use thingsboard_sdk.TimeSync.{
  set_time, handle_time_response, run_rpc_callback, request_time_now, request_time, start_time_sync,
  stop_time_sync,
}

module _ (e : Env) where
  set_time-Still : (ts : ℕ) → Keeps Still (set_time e ts)
  unfolding set_time event
  set_time-Still ts w = ground arith

  handle_time_response-Still : (d : Delivery) → Keeps Still (handle_time_response e d)
  unfolding handle_time_response
  handle_time_response-Still d w = grind (arith, set_time-Still)

  pub run_rpc_callback-Still :
      (cb : RpcCallback) (d : Delivery) → Keeps Still (run_rpc_callback e cb d)
  unfolding run_rpc_callback
  run_rpc_callback-Still time_response d = handle_time_response-Still d

  pub request_time-Still : Keeps Still (request_time e)
  unfolding request_time request_time_now
  request_time-Still w =
      ground (arith, send_rpc_request-Still e (ascii "getCurrentTime") time_response w)

pub start_time_sync-Still : Keeps Still start_time_sync
unfolding start_time_sync
start_time_sync-Still w = ground arith

pub stop_time_sync-Still : Keeps Still stop_time_sync
unfolding stop_time_sync
stop_time_sync-Still w = ground arith
