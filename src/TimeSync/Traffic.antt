-- ===== src/TimeSync/Traffic.antt =====
-- The response to the request for the time is handled without a request.
use thingsboard_sdk.Base.{ℕ, arith}
use thingsboard_sdk.Types.{RpcCallback, time_response}
use thingsboard_sdk.Platform.{Env, Delivery}
use thingsboard_sdk.World.Keeps.{Keeps}
use thingsboard_sdk.Requests.{event}
use thingsboard_sdk.Requests.Traffic.{Quiet}
use thingsboard_sdk.TimeSync.{set_time, handle_time_response, run_rpc_callback}

module _ (e : Env) where
  set_time-Quiet : (ts : ℕ) → Keeps Quiet (set_time e ts)
  unfolding set_time event
  set_time-Quiet ts w = ground arith

  handle_time_response-Quiet : (d : Delivery) → Keeps Quiet (handle_time_response e d)
  unfolding handle_time_response
  handle_time_response-Quiet d w = grind (arith, set_time-Quiet)

  pub run_rpc_callback-Quiet :
      (cb : RpcCallback) (d : Delivery) → Keeps Quiet (run_rpc_callback e cb d)
  unfolding run_rpc_callback
  run_rpc_callback-Quiet time_response d = handle_time_response-Quiet d
