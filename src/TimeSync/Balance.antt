-- ===== src/TimeSync/Balance.antt =====
-- Time synchronization keeps no request block.
use thingsboard_sdk.Base.{ℕ, ascii, arith}
use thingsboard_sdk.Types.{RpcCallback, time_response}
use thingsboard_sdk.Platform.{Env, Delivery}
use thingsboard_sdk.World.Keeps.{Keeps}
use thingsboard_sdk.Requests.Balance.{Balanced}
use thingsboard_sdk.Rpc.Balance.{send_rpc_request-Balanced}
use thingsboard_sdk.Requests.Traffic.{Quiet→Balanced}
use thingsboard_sdk.TimeSync.Traffic.{run_rpc_callback-Quiet}
use thingsboard_sdk.TimeSync.{run_rpc_callback, request_time_now, request_time}

module _ (e : Env) (k : ℕ) where
  pub run_rpc_callback-Balanced :
      (cb : RpcCallback) (d : Delivery) → Keeps (Balanced k) (run_rpc_callback e cb d)
  run_rpc_callback-Balanced cb d w =
      Quiet→Balanced k w (run_rpc_callback e cb d w).0 (run_rpc_callback-Quiet e cb d w)

  pub request_time-Balanced : Keeps (Balanced k) (request_time e)
  unfolding request_time request_time_now
  request_time-Balanced w =
      ground (arith, send_rpc_request-Balanced e k (ascii "getCurrentTime") time_response w)
