-- ===== src/TimeSync.antt =====
-- Time synchronization of src/tb_time.c: the work item that requests the time, and the response.
pub mod Balance
pub mod Traffic
pub mod Sized
pub mod Frame
pub mod Clock
use thingsboard_sdk.Base.{
  ℕ, ◌+◌, ◌*◌, ◌%◌, ◌^◌, ◌++◌, Bytes, ascii, until_nul, length, ◌==◌, if◌then◌else◌, suc,
}
use thingsboard_sdk.Types.{Result, ok, err, time_update, RpcCallback, time_response}
use thingsboard_sdk.Platform.{Env, Delivery, k_uptime_get, work_reschedule, work_cancel}
use thingsboard_sdk.World.{World, TimeCtx, M, ◌>>=◌, ◌>>◌, done, emit, ask}
use thingsboard_sdk.Codec.{rpc_response_decode}
use thingsboard_sdk.Requests.{is_active, event}
use thingsboard_sdk.Rpc.{send_rpc_request}
use thingsboard_sdk.Time.Timestamp.{timestamp_from_buf}

abbrev modify_time : (TimeCtx → TimeCtx) → M (Unit {0})
modify_time f w = (record w { time = f w.time }, tt)

module _ (e : Env) where
  set_time : ℕ → M (Unit {0})
  set_time ts = do
    now ← ask e.uptime k_uptime_get
    modify_time (λ t. record t { tb_time = ts % 2 ^ 64; own_time = now })
    event time_update
    emit (work_reschedule e.kconfig.time_refresh_interval_seconds)

  -- client_handle_time_response. `strlen` reads on from the address of the decoded payload.
  unfoldable pub handle_time_response : Delivery → M (Unit {0})
  unfolding set_time
  handle_time_response d =
      if length d.payload == 0
      then done
      else elim (rpc_response_decode e d.payload (d.payload ++ d.beyond)) [
        | err _ ↦ done
        | ok payload ↦ elim (timestamp_from_buf (until_nul payload)) [
          | err _ ↦ done
          | ok ts ↦ set_time ts
        ]
      ]

  -- The RPC callbacks by their names.
  unfoldable pub run_rpc_callback : RpcCallback → Delivery → M (Unit {0})
  run_rpc_callback time_response d = handle_time_response d

  request_time_now : M (Unit {0})
  request_time_now = do
    res ← send_rpc_request e (ascii "getCurrentTime") time_response
    now ← ask e.uptime k_uptime_get
    modify_time (λ t. record t { last_request = now })

  -- The argument of K_SECONDS: a number of milliseconds, times 2 << CONFIG_COAP_MAX_RETRANSMIT.
  abbrev pub fallback_seconds : ℕ
  fallback_seconds = e.kconfig.coap_init_ack_timeout_ms * (2 * 2 ^ e.kconfig.coap_max_retransmit)

  -- client_request_time
  unfoldable pub request_time : M (Unit {0})
  unfolding request_time_now
  request_time w =
      (do (if is_active w then request_time_now else done); emit (work_reschedule fallback_seconds))
        w

-- thingsboard_start_time_sync
unfoldable pub start_time_sync : M (Unit {0})
start_time_sync = emit (work_reschedule 0)

-- thingsboard_stop_time_sync
unfoldable pub stop_time_sync : M (Unit {0})
stop_time_sync = emit work_cancel
