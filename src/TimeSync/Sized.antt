-- ===== src/TimeSync/Sized.antt =====
-- The request for the time fits into its buffers.
use thingsboard_sdk.Base.{ascii, arith}
use thingsboard_sdk.Types.{time_response}
use thingsboard_sdk.Platform.{Env}
use thingsboard_sdk.World.Keeps.{Keeps}
use thingsboard_sdk.Codec.Bounds.{EncodersFit}
use thingsboard_sdk.Requests.Sized.{Sized}
use thingsboard_sdk.Rpc.Sized.{send_rpc_request-Sized}
use thingsboard_sdk.TimeSync.{request_time_now, request_time}

pub request_time-Sized : (e : Env) → EncodersFit e → Keeps (Sized e.kconfig) (request_time e)
unfolding request_time request_time_now
request_time-Sized e fits w =
    ground (arith, send_rpc_request-Sized e fits (ascii "getCurrentTime") time_response w)
