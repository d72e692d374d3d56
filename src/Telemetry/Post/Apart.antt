-- ===== src/Telemetry/Post/Apart.antt =====
-- Sending of telemetry leaves the firmware update alone.
use thingsboard_sdk.Base.{ℕ, arith}
use thingsboard_sdk.Platform.{Env}
use thingsboard_sdk.World.Keeps.{Keeps}
use thingsboard_sdk.Requests.{request_free, send_coap}
use thingsboard_sdk.Requests.Apart.{Apart}
use thingsboard_sdk.Telemetry.Post.{send_telemetry_request}

pub send_telemetry_request-Apart :
    (e : Env) (r sz : ℕ) → Keeps Apart (send_telemetry_request e r sz)
unfolding send_telemetry_request request_free send_coap
send_telemetry_request-Apart e r sz w = ground arith
