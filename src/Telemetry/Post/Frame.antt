-- ===== src/Telemetry/Post/Frame.antt =====
-- Sending one request changes no state of the client.
use thingsboard_sdk.Base.{ℕ, arith}
use thingsboard_sdk.Platform.{Env}
use thingsboard_sdk.World.Keeps.{Keeps}
use thingsboard_sdk.Requests.{request_free, send_coap}
use thingsboard_sdk.Requests.Frame.{Still}
use thingsboard_sdk.Telemetry.Post.{send_telemetry_request}

pub send_telemetry_request-Still :
    (e : Env) (r sz : ℕ) → Keeps Still (send_telemetry_request e r sz)
unfolding send_telemetry_request request_free send_coap
send_telemetry_request-Still e r sz w = ground arith
