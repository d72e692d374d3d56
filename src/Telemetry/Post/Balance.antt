-- ===== src/Telemetry/Post/Balance.antt =====
-- Sending one request gives its block away, whatever the outcome.
use thingsboard_sdk.Base.{ℕ, ◌+◌, ◌≡◌, arith}
use thingsboard_sdk.Platform.{Env}
use thingsboard_sdk.World.{World}
use thingsboard_sdk.Requests.{request_free, send_coap}
use thingsboard_sdk.Requests.Balance.{same, received, spent}
use thingsboard_sdk.Telemetry.Post.{send_telemetry_request}

-- Of every block, `send_telemetry_request` gives exactly the one that it was handed away: to the
-- CoAP client if that takes the request, and back to the slab on each error.
pub send_telemetry_request-spent :
    (e : Env) (r sz k : ℕ) (w : World)
    → received k (send_telemetry_request e r sz w).0.history + spent k w.history + same r k
      ≡ received k w.history + spent k (send_telemetry_request e r sz w).0.history
unfolding send_telemetry_request request_free send_coap
send_telemetry_request-spent e r sz k w = ground arith
