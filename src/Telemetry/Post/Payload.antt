-- ===== src/Telemetry/Post/Payload.antt =====
-- What a request of telemetry carries.
use thingsboard_sdk.Base.{ℕ, ◌≡◌, List, [], ◌∷◌, ◌++◌, Bytes, take, arith}
use thingsboard_sdk.Types.{ok}
use thingsboard_sdk.Platform.{Env, History, coap_client_req}
use thingsboard_sdk.World.{World}
use thingsboard_sdk.Requests.{request_free, send_coap}
use thingsboard_sdk.Telemetry.Post.{post_telemetry, send_telemetry_request}

-- The payloads that the CoAP client was asked to send, the oldest first.
abbrev pub sent : History → List Bytes
sent [] = []
sent (coap_client_req q res ∷ h) = sent h ++ q.payload ∷ []
sent (_ ∷ h) = sent h

module _ (e : Env) where
  -- One request of the batch.
  pub send_telemetry_request-sent :
      (r len n : ℕ) (w : World)
      → (send_telemetry_request e r len w).1 ≡ ok n
      → sent (send_telemetry_request e r len w).0.history
        ≡ sent w.history ++ take len (w.slab r).payload ∷ []
  unfolding send_telemetry_request post_telemetry request_free send_coap
  send_telemetry_request-sent r len n w h = ground arith

  pub send_telemetry_request-payload :
      (r len k : ℕ) (w : World)
      → ((send_telemetry_request e r len w).0.slab k).payload ≡ (w.slab k).payload
  unfolding send_telemetry_request post_telemetry request_free send_coap
  send_telemetry_request-payload r len k w = ground arith
