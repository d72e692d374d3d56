-- ===== src/Telemetry/Post/Sized.antt =====
-- A request of telemetry fits into its buffers.
use thingsboard_sdk.Base.{ℕ, ◌≤◌, ascii, inl, inr, length-take, arith}
use thingsboard_sdk.Types.Cases.{Result-cases}
use thingsboard_sdk.Platform.{Env}
use thingsboard_sdk.World.{World}
use thingsboard_sdk.CatPath.{cat_path, api_path}
use thingsboard_sdk.CatPath.Laws.{cat_path-fits}
use thingsboard_sdk.Requests.{request_free, send_coap}
use thingsboard_sdk.Requests.Sized.{Sized}
use thingsboard_sdk.Telemetry.Post.{send_telemetry_request}

pub send_telemetry_request-Sized :
    (e : Env) (r sz : ℕ) (w : World)
    → sz ≤ e.kconfig.coap_client_message_size
    → Sized e.kconfig w (send_telemetry_request e r sz w).0
unfolding send_telemetry_request request_free send_coap
send_telemetry_request-Sized e r sz w h =
    let elements = api_path e.kconfig w.client (ascii "telemetry") in
    let max = e.kconfig.request_max_path_length in
    elim (Result-cases (cat_path elements max)) [
      | inl (p, q) ↦
          ground (arith, q, cat_path-fits elements max p q, length-take sz (w.slab r).payload)
      | inr (x, q) ↦ ground (arith, q)
    ]
