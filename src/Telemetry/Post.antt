-- ===== src/Telemetry/Post.antt =====
-- `thingsboard_send_telemetry_request` of src/thingsboard.c: one prepared request is sent.
pub mod Balance
pub mod Sized
pub mod Payload
pub mod Frame
pub mod Apart
use thingsboard_sdk.Base.{
  ℕ, zero, suc, ◌+◌, ◌-◌, Bool, true, false, Option, none, some, List, [], ◌∷◌, ◌++◌, Bytes, ascii,
  length, drop, take, ltb, leb, if◌then◌else◌, ◌==◌, not,
}
use thingsboard_sdk.Types.{
  Result, ok, err, ReturnCode, eagain, efault, einval, enomem, eio, response, post, CoapRequest,
  Telemetry, Request,
}
use thingsboard_sdk.Types
use thingsboard_sdk.Platform.{Env}
use thingsboard_sdk.World.{World, M, ◌>>=◌, ◌>>◌, pure, get_world, modify_request, update}
use thingsboard_sdk.CatPath.{cat_path, api_path}
use thingsboard_sdk.Codec.{default_content_format, telemetry_encode}
use thingsboard_sdk.Requests.{is_active, request_alloc, request_free, send_coap}
use thingsboard_sdk.Time.{time_msec}

module _ (e : Env) where
  telemetry_coap_request : ℕ → ℕ → World → CoapRequest
  telemetry_coap_request r sz w = record {
    confirmable = true;
    method = post;
    path = (w.slab r).path;
    options = [];
    payload = take sz (w.slab r).payload;
    fmt = some (default_content_format e);
    cb = response;
    user_data = r;
  }

  -- The part of thingsboard_send_telemetry_request behind the path.
  post_telemetry : ℕ → ℕ → M ReturnCode
  unfolding telemetry_coap_request
  post_telemetry r sz = do
    w ← get_world
    res ← send_coap e (telemetry_coap_request r sz w)
    elim res [ err x ↦ (do request_free (some r); pure (err x)) | ok n ↦ pure (ok n) ]

  -- thingsboard_send_telemetry_request
  unfoldable pub send_telemetry_request : ℕ → ℕ → M ReturnCode
  unfolding post_telemetry
  send_telemetry_request r sz w =
      elim (cat_path (api_path e.kconfig w.client (ascii "telemetry"))
        e.kconfig.request_max_path_length) [
          | err _ ↦ (do request_free (some r); pure (err efault)) w
          | ok p ↦ (do modify_request r (λ q. record q { path = p }); post_telemetry r sz) w
        ]
