-- ===== src/Rpc.antt =====
-- RPC requests of src/thingsboard.c.
pub mod Balance
pub mod Sized
pub mod Frame
use thingsboard_sdk.Base.{
  ℕ, ◌+◌, ◌*◌, Bool, false, Option, none, some, [], Bytes, ascii, ◌==◌, if◌then◌else◌, true,
}
use thingsboard_sdk.Types.{
  Result, ok, err, ReturnCode, enomem, efault, einval, eio, rpc_response, RpcCallback, post,
  CoapRequest, Request,
}
use thingsboard_sdk.Platform.{Env, Delivery}
use thingsboard_sdk.World.{World, M, ◌>>=◌, ◌>>◌, pure, done, get_world, modify_request, when}
use thingsboard_sdk.CatPath.{cat_path, api_path}
use thingsboard_sdk.Codec.{default_content_format, rpc_request_encode}
use thingsboard_sdk.Requests.{request_alloc, request_free, send_coap}

-- COAP_RESPONSE_CODE_CONTENT, 2.05
abbrev pub response_code_content : ℕ
response_code_content = 2 * 32 + 5

abbrev pub is_content : ReturnCode → Bool
is_content (ok code) = code == response_code_content
is_content (err _) = false

module _ (e : Env) where
  rpc_coap_request : ℕ → World → CoapRequest
  rpc_coap_request r w = record {
    confirmable = true;
    method = post;
    path = (w.slab r).path;
    options = [];
    payload = (w.slab r).payload;
    fmt = some (default_content_format e);
    cb = rpc_response;
    user_data = r;
  }

  -- The part of thingsboard_send_rpc_request behind the encoding.
  post_rpc : ℕ → M ReturnCode
  unfolding rpc_coap_request
  post_rpc r = do
    w ← get_world
    res ← send_coap e (rpc_coap_request r w)
    elim res [ err _ ↦ (do request_free (some r); pure (err eio)) | ok _ ↦ pure (ok 0) ]

  -- The part behind the path.
  encode_rpc : Bytes → RpcCallback → ℕ → M ReturnCode
  unfolding post_rpc
  encode_rpc rpc_method rpc_cb r =
      elim (rpc_request_encode e rpc_method e.kconfig.coap_client_message_size) [
        | err _ ↦ (do request_free (some r); pure (err einval))
        | ok payload ↦ (do
          modify_request r (λ q. record q { payload = payload; rpc_cb = some rpc_cb })
          post_rpc r)
      ]

  -- The part behind the allocation.
  prepare_rpc : Bytes → RpcCallback → ℕ → M ReturnCode
  unfolding encode_rpc
  prepare_rpc rpc_method rpc_cb r w =
      elim (cat_path (api_path e.kconfig w.client (ascii "rpc"))
        e.kconfig.request_max_path_length) [
          | err _ ↦ (do request_free (some r); pure (err efault)) w
          | ok p ↦
              (do modify_request r (λ q. record q { path = p }); encode_rpc rpc_method rpc_cb r) w
        ]

  -- thingsboard_send_rpc_request
  unfoldable pub send_rpc_request : Bytes → RpcCallback → M ReturnCode
  unfolding prepare_rpc
  send_rpc_request rpc_method rpc_cb = do
    request ← request_alloc e
    elim request [ none ↦ pure (err enomem) | some r ↦ prepare_rpc rpc_method rpc_cb r ]

call_rpc : (RpcCallback → Delivery → M (Unit {0})) → Option RpcCallback → Delivery → M (Unit {0})
call_rpc run none d = done
call_rpc run (some cb) d = run cb d

-- thingsboard_handle_rpc_response, where `run` calls an RPC callback. Responses are logged.
unfoldable pub handle_rpc_response :
    (RpcCallback → Delivery → M (Unit {0})) → Delivery → ℕ → M (Unit {0})
unfolding call_rpc
handle_rpc_response run d r = do
  w ← get_world
  if is_content d.result_code then call_rpc run (w.slab r).rpc_cb d else done
  when d.last_block (request_free (some r))

-- thingsboard_handle_response
unfoldable pub handle_response : Delivery → ℕ → M (Unit {0})
handle_response d r = when d.last_block (request_free (some r))
