-- ===== src/Rpc/Frame.antt =====
-- RPC requests and their handlers change no state of the client.
use thingsboard_sdk.Base.{ℕ, none, some, Option, Option-cases, inl, inr, Bytes, arith}
use thingsboard_sdk.Types.{RpcCallback}
use thingsboard_sdk.Platform.{Env, Delivery}
use thingsboard_sdk.World.{World, M}
use thingsboard_sdk.World.Keeps.{Keeps}
use thingsboard_sdk.Requests.{after_alloc, request_alloc, request_free, send_coap}
use thingsboard_sdk.Requests.Frame.{Still}
use thingsboard_sdk.Rpc.{
  prepare_rpc, send_rpc_request, call_rpc, handle_rpc_response, handle_response,
}

module _ (e : Env) where
  prepare_rpc-Still :
      (rpc_method : Bytes) (cb : RpcCallback) (r : ℕ) (w : World)
      → Still w (prepare_rpc e rpc_method cb r w).0
  unfolding prepare_rpc request_free send_coap
  prepare_rpc-Still rpc_method cb r w = ground arith

  pub send_rpc_request-Still :
      (rpc_method : Bytes) (cb : RpcCallback) → Keeps Still (send_rpc_request e rpc_method cb)
  unfolding send_rpc_request request_alloc
  send_rpc_request-Still rpc_method cb w = elim (Option-cases (e.mem_slab_alloc w.history)) [
    | inl p ↦ rw (p, send_rpc_request, request_alloc) (ground arith)
    | inr (r, p) ↦
        rw (p, send_rpc_request, request_alloc)
          (prepare_rpc-Still rpc_method cb r (after_alloc r w))
  ]

pub handle_response-Still : (d : Delivery) (r : ℕ) (w : World) → Still w (handle_response d r w).0
unfolding handle_response request_free
handle_response-Still d r w = ground arith

call_rpc-Still :
    (run : RpcCallback → Delivery → M (Unit {0}))
    → ((cb : RpcCallback) (d : Delivery) → Keeps Still (run cb d))
    → (o : Option RpcCallback) (d : Delivery) → Keeps Still (call_rpc run o d)
unfolding call_rpc
call_rpc-Still run h none d w = ground arith
call_rpc-Still run h (some cb) d w = h cb d w

pub handle_rpc_response-Still :
    (run : RpcCallback → Delivery → M (Unit {0}))
    → ((cb : RpcCallback) (d : Delivery) → Keeps Still (run cb d))
    → (d : Delivery) (r : ℕ) (w : World) → Still w (handle_rpc_response run d r w).0
unfolding handle_rpc_response request_free
handle_rpc_response-Still run h d r w = ground (arith, call_rpc-Still run h (w.slab r).rpc_cb d w)
