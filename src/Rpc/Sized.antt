-- ===== src/Rpc/Sized.antt =====
-- An RPC request fits into its buffers.
use thingsboard_sdk.Base.{some, none, Option, ℕ, refl, Bytes, ascii, Option-cases, inl, inr, arith}
use thingsboard_sdk.Types.{Kconfig, RpcCallback}
use thingsboard_sdk.Types.Cases.{Result-cases}
use thingsboard_sdk.Platform.{Env, Delivery}
use thingsboard_sdk.World.{M}
use thingsboard_sdk.World.Keeps.{Keeps}
use thingsboard_sdk.CatPath.{cat_path, api_path}
use thingsboard_sdk.CatPath.Laws.{cat_path-fits}
use thingsboard_sdk.Codec.{rpc_request_encode}
use thingsboard_sdk.Codec.Bounds.{EncodersFit, rpc_request_encode-fits}
use thingsboard_sdk.Requests.{after_alloc, request_alloc, request_free, send_coap}
use thingsboard_sdk.Requests.Sized.{Sized, Quiet→Sized}
use thingsboard_sdk.Requests.Traffic.{Quiet}
use thingsboard_sdk.Rpc.{
  call_rpc, handle_response, handle_rpc_response, prepare_rpc, send_rpc_request,
}

module _ (e : Env) (fits : EncodersFit e) where
  prepare_rpc-Sized :
      (rpc_method : Bytes) (cb : RpcCallback) (r : ℕ)
      → Keeps (Sized e.kconfig) (prepare_rpc e rpc_method cb r)
  unfolding prepare_rpc request_free send_coap
  prepare_rpc-Sized rpc_method cb r w =
      let elements = api_path e.kconfig w.client (ascii "rpc") in
      let max = e.kconfig.request_max_path_length in
      let size = e.kconfig.coap_client_message_size in
      elim (Result-cases (cat_path elements max)) [
        | inl (p, q) ↦ elim (Result-cases (rpc_request_encode e rpc_method size)) [
          | inl (s, t) ↦ ground (
            arith,
            q,
            t,
            cat_path-fits elements max p q,
            rpc_request_encode-fits e fits rpc_method size s t,
          )
          | inr (x, t) ↦ ground (arith, q, t)
        ]
        | inr (x, q) ↦ ground (arith, q)
      ]

  pub send_rpc_request-Sized :
      (rpc_method : Bytes) (cb : RpcCallback)
      → Keeps (Sized e.kconfig) (send_rpc_request e rpc_method cb)
  unfolding send_rpc_request request_alloc
  send_rpc_request-Sized rpc_method cb w = elim (Option-cases (e.mem_slab_alloc w.history)) [
    | inl p ↦ rw (p, send_rpc_request, request_alloc) refl
    | inr (r, p) ↦
        rw (p, send_rpc_request, request_alloc)
          (prepare_rpc-Sized rpc_method cb r (after_alloc r w))
  ]

module _ (k : Kconfig) where
  pub handle_response-Sized : (d : Delivery) (r : ℕ) → Keeps (Sized k) (handle_response d r)
  unfolding handle_response request_free
  handle_response-Sized d r w = ground arith

  call_rpc-Quiet :
      (run : RpcCallback → Delivery → M (Unit {0}))
      → ((cb : RpcCallback) (d : Delivery) → Keeps Quiet (run cb d))
      → (o : Option RpcCallback) (d : Delivery) → Keeps Quiet (call_rpc run o d)
  unfolding call_rpc
  call_rpc-Quiet run h none d w = refl
  call_rpc-Quiet run h (some cb) d w = h cb d w

  pub handle_rpc_response-Sized :
      (run : RpcCallback → Delivery → M (Unit {0}))
      → ((cb : RpcCallback) (d : Delivery) → Keeps Quiet (run cb d))
      → (d : Delivery) (r : ℕ) → Keeps (Sized k) (handle_rpc_response run d r)
  unfolding handle_rpc_response request_free
  handle_rpc_response-Sized run h d r w =
      let cb = (w.slab r).rpc_cb in
      ground (arith, Quiet→Sized k w (call_rpc run cb d w).0 (call_rpc-Quiet run h cb d w))
