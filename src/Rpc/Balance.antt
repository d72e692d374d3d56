-- ===== src/Rpc/Balance.antt =====
-- RPC requests and their handlers keep no request block.
use thingsboard_sdk.Base.{
  ℕ, ◌+◌, ◌≡◌, none, some, Option, Option-cases, inl, inr, Bytes, arith, if◌then◌else◌,
}
use thingsboard_sdk.Types.{RpcCallback}
use thingsboard_sdk.Platform.{Env, Delivery}
use thingsboard_sdk.World.{World, M}
use thingsboard_sdk.World.Keeps.{Keeps}
use thingsboard_sdk.Requests.{request_alloc, request_free, send_coap}
use thingsboard_sdk.Requests.Balance.{same, received, spent, Balanced}
use thingsboard_sdk.Rpc.{
  prepare_rpc, send_rpc_request, call_rpc, handle_rpc_response, handle_response,
}

module _ (e : Env) (k : ℕ) where
  prepare_rpc-spent :
      (rpc_method : Bytes) (cb : RpcCallback) (r : ℕ) (w : World)
      → received k (prepare_rpc e rpc_method cb r w).0.history + spent k w.history + same r k
        ≡ received k w.history + spent k (prepare_rpc e rpc_method cb r w).0.history
  unfolding prepare_rpc request_free send_coap
  prepare_rpc-spent rpc_method cb r w = ground arith

  -- `thingsboard_send_rpc_request` gives each block away as often as it gets it.
  pub send_rpc_request-Balanced :
      (rpc_method : Bytes) (cb : RpcCallback)
      → Keeps (Balanced k) (send_rpc_request e rpc_method cb)
  unfolding send_rpc_request request_alloc
  send_rpc_request-Balanced rpc_method cb w = elim (Option-cases (e.mem_slab_alloc w.history)) [
    | inl p ↦ rw (p, send_rpc_request, request_alloc) (omega arith)
    | inr (r, p) ↦
        rw (p, send_rpc_request, request_alloc) (omega (arith, prepare_rpc-spent rpc_method cb r))
  ]

module _ (k : ℕ) where
  -- A handler with the last block frees its own block, and no other.
  abbrev pub FreesLast : World → World → Delivery → ℕ → Type 0
  FreesLast before after d r =
      received k after.history + spent k before.history + (if d.last_block then same r k else 0)
      ≡ received k before.history + spent k after.history

  pub handle_response-FreesLast :
      (d : Delivery) (r : ℕ) (w : World) → FreesLast w (handle_response d r w).0 d r
  unfolding handle_response request_free
  handle_response-FreesLast d r w = ground arith

  call_rpc-Balanced :
      (run : RpcCallback → Delivery → M (Unit {0}))
      → ((cb : RpcCallback) (d : Delivery) → Keeps (Balanced k) (run cb d))
      → (o : Option RpcCallback) (d : Delivery) → Keeps (Balanced k) (call_rpc run o d)
  unfolding call_rpc
  call_rpc-Balanced run h none d w = omega arith
  call_rpc-Balanced run h (some cb) d w = h cb d w

  pub handle_rpc_response-FreesLast :
      (run : RpcCallback → Delivery → M (Unit {0}))
      → ((cb : RpcCallback) (d : Delivery) → Keeps (Balanced k) (run cb d))
      → (d : Delivery) (r : ℕ) (w : World) → FreesLast w (handle_rpc_response run d r w).0 d r
  unfolding handle_rpc_response request_free
  handle_rpc_response-FreesLast run h d r w =
      ground (arith, call_rpc-Balanced run h (w.slab r).rpc_cb d w)
