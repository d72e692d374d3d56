-- ===== src/Provision/Frame.antt =====
-- A provisioning request changes no state of the client.
use thingsboard_sdk.Base.{ℕ, Option-cases, inl, inr, Bytes, arith}
use thingsboard_sdk.Platform.{Env}
use thingsboard_sdk.World.{World}
use thingsboard_sdk.World.Keeps.{Keeps}
use thingsboard_sdk.Requests.{after_alloc, request_alloc, request_free, send_coap}
use thingsboard_sdk.Requests.Frame.{Framed}
use thingsboard_sdk.Provision.{print_provision, make_provisioning_request}

module _ (e : Env) where
  print_provision-Framed :
      (name : Bytes) (r : ℕ) (w : World) → Framed w (print_provision e name r w).0
  unfolding print_provision request_free send_coap
  print_provision-Framed name r w = ground arith

  pub make_provisioning_request-Framed :
      (name : Bytes) → Keeps Framed (make_provisioning_request e name)
  unfolding make_provisioning_request request_alloc
  make_provisioning_request-Framed name w = elim (Option-cases (e.mem_slab_alloc w.history)) [
    | inl p ↦ rw (p, make_provisioning_request, request_alloc) (ground arith)
    | inr (r, p) ↦
        rw (p, make_provisioning_request, request_alloc)
          (print_provision-Framed name r (after_alloc r w))
  ]
