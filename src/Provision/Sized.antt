-- ===== src/Provision/Sized.antt =====
-- The provisioning request fits into its buffer.
use thingsboard_sdk.Base.{ℕ, refl, Bytes, Option-cases, inl, inr, arith}
use thingsboard_sdk.Platform.{Env}
use thingsboard_sdk.World.Keeps.{Keeps}
use thingsboard_sdk.Requests.{after_alloc, request_alloc, request_free, send_coap}
use thingsboard_sdk.Requests.Sized.{Sized}
use thingsboard_sdk.Provision.{print_provision, make_provisioning_request}

module _ (e : Env) where
  print_provision-Sized :
      (name : Bytes) (r : ℕ) → Keeps (Sized e.kconfig) (print_provision e name r)
  unfolding print_provision request_free send_coap
  print_provision-Sized name r w = ground arith

  pub make_provisioning_request-Sized :
      (name : Bytes) → Keeps (Sized e.kconfig) (make_provisioning_request e name)
  unfolding make_provisioning_request request_alloc
  make_provisioning_request-Sized name w = elim (Option-cases (e.mem_slab_alloc w.history)) [
    | inl p ↦ rw (p, make_provisioning_request, request_alloc) refl
    | inr (r, p) ↦
        rw (p, make_provisioning_request, request_alloc)
          (print_provision-Sized name r (after_alloc r w))
  ]
