-- ===== src/Provision/Balance.antt =====
-- Provisioning keeps no request block.
use thingsboard_sdk.Base.{ℕ, ◌+◌, ◌≡◌, Option-cases, inl, inr, Bytes, arith}
use thingsboard_sdk.Platform.{Env, Delivery}
use thingsboard_sdk.World.{World}
use thingsboard_sdk.World.Keeps.{Keeps}
use thingsboard_sdk.Requests.{request_alloc, request_free, send_coap}
use thingsboard_sdk.Requests.Balance.{same, received, spent, Balanced}
use thingsboard_sdk.Rpc.Balance.{FreesLast}
use thingsboard_sdk.Requests.Traffic.{Quiet→Balanced, Balanced-transitive}
use thingsboard_sdk.Provision.Keeps.{process_prov_resp-Keeps}
use thingsboard_sdk.Provision.{handle_prov_resp, print_provision, make_provisioning_request}

module _ (e : Env) (k : ℕ) where
  print_provision-spent :
      (name : Bytes) (r : ℕ) (w : World)
      → received k (print_provision e name r w).0.history + spent k w.history + same r k
        ≡ received k w.history + spent k (print_provision e name r w).0.history
  unfolding print_provision request_free send_coap
  print_provision-spent name r w = ground arith

  -- `make_provisioning_request` gives each block away as often as it gets it.
  pub make_provisioning_request-Balanced :
      (name : Bytes) → Keeps (Balanced k) (make_provisioning_request e name)
  unfolding make_provisioning_request request_alloc
  make_provisioning_request-Balanced name w = elim (Option-cases (e.mem_slab_alloc w.history)) [
    | inl p ↦ rw (p, make_provisioning_request, request_alloc) (omega arith)
    | inr (r, p) ↦
        rw (p, make_provisioning_request, request_alloc)
          (omega (arith, print_provision-spent name r))
  ]

module _ (e : Env) (k : ℕ) (prov_callback : Bytes → World → World × (Unit {0}))
    (kept : (token : Bytes) → Keeps (Balanced k) (prov_callback token)) where
  pub handle_prov_resp-FreesLast :
      (d : Delivery) (r : ℕ) (w : World)
      → FreesLast k w (handle_prov_resp e prov_callback d r w).0 d r
  unfolding handle_prov_resp request_free
  handle_prov_resp-FreesLast d r w = ground (
    arith,
    process_prov_resp-Keeps e prov_callback (Balanced k) (λ v u c. Quiet→Balanced k v u (c.1))
        (Balanced-transitive k) kept d.result_code d.payload w,
  )
