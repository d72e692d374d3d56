-- ===== src/Provision/Still.antt =====
-- Without a callback, the response to a provisioning request does nothing to the client.
use thingsboard_sdk.Base.{ℕ, ◌≡◌, false, Option-cases, inl, inr, Bytes, arith}
use thingsboard_sdk.Types.{ok, err, ReturnCode}
use thingsboard_sdk.Types.Cases.{Result-cases}
use thingsboard_sdk.Platform.{Env, Delivery, ProvisionResponse}
use thingsboard_sdk.World.{World}
use thingsboard_sdk.Requests.{request_free}
use thingsboard_sdk.Requests.Frame.{Still}
use thingsboard_sdk.Provision.{
  accepted_token, take_token, take_response, process_prov_resp, handle_prov_resp,
}

module _ (e : Env) (prov_callback : Bytes → World → World × (Unit {0})) where
  take_response-Still :
      (response : ProvisionResponse) (w : World)
      → w.prov_cb ≡ false
      → Still w (take_response e prov_callback response w).0
  unfolding take_response take_token
  take_response-Still response w off = elim (Option-cases (accepted_token response)) [
    | inl p ↦ rw (p, take_response) (ground arith)
    | inr (token, p) ↦ rw (p, take_response, take_token) (ground arith)
  ]

  process_prov_resp-Still :
      (res : ReturnCode) (payload : Bytes) (w : World)
      → w.prov_cb ≡ false
      → Still w (process_prov_resp e prov_callback res payload w).0
  unfolding process_prov_resp
  process_prov_resp-Still (err x) payload w off = ground arith
  process_prov_resp-Still (ok n) payload w off =
      elim (Result-cases (e.provision_response_from_json payload)) [
        | inl (response, p) ↦ rw (p, process_prov_resp) (take_response-Still response w off)
        | inr (x, p) ↦ rw (p, process_prov_resp) (ground arith)
      ]

  pub handle_prov_resp-Still :
      (d : Delivery) (r : ℕ) (w : World)
      → w.prov_cb ≡ false
      → Still w (handle_prov_resp e prov_callback d r w).0
  unfolding handle_prov_resp request_free
  handle_prov_resp-Still d r w off =
      ground (arith, process_prov_resp-Still d.result_code d.payload w off)
