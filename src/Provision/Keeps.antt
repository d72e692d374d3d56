-- ===== src/Provision/Keeps.antt =====
-- What provisioning keeps: any relation that allows what changes nothing of the client and passes no
-- request, the provisioning request and the callback.
use thingsboard_sdk.Base.{
  ℕ, [], ◌∷◌, Bool-cases, Bool, some, Option-cases, inl, inr, Bytes, arith, true, false,
}
use thingsboard_sdk.Types.{ok, err, ReturnCode}
use thingsboard_sdk.Types.Cases.{Result-cases}
use thingsboard_sdk.Platform.{
  Env, Delivery, ProvisionResponse, settings_load, settings_subsys_init, settings_save_one,
}
use thingsboard_sdk.World.{World, M, ask, when}
use thingsboard_sdk.World.Keeps.{Keeps}
use thingsboard_sdk.Requests.{request_free}
use thingsboard_sdk.Requests.Traffic.{Calm}
use thingsboard_sdk.Fota.{is_zero}
use thingsboard_sdk.Provision.{
  take_token, take_response, process_prov_resp, handle_prov_resp, accepted_token,
  make_provisioning_request, use_token, load_token, load_entries, provision_device, stored_token,
}

module _ (e : Env) (prov_callback : Bytes → World → World × (Unit {0})) (R : World → World → Type 0)
    (calm : (v w : World) → Calm v w → R v w) (transitive : (u v w : World) → R u v → R v w → R u w)
    (kept : (token : Bytes) → Keeps R (prov_callback token)) where
  when-Keeps-after :
      (b : Bool) (m : M (Unit {0})) (w v : World) → R w v → Keeps R m → R w (when b m v).0
  when-Keeps-after true m w v h k = transitive w v (m v).0 h (k v)
  when-Keeps-after false m w v h k = h

  take_token-Keeps : (token : Bytes) → Keeps R (take_token e prov_callback token)
  unfolding take_token
  take_token-Keeps token w =
      let v = record w { prov_token = token } in
      let u =
        (ask (λ h. e.settings_save_result h (stored_token token))
          (settings_save_one (stored_token token)) v).0 in
      when-Keeps-after v.prov_cb (prov_callback token) w u (calm w u (ground arith)) (kept token)

  take_response-Keeps :
      (response : ProvisionResponse) → Keeps R (take_response e prov_callback response)
  unfolding take_response
  take_response-Keeps response w = elim (Option-cases (accepted_token response)) [
    | inl p ↦ rw (p, take_response) (calm w w (ground arith))
    | inr (token, p) ↦ rw (p, take_response) (take_token-Keeps token w)
  ]

  pub process_prov_resp-Keeps :
      (res : ReturnCode) (payload : Bytes) → Keeps R (process_prov_resp e prov_callback res payload)
  unfolding process_prov_resp
  process_prov_resp-Keeps (err x) payload w = calm w w (ground arith)
  process_prov_resp-Keeps (ok n) payload w =
      elim (Result-cases (e.provision_response_from_json payload)) [
        | inl (response, p) ↦ rw (p, process_prov_resp) (take_response-Keeps response w)
        | inr (x, p) ↦ rw (p, process_prov_resp) (calm w w (ground arith))
      ]

  pub handle_prov_resp-Keeps :
      ((r : ℕ) (v : World) → R v (request_free (some r) v).0)
      → (d : Delivery) (r : ℕ) (w : World) → R w (handle_prov_resp e prov_callback d r w).0
  unfolding handle_prov_resp
  handle_prov_resp-Keeps freed d r w =
      let v = (process_prov_resp e prov_callback d.result_code d.payload w).0 in
      when-Keeps-after d.last_block (request_free (some r)) w v
        (process_prov_resp-Keeps d.result_code d.payload w) (freed r)

module _ (e : Env) (prov_callback : Bytes → World → World × (Unit {0})) (R : World → World → Type 0)
    (calm : (v w : World) → Calm v w → R v w) (transitive : (u v w : World) → R u v → R v w → R u w)
    (made : (name : Bytes) → Keeps R (make_provisioning_request e name))
    (kept : (token : Bytes) → Keeps R (prov_callback token)) where
  use_token-Keeps : (name token : Bytes) → Keeps R (use_token e prov_callback name token)
  unfolding use_token
  use_token-Keeps name [] w = made name w
  use_token-Keeps name (c ∷ cs) w = kept (c ∷ cs) w

  load_token-Keeps : (name : Bytes) → Keeps R (load_token e prov_callback name)
  unfolding load_token
  load_token-Keeps name w =
      let r = ask e.settings_load_result settings_load w in
      let token = load_entries (e.stored w.history) w.prov_token in
      let v = record (r.0) { prov_token = token } in
      elim (Bool-cases (is_zero r.1)) [
        | inl p ↦
            rw (p, load_token)
              (transitive w v (use_token e prov_callback name token v).0 (calm w v (ground arith))
                (use_token-Keeps name token v))
        | inr p ↦ rw (p, load_token) (calm w v (ground arith))
      ]

  pub provision_device-Keeps : (name : Bytes) → Keeps R (provision_device e prov_callback name)
  unfolding provision_device
  provision_device-Keeps name w =
      let r = ask e.settings_init_result settings_subsys_init (record w { prov_cb = true }) in
      elim (Bool-cases (is_zero r.1)) [
        | inl p ↦
            rw (p, provision_device)
              (transitive w r.0 (load_token e prov_callback name r.0).0 (calm w r.0 (ground arith))
                (load_token-Keeps name r.0))
        | inr p ↦ rw (p, provision_device) (calm w r.0 (ground arith))
      ]
