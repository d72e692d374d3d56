-- ===== src/Attributes/Balance.antt =====
-- The observation of the attributes keeps no request block but the one that the CoAP client has.
use thingsboard_sdk.Base.{
  ℕ, ◌+◌, ◌≡◌, none, some, Option, Option-cases, inl, inr, arith, if◌then◌else◌, not,
}
use thingsboard_sdk.Types.{err, enomem, attribute_notification}
use thingsboard_sdk.Platform.{
  Env, Delivery, callback, coap_client_cancel_request, assert_failed, observation_is_null,
}
use thingsboard_sdk.World.{World, emit, when, pure, ◌>>=◌, ◌>>◌}
use thingsboard_sdk.World.Keeps.{Keeps}
use thingsboard_sdk.Requests.{request_alloc, request_free, send_coap, lock, unlock}
use thingsboard_sdk.Requests.Balance.{SlabIsBounded, same, received, spent, Balanced, ends_request}
use thingsboard_sdk.Fota.Start.Balance.{fota_on_attributes-Balanced}
use thingsboard_sdk.Requests.Traffic.{Quiet→Balanced, Balanced-transitive}
use thingsboard_sdk.Attributes.Keeps.{take_attributes-Keeps}
use thingsboard_sdk.Attributes.{
  set_observation, is_null, prepare_observe, subscribe_attributes, handle_attribute_notification,
  canceled, cancel_request, cancel_observation, unsubscribe_attributes,
}

module _ (e : Env) (k : ℕ) where
  prepare_observe-spent :
      (r : ℕ) (w : World)
      → received k (prepare_observe e r w).0.history + spent k w.history + same r k
        ≡ received k w.history + spent k (prepare_observe e r w).0.history
  unfolding prepare_observe request_free send_coap
  prepare_observe-spent r w = ground arith

  alloc_observation-Balanced :
      (w : World)
      → Balanced k w
          ((do
            request ← request_alloc e
            set_observation request
            elim request [ none ↦ pure (err enomem) | some r ↦ prepare_observe e r ])
            w).0
  unfolding request_alloc
  alloc_observation-Balanced w = elim (Option-cases (e.mem_slab_alloc w.history)) [
    | inl p ↦ rw (p, request_alloc) (omega arith)
    | inr (r, p) ↦ rw (p, request_alloc) (omega (arith, prepare_observe-spent r))
  ]

  -- `thingsboard_client_subscribe_attributes` gives each block away as often as it gets it.
  pub subscribe_attributes-Balanced : Keeps (Balanced k) (subscribe_attributes e)
  unfolding subscribe_attributes
  subscribe_attributes-Balanced w =
      let v =
        (when (not (is_null w.client.attributes_observation))
          (emit (assert_failed observation_is_null)) w).0 in
      ground (arith, alloc_observation-Balanced v)

module _ (e : Env) (bounded : SlabIsBounded e) (k : ℕ) where
  -- The handler frees its block where the CoAP client is done with the observation.
  pub handle_attribute_notification-FreesEnded :
      (d : Delivery) (r : ℕ) (w : World)
      → received k (handle_attribute_notification e d r w).0.history
          + spent k w.history
          + (if ends_request attribute_notification d.result_code d.last_block then same r k else 0)
        ≡ received k w.history + spent k (handle_attribute_notification e d r w).0.history
  unfolding handle_attribute_notification lock unlock request_free
  handle_attribute_notification-FreesEnded d r w = ground (
    arith,
    take_attributes-Keeps e (Balanced k) (Quiet→Balanced k) (Balanced-transitive k)
        (fota_on_attributes-Balanced e bounded k) d (lock w).0,
  )

  cancel_request-Balanced : (r : ℕ) → Keeps (Balanced k) (cancel_request e r)
  unfolding cancel_request
  cancel_request-Balanced r w =
      let v = (emit (coap_client_cancel_request r) w).0 in
      let u =
        (emit (callback attribute_notification canceled.result_code canceled.last_block r) v).0 in
      ground (arith, handle_attribute_notification-FreesEnded canceled r u)

  cancel_observation-Balanced : (o : Option ℕ) → Keeps (Balanced k) (cancel_observation e o)
  unfolding cancel_observation
  cancel_observation-Balanced none w = omega arith
  cancel_observation-Balanced (some r) w = cancel_request-Balanced r w

  -- `thingsboard_client_unsubscribe_attributes` gives each block away as often as it gets it, the
  -- handler's call by the CoAP client included.
  pub unsubscribe_attributes-Balanced : Keeps (Balanced k) (unsubscribe_attributes e)
  unfolding unsubscribe_attributes
  unsubscribe_attributes-Balanced w = cancel_observation-Balanced w.client.attributes_observation w
