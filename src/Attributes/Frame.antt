-- ===== src/Attributes/Frame.antt =====
-- The observation of the attributes changes no state of the client.
use thingsboard_sdk.Base.{ℕ, none, some, Option, Option-cases, inl, inr, arith, not}
use thingsboard_sdk.Types.{err, enomem, Attributes, attribute_notification}
use thingsboard_sdk.Types.Cases.{Result-cases}
use thingsboard_sdk.Codec.{attributes_decode, attributes_update}
use thingsboard_sdk.Platform.{
  Env, Delivery, callback, coap_client_cancel_request, assert_failed, observation_is_null,
}
use thingsboard_sdk.World.{World, modify_client, emit, when, pure, ◌>>=◌, ◌>>◌}
use thingsboard_sdk.World.Keeps.{Keeps}
use thingsboard_sdk.Requests.{after_alloc, request_alloc, request_free, send_coap, lock, unlock}
use thingsboard_sdk.Requests.Frame.{Steady, Still}
use thingsboard_sdk.Fota.Start.Frame.{fota_on_attributes-Still}
use thingsboard_sdk.Attributes.{
  set_observation, is_null, prepare_observe, subscribe_attributes, spread_attributes,
  store_attributes, take_attributes, handle_attribute_notification, canceled, cancel_request,
  cancel_observation, unsubscribe_attributes,
}

module _ (e : Env) where
  prepare_observe-Steady : (r : ℕ) (w : World) → Steady w (prepare_observe e r w).0
  unfolding prepare_observe request_free send_coap
  prepare_observe-Steady r w = ground arith

  alloc_observation-Steady :
      (w : World)
      → Steady w
          ((do
            request ← request_alloc e
            set_observation request
            elim request [ none ↦ pure (err enomem) | some r ↦ prepare_observe e r ])
            w).0
  unfolding request_alloc
  alloc_observation-Steady w = elim (Option-cases (e.mem_slab_alloc w.history)) [
    | inl p ↦ rw (p, request_alloc) (ground arith)
    | inr (r, p) ↦
        rw (p, request_alloc)
          (prepare_observe-Steady r (set_observation (some r) (after_alloc r w)).0)
  ]

  pub subscribe_attributes-Steady : Keeps Steady (subscribe_attributes e)
  unfolding subscribe_attributes
  subscribe_attributes-Steady w =
      let v =
        (when (not (is_null w.client.attributes_observation))
          (emit (assert_failed observation_is_null)) w).0 in
      ground (arith, alloc_observation-Steady v)

module _ (e : Env) where
  spread_attributes-Still : (a : Attributes) → Keeps Still (spread_attributes e a)
  unfolding spread_attributes
  spread_attributes-Still a w = ground (arith, fota_on_attributes-Still e w)

  store_attributes-Still : (a : Attributes) → Keeps Still (store_attributes e a)
  unfolding store_attributes
  store_attributes-Still a w =
      elim (Result-cases (attributes_update e a w.client.shared_attributes)) [
        | inl ((count, current), p) ↦
            rw (p, store_attributes)
              (spread_attributes-Still a
                (modify_client (λ c. record c { shared_attributes = current }) w).0)
        | inr (x, p) ↦ rw (p, store_attributes) (ground arith)
      ]

  pub take_attributes-Still : (d : Delivery) → Keeps Still (take_attributes e d)
  unfolding take_attributes
  take_attributes-Still d w = elim (Result-cases (attributes_decode e d.payload)) [
    | inl (changes, p) ↦ rw (p, take_attributes) (ground (arith, store_attributes-Still changes w))
    | inr (x, p) ↦ rw (p, take_attributes) (ground arith)
  ]

  pub handle_attribute_notification-Steady :
      (d : Delivery) (r : ℕ) (w : World) → Steady w (handle_attribute_notification e d r w).0
  unfolding handle_attribute_notification lock unlock request_free
  handle_attribute_notification-Steady d r w = ground (arith, take_attributes-Still d (lock w).0)

  cancel_request-Steady : (r : ℕ) → Keeps Steady (cancel_request e r)
  unfolding cancel_request
  cancel_request-Steady r w =
      let v = (emit (coap_client_cancel_request r) w).0 in
      let u =
        (emit (callback attribute_notification canceled.result_code canceled.last_block r) v).0 in
      ground (arith, handle_attribute_notification-Steady canceled r u)

  cancel_observation-Steady : (o : Option ℕ) → Keeps Steady (cancel_observation e o)
  unfolding cancel_observation
  cancel_observation-Steady none w = ground arith
  cancel_observation-Steady (some r) w = cancel_request-Steady r w

  pub unsubscribe_attributes-Steady : Keeps Steady (unsubscribe_attributes e)
  unfolding unsubscribe_attributes
  unsubscribe_attributes-Steady w = cancel_observation-Steady w.client.attributes_observation w
