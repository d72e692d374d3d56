-- ===== src/Attributes/Sized.antt =====
-- The observation's request fits into its buffers.
use thingsboard_sdk.Base.{ℕ, refl, ascii, none, some, Option, Option-cases, inl, inr, arith, not}
use thingsboard_sdk.Types.{err, enomem, attribute_notification}
use thingsboard_sdk.Types.Cases.{Result-cases}
use thingsboard_sdk.Platform.{
  Env, Delivery, callback, coap_client_cancel_request, assert_failed, observation_is_null,
}
use thingsboard_sdk.World.{emit, when, pure, ◌>>=◌, ◌>>◌}
use thingsboard_sdk.World.Keeps.{Keeps}
use thingsboard_sdk.CatPath.{cat_path, api_path}
use thingsboard_sdk.CatPath.Laws.{cat_path-fits}
use thingsboard_sdk.Requests.{after_alloc, request_alloc, request_free, send_coap, lock, unlock}
use thingsboard_sdk.Requests.Sized.{Sized, Quiet→Sized, Sized-transitive}
use thingsboard_sdk.Fota.Start.{fota_on_attributes}
use thingsboard_sdk.Attributes.{
  set_observation, is_null, prepare_observe, subscribe_attributes, handle_attribute_notification,
  canceled, cancel_request, cancel_observation, unsubscribe_attributes,
}
use thingsboard_sdk.Attributes.Keeps.{take_attributes-Keeps}

module _ (e : Env) where
  prepare_observe-Sized : (r : ℕ) → Keeps (Sized e.kconfig) (prepare_observe e r)
  unfolding prepare_observe request_free send_coap
  prepare_observe-Sized r w =
      let elements = api_path e.kconfig w.client (ascii "attributes") in
      let max = e.kconfig.request_max_path_length in
      elim (Result-cases (cat_path elements max)) [
        | inl (p, q) ↦ ground (arith, q, cat_path-fits elements max p q)
        | inr (x, q) ↦ ground (arith, q)
      ]

  alloc_observation-Sized : Keeps (Sized e.kconfig) (do
    request ← request_alloc e
    set_observation request
    elim request [ none ↦ pure (err enomem) | some r ↦ prepare_observe e r ])
  unfolding request_alloc
  alloc_observation-Sized w = elim (Option-cases (e.mem_slab_alloc w.history)) [
    | inl p ↦ rw (p, request_alloc) refl
    | inr (r, p) ↦
        rw (p, request_alloc)
          (prepare_observe-Sized r (set_observation (some r) (after_alloc r w)).0)
  ]

  pub subscribe_attributes-Sized : Keeps (Sized e.kconfig) (subscribe_attributes e)
  unfolding subscribe_attributes
  subscribe_attributes-Sized w =
      let v =
        (when (not (is_null w.client.attributes_observation))
          (emit (assert_failed observation_is_null)) w).0 in
      ground (arith, alloc_observation-Sized v)

module _ (e : Env) (update : Keeps (Sized e.kconfig) (fota_on_attributes e)) where
  pub handle_attribute_notification-Sized :
      (d : Delivery) (r : ℕ) → Keeps (Sized e.kconfig) (handle_attribute_notification e d r)
  unfolding handle_attribute_notification lock unlock request_free
  handle_attribute_notification-Sized d r w = ground (
    arith,
    take_attributes-Keeps e (Sized e.kconfig) (Quiet→Sized e.kconfig) (Sized-transitive e.kconfig)
        update d (lock w).0,
  )

  cancel_request-Sized : (r : ℕ) → Keeps (Sized e.kconfig) (cancel_request e r)
  unfolding cancel_request
  cancel_request-Sized r w =
      let v = (emit (coap_client_cancel_request r) w).0 in
      let u =
        (emit (callback attribute_notification canceled.result_code canceled.last_block r) v).0 in
      ground (arith, handle_attribute_notification-Sized canceled r u)

  cancel_observation-Sized : (o : Option ℕ) → Keeps (Sized e.kconfig) (cancel_observation e o)
  unfolding cancel_observation
  cancel_observation-Sized none w = refl
  cancel_observation-Sized (some r) w = cancel_request-Sized r w

  pub unsubscribe_attributes-Sized : Keeps (Sized e.kconfig) (unsubscribe_attributes e)
  unfolding unsubscribe_attributes
  unsubscribe_attributes-Sized w = cancel_observation-Sized w.client.attributes_observation w
