-- ===== src/Attributes/Outcome.antt =====
-- What subscribing and unsubscribing leave of the observation.
use thingsboard_sdk.Base.{
  ℕ, ◌≡◌, refl, ◌⊎◌, inl, inr, Option, Option-cases, none, some, true, not, [], ◌∷◌, ascii,
  if◌then◌else◌,
}
use thingsboard_sdk.Types.{ok, err, ReturnCode, Errno, ealready, eio, efault, enomem, observe}
use thingsboard_sdk.Platform.{Env, History, assert_failed, observation_is_null, coap_client_req}
use thingsboard_sdk.World.{World, when, emit, modify_request}
use thingsboard_sdk.Types.Cases.{Result-cases}
use thingsboard_sdk.CatPath.{cat_path, api_path}
use thingsboard_sdk.Requests.{request_alloc, request_free, send_coap, after_alloc, lock, unlock}
use thingsboard_sdk.Attributes.{
  set_observation, is_null, canceled, observe_request, drop_observation, post_observe,
  prepare_observe, subscribe_attributes, unsubscribe_attributes, cancel_observation, cancel_request,
  handle_attribute_notification,
}

-- The block of the request that the CoAP client took last.
abbrev pub taken : History → Option ℕ
taken [] = none
taken (coap_client_req q (ok n) ∷ h) = some q.user_data
taken (_ ∷ h) = taken h

-- The observation is the request that the CoAP client took, or the call failed and there is none.
abbrev pub Observes : World × ReturnCode → Type 0
Observes r =
    ((r.1 ≡ ok 0)
      × ((k : ℕ) × (r.0.client.attributes_observation ≡ some k) × (taken r.0.history ≡ some k)))
    ⊎ ((x : Errno) × (r.1 ≡ err x) × (r.0.client.attributes_observation ≡ none))

module _ (e : Env) where
  drop_observation-Observes :
      (r : ℕ) (x : Errno) (w : World) → Observes (drop_observation e r (err x) w)
  unfolding drop_observation request_free
  drop_observation-Observes r x w = inr (x, refl, refl)

  post_observe-Observes :
      (r : ℕ) (w : World) → w.client.attributes_observation ≡ some r → Observes (post_observe e r w)
  unfolding post_observe send_coap observe_request
  post_observe-Observes r w h = elim (Result-cases (e.coap_req w.history (observe_request e r w))) [
    | inl (n, p) ↦ rw (p, post_observe, send_coap) (inl (refl, (r, h, refl)))
    | inr (x, p) ↦ rw (p, post_observe, send_coap) (drop_observation-Observes r eio _)
  ]

  prepare_observe-Observes :
      (r : ℕ) (w : World)
      → w.client.attributes_observation ≡ some r
      → Observes (prepare_observe e r w)
  unfolding prepare_observe
  prepare_observe-Observes r w h =
      elim (Result-cases (
        cat_path (api_path e.kconfig w.client (ascii "attributes"))
          e.kconfig.request_max_path_length)) [
            | inl (p, q) ↦
                rw (q, prepare_observe)
                  (post_observe-Observes r
                    (modify_request r (λ z. record z { path = p; options = observe ∷ [] }) w).0 h)
            | inr (x, q) ↦ rw (q, prepare_observe) (drop_observation-Observes r efault w)
          ]

  -- thingsboard_client_subscribe_attributes returns 0, and the observation is the request that the CoAP
  -- client took last, or it returns an error, and there is no observation.
  pub subscribe_attributes-Observes : (w : World) → Observes (subscribe_attributes e w)
  unfolding subscribe_attributes request_alloc
  subscribe_attributes-Observes w =
      let v =
        (when (not (is_null w.client.attributes_observation))
          (emit (assert_failed observation_is_null)) w).0 in
      elim (Option-cases (e.mem_slab_alloc v.history)) [
        | inl p ↦ rw (p, subscribe_attributes, request_alloc) (inr (enomem, refl, refl))
        | inr (r, p) ↦
            rw (p, subscribe_attributes, request_alloc)
              (prepare_observe-Observes r (set_observation (some r) (after_alloc r v)).0 refl)
      ]

  canceled-none :
      (r : ℕ) (w : World)
      → (handle_attribute_notification e canceled r w).0.client.attributes_observation ≡ none
  unfolding handle_attribute_notification lock unlock request_free
  canceled-none r w = refl

  cancel_request-none :
      (r : ℕ) (w : World)
      → ((h : History) (k : ℕ) → e.cancel_delivers h k ≡ true)
      → (cancel_request e r w).0.client.attributes_observation ≡ none
  unfolding cancel_request
  cancel_request-none r w found = rw (found w.history r, cancel_request) (canceled-none r _)

  cancel_observation-none :
      (o : Option ℕ) (w : World)
      → w.client.attributes_observation ≡ o
      → ((h : History) (k : ℕ) → e.cancel_delivers h k ≡ true)
      → ((cancel_observation e o w).0.client.attributes_observation ≡ none)
        × ((cancel_observation e o w).1 ≡ (if is_null o then err ealready else ok 0))
  unfolding cancel_observation
  cancel_observation-none none w p found = (p, refl)
  cancel_observation-none (some r) w p found = (cancel_request-none r w found, refl)

  -- If the CoAP client finds every request that is cancelled, then
  -- thingsboard_client_unsubscribe_attributes leaves no observation, and returns 0 if there was one and
  -- -EALREADY if there was none.
  pub unsubscribe_attributes-none :
      (w : World)
      → ((h : History) (r : ℕ) → e.cancel_delivers h r ≡ true)
      → ((unsubscribe_attributes e w).0.client.attributes_observation ≡ none)
        × ((unsubscribe_attributes e w).1
            ≡ (if is_null w.client.attributes_observation then err ealready else ok 0))
  unfolding unsubscribe_attributes
  unsubscribe_attributes-none w found =
      cancel_observation-none w.client.attributes_observation w refl found
