-- ===== src/Attributes/Tracked.antt =====
-- The client knows which observation the CoAP client has, as far as the history tells.
use thingsboard_sdk.Base.{
  ℕ, ◌+◌, ◌≡◌, refl, sym, ap, ◌∙◌, Bool, true, false, Option, Option-cases, none, some, inl, inr,
  [], ◌∷◌, ◌==◌, ◌&&◌, ◌||◌, not, ascii, if◌then◌else◌, arith,
}
use thingsboard_sdk.Types.{
  ok, err, Errno, eio, efault, ReturnCode, observe, attribute_notification, response, rpc_response,
  fw_chunk, prov_resp,
}
use thingsboard_sdk.Types.Cases.{Result-cases}
use thingsboard_sdk.Platform.{
  Env, History, Delivery, callback, coap_client_req, coap_client_cancel_request, assert_failed,
}
use thingsboard_sdk.World.{World, emit, modify_request}
use thingsboard_sdk.CatPath.{cat_path, api_path}
use thingsboard_sdk.Requests.{lock, unlock, request_alloc, request_free, send_coap, after_alloc}
use thingsboard_sdk.Requests.Frame.{is_observe, is_watched, observing, Watched}
use thingsboard_sdk.Requests.Balance.{ends_request}
use thingsboard_sdk.Fota.{is_err}
use thingsboard_sdk.Attributes.{
  end_observation, end_observation, set_observation, points_to, canceled, observe_request,
  drop_observation, post_observe, prepare_observe, subscribe_attributes, take_attributes,
  handle_attribute_notification, cancel_request, cancel_observation, unsubscribe_attributes,
}
use thingsboard_sdk.Attributes.Frame.{take_attributes-Still}

-- How many assertions on the observation failed.
abbrev pub misses : History → ℕ
misses [] = 0
misses (assert_failed a ∷ h) = (if is_watched a then 1 else 0) + misses h
misses (_ ∷ h) = misses h

-- Whether the CoAP client has the observation of block `r`: it has taken the request and not ended
-- it since.
abbrev pub is_live : ℕ → History → Bool
is_live r [] = false
is_live r (coap_client_req q (ok n) ∷ h) = is_observe q.cb && q.user_data == r || is_live r h
is_live r (callback attribute_notification res last_block q ∷ h) =
    not (ends_request attribute_notification res last_block && q == r) && is_live r h
is_live r (_ ∷ h) = is_live r h

-- No assertion failed, and the observations of the CoAP client are that of the client.
abbrev pub IsTracked : World → Type 0
IsTracked w =
    (misses w.history ≡ 0)
    × ((r : ℕ) → is_live r w.history ≡ points_to w.client.attributes_observation r)

-- A CoAP client that has a request finds it when it is cancelled.
abbrev pub CancelFinds : Env → Type 0
CancelFinds e = (h : History) (r : ℕ) → is_live r h ≡ true → e.cancel_delivers h r ≡ true

misses-observing : (h : History) → misses (observing h) ≡ misses h
misses-observing [] = refl
misses-observing (assert_failed a ∷ h) = ground (arith, misses-observing h)
misses-observing (coap_client_req q res ∷ h) = ground (arith, misses-observing h)
misses-observing (callback attribute_notification res last_block r ∷ h) = misses-observing h
misses-observing (callback response res last_block r ∷ h) = misses-observing h
misses-observing (callback rpc_response res last_block r ∷ h) = misses-observing h
misses-observing (callback fw_chunk res last_block r ∷ h) = misses-observing h
misses-observing (callback prov_resp res last_block r ∷ h) = misses-observing h
misses-observing (_ ∷ h) = misses-observing h

is_live-observing : (r : ℕ) (h : History) → is_live r (observing h) ≡ is_live r h
is_live-observing r [] = refl
is_live-observing r (assert_failed a ∷ h) = ground (arith, is_live-observing r h)
is_live-observing r (coap_client_req q (ok n) ∷ h) = ground (arith, is_live-observing r h)
is_live-observing r (coap_client_req q (err x) ∷ h) = ground (arith, is_live-observing r h)
is_live-observing r (callback attribute_notification res last_block q ∷ h) =
    ap (λ b. not (ends_request attribute_notification res last_block && q == r) && b)
      (is_live-observing r h)
is_live-observing r (callback response res last_block q ∷ h) = is_live-observing r h
is_live-observing r (callback rpc_response res last_block q ∷ h) = is_live-observing r h
is_live-observing r (callback fw_chunk res last_block q ∷ h) = is_live-observing r h
is_live-observing r (callback prov_resp res last_block q ∷ h) = is_live-observing r h
is_live-observing r (_ ∷ h) = is_live-observing r h

pub Watched-IsTracked : (v w : World) → Watched v w → IsTracked v → IsTracked w
Watched-IsTracked v w h t = (
  sym (misses-observing w.history) ∙ ap misses (h.1) ∙ misses-observing v.history ∙ t.0,
  λ r.
      sym (is_live-observing r w.history)
      ∙ ap (is_live r) (h.1)
      ∙ is_live-observing r v.history
      ∙ t.1 r
      ∙ ap (λ o. points_to o r) (sym (h.0)),
)

-- The CoAP client has no observation.
abbrev IsUnobserved : World → Type 0
IsUnobserved w = (misses w.history ≡ 0) × ((k : ℕ) → is_live k w.history ≡ false)

points_to-other :
    (o : Option ℕ) (r k : ℕ) → points_to o r ≡ true → (not (r == k) && points_to o k) ≡ false
points_to-other none r k p = ground arith
points_to-other (some q) r k p = ground (arith, p)

ends-last :
    (res : ReturnCode) (b : Bool) → ends_request attribute_notification res b ≡ (b && is_err res)
ends-last (ok n) b = ground arith
ends-last (err x) b = ground arith

eq_refl : (r : ℕ) → (r == r) ≡ true
eq_refl r = ground arith

module _ (e : Env) where
  drop_observation-IsTracked :
      (r : ℕ) (x : Errno) (w : World)
      → IsUnobserved w
      → IsTracked (drop_observation e r (err x) w).0
  unfolding drop_observation request_free
  drop_observation-IsTracked r x w h = h

  post_observe-IsTracked :
      (r : ℕ) (w : World)
      → w.client.attributes_observation ≡ some r
      → IsUnobserved w
      → IsTracked (post_observe e r w).0
  unfolding post_observe send_coap observe_request
  post_observe-IsTracked r w p h =
      elim (Result-cases (e.coap_req w.history (observe_request e r w))) [
        | inl (n, q) ↦
            rw (q, post_observe, send_coap) (h.0, λ k. let z = h.1 k in ground (arith, z, p))
        | inr (x, q) ↦
            rw (q, post_observe, send_coap) (drop_observation-IsTracked r eio _ (h.0, h.1))
      ]

  prepare_observe-IsTracked :
      (r : ℕ) (w : World)
      → w.client.attributes_observation ≡ some r
      → IsUnobserved w
      → IsTracked (prepare_observe e r w).0
  unfolding prepare_observe
  prepare_observe-IsTracked r w p h =
      elim (Result-cases (
        cat_path (api_path e.kconfig w.client (ascii "attributes"))
          e.kconfig.request_max_path_length)) [
            | inl (s, q) ↦
                rw (q, prepare_observe)
                  (post_observe-IsTracked r
                    (modify_request r (λ z. record z { path = s; options = observe ∷ [] }) w).0 p h)
            | inr (x, q) ↦ rw (q, prepare_observe) (drop_observation-IsTracked r efault w h)
          ]

  -- A client without an observation subscribes without a failed assertion.
  pub subscribe_attributes-IsTracked :
      (w : World)
      → w.client.attributes_observation ≡ none
      → IsTracked w
      → IsTracked (subscribe_attributes e w).0
  unfolding subscribe_attributes request_alloc
  subscribe_attributes-IsTracked w p h =
      let u : IsUnobserved w = (h.0, λ k. h.1 k ∙ ap (λ o. points_to o k) p) in
      elim (Option-cases (e.mem_slab_alloc w.history)) [
        | inl q ↦ rw (p, q, subscribe_attributes, request_alloc) u
        | inr (r, q) ↦
            rw (p, q, subscribe_attributes, request_alloc)
              (prepare_observe-IsTracked r (set_observation (some r) (after_alloc r w)).0 refl u)
      ]

  -- What stands behind `out` ends the observation that the CoAP client has ended.
  end_observation-IsTracked :
      (d : Delivery) (r : ℕ) (w : World)
      → points_to w.client.attributes_observation r ≡ true
      → misses w.history ≡ 0
      → ((k : ℕ)
          → is_live k w.history ≡ (
              not ((d.last_block && is_err d.result_code) && r == k)
              && points_to w.client.attributes_observation k))
      → IsTracked (end_observation e d r w).0
  unfolding end_observation request_free
  end_observation-IsTracked d r w p m l = (
    ground (arith, p, m),
    λ k.
        (let z = l k in
          let y = points_to-other w.client.attributes_observation r k p in ground (arith, p, z, y)),
  )

  -- The handler, called by a CoAP client that has the observation.
  pub handle_attribute_notification-IsTracked :
      (d : Delivery) (r : ℕ) (w : World)
      → is_live r w.history ≡ true
      → IsTracked w
      → IsTracked
          (handle_attribute_notification e d r
            (emit (callback attribute_notification d.result_code d.last_block r) w).0).0
  unfolding handle_attribute_notification lock unlock
  handle_attribute_notification-IsTracked d r w l h =
      let c = (emit (callback attribute_notification d.result_code d.last_block r) w).0 in
      let v = (lock c).0 in
      let t = (take_attributes e d v).0 in
      let f = (take_attributes-Still e d v).2 in
      let q : points_to t.client.attributes_observation r ≡ true =
        ap (λ o. points_to o r) (f.0) ∙ sym (h.1 r) ∙ l in
      let m : misses t.history ≡ 0 =
        sym (misses-observing t.history) ∙ ap misses (f.1) ∙ misses-observing v.history ∙ h.0 in
      end_observation-IsTracked d r t q m λ k.
        sym (is_live-observing k t.history)
        ∙ ap (is_live k) (f.1)
        ∙ is_live-observing k v.history
        ∙ ap (λ b. not (b && r == k) && is_live k w.history) (ends-last d.result_code d.last_block)
        ∙ ap (λ b. not ((d.last_block && is_err d.result_code) && r == k) && b)
            (h.1 k ∙ ap (λ o. points_to o k) (sym (f.0)))

  canceled-none :
      (r : ℕ) (w : World)
      → (handle_attribute_notification e canceled r w).0.client.attributes_observation ≡ none
  unfolding handle_attribute_notification lock unlock request_free
  canceled-none r w = refl

  cancel_observation-IsTracked :
      (o : Option ℕ) (w : World)
      → w.client.attributes_observation ≡ o
      → CancelFinds e
      → IsTracked w
      → IsTracked (cancel_observation e o w).0
        × ((cancel_observation e o w).0.client.attributes_observation ≡ none)
  unfolding cancel_observation cancel_request
  cancel_observation-IsTracked none w p found h = (h, p)
  cancel_observation-IsTracked (some r) w p found h =
      let l : is_live r w.history ≡ true = h.1 r ∙ ap (λ o. points_to o r) p ∙ eq_refl r in
      let v = (emit (coap_client_cancel_request r) w).0 in
      rw (found w.history r l, cancel_request)
        (handle_attribute_notification-IsTracked canceled r v l h, canceled-none r _)

  -- If the CoAP client finds the requests that it has, unsubscribing ends the observation.
  pub unsubscribe_attributes-IsTracked :
      (w : World)
      → CancelFinds e
      → IsTracked w
      → IsTracked (unsubscribe_attributes e w).0
        × ((unsubscribe_attributes e w).0.client.attributes_observation ≡ none)
  unfolding unsubscribe_attributes
  unsubscribe_attributes-IsTracked w found h =
      cancel_observation-IsTracked w.client.attributes_observation w refl found h
