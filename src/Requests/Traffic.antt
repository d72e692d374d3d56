-- ===== src/Requests/Traffic.antt =====
-- The part of the history that is about request blocks and requests.
use thingsboard_sdk.Base.{if◌then◌else◌, ◌∙◌, sym, ℕ, ◌≡◌, refl, ap, some, [], ◌∷◌, arith}
use thingsboard_sdk.Platform.{
  History, k_mem_slab_alloc, k_mem_slab_free, coap_client_req, callback, assert_failed,
  out_of_bounds,
}
use thingsboard_sdk.Types.{attribute_notification, response, rpc_response, fw_chunk, prov_resp}
use thingsboard_sdk.World.{World}
use thingsboard_sdk.Requests.{request_free}
use thingsboard_sdk.Requests.Frame.{is_watched, Framed, observing, Watched}
use thingsboard_sdk.Requests.Balance.{received, spent, Balanced}

abbrev pub traffic : History → History
traffic [] = []
traffic (k_mem_slab_alloc o ∷ h) = k_mem_slab_alloc o ∷ traffic h
traffic (k_mem_slab_free o ∷ h) = k_mem_slab_free o ∷ traffic h
traffic (coap_client_req q res ∷ h) = coap_client_req q res ∷ traffic h
traffic (callback t res last_block r ∷ h) = callback t res last_block r ∷ traffic h
traffic (assert_failed a ∷ h) = if is_watched a then assert_failed a ∷ traffic h else traffic h
traffic (out_of_bounds o ∷ h) = out_of_bounds o ∷ traffic h
traffic (_ ∷ h) = traffic h

-- No block and no request was passed, and no assertion on the observation failed.
abbrev pub Quiet : World → World → Type 0
Quiet v w = traffic w.history ≡ traffic v.history

abbrev pub Calm : World → World → Type 0
Calm v w =
    Framed v w × Quiet v w × (w.client.attributes_observation ≡ v.client.attributes_observation)

received-traffic : (k : ℕ) (h : History) → received k (traffic h) ≡ received k h
received-traffic k [] = refl
received-traffic k (k_mem_slab_alloc o ∷ h) = omega (arith, received-traffic k h)
received-traffic k (assert_failed a ∷ h) = ground (arith, received-traffic k h)
received-traffic k (out_of_bounds o ∷ h) = omega (arith, received-traffic k h)
received-traffic k (_ ∷ h) = omega (arith, received-traffic k h)

spent-traffic : (k : ℕ) (h : History) → spent k (traffic h) ≡ spent k h
spent-traffic k [] = refl
spent-traffic k (k_mem_slab_alloc o ∷ h) = omega (arith, spent-traffic k h)
spent-traffic k (assert_failed a ∷ h) = ground (arith, spent-traffic k h)
spent-traffic k (_ ∷ h) = omega (arith, spent-traffic k h)

pub Quiet→Balanced : (k : ℕ) (v w : World) → Quiet v w → Balanced k v w
Quiet→Balanced k v w q = omega (
  arith,
  ap (received k) q,
  ap (spent k) q,
  received-traffic k v.history,
  received-traffic k w.history,
  spent-traffic k v.history,
  spent-traffic k w.history,
)

pub freed-Framed : (r : ℕ) (w : World) → Framed w (request_free (some r) w).0
unfolding request_free
freed-Framed r w = (refl, refl, refl, refl)

pub Balanced-transitive : (k : ℕ) (u v w : World) → Balanced k u v → Balanced k v w → Balanced k u w
Balanced-transitive k u v w g h = omega (arith, g, h)

observing-traffic : (h : History) → observing (traffic h) ≡ observing h
observing-traffic [] = refl
observing-traffic (coap_client_req q res ∷ h) = ground (arith, observing-traffic h)
observing-traffic (callback attribute_notification res last_block r ∷ h) =
    ap (λ x. callback attribute_notification res last_block r ∷ x) (observing-traffic h)
observing-traffic (assert_failed a ∷ h) = ground (arith, observing-traffic h)
observing-traffic (callback response res last_block r ∷ h) = observing-traffic h
observing-traffic (callback rpc_response res last_block r ∷ h) = observing-traffic h
observing-traffic (callback fw_chunk res last_block r ∷ h) = observing-traffic h
observing-traffic (callback prov_resp res last_block r ∷ h) = observing-traffic h
observing-traffic (_ ∷ h) = observing-traffic h

pub Calm→Watched : (v w : World) → Calm v w → Watched v w
Calm→Watched v w c =
    (c.2, sym (observing-traffic w.history) ∙ ap observing (c.1) ∙ observing-traffic v.history)
