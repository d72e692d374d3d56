-- ===== src/Requests/Sized.antt =====
-- Whether the requests that are handed to the CoAP client fit into the buffers of `struct
-- thingsboard_request` in src/tb_internal.h.
use thingsboard_sdk.Base.{
  some, ℕ, ◌+◌, ◌≡◌, ◌∙◌, sym, ap, refl, Bool, true, [], ◌∷◌, length, ltb, leb, ◌&&◌, if◌then◌else◌,
  arith,
}
use thingsboard_sdk.Types.{Kconfig, CoapRequest, Handler, fw_chunk, prov_resp}
use thingsboard_sdk.Platform.{assert_failed, History, coap_client_req}
use thingsboard_sdk.World.{World}
use thingsboard_sdk.Requests.{request_free}
use thingsboard_sdk.Requests.Traffic.{Quiet, traffic}

-- The path of an image's request stands in the buffer of the payload, that of the provisioning in
-- none.
abbrev pub path_fits : Kconfig → Handler → ℕ → Bool
path_fits k fw_chunk n = ltb n k.coap_client_message_size
path_fits k prov_resp n = true
path_fits k _ n = ltb n k.request_max_path_length

abbrev pub is_small : Kconfig → CoapRequest → Bool
is_small k q = path_fits k q.cb (length q.path) && leb (length q.payload) k.coap_client_message_size

-- How many requests were too long for their buffers.
abbrev pub oversized : Kconfig → History → ℕ
oversized k [] = 0
oversized k (coap_client_req q res ∷ h) = (if is_small k q then 0 else 1) + oversized k h
oversized k (_ ∷ h) = oversized k h

abbrev pub Sized : Kconfig → World → World → Type 0
Sized k v w = oversized k w.history ≡ oversized k v.history

oversized-traffic : (k : Kconfig) (h : History) → oversized k (traffic h) ≡ oversized k h
oversized-traffic k [] = refl
oversized-traffic k (coap_client_req q res ∷ h) = omega (arith, oversized-traffic k h)
oversized-traffic k (assert_failed a ∷ h) = ground (arith, oversized-traffic k h)
oversized-traffic k (_ ∷ h) = oversized-traffic k h

pub Quiet→Sized : (k : Kconfig) (v w : World) → Quiet v w → Sized k v w
Quiet→Sized k v w q =
    sym (oversized-traffic k w.history) ∙ ap (oversized k) q ∙ oversized-traffic k v.history

pub Sized-transitive : (k : Kconfig) (u v w : World) → Sized k u v → Sized k v w → Sized k u w
Sized-transitive k u v w p q = q ∙ p

pub freed-Sized : (k : Kconfig) (r : ℕ) (w : World) → Sized k w (request_free (some r) w).0
unfolding request_free
freed-Sized k r w = refl
