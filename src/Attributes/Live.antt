-- ===== src/Attributes/Live.antt =====
-- Where there are blocks and the CoAP client takes requests, the attributes are observed.
use thingsboard_sdk.Base.{
  sym, subst, ℕ, ◌≡◌, false, Option, Option-cases, some, inl, inr, [], ◌∷◌, Bytes, ascii,
  if◌then◌else◌, arith, not,
}
use thingsboard_sdk.Types.{ok, observe, CoapRequest}
use thingsboard_sdk.Platform.{Env, History, assert_failed, observation_is_null}
use thingsboard_sdk.World.{World, when, emit, modify_request}
use thingsboard_sdk.CatPath.{cat_path, api_path}
use thingsboard_sdk.Requests.{request_alloc, send_coap, after_alloc}
use thingsboard_sdk.Fota.{is_err}
use thingsboard_sdk.Attributes.{
  set_observation, is_null, observe_request, post_observe, prepare_observe, subscribe_attributes,
}

-- The slab has a block, and the CoAP client takes each request.
pub record RequestsWork (e : Env) : Type 0 where
  pub alloc : (h : History) → is_null (e.mem_slab_alloc h) ≡ false
  pub coap_req : (h : History) (q : CoapRequest) → is_err (e.coap_req h q) ≡ false

-- The path of the attributes fits into its buffer, with this token.
abbrev pub HasPath : Env → Option Bytes → Type 0
HasPath e token =
    (p : Bytes) × (cat_path
        (if e.kconfig.dtls
          then some (ascii "api") ∷ some (ascii "v1") ∷ some (ascii "attributes") ∷ []
          else some (ascii "api") ∷ some (ascii "v1") ∷ token ∷ some (ascii "attributes") ∷ [])
        e.kconfig.request_max_path_length
      ≡ ok p)

module _ (e : Env) (works : RequestsWork e) where
  post_observe-ok : (r : ℕ) (w : World) → is_err (post_observe e r w).1 ≡ false
  unfolding post_observe send_coap observe_request
  post_observe-ok r w = ground (arith, works.coap_req w.history (observe_request e r w))

  prepare_observe-ok :
      (r : ℕ) (w : World)
      → HasPath e w.client.access_token
      → is_err (prepare_observe e r w).1 ≡ false
  unfolding prepare_observe api_path
  prepare_observe-ok r w (p, q) =
      rw (q, prepare_observe)
        (post_observe-ok r
          (modify_request r (λ z. record z { path = p; options = observe ∷ [] }) w).0)

  pub subscribe_attributes-ok :
      (w : World) → HasPath e w.client.access_token → is_err (subscribe_attributes e w).1 ≡ false
  unfolding subscribe_attributes request_alloc
  subscribe_attributes-ok w h =
      let v =
        (when (not (is_null w.client.attributes_observation))
          (emit (assert_failed observation_is_null)) w).0 in
      let t : v.client.access_token ≡ w.client.access_token = ground arith in
      elim (Option-cases (e.mem_slab_alloc v.history)) [
        | inl p ↦ (let z = works.alloc v.history in ground (arith, p, z))
        | inr (r, p) ↦
            rw (p, subscribe_attributes, request_alloc)
              (prepare_observe-ok r (set_observation (some r) (after_alloc r v)).0
                (subst (HasPath e) (sym t) h))
      ]
