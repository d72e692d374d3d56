-- ===== src/Client/Start/Depth.antt =====
-- Two calls of start_client within one another are the most there are.
use thingsboard_sdk.Base.{
  ℕ, suc, ◌≡◌, refl, Bytes, Option, none, some, ap, sym, ◌∙◌, if◌then◌else◌, arith,
}
use thingsboard_sdk.Types.{ReturnCode, ok, err, provisioned}
use thingsboard_sdk.Platform.{Env}
use thingsboard_sdk.World.{World, M, ◌>>◌, when}
use thingsboard_sdk.Requests.{event}
use thingsboard_sdk.Provision.{provision_device}
use thingsboard_sdk.Attributes.{subscribe_attributes}
use thingsboard_sdk.Client.Start.{
  handle_state, set_state_with, device_name_of, start_fota, set_token, prov_callback_with,
  after_subscribe, go_online, after_provision, ask_token, obtain_token, start_with, start_client,
}

module _ (e : Env) (s t : M (Unit {0})) where
  after_subscribe-same : (res : ReturnCode) → after_subscribe e s res ≡ after_subscribe e t res
  unfolding after_subscribe set_state_with handle_state
  after_subscribe-same (err x) = refl
  after_subscribe-same (ok n) = refl

  go_online-same : go_online e s ≡ go_online e t
  unfolding go_online
  go_online-same i w =
      let r = subscribe_attributes e (when e.kconfig.fota (start_fota e) w).0 in
      after_subscribe-same r.1 i r.0

  after_provision-same : (res : ReturnCode) → after_provision e s res ≡ after_provision e t res
  unfolding after_provision set_state_with handle_state
  after_provision-same (err x) = refl
  after_provision-same (ok n) = refl

event-token : (w : World) → (event provisioned w).0.client.access_token ≡ w.client.access_token
unfolding event
event-token w = ground arith

start_client-zero :
    (e : Env) (w : World) (token : Bytes)
    → w.client.access_token ≡ some token
    → start_client e 1 w ≡ go_online e (start_client e 0) w
unfolding start_client start_with
start_client-zero e w token h = ap (λ o. start_with e (start_client e 0) o w) h

module _ (e : Env) (n : ℕ) where
  start_client-online :
      (w : World) (token : Bytes)
      → w.client.access_token ≡ some token
      → start_client e (suc n) w ≡ go_online e (start_client e n) w
  unfolding start_client start_with
  start_client-online w token h = ap (λ o. start_with e (start_client e n) o w) h

  prov_callback-same :
      (token : Bytes)
      → prov_callback_with (start_client e (suc n)) token
        ≡ prov_callback_with (start_client e 1) token
  unfolding prov_callback_with
  prov_callback-same token i w =
      let v = (event provisioned (set_token token w).0).0 in
      let h = event-token (set_token token w).0 in
      (start_client-online v token h
          ∙ ap (λ f. f v) (go_online-same e (start_client e n) (start_client e 0))
          ∙ sym (start_client-zero e v token h))
        i

  ask_token-same : ask_token e (start_client e (suc n)) ≡ ask_token e (start_client e 1)
  unfolding ask_token
  ask_token-same i w =
      let name = device_name_of w.client.config in
      let p = provision_device e (λ token. prov_callback-same token i) name w in
      after_provision-same e (start_client e (suc n)) (start_client e 1) p.1 i p.0

  go_online-suc : go_online e (start_client e (suc n)) ≡ go_online e (start_client e 1)
  go_online-suc = go_online-same e (start_client e (suc n)) (start_client e 1)

  obtain_token-same : obtain_token e (start_client e (suc n)) ≡ obtain_token e (start_client e 1)
  unfolding obtain_token
  obtain_token-same i w =
      (if e.kconfig.use_provisioning
          then ask_token-same i
          else (do set_token e.kconfig.access_token; go_online-suc i))
        w

  start_with-same :
      (token : Option Bytes)
      → start_with e (start_client e (suc n)) token ≡ start_with e (start_client e 1) token
  unfolding start_with
  start_with-same none i w = (if e.kconfig.dtls then go_online-suc i else obtain_token-same i) w
  start_with-same (some token) i w = go_online-suc i w

-- `start_client` calls itself only from the callback of the provisioning, which has set a token,
-- and then no further: to allow it any more calls than two within one another changes nothing.
pub start_client-depth :
    (e : Env) (n : ℕ) (w : World) → start_client e (suc (suc n)) w ≡ start_client e 2 w
unfolding start_client
start_client-depth e n w i = start_with-same e n w.client.access_token i w
