-- ===== src/Client/Start/Live.antt =====
-- Where all works, a client that has a token is started.
use thingsboard_sdk.Base.{
  Bytes, ◌≡◌, refl, sym, subst, true, false, Bool, Option, none, some, if◌then◌else◌, arith,
}
use thingsboard_sdk.Types.{ReturnCode, ok, err, connecting, connected, disconnected}
use thingsboard_sdk.Platform.{Env}
use thingsboard_sdk.World.{World, M, ◌>>◌, when, modify_client}
use thingsboard_sdk.Requests.{lock, unlock}
use thingsboard_sdk.Fota.{is_err}
use thingsboard_sdk.TimeSync.{start_time_sync}
use thingsboard_sdk.Attributes.{subscribe_attributes}
use thingsboard_sdk.Attributes.Live.{RequestsWork, HasPath, subscribe_attributes-ok}
use thingsboard_sdk.Client.Start.{
  start_fota, ask_token, go_online, set_token, obtain_token, start_with, start_client, set_state,
  handle_state, set_state_with, after_subscribe,
}
use thingsboard_sdk.Client.Start.Plugged.{set_state_with-lem, start_fota-Still}

-- The token that the client starts with.
abbrev pub token_of : Env → Option Bytes → Option Bytes
token_of e none = some e.kconfig.access_token
token_of e (some token) = some token

module _ (e : Env) where
  after_subscribe-connected :
      (start : M (Unit {0})) (res : ReturnCode) (w : World)
      → is_err res ≡ false
      → (after_subscribe e start res w).0.client.state ≡ connected
  unfolding after_subscribe
  after_subscribe-connected start (err x) w h = ground arith
  after_subscribe-connected start (ok n) w h =
      (set_state_with-lem e 0 start connected (when e.kconfig.time start_time_sync w).0 refl).0

module _ (e : Env) (works : RequestsWork e) where
  go_online-connected :
      (start : M (Unit {0})) (w : World)
      → HasPath e w.client.access_token
      → (go_online e start w).0.client.state ≡ connected
  unfolding go_online
  go_online-connected start w h =
      let v = (when e.kconfig.fota (start_fota e) w).0 in
      let t : v.client.access_token ≡ w.client.access_token =
        ground (arith, (start_fota-Still e 0 w).1) in
      let s = subscribe_attributes e v in
      after_subscribe-connected e start s.1 s.0
        (subscribe_attributes-ok e works v (subst (HasPath e) (sym t) h))

  if-connected :
      (b : Bool) (m n : M (Unit {0})) (w : World)
      → (b ≡ true → (m w).0.client.state ≡ connected)
      → (b ≡ false → (n w).0.client.state ≡ connected)
      → ((if b then m else n) w).0.client.state ≡ connected
  if-connected true m n w h k = h refl
  if-connected false m n w h k = k refl

  HasPath-dtls : (s t : Option Bytes) → e.kconfig.dtls ≡ true → HasPath e s → HasPath e t
  HasPath-dtls s t d (p, h) = (p, ground (arith, d, h))

  start_with-connected :
      (start : M (Unit {0})) (token : Option Bytes) (w : World)
      → w.client.access_token ≡ token
      → e.kconfig.use_provisioning ≡ false
      → HasPath e (token_of e token)
      → (start_with e start token w).0.client.state ≡ connected
  unfolding start_with obtain_token
  start_with-connected start (some token) w t off h =
      go_online-connected start w (subst (HasPath e) (sym t) h)
  start_with-connected start none w t off h =
      if-connected e.kconfig.dtls (go_online e start) (obtain_token e start) w
        (λ d.
          go_online-connected start w
            (HasPath-dtls (some e.kconfig.access_token) w.client.access_token d h))
        (λ d.
          if-connected e.kconfig.use_provisioning (ask_token e start)
            (do set_token e.kconfig.access_token; go_online e start) w (λ q. cc)
            (λ q. go_online-connected start (set_token e.kconfig.access_token w).0 h))

  pub set_state-connected :
      (w : World)
      → w.client.state ≡ disconnected
      → e.kconfig.use_provisioning ≡ false
      → HasPath e (token_of e w.client.access_token)
      → (set_state e connecting w).0.client.state ≡ connected
  unfolding set_state set_state_with handle_state start_client lock unlock
  set_state-connected w d off h =
      let v = (modify_client (λ c. record c { state = connecting }) (lock w).0).0 in
      rw (d, set_state, set_state_with)
        (start_with-connected (start_client e 1) v.client.access_token v refl off h)
