-- ===== src/Client/Start/Keeps.antt =====
-- What starting the client keeps: any relation that allows what the frame allows and the moves of
-- the client to its two final states.
use thingsboard_sdk.Base.{
  false, Bool, ℕ, zero, suc, ◌≡◌, refl, true, none, some, Option, Bytes, arith,
}
use thingsboard_sdk.Types.{
  ReturnCode, ok, err, ThingsboardState, connected, disconnected, provisioned,
}
use thingsboard_sdk.Platform.{Env}
use thingsboard_sdk.World.{World, M, ◌>>◌, when}
use thingsboard_sdk.World.Keeps.{IsPreorder, Keeps, if-Keeps, when-Keeps}
use thingsboard_sdk.Requests.{event}
use thingsboard_sdk.Requests.Frame.{depth, Framed}
use thingsboard_sdk.TimeSync.{start_time_sync}
use thingsboard_sdk.Fota.Start.{fota_init, fota_confirm_update}
use thingsboard_sdk.Fota.Start.Frame.{fota_init-Still, fota_confirm_update-Still}
use thingsboard_sdk.Socket.{socket_close}
use thingsboard_sdk.Socket.Frame.{socket_close-Calm}
use thingsboard_sdk.Provision.{make_provisioning_request, provision_device}
use thingsboard_sdk.Provision.Frame.{make_provisioning_request-Framed}
use thingsboard_sdk.Provision.Keeps.{provision_device-Keeps}
use thingsboard_sdk.Requests.Traffic.{Calm}
use thingsboard_sdk.Types.{FirmwareInfo}
use thingsboard_sdk.Attributes.{subscribe_attributes}
use thingsboard_sdk.Attributes.Frame.{subscribe_attributes-Steady}
use thingsboard_sdk.Client.Start.{
  set_state_with, device_name_of, firmware_of, set_token, prov_callback_with, start_fota,
  after_subscribe, go_online, after_provision, ask_token, obtain_token, start_with, start_client,
  prov_callback,
}

-- Where start_client may leave the client, but for CONNECTING.
abbrev pub is_final : ThingsboardState → Bool
is_final connected = true
is_final disconnected = true
is_final _ = false

-- `R` relates the state before to the state after.
pub record IsStartLaws (e : Env) (R : World → World → Type 0) : Type 0 where
  pub calm : (v w : World) → Calm v w → R v w
  pub transitive : (u v w : World) → R u v → R v w → R u w
  pub set_state :
      (start : M (Unit {0}))
      → Keeps R start
      → (s : ThingsboardState) → is_final s ≡ true
      → Keeps R (set_state_with start s)
  pub fota_init : (fw : FirmwareInfo) → Keeps R (fota_init e fw)
  pub fota_confirm_update : Keeps R (fota_confirm_update e)
  pub subscribe_attributes : Keeps R (subscribe_attributes e)
  pub make_provisioning_request : (name : Bytes) → Keeps R (make_provisioning_request e name)

-- A relation that allows all that the frame allows.
pub framed_laws :
    {R : World → World → Type 0} (e : Env)
    → ((v w : World) → Framed v w → R v w)
    → ((u v w : World) → R u v → R v w → R u w)
    → ((start : M (Unit {0}))
        → Keeps R start
        → (s : ThingsboardState) → is_final s ≡ true
        → Keeps R (set_state_with start s))
    → IsStartLaws e R
framed_laws e framed transitive set_state = record {
  calm = λ v w c. framed v w (c.0);
  transitive = transitive;
  set_state = set_state;
  fota_init = λ fw w. framed w (fota_init e fw w).0 ((fota_init-Still e fw w).0);
  fota_confirm_update =
      λ w. framed w (fota_confirm_update e w).0 ((fota_confirm_update-Still e w).0);
  subscribe_attributes =
      λ w. framed w (subscribe_attributes e w).0 ((subscribe_attributes-Steady e w).0);
  make_provisioning_request = λ name w.
      framed w (make_provisioning_request e name w).0 (make_provisioning_request-Framed e name w);
}

pub IsStartLaws-preorder : {e : Env} {R : World → World → Type 0} → IsStartLaws e R → IsPreorder R
IsStartLaws-preorder laws = record {
  reflexive = λ w. laws.calm w w ((refl, refl, refl, refl), refl, refl);
  transitive = laws.transitive;
}

start_time_sync-Calm : (b : Bool) → Keeps Calm (when b start_time_sync)
unfolding start_time_sync
start_time_sync-Calm b w = ground arith

told-Calm : (token : Bytes) (w : World) → Calm w (event provisioned (set_token token w).0).0
unfolding event
told-Calm token w = ground arith

module _ {R : World → World → Type 0} (e : Env) (laws : IsStartLaws e R) (start : M (Unit {0}))
    (started : Keeps R start) where
  prov_callback_with-Keeps : (token : Bytes) → Keeps R (prov_callback_with start token)
  unfolding prov_callback_with
  prov_callback_with-Keeps token w =
      let v = (event provisioned (set_token token w).0).0 in
      laws.transitive w v (start v).0 (laws.calm w v (told-Calm token w)) (started v)

  start_fota-Keeps : Keeps R (start_fota e)
  unfolding start_fota
  start_fota-Keeps w =
      let fw = firmware_of w.client.config in
      let v = (fota_init e fw w).0 in
      let u = (fota_confirm_update e v).0 in
      laws.transitive w v u (laws.fota_init fw w) (laws.fota_confirm_update v)

  after_subscribe-Keeps : (res : ReturnCode) → Keeps R (after_subscribe e start res)
  unfolding after_subscribe
  after_subscribe-Keeps (err x) w =
      let v = (socket_close e w.client.server_socket w).0 in
      laws.transitive w v (set_state_with start disconnected v).0
        (laws.calm w v (socket_close-Calm e w.client.server_socket w))
        (laws.set_state start started disconnected refl v)
  after_subscribe-Keeps (ok n) w =
      let v = (when e.kconfig.time start_time_sync w).0 in
      laws.transitive w v (set_state_with start connected v).0
        (laws.calm w v (start_time_sync-Calm e.kconfig.time w))
        (laws.set_state start started connected refl v)

  go_online-Keeps : Keeps R (go_online e start)
  unfolding go_online
  go_online-Keeps w =
      let v = (when e.kconfig.fota (start_fota e) w).0 in
      let s = subscribe_attributes e v in
      let u = (after_subscribe e start s.1 s.0).0 in
      laws.transitive w v u
        (when-Keeps (IsStartLaws-preorder laws) e.kconfig.fota (start_fota e) start_fota-Keeps w)
        (laws.transitive v s.0 u (laws.subscribe_attributes v) (after_subscribe-Keeps s.1 s.0))

  after_provision-Keeps : (res : ReturnCode) → Keeps R (after_provision e start res)
  unfolding after_provision
  after_provision-Keeps (err x) w = laws.set_state start started disconnected refl w
  after_provision-Keeps (ok n) w = laws.calm w w ((refl, refl, refl, refl), refl, refl)

  ask_token-Keeps : Keeps R (ask_token e start)
  unfolding ask_token
  ask_token-Keeps w =
      let name = device_name_of w.client.config in
      let p = provision_device e (prov_callback_with start) name w in
      laws.transitive w p.0 (after_provision e start p.1 p.0).0
        (provision_device-Keeps e (prov_callback_with start) R laws.calm laws.transitive
          laws.make_provisioning_request prov_callback_with-Keeps name w)
        (after_provision-Keeps p.1 p.0)

  set_token-Keeps : (token : Bytes) → Keeps R (set_token token)
  set_token-Keeps token w = laws.calm w (set_token token w).0 ((refl, refl, refl, refl), refl, refl)

  use_token-Keeps : Keeps R (do set_token e.kconfig.access_token; go_online e start)
  use_token-Keeps w =
      let v = (set_token e.kconfig.access_token w).0 in
      laws.transitive w v (go_online e start v).0 (set_token-Keeps e.kconfig.access_token w)
        (go_online-Keeps v)

  obtain_token-Keeps : Keeps R (obtain_token e start)
  unfolding obtain_token
  obtain_token-Keeps =
      if-Keeps (IsStartLaws-preorder laws) e.kconfig.use_provisioning (ask_token e start)
        (do set_token e.kconfig.access_token; go_online e start) ask_token-Keeps use_token-Keeps

  start_with-Keeps : (token : Option Bytes) → Keeps R (start_with e start token)
  unfolding start_with
  start_with-Keeps none =
      if-Keeps (IsStartLaws-preorder laws) e.kconfig.dtls (go_online e start) (obtain_token e start)
        go_online-Keeps obtain_token-Keeps
  start_with-Keeps (some token) = go_online-Keeps

module _ {R : World → World → Type 0} {e : Env} (laws : IsStartLaws e R) where
  pub start_client-Keeps : (depth : ℕ) → Keeps R (start_client e depth)
  unfolding start_client
  start_client-Keeps zero w = laws.calm w w ((refl, refl, refl, refl), refl, refl)
  start_client-Keeps (suc depth) w =
      start_with-Keeps e laws (start_client e depth) (start_client-Keeps depth)
        w.client.access_token w

  pub prov_callback-Keeps : (token : Bytes) → Keeps R (prov_callback e token)
  unfolding prov_callback
  prov_callback-Keeps token w =
      prov_callback_with-Keeps e laws (start_client e 2) (start_client-Keeps 2) token w
