-- ===== src/Client/Start/Plugged.antt =====
-- Without provisioning, starting the client keeps its socket or closes it.
use thingsboard_sdk.Base.{
  Bytes, ◌∙◌, ℕ, ◌+◌, ◌≡◌, refl, Bool, true, false, Option, none, some, arith,
}
use thingsboard_sdk.Types.{
  ReturnCode, ok, err, ThingsboardState, init, connecting, connected, suspended, disconnected,
}
use thingsboard_sdk.Platform.{Env}
use thingsboard_sdk.World.{World, M, when}
use thingsboard_sdk.Requests.{lock, unlock, event}
use thingsboard_sdk.TimeSync.{start_time_sync}
use thingsboard_sdk.TimeSync.Frame.{start_time_sync-Still}
use thingsboard_sdk.Socket.{socket_close}
use thingsboard_sdk.Client.Plugged.{IsPlugged, Still-IsPlugged, Steady-IsPlugged}
use thingsboard_sdk.Requests.Frame.{sockets}
use thingsboard_sdk.Attributes.{subscribe_attributes}
use thingsboard_sdk.Attributes.Frame.{subscribe_attributes-Steady}
use thingsboard_sdk.Fota.Start.{fota_init}
use thingsboard_sdk.Fota.Start.Frame.{fota_init-Still, fota_confirm_update-Still}
use thingsboard_sdk.Client.Start.{
  modify_client, start_fota, firmware_of, go_online, set_token, obtain_token, start_with,
  start_client, set_state, handle_state, set_state_with, after_subscribe,
}
use thingsboard_sdk.Socket.Owned.{opened, closed, owns, socket_close-Owned}
use thingsboard_sdk.Requests.Frame.{sockets, Still}

-- The states that have no action of their own.
abbrev pub is_passive : ThingsboardState → Bool
is_passive init = false
is_passive connecting = false
is_passive _ = true

module _ (e : Env) (k : ℕ) where
  -- Such a state is entered, and the socket and the provisioning stay as they are.
  pub set_state_with-lem :
      (start : M (Unit {0})) (s : ThingsboardState) (w : World)
      → is_passive s ≡ true
      → ((set_state_with start s w).0.client.state ≡ s)
        × ((set_state_with start s w).0.client.server_socket ≡ w.client.server_socket)
        × ((set_state_with start s w).0.prov_cb ≡ w.prov_cb)
        × (sockets (set_state_with start s w).0.history ≡ sockets w.history)
  unfolding set_state_with handle_state event lock unlock
  set_state_with-lem start connected w h = ground arith
  set_state_with-lem start suspended w h = ground arith
  set_state_with-lem start disconnected w h = ground arith
  set_state_with-lem start init w h = cc
  set_state_with-lem start connecting w h = cc

  -- A connecting client has a socket that is counted.
  abbrev IsConnecting : World → Type 0
  IsConnecting w = (w.client.state ≡ connecting) × IsPlugged e k w

  after_subscribe-IsPlugged :
      (start : M (Unit {0})) (res : ReturnCode) (w : World)
      → IsConnecting w
      → IsPlugged e k (after_subscribe e start res w).0
  unfolding after_subscribe
  after_subscribe-IsPlugged start (err x) w h =
      let v = (socket_close e w.client.server_socket w).0 in
      ground (
        arith,
        socket_close-Owned e k w.client.server_socket w,
        set_state_with-lem start disconnected v,
      )
  after_subscribe-IsPlugged start (ok n) w h =
      let v = (when e.kconfig.time start_time_sync w).0 in
      ground (arith, start_time_sync-Still w, set_state_with-lem start connected v)

  pub start_fota-Still : (w : World) → Still w (start_fota e w).0
  unfolding start_fota
  start_fota-Still w =
      let fw = firmware_of w.client.config in
      ground (arith, fota_init-Still e fw w, fota_confirm_update-Still e (fota_init e fw w).0)

  go_online-IsPlugged :
      (start : M (Unit {0})) (w : World) → IsConnecting w → IsPlugged e k (go_online e start w).0
  unfolding go_online
  go_online-IsPlugged start w h =
      let v = (when e.kconfig.fota (start_fota e) w).0 in
      let f : Still w v = ground (arith, start_fota-Still w) in
      let s = subscribe_attributes e v in
      let g = subscribe_attributes-Steady e v in
      after_subscribe-IsPlugged start s.1 s.0
        (g.0.0 ∙ (f.0.0 ∙ h.0), Steady-IsPlugged e k v s.0 g (Still-IsPlugged e k w v f (h.1)))

  start_with-IsPlugged :
      (start : M (Unit {0})) (token : Option Bytes) (w : World)
      → e.kconfig.use_provisioning ≡ false
      → IsConnecting w
      → IsPlugged e k (start_with e start token w).0
  unfolding start_with obtain_token
  start_with-IsPlugged start none w off h = ground (
    arith,
    go_online-IsPlugged start w h,
    go_online-IsPlugged start (set_token e.kconfig.access_token w).0 h,
  )
  start_with-IsPlugged start (some token) w off h = go_online-IsPlugged start w h

  -- A socket was just opened for a client that is disconnected.
  pub set_state-connecting :
      (w : World)
      → e.kconfig.use_provisioning ≡ false
      → w.client.state ≡ disconnected
      → opened k w.history ≡ closed k w.history + owns k w.client.server_socket
      → w.prov_cb ≡ false
      → IsPlugged e k (set_state e connecting w).0
  unfolding set_state set_state_with handle_state start_client lock unlock
  set_state-connecting w off d o p =
      let v = (modify_client (λ c. record c { state = connecting }) (lock w).0).0 in
      ground (
        arith,
        start_with-IsPlugged (start_client e 1) v.client.access_token v off
            (refl, (o, p, λ t. ground arith)),
      )

  pub set_state-passive :
      (s : ThingsboardState) (w : World)
      → is_passive s ≡ true
      → ((set_state e s w).0.client.state ≡ s)
        × ((set_state e s w).0.client.server_socket ≡ w.client.server_socket)
        × ((set_state e s w).0.prov_cb ≡ w.prov_cb)
        × (sockets (set_state e s w).0.history ≡ sockets w.history)
  unfolding set_state
  set_state-passive s w h = set_state_with-lem (start_client e 2) s w h
