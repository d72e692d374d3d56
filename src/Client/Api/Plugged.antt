-- ===== src/Client/Api/Plugged.antt =====
-- Without provisioning, the calls of the application keep count of the sockets.
use thingsboard_sdk.Base.{
  ◌⊎◌, ℕ, zero, suc, ◌&&◌, ◌+◌, ◌≡◌, refl, ◌∙◌, true, false, none, some, Option, inl, inr, arith,
}
use thingsboard_sdk.Types.{
  ReturnCode, Errno, ok, err, ThingsboardState, init, connecting, connected, suspended,
  disconnected, Configuration,
}
use thingsboard_sdk.Platform.{Env, k_mutex_init, coap_client_init}
use thingsboard_sdk.World.{World, when, emit, ask, modify_client}
use thingsboard_sdk.Requests.{lock, unlock}
use thingsboard_sdk.Requests.Frame.{Still}
use thingsboard_sdk.TimeSync.{stop_time_sync}
use thingsboard_sdk.TimeSync.Frame.{stop_time_sync-Still}
use thingsboard_sdk.Socket.{socket_close}
use thingsboard_sdk.Socket.Owned.{
  opened, closed, owns, socket_of, Owned, socket_connect-Owned, socket_close-Owned,
}
use thingsboard_sdk.Attributes.{unsubscribe_attributes}
use thingsboard_sdk.Attributes.Frame.{unsubscribe_attributes-Steady}
use thingsboard_sdk.Suspend.{set_socket, socket_suspend, socket_resume}
use thingsboard_sdk.Suspend.Owned.{is_disconnect, socket_suspend-Counted, socket_resume-Resumed}
use thingsboard_sdk.Client.Plugged.{is_suspended, IsPlugged}
use thingsboard_sdk.Client.Start.Plugged.{set_state-connecting, set_state-passive}
use thingsboard_sdk.Client.Api.Initialize.{init-state, connect_first-same}
use thingsboard_sdk.Client.Api.{
  open_socket, use_socket, connect_disconnected, connect_in, connect, disconnect_online,
  disconnect_in, disconnect, move_to, suspend_connected, suspend_in, suspend, resume_suspended,
  resume_in, resume, enter_disconnected, init_checked, initialize,
}

module _ (e : Env) (off : e.kconfig.use_provisioning ≡ false) (k : ℕ) where
  open_socket-Owned : (c : Option Configuration) (w : World) → Owned k 0 w (open_socket e c w)
  unfolding open_socket
  open_socket-Owned none w = ground arith
  open_socket-Owned (some c) w = socket_connect-Owned e k c w

  use_socket-IsPlugged :
      (res : ReturnCode) (w : World)
      → w.client.state ≡ disconnected
      → w.prov_cb ≡ false
      → opened k w.history ≡ closed k w.history + owns k (socket_of res)
      → IsPlugged e k (use_socket e res w).0
  unfolding use_socket unlock
  use_socket-IsPlugged (err x) w d p o = ground (arith, set_state-passive e k disconnected w)
  use_socket-IsPlugged (ok s) w d p o = set_state-connecting e k (set_socket (some s) w).0 off d o p

  connect_in-IsPlugged :
      (s : ThingsboardState) (w : World)
      → w.client.state ≡ s
      → IsPlugged e k w
      → IsPlugged e k (connect_in e s w).0
  unfolding connect_in connect_disconnected unlock
  connect_in-IsPlugged connected w p h = h
  connect_in-IsPlugged suspended w p h = h
  connect_in-IsPlugged disconnected w p h =
      let s = open_socket e w.client.config w in
      let o = open_socket-Owned w.client.config w in ground (arith, o, use_socket-IsPlugged s.1 s.0)
  connect_in-IsPlugged init w p h = h
  connect_in-IsPlugged connecting w p h = h

  pub connect-IsPlugged : (w : World) → IsPlugged e k w → IsPlugged e k (connect e w).0
  unfolding connect lock
  connect-IsPlugged w h = connect_in-IsPlugged w.client.state (lock w).0 refl h

  -- The client was online, with or without a socket.
  disconnect_online-IsPlugged :
      (w : World)
      → opened k w.history ≡ closed k w.history + owns k w.client.server_socket
      → w.prov_cb ≡ false
      → IsPlugged e k (disconnect_online e w).0
  unfolding disconnect_online unlock
  disconnect_online-IsPlugged w o p =
      let u = (unsubscribe_attributes e w).0 in
      let t = (when e.kconfig.time stop_time_sync u).0 in
      let c = (socket_close e t.client.server_socket t).0 in
      let f = unsubscribe_attributes-Steady e w in
      let g : Still u t = ground (arith, stop_time_sync-Still u) in
      let x = socket_close-Owned e k t.client.server_socket t in
      let y = set_state-passive e k disconnected c refl in ground (arith, f, g, x, y)

  disconnect_in-IsPlugged :
      (s : ThingsboardState) (w : World)
      → w.client.state ≡ s
      → IsPlugged e k w
      → IsPlugged e k (disconnect_in e s w).0
  unfolding disconnect_in unlock
  disconnect_in-IsPlugged connected w p h = ground (arith, disconnect_online-IsPlugged w)
  disconnect_in-IsPlugged suspended w p h = ground (arith, disconnect_online-IsPlugged w)
  disconnect_in-IsPlugged disconnected w p h = h
  disconnect_in-IsPlugged init w p h = h
  disconnect_in-IsPlugged connecting w p h = h

  pub disconnect-IsPlugged : (w : World) → IsPlugged e k w → IsPlugged e k (disconnect e w).0
  unfolding disconnect lock
  disconnect-IsPlugged w h = disconnect_in-IsPlugged w.client.state (lock w).0 refl h

  -- The client was online and its socket is counted.
  move_to-IsPlugged :
      (s : ThingsboardState) (res : ReturnCode) (w : World)
      → (w.client.state ≡ connected) ⊎ (w.client.state ≡ suspended)
      → (s ≡ connected) ⊎ (s ≡ suspended)
      → opened k w.history ≡ closed k w.history + owns k w.client.server_socket
      → w.prov_cb ≡ false
      → ((x : Errno)
          → res ≡ err x
          → (is_suspended w.client.state && is_disconnect e.kconfig.socket_suspend ≡ true)
          → w.client.server_socket ≡ none)
      → (is_suspended s && is_disconnect e.kconfig.socket_suspend ≡ true
          → w.client.server_socket ≡ none)
      → IsPlugged e k (move_to e s res w).0
  unfolding move_to unlock
  move_to-IsPlugged s (err x) w p q o c t n = ground (arith, t x refl)
  move_to-IsPlugged s (ok m) w p q o c t n =
      ground (arith, set_state-passive e k connected w refl, set_state-passive e k suspended w refl)

  suspend_connected-IsPlugged :
      (w : World)
      → w.client.state ≡ connected
      → IsPlugged e k w
      → IsPlugged e k (suspend_connected e w).0
  unfolding suspend_connected
  suspend_connected-IsPlugged w p h =
      let s = socket_suspend e w in
      let c = socket_suspend-Counted e k w (ground arith) in
      move_to-IsPlugged suspended s.1 s.0 (inl (c.0.0 ∙ p)) (inr refl) (c.0.2) (c.0.1 ∙ h.1)
        (λ x r. let q = c.0.0 ∙ p in ground arith) (λ t. c.1 t)

  suspend_in-IsPlugged :
      (s : ThingsboardState) (w : World)
      → w.client.state ≡ s
      → IsPlugged e k w
      → IsPlugged e k (suspend_in e s w).0
  unfolding suspend_in unlock
  suspend_in-IsPlugged connected w p h = suspend_connected-IsPlugged w p h
  suspend_in-IsPlugged suspended w p h = h
  suspend_in-IsPlugged disconnected w p h = h
  suspend_in-IsPlugged init w p h = h
  suspend_in-IsPlugged connecting w p h = h

  pub suspend-IsPlugged : (w : World) → IsPlugged e k w → IsPlugged e k (suspend e w).0
  unfolding suspend lock
  suspend-IsPlugged w h = suspend_in-IsPlugged w.client.state (lock w).0 refl h

  resume_suspended-IsPlugged :
      (w : World)
      → w.client.state ≡ suspended
      → IsPlugged e k w
      → IsPlugged e k (resume_suspended e w).0
  unfolding resume_suspended
  resume_suspended-IsPlugged w p h =
      let r = socket_resume e w in
      let c = socket_resume-Resumed e k w (λ t. ground arith) (ground arith) in
      move_to-IsPlugged connected r.1 r.0 (inr (c.0.0 ∙ p)) (inl refl) (c.0.2) (c.0.1 ∙ h.1)
        (λ x f t. elim ((c.1 (let q = c.0.0 ∙ p in ground arith)).1) [
          | inl (n, g) ↦ ground arith
          | inr (y, g, n) ↦ n
        ])
        (λ t. cc)

  resume_in-IsPlugged :
      (s : ThingsboardState) (w : World)
      → w.client.state ≡ s
      → IsPlugged e k w
      → IsPlugged e k (resume_in e s w).0
  unfolding resume_in unlock
  resume_in-IsPlugged connected w p h = h
  resume_in-IsPlugged suspended w p h = resume_suspended-IsPlugged w p h
  resume_in-IsPlugged disconnected w p h = h
  resume_in-IsPlugged init w p h = h
  resume_in-IsPlugged connecting w p h = h

  pub resume-IsPlugged : (w : World) → IsPlugged e k w → IsPlugged e k (resume e w).0
  unfolding resume lock
  resume-IsPlugged w h = resume_in-IsPlugged w.client.state (lock w).0 refl h

  enter_disconnected-IsPlugged :
      (res : ReturnCode) (w : World)
      → w.client.state ≡ init
      → IsPlugged e k w
      → IsPlugged e k (enter_disconnected e res w).0
  unfolding enter_disconnected
  enter_disconnected-IsPlugged (err x) w p h = h
  enter_disconnected-IsPlugged (ok (suc n)) w p h = h
  enter_disconnected-IsPlugged (ok zero) w p h =
      let v = (modify_client (λ c. record c { state = disconnected }) w).0 in
      let c = connect e v in
      let g : IsPlugged e k v = ground arith in
      ground (arith, connect_first-same e c.1 c.0, connect-IsPlugged v g)

  init_checked-IsPlugged :
      (c : Configuration) (w : World)
      → w.client.state ≡ init
      → IsPlugged e k w
      → IsPlugged e k (init_checked e c w).0
  unfolding init_checked
  init_checked-IsPlugged c w p h =
      let v = (modify_client (λ d. record d { config = some c }) (emit k_mutex_init w).0).0 in
      let r = ask e.coap_init coap_client_init v in enter_disconnected-IsPlugged r.1 r.0 p h

  pub initialize-IsPlugged :
      (c : Option Configuration) (w : World) → IsPlugged e k w → IsPlugged e k (initialize e c w).0
  unfolding initialize
  initialize-IsPlugged none w h = ground arith
  initialize-IsPlugged (some c) w h =
      ground (arith, init-state w.client.state, init_checked-IsPlugged c w)
