-- ===== src/Client/Api/Watching.antt =====
-- Without provisioning, the calls of the application keep track of the observation.
use thingsboard_sdk.Base.{
  ◌&&◌, Bool-cases, inl, inr, subst, zero, suc, ◌≡◌, ◌∙◌, refl, sym, ap, true, false, not, none,
  some, Option, arith,
}
use thingsboard_sdk.Types.{
  ReturnCode, Errno, ok, err, ThingsboardState, init, connecting, connected, suspended,
  disconnected, Configuration,
}
use thingsboard_sdk.Platform.{Env, k_mutex_init, coap_client_init}
use thingsboard_sdk.World.{World, pure, ◌>>=◌, when, emit, ask, modify_client}
use thingsboard_sdk.Requests.{lock, unlock}
use thingsboard_sdk.Requests.Frame.{Watched}
use thingsboard_sdk.Requests.Traffic.{Calm→Watched}
use thingsboard_sdk.TimeSync.{stop_time_sync}
use thingsboard_sdk.TimeSync.Frame.{stop_time_sync-Still}
use thingsboard_sdk.Socket.{socket_close, socket_connect}
use thingsboard_sdk.Socket.Frame.{socket_close-Calm, socket_connect-Calm}
use thingsboard_sdk.Attributes.{unsubscribe_attributes}
use thingsboard_sdk.Attributes.Tracked.{
  CancelFinds, IsTracked, Watched-IsTracked, unsubscribe_attributes-IsTracked,
}
use thingsboard_sdk.Suspend.{set_socket, socket_suspend, socket_resume}
use thingsboard_sdk.Suspend.Frame.{socket_suspend-Framed, socket_resume-Framed}
use thingsboard_sdk.Suspend.Owned.{is_disconnect}
use thingsboard_sdk.Suspend.Watching.{socket_suspend-IsTracked, socket_resume-IsTracked}
use thingsboard_sdk.Client.Start.Plugged.{is_passive}
use thingsboard_sdk.Client.Watching.{may_observe, IsWatching}
use thingsboard_sdk.Client.Start.Watching.{
  if-IsWatching, set_state-IsWatching, set_state-connecting,
}
use thingsboard_sdk.Client.Api.Initialize.{init-state, connect_first-same}
use thingsboard_sdk.Client.Api.{
  state_is_init, has_socket, is_valid_configuration, connect_first, open_socket, use_socket,
  connect_disconnected, connect_in, connect, disconnect_online, disconnect_in, disconnect, move_to,
  suspend_connected, suspend_in, suspend, resume_suspended, resume_in, resume, enter_disconnected,
  init_checked, initialize,
}

module _ (e : Env) (off : e.kconfig.use_provisioning ≡ false) (found : CancelFinds e) where
  use_socket-IsWatching :
      (res : ReturnCode) (w : World)
      → w.client.state ≡ disconnected
      → w.client.attributes_observation ≡ none
      → IsTracked w
      → IsWatching e (use_socket e res w).0
  unfolding use_socket unlock
  use_socket-IsWatching (err x) w d n t = set_state-IsWatching e disconnected w refl t (λ m. n)
  use_socket-IsWatching (ok s) w d n t = set_state-connecting e (set_socket (some s) w).0 off d n t

  connect_with-IsWatching :
      (c : Option Configuration) (w : World)
      → w.client.state ≡ disconnected
      → w.client.attributes_observation ≡ none
      → IsTracked w
      → IsWatching e (use_socket e (open_socket e c w).1 (open_socket e c w).0).0
  unfolding open_socket
  connect_with-IsWatching none w d n t = use_socket-IsWatching _ w d n t
  connect_with-IsWatching (some c) w d n t =
      let s = socket_connect e c w in
      let f = socket_connect-Calm e c w in
      let h = Calm→Watched w s.0 f in
      use_socket-IsWatching s.1 s.0 (f.0.0 ∙ d) (h.0 ∙ n) (Watched-IsTracked w s.0 h t)

  connect_in-IsWatching :
      (s : ThingsboardState) (w : World)
      → w.client.state ≡ s
      → IsWatching e w
      → IsWatching e (connect_in e s w).0
  unfolding connect_in connect_disconnected unlock
  connect_in-IsWatching connected w p h = h
  connect_in-IsWatching suspended w p h = h
  connect_in-IsWatching disconnected w p h =
      connect_with-IsWatching w.client.config w p
        (h.1 (ap (may_observe e.kconfig.socket_suspend) p)) (h.0)
  connect_in-IsWatching init w p h = h
  connect_in-IsWatching connecting w p h = h

  pub connect-IsWatching : (w : World) → IsWatching e w → IsWatching e (connect e w).0
  unfolding connect lock
  connect-IsWatching w h = connect_in-IsWatching w.client.state (lock w).0 refl h

  disconnect_online-IsWatching : (w : World) → IsTracked w → IsWatching e (disconnect_online e w).0
  unfolding disconnect_online unlock
  disconnect_online-IsWatching w t =
      let u = (unsubscribe_attributes e w).0 in
      let v = (when e.kconfig.time stop_time_sync u).0 in
      let c = (socket_close e v.client.server_socket v).0 in
      let (s, n) = unsubscribe_attributes-IsTracked e w found t in
      let g : Watched u v = ground (arith, (stop_time_sync-Still u).2) in
      let h = Calm→Watched v c (socket_close-Calm e v.client.server_socket v) in
      set_state-IsWatching e disconnected c refl
        (Watched-IsTracked v c h (Watched-IsTracked u v g s)) (λ m. h.0 ∙ g.0 ∙ n)

  disconnect_in-IsWatching :
      (s : ThingsboardState) (w : World) → IsWatching e w → IsWatching e (disconnect_in e s w).0
  unfolding disconnect_in unlock
  disconnect_in-IsWatching connected w h = disconnect_online-IsWatching w (h.0)
  disconnect_in-IsWatching suspended w h = disconnect_online-IsWatching w (h.0)
  disconnect_in-IsWatching disconnected w h = h
  disconnect_in-IsWatching init w h = h
  disconnect_in-IsWatching connecting w h = h

  pub disconnect-IsWatching : (w : World) → IsWatching e w → IsWatching e (disconnect e w).0
  unfolding disconnect lock
  disconnect-IsWatching w h = disconnect_in-IsWatching w.client.state (lock w).0 h

  move_to-IsWatching :
      (s : ThingsboardState) (res : ReturnCode) (w : World)
      → is_passive s ≡ true
      → IsTracked w
      → ((x : Errno)
          → res ≡ err x
          → may_observe e.kconfig.socket_suspend w.client.state ≡ false
          → w.client.attributes_observation ≡ none)
      → (may_observe e.kconfig.socket_suspend s ≡ false → w.client.attributes_observation ≡ none)
      → IsWatching e (move_to e s res w).0
  unfolding move_to unlock
  move_to-IsWatching s (err x) w p t n m = (t, n x refl)
  move_to-IsWatching s (ok k) w p t n m = set_state-IsWatching e s w p t m

  suspend_connected-IsWatching :
      (w : World)
      → w.client.state ≡ connected
      → IsWatching e w
      → IsWatching e (suspend_connected e w).0
  unfolding suspend_connected
  suspend_connected-IsWatching w p h =
      let s = socket_suspend e w in
      let (t, n) = socket_suspend-IsTracked e w found (h.0) in
      let c : s.0.client.state ≡ connected = (socket_suspend-Framed e w).0 ∙ p in
      move_to-IsWatching suspended s.1 s.0 refl t (λ x f m. let z = c in ground arith)
        (λ m. n (ground arith))

  suspend_in-IsWatching :
      (s : ThingsboardState) (w : World)
      → w.client.state ≡ s
      → IsWatching e w
      → IsWatching e (suspend_in e s w).0
  unfolding suspend_in unlock
  suspend_in-IsWatching connected w p h = suspend_connected-IsWatching w p h
  suspend_in-IsWatching suspended w p h = h
  suspend_in-IsWatching disconnected w p h = h
  suspend_in-IsWatching init w p h = h
  suspend_in-IsWatching connecting w p h = h

  pub suspend-IsWatching : (w : World) → IsWatching e w → IsWatching e (suspend e w).0
  unfolding suspend lock
  suspend-IsWatching w h = suspend_in-IsWatching w.client.state (lock w).0 refl h

  resume_suspended-IsWatching :
      (w : World)
      → w.client.state ≡ suspended
      → IsWatching e w
      → IsWatching e (resume_suspended e w).0
  unfolding resume_suspended
  resume_suspended-IsWatching w p h =
      let r = socket_resume e w in
      let n : is_disconnect e.kconfig.socket_suspend ≡ true
          → w.client.attributes_observation ≡ none =
        λ d. h.1 (ap (may_observe e.kconfig.socket_suspend) p ∙ ap not d) in
      let (t, x) = socket_resume-IsTracked e w n (h.0) in
      let c : r.0.client.state ≡ suspended = (socket_resume-Framed e w).0 ∙ p in
      move_to-IsWatching connected r.1 r.0 refl t (λ y f m. x y f (let z = c in ground arith))
        (λ m. cc)

  resume_in-IsWatching :
      (s : ThingsboardState) (w : World)
      → w.client.state ≡ s
      → IsWatching e w
      → IsWatching e (resume_in e s w).0
  unfolding resume_in unlock
  resume_in-IsWatching connected w p h = h
  resume_in-IsWatching suspended w p h = resume_suspended-IsWatching w p h
  resume_in-IsWatching disconnected w p h = h
  resume_in-IsWatching init w p h = h
  resume_in-IsWatching connecting w p h = h

  pub resume-IsWatching : (w : World) → IsWatching e w → IsWatching e (resume e w).0
  unfolding resume lock
  resume-IsWatching w h = resume_in-IsWatching w.client.state (lock w).0 refl h

  enter_disconnected-IsWatching :
      (res : ReturnCode) (w : World)
      → w.client.state ≡ init
      → IsWatching e w
      → IsWatching e (enter_disconnected e res w).0
  unfolding enter_disconnected
  enter_disconnected-IsWatching (err x) w p h = h
  enter_disconnected-IsWatching (ok (suc n)) w p h = h
  enter_disconnected-IsWatching (ok zero) w p h =
      let v = (modify_client (λ c. record c { state = disconnected }) w).0 in
      let c = connect e v in
      let g : IsWatching e v = (h.0, λ m. h.1 (ap (may_observe e.kconfig.socket_suspend) p)) in
      if-IsWatching e e.kconfig.connect_on_init (connect e >>= connect_first e) (pure (ok 0)) v
        (λ b. subst (IsWatching e) (sym (connect_first-same e c.1 c.0)) (connect-IsWatching v g))
        (λ b. g)

  init_checked-IsWatching :
      (c : Configuration) (w : World)
      → w.client.state ≡ init
      → IsWatching e w
      → IsWatching e (init_checked e c w).0
  unfolding init_checked
  init_checked-IsWatching c w p h =
      let v = (modify_client (λ d. record d { config = some c }) (emit k_mutex_init w).0).0 in
      let r = ask e.coap_init coap_client_init v in enter_disconnected-IsWatching r.1 r.0 p h

  pub initialize-IsWatching :
      (c : Option Configuration) (w : World) → IsWatching e w → IsWatching e (initialize e c w).0
  unfolding initialize
  initialize-IsWatching none w h =
      elim (Bool-cases (state_is_init w.client.state && not (has_socket w.client.server_socket))) [
        | inl p ↦ rw (p, initialize) h
        | inr p ↦ rw (p, initialize) h
      ]
  initialize-IsWatching (some c) w h =
      elim (Bool-cases (state_is_init w.client.state && not (has_socket w.client.server_socket))) [
        | inl p ↦ elim (Bool-cases (is_valid_configuration e.kconfig c)) [
          | inl q ↦
              rw (p, q, initialize)
                (init_checked-IsWatching c w (init-state w.client.state (ground arith)) h)
          | inr q ↦ rw (p, q, initialize) h
        ]
        | inr p ↦ rw (p, initialize) h
      ]
