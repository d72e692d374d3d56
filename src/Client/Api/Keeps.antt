-- ===== src/Client/Api/Keeps.antt =====
-- What the calls of the application keep: any relation that allows what passes no request, and the
-- functions that pass one.
use thingsboard_sdk.Base.{
  zero, suc, refl, Bool, Option, none, some, Bytes, Bool-cases, inl, inr, ◌==◌, arith,
}
use thingsboard_sdk.Types.{
  ReturnCode, ok, err, ThingsboardState, init, connecting, connected, suspended, disconnected,
  Configuration, FirmwareInfo,
}
use thingsboard_sdk.Platform.{Env, k_mutex_init, coap_client_init}
use thingsboard_sdk.World.{World, M, ◌>>=◌, pure, when, emit, ask, modify_client}
use thingsboard_sdk.World.Keeps.{Keeps, IsPreorder, if-Keeps, bind-Keeps}
use thingsboard_sdk.Requests.{lock, unlock, event}
use thingsboard_sdk.Requests.Traffic.{Quiet, Calm}
use thingsboard_sdk.TimeSync.{stop_time_sync}
use thingsboard_sdk.Fota.Start.{fota_init, fota_confirm_update}
use thingsboard_sdk.Socket.{socket_close, socket_connect}
use thingsboard_sdk.Socket.Frame.{socket_close-Calm, socket_connect-Calm}
use thingsboard_sdk.Provision.{make_provisioning_request}
use thingsboard_sdk.Attributes.{subscribe_attributes, unsubscribe_attributes}
use thingsboard_sdk.Suspend.{set_socket, socket_suspend, socket_resume}
use thingsboard_sdk.Suspend.Keeps.{socket_suspend-Keeps, socket_resume-Keeps}
use thingsboard_sdk.Client.Start.{
  state_number, handle_state, set_state_with, start_client, set_state, prov_callback,
}
use thingsboard_sdk.Client.Start.Keeps.{IsStartLaws, start_client-Keeps, prov_callback-Keeps}
use thingsboard_sdk.Client.Api.{
  open_socket, use_socket, connect_disconnected, connect_in, connect, disconnect_online,
  disconnect_in, disconnect, move_to, suspend_connected, suspend_in, suspend, resume_suspended,
  resume_in, resume, connect_first, enter_disconnected, init_checked, initialize,
}

pub record IsApiLaws (e : Env) (R : World → World → Type 0) : Type 0 where
  pub quiet : (v w : World) → Quiet v w → R v w
  pub transitive : (u v w : World) → R u v → R v w → R u w
  pub fota_init : (fw : FirmwareInfo) → Keeps R (fota_init e fw)
  pub fota_confirm_update : Keeps R (fota_confirm_update e)
  pub subscribe_attributes : Keeps R (subscribe_attributes e)
  pub unsubscribe_attributes : Keeps R (unsubscribe_attributes e)
  pub make_provisioning_request : (name : Bytes) → Keeps R (make_provisioning_request e name)

module _ {e : Env} {R : World → World → Type 0} (laws : IsApiLaws e R) where
  handle_state-Keeps :
      (start : M (Unit {0}))
      → Keeps R start
      → (s : ThingsboardState) → Keeps R (handle_state start s)
  unfolding handle_state event
  handle_state-Keeps start h init w = laws.quiet w (handle_state start init w).0 refl
  handle_state-Keeps start h connecting w = h w
  handle_state-Keeps start h connected w =
      laws.quiet w (handle_state start connected w).0 (ground arith)
  handle_state-Keeps start h suspended w =
      laws.quiet w (handle_state start suspended w).0 (ground arith)
  handle_state-Keeps start h disconnected w =
      laws.quiet w (handle_state start disconnected w).0 (ground arith)

  set_state_with-Keeps :
      (start : M (Unit {0}))
      → Keeps R start
      → (s : ThingsboardState) → Keeps R (set_state_with start s)
  unfolding set_state_with lock unlock
  set_state_with-Keeps start h s w =
      let v = (modify_client (λ c. record c { state = s }) (lock w).0).0 in
      let u = (handle_state start s v).0 in
      elim (Bool-cases (state_number s == state_number w.client.state)) [
        | inl p ↦ rw (p, set_state_with) (laws.quiet w (unlock (lock w).0).0 refl)
        | inr p ↦
            rw (p, set_state_with)
              (laws.transitive w u (unlock u).0
                (laws.transitive w v u (laws.quiet w v refl) (handle_state-Keeps start h s v))
                (laws.quiet u (unlock u).0 refl))
      ]

  pub api_start_laws : IsStartLaws e R
  api_start_laws = record {
    calm = λ v w c. laws.quiet v w (c.1);
    transitive = laws.transitive;
    set_state = λ start h s t. set_state_with-Keeps start h s;
    fota_init = laws.fota_init;
    fota_confirm_update = laws.fota_confirm_update;
    subscribe_attributes = laws.subscribe_attributes;
    make_provisioning_request = laws.make_provisioning_request;
  }

  calm : (v w : World) → Calm v w → R v w
  calm v w c = laws.quiet v w (c.1)

  pub prov_callback-Plain : (token : Bytes) → Keeps R (prov_callback e token)
  prov_callback-Plain token = prov_callback-Keeps api_start_laws token

  set_state-Keeps : (s : ThingsboardState) → Keeps R (set_state e s)
  unfolding set_state
  set_state-Keeps s =
      set_state_with-Keeps (start_client e 2) (start_client-Keeps api_start_laws 2) s

  -- Leaving a function that holds the lock, after a change of the state.
  set_state-unlock-Keeps : (s : ThingsboardState) (w : World) → R w (unlock (set_state e s w).0).0
  unfolding unlock
  set_state-unlock-Keeps s w =
      let v = (set_state e s w).0 in
      laws.transitive w v (unlock v).0 (set_state-Keeps s w) (laws.quiet v (unlock v).0 refl)

  refuse-Keeps : (w : World) → R w (unlock w).0
  unfolding unlock
  refuse-Keeps w = laws.quiet w (unlock w).0 refl

  after-lock : (w v : World) → R (lock w).0 v → R w v
  unfolding lock
  after-lock w v h = laws.transitive w (lock w).0 v (laws.quiet w (lock w).0 refl) h

  open_socket-Keeps : (c : Option Configuration) → Keeps R (open_socket e c)
  unfolding open_socket
  open_socket-Keeps none w = laws.quiet w w refl
  open_socket-Keeps (some c) w = calm w (socket_connect e c w).0 (socket_connect-Calm e c w)

  use_socket-Keeps : (res : ReturnCode) → Keeps R (use_socket e res)
  unfolding use_socket
  use_socket-Keeps (err x) w = set_state-unlock-Keeps disconnected w
  use_socket-Keeps (ok s) w =
      let v = (set_socket (some s) w).0 in
      laws.transitive w v (unlock (set_state e connecting v).0).0 (laws.quiet w v refl)
        (set_state-unlock-Keeps connecting v)

  connect_in-Keeps : (s : ThingsboardState) → Keeps R (connect_in e s)
  unfolding connect_in connect_disconnected
  connect_in-Keeps connected w = refuse-Keeps w
  connect_in-Keeps suspended w = refuse-Keeps w
  connect_in-Keeps disconnected w =
      let s = open_socket e w.client.config w in
      laws.transitive w s.0 (use_socket e s.1 s.0).0 (open_socket-Keeps w.client.config w)
        (use_socket-Keeps s.1 s.0)
  connect_in-Keeps init w = refuse-Keeps w
  connect_in-Keeps connecting w = refuse-Keeps w

  pub connect-Keeps : Keeps R (connect e)
  unfolding connect
  connect-Keeps w = after-lock w (connect e w).0 (connect_in-Keeps w.client.state (lock w).0)

  stop-Quiet : (b : Bool) (w : World) → Quiet w (when b stop_time_sync w).0
  unfolding stop_time_sync
  stop-Quiet b w = ground arith

  disconnect_online-Keeps : Keeps R (disconnect_online e)
  unfolding disconnect_online
  disconnect_online-Keeps w =
      let u = (unsubscribe_attributes e w).0 in
      let t = (when e.kconfig.time stop_time_sync u).0 in
      let c = (socket_close e t.client.server_socket t).0 in
      let d = (unlock (set_state e disconnected c).0).0 in
      laws.transitive w u d (laws.unsubscribe_attributes w) (
        laws.transitive u t d (laws.quiet u t (stop-Quiet e.kconfig.time u)) (
          laws.transitive t c d (calm t c (socket_close-Calm e t.client.server_socket t))
            (set_state-unlock-Keeps disconnected c)))

  disconnect_in-Keeps : (s : ThingsboardState) → Keeps R (disconnect_in e s)
  unfolding disconnect_in
  disconnect_in-Keeps connected w = disconnect_online-Keeps w
  disconnect_in-Keeps suspended w = disconnect_online-Keeps w
  disconnect_in-Keeps disconnected w = refuse-Keeps w
  disconnect_in-Keeps init w = refuse-Keeps w
  disconnect_in-Keeps connecting w = refuse-Keeps w

  pub disconnect-Keeps : Keeps R (disconnect e)
  unfolding disconnect
  disconnect-Keeps w =
      after-lock w (disconnect e w).0 (disconnect_in-Keeps w.client.state (lock w).0)

  move_to-Keeps : (s : ThingsboardState) (res : ReturnCode) → Keeps R (move_to e s res)
  unfolding move_to
  move_to-Keeps s (err x) w = refuse-Keeps w
  move_to-Keeps s (ok n) w = set_state-unlock-Keeps s w

  suspend_in-Keeps : (s : ThingsboardState) → Keeps R (suspend_in e s)
  unfolding suspend_in suspend_connected
  suspend_in-Keeps connected w =
      let s = socket_suspend e w in
      laws.transitive w s.0 (move_to e suspended s.1 s.0).0
        (socket_suspend-Keeps e R calm laws.transitive laws.unsubscribe_attributes w)
        (move_to-Keeps suspended s.1 s.0)
  suspend_in-Keeps suspended w = refuse-Keeps w
  suspend_in-Keeps disconnected w = refuse-Keeps w
  suspend_in-Keeps init w = refuse-Keeps w
  suspend_in-Keeps connecting w = refuse-Keeps w

  pub suspend-Keeps : Keeps R (suspend e)
  unfolding suspend
  suspend-Keeps w = after-lock w (suspend e w).0 (suspend_in-Keeps w.client.state (lock w).0)

  resume_in-Keeps : (s : ThingsboardState) → Keeps R (resume_in e s)
  unfolding resume_in resume_suspended
  resume_in-Keeps connected w = refuse-Keeps w
  resume_in-Keeps suspended w =
      let s = socket_resume e w in
      laws.transitive w s.0 (move_to e connected s.1 s.0).0
        (socket_resume-Keeps e R calm laws.transitive laws.subscribe_attributes w)
        (move_to-Keeps connected s.1 s.0)
  resume_in-Keeps disconnected w = refuse-Keeps w
  resume_in-Keeps init w = refuse-Keeps w
  resume_in-Keeps connecting w = refuse-Keeps w

  pub resume-Keeps : Keeps R (resume e)
  unfolding resume
  resume-Keeps w = after-lock w (resume e w).0 (resume_in-Keeps w.client.state (lock w).0)

  preorder : IsPreorder R
  preorder = record { reflexive = λ w. laws.quiet w w refl; transitive = laws.transitive }

  connect_first-Keeps : (res : ReturnCode) → Keeps R (connect_first e res)
  unfolding connect_first
  connect_first-Keeps (err x) w = laws.quiet w w refl
  connect_first-Keeps (ok n) w = laws.quiet w w refl

  enter_disconnected-Keeps : (res : ReturnCode) → Keeps R (enter_disconnected e res)
  unfolding enter_disconnected
  enter_disconnected-Keeps (err x) w = laws.quiet w w refl
  enter_disconnected-Keeps (ok (suc n)) w = laws.quiet w w refl
  enter_disconnected-Keeps (ok zero) w =
      let v = (modify_client (λ c. record c { state = disconnected }) w).0 in
      laws.transitive w v (enter_disconnected e (ok zero) w).0 (laws.quiet w v refl) (
        if-Keeps preorder e.kconfig.connect_on_init (connect e >>= connect_first e) (pure (ok 0))
          (bind-Keeps preorder (connect e) (connect_first e) connect-Keeps connect_first-Keeps)
          (λ u. laws.quiet u u refl) v)

  init_checked-Keeps : (c : Configuration) → Keeps R (init_checked e c)
  unfolding init_checked
  init_checked-Keeps c w =
      let v = (modify_client (λ d. record d { config = some c }) (emit k_mutex_init w).0).0 in
      let r = ask e.coap_init coap_client_init v in
      laws.transitive w r.0 (init_checked e c w).0 (laws.quiet w r.0 refl)
        (enter_disconnected-Keeps r.1 r.0)

  pub initialize-Keeps : (c : Option Configuration) → Keeps R (initialize e c)
  unfolding initialize
  initialize-Keeps none w = ground (arith, laws.quiet w w refl)
  initialize-Keeps (some c) w = ground (arith, laws.quiet w w refl, init_checked-Keeps c w)
