-- ===== src/Client/Api/Settled.antt =====
-- The calls of the application leave the lock as it was, and tell it of the client's state.
use thingsboard_sdk.Base.{◌≡◌, refl, true, none, some, Option, inl, arith}
use thingsboard_sdk.Types.{
  ReturnCode, ok, err, ThingsboardState, init, connecting, connected, suspended, disconnected,
  Configuration,
}
use thingsboard_sdk.Platform.{Env}
use thingsboard_sdk.World.{World, when}
use thingsboard_sdk.World.Keeps.{Keeps}
use thingsboard_sdk.Requests.{lock, unlock}
use thingsboard_sdk.TimeSync.{stop_time_sync}
use thingsboard_sdk.TimeSync.Frame.{stop_time_sync-Still}
use thingsboard_sdk.Socket.{socket_close, socket_connect}
use thingsboard_sdk.Socket.Frame.{socket_close-Calm, socket_connect-Calm}
use thingsboard_sdk.Attributes.{unsubscribe_attributes}
use thingsboard_sdk.Attributes.Frame.{unsubscribe_attributes-Steady}
use thingsboard_sdk.Suspend.{set_socket, socket_suspend, socket_resume}
use thingsboard_sdk.Suspend.Frame.{socket_suspend-Framed, socket_resume-Framed}
use thingsboard_sdk.Client.Start.{set_state}
use thingsboard_sdk.Client.Settled.{
  is_target, Settled, Released, Framed→Settled, Settled-then, unlock-Released, Settled-Released,
  lock-Released,
}
use thingsboard_sdk.Client.Start.Settled.{set_state-Settled}
use thingsboard_sdk.Client.Api.{
  open_socket, use_socket, connect_disconnected, connect_in, connect, disconnect_online,
  disconnect_in, disconnect, move_to, suspend_connected, suspend_in, suspend, resume_suspended,
  resume_in, resume,
}

refuse-Released : (w : World) → Released w (unlock w).0
refuse-Released w = unlock-Released w w (refl, refl, inl (refl, refl))

module _ (e : Env) where
  open_socket-Settled : (c : Option Configuration) → Keeps Settled (open_socket e c)
  unfolding open_socket
  open_socket-Settled none w = (refl, refl, inl (refl, refl))
  open_socket-Settled (some c) w =
      Framed→Settled w (socket_connect e c w).0 ((socket_connect-Calm e c w).0)

  use_socket-Released : (res : ReturnCode) → Keeps Released (use_socket e res)
  unfolding use_socket
  use_socket-Released (err x) w =
      unlock-Released w (set_state e disconnected w).0 (set_state-Settled e disconnected refl w)
  use_socket-Released (ok s) w =
      let v = (set_socket (some s) w).0 in
      Settled-Released w v (unlock (set_state e connecting v).0).0 (refl, refl, inl (refl, refl))
        (unlock-Released v (set_state e connecting v).0 (set_state-Settled e connecting refl v))

  connect_disconnected-Released : Keeps Released (connect_disconnected e)
  unfolding connect_disconnected
  connect_disconnected-Released w =
      let s = open_socket e w.client.config w in
      Settled-Released w s.0 (use_socket e s.1 s.0).0 (open_socket-Settled w.client.config w)
        (use_socket-Released s.1 s.0)

  connect_in-Released : (s : ThingsboardState) → Keeps Released (connect_in e s)
  unfolding connect_in
  connect_in-Released connected w = refuse-Released w
  connect_in-Released suspended w = refuse-Released w
  connect_in-Released disconnected w = connect_disconnected-Released w
  connect_in-Released init w = refuse-Released w
  connect_in-Released connecting w = refuse-Released w

  pub connect-Settled : Keeps Settled (connect e)
  unfolding connect
  connect-Settled w =
      let v = (lock w).0 in
      lock-Released w (connect_in e w.client.state v).0 (connect_in-Released w.client.state v)

  disconnect_online-Released : Keeps Released (disconnect_online e)
  unfolding disconnect_online
  disconnect_online-Released w =
      let u = (unsubscribe_attributes e w).0 in
      let t = (when e.kconfig.time stop_time_sync u).0 in
      let c = (socket_close e t.client.server_socket t).0 in
      let d = (set_state e disconnected c).0 in
      unlock-Released w d (
        Settled-then w u d (Framed→Settled w u ((unsubscribe_attributes-Steady e w).0)) (
          Settled-then u t d (Framed→Settled u t (ground (arith, (stop_time_sync-Still u).0))) (
            Settled-then t c d
              (Framed→Settled t c ((socket_close-Calm e t.client.server_socket t).0))
              (set_state-Settled e disconnected refl c))))

  disconnect_in-Released : (s : ThingsboardState) → Keeps Released (disconnect_in e s)
  unfolding disconnect_in
  disconnect_in-Released connected w = disconnect_online-Released w
  disconnect_in-Released suspended w = disconnect_online-Released w
  disconnect_in-Released disconnected w = refuse-Released w
  disconnect_in-Released init w = refuse-Released w
  disconnect_in-Released connecting w = refuse-Released w

  pub disconnect-Settled : Keeps Settled (disconnect e)
  unfolding disconnect
  disconnect-Settled w =
      let v = (lock w).0 in
      lock-Released w (disconnect_in e w.client.state v).0 (disconnect_in-Released w.client.state v)

  move_to-Released :
      (s : ThingsboardState) (res : ReturnCode)
      → is_target s ≡ true
      → Keeps Released (move_to e s res)
  unfolding move_to
  move_to-Released s (err x) t w = refuse-Released w
  move_to-Released s (ok n) t w = unlock-Released w (set_state e s w).0 (set_state-Settled e s t w)

  suspend_in-Released : (s : ThingsboardState) → Keeps Released (suspend_in e s)
  unfolding suspend_in suspend_connected
  suspend_in-Released connected w =
      let s = socket_suspend e w in
      Settled-Released w s.0 (move_to e suspended s.1 s.0).0
        (Framed→Settled w s.0 (socket_suspend-Framed e w)) (move_to-Released suspended s.1 refl s.0)
  suspend_in-Released suspended w = refuse-Released w
  suspend_in-Released disconnected w = refuse-Released w
  suspend_in-Released init w = refuse-Released w
  suspend_in-Released connecting w = refuse-Released w

  pub suspend-Settled : Keeps Settled (suspend e)
  unfolding suspend
  suspend-Settled w =
      let v = (lock w).0 in
      lock-Released w (suspend_in e w.client.state v).0 (suspend_in-Released w.client.state v)

  resume_in-Released : (s : ThingsboardState) → Keeps Released (resume_in e s)
  unfolding resume_in resume_suspended
  resume_in-Released connected w = refuse-Released w
  resume_in-Released suspended w =
      let s = socket_resume e w in
      Settled-Released w s.0 (move_to e connected s.1 s.0).0
        (Framed→Settled w s.0 (socket_resume-Framed e w)) (move_to-Released connected s.1 refl s.0)
  resume_in-Released disconnected w = refuse-Released w
  resume_in-Released init w = refuse-Released w
  resume_in-Released connecting w = refuse-Released w

  pub resume-Settled : Keeps Settled (resume e)
  unfolding resume
  resume-Settled w =
      let v = (lock w).0 in
      lock-Released w (resume_in e w.client.state v).0 (resume_in-Released w.client.state v)
