-- ===== src/Suspend/Live.antt =====
-- Where all works, a suspended client is resumed, in the three builds.
use thingsboard_sdk.Base.{◌≡◌, refl, sym, subst, false, Option, none, some, arith}
use thingsboard_sdk.Types.{
  ReturnCode, ok, err, Configuration, SocketSuspend, suspend_none, suspend_disconnect, suspend_rai,
}
use thingsboard_sdk.Platform.{Env}
use thingsboard_sdk.World.{World}
use thingsboard_sdk.Fota.{is_err}
use thingsboard_sdk.Socket.{socket_connect}
use thingsboard_sdk.Socket.Frame.{socket_connect-token}
use thingsboard_sdk.Socket.Live.{NetworkWorks, socket_connect-ok}
use thingsboard_sdk.Attributes.Live.{RequestsWork, HasPath, subscribe_attributes-ok}
use thingsboard_sdk.Suspend.{
  set_socket, set_rai, observe_again, use_connected, reconnect, resume_by, socket_resume,
}

module _ (e : Env) (network : NetworkWorks e) (requests : RequestsWork e) where
  observe_again-ok : (w : World) → HasPath e w.client.access_token → (observe_again e w).1 ≡ ok 0
  unfolding observe_again
  observe_again-ok w h = let o = subscribe_attributes-ok e requests w h in ground (arith, o)

  use_connected-ok :
      (res : ReturnCode) (w : World)
      → is_err res ≡ false
      → HasPath e w.client.access_token
      → (use_connected e res w).1 ≡ ok 0
  unfolding use_connected
  use_connected-ok (err x) w o h = ground arith
  use_connected-ok (ok s) w o h = observe_again-ok (set_socket (some s) w).0 h

  reconnect-ok :
      (o : Option Configuration) (c : Configuration) (w : World)
      → o ≡ some c
      → HasPath e w.client.access_token
      → (reconnect e o w).1 ≡ ok 0
  unfolding reconnect
  reconnect-ok none c w p h = ground arith
  reconnect-ok (some b) c w p h =
      let s = socket_connect e b w in
      use_connected-ok s.1 s.0 (socket_connect-ok e network b w)
        (subst (HasPath e) (sym (socket_connect-token e b w)) h)

  resume_by-ok :
      (s : SocketSuspend) (c : Configuration) (w : World)
      → w.client.config ≡ some c
      → HasPath e w.client.access_token
      → (resume_by e s w).1 ≡ ok 0
  unfolding resume_by set_rai
  resume_by-ok suspend_none c w p h = refl
  resume_by-ok suspend_rai c w p h = ground arith
  resume_by-ok suspend_disconnect c w p h = reconnect-ok w.client.config c w p h

  pub socket_resume-ok :
      (c : Configuration) (w : World)
      → w.client.config ≡ some c
      → HasPath e w.client.access_token
      → (socket_resume e w).1 ≡ ok 0
  unfolding socket_resume
  socket_resume-ok c w p h = resume_by-ok e.kconfig.socket_suspend c w p h
