-- ===== src/Suspend.antt =====
-- thingsboard_socket_suspend and thingsboard_socket_resume of src/socket.c, in their three builds
-- (CONFIG_THINGSBOARD_SOCKET_SUSPEND). `*sock` is the client's `server_socket`.
pub mod Keeps
pub mod Owned
pub mod Watching
pub mod Live
pub mod Frame
use thingsboard_sdk.Base.{ℕ, Option, none, some}
use thingsboard_sdk.Types.{
  Result, ok, err, ReturnCode, econnrefused, ebadmsg, efault, Configuration, SocketSuspend,
  suspend_none, suspend_disconnect, suspend_rai,
}
use thingsboard_sdk.Platform.{Env, SocketOption, rai_no_data, rai_ongoing, zsock_setsockopt}
use thingsboard_sdk.World.{World, M, ◌>>=◌, ◌>>◌, pure, done, ask, get_world, modify_client}
use thingsboard_sdk.Socket.{socket_close, socket_connect}
use thingsboard_sdk.Attributes.{subscribe_attributes, unsubscribe_attributes}

abbrev pub set_socket : Option ℕ → M (Unit {0})
set_socket s = modify_client λ c. record c { server_socket = s }

module _ (e : Env) where
  suspend_by_disconnect : M ReturnCode
  suspend_by_disconnect = do
    unsubscribe_attributes e
    w ← get_world
    socket_close e w.client.server_socket
    set_socket none
    pure (ok 0)

  -- The socket option SO_RAI, whose failure is only logged.
  set_rai : SocketOption → Option ℕ → M ReturnCode
  set_rai o none = pure (ok 0)
  set_rai o (some sock) = do
    ask (λ h. e.setsockopt_result h sock o) (zsock_setsockopt sock o)
    pure (ok 0)

  suspend_by : SocketSuspend → M ReturnCode
  unfolding suspend_by_disconnect set_rai
  suspend_by suspend_none w = (w, ok 0)
  suspend_by suspend_disconnect w = suspend_by_disconnect w
  suspend_by suspend_rai w = set_rai rai_no_data w.client.server_socket w

  -- thingsboard_socket_suspend
  unfoldable pub socket_suspend : M ReturnCode
  unfolding suspend_by
  socket_suspend = suspend_by e.kconfig.socket_suspend

  observe_again : M ReturnCode
  observe_again = do
    res ← subscribe_attributes e
    elim res [
      | ok _ ↦ pure (ok 0)
      | err _ ↦ (do
        w ← get_world
        socket_close e w.client.server_socket
        set_socket none
        pure (err ebadmsg))
    ]

  use_connected : ReturnCode → M ReturnCode
  unfolding observe_again
  use_connected (err _) = pure (err econnrefused)
  use_connected (ok sock) = do set_socket (some sock); observe_again

  -- thingsboard_socket_resume with THINGSBOARD_SOCKET_SUSPEND_DISCONNECT
  reconnect : Option Configuration → M ReturnCode
  unfolding use_connected
  reconnect none = pure (err econnrefused)
  reconnect (some config) = do res ← socket_connect e config; use_connected res

  resume_by : SocketSuspend → M ReturnCode
  unfolding reconnect set_rai
  resume_by suspend_none w = (w, ok 0)
  resume_by suspend_disconnect w = reconnect w.client.config w
  resume_by suspend_rai w = set_rai rai_ongoing w.client.server_socket w

  -- thingsboard_socket_resume
  unfoldable pub socket_resume : M ReturnCode
  unfolding resume_by
  socket_resume = resume_by e.kconfig.socket_suspend
