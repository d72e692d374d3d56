-- ===== src/Client/Api.antt =====
-- The calls of include/thingsboard.h that move the client from state to state.
pub mod Keeps
pub mod Settled
pub mod Plugged
pub mod Watching
pub mod Live
pub mod Outcome
pub mod Connect
pub mod Initialize
use thingsboard_sdk.Base.{
  ℕ, zero, suc, Bool, true, false, Option, none, some, List, Bytes, length, ltb, ◌==◌,
  if◌then◌else◌, ◌&&◌, not, ◌||◌,
}
use thingsboard_sdk.Types.{
  Result, ok, err, ReturnCode, ThingsboardState, init, connecting, connected, suspended,
  disconnected, ealready, einval, enotconn, eio, Configuration, Kconfig, SecurityConfig, Attributes,
}
use thingsboard_sdk.Platform.{Env, coap_client_init, k_mutex_init}
use thingsboard_sdk.World.{
  World, M, ◌>>=◌, ◌>>◌, pure, done, emit, ask, when, get_world, modify_client,
}
use thingsboard_sdk.Requests.{lock, unlock, unlock_return}
use thingsboard_sdk.TimeSync.{stop_time_sync}
use thingsboard_sdk.Socket.{socket_close, socket_connect}
use thingsboard_sdk.Attributes.{unsubscribe_attributes}
use thingsboard_sdk.Suspend.{set_socket, socket_suspend, socket_resume}
use thingsboard_sdk.Client.Start.{set_state}

abbrev pub string_is_set : Option Bytes → Bool
string_is_set none = false
string_is_set (some s) = ltb 0 (length s)

-- sizeof(sec_tag_t)
abbrev pub sec_tag_size : ℕ
sec_tag_size = 4

abbrev pub has_tags : SecurityConfig → Bool
has_tags s = elim s.tags [ none ↦ false | some _ ↦ not (ltb s.tags_size sec_tag_size) ]

abbrev pub state_is_init : ThingsboardState → Bool
state_is_init init = true
state_is_init _ = false

abbrev pub has_socket : Option ℕ → Bool
has_socket none = false
has_socket (some _) = true

-- The checks of thingsboard_init on its argument.
unfoldable pub is_valid_configuration : Kconfig → Configuration → Bool
is_valid_configuration k c =
    string_is_set c.device_name
    && string_is_set c.server_hostname
    && (not k.fota
        || (string_is_set c.current_firmware.title && string_is_set c.current_firmware.version))
    && (not k.dtls || has_tags c.security)

module _ (e : Env) where
  open_socket : Option Configuration → M ReturnCode
  open_socket none = pure (err enotconn)
  open_socket (some config) = socket_connect e config

  use_socket : ReturnCode → M ReturnCode
  use_socket (err _) = do set_state e disconnected; unlock_return (err enotconn)
  use_socket (ok sock) = do set_socket (some sock); set_state e connecting; unlock_return (ok 0)

  -- thingsboard_connect from DISCONNECTED
  connect_disconnected : M ReturnCode
  unfolding open_socket use_socket
  connect_disconnected = do w ← get_world; res ← open_socket w.client.config; use_socket res

  connect_in : ThingsboardState → M ReturnCode
  unfolding connect_disconnected
  connect_in connected = unlock_return (err ealready)
  connect_in suspended = unlock_return (err ealready)
  connect_in disconnected = connect_disconnected
  connect_in init = unlock_return (err einval)
  connect_in connecting = unlock_return (err einval)

  -- thingsboard_connect
  unfoldable pub connect : M ReturnCode
  unfolding connect_in
  connect w = (do lock; connect_in w.client.state) w

  disconnect_online : M ReturnCode
  disconnect_online = do
    unsubscribe_attributes e
    when e.kconfig.time stop_time_sync
    w ← get_world
    socket_close e w.client.server_socket
    set_state e disconnected
    unlock_return (ok 0)

  disconnect_in : ThingsboardState → M ReturnCode
  unfolding disconnect_online
  disconnect_in connected = disconnect_online
  disconnect_in suspended = disconnect_online
  disconnect_in disconnected = unlock_return (err ealready)
  disconnect_in init = unlock_return (err einval)
  disconnect_in connecting = unlock_return (err einval)

  -- thingsboard_disconnect
  unfoldable pub disconnect : M ReturnCode
  unfolding disconnect_in
  disconnect w = (do lock; disconnect_in w.client.state) w

  -- What thingsboard_suspend and thingsboard_resume do with the result of the socket.
  move_to : ThingsboardState → ReturnCode → M ReturnCode
  move_to new_state (err _) = unlock_return (err eio)
  move_to new_state (ok _) = do set_state e new_state; unlock_return (ok 0)

  suspend_connected : M ReturnCode
  unfolding move_to
  suspend_connected = do res ← socket_suspend e; move_to suspended res

  suspend_in : ThingsboardState → M ReturnCode
  unfolding suspend_connected
  suspend_in suspended = unlock_return (ok 0)
  suspend_in connected = suspend_connected
  suspend_in init = unlock_return (err einval)
  suspend_in connecting = unlock_return (err einval)
  suspend_in disconnected = unlock_return (err einval)

  -- thingsboard_suspend
  unfoldable pub suspend : M ReturnCode
  unfolding suspend_in
  suspend w = (do lock; suspend_in w.client.state) w

  resume_suspended : M ReturnCode
  unfolding move_to
  resume_suspended = do res ← socket_resume e; move_to connected res

  resume_in : ThingsboardState → M ReturnCode
  unfolding resume_suspended
  resume_in connected = unlock_return (ok 0)
  resume_in suspended = resume_suspended
  resume_in init = unlock_return (err einval)
  resume_in connecting = unlock_return (err einval)
  resume_in disconnected = unlock_return (err einval)

  -- thingsboard_resume
  unfoldable pub resume : M ReturnCode
  unfolding resume_in
  resume w = (do lock; resume_in w.client.state) w

  pub connect_first : ReturnCode → M ReturnCode
  connect_first (err _) = pure (err enotconn)
  connect_first (ok _) = pure (ok 0)

  -- The end of thingsboard_init, behind coap_client_init.
  enter_disconnected : ReturnCode → M ReturnCode
  unfolding connect_first
  enter_disconnected (err x) = pure (err x)
  enter_disconnected (ok (suc n)) = pure (ok (suc n))
  enter_disconnected (ok zero) = do
    modify_client (λ c. record c { state = disconnected })
    if e.kconfig.connect_on_init then connect >>= connect_first else pure (ok 0)

  init_checked : Configuration → M ReturnCode
  unfolding enter_disconnected
  init_checked config = do
    emit k_mutex_init
    modify_client (λ c. record c { config = some config })
    res ← ask e.coap_init coap_client_init
    enter_disconnected res

  -- thingsboard_init
  unfoldable pub initialize : Option Configuration → M ReturnCode
  unfolding init_checked
  initialize configuration w =
      if state_is_init w.client.state && not (has_socket w.client.server_socket)
      then elim configuration [
        | none ↦ (w, err einval)
        | some config ↦
            if is_valid_configuration e.kconfig config
            then init_checked config w
            else (w, err einval)
      ]
      else (w, err ealready)

-- thingsboard_get_attributes
unfoldable pub get_attributes : World → Attributes
get_attributes w = w.client.shared_attributes
