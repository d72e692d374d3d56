-- ===== src/Client/Start.antt =====
-- thingsboard_set_state, start_client and prov_callback of src/thingsboard.c, which call one
-- another. `start_client` takes the depth of its own calls that are still allowed; two are enough.
pub mod Depth
pub mod Keeps
pub mod Plugged
pub mod Watching
pub mod Live
pub mod Settled
use thingsboard_sdk.Base.{
  ℕ, zero, suc, Bool, true, false, Option, none, some, Bytes, ◌==◌, if◌then◌else◌, ◌&&◌, not,
}
use thingsboard_sdk.Types.{
  Result, ok, err, ReturnCode, ThingsboardState, init, connecting, connected, suspended,
  disconnected, provisioned, became_active, became_suspended, became_disconnected, Configuration,
  FirmwareInfo,
}
use thingsboard_sdk.Platform.{Env, assert_failed, state_is_handled}
use thingsboard_sdk.World.{World, M, ◌>>=◌, ◌>>◌, pure, done, emit, when, get_world, modify_client}
use thingsboard_sdk.Requests.{lock, unlock, event}
use thingsboard_sdk.TimeSync.{start_time_sync}
use thingsboard_sdk.Fota.Start.{fota_init, fota_confirm_update, c_string}
use thingsboard_sdk.Socket.{socket_close}
use thingsboard_sdk.Provision.{provision_device}
use thingsboard_sdk.Attributes.{subscribe_attributes}

-- The value of the C enum.
abbrev pub state_number : ThingsboardState → ℕ
state_number init = 0
state_number connecting = 1
state_number connected = 2
state_number suspended = 3
state_number disconnected = 4

-- The `switch` of thingsboard_set_state, with its four handlers. `start` is start_client.
unfoldable pub handle_state : M (Unit {0}) → ThingsboardState → M (Unit {0})
handle_state start init = emit (assert_failed state_is_handled)
handle_state start connecting = start
handle_state start connected = event became_active
handle_state start suspended = event became_suspended
handle_state start disconnected = event became_disconnected

-- thingsboard_set_state
unfoldable pub set_state_with : M (Unit {0}) → ThingsboardState → M (Unit {0})
unfolding handle_state
set_state_with start new_state w =
    (do
      lock
      if state_number new_state == state_number w.client.state then done else (do
        modify_client (λ c. record c { state = new_state })
        handle_state start new_state)
      unlock)
      w

abbrev pub device_name_of : Option Configuration → Bytes
device_name_of none = c_string none
device_name_of (some c) = c_string c.device_name

abbrev pub firmware_of : Option Configuration → FirmwareInfo
firmware_of none = record { title = none; version = none }
firmware_of (some c) = c.current_firmware

abbrev pub set_token : Bytes → M (Unit {0})
set_token token = modify_client λ c. record c { access_token = some token }

-- prov_callback
unfoldable pub prov_callback_with : M (Unit {0}) → Bytes → M (Unit {0})
prov_callback_with start token = do set_token token; event provisioned; start

module _ (e : Env) where
  -- The firmware part of start_client.
  pub start_fota : M (Unit {0})
  start_fota w = (do fota_init e (firmware_of w.client.config); fota_confirm_update e; done) w

  -- What start_client does with the result of the subscription.
  after_subscribe : M (Unit {0}) → ReturnCode → M (Unit {0})
  after_subscribe start (err _) = do
    w ← get_world
    socket_close e w.client.server_socket
    set_state_with start disconnected
  after_subscribe start (ok _) = do
    when e.kconfig.time start_time_sync
    set_state_with start connected

  -- The part of start_client for which there is a token.
  go_online : M (Unit {0}) → M (Unit {0})
  unfolding start_fota after_subscribe
  go_online start = do
    when e.kconfig.fota start_fota
    res ← subscribe_attributes e
    after_subscribe start res

  -- What start_client does with the result of the provisioning.
  after_provision : M (Unit {0}) → ReturnCode → M (Unit {0})
  after_provision start (err _) = set_state_with start disconnected
  after_provision start (ok _) = done

  ask_token : M (Unit {0}) → M (Unit {0})
  unfolding after_provision
  ask_token start = do
    w ← get_world
    res ← provision_device e (prov_callback_with start) (device_name_of w.client.config)
    after_provision start res

  obtain_token : M (Unit {0}) → M (Unit {0})
  unfolding ask_token go_online
  obtain_token start =
      if e.kconfig.use_provisioning
      then ask_token start
      else (do set_token e.kconfig.access_token; go_online start)

  start_with : M (Unit {0}) → Option Bytes → M (Unit {0})
  unfolding obtain_token go_online
  start_with start none = if e.kconfig.dtls then go_online start else obtain_token start
  start_with start (some token) = go_online start

  -- start_client
  unfoldable pub start_client : ℕ → M (Unit {0})
  unfolding start_with
  start_client zero w = (w, tt)
  start_client (suc depth) w = start_with (start_client depth) w.client.access_token w

  -- thingsboard_set_state, with depth enough
  unfoldable pub set_state : ThingsboardState → M (Unit {0})
  set_state new_state = set_state_with (start_client 2) new_state

  unfoldable pub prov_callback : Bytes → M (Unit {0})
  prov_callback token = prov_callback_with (start_client 2) token
