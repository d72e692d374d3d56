-- ===== src/Types.antt =====
-- The types of include/thingsboard.h and src/tb_internal.h that hold data, and the enum of
-- src/tb_fota.c.
pub mod Cases
use thingsboard_sdk.Base.{ℕ, Bool, Option, List, Bytes}

-- The error numbers that the SDK returns; `other` is any further one, by its value.
pub data Errno : Type 0 where
  eagain ealready ebadmsg ecanceled econnrefused efault einval eio enoent enomem enonet : Errno
  enotconn eperm : Errno
  other : ℕ → Errno

-- A C function that returns a value or a negative error number.
pub data Result {ℓ} (A : Type ℓ) : Type ℓ where
  ok : A → Result A
  err : Errno → Result A

-- An `int` that is negative on error.
abbrev pub ReturnCode : Type 0
ReturnCode = Result ℕ

pub data ThingsboardState : Type 0 where
  init connecting connected suspended disconnected : ThingsboardState

pub data ThingsboardEvent : Type 0 where
  provisioned became_active became_suspended time_update became_disconnected : ThingsboardEvent

pub data FwState : Type 0 where
  downloading downloaded verified updating updated failed idle : FwState

-- `none` is a null pointer.
pub record FirmwareInfo : Type 0 where
  pub title : Option Bytes
  pub version : Option Bytes

pub record SecurityConfig : Type 0 where
  pub tags : Option (List ℕ)
  pub tags_size : ℕ

-- Of a callback only its presence is seen.
pub record Callbacks : Type 0 where
  pub on_attributes_write : Bool
  pub on_event : Bool

pub record Configuration : Type 0 where
  pub device_name : Option Bytes
  pub server_hostname : Option Bytes
  pub server_port : ℕ
  pub current_firmware : FirmwareInfo
  pub security : SecurityConfig
  pub callbacks : Callbacks

-- The fields that the SDK itself names. `none` is a `has_` flag that is false.
pub record Attributes : Type 0 where
  pub fw_title : Option Bytes
  pub fw_version : Option Bytes
  pub fw_size : Option ℕ

pub record Telemetry : Type 0 where
  pub fw_state : Option Bytes
  pub current_fw_title : Option Bytes
  pub current_fw_version : Option Bytes

pub record Timeseries : Type 0 where
  pub ts : ℕ
  pub has_values : Bool
  pub values : Telemetry

-- The functions that the SDK hands to the CoAP client as `cb`.
pub data Handler : Type 0 where
  attribute_notification response rpc_response fw_chunk prov_resp : Handler

-- The one RPC callback of the SDK.
pub data RpcCallback : Type 0 where
  time_response : RpcCallback

pub data CoapOption : Type 0 where
  observe initial_block2 : CoapOption

pub record Request : Type 0 where
  pub rpc_cb : Option RpcCallback
  pub options : List CoapOption
  pub path : Bytes
  pub payload : Bytes

pub data Method : Type 0 where
  get post : Method

pub data ContentFormat : Type 0 where
  app_json app_octet_stream : ContentFormat

-- What `coap_client_req` is given. `user_data` is the slab block of the request.
pub record CoapRequest : Type 0 where
  pub confirmable : Bool
  pub method : Method
  pub path : Bytes
  pub options : List CoapOption
  pub payload : Bytes
  pub fmt : Option ContentFormat
  pub cb : Handler
  pub user_data : ℕ

pub data SocketSuspend : Type 0 where
  suspend_none suspend_disconnect suspend_rai : SocketSuspend

-- The build options (Kconfig) that the code reads.
pub record Kconfig : Type 0 where
  pub dtls : Bool
  pub use_provisioning : Bool
  pub fota : Bool
  pub time : Bool
  pub content_format_json : Bool
  pub attributes_workaround_default : Bool
  pub telemetry_always_timestamp : Bool
  pub connect_on_init : Bool
  pub socket_suspend : SocketSuspend
  pub access_token : Bytes
  pub provisioning_key : Bytes
  pub provisioning_secret : Bytes
  pub max_strings_length : ℕ
  pub request_max_path_length : ℕ
  pub coap_client_message_size : ℕ
  pub coap_client_max_requests : ℕ
  pub coap_init_ack_timeout_ms : ℕ
  pub coap_max_retransmit : ℕ
  pub time_refresh_interval_seconds : ℕ
