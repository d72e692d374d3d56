-- ===== src/Platform.antt =====
-- What the SDK uses and does not implement: Zephyr (kernel, CoAP client, sockets, settings, DFU
-- target), the generated JSON code, nanopb, and the application's callbacks.
-- Each use is a `Call`, and a run's calls form a history, the newest first. A call that returns
-- something is answered by a field of `Env`, from the history so far, so that nothing is fixed of
-- how that code decides.
use thingsboard_sdk.Base.{ℕ, Bool, Option, List, Bytes}
use thingsboard_sdk.Types.{
  Result, ReturnCode, ThingsboardEvent, Attributes, Telemetry, Timeseries, Handler, CoapRequest,
  Kconfig,
}

pub data SocketOption : Type 0 where
  tls_sec_tag_list tls_hostname tls_dtls_cid so_keepopen rai_no_data rai_ongoing : SocketOption

pub data Protocol : Type 0 where
  udp dtls_1_2 : Protocol

-- The assertions, in builds that go on when one fails: that an encoder took an entry, that a state
-- has a handler, and that there is no observation, or this one.
pub data Assertion : Type 0 where
  ts_to_send_is_positive state_is_handled observation_is_null observation_is_request : Assertion

-- The delay of a work item, in seconds.
pub data Call : Type 0 where
  k_mutex_init k_mutex_lock k_mutex_unlock : Call
  k_mem_slab_alloc : Option ℕ → Call
  k_mem_slab_free : Option ℕ → Call
  -- An access behind the end of `requests`: the pointer that a read gives.
  out_of_bounds : Option ℕ → Call
  assert_failed : Assertion → Call
  coap_client_init : ReturnCode → Call
  coap_client_req : CoapRequest → ReturnCode → Call
  coap_client_cancel_request : ℕ → Call
  -- The CoAP client calls a handler: result code, last block, user data.
  callback : Handler → ReturnCode → Bool → ℕ → Call
  on_event : ThingsboardEvent → Call
  on_attributes_write : Attributes → Call
  getaddrinfo : Bytes → ReturnCode → Call
  zsock_socket : Protocol → ReturnCode → Call
  zsock_bind zsock_connect zsock_close : ℕ → ReturnCode → Call
  zsock_setsockopt : ℕ → SocketOption → ReturnCode → Call
  work_reschedule : ℕ → Call
  work_cancel : Call
  k_uptime_get : ℕ → Call
  settings_subsys_init settings_load : ReturnCode → Call
  settings_save_one : Bytes → ReturnCode → Call
  boot_is_img_confirmed : Bool → Call
  boot_write_img_confirmed : ReturnCode → Call
  dfu_identify : Bool → Call
  dfu_write : Bytes → ReturnCode → Call
  dfu_done : Bool → ReturnCode → Call
  dfu_schedule_update dfu_reset sys_reboot : Call
  dfu_set_buf dfu_init dfu_offset_get : ReturnCode → Call

abbrev pub History : Type 0
History = List Call

-- A key-value attribute of the server's internal format (`KeyValueProto`). `long_v` is the bit
-- pattern of an int64.
pub data KeyValue : Type 0 where
  long_v : ℕ → KeyValue
  string_v : Bytes → KeyValue
  other_v : KeyValue

pub record TsKv : Type 0 where
  pub key : Bytes
  pub kv : KeyValue

-- The members of `struct thingsboard_provision_response`; `none` is a `has_` flag that is false.
pub record ProvisionResponse : Type 0 where
  pub status : Option Bytes
  pub credentials_type : Option Bytes
  pub credentials_value : Option Bytes

-- A stored entry: its name below the subtree, its length, and what its read callback writes to the
-- buffer and returns.
pub record Entry : Type 0 where
  pub name : Bytes
  pub len : ℕ
  pub written : Bytes
  pub read : ReturnCode

-- What the CoAP client hands to a handler. `beyond` is what stands in memory behind the payload.
pub record Delivery : Type 0 where
  pub result_code : ReturnCode
  pub payload : Bytes
  pub beyond : Bytes
  pub last_block : Bool

pub record Env : Type 0 where
  pub kconfig : Kconfig
  -- the kernel
  pub mem_slab_alloc : History → Option ℕ
  pub uptime : History → ℕ
  -- the pointer that stands in memory behind the array `requests`
  pub beyond_requests : History → Option ℕ
  -- the CoAP client. `cancel_delivers` says whether a cancelled request was found, in which case its
  -- handler is called with -ECANCELED before the cancelling call returns.
  pub coap_init : History → ReturnCode
  pub coap_req : History → CoapRequest → ReturnCode
  pub cancel_delivers : History → ℕ → Bool
  -- sockets. `addrinfo` is the list of addresses that a successful look-up gives.
  pub getaddrinfo_result : History → Bytes → ReturnCode
  pub addrinfo : History → Bytes → List ℕ
  pub socket_result : History → Protocol → ReturnCode
  pub bind_result : History → ℕ → ReturnCode
  pub connect_result : History → ℕ → ReturnCode
  pub close_result : History → ℕ → ReturnCode
  pub setsockopt_result : History → ℕ → SocketOption → ReturnCode
  -- settings. `stored` is what is in flash under the subtree.
  pub settings_init_result : History → ReturnCode
  pub settings_load_result : History → ReturnCode
  pub stored : History → List Entry
  pub settings_save_result : History → Bytes → ReturnCode
  -- MCUboot
  pub img_confirmed : History → Bool
  pub write_confirmed_result : History → ReturnCode
  pub identify : History → Bytes → Bool
  pub write_result : History → Bytes → ReturnCode
  pub done_result : History → Bool → ReturnCode
  pub set_buf_result : History → ReturnCode
  pub init_result : History → ℕ → ReturnCode
  pub offset_get_result : History → Result ℕ
  -- generated and third-party encoders and decoders. A string that a JSON encoder leaves in its
  -- buffer, by the size of the buffer.
  pub telemetry_to_buf : Telemetry → ℕ → Result Bytes
  pub rpc_request_to_buf : Bytes → ℕ → Result Bytes
  pub telemetry_gen_obj_desc : Telemetry → ReturnCode
  pub json_obj_encode_timeseries : Timeseries → ℕ → Result Bytes
  pub attributes_from_json : Bytes → Result Attributes
  pub attributes_update_with_buffer : Attributes → Attributes → Result (ℕ × Attributes)
  pub provision_response_from_json : Bytes → Result ProvisionResponse
  pub pb_encode_telemetry : Telemetry → ℕ → Option Bytes
  pub pb_encode_rpc_request : Bytes → ℕ → Option Bytes
  pub pb_encode_timeseries_entry : Timeseries → ℕ → Option Bytes
  pub pb_decode_attributes : Bytes → Option Attributes
  -- The entries of a notification, for each of which nanopb calls the callback, with what decoding it
  -- gives: outside `none` if it fails, inside `none` for an entry without a value.
  pub pb_decode_notification : Bytes → Option (List (Option (Option TsKv)))
  pub pb_decode_rpc_response : Bytes → Option Bytes
