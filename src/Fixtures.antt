-- ===== src/Fixtures.antt =====
-- A concrete environment, and states and data for the tests.
use thingsboard_sdk.Base.{
  ℕ, Option, true, false, none, some, List, [], ◌∷◌, ascii, leb, if◌then◌else◌,
}
use thingsboard_sdk.Types.{
  eio, suspended, disconnected, connecting, ok, err, enomem, connected, downloading, idle,
  Timeseries, Attributes, Kconfig, suspend_disconnect, Configuration, Telemetry, response,
  attribute_notification,
}
use thingsboard_sdk.Platform.{Env, Delivery, ProvisionResponse, TsKv, long_v, other_v}
use thingsboard_sdk.Requests.Balance.{in_use, gained, spent}
use thingsboard_sdk.System.{Operation, initializes, sends_telemetry, delivers, suspends, initial}
use thingsboard_sdk.World.{World}
use thingsboard_sdk.Platform.{History}

abbrev pub test_kconfig : Kconfig
test_kconfig = record {
  dtls = false;
  use_provisioning = false;
  fota = true;
  time = true;
  content_format_json = true;
  attributes_workaround_default = false;
  telemetry_always_timestamp = false;
  connect_on_init = true;
  socket_suspend = suspend_disconnect;
  access_token = ascii "tok";
  provisioning_key = ascii "key";
  provisioning_secret = ascii "secret";
  max_strings_length = 16;
  request_max_path_length = 64;
  coap_client_message_size = 128;
  coap_client_max_requests = 2;
  coap_init_ack_timeout_ms = 2000;
  coap_max_retransmit = 4;
  time_refresh_interval_seconds = 3600;
}

-- A slab of two blocks, a network where all works, and encoders that write a fixed text.
abbrev pub test_env : Env
test_env = record {
  kconfig = test_kconfig;
  mem_slab_alloc = λ h. if leb 2 (in_use h) then none else some (in_use h);
  uptime = λ h. 1000;
  beyond_requests = λ h. none;
  coap_init = λ h. ok 0;
  coap_req = λ h q. ok 0;
  cancel_delivers = λ h r. true;
  getaddrinfo_result = λ h s. ok 0;
  addrinfo = λ h s. 7 ∷ [];
  socket_result = λ h p. ok 3;
  bind_result = λ h s. ok 0;
  connect_result = λ h s. ok 0;
  close_result = λ h s. ok 0;
  setsockopt_result = λ h s o. ok 0;
  settings_init_result = λ h. ok 0;
  settings_load_result = λ h. ok 0;
  stored = λ h. [];
  settings_save_result = λ h t. ok 0;
  img_confirmed = λ h. true;
  write_confirmed_result = λ h. ok 0;
  identify = λ h b. true;
  write_result = λ h b. ok 0;
  done_result = λ h b. ok 0;
  set_buf_result = λ h. ok 0;
  init_result = λ h n. ok 0;
  offset_get_result = λ h. ok 0;
  telemetry_to_buf = λ t n. ok (ascii "{}");
  rpc_request_to_buf = λ m n. ok (ascii "{}");
  telemetry_gen_obj_desc = λ t. ok 1;
  json_obj_encode_timeseries = λ t n. if leb 3 n then ok (ascii "{}") else err enomem;
  attributes_from_json =
      λ p. ok (record { fw_title = some p; fw_version = some p; fw_size = some 10 });
  attributes_update_with_buffer = λ a b. ok (3, a);
  provision_response_from_json = λ p. ok (record {
    status = some (ascii "SUCCESS");
    credentials_type = some (ascii "ACCESS_TOKEN");
    credentials_value = some p;
  });
  pb_encode_telemetry = λ t n. some (ascii "t");
  pb_encode_rpc_request = λ m n. some m;
  pb_encode_timeseries_entry = λ t n. some (ascii "t");
  pb_decode_attributes = λ p. none;
  pb_decode_notification = λ p. some [];
  pb_decode_rpc_response = λ p. some p;
}

abbrev pub test_configuration : Configuration
test_configuration = record {
  device_name = some (ascii "dev");
  server_hostname = some (ascii "host");
  server_port = 5683;
  current_firmware = record { title = some (ascii "fw"); version = some (ascii "1") };
  security = record { tags = none; tags_size = 0 };
  callbacks = record { on_attributes_write = true; on_event = true };
}

abbrev pub test_telemetry : Telemetry
test_telemetry = record {
  fw_state = some (ascii "IDLE");
  current_fw_title = none;
  current_fw_version = none;
}

abbrev pub test_delivery : Delivery
test_delivery = record {
  result_code = ok 69;
  payload = ascii "1234";
  beyond = 0 ∷ [];
  last_block = true;
}

abbrev pub test_operations : List Operation
test_operations =
    initializes (some test_configuration)
    ∷ sends_telemetry test_telemetry
    ∷ delivers response test_delivery 1
    ∷ suspends
    ∷ []

abbrev pub connected_world : World
connected_world = record initial {
  client = record initial.client {
    state = connected;
    config = some test_configuration;
    server_socket = some 3;
  };
}

abbrev pub downloading_world : World
downloading_world = record connected_world {
  fota = record {
    title = ascii "fw";
    version = ascii "2";
    offset = 0;
    size = 4;
    fw_state = downloading;
  };
}

abbrev pub test_timeseries : List Timeseries
test_timeseries =
    record { ts = 1; has_values = true; values = test_telemetry }
    ∷ record { ts = 2; has_values = true; values = test_telemetry }
    ∷ []

abbrev pub offered_world : World
offered_world = record connected_world {
  client = record connected_world.client {
    shared_attributes = record {
      fw_title = some (ascii "fw");
      fw_version = some (ascii "2");
      fw_size = some 4;
    };
  };
  fota = record downloading_world.fota { fw_state = idle };
}

abbrev pub test_response : ProvisionResponse
test_response = record {
  status = some (ascii "SUCCESS");
  credentials_type = some (ascii "ACCESS_TOKEN");
  credentials_value = some (ascii "secret");
}

abbrev pub test_entries : List (Option (Option TsKv))
test_entries =
    some (some (record { key = ascii "other"; kv = other_v }))
    ∷ some (some (record { key = ascii "fw_size"; kv = long_v 7 }))
    ∷ []

abbrev pub test_attributes : Attributes
test_attributes = record { fw_title = some (ascii "new"); fw_version = none; fw_size = some 8 }

-- The server provisions the client.
abbrev pub provision_env : Env
provision_env = record test_env {
  kconfig = record test_kconfig { use_provisioning = true; coap_client_message_size = 256 };
}

abbrev pub connecting_world : World
connecting_world = record connected_world {
  client = record connected_world.client { state = connecting };
  prov_cb = true;
}

abbrev pub disconnected_world : World
disconnected_world = record connected_world {
  client = record connected_world.client { state = disconnected; server_socket = none };
}

abbrev pub refused_delivery : Delivery
refused_delivery = record test_delivery { result_code = err eio }

-- A slab of two blocks, which gives the first that the SDK does not hold.
abbrev pub first_free : History → Option ℕ
first_free h =
    if leb (gained 0 h) (spent 0 h)
    then some 0
    else (if leb (gained 1 h) (spent 1 h) then some 1 else none)

abbrev pub exclusive_env : Env
exclusive_env = record test_env {
  mem_slab_alloc = first_free;
  pb_encode_timeseries_entry = λ t n. if leb 1 n then some (ascii "t") else none;
}

-- Two blocks are missing.
abbrev pub half_world : World
half_world = record downloading_world {
  fota = record downloading_world.fota { offset = 4; size = 12 };
}

-- nanopb needs a byte for an entry.
abbrev pub pb_env : Env
pb_env = record test_env {
  pb_encode_timeseries_entry = λ t n. if leb 1 n then some (ascii "t") else none;
}

abbrev pub observing_world : World
observing_world = record connected_world {
  client = record connected_world.client { attributes_observation = some 0 };
}

-- Encoders that write only what there is room for.
abbrev pub fitting_env : Env
fitting_env = record test_env {
  telemetry_to_buf = λ v n. if leb 3 n then ok (ascii "{}") else err enomem;
  rpc_request_to_buf = λ m n. if leb 3 n then ok (ascii "{}") else err enomem;
  pb_encode_telemetry = λ v n. if leb 1 n then some (ascii "t") else none;
  pb_encode_rpc_request = λ m n. if leb 1 n then some (ascii "r") else none;
  pb_encode_timeseries_entry = λ t n. if leb 1 n then some (ascii "t") else none;
}

-- An update of the attributes while the client is connected.
abbrev pub observed_operations : List Operation
observed_operations =
    initializes (some test_configuration)
    ∷ delivers attribute_notification test_delivery 1
    ∷ suspends
    ∷ []

-- Messages of four bytes.
abbrev pub small_env : Env
small_env = record test_env { kconfig = record test_kconfig { coap_client_message_size = 4 } }

abbrev pub large_entry : Timeseries
large_entry = record { ts = 1; has_values = true; values = test_telemetry }

-- A slab that always has a block.
abbrev pub plenty_env : Env
plenty_env = record test_env { mem_slab_alloc = λ h. some (in_use h) }

abbrev pub suspended_world : World
suspended_world = record connected_world {
  client = record connected_world.client {
    state = suspended;
    server_socket = none;
    access_token = some (ascii "tok");
  };
}
