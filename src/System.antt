-- ===== src/System.antt =====
-- The SDK as a whole: the calls of the application, the callbacks of the CoAP client and the time's
-- work item, in any order. Each runs to its end before the next.
pub mod Balance
pub mod Sized
pub mod Sync
pub mod Lifecycle
pub mod Stuck
pub mod Sockets
pub mod Watching
use thingsboard_sdk.Base.{ℕ, false, Option, none, List, [], ◌∷◌, Bytes}
use thingsboard_sdk.Types.{Handler, Configuration, Telemetry, Timeseries, init, downloading}
use thingsboard_sdk.Platform.{Env, Delivery}
use thingsboard_sdk.World.{World}
use thingsboard_sdk.Requests.{zero_request}
use thingsboard_sdk.Telemetry.{send_telemetry, send_telemetry_buf}
use thingsboard_sdk.Telemetry.Timeseries.{send_timeseries}
use thingsboard_sdk.TimeSync.{request_time}
use thingsboard_sdk.Client.Api.{connect, disconnect, suspend, resume, initialize}
use thingsboard_sdk.Client.Deliver.{deliver}

pub data Operation : Type 0 where
  initializes : Option Configuration → Operation
  connects disconnects suspends resumes : Operation
  sends_telemetry : Telemetry → Operation
  sends_telemetry_buf : Bytes → Operation
  sends_timeseries : List Timeseries → Operation
  delivers : Handler → Delivery → ℕ → Operation
  requests_time : Operation

module _ (e : Env) where
  unfoldable pub operate : Operation → World → World
  operate (initializes c) w = (initialize e c w).0
  operate connects w = (connect e w).0
  operate disconnects w = (disconnect e w).0
  operate suspends w = (suspend e w).0
  operate resumes w = (resume e w).0
  operate (sends_telemetry t) w = (send_telemetry e t w).0
  operate (sends_telemetry_buf b) w = (send_telemetry_buf e b w).0
  operate (sends_timeseries ts) w = (send_timeseries e ts w).0
  operate (delivers h d r) w = (deliver e h d r w).0
  operate requests_time w = (request_time e w).0

  unfoldable pub run : List Operation → World → World
  unfolding operate
  run [] w = w
  run (o ∷ os) w = run os (operate o w)

-- The static variables as the program starts: `tb_fota_ctx.state` is the first of its enum.
abbrev pub initial : World
initial = record {
  client = record {
    state = init;
    config = none;
    server_address = none;
    server_socket = none;
    attributes_observation = none;
    access_token = none;
    shared_attributes = record { fw_title = none; fw_version = none; fw_size = none };
  };
  fota = record { title = []; version = []; offset = 0; size = 0; fw_state = downloading };
  current_firmware = none;
  time = record { tb_time = 0; own_time = 0; last_request = 0 };
  prov_token = [];
  prov_cb = false;
  slab = λ r. zero_request;
  history = [];
}
