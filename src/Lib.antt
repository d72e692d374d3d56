-- ===== src/Lib.antt =====
-- A model of the ThingsBoard SDK for Zephyr, a client of the ThingsBoard IoT platform over CoAP, and
-- theorems about it.
--
-- Each C function is a function on one state, `World` (World.antt): the static variables of the
-- source files, the contents of the request slab, and the history of calls to code outside the
-- repository. `Env` (Platform.antt) answers these calls from the history so far and is a parameter
-- of everything: the Zephyr kernel, its CoAP client, sockets, settings and DFU target, nanopb, the
-- generated JSON code and the build options.
--
-- Types              include/thingsboard.h, src/tb_internal.h: structs and enums
-- Requests           src/thingsboard.c: the lock, events, the request slab
-- CatPath            src/thingsboard.c: thingsboard_cat_path; the path macros of src/tb_internal.h
-- Json, Protobuf     src/thingsboard_messages_json.c and src/thingsboard_messages_protobuf.c
-- Codec              the choice between the two by the build option
-- Telemetry          src/thingsboard.c: thingsboard_send_telemetry, thingsboard_send_telemetry_buf;
--                    its children Post and Timeseries thingsboard_send_telemetry_request and
--                    thingsboard_send_timeseries
-- Rpc                src/thingsboard.c: thingsboard_send_rpc_request and the response handlers
-- Time, TimeSync     src/tb_time.c
-- Fota, Fota.Start   src/tb_fota.c
-- Socket, Suspend    src/socket.c, src/socket_dtls.c
-- Provision          src/provision.c
-- Attributes         src/thingsboard.c: the observation of the shared attributes
-- Client.Start       src/thingsboard.c: thingsboard_set_state, start_client, prov_callback
-- Client.Api         src/thingsboard.c: thingsboard_init, thingsboard_connect,
--                    thingsboard_disconnect, thingsboard_suspend, thingsboard_resume
-- Names              src/thingsboard.c: the strings of response codes and states
-- Client.Deliver     the CoAP client's calls of the handlers
-- System             any sequence of API calls, callbacks and runs of the time's work item
--
-- The application sees the client through its events; the client hands requests to the CoAP client,
-- which answers through handlers; the attribute handler starts firmware updates, which report their
-- state as telemetry; the time's work item sends RPC requests.
--
-- Children named Balance count request blocks, those named Sized requests that are longer than
-- their buffers, those named Owned and Plugged sockets, those named Tracked and Watching
-- observations; Traffic has the part of the history that these read, Keeps what holds of any
-- relation that is kept by the functions below; those named Frame, Still, Moved, Apart and
-- Settled say what functions leave alone; the others state laws of their parents, among which
-- those named Live say what works if all that the SDK uses works. System.Lifecycle has an
-- abstract machine of the client's states. Fixtures has a concrete environment and Tests applies
-- the theorems in it.
--
-- Bounds: `start_client` takes the number of its own calls within one another, of which `set_state`
-- and `prov_callback` allow two; see Client.Start.Depth. The loop of thingsboard_send_timeseries goes
-- over the slots of its array; an access behind the array's end is recorded as `out_of_bounds`, a read
-- with the pointer that `Env` gives for it, and what the program does after it is undefined in C.
-- The NULL that is freed where an allocation of that function fails is recorded as a free of `none`
-- and counts for no block.
-- Integers are natural numbers; those that wrap or are cast carry their `% 2 ^ w`, and size_t has 32
-- bits where a subtraction may wrap (`size_minus`). The int64 of a timestamp that is parsed wraps
-- around as well, where C leaves the overflow undefined.
--
-- Not modelled: log messages, the pauses before a reboot, calls that the application makes from
-- within its callbacks, threads that interleave within an operation, the fields of attributes and
-- telemetry that an application's schema adds, the samples, and the generator script.
pub mod Base
pub mod Types
pub mod Platform
pub mod World
pub mod CatPath
pub mod Json
pub mod Protobuf
pub mod Codec
pub mod Requests
pub mod Time
pub mod Telemetry
pub mod Rpc
pub mod TimeSync
pub mod Fota
pub mod Socket
pub mod Provision
pub mod Attributes
pub mod Suspend
pub mod Client
pub mod System
pub mod Names
pub mod Fixtures
mod Tests
