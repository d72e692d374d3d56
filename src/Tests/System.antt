-- ===== src/Tests/System.antt =====
-- The theorems applied in concrete environments: the client's states, its sockets and whole runs.
use thingsboard_sdk.Base.{◌≡◌, ◌+◌, refl, true, none, some, [], ◌∷◌, arith}
use thingsboard_sdk.Types.{ok, connected, suspended}
use thingsboard_sdk.Requests.Balance.{SlabIsBounded, gained, spent}
use thingsboard_sdk.System.{operate}
use thingsboard_sdk.System.Watching.{AreExpected, run-initial-IsTracked}
use thingsboard_sdk.Attributes.Tracked.{IsTracked}
use thingsboard_sdk.Fixtures.{observed_operations}
use thingsboard_sdk.Socket.Live.{NetworkWorks}
use thingsboard_sdk.Attributes.Live.{RequestsWork, HasPath}
use thingsboard_sdk.Client.Start.Live.{token_of}
use thingsboard_sdk.Client.Api.Live.{connect-connected, resume-connected}
use thingsboard_sdk.Base.{ascii}
use thingsboard_sdk.Fixtures.{plenty_env, suspended_world}
use thingsboard_sdk.Codec.Bounds.{EncodersFit}
use thingsboard_sdk.Requests.Sized.{oversized}
use thingsboard_sdk.System.Sized.{run-initial-oversized}
use thingsboard_sdk.Fixtures.{fitting_env}
use thingsboard_sdk.CatPath.{cat_path}
use thingsboard_sdk.System.{run, initial}
use thingsboard_sdk.System.Sync.{run-depth, run-report}
use thingsboard_sdk.Requests.Frame.{depth, reported}
use thingsboard_sdk.Client.Settled.{agrees}
use thingsboard_sdk.Client.Start.{start_client}
use thingsboard_sdk.Client.Start.Depth.{start_client-depth}
use thingsboard_sdk.Client.Api.{initialize, suspend, resume, disconnect}
use thingsboard_sdk.Client.Api.Outcome.{
  Moves, is_err, Disconnects, suspend-Moves, resume-Moves, disconnect-Disconnects,
}
use thingsboard_sdk.CatPath.{api_path}
use thingsboard_sdk.Requests.{
  lock, unlock, event, is_active, request_alloc, request_free, send_coap,
}
use thingsboard_sdk.Rpc.{handle_response}
use thingsboard_sdk.Json
use thingsboard_sdk.Socket.{
  server_resolve, socket_connect_internal, socket_connect, socket_connect_udp, socket_close,
}
use thingsboard_sdk.Suspend.{socket_suspend, socket_resume}
use thingsboard_sdk.Attributes.{
  subscribe_attributes, unsubscribe_attributes, handle_attribute_notification,
}
use thingsboard_sdk.TimeSync.{start_time_sync}
use thingsboard_sdk.Telemetry.{send_telemetry}
use thingsboard_sdk.Telemetry.Post.{send_telemetry_request}
use thingsboard_sdk.Codec.{telemetry_encode}
use thingsboard_sdk.Fota.Start.{fota_init, fota_confirm_update}
use thingsboard_sdk.Client.Start.{set_state, set_state_with, handle_state}
use thingsboard_sdk.Client.Api.{is_valid_configuration, connect}
use thingsboard_sdk.Client.Deliver.{deliver, handle}
use thingsboard_sdk.System.Balance.{run-initial_balance}
use thingsboard_sdk.System.Sockets.{run-sockets}
use thingsboard_sdk.System.Lifecycle.{Route, run-Route}
use thingsboard_sdk.System.Stuck.{run-connecting}
use thingsboard_sdk.System.{connects, delivers, disconnects, resumes}
use thingsboard_sdk.Client.Plugged.{held}
use thingsboard_sdk.Socket.Owned.{opened, closed, Owned, socket_connect-Owned}
use thingsboard_sdk.Client.Api.Connect.{
  Connects, Initializes, connect-Connects, initialize-Initializes,
}
use thingsboard_sdk.Attributes.Outcome.{
  Observes, subscribe_attributes-Observes, unsubscribe_attributes-none,
}
use thingsboard_sdk.Fixtures.{observing_world}
use thingsboard_sdk.Types.{prov_resp, init, connecting, disconnected}
use thingsboard_sdk.Fixtures.{
  test_configuration, provision_env, connecting_world, disconnected_world, refused_delivery,
}
use thingsboard_sdk.Fixtures.{test_kconfig, test_env, test_operations, connected_world}

test_env-SlabIsBounded : SlabIsBounded test_env
test_env-SlabIsBounded h p = ground arith

run-initial_balance_example :
    gained 1 (run test_env test_operations initial).history
    ≡ spent 1 (run test_env test_operations initial).history
unfolding run initialize is_valid_configuration connect lock unlock socket_connect
    socket_connect_udp set_state set_state_with handle_state event start_client fota_init
    fota_confirm_update send_telemetry is_active request_alloc request_free send_coap cat_path
    api_path telemetry_encode subscribe_attributes start_time_sync suspend socket_suspend
    socket_close deliver handle send_telemetry_request handle_response server_resolve
    socket_connect_internal Json.telemetry_encode unsubscribe_attributes
    handle_attribute_notification
run-initial_balance_example =
    run-initial_balance test_env test_operations 1 test_env-SlabIsBounded refl

run-depth_example : depth (run test_env test_operations initial).history ≡ 0
run-depth_example = run-depth test_env test_operations

run-report_example :
    agrees
      (run test_env test_operations initial).client.state
      (reported (run test_env test_operations initial).history)
    ≡ true
unfolding run initialize is_valid_configuration connect lock unlock socket_connect
    socket_connect_udp set_state set_state_with handle_state event start_client fota_init
    fota_confirm_update send_telemetry is_active request_alloc request_free send_coap cat_path
    api_path telemetry_encode subscribe_attributes start_time_sync suspend socket_suspend
    socket_close deliver handle send_telemetry_request handle_response server_resolve
    socket_connect_internal Json.telemetry_encode unsubscribe_attributes
    handle_attribute_notification
run-report_example = run-report test_env test_operations refl

suspend-Moves_example :
    Moves connected suspended
      (is_err (socket_suspend test_env (lock connected_world).0).1)
      connected
      (suspend test_env connected_world)
suspend-Moves_example = suspend-Moves test_env connected_world

resume-Moves_example :
    Moves suspended connected
      (is_err (socket_resume test_env (lock connected_world).0).1)
      connected
      (resume test_env connected_world)
resume-Moves_example = resume-Moves test_env connected_world

disconnect-Disconnects_example : Disconnects connected (disconnect test_env connected_world)
disconnect-Disconnects_example = disconnect-Disconnects test_env connected_world

start_client-depth_example :
    start_client test_env 5 connected_world ≡ start_client test_env 2 connected_world
start_client-depth_example = start_client-depth test_env 3 connected_world

run-sockets_example :
    opened 3 (run test_env test_operations initial).history
    ≡ closed 3 (run test_env test_operations initial).history
      + held 3 (run test_env test_operations initial)
run-sockets_example = run-sockets test_env test_operations 3 refl

run-Route_example : Route test_operations init (run test_env test_operations initial).client.state
run-Route_example = run-Route test_env test_operations initial

run-connecting_example :
    (run provision_env
      (connects ∷ delivers prov_resp refused_delivery 0 ∷ disconnects ∷ resumes ∷ [])
      connecting_world).client.state
    ≡ connecting
run-connecting_example =
    run-connecting provision_env
      (connects ∷ delivers prov_resp refused_delivery 0 ∷ disconnects ∷ resumes ∷ [])
      connecting_world refl refl

connect-Connects_example : Connects disconnected (connect test_env disconnected_world)
connect-Connects_example = connect-Connects test_env disconnected_world

initialize-Initializes_example :
    Initializes test_kconfig
      (some test_configuration)
      initial
      (initialize test_env (some test_configuration) initial)
initialize-Initializes_example = initialize-Initializes test_env (some test_configuration) initial

socket_connect-Owned_example :
    Owned 3 0 disconnected_world (socket_connect test_env test_configuration disconnected_world)
socket_connect-Owned_example = socket_connect-Owned test_env 3 test_configuration disconnected_world

subscribe_attributes-Observes_example : Observes (subscribe_attributes test_env connected_world)
subscribe_attributes-Observes_example = subscribe_attributes-Observes test_env connected_world

unsubscribe_attributes-none_example :
    ((unsubscribe_attributes test_env observing_world).0.client.attributes_observation ≡ none)
    × ((unsubscribe_attributes test_env observing_world).1 ≡ ok 0)
unsubscribe_attributes-none_example =
    unsubscribe_attributes-none test_env observing_world (λ h r. refl)

fitting_env-EncodersFit : EncodersFit fitting_env
fitting_env-EncodersFit = record {
  timeseries = λ t n s h. ground arith;
  entries = λ t n s h. ground arith;
  telemetry = λ v n s h. ground arith;
  rpc_request = λ m n s h. ground arith;
  pb_telemetry = λ v n s h. ground arith;
  pb_rpc_request = λ m n s h. ground arith;
}

run-initial-oversized_example :
    oversized fitting_env.kconfig (run fitting_env test_operations initial).history ≡ 0
run-initial-oversized_example =
    run-initial-oversized fitting_env test_operations fitting_env-EncodersFit

observed_operations-AreExpected : AreExpected test_env observed_operations initial
unfolding operate initialize is_valid_configuration connect lock unlock socket_connect
    socket_connect_udp set_state set_state_with handle_state event start_client fota_init
    fota_confirm_update send_telemetry is_active request_alloc request_free send_coap cat_path
    api_path telemetry_encode subscribe_attributes start_time_sync send_telemetry_request
    server_resolve socket_connect_internal Json.telemetry_encode
observed_operations-AreExpected = (tt, (refl, (tt, tt)))

run-initial-IsTracked_example : IsTracked (run test_env observed_operations initial)
run-initial-IsTracked_example =
    run-initial-IsTracked test_env observed_operations refl (λ h r l. refl)
      observed_operations-AreExpected

plenty_env-NetworkWorks : NetworkWorks plenty_env
plenty_env-NetworkWorks = record {
  getaddrinfo = λ h s. refl;
  addrinfo = λ h s. refl;
  socket = λ h p. refl;
  bind = λ h s. refl;
  connect = λ h s. refl;
  setsockopt = λ h s o. refl;
}

plenty_env-RequestsWork : RequestsWork plenty_env
plenty_env-RequestsWork = record { alloc = λ h. refl; coap_req = λ h q. refl }

plenty_env-HasPath : HasPath plenty_env (token_of plenty_env disconnected_world.client.access_token)
unfolding cat_path
plenty_env-HasPath = (ascii "/api/v1/tok/attributes", refl)

connect-connected_example :
    ((connect plenty_env disconnected_world).1 ≡ ok 0)
    × ((connect plenty_env disconnected_world).0.client.state ≡ connected)
connect-connected_example =
    connect-connected plenty_env test_configuration disconnected_world plenty_env-NetworkWorks
      plenty_env-RequestsWork refl refl refl plenty_env-HasPath

suspended_world-HasPath : HasPath plenty_env suspended_world.client.access_token
unfolding cat_path
suspended_world-HasPath = (ascii "/api/v1/tok/attributes", refl)

resume-connected_example :
    ((resume plenty_env suspended_world).1 ≡ ok 0)
    × ((resume plenty_env suspended_world).0.client.state ≡ connected)
resume-connected_example =
    resume-connected plenty_env test_configuration suspended_world plenty_env-NetworkWorks
      plenty_env-RequestsWork refl refl suspended_world-HasPath
