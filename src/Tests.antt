-- ===== src/Tests.antt =====
-- The theorems applied in concrete environments: messages, requests and the firmware update.
mod System
use thingsboard_sdk.Base.{
  ◌%◌, ℕ, ◌≡◌, ◌-◌, ◌+◌, ◌*◌, ◌<◌, ◌≤◌, ◌++◌, ◌⊎◌, Bytes, ◌^◌, length, refl, true, List, [], ◌∷◌,
  ascii, arith,
}
use thingsboard_sdk.Types.{ok, err, eio, connected, suspended}
use thingsboard_sdk.Requests.Balance.{SlabIsBounded, gained, spent}
use thingsboard_sdk.CatPath.{cat_path}
use thingsboard_sdk.System.{run, initial}
use thingsboard_sdk.System.Sync.{run-depth, run-report}
use thingsboard_sdk.Requests.Frame.{depth, reported}
use thingsboard_sdk.Client.Settled.{agrees}
use thingsboard_sdk.Fota.{handle_fw_chunk}
use thingsboard_sdk.Fota.Chunks.{Outcome, handle_fw_chunk-Outcome}
use thingsboard_sdk.Fota.Start.{fota_on_attributes}
use thingsboard_sdk.Fota.Start.Laws.{fota_on_attributes-twice}
use thingsboard_sdk.Json.Shape.Success.{EncoderFillsUp, timeseries_encode-succeeds}
use thingsboard_sdk.Json.Shape.{Prefix, separated, EncoderFits, timeseries_encode-shape}
use thingsboard_sdk.Telemetry.Timeseries.{send_timeseries, prepare}
use thingsboard_sdk.Telemetry.Timeseries.Batch.{posted, send_timeseries-none}
use thingsboard_sdk.Client.Start.{start_client}
use thingsboard_sdk.Client.Start.Depth.{start_client-depth}
use thingsboard_sdk.Client.Api.{initialize, suspend, resume, disconnect}
use thingsboard_sdk.Client.Api.Outcome.{
  Moves, Disconnects, suspend-Moves, resume-Moves, disconnect-Disconnects,
}
use thingsboard_sdk.Provision.{accepted_token, access_token_array, stored_token, token_settings_set}
use thingsboard_sdk.Provision.Laws.{token_entry, stored_token-round_trip}
use thingsboard_sdk.Time.Timestamp.{timestamp_from_buf}
use thingsboard_sdk.Time.Timestamp.Laws.{timestamp_from_buf_lem}
use thingsboard_sdk.Protobuf.{attributes_update, attributes_decode_all, no_attributes}
use thingsboard_sdk.Protobuf.Laws.{known, attributes_decode_all-known}
use thingsboard_sdk.CatPath.{api_path}
use thingsboard_sdk.Requests.{
  lock, unlock, event, is_active, request_alloc, request_free, send_coap,
}
use thingsboard_sdk.Rpc.{handle_response}
use thingsboard_sdk.Json
use thingsboard_sdk.Socket.{
  server_resolve, socket_connect_internal, socket_connect, socket_connect_udp, socket_close,
}
use thingsboard_sdk.Suspend.{socket_suspend}
use thingsboard_sdk.Attributes.{
  subscribe_attributes, unsubscribe_attributes, handle_attribute_notification,
}
use thingsboard_sdk.TimeSync.{start_time_sync}
use thingsboard_sdk.Telemetry.{send_telemetry}
use thingsboard_sdk.Telemetry.Post.{send_telemetry_request}
use thingsboard_sdk.Codec.{telemetry_encode}
use thingsboard_sdk.Fota.Start.{fota_init, fota_confirm_update}
use thingsboard_sdk.Client.Start.{set_state, set_state_with, handle_state}
use thingsboard_sdk.Client.Api.{is_valid_configuration, connect}
use thingsboard_sdk.Client.Deliver.{deliver, handle}
use thingsboard_sdk.System.Balance.{run-initial_balance}
use thingsboard_sdk.System.Sockets.{run-sockets}
use thingsboard_sdk.System.Lifecycle.{Route, run-Route}
use thingsboard_sdk.System.Stuck.{run-connecting}
use thingsboard_sdk.System.{connects, delivers, disconnects, resumes}
use thingsboard_sdk.Client.Plugged.{held}
use thingsboard_sdk.Socket.Owned.{opened, closed, Owned, socket_connect-Owned}
use thingsboard_sdk.Client.Api.Connect.{
  Connects, Initializes, connect-Connects, initialize-Initializes,
}
use thingsboard_sdk.Types.{updating}
use thingsboard_sdk.Fixtures.{half_world}
use thingsboard_sdk.Requests.Apart.{installs, written}
use thingsboard_sdk.Fota.Download.{
  download, Counts, Guarded, Sized, download-Counts, download-works,
}
use thingsboard_sdk.Protobuf.Entries.{
  EntryEncoderFits, Encodings, joined, timeseries_encode-Encodings,
}
use thingsboard_sdk.Fixtures.{pb_env}
use thingsboard_sdk.Attributes.Outcome.{
  Observes, subscribe_attributes-Observes, unsubscribe_attributes-none,
}
use thingsboard_sdk.Fixtures.{observing_world}
use thingsboard_sdk.Names.{coap_response_code_to_str}
use thingsboard_sdk.Names.Laws.{coap_response_code_to_str_lem}
use thingsboard_sdk.Requests.Balance.{SlabIsExclusive}
use thingsboard_sdk.Telemetry.Timeseries.Payloads.{Batches, send_timeseries-Batches}
use thingsboard_sdk.Telemetry.Post.Payload.{sent}
use thingsboard_sdk.Time.{time_msec}
use thingsboard_sdk.TimeSync.{handle_time_response}
use thingsboard_sdk.TimeSync.Clock.{time_msec-synced}
use thingsboard_sdk.Fixtures.{exclusive_env, small_env, large_entry}
use thingsboard_sdk.Telemetry.Timeseries.TooLarge.{RunsOut, prepare-too_large}
use thingsboard_sdk.Types.{enomem}
use thingsboard_sdk.Types.{prov_resp, init, connecting, disconnected}
use thingsboard_sdk.Fixtures.{
  test_configuration, provision_env, connecting_world, disconnected_world, refused_delivery,
}
use thingsboard_sdk.Fixtures.{
  test_kconfig, test_env, test_delivery, test_operations, connected_world, downloading_world,
  test_timeseries, offered_world, test_response, test_entries, test_attributes,
}

handle_fw_chunk-Outcome_example :
    Outcome test_delivery downloading_world
      (handle_fw_chunk test_env test_delivery 0 downloading_world).0
handle_fw_chunk-Outcome_example = handle_fw_chunk-Outcome test_env test_delivery 0 downloading_world

test_env-EncoderFits : EncoderFits test_env
test_env-EncoderFits t n s h = ground arith

timeseries_encode-shape_example :
    (texts : List Bytes) × Prefix test_env test_timeseries texts
    × (ascii "[{},{}]" ≡ b'[' ∷ separated texts ++ b']' ∷ [])
    × (2 ≡ length texts)
    × (length (ascii "[{},{}]") < 20)
unfolding Json.timeseries_encode Json.encode_timestamped_telemetry_to_buf
timeseries_encode-shape_example =
    timeseries_encode-shape test_env test_timeseries 20 (ascii "[{},{}]") 2 test_env-EncoderFits
      refl

test_env-EncoderFillsUp : EncoderFillsUp test_env
unfolding Json.encode_timestamped_telemetry_to_buf
test_env-EncoderFillsUp t n x h = ground arith

timeseries_encode-succeeds_example :
    (r : Bytes × ℕ) × (Json.timeseries_encode test_env test_timeseries 20 ≡ ok r)
timeseries_encode-succeeds_example =
    timeseries_encode-succeeds test_env test_env-EncoderFits test_env-EncoderFillsUp test_timeseries
      20 (omega arith)

send_timeseries-none_example :
    (posted (send_timeseries test_env test_timeseries connected_world).0.history ≡ 0)
    ⊎ (((send_timeseries test_env test_timeseries connected_world).1 ≡ ok 0)
        ⊎ ((send_timeseries test_env test_timeseries connected_world).1 ≡ err eio))
send_timeseries-none_example = send_timeseries-none test_env test_timeseries connected_world

fota_on_attributes-twice_example :
    fota_on_attributes test_env (fota_on_attributes test_env offered_world).0
    ≡ ((fota_on_attributes test_env offered_world).0, tt)
fota_on_attributes-twice_example = fota_on_attributes-twice test_env offered_world

stored_token-round_trip_example :
    (token_settings_set (token_entry (stored_token (ascii "secret"))) (ascii "old")
      ≡ (ok 0, ascii "secret"))
    × (token_settings_set
          (token_entry (access_token_array (ascii "secret") (ascii "rest")))
          (ascii "old")
        ≡ (ok 0, ascii "secret"))
unfolding accepted_token
stored_token-round_trip_example =
    stored_token-round_trip test_response (ascii "secret") (ascii "rest") (ascii "old") refl refl

timestamp_from_buf_example : timestamp_from_buf (ascii "1700") ≡ ok 1700
timestamp_from_buf_example = timestamp_from_buf_lem (ascii "1700") (λ p. omega arith)

attributes_decode_all-known_example :
    attributes_decode_all test_kconfig test_entries no_attributes
    ≡ attributes_decode_all test_kconfig (known test_entries) no_attributes
attributes_decode_all-known_example =
    attributes_decode_all-known test_kconfig test_entries no_attributes

exclusive_env-SlabIsExclusive : SlabIsExclusive exclusive_env
exclusive_env-SlabIsExclusive h r p = ground arith

send_timeseries-Batches_example :
    (payloads : List Bytes) × Batches exclusive_env test_timeseries payloads
    × (sent (send_timeseries exclusive_env test_timeseries connected_world).0.history
        ≡ sent connected_world.history ++ payloads)
unfolding send_timeseries is_active thingsboard_sdk.Codec.timeseries_encode Json.timeseries_encode
    request_alloc send_telemetry_request cat_path api_path request_free send_coap
send_timeseries-Batches_example =
    send_timeseries-Batches exclusive_env test_timeseries connected_world
      exclusive_env-SlabIsExclusive (λ k. omega arith) refl

time_msec-synced_example :
    (time_msec test_env (handle_time_response test_env test_delivery connected_world).0).1
    ≡ (1234 + (1000 - 1000)) % 2 ^ 64
unfolding thingsboard_sdk.Codec.rpc_response_decode Json.rpc_response_decode
time_msec-synced_example =
    time_msec-synced test_env test_delivery 1234 connected_world
      (handle_time_response test_env test_delivery connected_world).0 refl refl (omega arith)
      (omega arith)

coap_response_code_to_str_example : coap_response_code_to_str (2 * 32 + 5) ≡ ascii "2.05"
coap_response_code_to_str_example = coap_response_code_to_str_lem 2 5 (omega arith) (omega arith)

download-Counts_example :
    Counts test_env 8 half_world
      (download test_env (test_delivery ∷ test_delivery ∷ []) 0 half_world)
    × Guarded test_env half_world
        (download test_env (test_delivery ∷ test_delivery ∷ []) 0 half_world)
    × Sized half_world (download test_env (test_delivery ∷ test_delivery ∷ []) 0 half_world)
download-Counts_example =
    download-Counts test_env (test_delivery ∷ test_delivery ∷ []) 0 half_world (omega arith)

download-works_example :
    ((download test_env (test_delivery ∷ test_delivery ∷ []) 0 half_world).fota.fw_state ≡ updating)
    × (installs (download test_env (test_delivery ∷ test_delivery ∷ []) 0 half_world).history ≡ 1)
    × (written (download test_env (test_delivery ∷ test_delivery ∷ []) 0 half_world).history ≡ 8)
download-works_example =
    download-works test_env (λ h b. refl, λ h b. refl, λ h b. refl)
      (test_delivery ∷ test_delivery ∷ []) 0 half_world refl refl (omega arith) (omega arith)

pb_env-EntryEncoderFits : EntryEncoderFits pb_env
pb_env-EntryEncoderFits t n s h = ground arith

timeseries_encode-Encodings_example :
    (texts : List Bytes) × Encodings pb_env 2 test_timeseries texts
    × (ascii "tt" ≡ joined texts)
    × (2 ≡ length test_timeseries)
    × (length (ascii "tt") ≤ 2)
unfolding thingsboard_sdk.Protobuf.timeseries_encode
timeseries_encode-Encodings_example =
    timeseries_encode-Encodings pb_env pb_env-EntryEncoderFits test_timeseries 2 (ascii "tt") 2 refl

small_env-SlabIsBounded : SlabIsBounded small_env
small_env-SlabIsBounded h p = ground arith

prepare-too_large_example : RunsOut [] connected_world (
    prepare small_env small_env.kconfig.coap_client_max_requests
      (large_entry ∷ test_timeseries)
      []
      connected_world)
unfolding Json.encode_timestamped_telemetry_to_buf
prepare-too_large_example =
    prepare-too_large small_env large_entry test_timeseries connected_world small_env-SlabIsBounded
      refl (omega arith) refl
